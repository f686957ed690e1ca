-- ===== src/Cache/Tests.antt =====
-- A cache of three places: runs of the code, and the theorems at concrete inputs.
use log_aggregator_c.Base.{
  ℕ, ◌≡◌, refl, true, none, some, List, [], ◌∷◌, reverse, pos, arith, take, add32, sub32, rem32,
}
use log_aggregator_c.CString.{str_eq}
use log_aggregator_c.LogEntry.{LogEntry, no_entry}
use log_aggregator_c.Cache.{Cache, cache_init, cache_insert, cache_get_range, scan, matches}
use log_aggregator_c.Cache.Ring.{newest, IsValid}
use log_aggregator_c.Cache.Insert.{Holds, insert_all, insert_all_lem}
use log_aggregator_c.Cache.Read.{cache_get_range_lem}

-- level "I" or "E"; the timestamp tells the entries apart
abbrev info : ℕ → LogEntry
info n = record { level = 73 ∷ 0 ∷ []; message = 109 ∷ 0 ∷ []; timestamp = pos n }

abbrev error : ℕ → LogEntry
error n = record { level = 69 ∷ 0 ∷ []; message = 109 ∷ 0 ∷ []; timestamp = pos n }

abbrev memory : List LogEntry
memory = no_entry ∷ no_entry ∷ no_entry ∷ []

abbrev unset : Cache
unset = record { cells = none; capacity = 0; count = 0; head = 0; tail = 0 }

-- After the insertions of 1 to 4 the place of 1 has been taken by 4.
abbrev cells : List LogEntry
cells = error 4 ∷ info 2 ∷ info 3 ∷ []

abbrev full : Cache
full = record { cells = some cells; capacity = 3; count = 3; head = 1; tail = 1 }

full-IsValid : IsValid full cells
full-IsValid = record {
  memory = refl;
  storage = refl;
  positive = omega arith;
  small = omega arith;
  tail_in = omega arith;
  head_in = omega arith;
  count_in = omega arith;
  span = refl;
}

inserts_run :
    insert_all
      (some (cache_init unset 3 (some memory) true).1)
      (info 1 ∷ info 2 ∷ info 3 ∷ error 4 ∷ [])
    ≡ some full
unfolding insert_all cache_init cache_insert
inserts_run = refl

get_range_run :
    cache_get_range full (pos 2) (pos 0) (some (73 ∷ 0 ∷ [])) memory
    ≡ some (2, info 3 ∷ info 2 ∷ no_entry ∷ [])
unfolding cache_get_range scan matches str_eq add32 sub32 rem32
get_range_run = refl

insert_all_lem_example :
    Holds
      (insert_all
        (some (cache_init unset 3 (some memory) true).1)
        (info 1 ∷ info 2 ∷ info 3 ∷ error 4 ∷ []))
      3
      (take 3 (reverse (info 1 ∷ info 2 ∷ info 3 ∷ error 4 ∷ [])))
insert_all_lem_example =
    insert_all_lem unset 3 memory (info 1 ∷ info 2 ∷ info 3 ∷ error 4 ∷ []) refl (omega arith)
      (omega arith)

cache_get_range_lem_example :
    cache_get_range full (pos 2) (pos 0) (some (73 ∷ 0 ∷ [])) memory
    ≡ some (2, info 3 ∷ info 2 ∷ no_entry ∷ [])
unfolding newest matches str_eq
cache_get_range_lem_example =
    cache_get_range_lem 2 0 (some (73 ∷ 0 ∷ [])) memory full-IsValid (omega arith)
