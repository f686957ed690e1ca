-- ===== src/Handlers/Get.antt =====
-- handle_get_logs: a page of entries from the cache, filled up from the database.
use Prim.Native.String.{String}
use log_aggregator_c.Base.{
  ℕ, zero, suc, ◌+◌, Option, none, some, List, [], ◌∷◌, ◌++◌, ℤ, pos, negsuc, take, drop, replicate,
  leb_ℤ, ltb_ℤ, if◌then◌else◌, ◌>>=◌, load, mul32, add32, sub32,
}
use log_aggregator_c.Config.{default_get_limit, page_size, pages_in_cache}
use log_aggregator_c.CString.{atoi, c_str, upcase}
use log_aggregator_c.LogEntry.{LogEntry}
use log_aggregator_c.Cache.{Cache, cache_get_range}
use log_aggregator_c.Db.{Libpq, db_read_range}
use log_aggregator_c.Handlers.{Item, Reply, out_of_memory, logs}

-- mg_get_var(query, strlen(query), name, dst, sizeof(dst)): its result, and what `dst` holds then.
abbrev pub GetVar : Type 0
GetVar = (query : List ℕ) → (name : String) → (dst : List ℕ) → ℤ × List ℕ

-- The two tests on the limit, in turn.
unfoldable pub clamp_limit : ℤ → ℤ
clamp_limit limit =
    let limit' = if ltb_ℤ limit (pos 0) then pos default_get_limit else limit in
    if ltb_ℤ (pos page_size) limit' then pos page_size else limit'

module _ (get_var : GetVar) where
  -- What stands in the 16 bytes for a parameter of the query, if it has a value.
  unfoldable pub query_value : Option (List ℕ) → String → Option (List ℕ)
  query_value none name = none
  query_value (some query) name =
      let (n, dst) = get_var query name (replicate 16 0) in
      if ltb_ℤ (pos 0) n then some dst else none

  unfoldable pub query_page : Option (List ℕ) → ℤ
  query_page query = elim (query_value query "page") [
    | none ↦ pos 0
    | some s ↦ if ltb_ℤ (atoi s) (pos 0) then pos 0 else atoi s
  ]

  unfoldable pub query_limit : Option (List ℕ) → ℤ
  query_limit query = elim (query_value query "limit") [
    | none ↦ pos default_get_limit
    | some s ↦ clamp_limit (atoi s)
  ]

  unfoldable pub query_level : Option (List ℕ) → Option (List ℕ)
  query_level query = elim (query_value query "level") [ none ↦ none | some s ↦ some (upcase s) ]

module _ (pq : Libpq) (conn_info : Option (List ℕ)) where
  open pq use {World}

  -- The second call, into `logs + got`, for what the cache did not have.
  unfoldable pub fill_from_db :
      (limit : ℤ)
      → Option (List ℕ)
      → (got : ℕ) → List LogEntry
      → World
      → Option (ℤ × List LogEntry × World)
  fill_from_db limit level got buffer w =
      if ltb_ℤ (pos got) limit
      then (db_read_range pq conn_info (sub32 limit (pos got)) (pos got) level (drop got buffer) w
          >>= λ r. some (add32 (pos got) r.0, take got buffer ++ r.1, r.2))
      else some (pos got, buffer, w)

  -- `total` and what `logs` holds, from `int total = 0` on.
  unfoldable pub fetch :
      Cache
      → (page limit : ℤ) → Option (List ℕ)
      → List LogEntry
      → World
      → Option (ℤ × List LogEntry × World)
  fetch cache page limit level buffer w =
      if leb_ℤ page (pos pages_in_cache)
      then (cache_get_range cache limit (mul32 page (pos page_size)) level buffer >>= λ r.
          fill_from_db limit level r.0 r.1 w)
      else db_read_range pq conn_info limit (mul32 page (pos page_size)) level buffer w

-- The loop that builds the array: `left` entries from index `i` on.
unfoldable pub items_from : (left i : ℕ) → List LogEntry → Option (List Item)
items_from zero i entries = some []
items_from (suc left) i entries = do
  e ← load entries (pos i)
  items ← items_from left (i + 1) entries
  some
      (record { timestamp = e.timestamp; level = c_str e.level; message = c_str e.message } ∷ items)

-- A negative `total` makes no round.
unfoldable pub items_of : ℤ → List LogEntry → Option (List Item)
unfolding items_from
items_of (pos n) entries = items_from n 0 entries
items_of (negsuc n) entries = some []

-- `memory` is what malloc returns for `limit` entries, its content left over from before.
unfoldable pub handle_get_logs :
    (get_var : GetVar) (pq : Libpq) (conn_info query : Option (List ℕ))
    (memory : ℤ → Option (List LogEntry))
    → Cache
    → pq.World
    → Option ((ℕ × Reply) × pq.World)
handle_get_logs get_var pq conn_info query memory cache w =
    let limit = query_limit get_var query in
    elim (memory limit) [
      | none ↦ some ((500, out_of_memory), w)
      | some buffer ↦
          fetch pq conn_info cache (query_page get_var query) limit (query_level get_var query)
            buffer w
          >>= λ r. items_of r.0 r.1 >>= λ items. some ((200, logs items), r.2)
    ]
