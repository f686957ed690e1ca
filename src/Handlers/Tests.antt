-- ===== src/Handlers/Tests.antt =====
-- Requests to the handlers, and the theorems at concrete inputs.
use Prim.Native.String.{String}
use native.Mathlib.Nat.{le_refl}
use text.Mathlib.Text.{◌==◌ as text_eq}
use log_aggregator_c.Base.{
  ℕ, ◌*◌, ◌≡◌, refl, Bool, true, false, ◌⊎◌, Option, none, some, List, [], ◌∷◌, map, pos, negsuc,
  arith, length-replicate, replicate, take, drop, filter_if, if◌then◌else◌,
}
use log_aggregator_c.Config.{queue_capacity, page_size}
use log_aggregator_c.CString.{c_str, print_int, atoi}
use log_aggregator_c.LogEntry.{LogEntry, no_entry}
use log_aggregator_c.Cache.{Cache, matches}
use log_aggregator_c.Cache.Ring.{recent, newest, IsValid}
use log_aggregator_c.Cache.Scan.{page_of}
use log_aggregator_c.Queue.{Queue, queue_init}
use log_aggregator_c.Queue.Ring.{IsValid as QueueIsValid}
use log_aggregator_c.Queue.Refine.{queue_init-IsValid}
use log_aggregator_c.Db.Read.{ReadFails, db_page}
use log_aggregator_c.Db.Fill.{IsSized, AllSized-replicate}
use log_aggregator_c.Db.Rows.{Row, entry_of}
use log_aggregator_c.Db.Memory.{Store, memory_pq, memory_table}
use log_aggregator_c.Handlers.Post.{Cjson, handle_post_log}
use log_aggregator_c.Handlers.Accept.{Done, wanted, handle_post_log_lem}
use log_aggregator_c.Handlers.Get.{
  GetVar, query_value, query_page, query_limit, query_level, handle_get_logs,
}
use log_aggregator_c.Handlers.Page.{Request, Answer, Shows, get_cached_lem, later_page_restarts}
use log_aggregator_c.Handlers.FirstPage.{AllShort}
use log_aggregator_c.Handlers.Late.{Repeats, ReadTwice, late_get}

-- Every body is an object whose two fields are the body itself.
data Document : Type 0 where
  object : List ℕ → Document
  chars : List ℕ → Document

field_of : Document → String → Option Document
field_of (object s) name = some (chars s)
field_of (chars s) name = none

is_text : Option Document → Bool
is_text none = false
is_text (some (object s)) = false
is_text (some (chars s)) = true

text_of : Option Document → List ℕ
text_of (some (chars s)) = s
text_of _ = []

abbrev example_json : Cjson
example_json = record {
  Value = Document;
  parse = λ body. some (object body);
  get_item = field_of;
  is_string = is_text;
  valuestring = text_of;
}

abbrev blank : LogEntry
blank = record { level = replicate 16 0; message = replicate 256 0; timestamp = pos 0 }

blank-IsSized : IsSized blank
blank-IsSized = record { level_size = refl; message_size = refl }

abbrev zeroed : Queue
zeroed = record {
  buffer = replicate queue_capacity no_entry;
  head = 0;
  tail = 0;
  count = 0;
  running = true;
  initialized = false;
}

abbrev fresh : Queue
fresh = (queue_init zeroed true true true).1

fresh-IsValid : QueueIsValid fresh
fresh-IsValid = queue_init-IsValid zeroed (length-replicate queue_capacity no_entry)

handle_post_log_lem_example :
    Done (wanted example_json blank (pos 7) (pos 4) (105 ∷ 110 ∷ 102 ∷ 111 ∷ [])) fresh (
      handle_post_log example_json
        (pos 4)
        true
        ((105 ∷ 110 ∷ []) ∷ (102 ∷ 111 ∷ []) ∷ [])
        blank
        (pos 7)
        fresh)
handle_post_log_lem_example =
    handle_post_log_lem example_json (pos 4) ((105 ∷ 110 ∷ []) ∷ (102 ∷ 111 ∷ []) ∷ []) blank
      (pos 7) fresh-IsValid (omega arith) (omega arith) (omega arith)

-- A query names a page by its only byte.
abbrev example_var : GetVar
example_var query name dst = if text_eq name "page" then (pos 1, query) else (negsuc 0, dst)

abbrev buffer : List LogEntry
buffer = replicate 10 blank

abbrev request : List ℕ → Request example_var
unfolding query_limit query_value
request page = record {
  query = some page;
  memory = λ limit. some buffer;
  buffer = buffer;
  allocated = refl;
  room = le_refl 10;
  sized = AllSized-replicate 10 blank blank-IsSized;
}

abbrev row : ℕ → Row
row n = record { timestamp = print_int (pos n); level = 73 ∷ 0 ∷ []; message = 109 ∷ 0 ∷ [] }

abbrev store : Store
store = record { opened = 1; rows = row 3 ∷ row 2 ∷ row 1 ∷ []; up = true }

-- The two newest rows are in the cache.
abbrev cells : List LogEntry
cells = entry_of (row 2) ∷ entry_of (row 3) ∷ no_entry ∷ []

abbrev cache : Cache
cache = record { cells = some cells; capacity = 3; count = 2; head = 0; tail = 2 }

cache-IsValid : IsValid cache cells
cache-IsValid = record {
  memory = refl;
  storage = refl;
  positive = omega arith;
  small = omega arith;
  tail_in = omega arith;
  head_in = omega arith;
  count_in = omega arith;
  span = refl;
}

-- pages 0 and 10
abbrev zero_page : List ℕ
zero_page = b'0' ∷ 0 ∷ []

abbrev tenth_page : List ℕ
tenth_page = b'1' ∷ b'0' ∷ 0 ∷ []

abbrev level_of : List ℕ → Option (List ℕ)
level_of page = query_level example_var (request page).query

get_cached_lem_example :
    Shows memory_pq
      (handle_get_logs example_var memory_pq
        (some [])
        (some zero_page)
        (λ limit. some buffer)
        cache
        store)
      (Answer
        (ReadFails memory_pq (some []) (level_of zero_page) store)
        store.rows
        10
        (level_of zero_page)
        (page_of 10 (0 * page_size) (level_of zero_page) (recent cache cells)))
unfolding query_page query_limit query_value atoi memory_table
get_cached_lem_example =
    get_cached_lem example_var memory_pq memory_table (some []) (request zero_page) 0 10 store
      cache-IsValid refl refl (omega arith)

later_page_restarts_example :
    Shows memory_pq
      (handle_get_logs example_var memory_pq
        (some [])
        (some tenth_page)
        (λ limit. some buffer)
        cache
        store)
      (λ shown.
        (shown ≡ db_page 10 0 (level_of tenth_page) store.rows)
        ⊎ (ReadFails memory_pq (some []) (level_of tenth_page) store 10 0 × (shown ≡ [])))
unfolding query_page query_limit query_value atoi memory_table
later_page_restarts_example =
    later_page_restarts example_var memory_pq memory_table (some []) (request tenth_page) 10 10
      store cache-IsValid refl refl (omega arith) (omega arith)

-- The table after the worker has written one more entry.
abbrev later_store : Store
later_store = record store { rows = row 4 ∷ store.rows }

later_store-AllShort : AllShort (memory_table.rows later_store)
unfolding memory_table c_str
later_store-AllShort = (omega arith, (omega arith, (omega arith, (omega arith, tt))))

late_get_example :
    let front = filter_if (matches none) (take 2 (map entry_of store.rows)) in
    ReadTwice memory_pq (some []) cache 10 none buffer later_store (
      Repeats
        (ReadFails memory_pq (some []) none later_store)
        10
        front
        (drop 1 front)
        (filter_if (matches none) (drop 2 (map entry_of store.rows))))
unfolding memory_table newest matches
late_get_example =
    late_get memory_pq memory_table (some []) 10 none buffer (entry_of (row 4) ∷ [])
      (map entry_of store.rows) later_store cache-IsValid refl refl later_store-AllShort
      (AllSized-replicate 10 blank blank-IsSized) (le_refl 10) (omega arith) (omega arith)
      (omega arith)
