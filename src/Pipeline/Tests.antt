-- ===== src/Pipeline/Tests.antt =====
-- A table with three rows, two of them in the cache, and two more entries in the queue.
use native.Mathlib.Nat.{le_refl}
use text.Mathlib.Text.{◌==◌ as text_eq}
use log_aggregator_c.Base.{
  ℕ, ◌≡◌, refl, true, false, some, List, [], ◌∷◌, map, reverse, pos, negsuc, arith, replicate,
  length-replicate, take, drop, filter_if, if◌then◌else◌, length,
}
use log_aggregator_c.CString.{c_str, atoi, print_int}
use log_aggregator_c.CString.Copy.{field-IsField}
use log_aggregator_c.CString.Decimal.{strtol-FitsLong}
use log_aggregator_c.LogEntry.{LogEntry, no_entry}
use log_aggregator_c.Cache.{Cache, matches}
use log_aggregator_c.Cache.Ring.{IsValid, newest}
use log_aggregator_c.Queue.{Queue}
use log_aggregator_c.Queue.Ring.{IsValid as QueueIsValid, contents, oldest}
use log_aggregator_c.Db.{db_write}
use log_aggregator_c.Db.Fill.{IsSized, AllSized-replicate}
use log_aggregator_c.Db.Read.{ReadFails}
use log_aggregator_c.Db.Rows.{Row, entry_of}
use log_aggregator_c.Db.Memory.{Store, memory_pq, memory_table}
use log_aggregator_c.Handlers.FirstPage.{FirstPage, AllShort}
use log_aggregator_c.Handlers.Get.{
  GetVar, query_page, query_limit, query_level, query_value, handle_get_logs,
}
use log_aggregator_c.Handlers.Page.{Request}
use log_aggregator_c.Handlers.Ahead.{Ahead}
use log_aggregator_c.Handlers.Post.{Cjson, handle_post_log}
use log_aggregator_c.Worker.{Worker, worker_loop}
use log_aggregator_c.Worker.Order.{write_all}
use log_aggregator_c.Worker.Coherent.{IsClean, AllClean, IsCoherent}
use log_aggregator_c.Pipeline.Failures.{failed_writes_hide}
use log_aggregator_c.Pipeline.{LeavesClean, ServedAfter, handle_post_log-AllClean}

abbrev row : ℕ → Row
row n = record { timestamp = print_int (pos n); level = 73 ∷ 0 ∷ []; message = 109 ∷ 0 ∷ [] }

entry-IsClean : (n : ℕ) → IsClean (entry_of (row n))
entry-IsClean n = record {
  clean_level = field-IsField 15 (73 ∷ 0 ∷ []);
  clean_message = field-IsField 255 (109 ∷ 0 ∷ []);
  clean_time = strtol-FitsLong (print_int (pos n));
}

abbrev waiting : Queue
waiting = record {
  buffer = entry_of (row 4) ∷ entry_of (row 5) ∷ replicate 1022 no_entry;
  head = 0;
  tail = 2;
  count = 2;
  running = true;
  initialized = true;
}

waiting-IsValid : QueueIsValid waiting
waiting-IsValid = record {
  storage = omega (arith, length-replicate 1022 no_entry);
  head_in = omega arith;
  count_in = omega arith;
  span = refl;
}

waiting-AllClean : AllClean (contents waiting)
unfolding oldest
waiting-AllClean = (entry-IsClean 4, (entry-IsClean 5, tt))

abbrev store : Store
store = record { opened = 1; rows = row 3 ∷ row 2 ∷ row 1 ∷ []; up = true }

abbrev cells : List LogEntry
cells = entry_of (row 2) ∷ entry_of (row 3) ∷ no_entry ∷ []

abbrev cache : Cache
cache = record { cells = some cells; capacity = 3; count = 2; head = 0; tail = 2 }

cache-IsValid : IsValid cache cells
cache-IsValid = record {
  memory = refl;
  storage = refl;
  positive = omega arith;
  small = omega arith;
  tail_in = omega arith;
  head_in = omega arith;
  count_in = omega arith;
  span = refl;
}

abbrev busy : Worker memory_pq
busy = record {
  queue = waiting;
  cache = cache;
  writer = some true;
  world = store;
  running = true;
  thread = true;
}

store-AllShort : AllShort (memory_table.rows store)
unfolding memory_table c_str
store-AllShort = (omega arith, (omega arith, (omega arith, tt)))

abbrev example_var : GetVar
example_var query name dst = if text_eq name "page" then (pos 1, query) else (negsuc 0, dst)

abbrev blank : LogEntry
blank = record { level = replicate 16 0; message = replicate 256 0; timestamp = pos 0 }

blank-IsSized : IsSized blank
blank-IsSized = record { level_size = refl; message_size = refl }

abbrev zero_page : Request example_var
unfolding query_limit query_value
zero_page = record {
  query = some (48 ∷ 0 ∷ []);
  memory = λ limit. some (replicate 10 blank);
  buffer = replicate 10 blank;
  allocated = refl;
  room = le_refl 10;
  sized = AllSized-replicate 10 blank blank-IsSized;
}

-- A parser that finds the body in every item.
abbrev example_json : Cjson
example_json = record {
  Value = List ℕ;
  parse = λ body. some body;
  get_item = λ value name. some value;
  is_string = λ value. true;
  valuestring = λ value. 105 ∷ 0 ∷ [];
}

handle_post_log-AllClean_example : LeavesClean (
    handle_post_log example_json
      (pos 4)
      true
      ((105 ∷ 110 ∷ []) ∷ (102 ∷ 111 ∷ []) ∷ [])
      blank
      (pos 7)
      waiting)
handle_post_log-AllClean_example =
    handle_post_log-AllClean example_json (pos 4) ((105 ∷ 110 ∷ []) ∷ (102 ∷ 111 ∷ []) ∷ []) blank
      (pos 7) waiting-IsValid waiting-AllClean blank-IsSized refl (omega arith) (omega arith)
      (omega arith)

-- A worker that has lost its connection to a database that answers others, and one entry in its
-- queue.
abbrev cut_off : Worker memory_pq
cut_off = record busy { queue = record waiting { tail = 1; count = 1 }; writer = some false }

cut_off-IsValid : QueueIsValid cut_off.queue
cut_off-IsValid = record {
  storage = omega (arith, length-replicate 1022 no_entry);
  head_in = omega arith;
  count_in = omega arith;
  span = refl;
}

cut_off-IsCoherent : IsCoherent memory_table cut_off cells
unfolding newest memory_table
cut_off-IsCoherent = record { cache_valid = cache-IsValid; agrees = refl }

nothing_written :
    memory_table.rows (write_all memory_pq (some false) (contents cut_off.queue) cut_off.world)
    ≡ memory_table.rows cut_off.world
unfolding write_all db_write oldest memory_table
nothing_written = refl

failed_writes_hide_example :
    let matching = filter_if (matches (query_level example_var zero_page.query)) in
    let entries = map entry_of (memory_table.rows cut_off.world) in
    ServedAfter
      (worker_loop memory_pq (length (contents cut_off.queue)) cut_off)
      (λ t.
        handle_get_logs example_var memory_pq
          (some [])
          zero_page.query
          zero_page.memory
          t.cache
          t.world)
      (λ w.
        Ahead
          (ReadFails memory_pq (some []) (query_level example_var zero_page.query) w)
          10
          (matching (reverse (contents cut_off.queue)))
          (matching (take 2 entries))
          (matching (drop 2 entries)))
unfolding query_page query_limit query_value atoi oldest memory_table
failed_writes_hide_example =
    failed_writes_hide memory_table example_var (some []) zero_page 10 cut_off cut_off-IsValid
      cut_off-IsCoherent store-AllShort refl (omega arith) nothing_written refl refl
