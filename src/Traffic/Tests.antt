-- ===== src/Traffic/Tests.antt =====
-- One POST on a server with two rows in its table: the worker has put the entry into the cache and
-- is about to write it, and then has written it.
use native.Mathlib.Nat.{le_refl}
use text.Mathlib.Text.{◌==◌ as text_eq}
use log_aggregator_c.Base.{
  ℕ, ◌≡◌, refl, true, some, List, [], ◌∷◌, ◌++◌, map, reverse, pos, negsuc, arith, replicate,
  length-replicate, take, drop, filter_if, if◌then◌else◌,
}
use log_aggregator_c.CString.{c_str, atoi, print_int}
use log_aggregator_c.LogEntry.{LogEntry, no_entry}
use log_aggregator_c.Cache.{Cache, cache_insert, matches}
use log_aggregator_c.Cache.Ring.{IsValid, newest}
use log_aggregator_c.Queue.{Queue, queue_push, queue_pop}
use log_aggregator_c.Queue.Ring.{IsValid as QueueIsValid, contents, oldest}
use log_aggregator_c.Db.{db_write}
use log_aggregator_c.Db.Fill.{IsSized, AllSized-replicate}
use log_aggregator_c.Db.Read.{ReadFails}
use log_aggregator_c.Db.Rows.{Row, entry_of, row_of}
use log_aggregator_c.Db.Memory.{Store, memory_pq, memory_table, memory-Inserts, memory-Reads}
use log_aggregator_c.Handlers.Get.{
  GetVar, query_page, query_limit, query_level, query_value, handle_get_logs,
}
use log_aggregator_c.Handlers.Page.{Request, Shows}
use log_aggregator_c.Handlers.Ahead.{Ahead}
use log_aggregator_c.Handlers.Post.{Cjson, post_entry, post_push}
use log_aggregator_c.Worker.{Worker, worker_loop}
use log_aggregator_c.Traffic.{
  at_test, writing, Traffic, posts, post_ends, goes_on, pops, inserts, writes, Reach, started,
  later,
}
use log_aggregator_c.Traffic.Invariant.{in_hand, unwritten, Fresh}
use log_aggregator_c.Traffic.Reads.{IsFront, accepted_in_order, cache-IsFront, racing_get}
use log_aggregator_c.Traffic.Runs.{Run}
use log_aggregator_c.Traffic.Runs.Loop.{worker_loop-Run}

abbrev row : ℕ → Row
row n = record { timestamp = print_int (pos n); level = 73 ∷ 0 ∷ []; message = 109 ∷ 0 ∷ [] }

abbrev queue : Queue
queue = record {
  buffer = replicate 1024 no_entry;
  head = 0;
  tail = 0;
  count = 0;
  running = true;
  initialized = true;
}

queue-IsValid : QueueIsValid queue
queue-IsValid = record {
  storage = length-replicate 1024 no_entry;
  head_in = omega arith;
  count_in = omega arith;
  span = refl;
}

abbrev cells : List LogEntry
cells = no_entry ∷ no_entry ∷ no_entry ∷ []

abbrev cache : Cache
cache = record { cells = some cells; capacity = 3; count = 0; head = 0; tail = 0 }

cache-IsValid : IsValid cache cells
cache-IsValid = record {
  memory = refl;
  storage = refl;
  positive = omega arith;
  small = omega arith;
  tail_in = omega arith;
  head_in = omega arith;
  count_in = omega arith;
  span = refl;
}

abbrev store : Store
store = record { opened = 1; rows = row 2 ∷ row 1 ∷ []; up = true }

abbrev server : Worker memory_pq
server = record {
  queue = queue;
  cache = cache;
  writer = some true;
  world = store;
  running = true;
  thread = true;
}

abbrev base : List LogEntry
base = entry_of (row 2) ∷ entry_of (row 1) ∷ []

server-Fresh : Fresh memory_table 3 base server
unfolding oldest newest memory_table c_str
server-Fresh = record {
  queue_valid = queue-IsValid;
  queue_empty = refl;
  cache_empty = record {
    cache = cache;
    cells = cells;
    result = refl;
    valid = cache-IsValid;
    same_size = refl;
    entries = refl;
  };
  rows_at_first = refl;
  rows_short = (omega arith, (omega arith, tt));
}

-- A parser that finds the body in every item.
abbrev example_json : Cjson
example_json = record {
  Value = List ℕ;
  parse = λ body. some body;
  get_item = λ value name. some value;
  is_string = λ value. true;
  valuestring = λ value. 105 ∷ 0 ∷ [];
}

abbrev blank : LogEntry
blank = record { level = replicate 16 0; message = replicate 256 0; timestamp = pos 0 }

blank-IsSized : IsSized blank
blank-IsSized = record { level_size = refl; message_size = refl }

abbrev entry : LogEntry
entry = post_entry example_json blank (pos 7) (some []) (some [])

abbrev caching_done : Traffic memory_pq
caching_done = record {
  server = record server {
    queue = record queue { buffer = entry ∷ replicate 1023 no_entry; head = 1; tail = 1 };
    cache = record {
      cells = some (entry ∷ no_entry ∷ no_entry ∷ []);
      capacity = 3;
      count = 1;
      head = 0;
      tail = 1;
    };
  };
  place = writing entry;
  waiting = [];
  reading = [];
  accepted = entry ∷ [];
  inserted = entry ∷ [];
  intact = true;
}

caching_done-Reach : Reach example_json memory_pq (some []) server caching_done
unfolding post_push queue_push queue_pop cache_insert
caching_done-Reach =
    later
      (later
        (later
          (later (later started (posts blank (pos 7) (some []) (some []) blank-IsSized refl refl))
            (post_ends [] [] entry 200 _ refl refl refl))
          (goes_on refl refl refl))
        (pops entry refl refl refl))
      (inserts entry refl refl refl)

abbrev all_done : Traffic memory_pq
all_done = record caching_done {
  server = record caching_done.server {
    world = record { opened = 1; rows = row_of entry ∷ row 2 ∷ row 1 ∷ []; up = true };
  };
  place = at_test;
}

all_done-Reach : Reach example_json memory_pq (some []) server all_done
unfolding db_write
all_done-Reach = later caching_done-Reach (writes entry (pos 0) refl refl refl)

accepted_in_order_example :
    reverse (contents caching_done.server.queue)
      ++ (in_hand caching_done.place
          ++ (unwritten caching_done.place
              ++ map entry_of (memory_table.rows caching_done.server.world)))
    ≡ reverse caching_done.accepted ++ base
accepted_in_order_example =
    accepted_in_order memory-Inserts memory-Reads example_json (some []) 3 base server-Fresh
      caching_done-Reach refl

cache-IsFront_example :
    IsFront caching_done.server.cache
      (unwritten caching_done.place ++ map entry_of (memory_table.rows caching_done.server.world))
cache-IsFront_example =
    cache-IsFront memory-Inserts memory-Reads example_json (some []) 3 base server-Fresh
      caching_done-Reach refl

abbrev example_var : GetVar
example_var query name dst = if text_eq name "page" then (pos 1, query) else (negsuc 0, dst)

abbrev zero_page : Request example_var
unfolding query_limit query_value
zero_page = record {
  query = some (48 ∷ 0 ∷ []);
  memory = λ limit. some (replicate 10 blank);
  buffer = replicate 10 blank;
  allocated = refl;
  room = le_refl 10;
  sized = AllSized-replicate 10 blank blank-IsSized;
}

racing_get_example :
    let matching = filter_if (matches (query_level example_var zero_page.query)) in
    let entries = map entry_of (memory_table.rows caching_done.server.world) in
    Shows memory_pq
      (handle_get_logs example_var memory_pq
        (some [])
        zero_page.query
        zero_page.memory
        caching_done.server.cache
        caching_done.server.world)
      (Ahead
        (ReadFails memory_pq
          (some [])
          (query_level example_var zero_page.query)
          caching_done.server.world)
        10
        (matching (entry ∷ []))
        (matching (take 0 entries))
        (matching (drop 0 entries)))
unfolding query_page query_limit query_value atoi
racing_get_example =
    racing_get memory-Inserts memory-Reads example_json (some []) 3 base server-Fresh
      caching_done-Reach refl example_var zero_page 10 refl refl entry refl

worker_loop-Run_example :
    Run example_json memory_pq (some []) all_done (worker_loop memory_pq 2 all_done.server)
worker_loop-Run_example =
    worker_loop-Run memory-Inserts memory-Reads example_json (some []) 3 base 2 server-Fresh
      all_done-Reach refl
