-- ===== src/Server/Tests.antt =====
-- A POST against a server whose database is in memory.
use log_aggregator_c.Base.{
  ℕ, ◌≡◌, refl, false, true, none, some, List, [], ◌∷◌, pos, negsuc, replicate,
}
use log_aggregator_c.LogEntry.{no_entry}
use log_aggregator_c.Config.{queue_capacity}
use log_aggregator_c.Db.Memory.{memory_pq}
use log_aggregator_c.Handlers.Post.{Cjson}
use log_aggregator_c.Handlers.Get.{GetVar}
use log_aggregator_c.Server.{Call, Shared, post_method, handle_logs}
use log_aggregator_c.Server.Lifecycle.{Server, Setup, start_server, stop_server}
use log_aggregator_c.Server.Lifecycle.Start.{start_server_lem}
use log_aggregator_c.Server.Lifecycle.Ready.{IsFresh, Started}
use log_aggregator_c.Server.Lifecycle.Stop.{Released, stop_server_lem}
use log_aggregator_c.Worker.Joining.{WorkerRest, in_pop, before_write}
use log_aggregator_c.Base.{length-replicate, arith}
use log_aggregator_c.Config.{cache_size}
use log_aggregator_c.Cache.{cache_init}
use log_aggregator_c.Cache.Insert.{cache_init-IsValid}
use log_aggregator_c.Queue.{queue_init}
use log_aggregator_c.Queue.Refine.{queue_init-IsValid}
use log_aggregator_c.Db.Memory.{memory_counts}
use log_aggregator_c.Server.Dispatch.{Honest, Ends, handle_logs_lem}

-- JSON texts are their own values, and every field is the whole text.
abbrev text_json : Cjson
text_json = record {
  Value = List ℕ;
  parse = λ body. some body;
  get_item = λ value name. some value;
  is_string = λ value. true;
  valuestring = λ value. b'I' ∷ 0 ∷ [];
}

abbrev no_var : GetVar
no_var query name dst = (negsuc 0, dst)

abbrev idle : Shared memory_pq
idle = record {
  queue = record {
    buffer = replicate queue_capacity no_entry;
    head = 0;
    tail = 0;
    count = 0;
    running = true;
    initialized = true;
  };
  cache = record { cells = none; capacity = 0; count = 0; head = 0; tail = 0 };
  world = record { opened = 0; rows = []; up = true };
}

abbrev posting : Call
posting = record {
  method = post_method;
  content_length = pos 1;
  got_memory = true;
  chunks = (7 ∷ []) ∷ [];
  stack = no_entry;
  now = pos 5;
  query = none;
  memory = λ limit. none;
}

handle_logs_lem_example :
    Ends
      (λ a. Honest a.0 × (a.1.cache ≡ idle.cache))
      (handle_logs text_json no_var memory_pq (some []) posting idle)
handle_logs_lem_example = handle_logs_lem text_json no_var memory_pq (some []) posting idle

-- The process at its start, and a setup in which everything can be had.
abbrev fresh : Server memory_pq
fresh = record {
  http = false;
  worker = record {
    queue = idle.queue;
    cache = idle.cache;
    writer = none;
    world = idle.world;
    running = true;
    thread = false;
  };
  cache_lock = false;
  queue_locks = false;
}

fresh-IsFresh : IsFresh fresh
fresh-IsFresh = record {
  no_http = refl;
  no_thread = refl;
  no_cache_lock = refl;
  no_queue_locks = refl;
  storage = length-replicate queue_capacity no_entry;
}

abbrev setup : Setup
setup = record {
  http_ok = true;
  memory = some (replicate cache_size no_entry);
  cache_lock_ok = true;
  conn_info = some [];
  lock_ok = true;
  not_empty_ok = true;
  not_full_ok = true;
  thread_ok = true;
  rest = record { standing = in_pop; turns = 0 };
}

start_server_lem_example : Started memory_pq setup fresh (start_server memory_pq setup fresh)
start_server_lem_example =
    start_server_lem memory_pq setup fresh fresh-IsFresh (length-replicate cache_size no_entry)

-- A server with an empty queue and a cache of three places.
abbrev running : Server memory_pq
running = record {
  http = true;
  worker = record fresh.worker {
    queue = (queue_init idle.queue true true true).1;
    cache = (cache_init idle.cache 3 (some (replicate 3 no_entry)) true).1;
    writer = some true;
    thread = true;
  };
  cache_lock = true;
  queue_locks = true;
}

-- The worker holds an entry that it has put into the cache, and starts two turns more.
abbrev busy : WorkerRest
busy = record { standing = before_write no_entry; turns = 2 }

stop_server_lem_example : Released memory_counts running (stop_server memory_pq busy running)
unfolding queue_init
stop_server_lem_example =
    stop_server_lem memory_counts busy running
      (queue_init-IsValid idle.queue (length-replicate queue_capacity no_entry))
      (cache_init-IsValid idle.cache 3 (replicate 3 no_entry) refl (omega arith) (omega arith)) refl
      refl refl refl
