-- ===== src/Worker/Tests.antt =====
-- The worker with two entries in its queue, a cache of three places and the database in memory.
use log_aggregator_c.Base.{
  ℕ, refl, true, none, some, List, [], ◌∷◌, pos, arith, replicate, length-replicate,
}
use log_aggregator_c.LogEntry.{LogEntry, no_entry}
use log_aggregator_c.Cache.{Cache, cache_init}
use log_aggregator_c.Cache.Ring.{IsValid, newest, recent}
use log_aggregator_c.Cache.Insert.{cache_init-IsValid}
use log_aggregator_c.Queue.{Queue}
use log_aggregator_c.Queue.Ring.{IsValid as QueueIsValid, contents, oldest}
use log_aggregator_c.Db.Memory.{memory_pq}
use log_aggregator_c.Worker.{Worker, worker_loop, worker_pop}
use log_aggregator_c.Worker.Order.{Worked, worker_loop_lem}
use log_aggregator_c.Worker.Stop.{stopped, Ended, stopped_worker_lem}

abbrev entry : ℕ → LogEntry
entry n = record { level = 73 ∷ 0 ∷ []; message = 109 ∷ 0 ∷ []; timestamp = pos n }

abbrev memory : List LogEntry
memory = no_entry ∷ no_entry ∷ no_entry ∷ []

abbrev unset : Cache
unset = record { cells = none; capacity = 0; count = 0; head = 0; tail = 0 }

abbrev waiting : Queue
waiting = record {
  buffer = entry 1 ∷ entry 2 ∷ replicate 1022 no_entry;
  head = 0;
  tail = 2;
  count = 2;
  running = true;
  initialized = true;
}

waiting-IsValid : QueueIsValid waiting
waiting-IsValid = record {
  storage = omega (arith, length-replicate 1022 no_entry);
  head_in = omega arith;
  count_in = omega arith;
  span = refl;
}

abbrev busy : Worker memory_pq
busy = record {
  queue = waiting;
  cache = (cache_init unset 3 (some memory) true).1;
  writer = some true;
  world = record { opened = 1; rows = []; up = true };
  running = true;
  thread = true;
}

empty-IsValid : IsValid busy.cache memory
empty-IsValid = cache_init-IsValid unset 3 memory refl (omega arith) (omega arith)

worker_loop_lem_example :
    Worked memory_pq busy busy.cache.capacity
      (entry 1 ∷ [])
      (entry 2 ∷ [])
      []
      (worker_loop memory_pq 1 busy)
unfolding cache_init oldest newest
worker_loop_lem_example =
    worker_loop_lem memory_pq busy (entry 1 ∷ []) (entry 2 ∷ []) waiting-IsValid empty-IsValid refl
      refl

stopped_worker_lem_example :
    Ended memory_pq busy
      (contents waiting)
      (recent busy.cache memory)
      (worker_pop memory_pq (stopped busy))
stopped_worker_lem_example = stopped_worker_lem memory_pq busy waiting-IsValid empty-IsValid
