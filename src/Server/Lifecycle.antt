-- ===== src/Server/Lifecycle.antt =====
-- start_server and stop_server: what the process has created and released. A use that POSIX leaves
-- undefined (of a lock that is not initialised, or the join of a thread that was never created) is
-- a fault, `none`.
pub mod Intact
pub mod Joined
pub mod Stop
pub mod Ready
pub mod Start
use log_aggregator_c.Base.{
  ℕ, zero, suc, Bool, true, false, not, Option, none, some, List, ℤ, pos, negsuc, ◌>>=◌,
  if◌then◌else◌, failed,
}
use log_aggregator_c.Config.{cache_size}
use log_aggregator_c.LogEntry.{LogEntry}
use log_aggregator_c.Cache.{Cache, cache_init, cache_destroy}
use log_aggregator_c.Queue.{Queue, queue_init, queue_shutdown, queue_destroy}
use log_aggregator_c.Db.{Libpq, db_init, db_close}
use log_aggregator_c.Worker.{Worker, worker_start}
use log_aggregator_c.Worker.Joining.{WorkerRest, stop_and_join}

-- The static variables of all files, and which of the locks are initialised.
pub record Server (pq : Libpq) : Type 0 where
  pub http : Bool  -- server_ctx != NULL
  pub worker : Worker pq
  pub cache_lock : Bool
  pub queue_locks : Bool  -- the mutex of the queue and its two condition variables

-- What the calls of start_server meet: whether CivetWeb starts, the memory and the locks that the
-- cache and the queue get, the environment's LOGDB_CONN, and whether the thread can be created.
-- `rest` is what the worker still does when the server stops.
pub record Setup : Type 0 where
  pub http_ok : Bool
  pub memory : Option (List LogEntry)
  pub cache_lock_ok : Bool
  pub conn_info : Option (List ℕ)
  pub lock_ok : Bool
  pub not_empty_ok : Bool
  pub not_full_ok : Bool
  pub thread_ok : Bool
  pub rest : WorkerRest

module _ (pq : Libpq) where
  -- queue_shutdown locks the mutex and signals both conditions.
  unfoldable pub shut_queue : Server pq → Option (Server pq)
  shut_queue s =
      if s.queue_locks
      then some (record s { worker = record s.worker { queue = queue_shutdown s.worker.queue } })
      else none

  -- worker_stop, where the handle may be that of no thread.
  unfoldable pub join_worker : WorkerRest → Server pq → Option (Server pq)
  join_worker rest s =
      if not s.worker.thread
      then none
      else (stop_and_join pq rest s.worker >>= λ w. some (record s { worker = w }))

  unfoldable pub destroy_queue : Server pq → Option (Server pq)
  destroy_queue s =
      if not (queue_destroy s.worker.queue)
      then some s
      else if s.queue_locks
      then some (record s { queue_locks = false })
      else none

  unfoldable pub close_db : Server pq → Server pq
  close_db s =
      let (writer', world') = db_close pq s.worker.writer s.worker.world in
      record s { worker = record s.worker { writer = writer'; world = world' } }

  unfoldable pub destroy_cache : Server pq → Option (Server pq)
  destroy_cache s =
      if s.cache_lock
      then some (record s {
        worker = record s.worker { cache = cache_destroy s.worker.cache };
        cache_lock = false;
      })
      else none

  unfoldable pub stop_server : WorkerRest → Server pq → Option (Server pq)
  stop_server rest s = do
    s1 ← shut_queue (record s { http = false })
    s2 ← join_worker rest s1
    s3 ← destroy_queue s2
    destroy_cache (close_db s3)

  -- stop_server(); return NULL;
  abbrev pub give_up : WorkerRest → Server pq → Option (Bool × Server pq)
  give_up rest s = stop_server rest s >>= λ t. some (false, t)

  -- cache_init and queue_init, with the locks that they leave behind.
  unfoldable pub init_cache : Setup → Server pq → ℤ × Server pq
  init_cache e s =
      let (code, cache) = cache_init s.worker.cache cache_size e.memory e.cache_lock_ok in
      (
        code,
        record s {
          worker = record s.worker { cache = cache };
          cache_lock = if failed code then s.cache_lock else true;
        },
      )

  unfoldable pub init_db : Setup → Server pq → ℤ × Server pq
  init_db e s =
      let (code, world) = db_init pq e.conn_info s.worker.world in
      (code, record s { worker = record s.worker { world = world } })

  unfoldable pub init_queue : Setup → Server pq → ℤ × Server pq
  init_queue e s =
      let (code, queue) = queue_init s.worker.queue e.lock_ok e.not_empty_ok e.not_full_ok in
      (
        code,
        record s {
          worker = record s.worker { queue = queue };
          queue_locks = if failed code then s.queue_locks else true;
        },
      )

  -- The result is whether start_server returns the server's context, and not NULL.
  unfoldable pub start_server : Setup → Server pq → Option (Bool × Server pq)
  start_server e s =
      if not e.http_ok
      then some (false, record s { http = false })
      else (let (cache_code, s1) = init_cache e (record s { http = true }) in
          if failed cache_code
          then give_up e.rest s1
          else (let (db_code, s2) = init_db e s1 in
              if failed db_code
              then (destroy_cache s2 >>= give_up e.rest)
              else (let (queue_code, s3) = init_queue e s2 in
                  if failed queue_code
                  then (destroy_cache s3 >>= λ s4. give_up e.rest (close_db s4))
                  else some (
                    true,
                    record s3 { worker = worker_start pq e.conn_info e.thread_ok s3.worker },
                  ))))
