-- ===== src/Worker.antt =====
-- src/server/log_worker.c: the thread that takes entries out of the queue, puts them into the cache
-- and writes them to the database. A turn runs from the test of the while loop, or from the wakeup
-- in queue_pop, until the next test, the next sleep or the end of the thread. `none` is an access
-- out of bounds.
pub mod Order
pub mod Stop
pub mod Joining
pub mod Coherent
mod Tests
use log_aggregator_c.Base.{
  ℕ, zero, suc, Bool, true, false, Option, none, some, List, ℤ, pos, negsuc, ◌>>=◌, if◌then◌else◌,
}
use log_aggregator_c.LogEntry.{LogEntry}
use log_aggregator_c.Cache.{Cache, cache_insert}
use log_aggregator_c.Queue.{Queue, Pass, sleeps, returns, queue_pop}
use log_aggregator_c.Db.{Libpq, db_write, db_init_writer}

-- The static variables of log_worker.c, and what the thread shares with the request handlers.
pub record Worker (pq : Libpq) : Type 0 where
  pub queue : Queue
  pub cache : Cache
  pub writer : Option pq.Conn  -- pg_conn_write
  pub world : pq.World
  pub running : Bool  -- worker_running
  pub thread : Bool  -- whether worker_thread has been created

pub data Turn : Type 0 where
  exits : Turn
  asleep : Turn
  goes_on : Turn

module _ (pq : Libpq) where
  -- What follows queue_pop. Only a pop that returned 0 has written the local `entry`.
  abbrev pub after_pop : Pass → Option LogEntry → Worker pq → Option (Turn × Worker pq)
  after_pop sleeps out s = some (asleep, s)
  after_pop (returns (negsuc k)) out s = some (exits, s)
  after_pop (returns (pos (suc k))) out s = some (exits, s)
  after_pop (returns (pos zero)) none s = none
  after_pop (returns (pos zero)) (some entry) s = cache_insert s.cache entry >>= λ cache'.
      some (goes_on, record s { cache = cache'; world = (db_write pq s.writer entry s.world).1 })

  -- The body of the loop, or its rest when a sleeper in queue_pop wakes up.
  unfoldable pub worker_pop : Worker pq → Option (Turn × Worker pq)
  worker_pop s = queue_pop s.queue >>= λ r. after_pop r.0 r.1 (record s { queue = r.2 })

  unfoldable pub worker_turn : Worker pq → Option (Turn × Worker pq)
  worker_turn s = if s.running then worker_pop s else some (exits, s)

  -- worker_loop for at most `n` turns, until it sleeps or ends.
  unfoldable pub worker_loop : ℕ → Worker pq → Option (Turn × Worker pq)
  worker_loop zero s = some (goes_on, s)
  worker_loop (suc n) s = worker_turn s >>= λ r. elim r.0 [
    | exits ↦ some r
    | asleep ↦ some r
    | goes_on ↦ worker_loop n r.1
  ]

  -- What follows db_init_writer, with its result.
  abbrev pub create_thread : ℤ → Bool → Worker pq → Worker pq
  create_thread (pos zero) true s = record s { thread = true }
  create_thread (pos zero) false s = s
  create_thread (pos (suc k)) thread_ok s = s
  create_thread (negsuc k) thread_ok s = s

  -- `thread_ok` is whether pthread_create succeeds.
  unfoldable pub worker_start : Option (List ℕ) → Bool → Worker pq → Worker pq
  worker_start conn_info thread_ok s =
      let (status, writer', world') = db_init_writer pq conn_info s.writer s.world in
      create_thread status thread_ok (record s { writer = writer'; world = world'; running = true })

  -- The flag that worker_stop clears; it then joins the thread: Worker/Joining.
  unfoldable pub worker_stop : Worker pq → Worker pq
  worker_stop s = record s { running = false }
