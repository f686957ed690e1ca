-- ===== src/Server/Lifecycle/Ready.antt =====
-- What start_server needs to find, and when each of its calls succeeds.
use log_aggregator_c.Base.{
  failed, ℕ, ◌≡◌, refl, Bool, true, false, not, ◌&&◌, Option, none, some, List, arith, length, ℤ,
}
use log_aggregator_c.Config.{cache_size, queue_capacity}
use log_aggregator_c.LogEntry.{LogEntry}
use log_aggregator_c.Cache.{Cache, cache_init}
use log_aggregator_c.Cache.Ring.{IsValid}
use log_aggregator_c.Cache.Insert.{cache_init-IsValid}
use log_aggregator_c.Queue.{Queue, queue_init}
use log_aggregator_c.Queue.Ring.{IsValid as QueueIsValid}
use log_aggregator_c.Queue.Refine.{queue_init-IsValid}
use log_aggregator_c.Db.{Libpq, db_init, db_init_writer}
use log_aggregator_c.Server.Lifecycle.{Server, Setup}

-- Nothing has been created: the process's static variables before start_server.
pub record IsFresh {pq : Libpq} (s : Server pq) : Type 0 where
  pub no_http : s.http ≡ false
  pub no_thread : s.worker.thread ≡ false
  pub no_cache_lock : s.cache_lock ≡ false
  pub no_queue_locks : s.queue_locks ≡ false
  pub storage : length s.worker.queue.buffer ≡ queue_capacity

abbrev pub is_some : {A : Type 0} → Option A → Bool
is_some none = false
is_some (some a) = true

-- malloc gives the memory that was asked for, or none.
abbrev pub Fits : Option (List LogEntry) → Type 0
Fits none = Unit
Fits (some memory) = length memory ≡ cache_size

-- Whether everything that start_server needs once CivetWeb runs can be had.
abbrev pub all_ready : (pq : Libpq) → Setup → pq.World → Bool
all_ready pq e w =
    (is_some e.memory && e.cache_lock_ok)
    && (not (failed (db_init pq e.conn_info w).0) && (e.lock_ok && e.not_empty_ok && e.not_full_ok))

-- What db_init_writer gives after db_init.
abbrev pub writer_of : (pq : Libpq) → Setup → Server pq → ℤ × Option pq.Conn × pq.World
writer_of pq e s =
    db_init_writer pq e.conn_info s.worker.writer (db_init pq e.conn_info s.worker.world).1

-- A server that takes requests: everything is in place, the queue and the cache are empty.
pub record IsUp (pq : Libpq) (e : Setup) (s t : Server pq) : Type 0 where
  pub cells : List LogEntry
  pub http_on : t.http ≡ true
  pub cache_lock_on : t.cache_lock ≡ true
  pub queue_locks_on : t.queue_locks ≡ true
  pub queue_on : t.worker.queue.initialized ≡ true
  pub queue_valid : QueueIsValid t.worker.queue
  pub queue_open : t.worker.queue.running ≡ true
  pub queue_empty : t.worker.queue.count ≡ 0
  pub cache_valid : IsValid t.worker.cache cells
  pub cache_sized : t.worker.cache.capacity ≡ cache_size
  pub cache_empty : t.worker.cache.count ≡ 0
  pub worker_on : t.worker.running ≡ true
  pub writer_same : t.worker.writer ≡ (writer_of pq e s).1
  pub world_same : t.worker.world ≡ (writer_of pq e s).2
  pub worker_thread : t.worker.thread ≡ (not (failed (writer_of pq e s).0) && e.thread_ok)

-- What start_server makes of a setup. The three cases exclude each other.
pub data Started (pq : Libpq) (e : Setup) (s : Server pq) (o : Option (Bool × Server pq))
    : Type 0 where
  refused : e.http_ok ≡ false → o ≡ some (false, s) → Started pq e s o
  up :
      (t : Server pq)
      → e.http_ok ≡ true
      → all_ready pq e s.worker.world ≡ true
      → o ≡ some (true, t)
      → IsUp pq e s t
      → Started pq e s o
  undefined : e.http_ok ≡ true → all_ready pq e s.worker.world ≡ false → o ≡ none → Started pq e s o

pub failed-cache_init :
    (c : Cache) (size : ℕ) (m : Option (List LogEntry)) (l : Bool)
    → failed (cache_init c size m l).0 ≡ not (is_some m && l)
unfolding cache_init
failed-cache_init c size none l = refl
failed-cache_init c size (some m) true = refl
failed-cache_init c size (some m) false = refl

pub failed-queue_init :
    (q : Queue) (a b c : Bool) → failed (queue_init q a b c).0 ≡ not (a && b && c)
unfolding queue_init
failed-queue_init q false b c = refl
failed-queue_init q true false c = refl
failed-queue_init q true true false = refl
failed-queue_init q true true true = refl

pub cache_init-ready :
    (c : Cache) (m : Option (List LogEntry)) (l : Bool)
    → Fits m
    → (is_some m && l) ≡ true
    → let c' = (cache_init c cache_size m l).1 in
      (cells : List LogEntry) × IsValid c' cells × (c'.capacity ≡ cache_size) × (c'.count ≡ 0)
unfolding cache_init
cache_init-ready c none l fits h = cc
cache_init-ready c (some m) false fits h = cc
cache_init-ready c (some m) true fits h =
    (m, cache_init-IsValid c cache_size m fits (omega arith) (omega arith), refl, refl)

pub queue_init-ready :
    (q : Queue) (a b c : Bool)
    → length q.buffer ≡ queue_capacity
    → (a && b && c) ≡ true
    → let q' = (queue_init q a b c).1 in
      QueueIsValid q' × (q'.running ≡ true) × (q'.count ≡ 0) × (q'.initialized ≡ true)
unfolding queue_init
queue_init-ready q false b c k h = cc
queue_init-ready q true false c k h = cc
queue_init-ready q true true false k h = cc
queue_init-ready q true true true k h = (queue_init-IsValid q k, refl, refl, refl)
