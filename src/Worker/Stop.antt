-- ===== src/Worker/Stop.antt =====
-- How the worker ends when the server stops: stop_server calls queue_shutdown and then worker_stop.
use log_aggregator_c.Base.{
  ◌≡◌, refl, ap, ◌∙◌, false, Option, none, some, List, [], ◌∷◌, negsuc, take,
}
use log_aggregator_c.LogEntry.{LogEntry}
use log_aggregator_c.Cache.Ring.{IsValid, recent}
use log_aggregator_c.Cache.Insert.{Holds, cache_insert_lem}
use log_aggregator_c.Queue.{Queue, Pass, returns, queue_pop, queue_shutdown}
use log_aggregator_c.Queue.Fifo.{Fifo, poll, poll_items}
use log_aggregator_c.Queue.Ring.{IsValid as QueueIsValid, contents}
use log_aggregator_c.Queue.Refine.{view, PopDone, queue_pop_refines, queue_shutdown-IsValid}
use log_aggregator_c.Db.{Libpq, db_write}
use log_aggregator_c.Worker.{
  Worker, Turn, exits, goes_on, worker_turn, worker_pop, worker_loop, worker_stop,
}
use log_aggregator_c.Worker.Order.{queue_pop-Popped, Holds-some}

-- The worker's state once both calls have been made.
abbrev pub stopped : {pq : Libpq} → Worker pq → Worker pq
stopped {pq} s = worker_stop pq (record s { queue = queue_shutdown s.queue })

-- How a worker in the state `s` ends that was inside queue_pop when the server stopped, with `es` in
-- the queue and `held` in the cache.
pub data Ended (pq : Libpq) (s : Worker pq) (es held : List LogEntry)
    (o : Option (Turn × Worker pq)) : Type 0 where
  at_once :
      {t : Worker pq}
      → es ≡ []
      → o ≡ some (exits, t)
      → t.cache ≡ s.cache
      → t.world ≡ s.world
      → Ended pq s es held o
  after_one :
      {e : LogEntry} {rest : List LogEntry} {t : Worker pq}
      → es ≡ e ∷ rest
      → o ≡ some (goes_on, t)
      → contents t.queue ≡ rest
      → Holds (some t.cache) s.cache.capacity (take s.cache.capacity (e ∷ held))
      → t.world ≡ (db_write pq s.writer e s.world).1
      → worker_loop pq 1 t ≡ some (exits, t)
      → Ended pq s es held o

-- A pop from an empty queue that is shut down fails.
pub empty_pop :
    {q : Queue}
    → QueueIsValid q
    → q.running ≡ false
    → contents q ≡ []
    → (q' : Queue) × (queue_pop q ≡ some (returns (negsuc 0), none, q')) × QueueIsValid q'
unfolding poll
empty_pop {q} v off h = (p.queue, p.result ∙ ap (λ r. some (r.0, r.1, p.queue)) agrees, p.valid)
  where
    p : PopDone (queue_pop q) (poll (view q))
    p = queue_pop_refines v

    agrees :
        ◌≡◌ {A = Pass × Option LogEntry × Fifo}
          (p.pass, p.out, view p.queue)
          (returns (negsuc 0), none, record { items = []; running = false })
    agrees = p.agrees ∙ ap (λ l. poll_items l q.running) h ∙ ap (poll_items []) off

-- When the queue is shut down and worker_running cleared, a worker inside queue_pop ends at once if the queue is empty, with the cache
-- and the database as they were; else it puts the oldest entry into the cache, in front of what that
-- holds, calls db_write for it, and ends at its next turn, however many others the queue holds: these
-- stay there.
pub stopped_worker_lem :
    (pq : Libpq) (s : Worker pq) {cells : List LogEntry}
    → QueueIsValid s.queue
    → IsValid s.cache cells
    → Ended pq s (contents s.queue) (recent s.cache cells) (worker_pop pq (stopped s))
unfolding worker_pop worker_loop worker_turn worker_stop queue_shutdown
stopped_worker_lem pq s {cells} v c = go (contents s.queue) refl
  where
    go :
        (es : List LogEntry)
        → contents s.queue ≡ es
        → Ended pq s (contents s.queue) (recent s.cache cells) (worker_pop pq (stopped s))
    go [] h =
        let p = empty_pop (queue_shutdown-IsValid v) refl h in
        at_once {t = record (stopped s) { queue = p.0 }} h (rw p.1 refl) refl refl
    go (e ∷ rest) h =
        let p = queue_pop-Popped (queue_shutdown-IsValid v) h in
        let k = cache_insert_lem e c in
        let t : Worker pq = record (stopped s) {
          queue = p.queue;
          cache = k.cache;
          world = (db_write pq s.writer e s.world).1;
        } in
        after_one {t = t} h (rw (p.result, k.result) refl) p.left (Holds-some k) refl refl
