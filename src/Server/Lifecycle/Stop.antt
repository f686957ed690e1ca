-- ===== src/Server/Lifecycle/Stop.antt =====
-- stop_server: what it releases, and what it needs.
use log_aggregator_c.Base.{
  ℕ, ◌-◌, ◌≡◌, refl, ap, ◌∙◌, Bool, true, false, Bool-cases, Option, none, some, List, arith, ◌>>=◌,
  if◌then◌else◌, not, inl, inr,
}
use log_aggregator_c.LogEntry.{LogEntry}
use log_aggregator_c.Cache.{cache_destroy}
use log_aggregator_c.Cache.Ring.{IsValid}
use log_aggregator_c.Queue.{queue_shutdown, queue_destroy}
use log_aggregator_c.Queue.Ring.{IsValid as QueueIsValid}
use log_aggregator_c.Queue.Refine.{queue_shutdown-IsValid}
use log_aggregator_c.Db.{Libpq, db_close}
use log_aggregator_c.Db.Connections.{Counts}
use log_aggregator_c.Worker.{Worker, worker_stop}
use log_aggregator_c.Worker.Joining.{WorkerRest, stop_and_join}
use log_aggregator_c.Server.Lifecycle.Joined.{stop_and_join-Joined}
use log_aggregator_c.Server.Lifecycle.{
  Server, stop_server, shut_queue, join_worker, destroy_queue, close_db, destroy_cache,
}

shut_queue-live :
    (pq : Libpq) (s : Server pq)
    → s.queue_locks ≡ true
    → shut_queue pq s
      ≡ some (record s { worker = record s.worker { queue = queue_shutdown s.worker.queue } })
unfolding shut_queue
shut_queue-live pq s q = rw q refl

join_worker-joined :
    (pq : Libpq) (rest : WorkerRest) (s : Server pq) {w : Worker pq}
    → s.worker.thread ≡ true
    → stop_and_join pq rest s.worker ≡ some w
    → join_worker pq rest s ≡ some (record s { worker = w })
unfolding join_worker
join_worker-joined pq rest s t j = unless _ _ t ∙ rw j refl
  where
    unless : {A : Type 0} {b : Bool} (x y : A) → b ≡ true → (if not b then x else y) ≡ y
    unless x y e = rw e refl

module _ {pq : Libpq} (counts : Counts pq) where
  open counts use {open_count, open_count-finish, open_count-exec}

  -- How many connections a variable holds.
  abbrev pub held : Option pq.Conn → ℕ
  held none = 0
  held (some conn) = 1

  -- What stop_server leaves behind: nothing is held any more.
  pub record Released (s : Server pq) (o : Option (Server pq)) : Type 0 where
    pub state : Server pq
    pub result : o ≡ some state
    pub no_http : state.http ≡ false
    pub no_thread : state.worker.thread ≡ false
    pub no_cache : state.worker.cache.cells ≡ none
    pub no_cache_lock : state.cache_lock ≡ false
    pub no_queue_locks : state.queue_locks ≡ false
    pub no_writer : state.worker.writer ≡ none
    pub closed : open_count state.worker.world ≡ open_count s.worker.world - held s.worker.writer

  db_close-closes :
      (writer : Option pq.Conn) (w : pq.World)
      → ((db_close pq writer w).0 ≡ none)
        × (open_count (db_close pq writer w).1 ≡ open_count w - held writer)
  unfolding db_close
  db_close-closes none w = (refl, omega arith)
  db_close-closes (some conn) w = (refl, open_count-finish conn w)

  -- What stop_server does once the thread is joined.
  release :
      (s : Server pq)
      → s.http ≡ false
      → s.worker.thread ≡ false
      → s.worker.queue.initialized ≡ true
      → s.queue_locks ≡ true
      → s.cache_lock ≡ true
      → Released s (destroy_queue pq s >>= λ s3. destroy_cache pq (close_db pq s3))
  unfolding destroy_queue close_db destroy_cache queue_destroy cache_destroy
  release s h t i q c =
      let d = db_close-closes s.worker.writer s.worker.world in
      record {
        state = record s {
          worker = record s.worker {
            cache = cache_destroy s.worker.cache;
            writer = (db_close pq s.worker.writer s.worker.world).0;
            world = (db_close pq s.worker.writer s.worker.world).1;
          };
          cache_lock = false;
          queue_locks = false;
        };
        result = rw (i, q, c) refl;
        no_http = h;
        no_thread = t;
        no_cache = refl;
        no_cache_lock = refl;
        no_queue_locks = refl;
        no_writer = d.0;
        closed = d.1;
      }

  -- stop_server on a server whose locks are initialised and whose worker thread was created: it
  -- never uses anything undefined and its join returns, wherever in its loop the worker stands, however
  -- many turns it makes before it is told to end, and whatever the queue holds; and afterwards the HTTP server, the thread, the cache, the locks and the writer's
  -- connection are all released.
  pub stop_server_lem :
      (rest : WorkerRest) (s : Server pq) {cells : List LogEntry}
      → QueueIsValid s.worker.queue
      → IsValid s.worker.cache cells
      → s.worker.queue.initialized ≡ true
      → s.queue_locks ≡ true
      → s.cache_lock ≡ true
      → s.worker.thread ≡ true
      → Released s (stop_server pq rest s)
  unfolding stop_server queue_shutdown worker_stop
  stop_server_lem rest s {cells} v c i q l t =
      let k = stop_and_join-Joined counts rest s1.worker (queue_shutdown-IsValid v) c refl in
      rw (shut_queue-live pq (record s { http = false }) q) (
        after_join (join_worker pq rest s1) k.state k.no_thread k.intact.same_flag
          k.intact.same_writer k.intact.same_count (join_worker-joined pq rest s1 t k.result))
    where
      s1 : Server pq
      s1 = record s {
        http = false;
        worker = record s.worker { queue = queue_shutdown s.worker.queue };
      }

      after_join :
          (o : Option (Server pq)) (w' : Worker pq)
          → w'.thread ≡ false
          → w'.queue.initialized ≡ s.worker.queue.initialized
          → w'.writer ≡ s.worker.writer
          → open_count w'.world ≡ open_count s.worker.world
          → o ≡ some (record s1 { worker = w' })
          → Released s (o >>= λ s2. destroy_queue pq s2 >>= λ s3. destroy_cache pq (close_db pq s3))
      after_join o w' ended same_flag same_writer same_count e =
          let r = release (record s1 { worker = w' }) refl ended (same_flag ∙ i) q l in
          record {
            state = r.state;
            result = rw e r.result;
            no_http = r.no_http;
            no_thread = r.no_thread;
            no_cache = r.no_cache;
            no_cache_lock = r.no_cache_lock;
            no_queue_locks = r.no_queue_locks;
            no_writer = r.no_writer;
            closed = omega (arith, r.closed, same_count, ap held same_writer);
          }

-- Without a worker thread stop_server joins what was never created, whatever else the state is.
pub stop_server_no_thread :
    (pq : Libpq) (rest : WorkerRest) (s : Server pq)
    → s.worker.thread ≡ false
    → stop_server pq rest s ≡ none
unfolding stop_server shut_queue join_worker
stop_server_no_thread pq rest s t = elim (Bool-cases s.queue_locks) [
  | inl q ↦ rw (q, t) refl
  | inr q ↦ rw q refl
]
