-- ===== src/Server/Lifecycle/Start.antt =====
-- start_server, from the state in which the process starts.
use log_aggregator_c.Base.{
  failed, zero, suc, ◌≡◌, refl, ap, sym, ◌∙◌, inl, inr, Bool, true, false, not, ◌&&◌, Bool-cases,
  Option, none, some, ℤ, pos, negsuc, ◌>>=◌,
}
use log_aggregator_c.Config.{cache_size}
use log_aggregator_c.Cache.{cache_init}
use log_aggregator_c.Queue.{queue_init}
use log_aggregator_c.Db.{Libpq, db_init}
use log_aggregator_c.Worker.{Worker, create_thread, worker_start}
use log_aggregator_c.Worker.Joining.{WorkerRest}
use log_aggregator_c.Server.Lifecycle.{
  Server, Setup, start_server, init_cache, init_db, init_queue, close_db, destroy_cache, give_up,
}
use log_aggregator_c.Server.Lifecycle.Stop.{stop_server_no_thread}
use log_aggregator_c.Server.Lifecycle.Ready.{
  refused, up, undefined, IsFresh, is_some, Fits, writer_of, IsUp, Started, failed-cache_init,
  failed-queue_init, cache_init-ready, queue_init-ready,
}

module _ (pq : Libpq) where
  -- No thread, so the way out by stop_server ends in a join of none.
  destroy_cache-no_thread :
      (s : Server pq) (f : Server pq → Option (Bool × Server pq))
      → ((t : Server pq) → t.worker.thread ≡ false → f t ≡ none)
      → s.worker.thread ≡ false
      → (destroy_cache pq s >>= f) ≡ none
  unfolding destroy_cache
  destroy_cache-no_thread s f h n = elim (Bool-cases s.cache_lock) [
    | inr l ↦ rw l refl
    | inl l ↦ rw l (h _ n)
  ]

  give_up-no_thread :
      (rest : WorkerRest) (s : Server pq) → s.worker.thread ≡ false → give_up pq rest s ≡ none
  give_up-no_thread rest s n = rw (stop_server_no_thread pq rest s n) refl

  create_thread-no_thread :
      (status : ℤ) (ok : Bool) (w : Worker pq)
      → w.thread ≡ false
      → create_thread pq status ok w ≡ record w { thread = not (failed status) && ok }
  create_thread-no_thread (pos zero) true w h = refl
  create_thread-no_thread (pos zero) false w h = ap (λ t. record w { thread = t }) h
  create_thread-no_thread (pos (suc n)) ok w h = ap (λ t. record w { thread = t }) h
  create_thread-no_thread (negsuc n) ok w h = ap (λ t. record w { thread = t }) h

  -- start_server as the process calls it, with memory of the size asked for or none: if CivetWeb
  -- does not start it returns NULL and has done nothing; if all else can be had as well it returns
  -- the context of a server that is up, with an empty queue and an empty cache, and with a worker
  -- thread exactly when the writer's connection and the thread could be had; in every other case it
  -- runs into undefined behaviour.
  pub start_server_lem :
      (e : Setup) (s : Server pq) → IsFresh s → Fits e.memory → Started pq e s (start_server pq e s)
  unfolding start_server init_cache init_db init_queue close_db worker_start
  start_server_lem e s fresh fits = elim (Bool-cases e.http_ok) [
    | inr off ↦
        refused off (rw off (ap (λ h. some (false, record s { http = h })) (sym fresh.no_http)))
    | inl on ↦ elim (Bool-cases (is_some e.memory && e.cache_lock_ok)) [
      | inr a ↦
          let f1 =
            failed-cache_init s.worker.cache cache_size e.memory e.cache_lock_ok ∙ ap not a in
          undefined on (rw a refl) (rw (on, f1) (give_up-no_thread e.rest _ fresh.no_thread))
      | inl a ↦
          let f1 =
            failed-cache_init s.worker.cache cache_size e.memory e.cache_lock_ok ∙ ap not a in
          elim (Bool-cases (failed db.0)) [
            | inl d ↦ undefined on (rw (a, d) refl) (
                rw (on, f1, d)
                  (destroy_cache-no_thread _ (give_up pq e.rest) (give_up-no_thread e.rest)
                    fresh.no_thread))
            | inr d ↦ elim (Bool-cases (e.lock_ok && e.not_empty_ok && e.not_full_ok)) [
              | inr q ↦
                  let f3 =
                    failed-queue_init s.worker.queue e.lock_ok e.not_empty_ok e.not_full_ok
                    ∙ ap not q in
                  undefined on (rw (a, d, q) refl) (
                    rw (on, f1, d, f3)
                      (destroy_cache-no_thread _ (λ s4. give_up pq e.rest (close_db pq s4))
                        (λ t n. give_up-no_thread e.rest (close_db pq t) n) fresh.no_thread))
              | inl q ↦
                  let f3 =
                    failed-queue_init s.worker.queue e.lock_ok e.not_empty_ok e.not_full_ok
                    ∙ ap not q in
                  up t on (rw (a, d, q) refl)
                    (rw (on, f1, d, f3)
                      (ap (λ w. some (true, with_worker w))
                        (create_thread-no_thread writer.0 e.thread_ok started fresh.no_thread)))
                    (t-IsUp a q)
            ]
          ]
    ]
  ]
    where
      db : ℤ × pq.World
      db = db_init pq e.conn_info s.worker.world

      writer : ℤ × Option pq.Conn × pq.World
      writer = writer_of pq e s

      started : Worker pq
      started = record s.worker {
        queue = (queue_init s.worker.queue e.lock_ok e.not_empty_ok e.not_full_ok).1;
        cache = (cache_init s.worker.cache cache_size e.memory e.cache_lock_ok).1;
        writer = writer.1;
        world = writer.2;
        running = true;
      }

      with_worker : Worker pq → Server pq
      with_worker w = record { http = true; worker = w; cache_lock = true; queue_locks = true }

      t : Server pq
      t = with_worker (record started { thread = not (failed writer.0) && e.thread_ok })

      t-IsUp :
          (is_some e.memory && e.cache_lock_ok) ≡ true
          → (e.lock_ok && e.not_empty_ok && e.not_full_ok) ≡ true
          → IsUp pq e s t
      t-IsUp a q =
          let (cells, valid, sized, empty) =
            cache_init-ready s.worker.cache e.memory e.cache_lock_ok fits a in
          let (queue_valid, running, no_entry, flag) =
            queue_init-ready s.worker.queue e.lock_ok e.not_empty_ok e.not_full_ok fresh.storage
              q in
          record {
            cells = cells;
            http_on = refl;
            cache_lock_on = refl;
            queue_locks_on = refl;
            queue_on = flag;
            queue_valid = queue_valid;
            queue_open = running;
            queue_empty = no_entry;
            cache_valid = valid;
            cache_sized = sized;
            cache_empty = empty;
            worker_on = refl;
            writer_same = refl;
            world_same = refl;
            worker_thread = refl;
          }
