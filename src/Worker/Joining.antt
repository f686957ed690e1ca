-- ===== src/Worker/Joining.antt =====
-- src/server/log_worker.c: worker_stop as a whole. It clears worker_running, which the thread reads in
-- the test of its loop only, and joins the thread, wherever that stands.
use log_aggregator_c.Base.{ℕ, false, Option, none, some, pos, ◌>>=◌}
use log_aggregator_c.LogEntry.{LogEntry}
use log_aggregator_c.Queue.{returns}
use log_aggregator_c.Db.{Libpq, db_write}
use log_aggregator_c.Worker.{
  Worker, Turn, exits, asleep, goes_on, after_pop, worker_pop, worker_loop, worker_stop,
}

-- Where the thread stands in its loop: at the test, inside queue_pop (where it may sleep), or with an
-- entry before cache_insert or before db_write.
pub data Standing : Type 0 where
  at_test : Standing
  in_pop : Standing
  before_insert : LogEntry → Standing
  before_write : LogEntry → Standing

-- Where the thread stands once queue_shutdown is over, and how many turns more it starts, if the loop
-- does not end, before worker_running is cleared.
pub record WorkerRest : Type 0 where
  pub standing : Standing
  pub turns : ℕ

module _ (pq : Libpq) where
  -- The rest of the turn.
  unfoldable pub finish_turn : Standing → Worker pq → Option (Turn × Worker pq)
  finish_turn at_test s = some (goes_on, s)
  finish_turn in_pop s = worker_pop pq s
  finish_turn (before_insert e) s = after_pop pq (returns (pos 0)) (some e) s
  finish_turn (before_write e) s =
      some (goes_on, record s { world = (db_write pq s.writer e s.world).1 })

  -- At most `n` turns more, if the last one did not end the loop.
  unfoldable pub go_on : ℕ → Turn × Worker pq → Option (Turn × Worker pq)
  go_on n (exits, s) = some (exits, s)
  go_on n (asleep, s) = some (asleep, s)
  go_on n (goes_on, s) = worker_loop pq n s

  -- pthread_join; `none` is one that never returns.
  abbrev pub join_thread : Turn × Worker pq → Option (Worker pq)
  join_thread (exits, s) = some (record s { thread = false })
  join_thread (asleep, s) = none
  join_thread (goes_on, s) = none

  -- worker_stop with the thread's work up to its end.
  unfoldable pub stop_and_join : WorkerRest → Worker pq → Option (Worker pq)
  stop_and_join rest s = finish_turn rest.standing s >>= go_on rest.turns >>= λ r.
      go_on 1 (r.0, worker_stop pq r.1) >>= join_thread
