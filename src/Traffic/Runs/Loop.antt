-- ===== src/Traffic/Runs/Loop.antt =====
-- The worker's loop as steps of the running server.
use log_aggregator_c.Base.{ℕ, zero, suc, ◌≡◌, refl, ap, ◌∙◌, Option, some, List}
use log_aggregator_c.LogEntry.{LogEntry}
use log_aggregator_c.Db.{Libpq}
use log_aggregator_c.Db.Rows.{Table, Inserts, Reads as ReadLaws}
use log_aggregator_c.Handlers.Post.{Cjson}
use log_aggregator_c.Worker.{
  Worker, Turn, exits, asleep, goes_on as turns, worker_turn, worker_loop,
}
use log_aggregator_c.Traffic.{at_test, Traffic, Reach}
use log_aggregator_c.Traffic.Invariant.{Inv, Fresh, Reach-Inv}
use log_aggregator_c.Traffic.Steps.{stay, Steps-Steps}
use log_aggregator_c.Traffic.Runs.{place_of, Run, turn-Run}
use log_aggregator_c.Traffic.Steps.{Steps-Inv}

module _ {pq : Libpq} {table : Table pq} (ins : Inserts table) (reads : ReadLaws table)
    (json : Cjson) (conn_info : Option (List ℕ)) (size : ℕ) (base : List LogEntry) where
  -- A turn that sleeps or ends is the last one.
  last_turn :
      (n : ℕ) (s : Traffic pq) (r : Run json pq conn_info s (worker_turn pq s.server))
      → worker_loop pq (suc n) s.server ≡ some (r.turn, r.state.server)
      → Run json pq conn_info s (worker_loop pq (suc n) s.server)
  last_turn n s r result = record {
    turn = r.turn;
    state = r.state;
    steps = r.steps;
    result = result;
    place = r.place;
    same_waiting = r.same_waiting;
    same_reading = r.same_reading;
    same_accepted = r.same_accepted;
  }

  after_turn :
      (n : ℕ) (s : Traffic pq) (turn : Turn) (r : Run json pq conn_info s (worker_turn pq s.server))
      → r.turn ≡ turn
      → (r.state.place ≡ at_test → Run json pq conn_info r.state (worker_loop pq n r.state.server))
      → Run json pq conn_info s (worker_loop pq (suc n) s.server)
  unfolding worker_loop
  after_turn n s exits r h next =
      last_turn n s r (rw (r.result, h) (ap (λ x. some (x, r.state.server)) h))
  after_turn n s asleep r h next =
      last_turn n s r (rw (r.result, h) (ap (λ x. some (x, r.state.server)) h))
  after_turn n s turns r h next =
      let m = next (r.place ∙ ap place_of h) in
      record {
        turn = m.turn;
        state = m.state;
        steps = Steps-Steps r.steps m.steps;
        result = rw (r.result, h) m.result;
        place = m.place;
        same_waiting = m.same_waiting ∙ r.same_waiting;
        same_reading = m.same_reading ∙ r.same_reading;
        same_accepted = m.same_accepted ∙ r.same_accepted;
      }

  loop-Run :
      (n : ℕ) (s : Traffic pq)
      → Inv table size base s
      → s.place ≡ at_test
      → Run json pq conn_info s (worker_loop pq n s.server)
  unfolding worker_loop
  loop-Run zero s inv at = record {
    turn = turns;
    state = s;
    steps = stay;
    result = refl;
    place = at;
    same_waiting = refl;
    same_reading = refl;
    same_accepted = refl;
  }
  loop-Run (suc n) s inv at =
      let r = turn-Run ins reads json conn_info size base s inv at in
      after_turn n s r.turn r refl (λ again.
        loop-Run n r.state (Steps-Inv ins reads json conn_info size base r.steps inv) again)

-- In every state that the server can reach from an empty queue and an empty cache and in which the
-- worker stands at the test of its loop, `n` turns of worker_loop, taken as a whole, end without a
-- fault, and what they compute is also reached by single steps in which no request moves: these end
-- with the same queue, cache and database, at the test again if the last turn goes on, on the
-- condition variable if it sleeps, and with the thread ended if the loop is left.
pub worker_loop-Run :
    {pq : Libpq} {table : Table pq}
    → Inserts table
    → ReadLaws table
    → (json : Cjson) (conn_info : Option (List ℕ)) (size : ℕ) (base : List LogEntry) (n : ℕ)
    → {server : Worker pq} {s : Traffic pq} → Fresh table size base server
    → Reach json pq conn_info server s
    → s.place ≡ at_test
    → Run json pq conn_info s (worker_loop pq n s.server)
worker_loop-Run ins reads json conn_info size base n {s = s} fresh reach at =
    loop-Run ins reads json conn_info size base n s
      (Reach-Inv ins reads json conn_info size base fresh reach) at
