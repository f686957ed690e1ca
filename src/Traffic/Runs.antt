-- ===== src/Traffic/Runs.antt =====
-- The turns of the worker's loop, which Worker takes as a whole, as steps of the running server.
pub mod Loop
use mathlib.Core.Path.{subst}
use log_aggregator_c.Base.{
  ℕ, zero, suc, ◌≡◌, refl, ap, ◌∙◌, Bool-cases, inl, inr, true, false, Option, none, some, List, [],
  ◌∷◌, ◌++◌, not, ◌&&◌, failed,
}
use log_aggregator_c.LogEntry.{LogEntry}
use log_aggregator_c.Cache.{cache_insert}
use log_aggregator_c.Cache.Insert.{cache_insert-Holds}
use log_aggregator_c.Queue.{Queue, Pass, sleeps, queue_pop}
use log_aggregator_c.Queue.Fifo.{Fifo, poll, poll_items}
use log_aggregator_c.Queue.Ring.{IsValid, contents}
use log_aggregator_c.Queue.Refine.{view, PopDone, queue_pop_refines}
use log_aggregator_c.Db.{Libpq, db_write}
use log_aggregator_c.Db.Rows.{Table, Inserts, Reads as ReadLaws}
use log_aggregator_c.Handlers.Post.{Cjson}
use log_aggregator_c.Worker.{
  Worker, Turn, exits, asleep, goes_on as turns, worker_turn, worker_pop, worker_loop,
}
use log_aggregator_c.Worker.Order.{Holds-same, queue_pop-Popped, turn-goes_on}
use log_aggregator_c.Worker.Stop.{empty_pop}
use log_aggregator_c.Traffic.{
  Place, at_test, sleeping, ended, Traffic, goes_on, leaves, pop_sleeps, pop_fails, pops, inserts,
  writes, Reach,
}
use log_aggregator_c.Traffic.Invariant.{Inv, Fresh, Reach-Inv, Step-Inv}
use log_aggregator_c.Traffic.Steps.{Steps, stay, go, Steps-Steps}

-- Where the thread stands after a turn.
abbrev pub place_of : Turn → Place
place_of exits = ended
place_of asleep = sleeping
place_of turns = at_test

-- Steps that lead to what turns of the loop compute, in which no request takes part.
pub record Run (json : Cjson) (pq : Libpq) (conn_info : Option (List ℕ)) (s : Traffic pq)
    (o : Option (Turn × Worker pq)) : Type 0 where
  pub turn : Turn
  pub state : Traffic pq
  pub steps : Steps json pq conn_info s state
  pub result : o ≡ some (turn, state.server)
  pub place : state.place ≡ place_of turn
  pub same_waiting : state.waiting ≡ s.waiting
  pub same_reading : state.reading ≡ s.reading
  pub same_accepted : state.accepted ≡ s.accepted

empty_sleeps :
    {q : Queue}
    → IsValid q
    → q.running ≡ true
    → contents q ≡ []
    → (q' : Queue) × (queue_pop q ≡ some (sleeps, none, q'))
unfolding poll
empty_sleeps {q} v on h = (p.queue, p.result ∙ ap (λ r. some (r.0, r.1, p.queue)) agrees)
  where
    p : PopDone (queue_pop q) (poll (view q))
    p = queue_pop_refines v

    agrees :
        ◌≡◌ {A = Pass × Option LogEntry × Fifo}
          (p.pass, p.out, view p.queue)
          (sleeps, none, record { items = []; running = true })
    agrees = p.agrees ∙ ap (λ l. poll_items l q.running) h ∙ ap (poll_items []) on

module _ {pq : Libpq} {table : Table pq} (ins : Inserts table) (reads : ReadLaws table)
    (json : Cjson) (conn_info : Option (List ℕ)) (size : ℕ) (base : List LogEntry) where
  exit-Run :
      (s : Traffic pq)
      → s.place ≡ at_test
      → s.server.running ≡ false
      → Run json pq conn_info s (worker_turn pq s.server)
  unfolding worker_turn
  exit-Run s at off = record {
    turn = exits;
    state = record s { place = ended };
    steps = go stay (leaves at off refl);
    result = rw off refl;
    place = refl;
    same_waiting = refl;
    same_reading = refl;
    same_accepted = refl;
  }

  -- A turn in which queue_pop finds nothing.
  empty-Run :
      (s : Traffic pq)
      → Inv table size base s
      → s.place ≡ at_test
      → s.server.running ≡ true
      → contents s.server.queue ≡ []
      → Run json pq conn_info s (worker_turn pq s.server)
  unfolding worker_turn worker_pop
  empty-Run s inv at on none_left = elim (Bool-cases s.server.queue.running) [
    | inl running ↦
        let p = empty_sleeps inv.flow.valid running none_left in
        record {
          turn = asleep;
          state = record s { server = record s.server { queue = p.0 }; place = sleeping };
          steps = go (go stay (goes_on at on refl)) (pop_sleeps refl p.1 refl);
          result = rw (on, p.1) refl;
          place = refl;
          same_waiting = refl;
          same_reading = refl;
          same_accepted = refl;
        }
    | inr shut ↦
        let p = empty_pop inv.flow.valid shut none_left in
        record {
          turn = exits;
          state = record s { server = record s.server { queue = p.0 }; place = ended };
          steps = go (go stay (goes_on at on refl)) (pop_fails 0 refl p.1 refl);
          result = rw (on, p.1) refl;
          place = refl;
          same_waiting = refl;
          same_reading = refl;
          same_accepted = refl;
        }
  ]

  full-Run :
      (s : Traffic pq) {e : LogEntry} {rest : List LogEntry}
      → Inv table size base s
      → s.place ≡ at_test
      → s.server.running ≡ true
      → contents s.server.queue ≡ e ∷ rest
      → Run json pq conn_info s (worker_turn pq s.server)
  full-Run s {e} inv at on h =
      let p = queue_pop-Popped inv.flow.valid h in
      let k = cache_insert-Holds e inv.cached in
      let done : cache_insert s.server.cache e ≡ some k.cache =
        subst (λ c. cache_insert c e ≡ some k.cache) (Holds-same inv.cached) k.result in
      let (status, w) = db_write pq s.server.writer e s.server.world in
      record {
        turn = turns;
        state = record s {
          server = record s.server { queue = p.queue; cache = k.cache; world = w };
          place = at_test;
          inserted = s.inserted ++ (e ∷ []);
          intact = s.intact && not (failed status);
        };
        steps =
            go
              (go (go (go stay (goes_on at on refl)) (pops e refl p.result refl))
                (inserts e refl done refl))
              (writes e status refl refl refl);
        result = turn-goes_on pq s.server on p.result done;
        place = refl;
        same_waiting = refl;
        same_reading = refl;
        same_accepted = refl;
      }

  running-Run :
      (s : Traffic pq) (l : List LogEntry)
      → Inv table size base s
      → s.place ≡ at_test
      → s.server.running ≡ true
      → contents s.server.queue ≡ l
      → Run json pq conn_info s (worker_turn pq s.server)
  running-Run s [] inv at on h = empty-Run s inv at on h
  running-Run s (e ∷ rest) inv at on h = full-Run s inv at on h

  pub turn-Run :
      (s : Traffic pq)
      → Inv table size base s
      → s.place ≡ at_test
      → Run json pq conn_info s (worker_turn pq s.server)
  turn-Run s inv at = elim (Bool-cases s.server.running) [
    | inl on ↦ running-Run s (contents s.server.queue) inv at on refl
    | inr off ↦ exit-Run s at off
  ]
