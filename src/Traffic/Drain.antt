-- ===== src/Traffic/Drain.antt =====
-- The worker is never stuck: what has been accepted can be handled by its own steps.
use mathlib.Core.Path.{subst}
use log_aggregator_c.Base.{
  ℕ, ◌≡◌, ◌≢◌, refl, ap, sym, ◌∙◌, true, Option, some, List, [], ◌∷◌, ◌++◌, append-nil, not, ◌&&◌,
  failed,
}
use log_aggregator_c.LogEntry.{LogEntry}
use log_aggregator_c.Cache.{cache_insert}
use log_aggregator_c.Cache.Insert.{cache_insert-Holds}
use log_aggregator_c.Queue.Ring.{contents}
use log_aggregator_c.Db.{Libpq, db_write}
use log_aggregator_c.Db.Rows.{Table, Inserts, Reads as ReadLaws}
use log_aggregator_c.Handlers.Post.{Cjson}
use log_aggregator_c.Worker.{Worker}
use log_aggregator_c.Worker.Order.{Holds-same, queue_pop-Popped}
use log_aggregator_c.Traffic.{
  Place, at_test, in_pop, sleeping, caching, writing, ended, Traffic, Fetching, Step, goes_on, pops,
  wakes, inserts, writes, Reach,
}
use log_aggregator_c.Traffic.Invariant.{in_hand, Inv, Fresh, Reach-Inv, Step-Inv}
use log_aggregator_c.Traffic.Steps.{Steps, stay, go, Steps-Steps}

-- What the requests have done.
abbrev pub calls : {pq : Libpq} → Traffic pq → List LogEntry × List Fetching × List LogEntry
calls s = (s.waiting, s.reading, s.accepted)

module _ {pq : Libpq} {table : Table pq} (ins : Inserts table) (reads : ReadLaws table)
    (json : Cjson) (conn_info : Option (List ℕ)) (size : ℕ) (base : List LogEntry) where
  -- Steps of the worker, in which no request moves, after which it is about to look into a queue that holds `l`.
  record Ready (s : Traffic pq) (l : List LogEntry) : Type 0 where
    state : Traffic pq
    steps : Steps json pq conn_info s state
    inv : Inv table size base state
    at : state.place ≡ in_pop
    running : state.server.running ≡ true
    same : calls state ≡ calls s
    queued : contents state.server.queue ≡ l

  -- A further step in front.
  before :
      {s t : Traffic pq} {l : List LogEntry}
      → Step json pq conn_info s t
      → calls t ≡ calls s
      → Ready t l
      → Ready s l
  before step same r = record {
    state = r.state;
    steps = Steps-Steps (go stay step) r.steps;
    inv = r.inv;
    at = r.at;
    running = r.running;
    same = r.same ∙ same;
    queued = r.queued;
  }

  from_pop :
      (s : Traffic pq)
      → Inv table size base s
      → s.place ≡ in_pop
      → s.server.running ≡ true
      → Ready s (contents s.server.queue)
  from_pop s inv at on = record {
    state = s;
    steps = stay;
    inv = inv;
    at = at;
    running = on;
    same = refl;
    queued = refl;
  }

  from_test :
      (s : Traffic pq)
      → Inv table size base s
      → s.place ≡ at_test
      → s.server.running ≡ true
      → Ready s (contents s.server.queue)
  from_test s inv at on =
      let step : Step json pq conn_info s (record s { place = in_pop }) = goes_on at on refl in
      before step refl (
        from_pop (record s { place = in_pop })
          (Step-Inv ins reads json conn_info size base step inv) refl on)

  from_writing :
      (s : Traffic pq) (e : LogEntry)
      → Inv table size base s
      → s.place ≡ writing e
      → s.server.running ≡ true
      → Ready s (contents s.server.queue)
  from_writing s e inv at on =
      let (status, w) = db_write pq s.server.writer e s.server.world in
      let t : Traffic pq = record s {
        server = record s.server { world = w };
        place = at_test;
        intact = s.intact && not (failed status);
      } in
      let step : Step json pq conn_info s t = writes e status at refl refl in
      before step refl (from_test t (Step-Inv ins reads json conn_info size base step inv) refl on)

  from_caching :
      (s : Traffic pq) (e : LogEntry)
      → Inv table size base s
      → s.place ≡ caching e
      → s.server.running ≡ true
      → Ready s (contents s.server.queue)
  from_caching s e inv at on =
      let k = cache_insert-Holds e inv.cached in
      let done : cache_insert s.server.cache e ≡ some k.cache =
        subst (λ c. cache_insert c e ≡ some k.cache) (Holds-same inv.cached) k.result in
      let t : Traffic pq = record s {
        server = record s.server { cache = k.cache };
        place = writing e;
        inserted = s.inserted ++ (e ∷ []);
      } in
      let step : Step json pq conn_info s t = inserts e at done refl in
      before step refl
        (from_writing t e (Step-Inv ins reads json conn_info size base step inv) refl on)

  -- One entry out of the queue and through the worker's hands.
  handle_one : {s : Traffic pq} {e : LogEntry} {l : List LogEntry} → Ready s (e ∷ l) → Ready s l
  handle_one {s} {e} {l} r =
      let p = queue_pop-Popped r.inv.flow.valid r.queued in
      let t : Traffic pq = record r.state {
        server = record r.state.server { queue = p.queue };
        place = caching e;
      } in
      let step : Step json pq conn_info r.state t = pops e r.at p.result refl in
      let n =
        from_caching t e (Step-Inv ins reads json conn_info size base step r.inv) refl r.running in
      record {
        state = n.state;
        steps = Steps-Steps (go r.steps step) n.steps;
        inv = n.inv;
        at = n.at;
        running = n.running;
        same = n.same ∙ r.same;
        queued = n.queued ∙ p.left;
      }

  handle_all : {s : Traffic pq} (l : List LogEntry) → Ready s l → Ready s []
  handle_all [] r = r
  handle_all (e ∷ l) r = handle_all l (handle_one r)

  to_pop :
      (s : Traffic pq) (p : Place)
      → Inv table size base s
      → s.place ≡ p
      → p ≢ ended
      → s.server.running ≡ true
      → Ready s (contents s.server.queue)
  to_pop s at_test inv at more on = from_test s inv at on
  to_pop s in_pop inv at more on = from_pop s inv at on
  to_pop s sleeping inv at more on =
      let step : Step json pq conn_info s (record s { place = in_pop }) = wakes at refl in
      before step refl (
        from_pop (record s { place = in_pop })
          (Step-Inv ins reads json conn_info size base step inv) refl on)
  to_pop s (caching e) inv at more on = from_caching s e inv at on
  to_pop s (writing e) inv at more on = from_writing s e inv at on
  to_pop s ended inv at more on = absurd (more refl)

-- Steps in which no request moves, and after which all accepted entries are handled.
pub record Drained (json : Cjson) (pq : Libpq) (conn_info : Option (List ℕ)) (s : Traffic pq)
    : Type 0 where
  pub state : Traffic pq
  pub steps : Steps json pq conn_info s state
  pub same : calls state ≡ calls s
  pub place : state.place ≡ in_pop
  pub empty : contents state.server.queue ≡ []
  pub inserted : state.inserted ≡ s.accepted

-- In every state that the server can reach from an empty queue and an empty cache, unless its worker
-- thread has ended or is told to end, the worker can go on by steps of its own until it has put every
-- accepted entry into the cache and passed it to db_write.
pub Reach-Drained :
    {pq : Libpq} {table : Table pq}
    → Inserts table
    → ReadLaws table
    → (json : Cjson) (conn_info : Option (List ℕ)) (size : ℕ) (base : List LogEntry)
    → {server : Worker pq} {s : Traffic pq} → Fresh table size base server
    → Reach json pq conn_info server s
    → s.place ≢ ended
    → s.server.running ≡ true
    → Drained json pq conn_info s
Reach-Drained {pq} {table} ins reads json conn_info size base {server} {s} fresh reach more on =
    let inv = Reach-Inv ins reads json conn_info size base fresh reach in
    let r =
      handle_all ins reads json conn_info size base (contents s.server.queue)
        (to_pop ins reads json conn_info size base s s.place inv refl more on) in
    record {
      state = r.state;
      steps = r.steps;
      same = r.same;
      place = r.at;
      empty = r.queued;
      inserted = sym (
          sym (ap (λ c. c.2) r.same)
          ∙ r.inv.flow.conserved
          ∙ ap (λ p. r.state.inserted ++ (in_hand p ++ contents r.state.server.queue)) r.at
          ∙ ap (λ l. r.state.inserted ++ l) r.queued
          ∙ append-nil r.state.inserted);
    }
