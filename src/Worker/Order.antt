-- ===== src/Worker/Order.antt =====
-- The order in which the worker handles the entries of the queue.
use log_aggregator_c.Base.{
  ℕ, ◌≡◌, refl, ap, sym, ◌∙◌, true, Option, some, List, [], ◌∷◌, ◌++◌, pos, length, take, take_all,
  reverse,
}
use mathlib.Core.Path.{subst}
use log_aggregator_c.LogEntry.{LogEntry}
use log_aggregator_c.Cache.{Cache, cache_insert}
use log_aggregator_c.Cache.Ring.{recent, IsValid}
use log_aggregator_c.Cache.Insert.{Holds, Holds-short, take-reverse-cons, cache_insert-Holds}
use log_aggregator_c.Queue.{Queue, Pass, returns, queue_pop}
use log_aggregator_c.Queue.Fifo.{Fifo, poll, poll_items}
use log_aggregator_c.Queue.Ring.{IsValid as QueueIsValid, contents}
use log_aggregator_c.Queue.Refine.{view, PopDone, queue_pop_refines}
use log_aggregator_c.Db.{Libpq, db_write}
use log_aggregator_c.Worker.{Worker, Turn, goes_on, worker_turn, worker_pop, worker_loop}

-- A pop that gave out the oldest entry.
pub record Popped (q : Queue) (e : LogEntry) (rest : List LogEntry) : Type 0 where
  pub queue : Queue
  pub result : queue_pop q ≡ some (returns (pos 0), some e, queue)
  pub valid : QueueIsValid queue
  pub left : contents queue ≡ rest

pub queue_pop-Popped :
    {q : Queue} {e : LogEntry} {rest : List LogEntry}
    → QueueIsValid q
    → contents q ≡ e ∷ rest
    → Popped q e rest
unfolding poll
queue_pop-Popped {q} {e} {rest} v h = record {
  queue = p.queue;
  result = p.result ∙ ap (λ r. some (r.0, r.1, p.queue)) agrees;
  valid = p.valid;
  left = ap (λ r. r.2.items) agrees;
}
  where
    p : PopDone (queue_pop q) (poll (view q))
    p = queue_pop_refines v

    agrees :
        ◌≡◌ {A = Pass × Option LogEntry × Fifo}
          (p.pass, p.out, view p.queue)
          (returns (pos 0), some e, record { items = rest; running = q.running })
    agrees = p.agrees ∙ ap (λ l. poll_items l q.running) h

-- What db_write does with each entry in turn.
unfoldable pub write_all : (pq : Libpq) → Option pq.Conn → List LogEntry → pq.World → pq.World
write_all pq writer [] w = w
write_all pq writer (e ∷ es) w = write_all pq writer es (db_write pq writer e w).1

-- `n` turns of the loop after which the entries `es` are handled and `rest` is left in the queue.
pub record Worked (pq : Libpq) (s : Worker pq) (size : ℕ) (es rest held : List LogEntry)
    (o : Option (Turn × Worker pq)) : Type 0 where
  pub state : Worker pq
  pub result : o ≡ some (goes_on, state)
  pub valid : QueueIsValid state.queue
  pub left : contents state.queue ≡ rest
  pub cached : Holds (some state.cache) size (take size (reverse es ++ held))
  pub written : state.world ≡ write_all pq s.writer es s.world
  pub same_writer : state.writer ≡ s.writer
  pub still_running : state.running ≡ true

pub turn-goes_on :
    (pq : Libpq) (s : Worker pq) {e : LogEntry} {q : Queue} {c : Cache}
    → s.running ≡ true
    → queue_pop s.queue ≡ some (returns (pos 0), some e, q)
    → cache_insert s.cache e ≡ some c
    → worker_turn pq s
      ≡ some
          (goes_on, record s { queue = q; cache = c; world = (db_write pq s.writer e s.world).1 })
unfolding worker_turn worker_pop
turn-goes_on pq s on p i = rw (on, p, i) refl

pub Holds-same :
    {c : Cache} {size : ℕ} {held : List LogEntry} (h : Holds (some c) size held) → h.cache ≡ c
Holds-same h = let r = h.result in cc

pub Holds-some :
    {o : Option Cache} {size : ℕ} {held : List LogEntry} (h : Holds o size held)
    → Holds (some h.cache) size held
Holds-some h = record {
  cache = h.cache;
  cells = h.cells;
  result = refl;
  valid = h.valid;
  same_size = h.same_size;
  entries = h.entries;
}

loop-Worked :
    (pq : Libpq) (es rest : List LogEntry) (s : Worker pq) {size : ℕ} {held : List LogEntry}
    → QueueIsValid s.queue
    → s.running ≡ true
    → contents s.queue ≡ es ++ rest
    → Holds (some s.cache) size held
    → Worked pq s size es rest held (worker_loop pq (length es) s)
unfolding worker_loop write_all
loop-Worked pq [] rest s {size} {held} v on h c = record {
  state = s;
  result = refl;
  valid = v;
  left = h;
  cached = subst (Holds (some s.cache) size) (sym (take_all size held (Holds-short c))) c;
  written = refl;
  same_writer = refl;
  still_running = on;
}
loop-Worked pq (e ∷ es) rest s {size} {held} v on h c =
    let p = queue_pop-Popped v h in
    let k : Holds (cache_insert s.cache e) size (take size (e ∷ held)) =
      subst (λ d. Holds (cache_insert d e) size (take size (e ∷ held))) (Holds-same c)
        (cache_insert-Holds e c) in
    let s' : Worker pq = record s {
      queue = p.queue;
      cache = k.cache;
      world = (db_write pq s.writer e s.world).1;
    } in
    let w = loop-Worked pq es rest s' p.valid on p.left (Holds-some k) in
    record {
      state = w.state;
      result = rw (turn-goes_on pq s on p.result k.result) w.result;
      valid = w.valid;
      left = w.left;
      cached = subst (Holds (some w.state.cache) size) (take-reverse-cons size e es held) w.cached;
      written = w.written;
      same_writer = w.same_writer;
      still_running = w.still_running;
    }

-- A running worker takes the entries of the queue one by one, oldest first: after as many turns as
-- there are entries in any front part of the queue, none of which sleeps, ends or faults, these
-- entries have left the queue, the cache holds them, newest first, before what it held, as many as
-- it has room for, and db_write has been called for each of them in this order.
pub worker_loop_lem :
    (pq : Libpq) (s : Worker pq) {cells : List LogEntry} (es rest : List LogEntry)
    → QueueIsValid s.queue
    → IsValid s.cache cells
    → s.running ≡ true
    → contents s.queue ≡ es ++ rest
    → Worked pq s s.cache.capacity es rest (recent s.cache cells) (worker_loop pq (length es) s)
worker_loop_lem pq s {cells} es rest v c on h = loop-Worked pq es rest s v on h (record {
  cache = s.cache;
  cells = cells;
  result = refl;
  valid = c;
  same_size = refl;
  entries = refl;
})
