-- ===== src/Server/Lifecycle/Intact.antt =====
-- A turn of the worker thread, or its rest, when the queue has been shut down.
use log_aggregator_c.Base.{
  ◌≡◌, refl, ◌∙◌, ◌⊎◌, false, Bool-cases, [], ◌∷◌, Option, some, List, arith, get_elem?,
  Option-cases, inl, inr,
}
use log_aggregator_c.CString.{print_int}
use log_aggregator_c.LogEntry.{LogEntry}
use log_aggregator_c.Cache.Ring.{IsValid}
use log_aggregator_c.Cache.Insert.{cache_insert_lem}
use log_aggregator_c.Queue.{Queue, Pass, queue_pop}
use log_aggregator_c.Queue.Ring.{IsValid as QueueIsValid, contents}
use log_aggregator_c.Db.{Libpq, db_write, insert_query, is_bad}
use log_aggregator_c.Db.Connections.{Counts}
use log_aggregator_c.Worker.{Worker, Turn, exits, goes_on, worker_pop}
use log_aggregator_c.Worker.Order.{queue_pop-Popped}
use log_aggregator_c.Worker.Stop.{empty_pop}
use log_aggregator_c.Worker.Joining.{
  Standing, at_test, in_pop, before_insert, before_write, finish_turn,
}

-- What a pop leaves alone.
queue_pop-flags :
    (q : Queue) {pass : Pass} {out : Option LogEntry} {q' : Queue}
    → queue_pop q ≡ some (pass, out, q')
    → (q'.initialized ≡ q.initialized) × (q'.running ≡ q.running)
unfolding queue_pop
queue_pop-flags q h = elim (Option-cases (get_elem? q.buffer q.head)) [
  | inl e ↦ (ground (arith, e), ground (arith, e))
  | inr (x, e) ↦ (ground (arith, e), ground (arith, e))
]

module _ {pq : Libpq} (counts : Counts pq) where
  open counts use {open_count, open_count-exec}

  db_write-count :
      (writer : Option pq.Conn) (e : LogEntry) (w : pq.World)
      → open_count (db_write pq writer e w).1 ≡ open_count w
  unfolding db_write
  db_write-count writer e w =
      elim (Bool-cases (
        is_bad pq pq.command_ok
          (pq.exec_params writer insert_query (print_int e.timestamp ∷ e.level ∷ e.message ∷ [])
            w).0)) [
              | inl b ↦ rw b (open_count-exec writer insert_query _ w)
              | inr b ↦ rw b (open_count-exec writer insert_query _ w)
            ]

  -- The worker's state `t` after some of its work, which it began in `s`: the queue is shut down, it
  -- and the cache are well formed, and the rest is as it was.
  pub record Intact (s t : Worker pq) : Type 0 where
    pub cells : List LogEntry
    pub queue_valid : QueueIsValid t.queue
    pub cache_valid : IsValid t.cache cells
    pub shut : t.queue.running ≡ false
    pub same_flag : t.queue.initialized ≡ s.queue.initialized
    pub same_writer : t.writer ≡ s.writer
    pub same_count : open_count t.world ≡ open_count s.world

  pub Intact-trans : {s t u : Worker pq} → Intact s t → Intact t u → Intact s u
  Intact-trans a b = record {
    cells = b.cells;
    queue_valid = b.queue_valid;
    cache_valid = b.cache_valid;
    shut = b.shut;
    same_flag = b.same_flag ∙ a.same_flag;
    same_writer = b.same_writer ∙ a.same_writer;
    same_count = b.same_count ∙ a.same_count;
  }

  -- Work that neither faults nor sleeps.
  pub record Worked (s : Worker pq) (o : Option (Turn × Worker pq)) : Type 0 where
    pub turn : Turn
    pub state : Worker pq
    pub result : o ≡ some (turn, state)
    pub awake : (turn ≡ exits) ⊎ (turn ≡ goes_on)
    pub intact : Intact s state

  pub still :
      (s : Worker pq) {cells : List LogEntry}
      → QueueIsValid s.queue
      → IsValid s.cache cells
      → s.queue.running ≡ false
      → Intact s s
  still s {cells} v c off = record {
    cells = cells;
    queue_valid = v;
    cache_valid = c;
    shut = off;
    same_flag = refl;
    same_writer = refl;
    same_count = refl;
  }

  pub worker_pop-Worked :
      (s : Worker pq) {cells : List LogEntry}
      → QueueIsValid s.queue
      → IsValid s.cache cells
      → s.queue.running ≡ false
      → Worked s (worker_pop pq s)
  unfolding worker_pop
  worker_pop-Worked s {cells} v c off = go (contents s.queue) refl
    where
      go : (es : List LogEntry) → contents s.queue ≡ es → Worked s (worker_pop pq s)
      go [] h =
          let p = empty_pop v off h in
          let (flag, runs) = queue_pop-flags s.queue p.1 in
          record {
            turn = exits;
            state = record s { queue = p.0 };
            result = rw p.1 refl;
            awake = inl refl;
            intact = record {
              cells = cells;
              queue_valid = p.2;
              cache_valid = c;
              shut = runs ∙ off;
              same_flag = flag;
              same_writer = refl;
              same_count = refl;
            };
          }
      go (e ∷ rest) h =
          let p = queue_pop-Popped v h in
          let k = cache_insert_lem e c in
          let (flag, runs) = queue_pop-flags s.queue p.result in
          record {
            turn = goes_on;
            state = record s {
              queue = p.queue;
              cache = k.cache;
              world = (db_write pq s.writer e s.world).1;
            };
            result = rw (p.result, k.result) refl;
            awake = inr refl;
            intact = record {
              cells = k.cells;
              queue_valid = p.valid;
              cache_valid = k.valid;
              shut = runs ∙ off;
              same_flag = flag;
              same_writer = refl;
              same_count = db_write-count s.writer e s.world;
            };
          }

  pub finish_turn-Worked :
      (standing : Standing) (s : Worker pq) {cells : List LogEntry}
      → QueueIsValid s.queue
      → IsValid s.cache cells
      → s.queue.running ≡ false
      → Worked s (finish_turn pq standing s)
  unfolding finish_turn
  finish_turn-Worked at_test s v c off = record {
    turn = goes_on;
    state = s;
    result = refl;
    awake = inr refl;
    intact = still s v c off;
  }
  finish_turn-Worked in_pop s v c off = worker_pop-Worked s v c off
  finish_turn-Worked (before_insert e) s v c off =
      let k = cache_insert_lem e c in
      record {
        turn = goes_on;
        state = record s { cache = k.cache; world = (db_write pq s.writer e s.world).1 };
        result = rw k.result refl;
        awake = inr refl;
        intact = record {
          cells = k.cells;
          queue_valid = v;
          cache_valid = k.valid;
          shut = off;
          same_flag = refl;
          same_writer = refl;
          same_count = db_write-count s.writer e s.world;
        };
      }
  finish_turn-Worked (before_write e) s {cells} v c off = record {
    turn = goes_on;
    state = record s { world = (db_write pq s.writer e s.world).1 };
    result = refl;
    awake = inr refl;
    intact = record {
      cells = cells;
      queue_valid = v;
      cache_valid = c;
      shut = off;
      same_flag = refl;
      same_writer = refl;
      same_count = db_write-count s.writer e s.world;
    };
  }
