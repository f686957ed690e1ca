-- ===== src/Traffic/Invariant.antt =====
-- What holds of the running server between any two steps.
use mathlib.Core.Path.{subst, subst₂}
use mathlib.Core.List.{reverse-append}
use log_aggregator_c.Base.{
  ℕ, ◌≡◌, refl, ap, sym, ◌∙◌, Option, none, some, List, [], ◌∷◌, ◌++◌, map, reverse, take,
  take-append-take, take-nil, pos, negsuc, arith,
}
use log_aggregator_c.LogEntry.{LogEntry}
use log_aggregator_c.Cache.{Cache, cache_insert}
use log_aggregator_c.Cache.Insert.{Holds, cache_insert-Holds}
use log_aggregator_c.Queue.{sleeps, returns}
use log_aggregator_c.Queue.Ring.{IsValid as QueueIsValid, contents}
use log_aggregator_c.Db.{Libpq}
use log_aggregator_c.Db.Rows.{entry_of, Table, Inserts, Reads as ReadLaws}
use log_aggregator_c.Handlers.FirstPage.{AllShort}
use log_aggregator_c.Handlers.Post.{Cjson}
use log_aggregator_c.Worker.{Worker, worker_stop}
use log_aggregator_c.Worker.Order.{Holds-same}
use log_aggregator_c.Worker.Coherent.{AllClean}
use log_aggregator_c.Pipeline.{post_entry-IsClean}
use log_aggregator_c.Traffic.{
  Place, caching, writing, Traffic, Step, posts, post_sleeps, post_ends, get_starts, get_ends,
  get_uncached, goes_on, leaves, pop_sleeps, pop_fails, pops, wakes, inserts, writes, shuts_down,
  stops, start, Reach, started, later,
}
use log_aggregator_c.Traffic.Flow.{
  Flow, call-Flow, asleep-Flow, ends-Flow, shutdown-Flow, pop-Flow, insert-Flow,
}
use log_aggregator_c.Traffic.Tables.{
  rows-db_read_range, rows-fill_from_db, Stored, read-Stored, insert-Stored, write-Stored,
}

-- The entry that the worker has taken out of the queue and not yet put into the cache, and the one
-- that is in the cache and not yet in the table.
abbrev pub in_hand : Place → List LogEntry
in_hand (caching e) = e ∷ []
in_hand _ = []

abbrev pub unwritten : Place → List LogEntry
unwritten (writing e) = e ∷ []
unwritten _ = []

-- `size` is the capacity of the cache, and `base` stands for the rows that the table had at first.
pub record Inv {pq : Libpq} (table : Table pq) (size : ℕ) (base : List LogEntry) (t : Traffic pq)
    : Type 0 where
  pub flow : Flow t.server.queue (in_hand t.place) t.waiting t.accepted t.inserted
  pub cached : Holds (some t.server.cache) size (take size (reverse t.inserted))
  pub stored : Stored table base (unwritten t.place) t.inserted t.intact t.server.world

-- The server as it starts: nothing in the queue and the cache.
pub record Fresh {pq : Libpq} (table : Table pq) (size : ℕ) (base : List LogEntry)
    (server : Worker pq) : Type 0 where
  pub queue_valid : QueueIsValid server.queue
  pub queue_empty : contents server.queue ≡ []
  pub cache_empty : Holds (some server.cache) size []
  pub rows_at_first : map entry_of (table.rows server.world) ≡ base
  pub rows_short : AllShort (table.rows server.world)

cached-insert :
    (size : ℕ) (e : LogEntry) (es : List LogEntry) {c d : Cache}
    → Holds (some c) size (take size (reverse es))
    → cache_insert c e ≡ some d
    → Holds (some d) size (take size (reverse (es ++ (e ∷ []))))
cached-insert size e es {c} {d} h p =
    let k : Holds (cache_insert c e) size (take size (e ∷ take size (reverse es))) =
      subst (λ x. Holds (cache_insert x e) size (take size (e ∷ take size (reverse es))))
        (Holds-same h) (cache_insert-Holds e h) in
    subst₂ (λ o l. Holds o size l) p
      (take-append-take size size (e ∷ []) (reverse es) (omega arith)
        ∙ ap (take size) (sym (reverse-append es (e ∷ []))))
      k

moved :
    {pq : Libpq} {table : Table pq} {size : ℕ} {base : List LogEntry} {s : Traffic pq} {p : Place}
    → s.place ≡ p
    → Inv table size base s
    → Inv table size base (record s { place = p })
moved {table = table} {size} {base} {s} at inv =
    subst (λ p. Inv table size base (record s { place = p })) at inv

module _ {pq : Libpq} {table : Table pq} (ins : Inserts table) (reads : ReadLaws table)
    (json : Cjson) (conn_info : Option (List ℕ)) (size : ℕ) (base : List LogEntry) where
  stop-Inv :
      {s : Traffic pq}
      → Inv table size base s
      → Inv table size base (record s { server = worker_stop pq s.server })
  unfolding worker_stop
  stop-Inv inv = record { flow = inv.flow; cached = inv.cached; stored = inv.stored }

  pub Step-Inv :
      {s t : Traffic pq}
      → Step json pq conn_info s t
      → Inv table size base s
      → Inv table size base t
  Step-Inv (posts stack now level message sized fits h) inv =
      subst (Inv table size base) (sym h) (record {
        flow = call-Flow inv.flow _ (post_entry-IsClean json stack now level message sized fits);
        cached = inv.cached;
        stored = inv.stored;
      })
  Step-Inv (post_sleeps xs ys e f w p h) inv =
      subst (Inv table size base) (sym h)
        (record { flow = asleep-Flow inv.flow e f p; cached = inv.cached; stored = inv.stored })
  Step-Inv (post_ends xs ys e code reply w p h) inv = subst (Inv table size base) (sym h) (record {
    flow = ends-Flow inv.flow xs ys e code reply w p;
    cached = inv.cached;
    stored = inv.stored;
  })
  Step-Inv (get_starts page limit level memory p h) inv =
      subst (Inv table size base) (sym h)
        (record { flow = inv.flow; cached = inv.cached; stored = inv.stored })
  Step-Inv {s} (get_ends xs ys f r p h) inv = subst (Inv table size base) (sym h) (record {
    flow = inv.flow;
    cached = inv.cached;
    stored =
        read-Stored inv.stored
          (rows-fill_from_db reads conn_info f.limit f.level f.got f.buffer s.server.world p);
  })
  Step-Inv {s} (get_uncached limit offset level memory p h) inv =
      subst (Inv table size base) (sym h) (record {
        flow = inv.flow;
        cached = inv.cached;
        stored =
            read-Stored inv.stored
              (rows-db_read_range reads conn_info limit offset level memory s.server.world p);
      })
  Step-Inv (goes_on at on h) inv =
      let m = moved at inv in
      subst (Inv table size base) (sym h)
        (record { flow = m.flow; cached = m.cached; stored = m.stored })
  Step-Inv (leaves at off h) inv =
      let m = moved at inv in
      subst (Inv table size base) (sym h)
        (record { flow = m.flow; cached = m.cached; stored = m.stored })
  Step-Inv (pop_sleeps at p h) inv =
      let m = moved at inv in
      subst (Inv table size base) (sym h)
        (record { flow = pop-Flow sleeps none m.flow p; cached = m.cached; stored = m.stored })
  Step-Inv (pop_fails k at p h) inv =
      let m = moved at inv in
      subst (Inv table size base) (sym h) (record {
        flow = pop-Flow (returns (negsuc k)) none m.flow p;
        cached = m.cached;
        stored = m.stored;
      })
  Step-Inv (pops e at p h) inv =
      let m = moved at inv in
      subst (Inv table size base) (sym h) (record {
        flow = pop-Flow (returns (pos 0)) (some e) m.flow p;
        cached = m.cached;
        stored = m.stored;
      })
  Step-Inv (wakes at h) inv =
      let m = moved at inv in
      subst (Inv table size base) (sym h)
        (record { flow = m.flow; cached = m.cached; stored = m.stored })
  Step-Inv {s} (inserts e at p h) inv =
      let m = moved at inv in
      subst (Inv table size base) (sym h) (record {
        flow = insert-Flow m.flow;
        cached = cached-insert size e s.inserted m.cached p;
        stored = insert-Stored e m.flow.clean_hand.0 m.stored;
      })
  Step-Inv {s} (writes e status at p h) inv =
      let m = moved at inv in
      subst (Inv table size base) (sym h) (record {
        flow = m.flow;
        cached = m.cached;
        stored = write-Stored s.server.writer e status ins m.stored p;
      })
  Step-Inv (shuts_down h) inv =
      subst (Inv table size base) (sym h)
        (record { flow = shutdown-Flow inv.flow; cached = inv.cached; stored = inv.stored })
  Step-Inv (stops h) inv = subst (Inv table size base) (sym h) (stop-Inv inv)

  start-Inv :
      (server : Worker pq) → Fresh table size base server → Inv table size base (start server)
  start-Inv server f = record {
    flow = record {
      valid = f.queue_valid;
      conserved = sym f.queue_empty;
      clean_queue = subst AllClean (sym f.queue_empty) tt;
      clean_hand = tt;
      clean_waiting = tt;
    };
    cached = subst (Holds (some server.cache) size) (sym (take-nil size)) f.cache_empty;
    stored = record {
      clean_last = tt;
      earlier = [];
      ends = refl;
      written = λ on. f.rows_at_first;
      short = λ on. f.rows_short;
    };
  }

  pub Reach-Inv :
      {server : Worker pq} {t : Traffic pq}
      → Fresh table size base server
      → Reach json pq conn_info server t
      → Inv table size base t
  Reach-Inv {server} f started = start-Inv server f
  Reach-Inv f (later reach step) = Step-Inv step (Reach-Inv f reach)
