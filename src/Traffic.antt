-- ===== src/Traffic.antt =====
-- The running server: all POST and GET requests and the worker thread (src/server/handlers.c and
-- log_worker.c), interleaved between any two calls that touch what they share. A step of a request
-- is one that takes a lock or talks to the database: a pass of queue_push, the cache's lock in
-- cache_get_range, a query; what a handler does by itself stands in no step of its own.
pub mod Passes
pub mod Flow
pub mod Tables
pub mod Invariant
pub mod Reads
pub mod Steps
pub mod Drain
pub mod Shown
pub mod Runs
mod Tests
use log_aggregator_c.Base.{
  ℕ, ◌≡◌, Bool, true, false, ◌&&◌, not, Option, none, some, List, [], ◌∷◌, ◌++◌, ℤ, pos, negsuc,
  failed, mul32, ◌==◌, if◌then◌else◌,
}
use log_aggregator_c.CString.{FitsLong}
use log_aggregator_c.Config.{page_size}
use log_aggregator_c.LogEntry.{LogEntry}
use log_aggregator_c.Cache.{Cache, cache_insert, cache_get_range}
use log_aggregator_c.Queue.{Queue, sleeps, returns, queue_pop, queue_shutdown}
use log_aggregator_c.Db.{Libpq, db_write, db_read_range}
use log_aggregator_c.Db.Fill.{IsSized}
use log_aggregator_c.Handlers.{Reply}
use log_aggregator_c.Handlers.Post.{Cjson, Outcome, replied, asleep, post_entry, post_push}
use log_aggregator_c.Handlers.Get.{fill_from_db}
use log_aggregator_c.Worker.{Worker, worker_stop}

-- Where the worker thread stands.
pub data Place : Type 0 where
  at_test : Place  -- while (worker_running)
  in_pop : Place  -- in queue_pop, about to have the lock
  sleeping : Place  -- in queue_pop, on not_empty
  caching : LogEntry → Place  -- in front of cache_insert
  writing : LogEntry → Place  -- in front of db_write
  ended : Place

-- A GET that has read the cache and not yet the database: what fill_from_db is called with.
pub record Fetching : Type 0 where
  pub limit : ℤ
  pub level : Option (List ℕ)
  pub got : ℕ
  pub buffer : List LogEntry

-- The last three fields are the history: the entries of POSTs that were answered with 200 and those
-- that the worker put into the cache, both in that order, and whether every db_write returned 0.
pub record Traffic (pq : Libpq) : Type 0 where
  pub server : Worker pq
  pub place : Place
  pub waiting : List LogEntry  -- entries of POSTs in queue_push
  pub reading : List Fetching
  pub accepted : List LogEntry
  pub inserted : List LogEntry
  pub intact : Bool

abbrev pub kept : (code : ℕ) → LogEntry → List LogEntry
kept code e = if code == 200 then e ∷ [] else []

-- The handlers' guards are left out: a request may make any of the calls that a handler can make.
pub data Step (json : Cjson) (pq : Libpq) (conn_info : Option (List ℕ)) (s t : Traffic pq)
    : Type 0 where
  posts :
      (stack : LogEntry) (now : ℤ) (level message : Option json.Value)
      → IsSized stack
      → FitsLong now
      → t ≡ record s { waiting = post_entry json stack now level message ∷ s.waiting }
      → Step json pq conn_info s t
  post_sleeps :
      (xs ys : List LogEntry) (e f : LogEntry) {q : Queue}
      → s.waiting ≡ xs ++ (e ∷ ys)
      → post_push e s.server.queue ≡ some (asleep f, q)
      → t ≡ record s { server = record s.server { queue = q } }
      → Step json pq conn_info s t
  post_ends :
      (xs ys : List LogEntry) (e : LogEntry) (code : ℕ) (reply : Reply) {q : Queue}
      → s.waiting ≡ xs ++ (e ∷ ys)
      → post_push e s.server.queue ≡ some (replied code reply, q)
      → t ≡ record s {
        server = record s.server { queue = q };
        waiting = xs ++ ys;
        accepted = s.accepted ++ kept code e;
      }
      → Step json pq conn_info s t
  get_starts :
      (page limit : ℤ) (level : Option (List ℕ)) (memory : List LogEntry) {got : ℕ}
      {buffer : List LogEntry}
      → cache_get_range s.server.cache limit (mul32 page (pos page_size)) level memory
        ≡ some (got, buffer)
      → t ≡ record s {
        reading = record { limit = limit; level = level; got = got; buffer = buffer } ∷ s.reading;
      }
      → Step json pq conn_info s t
  get_ends :
      (xs ys : List Fetching) (f : Fetching) {total : ℤ} {buffer : List LogEntry} {w : pq.World}
      → s.reading ≡ xs ++ (f ∷ ys)
      → fill_from_db pq conn_info f.limit f.level f.got f.buffer s.server.world
        ≡ some (total, buffer, w)
      → t ≡ record s { server = record s.server { world = w }; reading = xs ++ ys }
      → Step json pq conn_info s t
  get_uncached :
      (limit offset : ℤ) (level : Option (List ℕ)) (memory : List LogEntry) {total : ℤ}
      {buffer : List LogEntry} {w : pq.World}
      → db_read_range pq conn_info limit offset level memory s.server.world
        ≡ some (total, buffer, w)
      → t ≡ record s { server = record s.server { world = w } }
      → Step json pq conn_info s t
  goes_on :
      s.place ≡ at_test
      → s.server.running ≡ true
      → t ≡ record s { place = in_pop }
      → Step json pq conn_info s t
  leaves :
      s.place ≡ at_test
      → s.server.running ≡ false
      → t ≡ record s { place = ended }
      → Step json pq conn_info s t
  pop_sleeps :
      {q : Queue}
      → s.place ≡ in_pop
      → queue_pop s.server.queue ≡ some (sleeps, none, q)
      → t ≡ record s { server = record s.server { queue = q }; place = sleeping }
      → Step json pq conn_info s t
  pop_fails :
      (k : ℕ) {q : Queue}
      → s.place ≡ in_pop
      → queue_pop s.server.queue ≡ some (returns (negsuc k), none, q)
      → t ≡ record s { server = record s.server { queue = q }; place = ended }
      → Step json pq conn_info s t
  pops :
      (e : LogEntry) {q : Queue}
      → s.place ≡ in_pop
      → queue_pop s.server.queue ≡ some (returns (pos 0), some e, q)
      → t ≡ record s { server = record s.server { queue = q }; place = caching e }
      → Step json pq conn_info s t
  wakes : s.place ≡ sleeping → t ≡ record s { place = in_pop } → Step json pq conn_info s t
  inserts :
      (e : LogEntry) {c : Cache}
      → s.place ≡ caching e
      → cache_insert s.server.cache e ≡ some c
      → t ≡ record s {
        server = record s.server { cache = c };
        place = writing e;
        inserted = s.inserted ++ (e ∷ []);
      }
      → Step json pq conn_info s t
  writes :
      (e : LogEntry) (status : ℤ) {w : pq.World}
      → s.place ≡ writing e
      → db_write pq s.server.writer e s.server.world ≡ (status, w)
      → t ≡ record s {
        server = record s.server { world = w };
        place = at_test;
        intact = s.intact && not (failed status);
      }
      → Step json pq conn_info s t
  shuts_down :
      t ≡ record s { server = record s.server { queue = queue_shutdown s.server.queue } }
      → Step json pq conn_info s t
  stops : t ≡ record s { server = worker_stop pq s.server } → Step json pq conn_info s t

-- The server as start_server leaves it, before any request.
abbrev pub start : {pq : Libpq} → Worker pq → Traffic pq
start server = record {
  server = server;
  place = at_test;
  waiting = [];
  reading = [];
  accepted = [];
  inserted = [];
  intact = true;
}

pub data Reach (json : Cjson) (pq : Libpq) (conn_info : Option (List ℕ)) (server : Worker pq)
    : Traffic pq → Type 0 where
  started : Reach json pq conn_info server (start server)
  later :
      {s t : Traffic pq}
      → Reach json pq conn_info server s
      → Step json pq conn_info s t
      → Reach json pq conn_info server t
