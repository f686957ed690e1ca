-- ===== src/Worker/Coherent.antt =====
-- The cache and the table: what the worker handles ends up in both, and they agree.
use log_aggregator_c.Base.{
  ℕ, zero, suc, ◌+◌, ◌≤◌, ◌≡◌, refl, ap, ap₂, sym, ◌∙◌, true, Bool-cases, inl, inr, Option, none,
  some, List, [], ◌∷◌, ◌++◌, map, reverse, append_assoc, arith, ℤ, pos, negsuc, length,
  length-append, length-take, take, take-take, take_all, min, leb, leb→le, ◌<◌, ◌-◌, if◌then◌else◌,
}
use mathlib.Core.List.{reverse-cons}
use mathlib.Core.Path.{subst}
use log_aggregator_c.CString.{c_str, strtol, FitsLong, print_int}
use log_aggregator_c.Handlers.FirstPage.{AllShort}
use log_aggregator_c.CString.Copy.{c_str-c_str, IsField-short, field-c_str, IsField}
use log_aggregator_c.CString.Decimal.{strtol-print_int, strtol-c_str}
use log_aggregator_c.LogEntry.{LogEntry}
use log_aggregator_c.Cache.{Cache}
use log_aggregator_c.Cache.Ring.{recent, length-newest, IsValid}
use log_aggregator_c.Cache.Insert.{Holds}
use log_aggregator_c.Queue.Ring.{IsValid as QueueIsValid, contents}
use log_aggregator_c.Db.{Libpq, insert_query, db_write, is_bad}
use log_aggregator_c.Db.Rows.{entry_of, row_of, Table, Inserts}
use log_aggregator_c.Worker.{Worker, Turn, goes_on, worker_loop}
use log_aggregator_c.Worker.Order.{worker_loop_lem, write_all, Holds-same}

-- An entry whose arrays are as strncpy leaves them, and whose time is a `long`.
pub record IsClean (e : LogEntry) : Type 0 where
  pub clean_level : IsField 15 e.level
  pub clean_message : IsField 255 e.message
  pub clean_time : FitsLong e.timestamp

abbrev pub AllClean : List LogEntry → Type 0
AllClean [] = Unit
AllClean (e ∷ es) = IsClean e × AllClean es

-- Every db_write of the entries in turn returns 0.
abbrev pub AllWritten : (pq : Libpq) → Option pq.Conn → List LogEntry → pq.World → Type 0
AllWritten pq writer [] w = Unit
AllWritten pq writer (e ∷ es) w =
    ((db_write pq writer e w).0 ≡ pos 0) × AllWritten pq writer es (db_write pq writer e w).1

-- The cache holds the newest entries of the table.
pub record IsCoherent {pq : Libpq} (table : Table pq) (s : Worker pq) (cells : List LogEntry)
    : Type 0 where
  pub cache_valid : IsValid s.cache cells
  pub agrees : recent s.cache cells ≡ take s.cache.count (map entry_of (table.rows s.world))

pub entry_of-row_of : (e : LogEntry) → IsClean e → entry_of (row_of e) ≡ e
entry_of-row_of e c =
    ap₂
      (λ l m. record { level = l; message = m; timestamp = strtol (c_str (print_int e.timestamp)) })
      (ap (λ f. f ++ (0 ∷ [])) (field-c_str 15 e.level) ∙ c.clean_level)
      (ap (λ f. f ++ (0 ∷ [])) (field-c_str 255 e.message) ∙ c.clean_message)
    ∙ ap (λ t. record e { timestamp = t })
        (strtol-c_str (print_int e.timestamp) ∙ strtol-print_int e.timestamp c.clean_time)

-- To take from a list behind which another one is cut off is to take less from both.
take-append-take-min :
    {A : Type 0} (n c m : ℕ) (xs ys : List A)
    → m ≡ min n (length xs + c)
    → take n (xs ++ take c ys) ≡ take m (xs ++ ys)
take-append-take-min n c m [] ys h = elim (Bool-cases (leb n c)) [
  | inl le ↦
      take-take n c ys (leb→le n c le)
      ∙ ap (λ k. take k ys) {y = m} (omega (arith, h, leb→le n c le))
  | inr gt ↦
      let lt : c < n = ground (arith, gt) in
      take_all n (take c ys) (omega (arith, length-take c ys, lt))
      ∙ ap (λ k. take k ys) {y = m} (omega (arith, h, lt))
]
take-append-take-min zero c m (x ∷ xs) ys h =
    ap (λ k. take k (x ∷ (xs ++ ys))) {x = 0} {y = m} (omega (arith, h))
take-append-take-min (suc n) c m (x ∷ xs) ys h =
    ap (λ l. x ∷ l) (take-append-take-min n c (m - 1) xs ys (omega (arith, h)))
    ∙ ap (λ k. take k (x ∷ (xs ++ ys))) {x = suc (m - 1)} {y = m} (omega (arith, h))

module _ {pq : Libpq} {table : Table pq} (law : Inserts table) where
  open table use {rows}

  pub rows-db_write :
      (writer : Option pq.Conn) (e : LogEntry) (w : pq.World)
      → (db_write pq writer e w).0 ≡ pos 0
      → rows (db_write pq writer e w).1 ≡ row_of e ∷ rows w
  unfolding db_write
  rows-db_write writer e w h =
      go (pq.exec_params writer insert_query (print_int e.timestamp ∷ e.level ∷ e.message ∷ []) w)
        refl h
    where
      go :
          (r : Option pq.Result × pq.World)
          → pq.exec_params writer insert_query (print_int e.timestamp ∷ e.level ∷ e.message ∷ []) w
            ≡ r
          → (if◌then◌else◌ {A = ℤ × pq.World}
              (is_bad pq pq.command_ok r.0)
              (negsuc 0, r.1)
              (pos 0, r.1)).0
            ≡ pos 0
          → rows
              (if◌then◌else◌ {A = ℤ × pq.World}
                (is_bad pq pq.command_ok r.0)
                (negsuc 0, r.1)
                (pos 0, r.1)).1
            ≡ row_of e ∷ rows w
      go (none, w') q k = cc
      go (some res, w') q k = elim (Bool-cases (pq.command_ok res)) [
        | inl good ↦ rw good (law.inserts writer e w w' res q good)
        | inr bad ↦ let k' = rw bad at k in cc
      ]

  -- The levels still fit the arrays after all the entries are written.
  pub AllShort-write_all :
      (writer : Option pq.Conn) (es : List LogEntry) (w : pq.World)
      → AllClean es
      → AllWritten pq writer es w
      → AllShort (rows w)
      → AllShort (rows (write_all pq writer es w))
  unfolding write_all
  AllShort-write_all writer [] w c h short = short
  AllShort-write_all writer (e ∷ es) w c h short =
      AllShort-write_all writer es (db_write pq writer e w).1 c.1 h.1 (
        subst AllShort (sym (rows-db_write writer e w h.0)) (
          subst (λ l. length l ≤ 15) (sym (c_str-c_str e.level)) (IsField-short 15 c.0.clean_level),
          short,
        ))

  -- The table after all the entries are written, as the entries that its rows stand for.
  entries-write_all :
      (writer : Option pq.Conn) (es : List LogEntry) (w : pq.World)
      → AllClean es
      → AllWritten pq writer es w
      → map entry_of (rows (write_all pq writer es w)) ≡ reverse es ++ map entry_of (rows w)
  unfolding write_all
  entries-write_all writer [] w c h = refl
  entries-write_all writer (e ∷ es) w c h =
      entries-write_all writer es (db_write pq writer e w).1 c.1 h.1
      ∙ ap (λ rs. reverse es ++ map entry_of rs) (rows-db_write writer e w h.0)
      ∙ ap (λ f. reverse es ++ (f ∷ map entry_of (rows w))) (entry_of-row_of e c.0)
      ∙ sym (append_assoc (reverse es) (e ∷ []) (map entry_of (rows w)))
      ∙ ap (λ l. l ++ map entry_of (rows w)) (sym (reverse-cons e es))

  -- A cache that held the newest of the rows holds them again, with new entries before them.
  agrees-Holds :
      {d : Cache} {size count : ℕ} (es held news olds : List LogEntry)
      → (k : Holds (some d) size (take size (reverse es ++ held))) → held ≡ take count olds
      → length held ≡ count
      → news ≡ reverse es ++ olds
      → recent d k.cells ≡ take d.count news
  agrees-Holds {d} {size} {count} es held news olds k agrees counted stored =
      let same : recent d k.cells ≡ take size (reverse es ++ held) =
        subst (λ c. recent c k.cells ≡ take size (reverse es ++ held)) (Holds-same k) k.entries in
      let n : d.count ≡ min size (length (reverse es) + count) =
        sym (length-newest k.cells d.capacity d.tail 0 d.count)
        ∙ ap length same
        ∙ length-take size (reverse es ++ held)
        ∙ ap (min size)
            (length-append (reverse es) held ∙ ap (λ c. length (reverse es) + c) counted) in
      same
      ∙ ap (λ h. take size (reverse es ++ h)) agrees
      ∙ take-append-take-min size count d.count (reverse es) olds n
      ∙ ap (take d.count) (sym stored)

  -- The worker's turns for entries, as after worker_loop_lem, with the table.
  pub record Stored (s : Worker pq) (es rest : List LogEntry) (o : Option (Turn × Worker pq))
      : Type 0 where
    pub state : Worker pq
    pub cells : List LogEntry
    pub result : o ≡ some (goes_on, state)
    pub queue_valid : QueueIsValid state.queue
    pub left : contents state.queue ≡ rest
    pub coherent : IsCoherent table state cells
    pub written : state.world ≡ write_all pq s.writer es s.world
    pub stored : map entry_of (rows state.world) ≡ reverse es ++ map entry_of (rows s.world)

  -- If the cache holds the newest entries of the table, and a running worker handles some entries
  -- of a valid queue, which are as a POST leaves them and whose rows the database takes,
  -- then these are the table's newest entries, the last one handled first, and the cache again
  -- holds the newest entries of the table.
  pub worker_loop-IsCoherent :
      (s : Worker pq) {cells : List LogEntry} (es rest : List LogEntry)
      → QueueIsValid s.queue
      → IsCoherent table s cells
      → s.running ≡ true
      → contents s.queue ≡ es ++ rest
      → AllClean es
      → AllWritten pq s.writer es s.world
      → Stored s es rest (worker_loop pq (length es) s)
  worker_loop-IsCoherent s {cells} es rest v c on h clean written =
      let w = worker_loop_lem pq s es rest v c.cache_valid on h in
      let k = w.cached in
      let stored =
        ap (λ x. map entry_of (rows x)) w.written
        ∙ entries-write_all s.writer es s.world clean written in
      record {
        state = w.state;
        cells = k.cells;
        result = w.result;
        queue_valid = w.valid;
        left = w.left;
        coherent = record {
          cache_valid = subst (λ d. IsValid d k.cells) (Holds-same k) k.valid;
          agrees =
              agrees-Holds es (recent s.cache cells) (map entry_of (rows w.state.world))
                (map entry_of (rows s.world)) k c.agrees
                (length-newest cells s.cache.capacity s.cache.tail 0 s.cache.count) stored;
        };
        written = w.written;
        stored = stored;
      }
