-- ===== src/Traffic/Tables.antt =====
-- The rows of the table: what reads leave as it was, and what the worker adds.
use log_aggregator_c.Base.{
  ℕ, zero, suc, ◌≡◌, refl, ap, sym, ◌∙◌, Bool, true, false, ◌||◌, not, Bool-cases, inl, inr, Option,
  none, some, Option-cases, List, [], append-nil, ◌∷◌, ◌++◌, ℤ, pos, negsuc, leb_ℤ, ltb_ℤ, sub32,
  drop, map, reverse, ◌&&◌, failed,
}
use mathlib.Core.Path.{subst}
use mathlib.Core.List.{reverse-append}
use log_aggregator_c.LogEntry.{LogEntry}
use log_aggregator_c.Db.{
  Libpq, db_write, select_rows, fill_rows, read_result, read_connected, db_get_connection,
  db_read_range,
}
use log_aggregator_c.Db.Rows.{entry_of, Table, Reads, Inserts}
use log_aggregator_c.Handlers.FirstPage.{AllShort}
use log_aggregator_c.Worker.Coherent.{
  IsClean, AllClean, rows-db_write, entry_of-row_of, AllShort-write_all,
}
use log_aggregator_c.Worker.Order.{write_all}
use log_aggregator_c.Handlers.Get.{fill_from_db}

-- The rows after a read, if it returns.
abbrev Same :
    {pq : Libpq} (table : Table pq) → pq.World → Option (ℤ × List LogEntry × pq.World) → Type 0
Same table w none = Unit
Same table w (some r) = table.rows r.2 ≡ table.rows w

module _ {pq : Libpq} {table : Table pq} (law : Reads table) where
  open table use {rows}
  open law use {rows-finish, rows-select, rows-select_level}

  rows-select_rows :
      (conn : pq.Conn) (limit offset : ℤ) (level : Option (List ℕ)) (w : pq.World)
      → rows (select_rows pq conn limit offset level w).1 ≡ rows w
  unfolding select_rows
  rows-select_rows conn limit offset none w = rows-select (some conn) _ w
  rows-select_rows conn limit offset (some l) w = rows-select_level (some conn) _ w

  read_result-Same :
      (conn : pq.Conn) (buffer : List LogEntry) (r : Option pq.Result × pq.World) (w : pq.World)
      → rows r.1 ≡ rows w
      → Same table w (read_result pq conn buffer r)
  read_result-Same conn buffer (none, w') w h = h
  read_result-Same conn buffer (some res, w') w h = elim (Bool-cases (pq.tuples_ok res)) [
    | inr bad ↦ rw bad h
    | inl good ↦ rw good (elim (Option-cases (fill_rows pq res (pq.ntuples res) 0 buffer)) [
      | inl n ↦ rw n tt
      | inr (b, n) ↦ rw n (rows-finish conn w' ∙ h)
    ])
  ]

  rows-db_get_connection :
      (conn_info : Option (List ℕ)) (w : pq.World)
      → rows (db_get_connection pq conn_info w).1 ≡ rows w
  unfolding db_get_connection
  rows-db_get_connection none w = refl
  rows-db_get_connection (some info) w =
      let (conn, w') = pq.connectdb info w in
      elim (Bool-cases (pq.status_ok conn w')) [
        | inl ok ↦ rw ok (table.rows-connectdb info w)
        | inr bad ↦ rw bad (rows-finish conn w' ∙ table.rows-connectdb info w)
      ]

  read_connected-Same :
      (limit offset : ℤ) (level : Option (List ℕ)) (buffer : List LogEntry)
      (c : Option pq.Conn × pq.World) (w : pq.World)
      → rows c.1 ≡ rows w
      → Same table w (read_connected pq limit offset level buffer c)
  read_connected-Same limit offset level buffer (none, w') w h = h
  read_connected-Same limit offset level buffer (some conn, w') w h =
      read_result-Same conn buffer (select_rows pq conn limit offset level w') w
        (rows-select_rows conn limit offset level w' ∙ h)

  db_read_range-Same :
      (conn_info : Option (List ℕ)) (limit offset : ℤ) (level : Option (List ℕ))
      (buffer : List LogEntry) (w : pq.World)
      → Same table w (db_read_range pq conn_info limit offset level buffer w)
  unfolding db_read_range
  db_read_range-Same conn_info limit offset level buffer w =
      elim (Bool-cases (leb_ℤ limit (pos 0) || ltb_ℤ offset (pos 0))) [
        | inl none_wanted ↦ rw none_wanted refl
        | inr wanted ↦ rw wanted (
            read_connected-Same limit offset level buffer (db_get_connection pq conn_info w) w
              (rows-db_get_connection conn_info w))
      ]

  pub rows-db_read_range :
      (conn_info : Option (List ℕ)) (limit offset : ℤ) (level : Option (List ℕ))
      (buffer : List LogEntry) (w : pq.World) {r : ℤ × List LogEntry × pq.World}
      → db_read_range pq conn_info limit offset level buffer w ≡ some r
      → rows r.2 ≡ rows w
  rows-db_read_range conn_info limit offset level buffer w h =
      subst (Same table w) h (db_read_range-Same conn_info limit offset level buffer w)

  fill_from_db-Same :
      (conn_info : Option (List ℕ)) (limit : ℤ) (level : Option (List ℕ)) (got : ℕ)
      (buffer : List LogEntry) (w : pq.World)
      → Same table w (fill_from_db pq conn_info limit level got buffer w)
  unfolding fill_from_db
  fill_from_db-Same conn_info limit level got buffer w =
      let read =
        db_read_range pq conn_info (sub32 limit (pos got)) (pos got) level (drop got buffer) w in
      let same =
        db_read_range-Same conn_info (sub32 limit (pos got)) (pos got) level (drop got buffer) w in
      elim (Bool-cases (ltb_ℤ (pos got) limit)) [
        | inr stop ↦ rw stop refl
        | inl more ↦ rw more (elim (Option-cases read) [
          | inl n ↦ rw n tt
          | inr (r, n) ↦ rw n (subst (Same table w) n same)
        ])
      ]

  pub rows-fill_from_db :
      (conn_info : Option (List ℕ)) (limit : ℤ) (level : Option (List ℕ)) (got : ℕ)
      (buffer : List LogEntry) (w : pq.World) {r : ℤ × List LogEntry × pq.World}
      → fill_from_db pq conn_info limit level got buffer w ≡ some r
      → rows r.2 ≡ rows w
  rows-fill_from_db conn_info limit level got buffer w h =
      subst (Same table w) h (fill_from_db-Same conn_info limit level got buffer w)

-- `last` is what is in the cache and not yet in the table, `base` what the table held at first.
pub record Stored {pq : Libpq} (table : Table pq) (base last inserted : List LogEntry)
    (intact : Bool) (w : pq.World) : Type 0 where
  pub clean_last : AllClean last
  pub earlier : List LogEntry
  pub ends : inserted ≡ earlier ++ last
  pub written : intact ≡ true → last ++ map entry_of (table.rows w) ≡ reverse inserted ++ base
  pub short : intact ≡ true → AllShort (table.rows w)

-- The database was read.
pub read-Stored :
    {pq : Libpq} {table : Table pq} {base last inserted : List LogEntry} {intact : Bool}
    {w w' : pq.World}
    → Stored table base last inserted intact w
    → table.rows w' ≡ table.rows w
    → Stored table base last inserted intact w'
read-Stored {table = table} {last = last} stored same = record {
  clean_last = stored.clean_last;
  earlier = stored.earlier;
  ends = stored.ends;
  written = λ on. ap (λ rs. last ++ map entry_of rs) same ∙ stored.written on;
  short = λ on. subst AllShort (sym same) (stored.short on);
}

-- The worker put an entry into the cache.
pub insert-Stored :
    {pq : Libpq} {table : Table pq} {base inserted : List LogEntry} {intact : Bool} {w : pq.World}
    (e : LogEntry)
    → IsClean e
    → Stored table base [] inserted intact w
    → Stored table base (e ∷ []) (inserted ++ (e ∷ [])) intact w
insert-Stored {base = base} {inserted = inserted} e c stored = record {
  clean_last = (c, tt);
  earlier = inserted;
  ends = refl;
  written = λ on.
      ap (λ l. e ∷ l) (stored.written on)
      ∙ ap (λ l. l ++ base) (sym (reverse-append inserted (e ∷ [])));
  short = stored.short;
}

still_intact :
    (intact : Bool) (status : ℤ)
    → (intact && not (failed status)) ≡ true
    → (intact ≡ true) × (status ≡ pos 0)
still_intact false status h = cc
still_intact true (pos zero) h = (refl, refl)
still_intact true (pos (suc k)) h = cc
still_intact true (negsuc k) h = cc

AllShort-write_one :
    {pq : Libpq} {table : Table pq} (writer : Option pq.Conn) (e : LogEntry) (w : pq.World)
    → Inserts table
    → AllClean (e ∷ [])
    → (db_write pq writer e w).0 ≡ pos 0
    → AllShort (table.rows w)
    → AllShort (table.rows (db_write pq writer e w).1)
unfolding write_all
AllShort-write_one writer e w ins c ok short =
    AllShort-write_all ins writer (e ∷ []) w c (ok, tt) short

-- The worker called db_write.
pub write-Stored :
    {pq : Libpq} {table : Table pq} {base inserted : List LogEntry} {intact : Bool}
    {w w' : pq.World} (writer : Option pq.Conn) (e : LogEntry) (status : ℤ)
    → Inserts table
    → Stored table base (e ∷ []) inserted intact w
    → db_write pq writer e w ≡ (status, w')
    → Stored table base [] inserted (intact && not (failed status)) w'
write-Stored {pq} {table} {base} {inserted} {intact} {w} {w'} writer e status ins stored d =
    let world = ap (λ r. r.1) d in
    let ok = λ (h : (intact && not (failed status)) ≡ true).
      ap (λ r. r.0) d ∙ (still_intact intact status h).1 in
    record {
      clean_last = tt;
      earlier = inserted;
      ends = sym (append-nil inserted);
      written = λ h.
          ap (λ x. map entry_of (table.rows x)) (sym world)
          ∙ ap (map entry_of) (rows-db_write ins writer e w (ok h))
          ∙ ap (λ x. x ∷ map entry_of (table.rows w)) (entry_of-row_of e stored.clean_last.0)
          ∙ stored.written (still_intact intact status h).0;
      short = λ h.
          subst (λ x. AllShort (table.rows x)) world
            (AllShort-write_one writer e w ins stored.clean_last (ok h)
              (stored.short (still_intact intact status h).0));
    }
