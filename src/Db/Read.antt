-- ===== src/Db/Read.antt =====
-- db_read_range: the rows that it copies into the buffer, and the bounds of its accesses.
use log_aggregator_c.Base.{
  ℕ, zero, suc, ◌+◌, ◌≤◌, ◌<◌, ◌≡◌, refl, ap, sym, ◌∙◌, true, false, Bool-cases, inl, inr, Option,
  none, some, List, [], ◌∷◌, map, arith, length, take, drop, filter_if, length-take, length-map, ℤ,
  pos, negsuc, leb_ℤ, ltb_ℤ, ◌||◌,
}
use log_aggregator_c.LogEntry.{LogEntry}
use log_aggregator_c.Cache.Scan.{overwrite}
use log_aggregator_c.Db.{
  Libpq, is_bad, select_rows, read_result, read_connected, db_get_connection, db_read_range,
}
use log_aggregator_c.Db.Rows.{Row, in_level, entry_of, decoded, Table}
use log_aggregator_c.Db.Fill.{AllSized, fill_rows_lem}

length-decoded : (pq : Libpq) (res : pq.Result) (n i : ℕ) → length (decoded pq res n i) ≡ n
unfolding decoded
length-decoded pq res zero i = refl
length-decoded pq res (suc n) i = ap suc (length-decoded pq res n (i + 1))

pub filter_if-none : (rows : List Row) → filter_if (in_level none) rows ≡ rows
filter_if-none [] = refl
filter_if-none (r ∷ rows) = ap (λ l. r ∷ l) (filter_if-none rows)

-- The three ways in which PostgreSQL does not answer a SELECT with this LIMIT and OFFSET: nothing
-- says where it is, it takes no connection, or the query on the connection fails.
pub data ReadFails (pq : Libpq) (conn_info level : Option (List ℕ)) (w : pq.World)
    (limit offset : ℕ) : Type 0 where
  no_variable : conn_info ≡ none → ReadFails pq conn_info level w limit offset
  no_connection :
      (info : List ℕ)
      → conn_info ≡ some info
      → pq.status_ok (pq.connectdb info w).0 (pq.connectdb info w).1 ≡ false
      → ReadFails pq conn_info level w limit offset
  no_rows :
      (info : List ℕ)
      → conn_info ≡ some info
      → is_bad pq pq.tuples_ok
          (select_rows pq
            (pq.connectdb info w).0
            (pos limit)
            (pos offset)
            level
            (pq.connectdb info w).1).0
        ≡ true
      → ReadFails pq conn_info level w limit offset

-- How a call of db_read_range ends: where the database fails it returns -1 and leaves the buffer
-- alone, or it returns the number of the entries `found` and has copied them to the buffer's front.
pub data ReadOutcome (pq : Libpq) (Fails : Type 0) (o : Option (ℤ × List LogEntry × pq.World))
    (buffer found : List LogEntry) : Type 0 where
  failed :
      (w : pq.World) → Fails → o ≡ some (negsuc 0, buffer, w) → ReadOutcome pq Fails o buffer found
  answered :
      (w : pq.World)
      → o ≡ some (pos (length found), overwrite found buffer, w)
      → ReadOutcome pq Fails o buffer found

-- The rows that a query with LIMIT and OFFSET is to return, as log entries.
abbrev pub db_page : ℕ → ℕ → Option (List ℕ) → List Row → List LogEntry
db_page limit offset level rows =
    map entry_of (take limit (drop offset (filter_if (in_level level) rows)))

pub length-db_page :
    (limit offset : ℕ) (level : Option (List ℕ)) (rows : List Row)
    → length (db_page limit offset level rows) ≤ limit
length-db_page limit offset level rows = omega (
  arith,
  length-map entry_of (take limit (drop offset (filter_if (in_level level) rows))),
  length-take limit (drop offset (filter_if (in_level level) rows)),
)

module _ (pq : Libpq) (buffer : List LogEntry) (sized : AllSized buffer) (rows : List Row)
    (fits : length rows ≤ length buffer) where
  good_result :
      (conn : pq.Conn) (res : pq.Result) (w : pq.World)
      → decoded pq res (pq.ntuples res) 0 ≡ rows
      → pq.tuples_ok res ≡ true
      → read_result pq conn buffer (some res, w)
        ≡ some (
          pos (length (map entry_of rows)),
          overwrite (map entry_of rows) buffer,
          pq.finish conn w,
        )
  good_result conn res w d ok =
      let n : pq.ntuples res ≡ length (map entry_of rows) =
        omega (
          arith,
          length-decoded pq res (pq.ntuples res) 0,
          ap length d,
          length-map entry_of rows,
        ) in
      rw ok (
        rw
          (fill_rows_lem pq res buffer sized (pq.ntuples res) []
            (omega (arith, n, length-map entry_of rows)))
          (rw d (ap (λ k. some (pos k, overwrite (map entry_of rows) buffer, pq.finish conn w)) n)))

  read_result-ReadOutcome :
      (conn : pq.Conn) (r : Option pq.Result × pq.World)
      → ((res : pq.Result) (w : pq.World)
          → r ≡ (some res, w)
          → pq.tuples_ok res ≡ true
          → decoded pq res (pq.ntuples res) 0 ≡ rows)
      → {Fails : Type 0} → (is_bad pq pq.tuples_ok r.0 ≡ true → Fails)
      → ReadOutcome pq Fails (read_result pq conn buffer r) buffer (map entry_of rows)
  read_result-ReadOutcome conn (none, w) law fails = failed w (fails refl) refl
  read_result-ReadOutcome conn (some res, w) law fails = elim (Bool-cases (pq.tuples_ok res)) [
    | inl ok ↦ answered (pq.finish conn w) (good_result conn res w (law res w refl ok) ok)
    | inr bad ↦ failed w (fails (rw bad refl)) (rw bad refl)
  ]

selected :
    {pq : Libpq} (table : Table pq) (limit offset : ℕ) (level : Option (List ℕ)) (conn : pq.Conn)
    (w w' : pq.World)
    → table.rows w' ≡ table.rows w
    → (res : pq.Result) (w'' : pq.World)
    → select_rows pq conn (pos limit) (pos offset) level w' ≡ (some res, w'')
    → pq.tuples_ok res ≡ true
    → decoded pq res (pq.ntuples res) 0
      ≡ take limit (drop offset (filter_if (in_level level) (table.rows w)))
unfolding select_rows
selected table limit offset none conn w w' same res w'' e ok =
    table.selects conn limit offset w' w'' res e ok
    ∙ ap (λ l. take limit (drop offset l)) (same ∙ sym (filter_if-none (table.rows w)))
selected table limit offset (some l) conn w w' same res w'' e ok =
    table.selects_level conn l limit offset w' w'' res e ok
    ∙ ap (λ rs. take limit (drop offset (filter_if (in_level (some l)) rs))) same

-- How db_get_connection may end.
pub data Connection (pq : Libpq) (conn_info : Option (List ℕ)) (w : pq.World) : Type 0 where
  unset :
      conn_info ≡ none → db_get_connection pq conn_info w ≡ (none, w) → Connection pq conn_info w
  refused :
      (info : List ℕ) (w' : pq.World)
      → conn_info ≡ some info
      → pq.status_ok (pq.connectdb info w).0 (pq.connectdb info w).1 ≡ false
      → db_get_connection pq conn_info w ≡ (none, w')
      → Connection pq conn_info w
  opened :
      (info : List ℕ) (conn : pq.Conn) (w' : pq.World)
      → conn_info ≡ some info
      → pq.connectdb info w ≡ (conn, w')
      → db_get_connection pq conn_info w ≡ (some conn, w')
      → Connection pq conn_info w

pub Connection-cases :
    (pq : Libpq) (conn_info : Option (List ℕ)) (w : pq.World) → Connection pq conn_info w
unfolding db_get_connection
Connection-cases pq none w = unset refl refl
Connection-cases pq (some info) w =
    let (conn, w') = pq.connectdb info w in
    elim (Bool-cases (pq.status_ok conn w')) [
      | inl ok ↦ opened info conn w' refl refl (rw ok)
      | inr bad ↦ refused info (pq.finish conn w') refl bad (rw bad)
    ]

-- With room for `limit` entries, db_read_range never writes out of bounds. If LOGDB_CONN is not set,
-- the connection is refused or the query fails, it returns -1 with the buffer unchanged; else the number of the newest `limit` rows of the level behind the first
-- `offset` such rows, copied in that order to the front of the buffer, their texts cut to fit.
pub db_read_range_lem :
    (pq : Libpq) (table : Table pq) (conn_info : Option (List ℕ)) (limit offset : ℕ)
    (level : Option (List ℕ)) (buffer : List LogEntry) (w : pq.World)
    → 0 < limit
    → limit ≤ length buffer
    → AllSized buffer
    → ReadOutcome pq
        (ReadFails pq conn_info level w limit offset)
        (db_read_range pq conn_info (pos limit) (pos offset) level buffer w)
        buffer
        (db_page limit offset level (table.rows w))
unfolding db_read_range
db_read_range_lem pq table conn_info limit offset level buffer w h room sized =
    let t : (leb_ℤ (pos limit) (pos 0) || ltb_ℤ (pos offset) (pos 0)) ≡ false = ground arith in
    rw t (outcome (Connection-cases pq conn_info w))
  where
    outcome :
        Connection pq conn_info w
        → ReadOutcome pq
            (ReadFails pq conn_info level w limit offset)
            (read_connected pq
              (pos limit)
              (pos offset)
              level
              buffer
              (db_get_connection pq conn_info w))
            buffer
            (db_page limit offset level (table.rows w))
    outcome (unset u e) = rw e (failed w (no_variable u) refl)
    outcome (refused info w' u bad e) = rw e (failed w' (no_connection info u bad) refl)
    outcome (opened info conn w' u c e) = rw e (
        read_result-ReadOutcome pq buffer sized
          (take limit (drop offset (filter_if (in_level level) (table.rows w))))
          (omega
            (arith, length-take limit (drop offset (filter_if (in_level level) (table.rows w)))))
          conn (select_rows pq conn (pos limit) (pos offset) level w')
          (selected table limit offset level conn w w'
            (ap (λ p. table.rows p.1) (sym c) ∙ table.rows-connectdb info w))
          (λ bad. no_rows info u (
            ap
              (λ p.
                is_bad pq pq.tuples_ok (select_rows pq p.0 (pos limit) (pos offset) level p.1).0)
              c
            ∙ bad)))
