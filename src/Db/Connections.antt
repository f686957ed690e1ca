-- ===== src/Db/Connections.antt =====
-- Which functions give back the connections that they open.
use Prim.Native.String.{String}
use log_aggregator_c.Base.{
  ℕ, ◌+◌, ◌-◌, ◌<◌, ◌≡◌, ◌≢◌, ◌⊎◌, refl, ap, true, false, ◌||◌, Bool-cases, inl, inr, Option, none,
  some, List, [], arith, ℤ, pos, negsuc, leb_ℤ, ltb_ℤ, Option-cases,
}
use log_aggregator_c.LogEntry.{LogEntry}
use log_aggregator_c.Db.Read.{Connection, unset, refused, opened, Connection-cases}
use log_aggregator_c.Db.{
  Libpq, select_query, select_level_query, create_table_query, is_bad, select_rows, fill_rows,
  read_result, read_connected, db_get_connection, db_read_range, db_init, db_init_writer,
}

-- What libpq documents of the number of open connections: PQconnectdb makes one, also where it
-- fails, PQfinish ends one, and a query changes nothing.
pub record Counts (pq : Libpq) : Type 0 where
  pub open_count : pq.World → ℕ
  pub open_count-connectdb :
      (info : List ℕ) (w : pq.World) → open_count (pq.connectdb info w).1 ≡ open_count w + 1
  pub open_count-finish :
      (conn : pq.Conn) (w : pq.World) → open_count (pq.finish conn w) ≡ open_count w - 1
  pub open_count-exec :
      (conn : Option pq.Conn) (sql : String) (params : List (List ℕ)) (w : pq.World)
      → open_count (pq.exec_params conn sql params w).1 ≡ open_count w

module _ {pq : Libpq} (counts : Counts pq) where
  open counts use {open_count, open_count-connectdb, open_count-finish, open_count-exec}

  refused_count :
      (info : List ℕ) (w : pq.World)
      → open_count (pq.finish (pq.connectdb info w).0 (pq.connectdb info w).1) ≡ open_count w
  refused_count info w = omega (
    arith,
    open_count-finish (pq.connectdb info w).0 (pq.connectdb info w).1,
    open_count-connectdb info w,
  )

  -- db_init opens a connection for itself and closes it again, whether it succeeds or fails.
  pub db_init_balanced :
      (conn_info : Option (List ℕ)) (w : pq.World)
      → open_count (db_init pq conn_info w).1 ≡ open_count w
  unfolding db_init
  db_init_balanced none w = refl
  db_init_balanced (some info) w =
      let (conn, w') = pq.connectdb info w in
      let (res, w'') = pq.exec_params (some conn) create_table_query [] w' in
      let closed : open_count (pq.finish conn w'') ≡ open_count w = omega (
        arith,
        open_count-finish conn w'',
        open_count-exec (some conn) create_table_query [] w',
        open_count-connectdb info w,
      ) in
      elim (Bool-cases (pq.status_ok conn w')) [
        | inr bad ↦ rw bad (refused_count info w)
        | inl ok ↦ elim (Bool-cases (is_bad pq pq.command_ok res)) [
          | inl b ↦ rw ok (rw b closed)
          | inr g ↦ rw ok (rw g closed)
        ]
      ]

  -- db_init_writer returns 0 with one more connection open, or -1 with as many as before.
  pub db_init_writer_balanced :
      (conn_info : Option (List ℕ)) (writer : Option pq.Conn) (w : pq.World)
      → let (status, writer', w') = db_init_writer pq conn_info writer w in
        ((status ≡ pos 0) × (open_count w' ≡ open_count w + 1))
        ⊎ ((status ≡ negsuc 0) × (open_count w' ≡ open_count w))
  unfolding db_init_writer
  db_init_writer_balanced none writer w = inr (refl, refl)
  db_init_writer_balanced (some info) writer w =
      let (conn, w') = pq.connectdb info w in
      elim (Bool-cases (pq.status_ok conn w')) [
        | inl ok ↦ rw ok (inl (refl, open_count-connectdb info w))
        | inr bad ↦ rw bad (inr (refl, refused_count info w))
      ]

  open_count-select :
      (conn : pq.Conn) (limit offset : ℤ) (level : Option (List ℕ)) (w : pq.World)
      → open_count (select_rows pq conn limit offset level w).1 ≡ open_count w
  unfolding select_rows
  open_count-select conn limit offset none w = open_count-exec (some conn) select_query _ w
  open_count-select conn limit offset (some l) w =
      open_count-exec (some conn) select_level_query _ w

  read_result_closes :
      (conn : pq.Conn) (buffer buffer' : List LogEntry) (r : Option pq.Result × pq.World) (n : ℤ)
      (w' : pq.World)
      → read_result pq conn buffer r ≡ some (n, buffer', w')
      → n ≢ negsuc 0
      → w' ≡ pq.finish conn r.1
  read_result_closes conn buffer buffer' (none, w) n w' h ne = absurd (ne (cc))
  read_result_closes conn buffer buffer' (some res, w) n w' h ne =
      elim (Bool-cases (pq.tuples_ok res)) [
        | inr bad ↦ absurd (ne (let h' = rw bad at h in cc))
        | inl ok ↦ elim (Option-cases (fill_rows pq res (pq.ntuples res) 0 buffer)) [
          | inl fault ↦ let h' = rw (ok, fault) at h in cc
          | inr (b, done) ↦ let h' = rw (ok, done) at h in cc
        ]
      ]

  -- A db_read_range that does not return -1 leaves as many connections open as before.
  pub db_read_range_balanced :
      (conn_info : Option (List ℕ)) (limit offset : ℤ) (level : Option (List ℕ))
      (buffer buffer' : List LogEntry) (w w' : pq.World) (n : ℤ)
      → db_read_range pq conn_info limit offset level buffer w ≡ some (n, buffer', w')
      → n ≢ negsuc 0
      → open_count w' ≡ open_count w
  unfolding db_read_range
  db_read_range_balanced conn_info limit offset level buffer buffer' w w' n h ne =
      elim (Bool-cases (leb_ℤ limit (pos 0) || ltb_ℤ offset (pos 0))) [
        | inl guard ↦ let h' = rw guard at h in ap open_count (cc)
        | inr go ↦ let h' = rw go at h in connected_case (Connection-cases pq conn_info w) h'
      ]
    where
      connected_case :
          Connection pq conn_info w
          → read_connected pq limit offset level buffer (db_get_connection pq conn_info w)
            ≡ some (n, buffer', w')
          → open_count w' ≡ open_count w
      connected_case (unset u e) k = let k' = rw e at k in absurd (ne (cc))
      connected_case (refused info v u bad e) k = let k' = rw e at k in absurd (ne (cc))
      connected_case (opened info conn v u c e) k =
          let k' = rw e at k in
          let r = select_rows pq conn limit offset level v in
          let closed = read_result_closes conn buffer buffer' r n w' k' ne in
          omega (
            arith,
            ap open_count closed,
            open_count-finish conn r.1,
            open_count-select conn limit offset level v,
            ap (λ p. open_count p.1) c,
            open_count-connectdb info w,
          )

  -- When the connection is made and the query fails, db_read_range returns -1 and leaves one more
  -- connection open than before.
  pub failed_query_leaks :
      (info : List ℕ) (limit offset : ℕ) (level : Option (List ℕ)) (buffer : List LogEntry)
      (w : pq.World)
      → 0 < limit
      → pq.status_ok (pq.connectdb info w).0 (pq.connectdb info w).1 ≡ true
      → is_bad pq pq.tuples_ok
          (select_rows pq
            (pq.connectdb info w).0
            (pos limit)
            (pos offset)
            level
            (pq.connectdb info w).1).0
        ≡ true
      → (w' : pq.World) × (db_read_range pq (some info) (pos limit) (pos offset) level buffer w
          ≡ some (negsuc 0, buffer, w'))
        × (open_count w' ≡ open_count w + 1)
  unfolding db_read_range db_get_connection
  failed_query_leaks info limit offset level buffer w h ok bad =
      let (conn, w') = pq.connectdb info w in
      let t : (leb_ℤ (pos limit) (pos 0) || ltb_ℤ (pos offset) (pos 0)) ≡ false = ground arith in
      (
        (select_rows pq conn (pos limit) (pos offset) level w').1,
        rw t (rw ok (bad_result conn (select_rows pq conn (pos limit) (pos offset) level w') bad)),
        omega (
          arith,
          open_count-select conn (pos limit) (pos offset) level w',
          open_count-connectdb info w,
        ),
      )
    where
      bad_result :
          (conn : pq.Conn) (r : Option pq.Result × pq.World)
          → is_bad pq pq.tuples_ok r.0 ≡ true
          → read_result pq conn buffer r ≡ some (negsuc 0, buffer, r.1)
      bad_result conn (none, v) b = refl
      bad_result conn (some res, v) b = rw b
