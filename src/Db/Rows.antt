-- ===== src/Db/Rows.antt =====
-- What PostgreSQL documents of the two queries, as a property of the parameter: on success they
-- return the rows asked for, newest first; and of INSERT. Nothing is said of when one succeeds.
use log_aggregator_c.Base.{
  ℕ, zero, suc, ◌+◌, ◌≡◌, Bool, true, Option, none, some, List, [], ◌∷◌, ◌++◌, pos, take, drop,
  filter_if,
}
use log_aggregator_c.CString.{c_str, str_eq, print_int, strtol}
use log_aggregator_c.CString.Copy.{field}
use log_aggregator_c.LogEntry.{LogEntry}
use log_aggregator_c.Db.{Libpq, insert_query, select_query, select_level_query}

-- A row's columns in text form.
pub record Row : Type 0 where
  pub timestamp : List ℕ
  pub level : List ℕ
  pub message : List ℕ

-- WHERE level = $1, where it stands
abbrev pub in_level : Option (List ℕ) → Row → Bool
in_level none r = true
in_level (some level) r = str_eq level r.level

-- The log entry that a row stands for: its texts cut off to fit the arrays.
abbrev pub entry_of : Row → LogEntry
entry_of r = record {
  level = field 15 r.level ++ (0 ∷ []);
  message = field 255 r.message ++ (0 ∷ []);
  timestamp = strtol r.timestamp;
}

-- `n` rows of a result, from row `i` on.
unfoldable pub decoded : (pq : Libpq) → pq.Result → (n i : ℕ) → List Row
decoded pq res zero i = []
decoded pq res (suc n) i =
    record {
      timestamp = pq.getvalue res i 0;
      level = pq.getvalue res i 1;
      message = pq.getvalue res i 2;
    }
    ∷ decoded pq res n (i + 1)

pub record Table (pq : Libpq) : Type 0 where
  pub rows : pq.World → List Row  -- ORDER BY id DESC
  pub rows-connectdb : (info : List ℕ) (w : pq.World) → rows (pq.connectdb info w).1 ≡ rows w
  pub selects :
      (conn : pq.Conn) (limit offset : ℕ) (w w' : pq.World) (res : pq.Result)
      → pq.exec_params
          (some conn)
          select_query
          (print_int (pos limit) ∷ print_int (pos offset) ∷ [])
          w
        ≡ (some res, w')
      → pq.tuples_ok res ≡ true
      → decoded pq res (pq.ntuples res) 0 ≡ take limit (drop offset (rows w))
  pub selects_level :
      (conn : pq.Conn) (level : List ℕ) (limit offset : ℕ) (w w' : pq.World) (res : pq.Result)
      → pq.exec_params
          (some conn)
          select_level_query
          (level ∷ print_int (pos limit) ∷ print_int (pos offset) ∷ [])
          w
        ≡ (some res, w')
      → pq.tuples_ok res ≡ true
      → decoded pq res (pq.ntuples res) 0
        ≡ take limit (drop offset (filter_if (in_level (some level)) (rows w)))

-- The row that the parameters of db_write make: libpq reads each up to its end.
abbrev pub row_of : LogEntry → Row
row_of e = record {
  timestamp = c_str (print_int e.timestamp);
  level = c_str e.level;
  message = c_str e.message;
}

-- What PostgreSQL documents of INSERT, where it succeeds: the row is the table's newest.
pub record Inserts {pq : Libpq} (table : Table pq) : Type 0 where
  pub inserts :
      (conn : Option pq.Conn) (e : LogEntry) (w w' : pq.World) (res : pq.Result)
      → pq.exec_params conn insert_query (print_int e.timestamp ∷ e.level ∷ e.message ∷ []) w
        ≡ (some res, w')
      → pq.command_ok res ≡ true
      → table.rows w' ≡ row_of e ∷ table.rows w

-- What PostgreSQL and libpq document of reading: neither a SELECT nor PQfinish changes a row.
pub record Reads {pq : Libpq} (table : Table pq) : Type 0 where
  pub rows-finish : (conn : pq.Conn) (w : pq.World) → table.rows (pq.finish conn w) ≡ table.rows w
  pub rows-select :
      (conn : Option pq.Conn) (params : List (List ℕ)) (w : pq.World)
      → table.rows (pq.exec_params conn select_query params w).1 ≡ table.rows w
  pub rows-select_level :
      (conn : Option pq.Conn) (params : List (List ℕ)) (w : pq.World)
      → table.rows (pq.exec_params conn select_level_query params w).1 ≡ table.rows w
