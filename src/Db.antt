-- ===== src/Db.antt =====
-- src/server/db_postgres.c: the table of log entries in PostgreSQL, through libpq. The library and
-- the server behind it are a parameter, and their state, `World`, goes through every call. Messages
-- printed to stderr and PQclear, which frees a result, are left out.
pub mod Rows
pub mod Fill
pub mod Read
pub mod Connections
pub mod RoundTrip
pub mod Memory
mod Tests
use Prim.Native.String.{String}
use log_aggregator_c.Base.{
  ℕ, zero, suc, ◌+◌, ◌≡◌, Bool, true, false, not, ◌||◌, Option, none, some, List, [], ◌∷◌, ℤ, pos,
  negsuc, ◌>>=◌, if◌then◌else◌, load, store, leb_ℤ, ltb_ℤ,
}
use log_aggregator_c.CString.{strtol, print_int, copy_field}
use log_aggregator_c.LogEntry.{LogEntry}

-- What the file uses of <libpq-fe.h>. `none` is a null pointer.
pub record Libpq : Type 1 where
  pub World : Type 0
  pub Conn : Type 0
  pub Result : Type 0
  pub connectdb : List ℕ → World → Conn × World
  pub status_ok : Conn → World → Bool  -- PQstatus(conn) == CONNECTION_OK
  pub finish : Conn → World → World
  pub exec_params : Option Conn → String → List (List ℕ) → World → Option Result × World
  pub command_ok : Result → Bool  -- PQresultStatus(res) == PGRES_COMMAND_OK
  pub tuples_ok : Result → Bool  -- PQresultStatus(res) == PGRES_TUPLES_OK
  pub ntuples : Result → ℕ
  pub getvalue : Result → ℕ → ℕ → List ℕ

abbrev pub create_table_query : String
create_table_query =
    "CREATE TABLE IF NOT EXISTS logs(id SERIAL PRIMARY KEY,timestamp BIGINT NOT NULL,level VARCHAR(16) NOT NULL,message VARCHAR(512) NOT NULL);"

abbrev pub insert_query : String
insert_query = "INSERT INTO logs (timestamp, level, message) VALUES ($1, $2, $3)"

abbrev pub select_query : String
select_query = "SELECT timestamp, level, message FROM logs ORDER BY id DESC LIMIT $1 OFFSET $2"

abbrev pub select_level_query : String
select_level_query =
    "SELECT timestamp, level, message FROM logs WHERE level = $1 ORDER BY id DESC LIMIT $2 OFFSET $3"

module _ (pq : Libpq) where
  open pq use {
    World, Conn, Result, connectdb, status_ok, finish, exec_params, command_ok, tuples_ok, ntuples,
    getvalue,
  }

  -- PQconnectdb with the test of its status behind it.
  abbrev pub connected :
      {B : Type 0} → List ℕ → World → (failed : World → B) → (ok : Conn → World → B) → B
  connected info w failed ok =
      let (conn, w') = connectdb info w in
      if status_ok conn w' then ok conn w' else failed (finish conn w')

  -- !res || PQresultStatus(res) != …
  abbrev pub is_bad : (Result → Bool) → Option Result → Bool
  is_bad good none = true
  is_bad good (some res) = not (good res)

  unfoldable pub db_write : Option Conn → LogEntry → World → ℤ × World
  db_write writer entry w =
      let (res, w') =
        exec_params writer insert_query
          (print_int entry.timestamp ∷ entry.level ∷ entry.message ∷ []) w in
      if is_bad command_ok res then (negsuc 0, w') else (pos 0, w')

  unfoldable pub select_rows :
      Conn → (limit offset : ℤ) → Option (List ℕ) → World → Option Result × World
  select_rows conn limit offset none w =
      exec_params (some conn) select_query (print_int limit ∷ print_int offset ∷ []) w
  select_rows conn limit offset (some level) w =
      exec_params (some conn) select_level_query (level ∷ print_int limit ∷ print_int offset ∷ []) w

  -- The assignments to `buffer[i]`, whose memory holds `old`. atoll is strtol.
  abbrev pub row_entry : Result → ℕ → LogEntry → LogEntry
  row_entry res i old = record {
    level = copy_field old.level (getvalue res i 1) 15;
    message = copy_field old.message (getvalue res i 2) 255;
    timestamp = strtol (getvalue res i 0);
  }

  -- for (int i = 0; i < rows; i++), with `left` rounds to go
  pub fill_rows : Result → (left i : ℕ) → List LogEntry → Option (List LogEntry)
  fill_rows res zero i buffer = some buffer
  fill_rows res (suc left) i buffer = do
    old ← load buffer (pos i)
    buffer' ← store buffer i (row_entry res i old)
    fill_rows res left (i + 1) buffer'

  -- The code behind a connection: on a failed query it returns without PQfinish.
  abbrev pub read_result :
      Conn → List LogEntry → Option Result × World → Option (ℤ × List LogEntry × World)
  read_result conn buffer (none, w) = some (negsuc 0, buffer, w)
  read_result conn buffer (some res, w) =
      if not (tuples_ok res)
      then some (negsuc 0, buffer, w)
      else (fill_rows res (ntuples res) 0 buffer >>= λ buffer'.
          some (pos (ntuples res), buffer', finish conn w))

  -- db_read_range behind its guard, with what db_get_connection returned.
  abbrev pub read_connected :
      (limit offset : ℤ)
      → Option (List ℕ)
      → List LogEntry
      → Option Conn × World
      → Option (ℤ × List LogEntry × World)
  read_connected limit offset level buffer (none, w) = some (negsuc 0, buffer, w)
  read_connected limit offset level buffer (some conn, w) =
      read_result conn buffer (select_rows conn limit offset level w)

  unfoldable pub db_close : Option Conn → World → Option Conn × World
  db_close none w = (none, w)
  db_close (some conn) w = (none, finish conn w)

-- `conn_info` is what getenv("LOGDB_CONN") returns.
module _ (pq : Libpq) (conn_info : Option (List ℕ)) where
  open pq use {World, Conn, finish, exec_params, command_ok}

  unfoldable pub db_init : World → ℤ × World
  db_init w = elim conn_info [
    | none ↦ (negsuc 0, w)
    | some info ↦
        connected pq info w (λ w'. (negsuc 0, w'))
          λ conn w'.
            let (res, w'') = exec_params (some conn) create_table_query [] w' in
            if is_bad pq command_ok res
            then (negsuc 0, finish conn w'')
            else (pos 0, finish conn w'')
  ]

  -- The second component is pg_conn_write afterwards.
  unfoldable pub db_init_writer : Option Conn → World → ℤ × Option Conn × World
  db_init_writer writer w = elim conn_info [
    | none ↦ (negsuc 0, writer, w)
    | some info ↦
        connected pq info w (λ w'. (negsuc 0, none, w')) (λ conn w'. (pos 0, some conn, w'))
  ]

  unfoldable pub db_get_connection : World → Option Conn × World
  db_get_connection w = elim conn_info [
    | none ↦ (none, w)
    | some info ↦ connected pq info w (λ w'. (none, w')) (λ conn w'. (some conn, w'))
  ]

  -- Returns the result, what `buffer` holds after the call, and the state of the library.
  unfoldable pub db_read_range :
      (limit offset : ℤ)
      → Option (List ℕ)
      → List LogEntry
      → World
      → Option (ℤ × List LogEntry × World)
  db_read_range limit offset level buffer w =
      if leb_ℤ limit (pos 0) || ltb_ℤ offset (pos 0)
      then some (pos 0, buffer, w)
      else read_connected pq limit offset level buffer (db_get_connection w)
