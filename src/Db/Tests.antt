-- ===== src/Db/Tests.antt =====
-- Runs against the database in memory, and the theorems at concrete inputs.
use log_aggregator_c.Base.{
  ℕ, ◌+◌, ◌≡◌, ◌≢◌, refl, true, false, none, some, List, [], ◌∷◌, pos, negsuc, arith, replicate,
  take, map,
}
use log_aggregator_c.CString.{print_int, strtol}
use log_aggregator_c.LogEntry.{LogEntry}
use log_aggregator_c.Db.{db_write, db_read_range, db_get_connection, select_rows, fill_rows}
use log_aggregator_c.Db.Read.{ReadFails, ReadOutcome, db_page, db_read_range_lem}
use log_aggregator_c.Db.Fill.{IsSized, AllSized, AllSized-replicate}
use log_aggregator_c.Db.Rows.{Row, entry_of}
use log_aggregator_c.Db.Connections.{failed_query_leaks}
use log_aggregator_c.Db.RoundTrip.{db_read_range-db_write}
use log_aggregator_c.Worker.Coherent.{IsClean}
use log_aggregator_c.CString.Copy.{field-IsField}
use log_aggregator_c.CString.Decimal.{strtol-FitsLong}
use log_aggregator_c.Db.Memory.{Store, memory_pq, memory_table, memory_counts, memory-Inserts}

abbrev info : List ℕ
info = 73 ∷ 0 ∷ []

abbrev blank : LogEntry
blank = record { level = replicate 16 0; message = replicate 256 0; timestamp = pos 0 }

abbrev buffer : List LogEntry
buffer = replicate 2 blank

abbrev row : ℕ → Row
row n = record { timestamp = print_int (pos n); level = info; message = 109 ∷ 0 ∷ [] }

abbrev store : Store
store = record { opened = 1; rows = row 3 ∷ row 2 ∷ row 1 ∷ []; up = true }

abbrev down : Store
down = record store { up = false }

blank-IsSized : IsSized blank
blank-IsSized = record { level_size = refl; message_size = refl }

buffer-AllSized : AllSized buffer
buffer-AllSized = AllSized-replicate 2 blank blank-IsSized

db_read_range_lem_example :
    ReadOutcome memory_pq
      (ReadFails memory_pq (some info) none store 2 1)
      (db_read_range memory_pq (some info) (pos 2) (pos 1) none buffer store)
      buffer
      (db_page 2 1 none store.rows)
unfolding memory_table
db_read_range_lem_example =
    db_read_range_lem memory_pq memory_table (some info) 2 1 none buffer store (omega arith)
      (omega arith) buffer-AllSized

-- A page behind all rows: the query is made and returns no row.
behind :
    db_read_range memory_pq (some info) (pos 2) (pos 9) none buffer store
    ≡ some (pos 0, buffer, record store { opened = 1 })
unfolding db_read_range db_get_connection select_rows fill_rows print_int strtol
behind = refl

zero-ne : pos 0 ≢ negsuc 0
zero-ne h = cc

failed_query_leaks_example :
    (w : Store) × (db_read_range memory_pq (some info) (pos 2) (pos 0) none buffer down
      ≡ some (negsuc 0, buffer, w))
    × (memory_counts.open_count w ≡ memory_counts.open_count down + 1)
unfolding select_rows
failed_query_leaks_example =
    failed_query_leaks memory_counts info 2 0 none buffer down (omega arith) refl refl

-- An entry as a POST leaves it.
abbrev sent : LogEntry
sent = entry_of (row 4)

sent-IsClean : IsClean sent
sent-IsClean = record {
  clean_level = field-IsField 15 info;
  clean_message = field-IsField 255 (109 ∷ 0 ∷ []);
  clean_time = strtol-FitsLong (print_int (pos 4));
}

abbrev after_write : Store
after_write = (db_write memory_pq (some true) sent store).1

db_read_range-db_write_example :
    ReadOutcome memory_pq
      (ReadFails memory_pq (some info) none after_write 2 0)
      (db_read_range memory_pq (some info) (pos 2) (pos 0) none buffer after_write)
      buffer
      (take 2 (sent ∷ map entry_of (memory_table.rows store)))
unfolding db_write
db_read_range-db_write_example =
    db_read_range-db_write memory-Inserts (some true) (some info) sent 2 buffer store sent-IsClean
      refl (omega arith) (omega arith) buffer-AllSized
