-- ===== src/Db/RoundTrip.antt =====
-- An entry on its way through the database: db_write, then db_read_range.
use mathlib.Core.Path.{subst}
use log_aggregator_c.Base.{
  ℕ, ◌≤◌, ◌<◌, ◌≡◌, ap, ◌∙◌, Option, none, List, ◌∷◌, pos, length, map, take, map-take,
}
use log_aggregator_c.LogEntry.{LogEntry}
use log_aggregator_c.Db.{Libpq, db_write, db_read_range}
use log_aggregator_c.Db.Fill.{AllSized}
use log_aggregator_c.Db.Read.{ReadFails, ReadOutcome, db_page, db_read_range_lem, filter_if-none}
use log_aggregator_c.Db.Rows.{Table, Inserts, entry_of}
use log_aggregator_c.Worker.Coherent.{IsClean, rows-db_write, entry_of-row_of}

-- After a db_write that returned 0, of an entry as a POST leaves it, a db_read_range of any length
-- from the start gives, unless the database fails, exactly this entry with its level, its message
-- and its timestamp, and behind it the entries that the table had before.
pub db_read_range-db_write :
    {pq : Libpq} {table : Table pq}
    → Inserts table
    → (writer : Option pq.Conn) (conn_info : Option (List ℕ)) (e : LogEntry) (limit : ℕ)
      (buffer : List LogEntry) (w : pq.World)
    → IsClean e
    → (db_write pq writer e w).0 ≡ pos 0
    → 0 < limit
    → limit ≤ length buffer
    → AllSized buffer
    → let w' = (db_write pq writer e w).1 in
      ReadOutcome pq
        (ReadFails pq conn_info none w' limit 0)
        (db_read_range pq conn_info (pos limit) (pos 0) none buffer w')
        buffer
        (take limit (e ∷ map entry_of (table.rows w)))
db_read_range-db_write {pq} {table} law writer conn_info e limit buffer w clean written more room
      sized =
    let w' = (db_write pq writer e w).1 in
    let found : db_page limit 0 none (table.rows w')
        ≡ take limit (e ∷ map entry_of (table.rows w)) =
      ap (λ rs. map entry_of (take limit rs)) (filter_if-none (table.rows w'))
      ∙ map-take entry_of limit (table.rows w')
      ∙ ap (λ rs. take limit (map entry_of rs)) (rows-db_write law writer e w written)
      ∙ ap (λ f. take limit (f ∷ map entry_of (table.rows w))) (entry_of-row_of e clean) in
    subst
      (ReadOutcome pq (ReadFails pq conn_info none w' limit 0)
        (db_read_range pq conn_info (pos limit) (pos 0) none buffer w') buffer)
      found (db_read_range_lem pq table conn_info limit 0 none buffer w' more room sized)
