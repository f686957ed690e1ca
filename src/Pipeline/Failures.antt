-- ===== src/Pipeline/Failures.antt =====
-- What the server shows after the database was out of reach for the worker.
use mathlib.Core.Path.{subst}
use log_aggregator_c.Base.{
  ℕ, ◌+◌, ◌≤◌, ◌≡◌, ap, sym, ◌∙◌, true, Option, List, [], ◌++◌, append-nil, arith, length,
  length-append, length-reverse, map, reverse, take, drop, take_all, filter_if, pos,
}
use log_aggregator_c.LogEntry.{LogEntry}
use log_aggregator_c.Cache.{matches}
use log_aggregator_c.Cache.Ring.{recent, length-newest, IsValid}
use log_aggregator_c.Queue.Ring.{IsValid as QueueIsValid, contents}
use log_aggregator_c.Db.{Libpq}
use log_aggregator_c.Db.Read.{ReadFails}
use log_aggregator_c.Db.Rows.{entry_of, Table}
use log_aggregator_c.Handlers.Get.{GetVar, query_page, query_limit, query_level, handle_get_logs}
use log_aggregator_c.Handlers.Page.{Request, Shows}
use log_aggregator_c.Handlers.FirstPage.{AllShort}
use log_aggregator_c.Handlers.Ahead.{Ahead, ahead_lem}
use log_aggregator_c.Worker.{Worker, worker_loop}
use log_aggregator_c.Worker.Order.{write_all, worker_loop_lem, Holds-same}
use log_aggregator_c.Worker.Coherent.{IsCoherent}
use log_aggregator_c.Pipeline.{ServedAfter}

-- Let the cache hold the newest entries of the table, whose levels fit their arrays, and let a
-- running worker handle all entries of a valid queue, for which the cache has room, while none of
-- its db_writes stores a row. It goes on as if they had; and a later GET of page 0 shows these
-- entries from the cache, but where the cache does not fill the page, it leaves out as many of the
-- table's newest matching rows that are not in the cache as matching entries were not stored; or,
-- where the database fails on being asked for rows, it shows what the cache has but its last entry.
pub failed_writes_hide :
    {pq : Libpq} (table : Table pq) (get_var : GetVar) (conn_info : Option (List ℕ))
    (r : Request get_var) (limit : ℕ) (s : Worker pq) {cells : List LogEntry}
    → QueueIsValid s.queue
    → IsCoherent table s cells
    → AllShort (table.rows s.world)
    → s.running ≡ true
    → length (contents s.queue) + s.cache.count ≤ s.cache.capacity
    → table.rows (write_all pq s.writer (contents s.queue) s.world) ≡ table.rows s.world
    → query_page get_var r.query ≡ pos 0
    → query_limit get_var r.query ≡ pos limit
    → let matching = filter_if (matches (query_level get_var r.query)) in
      let entries = map entry_of (table.rows s.world) in
      ServedAfter
        (worker_loop pq (length (contents s.queue)) s)
        (λ t. handle_get_logs get_var pq conn_info r.query r.memory t.cache t.world)
        (λ w.
          Ahead
            (ReadFails pq conn_info (query_level get_var r.query) w)
            limit
            (matching (reverse (contents s.queue)))
            (matching (take s.cache.count entries))
            (matching (drop s.cache.count entries)))
failed_writes_hide {pq} table get_var conn_info r limit s {cells} v c short on room lost page
      asked =
    let es = contents s.queue in
    let w = worker_loop_lem pq s es [] v c.cache_valid on (sym (append-nil es)) in
    let k = w.cached in
    let rows : table.rows w.state.world ≡ table.rows s.world = ap table.rows w.written ∙ lost in
    let valid : IsValid w.state.cache k.cells =
      subst (λ d. IsValid d k.cells) (Holds-same k) k.valid in
    let held : recent w.state.cache k.cells ≡ reverse es ++ recent s.cache cells =
      subst (λ d. recent d k.cells ≡ reverse es ++ recent s.cache cells) (Holds-same k)
        (k.entries
          ∙ take_all s.cache.capacity (reverse es ++ recent s.cache cells) (
              omega (
                arith,
                room,
                length-append (reverse es) (recent s.cache cells),
                length-reverse es,
                length-newest cells s.cache.capacity s.cache.tail 0 s.cache.count,
              ))) in
    let g =
      ahead_lem get_var pq table conn_info r limit s.cache.count (reverse es) w.state.world valid
        page asked
        (held
          ∙ ap (λ l. reverse es ++ l) c.agrees
          ∙ ap (λ l. reverse es ++ take s.cache.count (map entry_of l)) (sym rows))
        (subst AllShort (sym rows) short) in
    let matching = filter_if (matches (query_level get_var r.query)) in
    record {
      state = w.state;
      result = w.result;
      shows =
          subst
            (λ l.
              Shows pq
                (handle_get_logs get_var pq conn_info r.query r.memory w.state.cache w.state.world)
                (Ahead (ReadFails pq conn_info (query_level get_var r.query) w.state.world) limit
                  (matching (reverse es)) (matching (take s.cache.count (map entry_of l)))
                  (matching (drop s.cache.count (map entry_of l)))))
            rows g;
    }
