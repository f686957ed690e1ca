-- ===== src/Traffic/Shown.antt =====
-- What has been accepted comes to be shown.
use log_aggregator_c.Base.{ℕ, ◌≡◌, false, ◌⊎◌, Option, List, map}
use log_aggregator_c.LogEntry.{LogEntry}
use log_aggregator_c.Db.{Libpq}
use log_aggregator_c.Db.Rows.{entry_of, Table, Reads as ReadLaws}
use log_aggregator_c.Handlers.Get.{GetVar, query_level, handle_get_logs}
use log_aggregator_c.Handlers.Page.{Request, Shows}
use log_aggregator_c.Handlers.Post.{Cjson}
use log_aggregator_c.Worker.{Worker}
use log_aggregator_c.Traffic.{Traffic}
use log_aggregator_c.Traffic.Steps.{Steps}
use log_aggregator_c.Traffic.Reads.{Front}
use log_aggregator_c.Traffic.Drain.{calls}

-- The table has the accepted entries, and a GET shows the newest of what it has.
pub record Visible {pq : Libpq} (table : Table pq) (t : Traffic pq) (all : List LogEntry)
    (get_var : GetVar) (conn_info : Option (List ℕ)) (r : Request get_var) (limit : ℕ)
    : Type 0 where
  pub rows : map entry_of (table.rows t.server.world) ≡ all
  pub shows :
      Shows pq
        (handle_get_logs get_var pq conn_info r.query r.memory t.server.cache t.server.world)
        (Front pq conn_info (query_level get_var r.query) t.server.world limit all)

-- Steps in which no request moves, and what is true behind them unless a db_write failed.
pub record Eventually (json : Cjson) (pq : Libpq) (conn_info : Option (List ℕ)) (s : Traffic pq)
    (P : Traffic pq → Type 0) : Type 0 where
  pub state : Traffic pq
  pub steps : Steps json pq conn_info s state
  pub same : calls state ≡ calls s
  pub outcome : (state.intact ≡ false) ⊎ P state
