-- ===== src/Traffic/Steps.antt =====
-- Sequences of steps of the running server.
use log_aggregator_c.Base.{ℕ, Option, List}
use log_aggregator_c.LogEntry.{LogEntry}
use log_aggregator_c.Db.{Libpq}
use log_aggregator_c.Db.Rows.{Table, Inserts, Reads as ReadLaws}
use log_aggregator_c.Handlers.Post.{Cjson}
use log_aggregator_c.Traffic.{Traffic, Step}
use log_aggregator_c.Traffic.Invariant.{Inv, Step-Inv}

pub data Steps (json : Cjson) (pq : Libpq) (conn_info : Option (List ℕ)) (s : Traffic pq)
    : Traffic pq → Type 0 where
  stay : Steps json pq conn_info s s
  go :
      {t u : Traffic pq}
      → Steps json pq conn_info s t
      → Step json pq conn_info t u
      → Steps json pq conn_info s u

pub Steps-Steps :
    {json : Cjson} {pq : Libpq} {conn_info : Option (List ℕ)} {s t u : Traffic pq}
    → Steps json pq conn_info s t
    → Steps json pq conn_info t u
    → Steps json pq conn_info s u
Steps-Steps a stay = a
Steps-Steps a (go b step) = go (Steps-Steps a b) step

module _ {pq : Libpq} {table : Table pq} (ins : Inserts table) (reads : ReadLaws table)
    (json : Cjson) (conn_info : Option (List ℕ)) (size : ℕ) (base : List LogEntry) where
  pub Steps-Inv :
      {s t : Traffic pq}
      → Steps json pq conn_info s t
      → Inv table size base s
      → Inv table size base t
  Steps-Inv stay inv = inv
  Steps-Inv (go steps step) inv =
      Step-Inv ins reads json conn_info size base step (Steps-Inv steps inv)
