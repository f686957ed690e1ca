-- ===== src/Server.antt =====
-- src/server/http_server.c: the dispatch of the requests for /logs to the handlers, over the state
-- that all of them share. Server/Lifecycle is about starting and stopping.
pub mod Dispatch
pub mod Lifecycle
pub mod Main
mod Tests
use log_aggregator_c.Base.{ℕ, Option, some, List, [], ◌∷◌, ℤ, Bool, ◌>>=◌, if◌then◌else◌}
use log_aggregator_c.CString.{str_eq}
use log_aggregator_c.LogEntry.{LogEntry}
use log_aggregator_c.Cache.{Cache}
use log_aggregator_c.Queue.{Queue}
use log_aggregator_c.Db.{Libpq}
use log_aggregator_c.Handlers.{method_not_allowed}
use log_aggregator_c.Handlers.Post.{Cjson, Outcome, replied, handle_post_log}
use log_aggregator_c.Handlers.Get.{GetVar, handle_get_logs}

-- What a request brings along: what CivetWeb tells of it, and what malloc, the stack and the clock
-- give to its handler.
pub record Call : Type 0 where
  pub method : List ℕ
  pub content_length : ℤ
  pub got_memory : Bool
  pub chunks : List (List ℕ)
  pub stack : LogEntry
  pub now : ℤ
  pub query : Option (List ℕ)
  pub memory : ℤ → Option (List LogEntry)

pub record Shared (pq : Libpq) : Type 0 where
  pub queue : Queue
  pub cache : Cache
  pub world : pq.World

abbrev pub post_method : List ℕ
post_method = b'P' ∷ b'O' ∷ b'S' ∷ b'T' ∷ 0 ∷ []

abbrev pub get_method : List ℕ
get_method = b'G' ∷ b'E' ∷ b'T' ∷ 0 ∷ []

unfoldable pub handle_logs :
    (json : Cjson) (get_var : GetVar) (pq : Libpq) (conn_info : Option (List ℕ))
    → Call
    → Shared pq
    → Option (Outcome × Shared pq)
handle_logs json get_var pq conn_info r s =
    if str_eq r.method post_method
    then (handle_post_log json r.content_length r.got_memory r.chunks r.stack r.now s.queue >>= λ a.
        some (a.0, record s { queue = a.1 }))
    else if str_eq r.method get_method
    then (handle_get_logs get_var pq conn_info r.query r.memory s.cache s.world >>= λ a.
        some (replied a.0.0 a.0.1, record s { world = a.1 }))
    else some (replied 405 method_not_allowed, s)
