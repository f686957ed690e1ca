-- ===== src/Handlers.antt =====
-- src/server/handlers.c: the request handlers. CivetWeb and cJSON are parameters. A handler returns
-- the status code and the reply that it prints; freeing memory and JSON trees is left out.
pub mod Post
pub mod Get
pub mod Accept
pub mod Fetch
pub mod Page
pub mod FirstPage
pub mod Ahead
pub mod Late
mod Tests
use log_aggregator_c.Base.{ℕ, ◌≡◌, refl, List, ℤ}

-- An object of the array "logs": the strings are those that the entry's arrays hold.
pub record Item : Type 0 where
  pub timestamp : ℤ
  pub level : List ℕ
  pub message : List ℕ

-- What the handlers print, a constructor for each text.
pub data Reply : Type 0 where
  healthy : Reply
  empty_body : Reply
  invalid_json : Reply
  must_be_strings : Reply
  shutting_down : Reply
  accepted : Reply
  out_of_memory : Reply
  method_not_allowed : Reply
  logs : List Item → Reply

-- The code in the status line of the text.
unfoldable pub status_of : Reply → ℕ
status_of healthy = 200
status_of empty_body = 400
status_of invalid_json = 400
status_of must_be_strings = 400
status_of shutting_down = 503
status_of accepted = 200
status_of out_of_memory = 500
status_of method_not_allowed = 405
status_of (logs items) = 200

unfoldable pub handle_health : ℕ × Reply
handle_health = (200, healthy)
