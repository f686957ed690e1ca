-- ===== src/Handlers/Post.antt =====
-- handle_post_log: from the bytes of a request's body to an entry in the queue.
use Prim.Native.String.{String}
use log_aggregator_c.Base.{
  ℕ, zero, suc, ◌+◌, ◌^◌, Bool, not, ◌||◌, Option, none, some, List, [], ◌∷◌, ◌++◌, ℤ, pos, negsuc,
  length, ltb, leb, ◌==◌, if◌then◌else◌, ◌>>=◌,
}
use log_aggregator_c.CString.{copy_field, upcase}
use log_aggregator_c.LogEntry.{LogEntry}
use log_aggregator_c.Queue.{Queue, Pass, sleeps, returns, queue_push}
use log_aggregator_c.Handlers.{
  Reply, empty_body, invalid_json, must_be_strings, shutting_down, accepted,
}

-- What the file uses of cJSON to read. `none` is a null pointer.
pub record Cjson : Type 1 where
  pub Value : Type 0
  pub parse : List ℕ → Option Value
  pub get_item : Value → String → Option Value  -- cJSON_GetObjectItemCaseSensitive
  pub is_string : Option Value → Bool
  pub valuestring : Option Value → List ℕ

-- How a handler's run ends: with a reply, or asleep in queue_push with the entry that it brings.
pub data Outcome : Type 0 where
  replied : ℕ → Reply → Outcome
  asleep : LogEntry → Outcome

-- The loop over mg_read. `chunks` are the bytes of its successive calls, the last one or an empty
-- one standing for a result that is not positive. A chunk past the end of `body` is a fault, and so
-- is an overflow of `int total`.
unfoldable pub read_body : (len : ℕ) → (body : List ℕ) → (chunks : List (List ℕ)) → Option (List ℕ)
read_body len body [] = some body
read_body len body (chunk ∷ chunks) =
    let rest = read_body len (body ++ chunk) chunks in
    if not (ltb (length body) len)
    then some body
    else if length chunk == 0
    then some body
    else if ltb len (length body + length chunk) || leb (2 ^ 31) (length body + length chunk)
    then none
    else rest

-- What the handler does with the way a pass of queue_push ends.
abbrev pub push_outcome : LogEntry → Pass → Outcome
push_outcome entry sleeps = asleep entry
push_outcome entry (returns (negsuc k)) = replied 503 shutting_down
push_outcome entry (returns (pos zero)) = replied 200 accepted
push_outcome entry (returns (pos (suc k))) = replied 503 shutting_down

-- queue_push and the replies behind it. A sleeper that wakes up runs this again.
unfoldable pub post_push : LogEntry → Queue → Option (Outcome × Queue)
post_push entry q = queue_push q entry >>= λ r. some (push_outcome entry r.0, r.1)

module _ (json : Cjson) where
  open json use {Value, parse, get_item, is_string, valuestring}

  -- The local `entry` after the assignments; `stack` is what its memory held.
  unfoldable pub post_entry : LogEntry → ℤ → (level message : Option Value) → LogEntry
  post_entry stack now level message = record {
    level = upcase (copy_field stack.level (valuestring level) 15);
    message = copy_field stack.message (valuestring message) 255;
    timestamp = now;
  }

  -- What follows cJSON_Parse, which returned `value`.
  unfoldable pub post_value : LogEntry → ℤ → Option Value → Queue → Option (Outcome × Queue)
  post_value stack now none q = some (replied 400 invalid_json, q)
  post_value stack now (some value) q =
      if not (is_string (get_item value "level")) || not (is_string (get_item value "message"))
      then some (replied 400 must_be_strings, q)
      else post_push (post_entry stack now (get_item value "level") (get_item value "message")) q

  -- `got_memory` is whether malloc returns memory: the code writes to it without a test.
  unfoldable pub handle_post_log :
      (content_length : ℤ)
      → (got_memory : Bool) → (chunks : List (List ℕ)) → (stack : LogEntry) → (now : ℤ) → Queue
      → Option (Outcome × Queue)
  handle_post_log (negsuc n) got_memory chunks stack now q = some (replied 400 empty_body, q)
  handle_post_log (pos zero) got_memory chunks stack now q = some (replied 400 empty_body, q)
  handle_post_log (pos (suc n)) got_memory chunks stack now q =
      if not got_memory
      then none
      else (read_body (suc n) [] chunks >>= λ body.
          post_value stack now (parse (body ++ (0 ∷ []))) q)
