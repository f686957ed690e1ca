-- ===== src/Server/Dispatch.antt =====
-- What a request for /logs changes, and the status that it is answered with.
use log_aggregator_c.Base.{
  ℕ, zero, suc, ◌≡◌, refl, Bool-cases, Option-cases, inl, inr, Bool, true, false, Option, none,
  some, List, [], ◌∷◌, ◌++◌, ℤ, pos, negsuc, not, ◌||◌, ◌>>=◌,
}
use log_aggregator_c.CString.{str_eq}
use log_aggregator_c.LogEntry.{LogEntry}
use log_aggregator_c.Cache.{Cache}
use log_aggregator_c.Queue.{Queue, Pass, sleeps, returns, queue_push}
use log_aggregator_c.Db.{Libpq}
use log_aggregator_c.Handlers.{
  Reply, status_of, accepted, empty_body, invalid_json, must_be_strings, shutting_down,
  out_of_memory, method_not_allowed, logs,
}
use log_aggregator_c.Handlers.Post.{
  Cjson, Outcome, replied, asleep, handle_post_log, read_body, post_value, post_push, post_entry,
  push_outcome,
}
use log_aggregator_c.Handlers.Get.{
  GetVar, handle_get_logs, fetch, items_of, query_page, query_limit, query_level,
}
use log_aggregator_c.Server.{Call, Shared, post_method, get_method, handle_logs}

-- The status that a handler returns is the one in the text that it printed.
pub data Honest : Outcome → Type 0 where
  answers : (status : ℕ) (reply : Reply) → status ≡ status_of reply → Honest (replied status reply)
  waits : {entry : LogEntry} → Honest (asleep entry)

-- A run that faults, or whose result has the property.
pub data Ends {A : Type 0} (P : A → Type 0) (o : Option A) : Type 0 where
  faults : o ≡ none → Ends P o
  ends : (a : A) → o ≡ some a → P a → Ends P o

-- A run in two parts, of which the second one ends well whatever the first one gives.
Ends-bind :
    {A B : Type 0} {P : B → Type 0} (o : Option A) (f : A → Option B)
    → ((a : A) → Ends P (f a))
    → Ends P (o >>= f)
Ends-bind none f h = faults refl
Ends-bind (some a) f h = h a

push_outcome-Honest : (entry : LogEntry) (pass : Pass) → Honest (push_outcome entry pass)
unfolding status_of
push_outcome-Honest entry sleeps = waits
push_outcome-Honest entry (returns (negsuc k)) = answers 503 shutting_down refl
push_outcome-Honest entry (returns (pos zero)) = answers 200 accepted refl
push_outcome-Honest entry (returns (pos (suc k))) = answers 503 shutting_down refl

-- The first component of a handler's result, the reply, is honest.
abbrev Fair : {A : Type 0} → Outcome × A → Type 0
Fair a = Honest a.0

post_value-Ends :
    (json : Cjson) (stack : LogEntry) (now : ℤ) (value : Option json.Value) (q : Queue)
    → Ends Fair (post_value json stack now value q)
unfolding post_value post_push status_of
post_value-Ends json stack now none q =
    ends (replied 400 invalid_json, q) refl (answers 400 invalid_json refl)
post_value-Ends json stack now (some value) q =
    let level = json.get_item value "level" in
    let message = json.get_item value "message" in
    let entry = post_entry json stack now level message in
    elim (Bool-cases (not (json.is_string level) || not (json.is_string message))) [
      | inl e ↦ rw e (ends (replied 400 must_be_strings, q) refl (answers 400 must_be_strings refl))
      | inr e ↦ rw e (
          Ends-bind (queue_push q entry) (λ r. some (push_outcome entry r.0, r.1))
            (λ r. ends (push_outcome entry r.0, r.1) refl (push_outcome-Honest entry r.0)))
    ]

handle_post_log-Ends :
    (json : Cjson) (content_length : ℤ) (got_memory : Bool) (chunks : List (List ℕ))
    (stack : LogEntry) (now : ℤ) (q : Queue)
    → Ends Fair (handle_post_log json content_length got_memory chunks stack now q)
unfolding handle_post_log status_of
handle_post_log-Ends json (negsuc n) got_memory chunks stack now q =
    ends (replied 400 empty_body, q) refl (answers 400 empty_body refl)
handle_post_log-Ends json (pos zero) got_memory chunks stack now q =
    ends (replied 400 empty_body, q) refl (answers 400 empty_body refl)
handle_post_log-Ends json (pos (suc n)) false chunks stack now q = faults refl
handle_post_log-Ends json (pos (suc n)) true chunks stack now q =
    Ends-bind (read_body (suc n) [] chunks)
      (λ body. post_value json stack now (json.parse (body ++ (0 ∷ []))) q)
      (λ body. post_value-Ends json stack now (json.parse (body ++ (0 ∷ []))) q)

handle_get_logs-Ends :
    (get_var : GetVar) (pq : Libpq) (conn_info query : Option (List ℕ))
    (memory : ℤ → Option (List LogEntry)) (cache : Cache) (w : pq.World)
    → Ends
        (λ a. a.0.0 ≡ status_of a.0.1)
        (handle_get_logs get_var pq conn_info query memory cache w)
unfolding handle_get_logs status_of
handle_get_logs-Ends get_var pq conn_info query memory cache w =
    let limit = query_limit get_var query in
    let page = query_page get_var query in
    let level = query_level get_var query in
    elim (Option-cases (memory limit)) [
      | inl e ↦ rw (handle_get_logs, e) (ends ((500, out_of_memory), w) refl refl)
      | inr (buffer, e) ↦
          rw (handle_get_logs, e)
            (Ends-bind (fetch pq conn_info cache page limit level buffer w)
              (λ r. items_of r.0 r.1 >>= λ items. some ((200, logs items), r.2))
              (λ r.
                Ends-bind (items_of r.0 r.1) (λ items. some ((200, logs items), r.2))
                  (λ items. ends ((200, logs items), r.2) refl refl)))
    ]

-- The result of a handler, put into the shared state.
Ends-then :
    {A B : Type 0} {P : A → Type 0} {Q : B → Type 0} {o : Option A} (f : A → B)
    → ((a : A) → P a → Q (f a))
    → Ends P o
    → Ends Q (o >>= λ a. some (f a))
Ends-then f h (faults e) = faults (rw e refl)
Ends-then f h (ends a e p) = ends (f a) (rw e refl) (h a p)

-- Whatever its method, a request for /logs that does not fault leaves the cache as it is, and it is
-- answered with the status that its text names, or waits in queue_push.
pub handle_logs_lem :
    (json : Cjson) (get_var : GetVar) (pq : Libpq) (conn_info : Option (List ℕ)) (r : Call)
    (s : Shared pq)
    → Ends (λ a. Honest a.0 × (a.1.cache ≡ s.cache)) (handle_logs json get_var pq conn_info r s)
unfolding handle_logs status_of
handle_logs_lem json get_var pq conn_info r s = elim (Bool-cases (str_eq r.method post_method)) [
  | inl p ↦ rw p (
      Ends-then (λ a. (a.0, record s { queue = a.1 })) (λ a h. (h, refl))
        (handle_post_log-Ends json r.content_length r.got_memory r.chunks r.stack r.now s.queue))
  | inr p ↦ elim (Bool-cases (str_eq r.method get_method)) [
    | inl g ↦
        rw (p, g)
          (Ends-then (λ a. (replied a.0.0 a.0.1, record s { world = a.1 }))
            (λ a h. (answers a.0.0 a.0.1 h, refl))
            (handle_get_logs-Ends get_var pq conn_info r.query r.memory s.cache s.world))
    | inr g ↦
        rw (p, g)
          (ends (replied 405 method_not_allowed, s) refl
            (answers 405 method_not_allowed refl, refl))
  ]
]
