-- ===== src/Handlers/Accept.antt =====
-- What a POST request does to the queue, and how its body is read.
use log_aggregator_c.Base.{
  ℕ, zero, suc, ◌+◌, ◌≤◌, ◌<◌, ◌≡◌, ◌≢◌, refl, ap, sym, ◌∙◌, true, false, Bool-cases, inl, inr,
  Option, none, some, List, [], ◌∷◌, ◌++◌, map, arith, length, length-append, append_assoc,
  append-nil, take, ℤ, pos_part, pos, negsuc, ltb, leb, ◌==◌, ◌&&◌, ◌^◌, if◌then◌else◌,
}
use log_aggregator_c.CString.{c_str, toupper, upcase, copy_field}
use log_aggregator_c.CString.Copy.{copy_field-eq-field, c_str-field}
use log_aggregator_c.LogEntry.{LogEntry}
use log_aggregator_c.Config.{queue_capacity}
use log_aggregator_c.Db.Fill.{IsSized}
use log_aggregator_c.Queue.{Queue, Pass}
use log_aggregator_c.Queue.Fifo.{offer, full, closed, taken, offer-cases}
use log_aggregator_c.Queue.Ring.{IsValid, contents}
use log_aggregator_c.Queue.Refine.{view, queue_push_refines}
use log_aggregator_c.Handlers.{
  Reply, accepted, empty_body, invalid_json, must_be_strings, shutting_down,
}
use log_aggregator_c.Handlers.Post.{
  Cjson, Outcome, replied, asleep, read_body, push_outcome, post_push, post_entry, post_value,
  handle_post_log,
}

toupper-ne_zero : (c : ℕ) → (c == 0) ≡ false → (toupper c == 0) ≡ false
unfolding toupper
toupper-ne_zero c h = ground arith

pub c_str-upcase : (s : List ℕ) → c_str (upcase s) ≡ map toupper (c_str s)
unfolding c_str upcase
c_str-upcase [] = refl
c_str-upcase (c ∷ cs) = elim (Bool-cases (c == 0)) [
  | inl e ↦ rw e (rw e refl)
  | inr e ↦ rw e (rw (toupper-ne_zero c e) (ap (λ l. toupper c ∷ l) (c_str-upcase cs)))
]

-- The queued entry's level is the first 15 bytes of the request's, in upper case, and its message
-- the first 255 bytes of the request's, whatever the memory of the local variable held.
pub post_entry_lem :
    (json : Cjson) (stack : LogEntry) (now : ℤ) (level message : Option json.Value)
    → IsSized stack
    → let entry = post_entry json stack now level message in
      (c_str entry.level ≡ map toupper (take 15 (c_str (json.valuestring level))))
      × (c_str entry.message ≡ take 255 (c_str (json.valuestring message)))
      × (entry.timestamp ≡ now)
unfolding post_entry
post_entry_lem json stack now level message s = (
  c_str-upcase (copy_field stack.level (json.valuestring level) 15)
      ∙ ap (map toupper) (
          ap c_str (copy_field-eq-field stack.level (json.valuestring level) 15 s.level_size)
          ∙ c_str-field 15 (json.valuestring level)),
  ap c_str (copy_field-eq-field stack.message (json.valuestring message) 255 s.message_size)
      ∙ c_str-field 255 (json.valuestring message),
  refl,
)

-- The entry that a POST asks to store: what cJSON_Parse makes of its body has the two strings.
abbrev pub wanted_value : (json : Cjson) → LogEntry → ℤ → Option json.Value → Option LogEntry
wanted_value json stack now none = none
wanted_value json stack now (some value) =
    let level = json.get_item value "level" in
    let message = json.get_item value "message" in
    if json.is_string level && json.is_string message
    then some (post_entry json stack now level message)
    else none

abbrev pub wanted : Cjson → LogEntry → ℤ → (content_length : ℤ) → List ℕ → Option LogEntry
wanted json stack now (negsuc n) body = none
wanted json stack now (pos zero) body = none
wanted json stack now (pos (suc n)) body =
    wanted_value json stack now (json.parse (body ++ (0 ∷ [])))

-- What a POST does. Its four cases exclude each other.
pub data Effect (entry? : Option LogEntry) (q : Queue) (outcome : Outcome) (q' : Queue)
    : Type 0 where
  refused :
      (reply : Reply)
      → entry? ≡ none
      → outcome ≡ replied 400 reply
      → view q' ≡ view q
      → Effect entry? q outcome q'
  too_late :
      {entry : LogEntry}
      → entry? ≡ some entry
      → q.running ≡ false
      → outcome ≡ replied 503 shutting_down
      → view q' ≡ view q
      → Effect entry? q outcome q'
  waits :
      {entry : LogEntry}
      → entry? ≡ some entry
      → q.running ≡ true
      → length (contents q) ≡ queue_capacity
      → outcome ≡ asleep entry
      → view q' ≡ view q
      → Effect entry? q outcome q'
  queued :
      {entry : LogEntry}
      → entry? ≡ some entry
      → q.running ≡ true
      → length (contents q) ≢ queue_capacity
      → outcome ≡ replied 200 accepted
      → view q' ≡ record { items = contents q ++ (entry ∷ []); running = true }
      → Effect entry? q outcome q'

-- The result of a handler, together with what it did.
pub record Done (entry? : Option LogEntry) (q : Queue) (o : Option (Outcome × Queue)) : Type 0 where
  pub outcome : Outcome
  pub queue : Queue
  pub result : o ≡ some (outcome, queue)
  pub valid : IsValid queue
  pub effect : Effect entry? q outcome queue

module _ {q : Queue} (v : IsValid q) where
  refuses : (reply : Reply) → Done none q (some (replied 400 reply, q))
  refuses reply = record {
    outcome = replied 400 reply;
    queue = q;
    result = refl;
    valid = v;
    effect = refused reply refl refl refl;
  }

  -- A pass of queue_push that did what the specification says.
  pushed-Effect :
      (entry : LogEntry) (pass : Pass) (q' : Queue)
      → (pass, view q') ≡ offer (view q) entry
      → Effect (some entry) q (push_outcome entry pass) q'
  pushed-Effect entry pass q' agrees = elim (offer-cases (view q) entry) [
    | full on no_room o ↦
        let e = agrees ∙ o in
        waits refl on no_room (ap (λ p. push_outcome entry p.0) e) (ap (λ p. p.1) e)
    | closed off o ↦
        let e = agrees ∙ o in
        too_late refl off (ap (λ p. push_outcome entry p.0) e) (ap (λ p. p.1) e)
    | taken on room o ↦
        let e = agrees ∙ o in
        queued refl on room (ap (λ p. push_outcome entry p.0) e) (
          ap (λ p. p.1) e ∙ ap (λ r. record { items = contents q ++ (entry ∷ []); running = r }) on)
  ]

  pub post_push-Done : (entry : LogEntry) → Done (some entry) q (post_push entry q)
  unfolding post_push
  post_push-Done entry =
      let p = queue_push_refines entry v in
      rw p.result (record {
        outcome = push_outcome entry p.pass;
        queue = p.queue;
        result = refl;
        valid = p.valid;
        effect = pushed-Effect entry p.pass p.queue p.agrees;
      })

  post_value-Done :
      (json : Cjson) (stack : LogEntry) (now : ℤ) (value : Option json.Value)
      → Done (wanted_value json stack now value) q (post_value json stack now value q)
  unfolding post_value
  post_value-Done json stack now none = refuses invalid_json
  post_value-Done json stack now (some value) =
      let level = json.get_item value "level" in
      let message = json.get_item value "message" in
      elim (Bool-cases (json.is_string level)) [
        | inr n ↦ rw n (refuses must_be_strings)
        | inl ls ↦ elim (Bool-cases (json.is_string message)) [
          | inr n ↦ rw (ls, n) (refuses must_be_strings)
          | inl ms ↦ rw (ls, ms) (post_push-Done (post_entry json stack now level message))
        ]
      ]

-- The chunks that mg_read may return: none empty, and together no longer than asked for.
abbrev pub AllNonEmpty : List (List ℕ) → Type 0
AllNonEmpty [] = Unit
AllNonEmpty (chunk ∷ chunks) = (0 < length chunk) × AllNonEmpty chunks

abbrev pub joined : List (List ℕ) → List ℕ
joined [] = []
joined (chunk ∷ chunks) = chunk ++ joined chunks

-- The loop over mg_read stays inside the body's memory and gathers all chunks in order, when none
-- of them is empty and they are together at most `len` bytes.
pub read_body_lem :
    (len : ℕ) (body : List ℕ) (chunks : List (List ℕ))
    → AllNonEmpty chunks
    → length body + length (joined chunks) ≤ len
    → length body + length (joined chunks) < 2 ^ 31
    → read_body len body chunks ≡ some (body ++ joined chunks)
unfolding read_body
read_body_lem len body [] n h b = ap some (sym (append-nil body))
read_body_lem len body (chunk ∷ chunks) n h b =
    let l : length (joined (chunk ∷ chunks)) ≡ length chunk + length (joined chunks) =
      length-append chunk (joined chunks) in
    let t : ltb (length body) len ≡ true = ground (arith, l, n) in
    let z : (length chunk == 0) ≡ false = ground (arith, n) in
    let f : ltb len (length body + length chunk) ≡ false = ground (arith, l, n) in
    let g : leb (2 ^ 31) (length body + length chunk) ≡ false = ground (arith, l, b) in
    rw t (
      rw z (
        rw (f, g)
          (read_body_lem len (body ++ chunk) chunks n.1 (omega (arith, l, length-append body chunk))
              (omega (arith, l, b, length-append body chunk))
            ∙ ap some (append_assoc body chunk (joined chunks)))))

-- A POST with memory for its body, which is no longer than announced and than an int counts, never
-- faults, keeps the queue well formed, and in each of four cases does exactly this: without the two
-- strings it is refused with 400, after a shutdown with 503, both with the queue as before; at a
-- full queue it goes to sleep; else it is answered with 200 and its entry, and nothing else, is put
-- behind the entries of the queue.
pub handle_post_log_lem :
    (json : Cjson) (content_length : ℤ) (chunks : List (List ℕ)) (stack : LogEntry) (now : ℤ)
    {q : Queue}
    → IsValid q
    → AllNonEmpty chunks
    → length (joined chunks) ≤ pos_part content_length
    → length (joined chunks) < 2 ^ 31
    → Done
        (wanted json stack now content_length (joined chunks))
        q
        (handle_post_log json content_length true chunks stack now q)
unfolding handle_post_log
handle_post_log_lem json (negsuc n) chunks stack now v ne h b = refuses v empty_body
handle_post_log_lem json (pos zero) chunks stack now v ne h b = refuses v empty_body
handle_post_log_lem json (pos (suc n)) chunks stack now v ne h b =
    rw (read_body_lem (suc n) [] chunks ne (omega (arith, h)) (omega (arith, b)))
      (post_value-Done v json stack now (json.parse (joined chunks ++ (0 ∷ []))))
