-- ===== src/Pipeline.antt =====
-- The way of an entry from a POST through the queue and the worker to the page that a GET shows:
-- handlers.c, log_queue.c, log_worker.c, cache.c and db_postgres.c together.
pub mod Failures
mod Tests
use log_aggregator_c.Base.{
  ℕ, ◌+◌, ◌≤◌, ◌<◌, ◌^◌, ◌≡◌, refl, ap, sym, ◌∙◌, true, ◌⊎◌, inl, inr, Option, none, some, List, [],
  ◌∷◌, ◌++◌, Bool-cases, ℤ, pos, negsuc, pos_part, zero, suc, length, take, ◌&&◌,
}
use mathlib.Core.Path.{subst}
use log_aggregator_c.CString.{copy_field, upcase, FitsLong}
use log_aggregator_c.CString.Copy.{copy_field-eq-field, field-IsField, upcase-IsField, IsField}
use log_aggregator_c.LogEntry.{LogEntry}
use log_aggregator_c.Queue.{Queue}
use log_aggregator_c.Queue.Ring.{IsValid as QueueIsValid, contents}
use log_aggregator_c.Db.{Libpq}
use log_aggregator_c.Db.Fill.{IsSized}
use log_aggregator_c.Handlers.Post.{Cjson, Outcome, post_entry, handle_post_log}
use log_aggregator_c.Handlers.Accept.{
  Effect, refused, too_late, waits, queued, wanted, wanted_value, AllNonEmpty, joined,
  handle_post_log_lem,
}
use log_aggregator_c.Handlers.Page.{Shows}
use log_aggregator_c.Handlers.FirstPage.{FirstPage}
use log_aggregator_c.Worker.{Worker, Turn, goes_on}
use log_aggregator_c.Handlers.{Reply}
use log_aggregator_c.Worker.Coherent.{IsClean, AllClean}

pub post_entry-IsClean :
    (json : Cjson) (stack : LogEntry) (now : ℤ) (level message : Option json.Value)
    → IsSized stack
    → FitsLong now
    → IsClean (post_entry json stack now level message)
unfolding post_entry
post_entry-IsClean json stack now level message s f = record {
  clean_time = f;
  clean_level =
      subst (λ l. IsField 15 (upcase l))
        (sym (copy_field-eq-field stack.level (json.valuestring level) 15 s.level_size))
        (upcase-IsField 15 (json.valuestring level));
  clean_message =
      subst (IsField 255)
        (sym (copy_field-eq-field stack.message (json.valuestring message) 255 s.message_size))
        (field-IsField 255 (json.valuestring message));
}

-- Whether there is an entry or not, it is clean.
abbrev CleanIfAny : Option LogEntry → Type 0
CleanIfAny none = Unit
CleanIfAny (some e) = IsClean e

wanted_value-IsClean :
    (json : Cjson) (stack : LogEntry) (now : ℤ) (value : Option json.Value)
    → IsSized stack
    → FitsLong now
    → CleanIfAny (wanted_value json stack now value)
wanted_value-IsClean json stack now none s f = tt
wanted_value-IsClean json stack now (some value) s f =
    let level = json.get_item value "level" in
    let message = json.get_item value "message" in
    elim (Bool-cases (json.is_string level && json.is_string message)) [
      | inl e ↦ rw e (post_entry-IsClean json stack now level message s f)
      | inr e ↦ rw e tt
    ]

wanted-IsClean :
    (json : Cjson) (stack : LogEntry) (now : ℤ) (content_length : ℤ) (body : List ℕ)
    → IsSized stack
    → FitsLong now
    → CleanIfAny (wanted json stack now content_length body)
wanted-IsClean json stack now (negsuc n) body s f = tt
wanted-IsClean json stack now (pos zero) body s f = tt
wanted-IsClean json stack now (pos (suc n)) body s f =
    wanted_value-IsClean json stack now (json.parse (body ++ (0 ∷ []))) s f

pub AllClean-append : (es fs : List LogEntry) → AllClean es → AllClean fs → AllClean (es ++ fs)
AllClean-append [] fs c d = d
AllClean-append (e ∷ es) fs c d = (c.0, AllClean-append es fs c.1 d)

Effect-AllClean :
    {entry? : Option LogEntry} {q : Queue} {outcome : Outcome} {q' : Queue}
    → Effect entry? q outcome q'
    → CleanIfAny entry?
    → AllClean (contents q)
    → AllClean (contents q')
Effect-AllClean (refused reply n o same) e c = subst AllClean (sym (ap (λ v. v.items) same)) c
Effect-AllClean (too_late s off o same) e c = subst AllClean (sym (ap (λ v. v.items) same)) c
Effect-AllClean (waits s on full o same) e c = subst AllClean (sym (ap (λ v. v.items) same)) c
Effect-AllClean {q = q} (queued {entry = entry} s on room o grown) e c =
    subst AllClean (sym (ap (λ v. v.items) grown))
      (AllClean-append (contents q) (entry ∷ []) c (subst CleanIfAny s e, tt))

-- A handler's end, with the queue fit for the worker.
pub record LeavesClean (o : Option (Outcome × Queue)) : Type 0 where
  pub outcome : Outcome
  pub queue : Queue
  pub result : o ≡ some (outcome, queue)
  pub valid : QueueIsValid queue
  pub clean : AllClean (contents queue)

-- If all entries of the queue have arrays as strncpy leaves them, filled up with 0 behind the
-- string, and times that are a `long`, they have after a POST at such a time with memory for its
-- body, which is no longer than announced and than an int counts: nothing that the handler's stack
-- held before gets into the queue.
pub handle_post_log-AllClean :
    (json : Cjson) (content_length : ℤ) (chunks : List (List ℕ)) (stack : LogEntry) (now : ℤ)
    {q : Queue}
    → QueueIsValid q
    → AllClean (contents q)
    → IsSized stack
    → FitsLong now
    → AllNonEmpty chunks
    → length (joined chunks) ≤ pos_part content_length
    → length (joined chunks) < 2 ^ 31
    → LeavesClean (handle_post_log json content_length true chunks stack now q)
handle_post_log-AllClean json content_length chunks stack now v c s f ne h b =
    let d = handle_post_log_lem json content_length chunks stack now v ne h b in
    record {
      outcome = d.outcome;
      queue = d.queue;
      result = d.result;
      valid = d.valid;
      clean =
          Effect-AllClean d.effect
            (wanted-IsClean json stack now content_length (joined chunks) s f) c;
    }

-- A GET after the worker's turns.
pub record ServedAfter {pq : Libpq} (turns : Option (Turn × Worker pq))
    (get : Worker pq → Option ((ℕ × Reply) × pq.World)) (P : pq.World → List LogEntry → Type 0)
    : Type 0 where
  pub state : Worker pq
  pub result : turns ≡ some (goes_on, state)
  pub shows : Shows pq (get state) (P state.world)
