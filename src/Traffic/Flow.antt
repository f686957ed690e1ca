-- ===== src/Traffic/Flow.antt =====
-- The entries on their way from the POSTs through the queue into the worker's hands.
use mathlib.Core.Path.{subst}
use log_aggregator_c.Base.{
  ℕ, ◌≡◌, ap, sym, ◌∙◌, Bool-cases, inl, inr, Option, some, List, [], ◌∷◌, ◌++◌, append-nil,
  append_assoc, ◌==◌,
}
use log_aggregator_c.LogEntry.{LogEntry}
use log_aggregator_c.Queue.{Queue, Pass, queue_pop, queue_shutdown}
use log_aggregator_c.Queue.Ring.{IsValid, contents}
use log_aggregator_c.Queue.Refine.{queue_shutdown-IsValid, view-queue_shutdown}
use log_aggregator_c.Handlers.{Reply}
use log_aggregator_c.Handlers.Post.{replied, asleep, post_push}
use log_aggregator_c.Worker.Coherent.{IsClean, AllClean}
use log_aggregator_c.Pipeline.{AllClean-append}
use log_aggregator_c.Traffic.{kept}
use log_aggregator_c.Traffic.Passes.{given, post_push-Passed, queue_pop-Passed}

-- `hand` is what the worker has taken out of the queue and not yet put into the cache.
pub record Flow (queue : Queue) (hand waiting accepted inserted : List LogEntry) : Type 0 where
  pub valid : IsValid queue
  pub conserved : accepted ≡ inserted ++ (hand ++ contents queue)
  pub clean_queue : AllClean (contents queue)
  pub clean_hand : AllClean hand
  pub clean_waiting : AllClean waiting

AllClean-middle :
    (xs ys : List LogEntry) (e : LogEntry)
    → AllClean (xs ++ (e ∷ ys))
    → (IsClean e) × (AllClean (xs ++ ys))
AllClean-middle [] ys e c = (c.0, c.1)
AllClean-middle (x ∷ xs) ys e c = let r = AllClean-middle xs ys e c.1 in (r.0, (c.0, r.1))

kept-AllClean : (code : ℕ) (e : LogEntry) → IsClean e → AllClean (kept code e)
kept-AllClean code e c = elim (Bool-cases (code == 200)) [
  | inl ok ↦ rw ok (c, tt)
  | inr bad ↦ rw bad tt
]

AllClean-split : (xs ys : List LogEntry) → AllClean (xs ++ ys) → (AllClean xs) × (AllClean ys)
AllClean-split [] ys c = (tt, c)
AllClean-split (x ∷ xs) ys c = let r = AllClean-split xs ys c.1 in ((c.0, r.0), r.1)

module _ {queue : Queue} {hand waiting accepted inserted : List LogEntry}
    (flow : Flow queue hand waiting accepted inserted) where
  pub call-Flow : (e : LogEntry) → IsClean e → Flow queue hand (e ∷ waiting) accepted inserted
  call-Flow e c = record {
    valid = flow.valid;
    conserved = flow.conserved;
    clean_queue = flow.clean_queue;
    clean_hand = flow.clean_hand;
    clean_waiting = (c, flow.clean_waiting);
  }

  pub asleep-Flow :
      (e f : LogEntry) {q : Queue}
      → post_push e queue ≡ some (asleep f, q)
      → Flow q hand waiting accepted inserted
  asleep-Flow e f {q} p =
      let d = post_push-Passed e (asleep f) flow.valid p in
      let same : contents q ≡ contents queue = d.left ∙ append-nil (contents queue) in
      record {
        valid = d.valid;
        conserved = flow.conserved ∙ ap (λ c. inserted ++ (hand ++ c)) (sym same);
        clean_queue = subst AllClean (sym same) flow.clean_queue;
        clean_hand = flow.clean_hand;
        clean_waiting = flow.clean_waiting;
      }

  pub ends-Flow :
      (xs ys : List LogEntry) (e : LogEntry) (code : ℕ) (reply : Reply) {q : Queue}
      → waiting ≡ xs ++ (e ∷ ys)
      → post_push e queue ≡ some (replied code reply, q)
      → Flow q hand (xs ++ ys) (accepted ++ kept code e) inserted
  ends-Flow xs ys e code reply {q} w p =
      let d = post_push-Passed e (replied code reply) flow.valid p in
      let c = AllClean-middle xs ys e (subst AllClean w flow.clean_waiting) in
      record {
        valid = d.valid;
        conserved =
            ap (λ l. l ++ kept code e) flow.conserved
            ∙ append_assoc inserted (hand ++ contents queue) (kept code e)
            ∙ ap (λ l. inserted ++ l)
                (append_assoc hand (contents queue) (kept code e)
                  ∙ ap (λ l. hand ++ l) (sym d.left));
        clean_queue = subst AllClean (sym d.left) (
            AllClean-append (contents queue) (kept code e) flow.clean_queue
              (kept-AllClean code e c.0));
        clean_hand = flow.clean_hand;
        clean_waiting = c.1;
      }

  pub shutdown-Flow : Flow (queue_shutdown queue) hand waiting accepted inserted
  shutdown-Flow =
      let same : contents (queue_shutdown queue) ≡ contents queue =
        ap (λ v. v.items) (view-queue_shutdown queue) in
      record {
        valid = queue_shutdown-IsValid flow.valid;
        conserved = flow.conserved ∙ ap (λ c. inserted ++ (hand ++ c)) (sym same);
        clean_queue = subst AllClean (sym same) flow.clean_queue;
        clean_hand = flow.clean_hand;
        clean_waiting = flow.clean_waiting;
      }

-- A pass of queue_pop takes what it gives out into the empty hand.
pub pop-Flow :
    {queue q : Queue} {waiting accepted inserted : List LogEntry} (pass : Pass)
    (out : Option LogEntry)
    → Flow queue [] waiting accepted inserted
    → queue_pop queue ≡ some (pass, out, q)
    → Flow q (given out) waiting accepted inserted
pop-Flow {queue} {q} {inserted = inserted} pass out flow p =
    let d = queue_pop-Passed pass out flow.valid p in
    let c = AllClean-split (given out) (contents q) (subst AllClean d.1 flow.clean_queue) in
    record {
      valid = d.0;
      conserved = flow.conserved ∙ ap (λ l. inserted ++ l) d.1;
      clean_queue = c.1;
      clean_hand = c.0;
      clean_waiting = flow.clean_waiting;
    }

-- The worker puts the entry in its hand into the cache.
pub insert-Flow :
    {queue : Queue} {hand waiting accepted inserted : List LogEntry}
    → Flow queue hand waiting accepted inserted
    → Flow queue [] waiting accepted (inserted ++ hand)
insert-Flow {queue} {hand} {inserted = inserted} flow = record {
  valid = flow.valid;
  conserved = flow.conserved ∙ sym (append_assoc inserted hand (contents queue));
  clean_queue = flow.clean_queue;
  clean_hand = tt;
  clean_waiting = flow.clean_waiting;
}
