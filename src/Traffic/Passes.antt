-- ===== src/Traffic/Passes.antt =====
-- What a pass of queue_push or queue_pop does to the contents of the queue, by what it returns.
use mathlib.Core.Path.{subst}
use log_aggregator_c.Base.{
  ◌≡◌, ap, sym, ◌∙◌, Bool, true, false, Option, none, some, List, [], ◌∷◌, ◌++◌, append-nil,
}
use log_aggregator_c.LogEntry.{LogEntry}
use log_aggregator_c.Queue.{Queue, Pass, queue_pop}
use log_aggregator_c.Queue.Fifo.{Fifo, poll, poll_items}
use log_aggregator_c.Queue.Ring.{IsValid, contents}
use log_aggregator_c.Queue.Refine.{view, queue_pop_refines}
use log_aggregator_c.Handlers.Post.{Outcome, replied, asleep, post_push}
use log_aggregator_c.Handlers.Accept.{Effect, refused, too_late, waits, queued, post_push-Done}
use log_aggregator_c.Traffic.{kept}

-- What a pass of queue_push for `e` puts into the queue.
abbrev pub gained : Outcome → LogEntry → List LogEntry
gained (replied code reply) e = kept code e
gained (asleep f) e = []

-- What a pass of queue_pop takes out of it.
abbrev pub given : Option LogEntry → List LogEntry
given none = []
given (some e) = e ∷ []

Effect-contents :
    {e : LogEntry} {q q' : Queue} {o : Outcome}
    → Effect (some e) q o q'
    → contents q' ≡ contents q ++ gained o e
Effect-contents (refused reply n o same) = cc
Effect-contents {e} {q} {q'} {o} (too_late s off out same) =
    ap (λ v. v.items) same
    ∙ sym (append-nil (contents q))
    ∙ ap (λ x. contents q ++ gained x e) (sym out)
Effect-contents {e} {q} {q'} {o} (waits s on no_room out same) =
    ap (λ v. v.items) same
    ∙ sym (append-nil (contents q))
    ∙ ap (λ x. contents q ++ gained x e) (sym out)
Effect-contents {e} {q} {q'} {o} (queued {entry = f} s on room out grown) =
    let same : f ≡ e = cc in
    ap (λ v. v.items) grown
    ∙ ap (λ x. contents q ++ (x ∷ [])) same
    ∙ ap (λ x. contents q ++ gained x e) (sym out)

-- A queue after a pass.
pub record Passed (q' : Queue) (l : List LogEntry) : Type 0 where
  pub valid : IsValid q'
  pub left : contents q' ≡ l

pub post_push-Passed :
    {q q' : Queue} (e : LogEntry) (o : Outcome)
    → IsValid q
    → post_push e q ≡ some (o, q')
    → Passed q' (contents q ++ gained o e)
post_push-Passed {q} {q'} e o v h =
    let d = post_push-Done v e in
    let same : ◌≡◌ {A = Option (Outcome × Queue)} (some (d.outcome, d.queue)) (some (o, q')) =
      sym d.result ∙ h in
    let outcome : d.outcome ≡ o = cc in
    let queue : d.queue ≡ q' = cc in
    record {
      valid = subst IsValid queue d.valid;
      left =
          ap contents (sym queue)
          ∙ Effect-contents d.effect
          ∙ ap (λ x. contents q ++ gained x e) outcome;
    }

poll_items-given :
    (pass : Pass) (out : Option LogEntry) (f : Fifo) (l : List LogEntry) (running : Bool)
    → (pass, out, f) ≡ poll_items l running
    → l ≡ given out ++ f.items
poll_items-given pass out f [] true h = sym (ap (λ r. given r.1 ++ r.2.items) h)
poll_items-given pass out f [] false h = sym (ap (λ r. given r.1 ++ r.2.items) h)
poll_items-given pass out f (e ∷ l) running h = sym (ap (λ r. given r.1 ++ r.2.items) h)

pub queue_pop-Passed :
    {q q' : Queue} (pass : Pass) (out : Option LogEntry)
    → IsValid q
    → queue_pop q ≡ some (pass, out, q')
    → (IsValid q') × (contents q ≡ given out ++ contents q')
unfolding poll
queue_pop-Passed {q} {q'} pass out v h =
    let p = queue_pop_refines v in
    let same : ◌≡◌ {A = Option (Pass × Option LogEntry × Queue)} (some (p.pass, p.out, p.queue))
        (some (pass, out, q')) =
      sym p.result ∙ h in
    let o : p.out ≡ out = cc in
    let queue : p.queue ≡ q' = cc in
    (
      subst IsValid queue p.valid,
      poll_items-given p.pass p.out (view p.queue) (contents q) q.running p.agrees
          ∙ ap (λ x. given x ++ contents p.queue) o
          ∙ ap (λ x. given out ++ contents x) queue,
    )
