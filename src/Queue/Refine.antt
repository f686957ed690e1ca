-- ===== src/Queue/Refine.antt =====
-- A pass of queue_push or queue_pop on a well-formed queue, against the specification.
use native.Mathlib.Nat.{mod-lt, mod-add-mod, mod-eq_of_lt}
use log_aggregator_c.Base.{
  suc, ◌+◌, ◌-◌, ◌%◌, ◌≤◌, ◌<◌, ◌≡◌, refl, ap, ap₂, ◌∙◌, sym, true, false, Bool-cases, dec_lt, inl,
  inr, Option, none, some, [], ◌∷◌, ◌++◌, arith, length, get_or, set, store-eq-set, length-set,
  get_elem?-eq-get_or, pos, negsuc,
}
use log_aggregator_c.Config.{queue_capacity}
use log_aggregator_c.LogEntry.{LogEntry, no_entry}
use log_aggregator_c.Queue.{
  Queue, Pass, sleeps, returns, queue_init, queue_push, queue_pop, queue_shutdown,
}
use log_aggregator_c.Queue.Fifo.{Fifo, offer, poll}
use log_aggregator_c.Queue.Ring.{oldest, contents, IsValid, length-oldest, oldest-next, oldest-set}

abbrev pub view : Queue → Fifo
view q = record { items = contents q; running = q.running }

pub length-contents : (q : Queue) → length (contents q) ≡ q.count
length-contents q = length-oldest q.buffer queue_capacity q.head 0 q.count

-- A pass that ended, with a well-formed queue, as `expected` says.
pub record PushDone (o : Option (Pass × Queue)) (expected : Pass × Fifo) : Type 0 where
  pub pass : Pass
  pub queue : Queue
  pub result : o ≡ some (pass, queue)
  pub valid : IsValid queue
  pub agrees : (pass, view queue) ≡ expected

pub record PopDone (o : Option (Pass × Option LogEntry × Queue))
    (expected : Pass × Option LogEntry × Fifo) : Type 0 where
  pub pass : Pass
  pub out : Option LogEntry
  pub queue : Queue
  pub result : o ≡ some (pass, out, queue)
  pub valid : IsValid queue
  pub agrees : (pass, out, view queue) ≡ expected

module _ {q : Queue} (v : IsValid q) (e : LogEntry) where
  abbrev pub pushed : Queue
  pushed = record q {
    buffer = set q.buffer q.tail e;
    tail = (q.tail + 1) % queue_capacity;
    count = q.count + 1;
  }

  pub contents-pushed : q.count < queue_capacity → contents pushed ≡ contents q ++ (e ∷ [])
  contents-pushed h =
      let at : q.tail ≡ (q.head + (0 + q.count)) % queue_capacity =
        v.span ∙ ap (λ n. (q.head + n) % queue_capacity) (omega arith) in
      rw at (
        ap
          (oldest (set q.buffer ((q.head + (0 + q.count)) % queue_capacity) e) queue_capacity q.head
            0)
          {y = suc q.count} (omega arith)
        ∙ oldest-set q.buffer e queue_capacity q.head 0 q.count v.storage v.head_in (omega arith))

  pub pushed-IsValid : q.count < queue_capacity → IsValid pushed
  pushed-IsValid h = record {
    storage = length-set q.buffer q.tail e ∙ v.storage;
    head_in = v.head_in;
    count_in = h';
    span = rw v.span (
        mod-add-mod (q.head + q.count) queue_capacity 1
        ∙ ap (λ n. n % queue_capacity) (omega arith));
  }
    where
      h' : q.count + 1 ≤ queue_capacity
      h' = omega arith

  pub tail_inside : q.tail < length q.buffer
  tail_inside =
      rw v.storage (rw v.span (mod-lt (q.head + q.count) {m = queue_capacity} (omega arith)))

-- queue_push, in every case: on a running queue that is full it sleeps and changes nothing, on one
-- that is shut down it returns -1 and changes nothing, and else it returns 0 with the entry behind
-- all others. It never writes out of bounds and keeps the queue well formed.
pub queue_push_refines :
    {q : Queue} (e : LogEntry) → IsValid q → PushDone (queue_push q e) (offer (view q) e)
unfolding queue_push offer
queue_push_refines {q} e v = elim (dec_lt q.count queue_capacity) [
  | no full ↦ elim (Bool-cases q.running) [
    | inl on ↦ record {
      pass = sleeps;
      queue = q;
      result = ground arith;
      valid = v;
      agrees = ground (arith, length-contents q);
    }
    | inr off ↦ record {
      pass = returns (negsuc 0);
      queue = q;
      result = ground arith;
      valid = v;
      agrees = ground arith;
    }
  ]
  | yes room ↦ elim (Bool-cases q.running) [
    | inl on ↦ record {
      pass = returns (pos 0);
      queue = pushed v e;
      result = ground (arith, store-eq-set q.buffer q.tail e (tail_inside v e));
      valid = pushed-IsValid v e room;
      agrees = ground (arith, length-contents q, contents-pushed v e room);
    }
    | inr off ↦ record {
      pass = returns (negsuc 0);
      queue = q;
      result = ground arith;
      valid = v;
      agrees = ground arith;
    }
  ]
]

module _ {q : Queue} (v : IsValid q) where
  abbrev pub popped : Queue
  popped = record q { head = (q.head + 1) % queue_capacity; count = q.count - 1 }

  abbrev pub first : LogEntry
  first = get_or q.buffer q.head no_entry

  pub popped-IsValid : 0 < q.count → IsValid popped
  popped-IsValid h = record {
    storage = v.storage;
    head_in = mod-lt (q.head + 1) {m = queue_capacity} (omega arith);
    count_in = omega arith;
    span =
        v.span
        ∙ sym (
            mod-add-mod (q.head + 1) queue_capacity (q.count - 1)
            ∙ ap (λ n. n % queue_capacity) (omega arith));
  }

  pub contents-popped : 0 < q.count → contents q ≡ first ∷ contents popped
  unfolding oldest
  contents-popped h =
      ap (oldest q.buffer queue_capacity q.head 0) {y = suc (q.count - 1)} (omega arith)
      ∙ ap₂ ◌∷◌
          (ap (λ i. get_or q.buffer i no_entry)
            (ap (λ n. n % queue_capacity) (omega arith) ∙ mod-eq_of_lt v.head_in))
          (sym (oldest-next q.buffer queue_capacity q.head 0 (q.count - 1)))

  pub contents-empty : q.count ≡ 0 → contents q ≡ []
  unfolding oldest
  contents-empty h = ap (oldest q.buffer queue_capacity q.head 0) {y = 0} h

-- queue_pop, in every case: on a running queue that is empty it sleeps, on one that is empty and
-- shut down it returns -1, both with no change, and else, shut down or not, it returns 0 and takes
-- the oldest entry out. It never reads out of bounds and keeps the queue well formed.
pub queue_pop_refines : {q : Queue} → IsValid q → PopDone (queue_pop q) (poll (view q))
unfolding queue_pop poll
queue_pop_refines {q} v = elim (dec_lt 0 q.count) [
  | no empty ↦ elim (Bool-cases q.running) [
    | inl on ↦ record {
      pass = sleeps;
      out = none;
      queue = q;
      result = ground arith;
      valid = v;
      agrees = ground (arith, contents-empty v (omega arith));
    }
    | inr off ↦ record {
      pass = returns (negsuc 0);
      out = none;
      queue = q;
      result = ground arith;
      valid = v;
      agrees = ground (arith, contents-empty v (omega arith));
    }
  ]
  | yes some_left ↦ record {
    pass = returns (pos 0);
    out = some (first v);
    queue = popped v;
    result = ground (arith, get_elem?-eq-get_or q.buffer q.head no_entry);
    valid = popped-IsValid v some_left;
    agrees = ground (arith, contents-popped v some_left);
  }
]

-- When the mutex and both conditions can be created, queue_init leaves an empty running queue.
pub queue_init-IsValid :
    (q : Queue) → length q.buffer ≡ queue_capacity → IsValid (queue_init q true true true).1
unfolding queue_init
queue_init-IsValid q h = record {
  storage = h;
  head_in = omega arith;
  count_in = omega arith;
  span = refl;
}

pub view-queue_init :
    (q : Queue) → view (queue_init q true true true).1 ≡ record { items = []; running = true }
unfolding queue_init oldest
view-queue_init q = refl

pub queue_shutdown-IsValid : {q : Queue} → IsValid q → IsValid (queue_shutdown q)
unfolding queue_shutdown
queue_shutdown-IsValid v = record {
  storage = v.storage;
  head_in = v.head_in;
  count_in = v.count_in;
  span = v.span;
}

pub view-queue_shutdown :
    (q : Queue) → view (queue_shutdown q) ≡ record { items = contents q; running = false }
unfolding queue_shutdown
view-queue_shutdown q = refl
