-- ===== src/Queue/Invariant.antt =====
-- The invariant of all threads that use the queue, step by step.
use log_aggregator_c.Base.{
  ℕ, zero, suc, ◌+◌, ◌-◌, ◌≤◌, ◌<◌, ◌≡◌, ap, sym, ◌∙◌, Bool, true, false, List, [], ◌∷◌, ◌++◌,
  append_assoc, arith, length, length-append,
}
use log_aggregator_c.Config.{queue_capacity}
use log_aggregator_c.LogEntry.{LogEntry}
use log_aggregator_c.Queue.{Queue, queue_shutdown}
use log_aggregator_c.Queue.Ring.{IsValid, contents}
use log_aggregator_c.Queue.Refine.{
  pushed, contents-pushed, pushed-IsValid, popped, first, popped-IsValid, contents-popped,
  queue_init-IsValid, view-queue_init, view-queue_shutdown, queue_shutdown-IsValid,
}
use log_aggregator_c.Queue.System.{
  System, Signal, nobody, wakes, wake_one, Step, call_push, call_pop, push_sleeps, push_fails,
  push_ends, pop_sleeps, pop_fails, pop_ends, push_wakes, pop_wakes, shuts_down, start, Reach,
  started, later,
}
use log_aggregator_c.Queue.Passes.{
  push_sleeps_inv, push_fails_inv, push_ends_inv, pop_sleeps_inv, pop_fails_inv, pop_ends_inv,
}

-- The state of the threads, told by what they know of the queue.
pub record Inv (s : System) : Type 0 where
  pub valid : IsValid s.queue
  pub order : s.accepted ≡ s.delivered ++ contents s.queue
  pub push_woken :
      0 < length s.push_asleep
      → (s.queue.running ≡ true) × (queue_capacity ≤ s.queue.count + length s.pushing)
  pub pop_woken : 0 < s.pop_asleep → (s.queue.running ≡ true) × (s.queue.count ≤ s.popping)

pub length-middle :
    (xs ys : List LogEntry) (e : LogEntry) → length (xs ++ (e ∷ ys)) ≡ length (xs ++ ys) + 1
length-middle xs ys e = omega (arith, length-append xs (e ∷ ys), length-append xs ys)

-- The first pop that a signal wakes makes up for the entry that was pushed.
wake_one-enough :
    (asleep popping count : ℕ)
    → 0 < asleep - 1
    → (0 < asleep → count ≤ popping)
    → count + 1 ≤ popping + wake_one asleep
wake_one-enough zero popping count h k = absurd (omega arith)
wake_one-enough (suc n) popping count h k = omega arith

pub not_both : {b : Bool} → b ≡ true → b ≡ false → ⊥
not_both h k = cc

start-Inv : (q : Queue) → length q.buffer ≡ queue_capacity → Inv (start q)
start-Inv q h = record {
  valid = queue_init-IsValid q h;
  order = sym (ap (λ f. f.items) (view-queue_init q));
  push_woken = λ p. absurd (omega arith);
  pop_woken = λ p. absurd (omega arith);
}

-- A pass that returns 0 from queue_push.
module _ {s : System} (inv : Inv s) (xs ys : List LogEntry) (e : LogEntry) where
  open inv use {valid, order, push_woken, pop_woken}

  push_ends-Inv :
      s.pushing ≡ xs ++ (e ∷ ys)
      → s.queue.count < queue_capacity
      → s.queue.running ≡ true
      → Inv (record s {
        queue = pushed valid e;
        pushing = xs ++ ys;
        popping = s.popping + wake_one s.pop_asleep;
        pop_asleep = s.pop_asleep - 1;
        accepted = s.accepted ++ (e ∷ []);
      })
  push_ends-Inv p room on = record {
    valid = pushed-IsValid valid e room;
    order =
        ap (λ l. l ++ (e ∷ [])) order
        ∙ append_assoc s.delivered (contents s.queue) (e ∷ [])
        ∙ ap (λ l. s.delivered ++ l) (sym (contents-pushed valid e room));
    push_woken = λ a. (on, omega (arith, push_woken a, length-middle xs ys e, ap length p));
    pop_woken =
        λ a. (on, wake_one-enough s.pop_asleep s.popping s.queue.count a (λ h. (pop_woken h).1));
  }

  push_sleeps-Inv :
      s.pushing ≡ xs ++ (e ∷ ys)
      → s.queue.count ≡ queue_capacity
      → s.queue.running ≡ true
      → Inv (record s { pushing = xs ++ ys; push_asleep = e ∷ s.push_asleep })
  push_sleeps-Inv p full on = record {
    valid = valid;
    order = order;
    push_woken = λ a. (on, omega arith);
    pop_woken = pop_woken;
  }

  push_fails-Inv : s.queue.running ≡ false → Inv (record s { pushing = xs ++ ys })
  push_fails-Inv off = record {
    valid = valid;
    order = order;
    push_woken = λ a. absurd (not_both (push_woken a).0 off);
    pop_woken = pop_woken;
  }

-- A pass of queue_pop, and the other steps.
module _ {s : System} (inv : Inv s) where
  open inv use {valid, order, push_woken, pop_woken}

  pop_ends-Inv :
      (ready asleep : List LogEntry)
      → 0 < s.popping
      → 0 < s.queue.count
      → Signal s.pushing s.push_asleep ready asleep
      → Inv (record s {
        queue = popped valid;
        pushing = ready;
        push_asleep = asleep;
        popping = s.popping - 1;
        delivered = s.delivered ++ (first valid ∷ []);
      })
  pop_ends-Inv ready asleep ready_pop some_left sig = record {
    valid = popped-IsValid valid some_left;
    order =
        order
        ∙ ap (λ l. s.delivered ++ l) (contents-popped valid some_left)
        ∙ sym (append_assoc s.delivered (first valid ∷ []) (contents (popped valid)));
    push_woken = woken sig;
    pop_woken = λ a. ((pop_woken a).0, omega (arith, pop_woken a));
  }
    where
      woken :
          Signal s.pushing s.push_asleep ready asleep
          → 0 < length asleep
          → (s.queue.running ≡ true) × (queue_capacity ≤ s.queue.count - 1 + length ready)
      woken (nobody p q r) a = absurd (omega (arith, ap length r))
      woken (wakes xs ys e p q r) a =
          let w = push_woken (omega (arith, ap length p, length-middle xs ys e)) in
          (w.0, omega (arith, w, ap length q))

  pop_sleeps-Inv :
      0 < s.popping
      → s.queue.count ≡ 0
      → s.queue.running ≡ true
      → Inv (record s { popping = s.popping - 1; pop_asleep = s.pop_asleep + 1 })
  pop_sleeps-Inv ready_pop empty on = record {
    valid = valid;
    order = order;
    push_woken = push_woken;
    pop_woken = λ a. (on, omega arith);
  }

  pop_fails-Inv : s.queue.running ≡ false → Inv (record s { popping = s.popping - 1 })
  pop_fails-Inv off = record {
    valid = valid;
    order = order;
    push_woken = push_woken;
    pop_woken = λ a. absurd (not_both (pop_woken a).0 off);
  }

  push_wakes-Inv :
      (xs ys : List LogEntry) (e : LogEntry)
      → s.push_asleep ≡ xs ++ (e ∷ ys)
      → Inv (record s { pushing = e ∷ s.pushing; push_asleep = xs ++ ys })
  push_wakes-Inv xs ys e p = record {
    valid = valid;
    order = order;
    push_woken = λ a.
        let w = push_woken (omega (arith, ap length p, length-middle xs ys e)) in
        (w.0, omega (arith, w));
    pop_woken = pop_woken;
  }

  pop_wakes-Inv :
      0 < s.pop_asleep → Inv (record s { popping = s.popping + 1; pop_asleep = s.pop_asleep - 1 })
  pop_wakes-Inv h = record {
    valid = valid;
    order = order;
    push_woken = push_woken;
    pop_woken = λ a. ((pop_woken h).0, omega (arith, pop_woken h));
  }

  call_push-Inv : (e : LogEntry) → Inv (record s { pushing = e ∷ s.pushing })
  call_push-Inv e = record {
    valid = valid;
    order = order;
    push_woken = λ a. ((push_woken a).0, omega (arith, push_woken a));
    pop_woken = pop_woken;
  }

  call_pop-Inv : Inv (record s { popping = s.popping + 1 })
  call_pop-Inv = record {
    valid = valid;
    order = order;
    push_woken = push_woken;
    pop_woken = λ a. ((pop_woken a).0, omega (arith, pop_woken a));
  }

  shuts_down-Inv : Inv (record s {
    queue = queue_shutdown s.queue;
    pushing = s.push_asleep ++ s.pushing;
    push_asleep = [];
    popping = s.popping + s.pop_asleep;
    pop_asleep = 0;
  })
  shuts_down-Inv = record {
    valid = queue_shutdown-IsValid valid;
    order = order ∙ ap (λ f. s.delivered ++ f.items) (sym (view-queue_shutdown s.queue));
    push_woken = λ a. absurd (omega arith);
    pop_woken = λ a. absurd (omega arith);
  }

-- Every step of the threads keeps the invariant.
pub Step-Inv : {s t : System} → Step s t → Inv s → Inv t
Step-Inv (call_push e t) inv = rw t (call_push-Inv inv e)
Step-Inv (call_pop t) inv = rw t (call_pop-Inv inv)
Step-Inv (push_sleeps xs ys e p h t) inv =
    let (same, full, on) = push_sleeps_inv inv.valid e h in
    rw (t, same) (push_sleeps-Inv inv xs ys e p full on)
Step-Inv (push_fails xs ys e p h t) inv =
    let (same, off) = push_fails_inv inv.valid e h in rw (t, same) (push_fails-Inv inv xs ys e off)
Step-Inv (push_ends xs ys e p h t) inv =
    let (done, room, on) = push_ends_inv inv.valid e h in
    rw (t, done) (push_ends-Inv inv xs ys e p room on)
Step-Inv (pop_sleeps r h t) inv =
    let (same, empty, on) = pop_sleeps_inv inv.valid h in
    rw (t, same) (pop_sleeps-Inv inv r empty on)
Step-Inv (pop_fails r h t) inv =
    let (same, empty, off) = pop_fails_inv inv.valid h in rw (t, same) (pop_fails-Inv inv off)
Step-Inv (pop_ends e ready asleep r h sig t) inv =
    let (done, out, some_left) = pop_ends_inv inv.valid e h in
    rw (t, done, out) (pop_ends-Inv inv ready asleep r some_left sig)
Step-Inv (push_wakes xs ys e p t) inv = rw t (push_wakes-Inv inv xs ys e p)
Step-Inv (pop_wakes h t) inv = rw t (pop_wakes-Inv inv h)
Step-Inv (shuts_down t) inv = rw t (shuts_down-Inv inv)

pub Reach-Inv : {q : Queue} {s : System} → length q.buffer ≡ queue_capacity → Reach q s → Inv s
Reach-Inv {q} h started = start-Inv q h
Reach-Inv h (later r st) = Step-Inv st (Reach-Inv h r)
