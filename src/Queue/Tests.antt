-- ===== src/Queue/Tests.antt =====
-- Runs of the queue, and the theorems at concrete inputs.
use log_aggregator_c.Base.{
  ℕ, zero, suc, ◌+◌, ap, ◌≡◌, ◌≤◌, ◌-◌, refl, true, false, [], ◌∷◌, ◌++◌, pos, arith, length,
  replicate, length-replicate, store-eq-set,
}
use log_aggregator_c.Config.{queue_capacity}
use log_aggregator_c.LogEntry.{LogEntry, no_entry}
use log_aggregator_c.Queue.{Queue, queue_init, queue_push, queue_pop, queue_shutdown}
use log_aggregator_c.Queue.Fifo.{offer, poll}
use log_aggregator_c.Queue.Ring.{IsValid, contents}
use log_aggregator_c.Queue.Refine.{
  pushed, tail_inside, view, PushDone, PopDone, queue_push_refines, queue_pop_refines,
  queue_init-IsValid,
}
use log_aggregator_c.Queue.System.{
  System, call_push, call_pop, push_ends, push_sleeps, pop_sleeps, wake_one, shuts_down, start,
  Reach, started, later,
}
use log_aggregator_c.Queue.Wakeup.{first_in_first_out, producers_awake, consumers_awake}

-- The static array before the first use.
abbrev zeroed : Queue
zeroed = record {
  buffer = replicate queue_capacity no_entry;
  head = 0;
  tail = 0;
  count = 0;
  running = true;
  initialized = false;
}

abbrev fresh : Queue
fresh = (queue_init zeroed true true true).1

abbrev entry : LogEntry
entry = record { level = 73 ∷ 0 ∷ []; message = 109 ∷ 0 ∷ []; timestamp = pos 7 }

storage : length zeroed.buffer ≡ queue_capacity
storage = length-replicate queue_capacity no_entry

fresh-IsValid : IsValid fresh
fresh-IsValid = queue_init-IsValid zeroed storage

queue_push_refines_example : PushDone (queue_push fresh entry) (offer (view fresh) entry)
queue_push_refines_example = queue_push_refines entry fresh-IsValid

queue_pop_refines_example : PopDone (queue_pop fresh) (poll (view fresh))
queue_pop_refines_example = queue_pop_refines fresh-IsValid

-- A consumer comes first and sleeps.
abbrev waiting : System
waiting = record (start zeroed) { pop_asleep = 1 }

waiting-Reach : Reach zeroed waiting
unfolding queue_init queue_pop
waiting-Reach =
    later (later {t = record (start zeroed) { popping = 1 }} started (call_pop refl))
      (pop_sleeps (omega arith) refl refl)

first_in_first_out_example :
    (waiting.accepted ≡ waiting.delivered ++ contents waiting.queue) × IsValid waiting.queue
first_in_first_out_example = first_in_first_out storage waiting-Reach

consumers_awake_example : (waiting.queue.running ≡ true) × (waiting.queue.count ≤ waiting.popping)
consumers_awake_example = consumers_awake storage waiting-Reach (omega arith)

-- `n` producers have come and gone.
record Filled (n : ℕ) : Type 0 where
  sys : System
  reach : Reach zeroed sys
  on : sys.queue.running ≡ true
  amount : sys.queue.count ≡ n
  idle : sys.pushing ≡ []

fill_more : (n : ℕ) → suc n ≤ queue_capacity → Filled n → Filled (suc n)
unfolding queue_push
fill_more n h f =
    let valid : IsValid f.sys.queue = (first_in_first_out storage f.reach).1 in
    let called : System = record f.sys { pushing = entry ∷ f.sys.pushing } in
    record {
      sys = record f.sys {
        queue = pushed valid entry;
        pushing = [];
        popping = f.sys.popping + wake_one f.sys.pop_asleep;
        pop_asleep = f.sys.pop_asleep - 1;
        accepted = f.sys.accepted ++ (entry ∷ []);
      };
      reach = later (later {t = called} f.reach (call_push entry refl)) (
          push_ends [] [] entry (ap (λ l. entry ∷ l) f.idle)
            (ground (
              arith,
              f.on,
              f.amount,
              store-eq-set f.sys.queue.buffer f.sys.queue.tail entry (tail_inside valid entry),
            ))
            refl);
      on = f.on;
      amount = omega (arith, f.amount);
      idle = refl;
    }

fill : (n : ℕ) → n ≤ queue_capacity → Filled n
unfolding queue_init
fill zero h = record { sys = start zeroed; reach = started; on = refl; amount = refl; idle = refl }
fill (suc n) h = fill_more n h (fill n (omega arith))

-- One producer more than the queue has places.
full : Filled queue_capacity
full = fill queue_capacity (omega arith)

abbrev overfull : System
overfull = record full.sys { pushing = []; push_asleep = entry ∷ full.sys.push_asleep }

overfull-Reach : Reach zeroed overfull
unfolding queue_push
overfull-Reach =
    later
      (later {t = record full.sys { pushing = entry ∷ full.sys.pushing }} full.reach
        (call_push entry refl))
      (push_sleeps [] [] entry (ap (λ l. entry ∷ l) full.idle)
        (ground (arith, full.on, full.amount)) refl)

producers_awake_example :
    (overfull.queue.running ≡ true)
    × (queue_capacity - overfull.queue.count ≤ length overfull.pushing)
producers_awake_example = producers_awake storage overfull-Reach (omega arith)

-- The queue is shut down while that consumer sleeps, and a producer comes.
abbrev closed : System
closed = record waiting { queue = queue_shutdown waiting.queue; popping = 1; pop_asleep = 0 }

closed-Reach : Reach zeroed closed
closed-Reach = later waiting-Reach (shuts_down refl)
