-- ===== src/Queue.antt =====
-- src/server/log_queue.c: the bounded queue between the request handlers and the worker. The file's
-- static variables are one record. With the lock held, a call runs from the head of its waiting
-- loop until it returns or sleeps in pthread_cond_wait: that is a pass, one step of the model.
-- `none` is an access out of bounds. Queue/System.antt interleaves the passes of all threads.
pub mod Fifo
pub mod Ring
pub mod Refine
pub mod System
pub mod Passes
pub mod Invariant
pub mod Wakeup
mod Tests
use log_aggregator_c.Base.{
  ℕ, ◌+◌, ◌-◌, ◌%◌, Bool, true, false, not, ◌&&◌, Option, none, some, List, ℤ, pos, negsuc, ◌>>=◌,
  ◌==◌, if◌then◌else◌, load, store,
}
use log_aggregator_c.Config.{queue_capacity}
use log_aggregator_c.LogEntry.{LogEntry}

pub record Queue : Type 0 where
  pub buffer : List LogEntry
  pub head : ℕ
  pub tail : ℕ
  pub count : ℕ
  pub running : Bool
  pub initialized : Bool

-- How a pass ends: asleep on the condition variable, or with the function's result.
pub data Pass : Type 0 where
  sleeps : Pass
  returns : ℤ → Pass

-- The three tests are whether the mutex and the two condition variables could be created.
unfoldable pub queue_init : Queue → (lock not_empty not_full : Bool) → ℤ × Queue
queue_init q lock not_empty not_full =
    if not lock
    then (negsuc 0, q)
    else if not not_empty
    then (negsuc 0, q)
    else if not not_full
    then (negsuc 0, q)
    else (pos 0, record q { head = 0; tail = 0; count = 0; running = true; initialized = true })

-- `tail + 1`, `head + 1` and `count` stay at most the capacity: no `int` overflows.
unfoldable pub queue_push : Queue → LogEntry → Option (Pass × Queue)
queue_push q entry =
    if q.count == queue_capacity && q.running
    then some (sleeps, q)
    else if not q.running
    then some (returns (negsuc 0), q)
    else (store q.buffer q.tail entry >>= λ buffer'. some (
      returns (pos 0),
      record q { buffer = buffer'; tail = (q.tail + 1) % queue_capacity; count = q.count + 1 },
    ))

-- The middle component is what goes to `*out`. `count--` runs only at a count that is not 0.
unfoldable pub queue_pop : Queue → Option (Pass × Option LogEntry × Queue)
queue_pop q =
    if q.count == 0 && q.running
    then some (sleeps, none, q)
    else if not q.running && q.count == 0
    then some (returns (negsuc 0), none, q)
    else (load q.buffer (pos q.head) >>= λ entry. some (
      returns (pos 0),
      some entry,
      record q { head = (q.head + 1) % queue_capacity; count = q.count - 1 },
    ))

unfoldable pub queue_shutdown : Queue → Queue
queue_shutdown q = record q { running = false }

-- Whether the call destroys the mutex and the two condition variables; nothing else changes.
unfoldable pub queue_destroy : Queue → Bool
queue_destroy q = if not q.initialized then false else true
