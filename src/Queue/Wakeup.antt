-- ===== src/Queue/Wakeup.antt =====
-- The order of the entries and the wakeups of sleepers, however the threads interleave.
use log_aggregator_c.Base.{◌-◌, ◌≤◌, ◌<◌, ◌≡◌, refl, true, false, ◌++◌, arith, length}
use log_aggregator_c.Config.{queue_capacity}
use log_aggregator_c.Queue.{Queue, queue_shutdown}
use log_aggregator_c.Queue.Ring.{IsValid, contents}
use log_aggregator_c.Queue.System.{
  System, Step, call_push, call_pop, push_sleeps, push_fails, push_ends, pop_sleeps, pop_fails,
  pop_ends, push_wakes, pop_wakes, shuts_down, Reach,
}
use log_aggregator_c.Queue.Passes.{
  push_sleeps_inv, push_fails_inv, push_ends_inv, pop_sleeps_inv, pop_fails_inv, pop_ends_inv,
}
use log_aggregator_c.Queue.Invariant.{Inv, not_both, Reach-Inv}

-- However any number of producers and consumers interleave, with signals, spurious wakeups and a
-- shutdown at any time: the entries accepted so far are the entries delivered so far followed by
-- what the queue holds, so entries come out in the order in which they were accepted, none is lost
-- and none comes twice. The queue stays well formed.
pub first_in_first_out :
    {q : Queue} {s : System}
    → length q.buffer ≡ queue_capacity
    → Reach q s
    → (s.accepted ≡ s.delivered ++ contents s.queue) × IsValid s.queue
first_in_first_out h r = let inv = Reach-Inv h r in (inv.order, inv.valid)

-- No producer's wakeup is lost: in every reachable state with a sleeping producer the queue has not
-- been shut down, and at least as many producers can take the lock as the queue has free places.
pub producers_awake :
    {q : Queue} {s : System}
    → length q.buffer ≡ queue_capacity
    → Reach q s
    → 0 < length s.push_asleep
    → (s.queue.running ≡ true) × (queue_capacity - s.queue.count ≤ length s.pushing)
producers_awake h r a = let w = (Reach-Inv h r).push_woken a in (w.0, omega (arith, w))

-- No consumer's wakeup is lost: in every reachable state with a sleeping consumer the queue has not
-- been shut down, and at least as many consumers can take the lock as the queue holds entries.
pub consumers_awake :
    {q : Queue} {s : System}
    → length q.buffer ≡ queue_capacity
    → Reach q s
    → 0 < s.pop_asleep
    → (s.queue.running ≡ true) × (s.queue.count ≤ s.popping)
consumers_awake h r a = (Reach-Inv h r).pop_woken a

shut :
    {s t : System}
    → Inv s
    → Step s t
    → s.queue.running ≡ false
    → (t.queue.running ≡ false) × (t.accepted ≡ s.accepted)
unfolding queue_shutdown
shut inv (call_push e t) off = rw t (off, refl)
shut inv (call_pop t) off = rw t (off, refl)
shut inv (push_sleeps xs ys e p h t) off =
    let (same, full, on) = push_sleeps_inv inv.valid e h in absurd (not_both on off)
shut inv (push_fails xs ys e p h t) off =
    let (same, _) = push_fails_inv inv.valid e h in rw (t, same) (off, refl)
shut inv (push_ends xs ys e p h t) off =
    let (done, room, on) = push_ends_inv inv.valid e h in absurd (not_both on off)
shut inv (pop_sleeps r h t) off =
    let (same, empty, on) = pop_sleeps_inv inv.valid h in absurd (not_both on off)
shut inv (pop_fails r h t) off =
    let (same, _, _) = pop_fails_inv inv.valid h in rw (t, same) (off, refl)
shut inv (pop_ends e ready asleep r h sig t) off =
    let (done, _, _) = pop_ends_inv inv.valid e h in rw (t, done) (off, refl)
shut inv (push_wakes xs ys e p t) off = rw t (off, refl)
shut inv (pop_wakes h t) off = rw t (off, refl)
shut inv (shuts_down t) off = rw t (refl, refl)

-- Once the queue is shut down it stays so, and no step accepts an entry.
pub shutdown_rejects :
    {q : Queue} {s t : System}
    → length q.buffer ≡ queue_capacity
    → Reach q s
    → Step s t
    → s.queue.running ≡ false
    → (t.queue.running ≡ false) × (t.accepted ≡ s.accepted)
shutdown_rejects h r st off = shut (Reach-Inv h r) st off
