-- ===== src/Queue/Passes.antt =====
-- What the result of a pass tells of the queue before it.
use log_aggregator_c.Base.{
  ◌<◌, ◌≡◌, true, false, none, some, pos, negsuc, arith, store-eq-set, get_elem?-eq-get_or,
}
use log_aggregator_c.Config.{queue_capacity}
use log_aggregator_c.LogEntry.{LogEntry, no_entry}
use log_aggregator_c.Queue.{Queue, sleeps, returns, queue_push, queue_pop}
use log_aggregator_c.Queue.Ring.{IsValid}
use log_aggregator_c.Queue.Refine.{pushed, tail_inside, popped, first}

module _ {q q' : Queue} (v : IsValid q) (e : LogEntry) where
  pub push_sleeps_inv :
      queue_push q e ≡ some (sleeps, q')
      → (q' ≡ q) × (q.count ≡ queue_capacity) × (q.running ≡ true)
  unfolding queue_push
  push_sleeps_inv h = ground arith

  pub push_fails_inv :
      queue_push q e ≡ some (returns (negsuc 0), q') → (q' ≡ q) × (q.running ≡ false)
  unfolding queue_push
  push_fails_inv h = ground arith

  pub push_ends_inv :
      queue_push q e ≡ some (returns (pos 0), q')
      → (q' ≡ pushed v e) × (q.count < queue_capacity) × (q.running ≡ true)
  unfolding queue_push
  push_ends_inv h = ground (arith, store-eq-set q.buffer q.tail e (tail_inside v e), v.count_in)

module _ {q q' : Queue} (v : IsValid q) where
  pub pop_sleeps_inv :
      queue_pop q ≡ some (sleeps, none, q') → (q' ≡ q) × (q.count ≡ 0) × (q.running ≡ true)
  unfolding queue_pop
  pop_sleeps_inv h = ground arith

  pub pop_fails_inv :
      queue_pop q ≡ some (returns (negsuc 0), none, q')
      → (q' ≡ q) × (q.count ≡ 0) × (q.running ≡ false)
  unfolding queue_pop
  pop_fails_inv h = ground arith

  pub pop_ends_inv :
      (e : LogEntry)
      → queue_pop q ≡ some (returns (pos 0), some e, q')
      → (q' ≡ popped v) × (e ≡ first v) × (0 < q.count)
  unfolding queue_pop
  pop_ends_inv e h =
      ground (arith, get_elem?-eq-get_or q.buffer q.head no_entry, v.head_in, v.storage)
