-- ===== src/Queue/System.antt =====
-- All threads that use the queue, interleaved a pass at a time. A step is a thread's call, a pass
-- of a call with the lock held, a wakeup that no signal caused, or queue_shutdown. A signal wakes
-- one sleeper, whichever, if there is one; a broadcast wakes all.
use log_aggregator_c.Base.{
  ℕ, zero, suc, ◌+◌, ◌-◌, ◌<◌, ◌≡◌, true, none, some, List, [], ◌∷◌, ◌++◌, pos, negsuc,
}
use log_aggregator_c.LogEntry.{LogEntry}
use log_aggregator_c.Queue.{
  Queue, sleeps, returns, queue_init, queue_push, queue_pop, queue_shutdown,
}

-- A caller of queue_push is the entry that it brings; a caller of queue_pop has nothing to tell.
pub record System : Type 0 where
  pub queue : Queue
  pub pushing : List LogEntry  -- callers of queue_push that can take the lock
  pub push_asleep : List LogEntry  -- those asleep on not_full
  pub popping : ℕ  -- callers of queue_pop that can take the lock
  pub pop_asleep : ℕ  -- those asleep on not_empty
  pub accepted : List LogEntry  -- entries that queue_push returned 0 for, in that order
  pub delivered : List LogEntry  -- entries that queue_pop gave out, in that order

-- pthread_cond_signal: `ready` and `asleep` become `ready'` and `asleep'`.
pub data Signal (ready asleep ready' asleep' : List LogEntry) : Type 0 where
  nobody : asleep ≡ [] → ready' ≡ ready → asleep' ≡ [] → Signal ready asleep ready' asleep'
  wakes :
      (xs ys : List LogEntry) (e : LogEntry)
      → asleep ≡ xs ++ (e ∷ ys)
      → ready' ≡ e ∷ ready
      → asleep' ≡ xs ++ ys
      → Signal ready asleep ready' asleep'

-- The same where sleepers are only counted.
abbrev pub wake_one : ℕ → ℕ
wake_one zero = 0
wake_one (suc n) = 1

pub data Step (s t : System) : Type 0 where
  call_push : (e : LogEntry) → t ≡ record s { pushing = e ∷ s.pushing } → Step s t
  call_pop : t ≡ record s { popping = s.popping + 1 } → Step s t
  push_sleeps :
      (xs ys : List LogEntry) (e : LogEntry) {q : Queue}
      → s.pushing ≡ xs ++ (e ∷ ys)
      → queue_push s.queue e ≡ some (sleeps, q)
      → t ≡ record s { queue = q; pushing = xs ++ ys; push_asleep = e ∷ s.push_asleep }
      → Step s t
  push_fails :
      (xs ys : List LogEntry) (e : LogEntry) {q : Queue}
      → s.pushing ≡ xs ++ (e ∷ ys)
      → queue_push s.queue e ≡ some (returns (negsuc 0), q)
      → t ≡ record s { queue = q; pushing = xs ++ ys }
      → Step s t
  push_ends :
      (xs ys : List LogEntry) (e : LogEntry) {q : Queue}
      → s.pushing ≡ xs ++ (e ∷ ys)
      → queue_push s.queue e ≡ some (returns (pos 0), q)
      → t ≡ record s {
        queue = q;
        pushing = xs ++ ys;
        popping = s.popping + wake_one s.pop_asleep;
        pop_asleep = s.pop_asleep - 1;
        accepted = s.accepted ++ (e ∷ []);
      }
      → Step s t
  pop_sleeps :
      {q : Queue}
      → 0 < s.popping
      → queue_pop s.queue ≡ some (sleeps, none, q)
      → t ≡ record s { queue = q; popping = s.popping - 1; pop_asleep = s.pop_asleep + 1 }
      → Step s t
  pop_fails :
      {q : Queue}
      → 0 < s.popping
      → queue_pop s.queue ≡ some (returns (negsuc 0), none, q)
      → t ≡ record s { queue = q; popping = s.popping - 1 }
      → Step s t
  pop_ends :
      {q : Queue} (e : LogEntry) (ready asleep : List LogEntry)
      → 0 < s.popping
      → queue_pop s.queue ≡ some (returns (pos 0), some e, q)
      → Signal s.pushing s.push_asleep ready asleep
      → t ≡ record s {
        queue = q;
        pushing = ready;
        push_asleep = asleep;
        popping = s.popping - 1;
        delivered = s.delivered ++ (e ∷ []);
      }
      → Step s t
  push_wakes :
      (xs ys : List LogEntry) (e : LogEntry)
      → s.push_asleep ≡ xs ++ (e ∷ ys)
      → t ≡ record s { pushing = e ∷ s.pushing; push_asleep = xs ++ ys }
      → Step s t
  pop_wakes :
      0 < s.pop_asleep
      → t ≡ record s { popping = s.popping + 1; pop_asleep = s.pop_asleep - 1 }
      → Step s t
  shuts_down :
      t ≡ record s {
        queue = queue_shutdown s.queue;
        pushing = s.push_asleep ++ s.pushing;
        push_asleep = [];
        popping = s.popping + s.pop_asleep;
        pop_asleep = 0;
      }
      → Step s t

-- The state after queue_init, before any call.
abbrev pub start : Queue → System
start q = record {
  queue = (queue_init q true true true).1;
  pushing = [];
  push_asleep = [];
  popping = 0;
  pop_asleep = 0;
  accepted = [];
  delivered = [];
}

pub data Reach (q : Queue) : System → Type 0 where
  started : Reach q (start q)
  later : {s t : System} → Reach q s → Step s t → Reach q t
