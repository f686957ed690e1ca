-- ===== src/Queue/Ring.antt =====
-- The entries that the queue's ring holds, oldest first, and when the ring is well formed.
use native.Mathlib.Nat.{mod-eq_of_lt, mod-eq-sub-mod, mod-add-mod, mod-lt}
use native.Mathlib.Decide.{dec_le}
use log_aggregator_c.Base.{
  ℕ, zero, suc, ◌+◌, ◌-◌, ◌%◌, ◌≤◌, ◌<◌, ◌≡◌, ◌≢◌, refl, ap, ap₂, ◌∙◌, List, [], ◌∷◌, ◌++◌, arith,
  length, get_or, set, get_or-set_ne, get_or-set_self,
}
use log_aggregator_c.Config.{queue_capacity}
use log_aggregator_c.LogEntry.{LogEntry, no_entry}
use log_aggregator_c.Queue.{Queue}

-- `n` entries of a ring of `size` from position `h + k` on.
unfoldable pub oldest : List LogEntry → (size h k n : ℕ) → List LogEntry
oldest buffer size h k zero = []
oldest buffer size h k (suc n) =
    get_or buffer ((h + k) % size) no_entry ∷ oldest buffer size h (suc k) n

abbrev pub contents : Queue → List LogEntry
contents q = oldest q.buffer queue_capacity q.head 0 q.count

pub record IsValid (q : Queue) : Type 0 where
  pub storage : length q.buffer ≡ queue_capacity
  pub head_in : q.head < queue_capacity
  pub count_in : q.count ≤ queue_capacity
  pub span : q.tail ≡ (q.head + q.count) % queue_capacity

pub length-oldest :
    (buffer : List LogEntry) (size h k n : ℕ) → length (oldest buffer size h k n) ≡ n
unfolding oldest
length-oldest buffer size h k zero = refl
length-oldest buffer size h k (suc n) = ap suc (length-oldest buffer size h (suc k) n)

-- Moving the head on by one skips one entry.
pub oldest-next :
    (buffer : List LogEntry) (size h k n : ℕ)
    → oldest buffer size ((h + 1) % size) k n ≡ oldest buffer size h (suc k) n
unfolding oldest
oldest-next buffer size h k zero = refl
oldest-next buffer size h k (suc n) =
    ap₂ ◌∷◌
      (ap (λ i. get_or buffer i no_entry)
        (mod-add-mod (h + 1) size k ∙ ap (λ v. v % size) (omega arith)))
      (oldest-next buffer size h (suc k) n)

-- Two positions less than a round apart are different.
mod-ne : (size h j m : ℕ) → h < size → j < m → m < size → (h + m) % size ≢ (h + j) % size
mod-ne size h j m hh hj hm = elim (dec_le size (h + m)) [
  | yes p ↦ elim (dec_le size (h + j)) [
    | yes q ↦ omega (
      arith,
      mod-eq-sub-mod {n = h + m} {m = size} p,
      mod-eq_of_lt {n = h + m - size} {m = size} (omega arith),
      mod-eq-sub-mod {n = h + j} {m = size} q,
      mod-eq_of_lt {n = h + j - size} {m = size} (omega arith),
    )
    | no q ↦ omega (
      arith,
      mod-eq-sub-mod {n = h + m} {m = size} p,
      mod-eq_of_lt {n = h + m - size} {m = size} (omega arith),
      mod-eq_of_lt {n = h + j} {m = size} (omega arith),
    )
  ]
  | no p ↦ omega (
    arith,
    mod-eq_of_lt {n = h + m} {m = size} (omega arith),
    mod-eq_of_lt {n = h + j} {m = size} (omega arith),
  )
]

-- A write behind the last entry extends the contents by it.
pub oldest-set :
    (buffer : List LogEntry) (e : LogEntry) (size h k n : ℕ)
    → length buffer ≡ size
    → h < size
    → k + n < size
    → oldest (set buffer ((h + (k + n)) % size) e) size h k (suc n)
      ≡ oldest buffer size h k n ++ (e ∷ [])
unfolding oldest
oldest-set buffer e size h k zero s hh hn =
    let same : h + (k + 0) ≡ h + k = omega arith in
    rw same (
      rw (
        get_or-set_self buffer ((h + k) % size) e no_entry
          (omega (arith, s, mod-lt (h + k) {m = size} (omega arith)))))
oldest-set buffer e size h k (suc n) s hh hn =
    ap₂ ◌∷◌
      (get_or-set_ne buffer e no_entry (mod-ne size h k (k + suc n) hh (omega arith) (omega arith)))
      ((ap (λ m. oldest (set buffer ((h + m) % size) e) size h (suc k) (suc n)) {x = k + suc n}
          (omega arith))
        ∙ oldest-set buffer e size h (suc k) n s hh (omega arith))
