-- ===== src/Cache/Ring.antt =====
-- Positions in the ring, and the entries that it holds, newest first.
use native.Mathlib.Nat.{mod-eq_of_lt, mod-eq-sub-mod}
use native.Mathlib.Decide.{dec_le}
use log_aggregator_c.Base.{
  ℕ, zero, suc, ◌+◌, ◌-◌, ◌%◌, ◌^◌, ◌≤◌, ◌<◌, ◌≡◌, refl, ap, ap₂, ◌∙◌, some, List, [], ◌∷◌, arith,
  length, get_or, take, drop, min,
}
use log_aggregator_c.LogEntry.{LogEntry, no_entry}
use log_aggregator_c.Cache.{Cache}

-- The position of the entry that was written with `k` later ones before `tail`.
abbrev pub slot : (capacity tail k : ℕ) → ℕ
slot capacity tail k = (tail + capacity - suc k) % capacity

-- The `n` entries that follow the `k` newest, newest first.
unfoldable pub newest : List LogEntry → (capacity tail k n : ℕ) → List LogEntry
newest cells capacity tail k zero = []
newest cells capacity tail k (suc n) =
    get_or cells (slot capacity tail k) no_entry ∷ newest cells capacity tail (suc k) n

-- What the cache holds, newest first: the view that the properties speak of.
abbrev pub recent : Cache → List LogEntry → List LogEntry
recent c cells = newest cells c.capacity c.tail 0 c.count

-- `cells` is the memory that the cache points to.
pub record IsValid (c : Cache) (cells : List LogEntry) : Type 0 where
  pub memory : c.cells ≡ some cells
  pub storage : length cells ≡ c.capacity
  pub positive : 0 < c.capacity
  pub small : c.capacity ≤ 2 ^ 30
  pub tail_in : c.tail < c.capacity
  pub head_in : c.head < c.capacity
  pub count_in : c.count ≤ c.capacity
  pub span : c.tail ≡ (c.head + c.count) % c.capacity

pub slot-lt : (size t k : ℕ) → 0 < size → slot size t k < size
slot-lt size t k h = grind arith

-- One step back round the ring.
pub slot-suc :
    (size t k : ℕ)
    → t < size
    → suc k < size
    → (slot size t k + size - 1) % size ≡ slot size t (suc k)
slot-suc size t k ht hk = elim (dec_le size (t + size - suc k)) [
  | yes p ↦
      let e : slot size t k ≡ t - suc k = omega (
        arith,
        mod-eq-sub-mod {n = t + size - suc k} {m = size} p,
        mod-eq_of_lt {n = t + size - suc k - size} {m = size} (omega arith),
      ) in
      rw e (ap (λ v. v % size) (omega arith))
  | no p ↦
      let e : slot size t k ≡ t + size - suc k = mod-eq_of_lt (omega arith) in
      rw e (
        omega (
          arith,
          mod-eq-sub-mod {n = t + size - suc k + size - 1} {m = size} (omega arith),
          mod-eq_of_lt {n = t + size - suc (suc k)} {m = size} (omega arith),
          mod-eq_of_lt {n = t + size - suc k + size - 1 - size} {m = size} (omega arith),
        ))
]

pub length-newest : (cells : List LogEntry) (size t k n : ℕ) → length (newest cells size t k n) ≡ n
unfolding newest
length-newest cells size t k zero = refl
length-newest cells size t k (suc n) = ap suc (length-newest cells size t (suc k) n)

pub drop-newest :
    (cells : List LogEntry) (size t k n o : ℕ)
    → drop o (newest cells size t k n) ≡ newest cells size t (k + o) (n - o)
unfolding newest
drop-newest cells size t k zero zero = refl
drop-newest cells size t k zero (suc o) = ap (newest cells size t (k + suc o)) {x = 0} (omega arith)
drop-newest cells size t k (suc n) zero =
    ap₂ (newest cells size t) {x = k} {u = suc n} (omega arith) (omega arith)
drop-newest cells size t k (suc n) (suc o) =
    drop-newest cells size t (suc k) n o
    ∙ ap₂ (newest cells size t) {x = suc k + o} {u = n - o} (omega arith) (omega arith)

pub take-newest :
    (cells : List LogEntry) (size t k n m : ℕ)
    → take m (newest cells size t k n) ≡ newest cells size t k (min m n)
unfolding newest
take-newest cells size t k n zero = ap (newest cells size t k) {x = 0} (omega arith)
take-newest cells size t k zero (suc m) = ap (newest cells size t k) {x = 0} (omega arith)
take-newest cells size t k (suc n) (suc m) =
    ap (λ l. get_or cells (slot size t k) no_entry ∷ l) (take-newest cells size t (suc k) n m)
    ∙ ap (newest cells size t k) {x = suc (min m n)} (omega arith)
