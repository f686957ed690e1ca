-- ===== src/Cache/Shift.antt =====
-- cache_insert in the ring: every older entry is one further back.
use native.Mathlib.Nat.{mod-eq_of_lt, mod-eq-sub-mod, mod-add-mod, mod-lt}
use native.Mathlib.Decide.{dec_le}
use log_aggregator_c.Base.{
  ℕ, zero, suc, ◌+◌, ◌-◌, ◌%◌, ◌<◌, ◌≡◌, ◌≢◌, refl, ap, ap₂, ◌∙◌, some, List, ◌∷◌, arith, length,
  set, take, get_or-set_ne, get_or-set_self, min, store-eq-set, length-set, ltb, sym, Bool-cases,
  inl, inr, take-cons, if◌then◌else◌,
}
use log_aggregator_c.LogEntry.{LogEntry, no_entry}
use log_aggregator_c.Cache.{Cache, cache_insert}
use log_aggregator_c.Cache.Ring.{slot, newest, recent, IsValid, take-newest}

-- After one insertion every older entry is one further back, and stands where it stood.
slot-shift :
    (size t k : ℕ) → t < size → suc k < size → slot size ((t + 1) % size) (suc k) ≡ slot size t k
slot-shift size t k ht hk = elim (dec_le size (t + 1)) [
  | yes p ↦
      let e : (t + 1) % size ≡ 0 = omega (
        arith,
        mod-eq-sub-mod {n = t + 1} {m = size} p,
        mod-eq_of_lt {n = t + 1 - size} {m = size} (omega arith),
      ) in
      rw e (
        omega (
          arith,
          mod-eq_of_lt {n = 0 + size - suc (suc k)} {m = size} (omega arith),
          mod-eq-sub-mod {n = t + size - suc k} {m = size} (omega arith),
          mod-eq_of_lt {n = t + size - suc k - size} {m = size} (omega arith),
        ))
  | no p ↦
      let e : (t + 1) % size ≡ t + 1 = mod-eq_of_lt (omega arith) in
      rw e (ap (λ v. v % size) (omega arith))
]

-- The entry just written stands directly before the new tail.
slot-tail : (size t : ℕ) → t < size → slot size ((t + 1) % size) 0 ≡ t
slot-tail size t ht = elim (dec_le size (t + 1)) [
  | yes p ↦
      let e : (t + 1) % size ≡ 0 = omega (
        arith,
        mod-eq-sub-mod {n = t + 1} {m = size} p,
        mod-eq_of_lt {n = t + 1 - size} {m = size} (omega arith),
      ) in
      rw e (omega (arith, mod-eq_of_lt {n = 0 + size - 1} {m = size} (omega arith)))
  | no p ↦
      let e : (t + 1) % size ≡ t + 1 = mod-eq_of_lt (omega arith) in
      rw e (
        omega (
          arith,
          mod-eq-sub-mod {n = t + 1 + size - 1} {m = size} (omega arith),
          mod-eq_of_lt {n = t + 1 + size - 1 - size} {m = size} (omega arith),
        ))
]

-- No entry but the one that is a whole round old stands at the tail.
slot-ne : (size t k : ℕ) → t < size → suc k < size → t ≢ slot size t k
slot-ne size t k ht hk = elim (dec_le size (t + size - suc k)) [
  | yes p ↦ omega (
    arith,
    mod-eq-sub-mod {n = t + size - suc k} {m = size} p,
    mod-eq_of_lt {n = t + size - suc k - size} {m = size} (omega arith),
  )
  | no p ↦ omega (arith, mod-eq_of_lt {n = t + size - suc k} {m = size} (omega arith))
]

newest-shift :
    (cells : List LogEntry) (e : LogEntry) (size t k n : ℕ)
    → t < size
    → k + n < size
    → newest (set cells t e) size ((t + 1) % size) (suc k) n ≡ newest cells size t k n
unfolding newest
newest-shift cells e size t k zero ht hn = refl
newest-shift cells e size t k (suc n) ht hn =
    ap₂ ◌∷◌
      (rw (slot-shift size t k ht (omega arith))
        (get_or-set_ne cells e no_entry (slot-ne size t k ht (omega arith))))
      (newest-shift cells e size t (suc k) n ht (omega arith))

newest-set :
    (cells : List LogEntry) (e : LogEntry) (size t n : ℕ)
    → length cells ≡ size
    → t < size
    → n < size
    → newest (set cells t e) size ((t + 1) % size) 0 (suc n) ≡ e ∷ newest cells size t 0 n
unfolding newest
newest-set cells e size t n hs ht hn =
    ap₂ ◌∷◌ (rw (slot-tail size t ht) (get_or-set_self cells t e no_entry (omega arith)))
      (newest-shift cells e size t 0 n ht (omega arith))

mod-suc : (size h n : ℕ) → (((h + n) % size) + 1) % size ≡ (h + (n + 1)) % size
mod-suc size h n = rw mod-add-mod (ap (λ v. v % size) (omega arith))

mod-suc_both : (size h : ℕ) → ((h + size) % size + 1) % size ≡ ((h + 1) % size + size) % size
mod-suc_both size h =
    mod-add-mod (h + size) size 1
    ∙ ap (λ v. v % size) (omega arith)
    ∙ sym (mod-add-mod (h + 1) size size)

module _ {c : Cache} {cells : List LogEntry} (v : IsValid c cells) (e : LogEntry) where
  abbrev pub after : Cache
  after =
      let c' = record c { cells = some (set cells c.tail e); tail = (c.tail + 1) % c.capacity } in
      if ltb c.count c.capacity
      then record c' { count = c.count + 1 }
      else record c' { head = (c.head + 1) % c.capacity }

  pub cache_insert-after : cache_insert c e ≡ some after
  unfolding cache_insert
  cache_insert-after =
      rw v.memory (rw (store-eq-set cells c.tail e (omega (arith, v.storage, v.tail_in))))

  pub after-IsValid : IsValid after (set cells c.tail e)
  after-IsValid = elim (Bool-cases (ltb c.count c.capacity)) [
    | inl room ↦ rw room (record {
      memory = refl;
      storage = length-set cells c.tail e ∙ v.storage;
      positive = v.positive;
      small = v.small;
      tail_in = mod-lt (c.tail + 1) v.positive;
      head_in = v.head_in;
      count_in = ground (arith, room);
      span = rw v.span (mod-suc c.capacity c.head c.count);
    })
    | inr full ↦
        let all : c.count ≡ c.capacity = ground (arith, full, v.count_in) in
        rw full (record {
          memory = refl;
          storage = length-set cells c.tail e ∙ v.storage;
          positive = v.positive;
          small = v.small;
          tail_in = mod-lt (c.tail + 1) v.positive;
          head_in = mod-lt (c.head + 1) v.positive;
          count_in = v.count_in;
          span = rw v.span (rw all (mod-suc_both c.capacity c.head));
        })
  ]

  -- Both branches of the `if` leave as many entries as fit.
  recent_of_count :
      (n : ℕ)
      → n ≡ suc (min (c.capacity - 1) c.count)
      → newest (set cells c.tail e) c.capacity ((c.tail + 1) % c.capacity) 0 n
        ≡ take c.capacity (e ∷ recent c cells)
  recent_of_count n h = rw h (
      newest-set cells e c.capacity c.tail (min (c.capacity - 1) c.count) v.storage v.tail_in
        (omega (arith, v.positive))
      ∙ ap (λ l. e ∷ l) (sym (take-newest cells c.capacity c.tail 0 c.count (c.capacity - 1)))
      ∙ sym (take-cons c.capacity e (recent c cells) v.positive))

  pub recent-after : recent after (set cells c.tail e) ≡ take c.capacity (e ∷ recent c cells)
  recent-after = elim (Bool-cases (ltb c.count c.capacity)) [
    | inl room ↦ rw room (recent_of_count (c.count + 1) (ground (arith, room)))
    | inr full ↦ rw full (recent_of_count c.count (ground (arith, full, v.count_in, v.positive)))
  ]
