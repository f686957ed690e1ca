-- ===== src/Base/Fault.antt =====
-- Code with undefined behaviour: `none` is a fault, such as a read or a write out of bounds.
use Prim.Native.Nat.{ℕ, ◌<◌, suc, zero}
use mathlib.Core.Path.{◌≡◌, refl, ap}
use mathlib.Core.List.{List, [], ◌∷◌}
use mathlib.Core.Option.{Option, none, some}
use native.Mathlib.Omega.{arith}
use log_aggregator_c.Base.Lists.{length, get_elem?, set}
use log_aggregator_c.Base.Int.{ℤ, pos, negsuc}

infixl 5 ◌>>=◌ ◌>>◌
abbrev pub ◌>>=◌ {ℓ κ} : {A : Type ℓ} {B : Type κ} → Option A → (A → Option B) → Option B
none >>= f = none
some a >>= f = f a

abbrev pub ◌>>◌ {ℓ κ} : {A : Type ℓ} {B : Type κ} → Option A → Option B → Option B
m >> k = m >>= λ _. k

module _ {ℓ} {A : Type ℓ} where
  -- xs[i]
  abbrev pub load : List A → ℤ → Option A
  load xs (pos i) = get_elem? xs i
  load xs (negsuc i) = none

  -- xs[i] = v
  abbrev pub store : List A → ℕ → A → Option (List A)
  store [] i v = none
  store (x ∷ xs) zero v = some (v ∷ xs)
  store (x ∷ xs) (suc i) v = store xs i v >>= λ ys. some (x ∷ ys)

  pub store-eq-set :
      (xs : List A) (i : ℕ) (v : A) → i < length xs → store xs i v ≡ some (set xs i v)
  store-eq-set [] i v h = absurd (omega arith)
  store-eq-set (x ∷ xs) zero v h = refl
  store-eq-set (x ∷ xs) (suc i) v h =
      ap (λ o. o >>= λ ys. some (x ∷ ys)) (store-eq-set xs i v (omega arith))
