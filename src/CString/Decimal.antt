-- ===== src/CString/Decimal.antt =====
-- Printing a number by "%ld" and reading it by strtol.
use native.Mathlib.Omega.{pow_step}
use log_aggregator_c.Base.{
  ℕ, zero, suc, ◌+◌, ◌-◌, ◌*◌, ◌/◌, ◌%◌, ◌≤◌, ◌<◌, ◌≡◌, ◌^◌, refl, ap, ◌∙◌, true, false, length,
  length-append, Bool-cases, inl, inr, ◌==◌, List, [], ◌∷◌, ◌++◌, append_assoc, ℤ, pos, negsuc,
  arith, ltb, lt→ltb, AllTrue,
}
use log_aggregator_c.CString.{
  c_str, digits_value, digits_of, read_int, strtol, saturate, FitsLong, print_int, is_digit, negate,
}

digits_value-cons :
    (acc c n : ℕ) (rest : List ℕ)
    → is_digit c ≡ true
    → acc * 10 + (c - b'0') ≡ n
    → digits_value acc (c ∷ rest) ≡ digits_value n rest
unfolding digits_value
digits_value-cons acc c n rest d e = rw d (ap (λ m. digits_value m rest) e)

digits_value-digits_of :
    (fuel n : ℕ) (rest : List ℕ)
    → n < fuel
    → digits_value 0 (digits_of fuel n ++ rest) ≡ digits_value n rest
unfolding digits_of
digits_value-digits_of zero n rest h = absurd (omega arith)
digits_value-digits_of (suc fuel) n rest h = elim (Bool-cases (ltb n 10)) [
  | inl small ↦
      rw small (digits_value-cons 0 (b'0' + n) n rest (ground (arith, small)) (omega arith))
  | inr large ↦ rw large (
      ap (digits_value 0) (append_assoc (digits_of fuel (n / 10)) ((b'0' + n % 10) ∷ []) rest)
      ∙ digits_value-digits_of fuel (n / 10) ((b'0' + n % 10) ∷ rest) (ground (arith, large))
      ∙ digits_value-cons (n / 10) (b'0' + n % 10) n rest (ground arith) (omega arith))
]

record StartsWithDigit (s : List ℕ) : Type 0 where
  first : ℕ
  others : List ℕ
  split : s ≡ first ∷ others
  low : b'0' ≤ first
  high : first ≤ b'9'

digits_of-StartsWithDigit :
    (fuel n : ℕ) (rest : List ℕ) → n < fuel → StartsWithDigit (digits_of fuel n ++ rest)
unfolding digits_of
digits_of-StartsWithDigit zero n rest h = absurd (omega arith)
digits_of-StartsWithDigit (suc fuel) n rest h = elim (Bool-cases (ltb n 10)) [
  | inl small ↦ rw small (record {
    first = b'0' + n;
    others = rest;
    split = refl;
    low = omega arith;
    high = ground (arith, small);
  })
  | inr large ↦
      let d =
        digits_of-StartsWithDigit fuel (n / 10) ((b'0' + n % 10) ∷ rest) (ground (arith, large)) in
      rw large (record {
        first = d.first;
        others = d.others;
        split = append_assoc (digits_of fuel (n / 10)) ((b'0' + n % 10) ∷ []) rest ∙ d.split;
        low = d.low;
        high = d.high;
      })
]

-- On a text that starts with a digit, read_int reads the digits.
read_int-StartsWithDigit : (s : List ℕ) → StartsWithDigit s → read_int s ≡ pos (digits_value 0 s)
unfolding read_int
read_int-StartsWithDigit s d = rw d.split (ground (arith, d.low, d.high))

digits_value-end : (n : ℕ) → digits_value n (0 ∷ []) ≡ n
unfolding digits_value
digits_value-end n = refl

read_int-digits_of : (n : ℕ) → read_int (digits_of (suc n) n ++ (0 ∷ [])) ≡ pos n
read_int-digits_of n =
    read_int-StartsWithDigit _ (digits_of-StartsWithDigit (suc n) n (0 ∷ []) (omega arith))
    ∙ ap pos (digits_value-digits_of (suc n) n (0 ∷ []) (omega arith) ∙ digits_value-end n)

-- What snprintf prints by "%d" or "%ld" spells the number.
pub read_int-print_int : (z : ℤ) → read_int (print_int z) ≡ z
unfolding print_int read_int
read_int-print_int (pos n) = read_int-digits_of n
read_int-print_int (negsuc n) =
    ap negate (
      digits_value-digits_of (suc (suc n)) (suc n) (0 ∷ []) (omega arith)
      ∙ digits_value-end (suc n))

digits_value-c_str : (acc : ℕ) (s : List ℕ) → digits_value acc (c_str s) ≡ digits_value acc s
unfolding digits_value c_str
digits_value-c_str acc [] = refl
digits_value-c_str acc (c ∷ cs) = elim (Bool-cases (c == 0)) [
  | inl e ↦ rw e (ground (arith, e))
  | inr e ↦ rw e (elim (Bool-cases (is_digit c)) [
    | inl d ↦ rw d (digits_value-c_str (acc * 10 + (c - b'0')) cs)
    | inr d ↦ rw d refl
  ])
]

-- A string is read, and nothing behind its end.
pub read_int-c_str : (s : List ℕ) → read_int (c_str s) ≡ read_int s
unfolding read_int c_str digits_value
read_int-c_str [] = refl
read_int-c_str (c ∷ cs) = elim (Bool-cases (c == 0)) [
  | inl e ↦ rw e (ground (arith, e))
  | inr e ↦ rw e (
      ground (
        arith,
        read_int-c_str cs,
        digits_value-c_str 0 cs,
        digits_value-c_str (0 * 10 + (c - b'0')) cs,
      ))
]

-- The characters that print_int prints, without the 0.
unfoldable pub number_of : ℤ → List ℕ
number_of (pos n) = digits_of (suc n) n
number_of (negsuc n) = b'-' ∷ digits_of (suc (suc n)) (suc n)

abbrev pub AllDigits : List ℕ → Type 0
AllDigits s = AllTrue is_digit s

AllDigits-append : (s t : List ℕ) → AllDigits s → AllDigits t → AllDigits (s ++ t)
AllDigits-append [] t d e = e
AllDigits-append (c ∷ s) t d e = (d.0, AllDigits-append s t d.1 e)

pub digits_of-AllDigits : (fuel n : ℕ) → AllDigits (digits_of fuel n)
unfolding digits_of
digits_of-AllDigits zero n = tt
digits_of-AllDigits (suc fuel) n = elim (Bool-cases (ltb n 10)) [
  | inl small ↦ rw small (ground (arith, small), tt)
  | inr large ↦ rw large (
      AllDigits-append (digits_of fuel (n / 10)) ((b'0' + n % 10) ∷ [])
        (digits_of-AllDigits fuel (n / 10)) (ground arith, tt))
]

c_str-AllDigits : (s : List ℕ) → AllDigits s → c_str (s ++ (0 ∷ [])) ≡ s
unfolding c_str
c_str-AllDigits [] d = refl
c_str-AllDigits (c ∷ cs) d =
    let z : (c == 0) ≡ false = ground (arith, d.0) in
    rw z (ap (λ l. c ∷ l) (c_str-AllDigits cs d.1))

pub c_str-print_int : (z : ℤ) → c_str (print_int z) ≡ number_of z
unfolding print_int number_of c_str
c_str-print_int (pos n) = c_str-AllDigits (digits_of (suc n) n) (digits_of-AllDigits (suc n) n)
c_str-print_int (negsuc n) =
    ap (λ l. b'-' ∷ l)
      (c_str-AllDigits (digits_of (suc (suc n)) (suc n))
        (digits_of-AllDigits (suc (suc n)) (suc n)))

digits_value-stop : (n c : ℕ) (rest : List ℕ) → is_digit c ≡ false → digits_value n (c ∷ rest) ≡ n
unfolding digits_value
digits_value-stop n c rest d = rw d refl

-- A number is read up to what is no digit.
pub read_int-number_of :
    (z : ℤ) (c : ℕ) (rest : List ℕ) → is_digit c ≡ false → read_int (number_of z ++ (c ∷ rest)) ≡ z
unfolding number_of read_int
read_int-number_of (pos n) c rest d =
    read_int-StartsWithDigit _ (digits_of-StartsWithDigit (suc n) n (c ∷ rest) (omega arith))
    ∙ ap pos
        (digits_value-digits_of (suc n) n (c ∷ rest) (omega arith) ∙ digits_value-stop n c rest d)
read_int-number_of (negsuc n) c rest d = ap negate (
    digits_value-digits_of (suc (suc n)) (suc n) (c ∷ rest) (omega arith)
    ∙ digits_value-stop (suc n) c rest d)

pub digits_of-non_empty : (fuel n : ℕ) → 0 < length (digits_of (suc fuel) n)
unfolding digits_of
digits_of-non_empty fuel n = elim (Bool-cases (ltb n 10)) [
  | inl small ↦ rw small (omega arith)
  | inr large ↦
      rw large (omega (arith, length-append (digits_of fuel (n / 10)) ((b'0' + n % 10) ∷ [])))
]

tenth : (k n : ℕ) → n < 10 ^ (suc k + 1) → n / 10 < 10 ^ (k + 1)
tenth k n h =
    let step : 10 ^ (suc k + 1) ≡ 10 * 10 ^ (k + 1) =
      ap (λ j. 10 ^ j) {y = suc (k + 1)} (omega arith) ∙ pow_step 10 (k + 1) in
    omega (arith, h, step)

-- A number below 10 ^ k has at most k digits, and a digit if k is 0.
pub length-digits_of : (fuel k n : ℕ) → n < 10 ^ (k + 1) → length (digits_of fuel n) ≤ k + 1
unfolding digits_of
length-digits_of zero k n h = omega arith
length-digits_of (suc fuel) zero n h = rw (lt→ltb n 10 (omega (arith, h))) (omega arith)
length-digits_of (suc fuel) (suc k) n h = elim (Bool-cases (ltb n 10)) [
  | inl small ↦ rw small (omega arith)
  | inr large ↦ rw large (
      omega (
        arith,
        length-append (digits_of fuel (n / 10)) ((b'0' + n % 10) ∷ []),
        length-digits_of fuel k (n / 10) (tenth k n h),
      ))
]

-- A `long` that snprintf prints by "%d" or "%ld" is the number that strtol reads from it.
pub strtol-print_int : (z : ℤ) → FitsLong z → strtol (print_int z) ≡ z
unfolding strtol
strtol-print_int z h = ap saturate (read_int-print_int z) ∙ h

pub strtol-c_str : (s : List ℕ) → strtol (c_str s) ≡ strtol s
unfolding strtol
strtol-c_str s = ap saturate (read_int-c_str s)

pub strtol-number_of :
    (z : ℤ) (c : ℕ) (rest : List ℕ)
    → FitsLong z
    → is_digit c ≡ false
    → strtol (number_of z ++ (c ∷ rest)) ≡ z
unfolding strtol
strtol-number_of z c rest h d = ap saturate (read_int-number_of z c rest d) ∙ h

saturate-FitsLong : (z : ℤ) → FitsLong (saturate z)
saturate-FitsLong (pos n) = elim (Bool-cases (ltb n (2 ^ 63))) [
  | inl small ↦ rw small (rw small refl)
  | inr large ↦ rw large refl
]
saturate-FitsLong (negsuc n) = elim (Bool-cases (ltb n (2 ^ 63))) [
  | inl small ↦ rw small (rw small refl)
  | inr large ↦ rw large refl
]

pub strtol-FitsLong : (s : List ℕ) → FitsLong (strtol s)
unfolding strtol
strtol-FitsLong s = saturate-FitsLong (read_int s)
