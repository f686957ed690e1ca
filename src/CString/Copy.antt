-- ===== src/CString/Copy.antt =====
-- strncpy with a 0 set behind it, and the string that the array holds then.
use log_aggregator_c.Base.{
  ℕ, zero, suc, ◌≡◌, refl, ap, Bool, true, false, Bool-cases, inl, inr, List, [], ◌∷◌, ◌++◌, ◌&&◌,
  arith, length, length-take, take, ◌==◌, ◌≤◌, sym, ◌∙◌, if◌then◌else◌,
}
use log_aggregator_c.CString.{c_str, str_eq, copy_field, toupper, upcase}

-- The `n` bytes that strncpy writes.
unfoldable pub field : ℕ → List ℕ → List ℕ
field zero src = []
field (suc n) [] = 0 ∷ field n []
field (suc n) (c ∷ cs) = if c == 0 then 0 ∷ field n [] else c ∷ field n cs

pub copy_field-eq-field :
    (dst src : List ℕ) (n : ℕ) → length dst ≡ suc n → copy_field dst src n ≡ field n src ++ (0 ∷ [])
unfolding copy_field field
copy_field-eq-field [] src n h = absurd (omega arith)
copy_field-eq-field (d ∷ []) src zero h = refl
copy_field-eq-field (d ∷ e ∷ dst) src zero h = absurd (omega arith)
copy_field-eq-field (d ∷ dst) [] (suc n) h =
    ap (λ l. 0 ∷ l) (copy_field-eq-field dst [] n (omega arith))
copy_field-eq-field (d ∷ dst) (c ∷ cs) (suc n) h = elim (Bool-cases (c == 0)) [
  | inl e ↦ rw e (ap (λ l. 0 ∷ l) (copy_field-eq-field dst [] n (omega arith)))
  | inr e ↦ rw e (ap (λ l. c ∷ l) (copy_field-eq-field dst cs n (omega arith)))
]

pub length-field : (n : ℕ) (src : List ℕ) → length (field n src) ≡ n
unfolding field
length-field zero src = refl
length-field (suc n) [] = ap suc (length-field n [])
length-field (suc n) (c ∷ cs) = elim (Bool-cases (c == 0)) [
  | inl e ↦ rw e (ap suc (length-field n []))
  | inr e ↦ rw e (ap suc (length-field n cs))
]

c_str-field_nil : (n : ℕ) → c_str (field n [] ++ (0 ∷ [])) ≡ []
unfolding c_str field
c_str-field_nil zero = refl
c_str-field_nil (suc n) = refl

-- The copied string is the source's, cut off behind `n` bytes.
pub c_str-field : (n : ℕ) (src : List ℕ) → c_str (field n src ++ (0 ∷ [])) ≡ take n (c_str src)
unfolding c_str field
c_str-field zero src = refl
c_str-field (suc n) [] = refl
c_str-field (suc n) (c ∷ cs) = elim (Bool-cases (c == 0)) [
  | inl e ↦ rw e refl
  | inr e ↦ rw e (rw e (ap (λ l. c ∷ l) (c_str-field n cs)))
]

-- The comparison of two sequences of bytes.
unfoldable pub bytes_eq : List ℕ → List ℕ → Bool
bytes_eq [] [] = true
bytes_eq [] (d ∷ ds) = false
bytes_eq (c ∷ cs) [] = false
bytes_eq (c ∷ cs) (d ∷ ds) = c == d && bytes_eq cs ds

-- strcmp compares the strings that the arrays hold, and nothing behind their ends.
pub str_eq-bytes_eq : (s t : List ℕ) → str_eq s t ≡ bytes_eq (c_str s) (c_str t)
unfolding str_eq c_str bytes_eq
str_eq-bytes_eq [] [] = refl
str_eq-bytes_eq [] (d ∷ ds) = ground arith
str_eq-bytes_eq (c ∷ cs) [] = ground arith
str_eq-bytes_eq (c ∷ cs) (d ∷ ds) = ground (arith, str_eq-bytes_eq cs ds)

-- A copy stops at the end of the string.
pub field-c_str : (n : ℕ) (s : List ℕ) → field n (c_str s) ≡ field n s
unfolding field c_str
field-c_str zero s = refl
field-c_str (suc n) [] = refl
field-c_str (suc n) (c ∷ cs) = elim (Bool-cases (c == 0)) [
  | inl e ↦ rw e refl
  | inr e ↦ rw e (rw e (ap (λ l. c ∷ l) (field-c_str n cs)))
]

-- An array of `suc n` bytes that looks as strncpy and the 0 behind it leave it.
abbrev pub IsField : ℕ → List ℕ → Type 0
IsField n s = field n s ++ (0 ∷ []) ≡ s

-- The string that such an array holds leaves room for its end.
pub IsField-short : (n : ℕ) {s : List ℕ} → IsField n s → length (c_str s) ≤ n
IsField-short n {s} h =
    let cut = c_str-field n s in
    let same = ap c_str h in omega (arith, ap length (sym same ∙ cut), length-take n (c_str s))

pub c_str-c_str : (s : List ℕ) → c_str (c_str s) ≡ c_str s
unfolding c_str
c_str-c_str [] = refl
c_str-c_str (c ∷ cs) = elim (Bool-cases (c == 0)) [
  | inl e ↦ rw e refl
  | inr e ↦ rw e (rw e (ap (λ l. c ∷ l) (c_str-c_str cs)))
]

pub field-IsField : (n : ℕ) (src : List ℕ) → IsField n (field n src ++ (0 ∷ []))
unfolding field
field-IsField zero src = refl
field-IsField (suc n) [] = refl
field-IsField (suc n) (c ∷ cs) = elim (Bool-cases (c == 0)) [
  | inl e ↦ rw e refl
  | inr e ↦ rw e (rw e (ap (λ l. c ∷ l) (field-IsField n cs)))
]

toupper-zero : (c : ℕ) → (toupper c == 0) ≡ (c == 0)
unfolding toupper
toupper-zero c = ground arith

upcase-field_nil : (n : ℕ) → upcase (field n [] ++ (0 ∷ [])) ≡ field n [] ++ (0 ∷ [])
unfolding upcase field
upcase-field_nil zero = refl
upcase-field_nil (suc n) = refl

-- Upper case keeps the shape.
pub upcase-IsField : (n : ℕ) (src : List ℕ) → IsField n (upcase (field n src ++ (0 ∷ [])))
unfolding upcase field
upcase-IsField zero src = refl
upcase-IsField (suc n) [] = refl
upcase-IsField (suc n) (c ∷ cs) = elim (Bool-cases (c == 0)) [
  | inl e ↦ rw e refl
  | inr e ↦ rw e (rw (e, toupper-zero c) (rw e (ap (λ l. toupper c ∷ l) (upcase-IsField n cs))))
]
