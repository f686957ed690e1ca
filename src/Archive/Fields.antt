-- ===== src/Archive/Fields.antt =====
-- What the conversions of sscanf make of the parts of a line.
use log_aggregator_c.Base.{
  ℕ, zero, suc, ◌≤◌, ◌<◌, ◌≡◌, refl, ap, ◌∙◌, Bool, false, not, Bool-cases, inl, inr, ◌==◌, ◌||◌,
  some, List, [], ◌∷◌, ◌++◌, ℤ, pos, negsuc, arith, length, AllTrue,
}
use log_aggregator_c.CString.{c_str, print_int, is_digit, is_space, digits_of}
use log_aggregator_c.CString.Decimal.{
  number_of, AllDigits, digits_of-AllDigits, c_str-print_int, digits_of-non_empty,
}
use log_aggregator_c.LogEntry.{LogEntry}
use log_aggregator_c.Archive.{printed_line, scan_while, skip_space, skip_sign, write_string}

pub scan_while-AllTrue :
    (n : ℕ) (test : ℕ → Bool) (s : List ℕ) (c : ℕ) (rest : List ℕ)
    → AllTrue test s
    → test c ≡ false
    → length s ≤ n
    → scan_while n test (s ++ (c ∷ rest)) ≡ (s, c ∷ rest)
unfolding scan_while
scan_while-AllTrue zero test [] c rest a e h = refl
scan_while-AllTrue zero test (d ∷ s) c rest a e h = absurd (omega arith)
scan_while-AllTrue (suc n) test [] c rest a e h = rw e refl
scan_while-AllTrue (suc n) test (d ∷ s) c rest a e h =
    rw (a.0)
      (ap (λ r. (d ∷ r.0, r.1)) (scan_while-AllTrue n test s c rest a.1 e (omega (arith, h))))

skip_space-none : (c : ℕ) (s : List ℕ) → is_space c ≡ false → skip_space (c ∷ s) ≡ c ∷ s
unfolding skip_space
skip_space-none c s e = rw e refl

pub skip_space-blank : (s : List ℕ) → skip_space (b' ' ∷ s) ≡ skip_space s
unfolding skip_space
skip_space-blank s = refl

c_str-append : (s t : List ℕ) → c_str (c_str s ++ t) ≡ c_str s ++ c_str t
unfolding c_str
c_str-append [] t = refl
c_str-append (c ∷ s) t = elim (Bool-cases (c == 0)) [
  | inl e ↦ rw e refl
  | inr e ↦ rw e (rw e (ap (λ l. c ∷ l) (c_str-append s t)))
]

-- No 0 in a line.
pub c_str-printed_line : (e : LogEntry) → c_str (printed_line e) ≡ printed_line e
unfolding printed_line c_str
c_str-printed_line e =
    c_str-append (print_int e.timestamp)
      (b' ' ∷ (c_str e.level ++ (b' ' ∷ (c_str e.message ++ (10 ∷ [])))))
    ∙ ap (λ s. c_str (print_int e.timestamp) ++ s)
        (c_str-blank (c_str e.level ++ (b' ' ∷ (c_str e.message ++ (10 ∷ []))))
          ∙ ap (λ s. b' ' ∷ s)
              (c_str-append e.level (b' ' ∷ (c_str e.message ++ (10 ∷ [])))
                ∙ ap (λ s. c_str e.level ++ s)
                    (c_str-blank (c_str e.message ++ (10 ∷ []))
                      ∙ ap (λ s. b' ' ∷ s)
                          (c_str-append e.message (10 ∷ [])
                            ∙ ap (λ s. c_str e.message ++ s) c_str-newline))))
  where
    c_str-blank : (s : List ℕ) → c_str (b' ' ∷ s) ≡ b' ' ∷ c_str s
    c_str-blank s = refl

    c_str-newline : c_str (10 ∷ []) ≡ 10 ∷ []
    c_str-newline = refl

pub printed_line-number_of :
    (e : LogEntry)
    → printed_line e
      ≡ number_of e.timestamp ++ (b' ' ∷ (c_str e.level ++ (b' ' ∷ (c_str e.message ++ (10 ∷ [])))))
unfolding printed_line
printed_line-number_of e =
    ap (λ s. s ++ (b' ' ∷ (c_str e.level ++ (b' ' ∷ (c_str e.message ++ (10 ∷ []))))))
      (c_str-print_int e.timestamp)

-- A string fits its array.
pub record Written (dst s : List ℕ) : Type 0 where
  pub array : List ℕ
  pub result : write_string dst s ≡ some array
  pub holds : c_str array ≡ s

Written-cons :
    (d : ℕ) {dst s : List ℕ} {c : ℕ} → (c == 0) ≡ false → Written dst s → Written (d ∷ dst) (c ∷ s)
unfolding write_string c_str
Written-cons d {c = c} e w = record {
  array = c ∷ w.array;
  result = rw w.result refl;
  holds = rw e (ap (λ l. c ∷ l) w.holds);
}

pub write_string-Written : (dst s : List ℕ) → length (c_str s) < length dst → Written dst (c_str s)
unfolding write_string c_str
write_string-Written [] s h = absurd (omega arith)
write_string-Written (d ∷ dst) [] h = record { array = 0 ∷ dst; result = refl; holds = refl }
write_string-Written (d ∷ dst) (c ∷ s) h = elim (Bool-cases (c == 0)) [
  | inl e ↦ rw e (record { array = 0 ∷ dst; result = refl; holds = refl })
  | inr e ↦ rw e (Written-cons d e (write_string-Written dst s (omega (arith, rw e at h))))
]

-- A text that starts with no white space.
pub record Begins (s : List ℕ) : Type 0 where
  pub first : ℕ
  pub others : List ℕ
  pub split : s ≡ first ∷ others
  pub dark : is_space first ≡ false

pub skip_space-Begins : (s t : List ℕ) → Begins s → skip_space (s ++ t) ≡ s ++ t
skip_space-Begins s t b = rw b.split (skip_space-none b.first (b.others ++ t) b.dark)

pub Begins-non_empty : {s : List ℕ} → Begins s → 0 < length s
Begins-non_empty b = omega (arith, ap length b.split)

pub Begins-AllTrue : (s : List ℕ) → AllTrue (λ c. not (is_space c)) s → 0 < length s → Begins s
Begins-AllTrue [] a h = absurd (omega arith)
Begins-AllTrue (c ∷ s) a h = record {
  first = c;
  others = s;
  split = refl;
  dark = ground (arith, a.0);
}

-- What the first conversion of the format makes of a printed number.
pub record Number (s : List ℕ) (n : ℕ) (rest : List ℕ) : Type 0 where
  pub digits : List ℕ
  pub result :
      scan_while n is_digit (skip_sign (skip_space (s ++ (b' ' ∷ rest)))) ≡ (digits, b' ' ∷ rest)
  pub some_digits : 0 < length digits

digits-Number :
    (s : List ℕ) (n : ℕ) (rest : List ℕ)
    → AllDigits s
    → 0 < length s
    → length s ≤ n
    → Number s n rest
digits-Number [] n rest d h l = absurd (omega arith)
digits-Number (c ∷ s) n rest d h l =
    let dark : is_space c ≡ false = ground (arith, d.0) in
    let no_sign : (c == b'-' || c == b'+') ≡ false = ground (arith, d.0) in
    record {
      digits = c ∷ s;
      result =
          rw (skip_space-none c (s ++ (b' ' ∷ rest)) dark, no_sign)
            (scan_while-AllTrue n is_digit (c ∷ s) (b' ') rest d refl l);
      some_digits = omega arith;
    }

pub number_of-Number :
    (z : ℤ) (n : ℕ) (rest : List ℕ) → length (number_of z) ≤ n → Number (number_of z) n rest
unfolding number_of
number_of-Number (pos m) n rest l =
    digits-Number (digits_of (suc m) m) n rest (digits_of-AllDigits (suc m) m)
      (digits_of-non_empty m m) l
number_of-Number (negsuc m) n rest l =
    let s = digits_of (suc (suc m)) (suc m) in
    record {
      digits = s;
      result =
          ap (λ t. scan_while n is_digit (skip_sign t))
            (skip_space-none (b'-') (s ++ (b' ' ∷ rest)) refl)
          ∙ scan_while-AllTrue n is_digit s (b' ') rest (digits_of-AllDigits (suc (suc m)) (suc m))
              refl (omega (arith, l));
      some_digits = digits_of-non_empty (suc m) (suc m);
    }

-- An entry that a line of the file can hold: a time of 64 bits, a level of one word and a message
