-- ===== src/Archive/Body.antt =====
-- Printed entries are lines that fgets reads whole.
use log_aggregator_c.Base.{
  ℕ, suc, ◌+◌, ◌-◌, ◌≤◌, ◌<◌, ◌^◌, ◌≡◌, refl, ap, sym, ◌∙◌, Bool, true, false, Bool-cases, inl, inr,
  ◌==◌, List, [], ◌∷◌, ◌++◌, append_assoc, ℤ, pos, negsuc, arith, length, length-append, AllTrue,
  ltb, ltb→lt, pos_part, if◌then◌else◌,
}
use log_aggregator_c.CString.{c_str, FitsLong}
use log_aggregator_c.CString.Decimal.{number_of, digits_of-AllDigits, length-digits_of}
use log_aggregator_c.LogEntry.{LogEntry}
use log_aggregator_c.Archive.{printed_line}
use log_aggregator_c.Archive.Line.{IsPlain}
use log_aggregator_c.Archive.Fields.{printed_line-number_of}
use log_aggregator_c.Archive.Search.{NoNewline, IsLine}

-- A line of the file, without its newline.
abbrev pub body_of : LogEntry → List ℕ
body_of e = number_of e.timestamp ++ (b' ' ∷ (c_str e.level ++ (b' ' ∷ c_str e.message)))

pub printed_line-body_of : (e : LogEntry) → body_of e ++ (10 ∷ []) ≡ printed_line e
printed_line-body_of e =
    append_assoc (number_of e.timestamp) (b' ' ∷ (c_str e.level ++ (b' ' ∷ c_str e.message)))
      (10 ∷ [])
    ∙ ap (λ s. number_of e.timestamp ++ (b' ' ∷ s))
        (append_assoc (c_str e.level) (b' ' ∷ c_str e.message) (10 ∷ []))
    ∙ sym (printed_line-number_of e)

NoNewline-append : (s t : List ℕ) → NoNewline s → NoNewline t → NoNewline (s ++ t)
NoNewline-append [] t c d = d
NoNewline-append (x ∷ s) t c d = (c.0, NoNewline-append s t c.1 d)

NoNewline-AllTrue :
    (test : ℕ → Bool) (s : List ℕ)
    → ((c : ℕ) → test c ≡ true → (c == 10) ≡ false)
    → AllTrue test s
    → NoNewline s
NoNewline-AllTrue test [] h a = tt
NoNewline-AllTrue test (c ∷ s) h a = (h c a.0, NoNewline-AllTrue test s h a.1)

number_of-NoNewline : (z : ℤ) → NoNewline (number_of z)
unfolding number_of
number_of-NoNewline (pos n) =
    NoNewline-AllTrue _ _ (λ c d. ground (arith, d)) (digits_of-AllDigits (suc n) n)
number_of-NoNewline (negsuc n) = (
  refl,
  NoNewline-AllTrue _ _ (λ c d. ground (arith, d)) (digits_of-AllDigits (suc (suc n)) (suc n)),
)

saturate-below : (n : ℕ) → (if ltb n (2 ^ 63) then n else 2 ^ 63 - 1) ≡ n → n + 1 < 10 ^ 19
saturate-below n h = elim (Bool-cases (ltb n (2 ^ 63))) [
  | inl small ↦ omega (arith, ltb→lt n (2 ^ 63) small)
  | inr large ↦ let h' = rw large at h in omega (arith, h')
]

-- The place of a negative number below -1.
abbrev neg_below : ℤ → ℕ
neg_below (pos n) = 0
neg_below (negsuc n) = n

length-number_of : (z : ℤ) → FitsLong z → length (number_of z) ≤ 20
unfolding number_of
length-number_of (pos n) h =
    let d = length-digits_of (suc n) 18 n (omega (arith, saturate-below n (ap pos_part h))) in
    omega (arith, d)
length-number_of (negsuc n) h =
    let below : suc n < 10 ^ 19 = omega (arith, saturate-below n (ap neg_below h)) in
    let d = length-digits_of (suc (suc n)) 18 (suc n) below in omega (arith, d)

pub body_of-IsLine : (e : LogEntry) → IsPlain e → IsLine (body_of e)
body_of-IsLine e p =
    let level = c_str e.level in
    let message = c_str e.message in
    let number = number_of e.timestamp in
    let lm = length-append level (b' ' ∷ message) in
    let all = length-append number (b' ' ∷ (level ++ (b' ' ∷ message))) in
    record {
      no_newline =
          NoNewline-append number (b' ' ∷ (level ++ (b' ' ∷ message)))
            (number_of-NoNewline e.timestamp)
            (
              refl,
              NoNewline-append level (b' ' ∷ message)
                  (NoNewline-AllTrue _ level (λ c d. ground (arith, d)) p.one_word)
                  (refl, NoNewline-AllTrue _ message (λ c d. ground (arith, d)) p.one_line),
            );
      non_empty = omega (arith, all);
      fits =
          omega (arith, lm, all, length-number_of e.timestamp p.time, p.level_size, p.message_size);
    }
