-- ===== src/Archive/Lines.antt =====
-- Lines read from the file into the buffer, and those that a limit asks for.
use mathlib.Core.List.{reverse-cons}
use mathlib.Core.Path.{subst}
use log_aggregator_c.Base.{
  ℕ, zero, suc, ◌+◌, ◌≤◌, ◌<◌, ◌≡◌, refl, ap, sym, ◌∙◌, Bool-cases, inl, inr, Option, none, some,
  List, [], ◌∷◌, ◌++◌, append_assoc, reverse, pos, arith, length, length-reverse, length-take, take,
  take_all, take-append_short, min, leb, leb→le, if◌then◌else◌, ◌>>=◌, load, store,
}
use log_aggregator_c.LogEntry.{LogEntry}
use log_aggregator_c.Archive.{fgets, scan_line, read_lines}
use log_aggregator_c.Archive.Search.{NoNewline, AllLines}

-- The text of lines that stand in the order of the file.
abbrev pub lines_text : List (List ℕ) → List ℕ
lines_text [] = []
lines_text (l ∷ ls) = l ++ (10 ∷ lines_text ls)

pub lines_text-append :
    (ls ms : List (List ℕ)) → lines_text (ls ++ ms) ≡ lines_text ls ++ lines_text ms
lines_text-append [] ms = refl
lines_text-append (l ∷ ls) ms =
    ap (λ s. l ++ (10 ∷ s)) (lines_text-append ls ms)
    ∙ sym (append_assoc l (10 ∷ lines_text ls) (lines_text ms))

fgets-line :
    (n : ℕ) (l rest : List ℕ)
    → NoNewline l
    → length l < n
    → fgets n (l ++ (10 ∷ rest)) ≡ (l ++ (10 ∷ []), rest)
unfolding fgets
fgets-line zero l rest c h = absurd (omega arith)
fgets-line (suc n) [] rest c h = refl
fgets-line (suc n) (x ∷ l) rest c h =
    rw c.0 (ap (λ r. (x ∷ r.0, r.1)) (fgets-line n l rest c.1 (omega (arith, h))))

-- The lines, read by sscanf into successive entries of the buffer.
abbrev pub scan_into : List (List ℕ) → List LogEntry → (count : ℕ) → Option (List LogEntry)
scan_into [] buffer count = some buffer
scan_into (l ∷ ls) buffer count = do
  old ← load buffer (pos count)
  entry ← scan_line (l ++ (10 ∷ [])) old
  buffer' ← store buffer count entry
  scan_into ls buffer' (count + 1)

bind-bind :
    {A B C : Type 0} (o : Option A) (m : A → Option B) (f : B → Option C) {k : A → Option C}
    → ((a : A) → k a ≡ (m a >>= f))
    → (o >>= k) ≡ ((o >>= m) >>= f)
bind-bind none m f e = refl
bind-bind (some a) m f e = e a

pub read_lines_lem :
    (n : ℕ) (ls : List (List ℕ)) (buffer : List LogEntry) (count : ℕ)
    → AllLines ls
    → n ≤ length ls
    → read_lines n (lines_text ls) buffer count
      ≡ (scan_into (take n ls) buffer count >>= λ b. some (pos (count + n), b))
unfolding read_lines
read_lines_lem zero ls buffer count c h =
    ap (λ k. some (pos k, buffer)) {y = count + 0} (omega arith)
read_lines_lem (suc n) [] buffer count c h = absurd (omega arith)
read_lines_lem (suc n) ([] ∷ ls) buffer count c h = absurd (omega (arith, c.0.non_empty))
read_lines_lem (suc n) ((x ∷ l) ∷ ls) buffer count c h =
    rw (fgets-line 511 (x ∷ l) (lines_text ls) c.0.no_newline (omega (arith, c.0.fits))) (
      bind-bind (load buffer (pos count)) _ _ λ old.
        bind-bind (scan_line (x ∷ (l ++ (10 ∷ []))) old) _ _ λ entry.
          bind-bind (store buffer count entry) _ _ λ buffer'.
            read_lines_lem n ls buffer' (count + 1) c.1 (omega (arith, h))
            ∙ ap (λ k. scan_into (take n ls) buffer' (count + 1) >>= λ b. some (pos k, b))
                {x = count + 1 + n} (omega arith))

AllLines-append : (ls ms : List (List ℕ)) → AllLines ls → AllLines ms → AllLines (ls ++ ms)
AllLines-append [] ms c d = d
AllLines-append (l ∷ ls) ms c d = (c.0, AllLines-append ls ms c.1 d)

pub AllLines-reverse : (ls : List (List ℕ)) → AllLines ls → AllLines (reverse ls)
AllLines-reverse [] c = tt
AllLines-reverse (l ∷ ls) c =
    subst AllLines (sym (reverse-cons l ls))
      (AllLines-append (reverse ls) (l ∷ []) (AllLines-reverse ls c.1) (c.0, tt))

pub AllLines-take : (n : ℕ) (ls : List (List ℕ)) → AllLines ls → AllLines (take n ls)
AllLines-take zero ls c = tt
AllLines-take (suc n) [] c = tt
AllLines-take (suc n) (l ∷ ls) c = (c.0, AllLines-take n ls c.1)

-- The lines of a file with more than one line that a limit asks for, oldest first. One that asks
-- for all of them gets all but the newest.
abbrev pub shown {ℓ} : {A : Type ℓ} → (limit : ℕ) → (newest : A) → (olds : List A) → List A
shown limit newest olds =
    if leb limit (length olds) then reverse (take limit (newest ∷ olds)) else reverse olds

pub take-shown {ℓ} :
    {A : Type ℓ} (limit : ℕ) (newest : A) (olds : List A)
    → take (min limit (length olds)) (reverse (take limit (newest ∷ olds)))
      ≡ shown limit newest olds
take-shown limit newest olds = elim (Bool-cases (leb limit (length olds))) [
  | inl le ↦ rw le (
      take_all (min limit (length olds)) (reverse (take limit (newest ∷ olds))) (
        omega (
          arith,
          leb→le limit (length olds) le,
          length-reverse (take limit (newest ∷ olds)),
          length-take limit (newest ∷ olds),
        )))
  | inr gt ↦
      let lt : length olds < limit = ground (arith, gt) in
      let same = length-reverse olds in
      rw gt (
        ap (λ l. take (min limit (length olds)) (reverse l))
          (take_all limit (newest ∷ olds) (omega (arith, lt)))
        ∙ ap (take (min limit (length olds))) (reverse-cons newest olds)
        ∙ take-append_short (min limit (length olds)) (reverse olds) (newest ∷ [])
            (omega (arith, same))
        ∙ take_all (min limit (length olds)) (reverse olds) (omega (arith, lt, same)))
]

pub length-shown {ℓ} :
    {A : Type ℓ} (limit : ℕ) (newest : A) (olds : List A)
    → length (shown limit newest olds) ≡ min limit (length olds)
length-shown limit newest olds =
    ap length (sym (take-shown limit newest olds))
    ∙ length-take (min limit (length olds)) (reverse (take limit (newest ∷ olds)))
    ∙ omega (arith, length-reverse (take limit (newest ∷ olds)), length-take limit (newest ∷ olds))
