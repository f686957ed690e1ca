-- ===== src/Archive/Search.antt =====
-- The two loops of storage_read_last that go back from the end of the file, on whole lines.
use log_aggregator_c.Base.{
  ℕ, zero, suc, ◌+◌, ◌≤◌, ◌<◌, ◌≡◌, refl, ap, sym, ◌∙◌, true, false, List, [], ◌∷◌, ◌++◌, ℤ, pos,
  arith, length, length-append, get_or, drop, drop_all, append_assoc, min, ltb_ℤ, ◌==◌,
}
use log_aggregator_c.Archive.{find_lines, start_of}

get_or-append : (xs ys : List ℕ) (i d : ℕ) → get_or (xs ++ ys) (length xs + i) d ≡ get_or ys i d
get_or-append [] ys i d = ap (λ j. get_or ys j d) {x = 0 + i} (omega arith)
get_or-append (x ∷ xs) ys i d =
    ap (λ j. get_or (x ∷ (xs ++ ys)) j d) {y = suc (length xs + i)} (omega arith)
    ∙ get_or-append xs ys i d

get_or-append_short :
    (xs ys : List ℕ) (i d : ℕ) → i < length xs → get_or (xs ++ ys) i d ≡ get_or xs i d
get_or-append_short [] ys i d h = absurd (omega arith)
get_or-append_short (x ∷ xs) ys zero d h = refl
get_or-append_short (x ∷ xs) ys (suc i) d h = get_or-append_short xs ys i d (omega arith)

-- The bytes of a line in front of its newline.
abbrev pub NoNewline : List ℕ → Type 0
NoNewline [] = Unit
NoNewline (c ∷ cs) = ((c == 10) ≡ false) × NoNewline cs

get_or-NoNewline : (l : List ℕ) (i : ℕ) → NoNewline l → i < length l → (get_or l i 0 == 10) ≡ false
get_or-NoNewline [] i c h = absurd (omega arith)
get_or-NoNewline (x ∷ l) zero c h = c.0
get_or-NoNewline (x ∷ l) (suc i) c h = get_or-NoNewline l i c.1 (omega arith)

-- Lines that fgets reads whole. The newest one stands first, as nowhere in the file.
pub record IsLine (l : List ℕ) : Type 0 where
  pub no_newline : NoNewline l
  pub non_empty : 0 < length l
  pub fits : length l ≤ 510

abbrev pub AllLines : List (List ℕ) → Type 0
AllLines [] = Unit
AllLines (l ∷ ls) = IsLine l × AllLines ls

abbrev pub text_of : List (List ℕ) → List ℕ
text_of [] = []
text_of (l ∷ ls) = text_of ls ++ (l ++ (10 ∷ []))

module _ (text : List ℕ) (limit : ℤ) where
  find_lines-byte :
      (n found : ℕ)
      → ltb_ℤ (pos found) limit ≡ true
      → (get_or text n 0 == 10) ≡ false
      → find_lines text limit (suc n) found ≡ find_lines text limit n found
  unfolding find_lines
  find_lines-byte n found h e = rw (h, e) refl

  find_lines-newline :
      (n found : ℕ)
      → ltb_ℤ (pos found) limit ≡ true
      → (get_or text n 0 == 10) ≡ true
      → find_lines text limit (suc n) found ≡ find_lines text limit n (found + 1)
  unfolding find_lines
  find_lines-newline n found h e = rw (h, e) refl

  pub find_lines-stop :
      (n found : ℕ) → ltb_ℤ (pos found) limit ≡ false → find_lines text limit n found ≡ (n, found)
  unfolding find_lines
  find_lines-stop zero found h = refl
  find_lines-stop (suc n) found h = rw h refl

  find_lines-start : (found : ℕ) → find_lines text limit 0 found ≡ (0, found)
  unfolding find_lines
  find_lines-start found = refl

  find_lines-run :
      (n m found : ℕ)
      → ltb_ℤ (pos found) limit ≡ true
      → ((i : ℕ) → i < m → (get_or text (n + i) 0 == 10) ≡ false)
      → find_lines text limit (n + m) found ≡ find_lines text limit n found
  find_lines-run n zero found h e = ap (λ k. find_lines text limit k found) {y = n} (omega arith)
  find_lines-run n (suc m) found h e =
      ap (λ k. find_lines text limit k found) {y = suc (n + m)} (omega arith)
      ∙ find_lines-byte (n + m) found h (e m (omega arith))
      ∙ find_lines-run n m found h (λ i lt. e i (omega (arith, lt)))

pub line-get_or :
    (xs l ys : List ℕ) (i : ℕ)
    → NoNewline l
    → i < length l
    → (get_or (xs ++ (l ++ ys)) (length xs + i) 0 == 10) ≡ false
line-get_or xs l ys i c h =
    ap (λ b. b == 10) (get_or-append xs (l ++ ys) i 0 ∙ get_or-append_short l ys i 0 h)
    ∙ get_or-NoNewline l i c h

pub newline-get_or :
    (xs l ys : List ℕ) → get_or (xs ++ (l ++ (10 ∷ ys))) (length xs + length l) 0 ≡ 10
newline-get_or xs l ys =
    get_or-append xs (l ++ (10 ∷ ys)) (length l) 0
    ∙ ap (λ i. get_or (l ++ (10 ∷ ys)) i 0) {y = length l + 0} (omega arith)
    ∙ get_or-append l (10 ∷ ys) 0 0

pub length-text_of :
    (l : List ℕ) (ls : List (List ℕ))
    → length (text_of (l ∷ ls)) ≡ suc (length (text_of ls) + length l)
length-text_of l ls =
    omega (arith, length-append (text_of ls) (l ++ (10 ∷ [])), length-append l (10 ∷ []))

start_of-pos : (n : ℕ) → 0 < n → start_of n ≡ n + 1
start_of-pos zero h = absurd (omega arith)
start_of-pos (suc n) h = refl

text-split :
    (text tail l : List ℕ) (ls : List (List ℕ))
    → text ≡ text_of (l ∷ ls) ++ tail
    → text ≡ text_of ls ++ (l ++ (10 ∷ tail))
text-split text tail l ls t =
    t
    ∙ append_assoc (text_of ls) (l ++ (10 ∷ [])) tail
    ∙ ap (λ s. text_of ls ++ s) (append_assoc l (10 ∷ []) tail)

-- Back over a newline, and back over the bytes of a line.
find_lines-last :
    (text tail : List ℕ) (limit : ℕ) (l : List ℕ) (ls : List (List ℕ)) (found : ℕ)
    → text ≡ text_of (l ∷ ls) ++ tail
    → found < limit
    → find_lines text (pos limit) (length (text_of (l ∷ ls))) found
      ≡ find_lines text (pos limit) (length (text_of ls) + length l) (found + 1)
find_lines-last text tail limit l ls found t h =
    let n = length (text_of ls) + length l in
    let e : get_or text n 0 ≡ 10 =
      ap (λ s. get_or s n 0) (text-split text tail l ls t) ∙ newline-get_or (text_of ls) l tail in
    ap (λ k. find_lines text (pos limit) k found) (length-text_of l ls)
    ∙ find_lines-newline text (pos limit) n found (ground (arith, h)) (ap (λ b. b == 10) e)

pub find_lines-line :
    (text tail : List ℕ) (limit : ℤ) (l : List ℕ) (ls : List (List ℕ)) (found : ℕ)
    → text ≡ text_of ls ++ (l ++ (10 ∷ tail))
    → NoNewline l
    → ltb_ℤ (pos found) limit ≡ true
    → find_lines text limit (length (text_of ls) + length l) found
      ≡ find_lines text limit (length (text_of ls)) found
find_lines-line text tail limit l ls found t c h =
    find_lines-run text limit (length (text_of ls)) (length l) found h (λ i lt.
      ap (λ s. get_or s (length (text_of ls) + i) 0 == 10) t
      ∙ line-get_or (text_of ls) l (10 ∷ tail) i c lt)

-- Where the search that needs `suc k` more newlines starts to read, and how many lines it found.
pub record Found (text : List ℕ) (limit : ℤ) (next found start total : ℕ) : Type 0 where
  pub stop : ℕ
  pub result : find_lines text limit next found ≡ (stop, total)
  pub starts : start_of stop ≡ start

pub find_lines_lem :
    (text tail : List ℕ) (limit : ℕ) (ls : List (List ℕ)) (found k : ℕ)
    → AllLines ls
    → text ≡ text_of ls ++ tail
    → found + suc k ≡ limit
    → Found text
        (pos limit)
        (length (text_of ls))
        found
        (length (text_of (drop k ls)))
        (found + min (suc k) (length ls))
find_lines_lem text tail limit [] found k c t h = record {
  stop = 0;
  result =
      find_lines-start text (pos limit) found
      ∙ ap (λ n. (0, n)) {y = found + min (suc k) 0} (omega arith);
  starts = ap (λ ls. length (text_of ls)) (sym (drop_all k [] (omega arith)));
}
find_lines_lem text tail limit (l ∷ ls) found zero c t h = record {
  stop = length (text_of ls) + length l;
  result =
      find_lines-last text tail limit l ls found t (omega (arith, h))
      ∙ find_lines-stop text (pos limit) (length (text_of ls) + length l) (found + 1)
          (ground (arith, h))
      ∙ ap (λ n. (length (text_of ls) + length l, n)) {y = found + min 1 (suc (length ls))}
          (omega arith);
  starts =
      start_of-pos (length (text_of ls) + length l) (omega (arith, c.0.non_empty))
      ∙ omega (arith, length-text_of l ls);
}
find_lines_lem text tail limit (l ∷ ls) found (suc k) c t h =
    let u = text-split text tail l ls t in
    let f =
      find_lines_lem text (l ++ (10 ∷ tail)) limit ls (found + 1) k c.1 u (omega (arith, h)) in
    record {
      stop = f.stop;
      result =
          find_lines-last text tail limit l ls found t (omega (arith, h))
          ∙ find_lines-line text tail (pos limit) l ls (found + 1) u c.0.no_newline
              (ground (arith, h))
          ∙ f.result
          ∙ ap (λ n. (f.stop, n)) {y = found + min (suc (suc k)) (suc (length ls))} (omega arith);
      starts = f.starts;
    }
