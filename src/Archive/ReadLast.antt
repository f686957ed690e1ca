-- ===== src/Archive/ReadLast.antt =====
-- The lines that storage_read_last reads.
use mathlib.Core.List.{reverse-cons}
use log_aggregator_c.Base.{
  ℕ, zero, suc, ◌+◌, ◌-◌, ◌<◌, ◌≡◌, refl, ap, sym, ◌∙◌, true, false, Option, some, List, [], ◌∷◌,
  ◌++◌, append-nil, append_assoc, reverse, ℤ, pos, arith, length, length-reverse, length-take,
  get_or, take, drop, drop-append, min, ◌==◌, ◌>>=◌,
}
use log_aggregator_c.LogEntry.{LogEntry}
use log_aggregator_c.Archive.{skip_newlines, find_lines, start_of, read_lines, storage_read_last}
use log_aggregator_c.Archive.Search.{
  IsLine, AllLines, text_of, find_lines_lem, find_lines-line, find_lines-stop, line-get_or,
  newline-get_or, length-text_of,
}
use log_aggregator_c.Archive.Lines.{
  lines_text, lines_text-append, scan_into, read_lines_lem, AllLines-reverse, AllLines-take, shown,
  take-shown, length-shown,
}

-- The file, cut in front of the newest `k` lines.
text_of-split :
    (k : ℕ) (ls : List (List ℕ))
    → text_of ls ≡ text_of (drop k ls) ++ lines_text (reverse (take k ls))
text_of-split zero ls = sym (append-nil (text_of ls))
text_of-split (suc k) [] = refl
text_of-split (suc k) (l ∷ ls) =
    ap (λ s. s ++ (l ++ (10 ∷ []))) (text_of-split k ls)
    ∙ append_assoc (text_of (drop k ls)) (lines_text (reverse (take k ls))) (l ++ (10 ∷ []))
    ∙ ap (λ s. text_of (drop k ls) ++ s)
        (sym (lines_text-append (reverse (take k ls)) (l ∷ []))
          ∙ ap lines_text (sym (reverse-cons l (take k ls))))

module _ (text : List ℕ) where
  skip_newlines-newline :
      (p : ℕ)
      → (get_or text (suc p) 0 == 10) ≡ true
      → skip_newlines text (suc p) ≡ skip_newlines text p
  unfolding skip_newlines
  skip_newlines-newline p e = rw e refl

  skip_newlines-byte : (p : ℕ) → (get_or text p 0 == 10) ≡ false → skip_newlines text p ≡ p
  unfolding skip_newlines
  skip_newlines-byte zero e = refl
  skip_newlines-byte (suc p) e = rw e refl

-- The first loop stops at the end of the newest line.
skip_newlines_lem :
    (l : List ℕ) (ls : List (List ℕ))
    → IsLine l
    → skip_newlines (text_of (l ∷ ls)) (length (text_of (l ∷ ls)) - 1) + 1
      ≡ length (text_of ls) + length l
skip_newlines_lem l ls v =
    let text = text_of (l ∷ ls) in
    let x = length (text_of ls) in
    let last : get_or text (suc (x + (length l - 1))) 0 ≡ 10 =
      ap (λ i. get_or text i 0) (omega (arith, v.non_empty)) ∙ newline-get_or (text_of ls) l [] in
    let before : (get_or text (x + (length l - 1)) 0 == 10) ≡ false =
      line-get_or (text_of ls) l (10 ∷ []) (length l - 1) v.no_newline
        (omega (arith, v.non_empty)) in
    ap (λ i. skip_newlines text i + 1) {y = suc (x + (length l - 1))}
      (omega (arith, v.non_empty, length-text_of l ls))
    ∙ ap (λ i. i + 1)
        (skip_newlines-newline text (x + (length l - 1)) (ap (λ b. b == 10) last)
          ∙ skip_newlines-byte text (x + (length l - 1)) before)
    ∙ omega (arith, v.non_empty)

-- storage_read_last behind the search.
abbrev read_found : List ℕ → List LogEntry → ℕ × ℕ → Option (ℤ × List LogEntry)
read_found text buffer (next, found) = read_lines found (drop (start_of next) text) buffer 0

storage_read_last-read_found :
    (limit : ℤ) (text : List ℕ) (buffer : List LogEntry)
    → 0 < length text
    → storage_read_last limit (some text) buffer
      ≡ read_found text buffer (find_lines text limit (skip_newlines text (length text - 1) + 1) 0)
unfolding storage_read_last
storage_read_last-read_found limit [] buffer h = absurd (omega arith)
storage_read_last-read_found limit (c ∷ cs) buffer h =
    ap
      (λ i. read_found (c ∷ cs) buffer (find_lines (c ∷ cs) limit (skip_newlines (c ∷ cs) i + 1) 0))
      {x = length cs} (omega arith)

module _ (l : List ℕ) (ls : List (List ℕ)) (buffer : List LogEntry) (c : AllLines (l ∷ ls)) where
  read_newest :
      (k stop : ℕ)
      → start_of stop ≡ length (text_of (drop k ls))
      → read_found (text_of (l ∷ ls)) buffer (stop, min (suc k) (length ls)) ≡ (
          scan_into (shown (suc k) l ls) buffer 0 >>= λ b.
          some (pos (length (shown (suc k) l ls)), b))
  read_newest k stop starts =
      let news = reverse (take (suc k) (l ∷ ls)) in
      let n = min (suc k) (length ls) in
      let left : drop (start_of stop) (text_of (l ∷ ls)) ≡ lines_text news =
        ap (λ i. drop i (text_of (l ∷ ls))) starts
        ∙ ap (drop (length (text_of (drop k ls)))) (text_of-split (suc k) (l ∷ ls))
        ∙ drop-append (text_of (drop k ls)) (lines_text news) in
      ap (λ t. read_lines n t buffer 0) left
      ∙ read_lines_lem n news buffer 0
          (AllLines-reverse (take (suc k) (l ∷ ls)) (AllLines-take (suc k) (l ∷ ls) c))
          (omega (arith, length-reverse (take (suc k) (l ∷ ls)), length-take (suc k) (l ∷ ls)))
      ∙ ap (λ t. scan_into t buffer 0 >>= λ b. some (pos (0 + n), b)) (take-shown (suc k) l ls)
      ∙ ap (λ m. scan_into (shown (suc k) l ls) buffer 0 >>= λ b. some (pos m, b)) {x = 0 + n}
          (omega (arith, length-shown (suc k) l ls))

  read_none :
      read_lines 0 (drop (start_of (length (text_of ls) + length l)) (text_of (l ∷ ls))) buffer 0
      ≡ (scan_into (shown 0 l ls) buffer 0 >>= λ b. some (pos (length (shown 0 l ls)), b))
  unfolding read_lines
  read_none =
      ap (λ t. scan_into t buffer 0 >>= λ b. some (pos (length t), b)) {x = []}
        (ap (λ n. take n (reverse (take 0 (l ∷ ls)))) {x = 0} (omega arith) ∙ take-shown 0 l ls)

  read_limit :
      (limit : ℕ)
      → read_found
          (text_of (l ∷ ls))
          buffer
          (find_lines (text_of (l ∷ ls)) (pos limit) (length (text_of ls) + length l) 0)
        ≡ (scan_into (shown limit l ls) buffer 0 >>= λ b. some (pos (length (shown limit l ls)), b))
  read_limit zero =
      ap (read_found (text_of (l ∷ ls)) buffer)
        (find_lines-stop (text_of (l ∷ ls)) (pos 0) (length (text_of ls) + length l) 0 refl)
      ∙ read_none
  read_limit (suc k) =
      let f =
        find_lines_lem (text_of (l ∷ ls)) (l ++ (10 ∷ [])) (suc k) ls 0 k c.1 refl (omega arith) in
      ap (read_found (text_of (l ∷ ls)) buffer) (
        find_lines-line (text_of (l ∷ ls)) [] (pos (suc k)) l ls 0 refl c.0.no_newline
          (ground arith)
        ∙ f.result
        ∙ ap (λ n. (f.stop, n)) {y = min (suc k) (length ls)} (omega arith))
      ∙ read_newest k f.stop f.starts

pub read_last_lines :
    (limit : ℕ) (l : List ℕ) (ls : List (List ℕ)) (buffer : List LogEntry)
    → AllLines (l ∷ ls)
    → storage_read_last (pos limit) (some (text_of (l ∷ ls))) buffer
      ≡ (scan_into (shown limit l ls) buffer 0 >>= λ b. some (pos (length (shown limit l ls)), b))
read_last_lines limit l ls buffer c =
    storage_read_last-read_found (pos limit) (text_of (l ∷ ls)) buffer
      (omega (arith, length-text_of l ls))
    ∙ ap (λ k. read_found (text_of (l ∷ ls)) buffer (find_lines (text_of (l ∷ ls)) (pos limit) k 0))
        (skip_newlines_lem l ls c.0)
    ∙ read_limit l ls buffer c limit
