-- ===== src/Archive/RoundTrip.antt =====
-- What storage_write wrote, storage_read_last reads.
use mathlib.Core.List.{reverse-cons, map-append}
use mathlib.Core.Path.{subst}
use log_aggregator_c.Base.{
  ℕ, zero, suc, ◌+◌, ◌≤◌, ◌≡◌, refl, ap, ap₂, sym, ◌∙◌, true, Bool-cases, inl, inr, Option, some,
  List, [], ◌∷◌, ◌++◌, append_assoc, map, map-take, length-map, reverse, pos, arith, length,
  length-append, take, leb, ◌>>=◌, load, store,
}
use log_aggregator_c.LogEntry.{LogEntry}
use log_aggregator_c.Db.Fill.{AllSized}
use log_aggregator_c.Handlers.Fetch.{item_of}
use log_aggregator_c.Archive.{Storage, storage_write, storage_read_last}
use log_aggregator_c.Archive.Line.{IsPlain, scan_line-Scanned}
use log_aggregator_c.Archive.Search.{AllLines, text_of}
use log_aggregator_c.Archive.ReadLast.{read_last_lines}
use log_aggregator_c.Archive.Lines.{shown, scan_into, length-shown}
use log_aggregator_c.Archive.Body.{body_of, printed_line-body_of, body_of-IsLine}

abbrev pub AllPlain : List LogEntry → Type 0
AllPlain [] = Unit
AllPlain (e ∷ es) = IsPlain e × AllPlain es

AllLines-AllPlain : (es : List LogEntry) → AllPlain es → AllLines (map body_of es)
AllLines-AllPlain [] p = tt
AllLines-AllPlain (e ∷ es) p = (body_of-IsLine e p.0, AllLines-AllPlain es p.1)

-- storage_write of entries whose newest stands first and is written last.
abbrev pub write_news : List LogEntry → Storage → Option Storage
write_news [] s = some s
write_news (e ∷ es) s = do t ← write_news es s; r ← storage_write e t; some r.1

storage_write-text :
    (e : LogEntry) (text : List ℕ)
    → storage_write e (record { is_open = true; text = text })
      ≡ some (pos 0, record { is_open = true; text = text ++ (body_of e ++ (10 ∷ [])) })
unfolding storage_write
storage_write-text e text =
    ap (λ l. some (pos 0, record { is_open = true; text = text ++ l }))
      (sym (printed_line-body_of e))

write_news-text :
    (es : List LogEntry)
    → write_news es (record { is_open = true; text = [] })
      ≡ some (record { is_open = true; text = text_of (map body_of es) })
write_news-text [] = refl
write_news-text (e ∷ es) =
    rw (write_news-text es) (rw (storage_write-text e (text_of (map body_of es))) refl)

load-append :
    (done olds : List LogEntry) (x : LogEntry)
    → load (done ++ (x ∷ olds)) (pos (length done)) ≡ some x
load-append [] olds x = refl
load-append (d ∷ done) olds x = load-append done olds x

store-append :
    (done olds : List LogEntry) (x e : LogEntry)
    → store (done ++ (x ∷ olds)) (length done) e ≡ some ((done ++ (e ∷ [])) ++ olds)
store-append [] olds x e = refl
store-append (d ∷ done) olds x e = rw (store-append done olds x e) refl

-- The entries of a buffer behind those that are done, after reading.
record ReadAll (es done : List LogEntry) (o : Option (List LogEntry)) : Type 0 where
  news : List LogEntry
  rest : List LogEntry
  result : o ≡ some (done ++ (news ++ rest))
  same : map item_of news ≡ map item_of es

scan_into-ReadAll :
    (es done olds : List LogEntry)
    → AllPlain es
    → AllSized olds
    → length es ≤ length olds
    → ReadAll es done (scan_into (map body_of es) (done ++ olds) (length done))
scan_into-ReadAll [] done olds p v h = record { news = []; rest = olds; result = refl; same = refl }
scan_into-ReadAll (e ∷ es) done [] p v h = absurd (omega (arith, h))
scan_into-ReadAll (e ∷ es) done (x ∷ olds) p v h =
    let s = scan_line-Scanned e x p.0 v.0 in
    let r = scan_into-ReadAll es (done ++ (s.entry ∷ [])) olds p.1 v.1 (omega (arith, h)) in
    let next : length (done ++ (s.entry ∷ [])) ≡ length done + 1 =
      length-append done (s.entry ∷ []) in
    record {
      news = s.entry ∷ r.news;
      rest = r.rest;
      result = rw (load-append done olds x) (
          rw (printed_line-body_of e) (
            rw s.result (
              rw (store-append done olds x s.entry) (
                rw (sym next)
                  (r.result ∙ ap some (append_assoc done (s.entry ∷ []) (r.news ++ r.rest)))))));
      same = ap₂ ◌∷◌ s.same r.same;
    }

map-reverse {ℓ κ} :
    {A : Type ℓ} {B : Type κ} (f : A → B) (xs : List A) → map f (reverse xs) ≡ reverse (map f xs)
map-reverse f [] = refl
map-reverse f (x ∷ xs) =
    ap (map f) (reverse-cons x xs)
    ∙ map-append f (reverse xs) (x ∷ [])
    ∙ ap (λ l. l ++ (f x ∷ [])) (map-reverse f xs)
    ∙ sym (reverse-cons (f x) (map f xs))

map-shown :
    (limit : ℕ) (e : LogEntry) (es : List LogEntry)
    → map body_of (shown limit e es) ≡ shown limit (body_of e) (map body_of es)
map-shown limit e es = rw (length-map body_of es) (elim (Bool-cases (leb limit (length es))) [
  | inl le ↦
      rw le
        (map-reverse body_of (take limit (e ∷ es)) ∙ ap reverse (map-take body_of limit (e ∷ es)))
  | inr gt ↦ rw gt (map-reverse body_of es)
])

AllPlain-append : (es fs : List LogEntry) → AllPlain es → AllPlain fs → AllPlain (es ++ fs)
AllPlain-append [] fs p q = q
AllPlain-append (e ∷ es) fs p q = (p.0, AllPlain-append es fs p.1 q)

AllPlain-reverse : (es : List LogEntry) → AllPlain es → AllPlain (reverse es)
AllPlain-reverse [] p = tt
AllPlain-reverse (e ∷ es) p =
    subst AllPlain (sym (reverse-cons e es))
      (AllPlain-append (reverse es) (e ∷ []) (AllPlain-reverse es p.1) (p.0, tt))

AllPlain-take : (n : ℕ) (es : List LogEntry) → AllPlain es → AllPlain (take n es)
AllPlain-take zero es p = tt
AllPlain-take (suc n) [] p = tt
AllPlain-take (suc n) (e ∷ es) p = (p.0, AllPlain-take n es p.1)

AllPlain-shown :
    (limit : ℕ) (e : LogEntry) (es : List LogEntry)
    → AllPlain (e ∷ es)
    → AllPlain (shown limit e es)
AllPlain-shown limit e es p = elim (Bool-cases (leb limit (length es))) [
  | inl le ↦ rw le (AllPlain-reverse (take limit (e ∷ es)) (AllPlain-take limit (e ∷ es) p))
  | inr gt ↦ rw gt (AllPlain-reverse es p.1)
]

-- A file into which entries were written, and what is read from it.
pub record ReadBack (limit : ℕ) (newest : LogEntry) (olds buffer : List LogEntry) : Type 0 where
  pub file : Storage
  pub written : write_news (newest ∷ olds) (record { is_open = true; text = [] }) ≡ some file
  pub found : List LogEntry
  pub rest : List LogEntry
  pub result :
      storage_read_last (pos limit) (some file.text) buffer
      ≡ some (pos (length (shown limit newest olds)), found ++ rest)
  pub same : map item_of found ≡ map item_of (shown limit newest olds)

-- Let one or more entries be written to an empty file, each with a time of 64 bits, a level of one
-- word of at most 15 bytes, and a message of one line of at most 255 bytes that does not start with
-- white space, neither of them empty; and let a buffer have room for `limit` entries, with arrays of
-- the sizes that log_entry has. If fewer than all are
-- asked for, storage_read_last returns `limit` and gives the newest `limit` entries, the oldest of
-- them first; else it leaves out the newest entry, returns the number of the others and gives them.
-- Times are equal to those written, levels and messages are as strings.
pub storage_read_last-write_news :
    (limit : ℕ) (newest : LogEntry) (olds buffer : List LogEntry)
    → AllPlain (newest ∷ olds)
    → AllSized buffer
    → limit ≤ length buffer
    → ReadBack limit newest olds buffer
storage_read_last-write_news limit newest olds buffer p v h =
    let es = shown limit newest olds in
    let r =
      scan_into-ReadAll es [] buffer (AllPlain-shown limit newest olds p) v
        (omega (arith, h, length-shown limit newest olds)) in
    let m = map-shown limit newest olds in
    record {
      file = record { is_open = true; text = text_of (map body_of (newest ∷ olds)) };
      written = write_news-text (newest ∷ olds);
      found = r.news;
      rest = r.rest;
      result =
          read_last_lines limit (body_of newest) (map body_of olds) buffer
            (AllLines-AllPlain (newest ∷ olds) p)
          ∙ ap (λ ls. scan_into ls buffer 0 >>= λ b. some (pos (length ls), b)) (sym m)
          ∙ ap (λ o. o >>= λ b. some (pos (length (map body_of es)), b)) r.result
          ∙ ap (λ n. some (pos n, r.news ++ r.rest)) (length-map body_of es);
      same = r.same;
    }
