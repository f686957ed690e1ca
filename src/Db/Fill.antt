-- ===== src/Db/Fill.antt =====
-- The buffer of db_read_range: the sizes of its arrays, and the loop that fills it.
use log_aggregator_c.Base.{
  ℕ, zero, suc, ◌+◌, ◌≤◌, ◌<◌, ◌≡◌, ap, sym, ◌∙◌, some, List, [], ◌∷◌, ◌++◌, append-nil,
  append_assoc, map, arith, length, get_elem?, get_or, replicate, drop, length-append, length-drop,
  set-append_drop, store-eq-set, store, get_elem?-eq-get_or,
}
use log_aggregator_c.CString.Copy.{copy_field-eq-field}
use log_aggregator_c.LogEntry.{LogEntry, no_entry}
use log_aggregator_c.Cache.Scan.{overwrite}
use log_aggregator_c.Db.{Libpq, row_entry, fill_rows}
use log_aggregator_c.Db.Rows.{Row, entry_of, decoded}

-- The arrays of an entry in memory have their declared sizes.
pub record IsSized (e : LogEntry) : Type 0 where
  pub level_size : length e.level ≡ 16
  pub message_size : length e.message ≡ 256

abbrev pub AllSized : List LogEntry → Type 0
AllSized [] = Unit
AllSized (e ∷ es) = IsSized e × AllSized es

pub AllSized-replicate : (n : ℕ) (e : LogEntry) → IsSized e → AllSized (replicate n e)
AllSized-replicate zero e s = tt
AllSized-replicate (suc n) e s = (s, AllSized-replicate n e s)

get_or-IsSized :
    (es : List LogEntry) (i : ℕ) → AllSized es → i < length es → IsSized (get_or es i no_entry)
get_or-IsSized [] i s h = absurd (omega arith)
get_or-IsSized (e ∷ es) zero s h = s.0
get_or-IsSized (e ∷ es) (suc i) s h = get_or-IsSized es i s.1 (omega arith)

get_elem?-overwrite :
    (xs ys : List LogEntry)
    → length xs < length ys
    → get_elem? (overwrite xs ys) (length xs) ≡ some (get_or ys (length xs) no_entry)
get_elem?-overwrite [] ys h = get_elem?-eq-get_or (drop 0 ys) 0 no_entry (omega arith)
get_elem?-overwrite (x ∷ xs) [] h = absurd (omega arith)
get_elem?-overwrite (x ∷ xs) (y ∷ ys) h = get_elem?-overwrite xs ys (omega arith)

store-overwrite :
    (xs ys : List LogEntry) (e : LogEntry)
    → length xs < length ys
    → store (overwrite xs ys) (length xs) e ≡ some (overwrite (xs ++ (e ∷ [])) ys)
store-overwrite xs ys e h =
    store-eq-set (overwrite xs ys) (length xs) e
      (omega (arith, length-append xs (drop (length xs) ys), length-drop (length xs) ys))
    ∙ ap some (
        set-append_drop xs ys e h
        ∙ sym (append_assoc xs (e ∷ []) (drop (suc (length xs)) ys))
        ∙ ap (λ n. (xs ++ (e ∷ [])) ++ drop n ys) {x = suc (length xs)}
            (omega (arith, length-append xs (e ∷ []))))

module _ (pq : Libpq) (res : pq.Result) (buffer : List LogEntry) (sized : AllSized buffer) where
  abbrev row : ℕ → Row
  row i = record {
    timestamp = pq.getvalue res i 0;
    level = pq.getvalue res i 1;
    message = pq.getvalue res i 2;
  }

  row_entry-eq-entry_of :
      (i j : ℕ)
      → j < length buffer
      → row_entry pq res i (get_or buffer j no_entry) ≡ entry_of (row i)
  row_entry-eq-entry_of i j h =
      let s = get_or-IsSized buffer j sized h in
      rw (copy_field-eq-field _ (pq.getvalue res i 1) 15 s.level_size)
        (rw (copy_field-eq-field _ (pq.getvalue res i 2) 255 s.message_size))

  pub fill_rows_lem :
      (left : ℕ) (done : List LogEntry)
      → length done + left ≤ length buffer
      → fill_rows pq res left (length done) (overwrite done buffer)
        ≡ some (overwrite (done ++ map entry_of (decoded pq res left (length done))) buffer)
  unfolding fill_rows decoded
  fill_rows_lem zero done h = ap (λ l. some (overwrite l buffer)) (sym (append-nil done))
  fill_rows_lem (suc left) done h =
      let e = entry_of (row (length done)) in
      let n : length (done ++ (e ∷ [])) ≡ length done + 1 =
        omega (arith, length-append done (e ∷ [])) in
      rw (get_elem?-overwrite done buffer (omega arith)) (
        rw (row_entry-eq-entry_of (length done) (length done) (omega arith)) (
          rw (store-overwrite done buffer e (omega arith)) (
            rw (← n) (
              fill_rows_lem left (done ++ (e ∷ [])) (omega arith)
              ∙ ap (λ l. some (overwrite l buffer))
                  (append_assoc done (e ∷ [])
                    (map entry_of (decoded pq res left (length (done ++ (e ∷ []))))))))))
