-- ===== src/Cache/Scan.antt =====
-- The loop of cache_get_range over the ring.
use native.Mathlib.Nat.{sub-eq-zero_of_le}
use log_aggregator_c.Base.{
  append-nil, length-drop, take-cons, take-nil, ℕ, zero, suc, ◌+◌, ◌-◌, ◌%◌, ◌^◌, ◌≤◌, ◌<◌, ◌≡◌,
  refl, ap, sym, ◌∙◌, true, false, Bool-cases, inl, inr, Option, some, List, [], ◌∷◌, ◌++◌, arith,
  length, get_or, drop, take, filter_if, ℤ, pos, sub32, add32, rem32, sub32-sub32, add32-sub32,
  load, store-eq-set, set-append_drop, get_elem?-eq-get_or, length-append, append_assoc, ltb_ℤ,
}
use log_aggregator_c.LogEntry.{LogEntry, no_entry}
use log_aggregator_c.Cache.{matches, keep, scan}
use log_aggregator_c.Cache.Ring.{slot, newest, slot-lt, slot-suc}

-- The entries of a page: the first `limit` that match among those behind the `offset` newest.
abbrev pub page_of : ℕ → ℕ → Option (List ℕ) → List LogEntry → List LogEntry
page_of limit offset level entries = take limit (filter_if (matches level) (drop offset entries))

-- What the buffer holds after its first entries have been replaced by those of `answer`.
abbrev pub overwrite : List LogEntry → List LogEntry → List LogEntry
overwrite answer buffer = answer ++ drop (length answer) buffer

prev_index :
    (size i : ℕ)
    → i < size
    → size ≤ 2 ^ 30
    → rem32 (add32 (sub32 (pos i) (pos 1)) (pos size)) size ≡ pos ((i + size - 1) % size)
unfolding rem32
prev_index size i h k =
    ap (λ z. rem32 z size) (add32-sub32 i 1 size (omega arith) (omega arith) k (omega arith))

pub first_index :
    (size t o : ℕ)
    → t < size
    → o < size
    → size ≤ 2 ^ 30
    → rem32 (add32 (sub32 (sub32 (pos t) (pos 1)) (pos o)) (pos size)) size ≡ pos (slot size t o)
unfolding rem32
first_index size t o ht ho k =
    ap (λ z. rem32 (add32 z (pos size)) size) (sub32-sub32 t 1 o (omega arith) (omega arith))
    ∙ ap (λ z. rem32 z size)
        (add32-sub32 t (1 + o) size (omega arith) (omega arith) k (omega arith))
    ∙ ap (λ n. pos (n % size)) (omega arith)

module _ (cells : List LogEntry) (size t limit : ℕ) (level : Option (List ℕ)) where
  abbrev pub found : (k left : ℕ) → (done : List LogEntry) → List LogEntry
  found k left done =
      done ++ take (limit - length done) (filter_if (matches level) (newest cells size t k left))

  abbrev answer : List LogEntry → List LogEntry → Option (ℕ × List LogEntry)
  answer buffer done = some (length done, overwrite done buffer)

  -- The loop stops at once when the limit is reached.
  found_done : (k left : ℕ) (done : List LogEntry) → limit ≤ length done → found k left done ≡ done
  found_done k left done h = rw (sub-eq-zero_of_le h) (append-nil done)

  found_match :
      (k left : ℕ) (done : List LogEntry)
      → length done < limit
      → matches level (get_or cells (slot size t k) no_entry) ≡ true
      → found k (suc left) done
        ≡ found (suc k) left (done ++ (get_or cells (slot size t k) no_entry ∷ []))
  unfolding newest
  found_match k left done h m = rw m (
      rw (length-append done (get_or cells (slot size t k) no_entry ∷ [])) (
        ap (λ l. done ++ l)
          (take-cons (limit - length done) (get_or cells (slot size t k) no_entry)
              (filter_if (matches level) (newest cells size t (suc k) left)) (omega arith)
            ∙ ap
                (λ n.
                  get_or cells (slot size t k) no_entry
                  ∷ take n (filter_if (matches level) (newest cells size t (suc k) left)))
                (omega arith))
        ∙ sym (
            append_assoc done (get_or cells (slot size t k) no_entry ∷ []) (
              take (limit - (length done + 1))
                (filter_if (matches level) (newest cells size t (suc k) left))))))

  found_skip :
      (k left : ℕ) (done : List LogEntry)
      → matches level (get_or cells (slot size t k) no_entry) ≡ false
      → found k (suc left) done ≡ found (suc k) left done
  unfolding newest
  found_skip k left done m = rw m

  keep_match :
      (e : LogEntry) (done buffer : List LogEntry)
      → length done < length buffer
      → matches level e ≡ true
      → keep level e (length done) (overwrite done buffer)
        ≡ some (length (done ++ (e ∷ [])), overwrite (done ++ (e ∷ [])) buffer)
  keep_match e done buffer h m = rw m (
      rw
        (store-eq-set (overwrite done buffer) (length done) e (
          omega (
            arith,
            length-append done (drop (length done) buffer),
            length-drop (length done) buffer,
          )))
        (rw (length-append done (e ∷ [])) (
          ap (λ l. some (length done + 1, l))
            (set-append_drop done buffer e h
              ∙ sym (append_assoc done (e ∷ []) (drop (suc (length done)) buffer))
              ∙ ap (λ n. (done ++ (e ∷ [])) ++ drop n buffer) {x = suc (length done)}
                  (omega arith)))))

  -- One turn of the loop whose test passes.
  scan_turn :
      (left matched matched' : ℕ) (index : ℤ) (e : LogEntry) (buffer buffer' : List LogEntry)
      → matched < limit
      → load cells index ≡ some e
      → keep level e matched buffer ≡ some (matched', buffer')
      → scan cells size (pos limit) level (suc left) index matched buffer
        ≡ scan cells size
            (pos limit)
            level
            left
            (rem32 (add32 (sub32 index (pos 1)) (pos size)) size)
            matched'
            buffer'
  unfolding scan
  scan_turn left matched matched' index e buffer buffer' more read kept =
      let test : ltb_ℤ (pos matched) (pos limit) ≡ true = ground arith in
      rw (test, scan) (rw read (rw kept))

  scan_stop :
      (left : ℕ) (index : ℤ) (done buffer : List LogEntry)
      → ltb_ℤ (pos (length done)) (pos limit) ≡ false
      → scan cells size (pos limit) level left index (length done) buffer
        ≡ some (length done, buffer)
  unfolding scan
  scan_stop zero index done buffer stop = refl
  scan_stop (suc left) index done buffer stop = rw (stop, scan)

  module _ (buffer : List LogEntry) (storage : length cells ≡ size) (t_in : t < size)
      (small : size ≤ 2 ^ 30) (room : limit ≤ length buffer) where
    abbrev entry_at : ℕ → LogEntry
    entry_at k = get_or cells (slot size t k) no_entry

    read_at :
        (k : ℕ) (index : ℤ) → index ≡ pos (slot size t k) → load cells index ≡ some (entry_at k)
    read_at k index e = rw e (
        get_elem?-eq-get_or cells (slot size t k) no_entry
          (omega (arith, storage, slot-lt size t k (omega arith))))

    index_next :
        (k left : ℕ) (index : ℤ)
        → k + suc left ≤ size
        → index ≡ pos (slot size t k)
        → 0 < left
        → rem32 (add32 (sub32 index (pos 1)) (pos size)) size ≡ pos (slot size t (suc k))
    index_next k left index h e more = rw e (
        prev_index size (slot size t k) (slot-lt size t k (omega arith)) small
        ∙ ap pos (slot-suc size t k t_in (omega arith)))

    scan_step :
        (k left : ℕ) (index : ℤ) (done : List LogEntry)
        → k + suc left ≤ size
        → index ≡ pos (slot size t k)
        → length done < limit
        → ((index' : ℤ) (done' : List LogEntry)
            → (0 < left → index' ≡ pos (slot size t (suc k)))
            → scan cells size (pos limit) level left index' (length done') (overwrite done' buffer)
              ≡ answer buffer (found (suc k) left done'))
        → scan cells size (pos limit) level (suc left) index (length done) (overwrite done buffer)
          ≡ answer buffer (found k (suc left) done)
    scan_step k left index done h e more ih = elim (Bool-cases (matches level (entry_at k))) [
      | inl m ↦
          scan_turn left (length done) (length (done ++ (entry_at k ∷ []))) index (entry_at k)
            (overwrite done buffer) (overwrite (done ++ (entry_at k ∷ [])) buffer) more
            (read_at k index e) (keep_match (entry_at k) done buffer (omega arith) m)
          ∙ ih _ (done ++ (entry_at k ∷ [])) (index_next k left index h e)
          ∙ ap (answer buffer) (sym (found_match k left done more m))
      | inr m ↦
          scan_turn left (length done) (length done) index (entry_at k) (overwrite done buffer)
            (overwrite done buffer) more (read_at k index e) (rw m)
          ∙ ih _ done (index_next k left index h e)
          ∙ ap (answer buffer) (sym (found_skip k left done m))
    ]

    -- Where the loop stands after `k` positions: the entries found so far are in the buffer.
    pub scan_lem :
        (k left : ℕ) (index : ℤ) (done : List LogEntry)
        → k + left ≤ size
        → (0 < left → index ≡ pos (slot size t k))
        → scan cells size (pos limit) level left index (length done) (overwrite done buffer)
          ≡ answer buffer (found k left done)
    unfolding newest scan
    scan_lem k zero index done h at =
        ap (answer buffer)
          (sym (ap (λ l. done ++ l) (take-nil (limit - length done)) ∙ append-nil done))
    scan_lem k (suc left) index done h at =
        elim (Bool-cases (ltb_ℤ (pos (length done)) (pos limit))) [
          | inl more ↦
              scan_step k left index done h (at (omega arith)) (ground (arith, more))
                (λ index' done' at'. scan_lem (suc k) left index' done' (omega arith) at')
          | inr stop ↦
              scan_stop (suc left) index done (overwrite done buffer) stop
              ∙ ap (answer buffer) (sym (found_done k (suc left) done (ground (arith, stop))))
        ]
