-- ===== src/Cache/Read.antt =====
-- cache_get_range: the entries that it finds, and the bounds of its accesses.
use native.Mathlib.Nat.{sub-eq-zero_of_le}
use log_aggregator_c.Base.{
  dec_lt, ◌==◌, ◌||◌, leb_ℤ, pos_part, sub32-pos, take-nil, ℕ, ◌+◌, ◌-◌, ◌≤◌, ◌<◌, ◌≡◌, ap, ◌∙◌,
  true, false, Option, some, List, [], arith, length, take, filter_if, pos, sub32,
}
use log_aggregator_c.LogEntry.{LogEntry}
use log_aggregator_c.Cache.{Cache, matches, cache_get_range}
use log_aggregator_c.Cache.Ring.{newest, recent, IsValid, drop-newest}
use log_aggregator_c.Cache.Scan.{page_of, overwrite, first_index, found, scan_lem}

module _ {c : Cache} {cells : List LogEntry} (limit offset : ℕ) (level : Option (List ℕ))
    (buffer : List LogEntry) (v : IsValid c cells) (room : limit ≤ length buffer) where
  abbrev result : List LogEntry → Option (ℕ × List LogEntry)
  result found = some (length found, overwrite found buffer)

  range_beyond :
      c.count ≤ offset
      → cache_get_range c (pos limit) (pos offset) level buffer
        ≡ result (page_of limit offset level (recent c cells))
  unfolding cache_get_range newest
  range_beyond h = rw (drop-newest cells c.capacity c.tail 0 c.count offset) (
      rw (sub-eq-zero_of_le h) (
        rw (take-nil limit) (
          let t : (c.count == 0 || leb_ℤ (pos c.count) (pos offset)) ≡ true = ground arith in
          rw (t, cache_get_range))))

  range_within :
      offset < c.count
      → cache_get_range c (pos limit) (pos offset) level buffer
        ≡ result (page_of limit offset level (recent c cells))
  unfolding cache_get_range
  range_within h =
      let t : (c.count == 0 || leb_ℤ (pos c.count) (pos offset)) ≡ false = ground arith in
      let z : 0 + offset ≡ offset = omega arith in
      let n : pos_part (sub32 (pos c.count) (pos offset)) ≡ c.count - offset =
        rw (sub32-pos c.count offset (omega arith) (omega arith)) (ground arith) in
      rw (drop-newest cells c.capacity c.tail 0 c.count offset) (
        rw (t, cache_get_range)
          (rw (v.memory, n)
            (rw z (
              scan_lem cells c.capacity c.tail limit level buffer v.storage v.tail_in v.small room
                offset (c.count - offset) _ [] (omega arith)
                (λ _. first_index c.capacity c.tail offset v.tail_in (omega arith) v.small)
              ∙ ap
                  (λ m. result (
                    take m (
                      filter_if (matches level)
                        (newest cells c.capacity c.tail offset (c.count - offset)))))
                  {x = limit - 0} (omega arith)))))

-- On a well-formed cache and a buffer with room for `limit` entries, cache_get_range accesses no
-- memory out of bounds, copies to the front of the buffer exactly the first `limit` matching
-- entries behind the `offset` newest ones, newest first, leaves the rest of the buffer as it was,
-- and returns their number.
pub cache_get_range_lem :
    {c : Cache} {cells : List LogEntry} (limit offset : ℕ) (level : Option (List ℕ))
    (buffer : List LogEntry)
    → IsValid c cells
    → limit ≤ length buffer
    → let found = page_of limit offset level (recent c cells) in
      cache_get_range c (pos limit) (pos offset) level buffer
      ≡ some (length found, overwrite found buffer)
cache_get_range_lem {c} limit offset level buffer v room = elim (dec_lt offset c.count) [
  | yes h ↦ range_within limit offset level buffer v room h
  | no h ↦ range_beyond limit offset level buffer v room (omega arith)
]

-- A page behind all entries of the cache is empty.
pub page_of-beyond :
    (limit offset : ℕ) (level : Option (List ℕ)) (c : Cache) (cells : List LogEntry)
    → c.count ≤ offset
    → page_of limit offset level (recent c cells) ≡ []
unfolding newest
page_of-beyond limit offset level c cells h =
    rw (drop-newest cells c.capacity c.tail 0 c.count offset)
      (rw (sub-eq-zero_of_le h) (take-nil limit))
