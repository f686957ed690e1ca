-- ===== src/Cache.antt =====
-- src/server/cache.c: the ring buffer of the newest log entries. The file's static variables are
-- one record. A function that changes them returns the new record, inside `Option` where it reads
-- or writes through a pointer: `none` is an access out of bounds. The read-write lock makes each
-- call one step.
pub mod Ring
pub mod Shift
pub mod Insert
pub mod Scan
pub mod Read
mod Tests
use log_aggregator_c.Base.{
  ℕ, zero, suc, ◌+◌, ◌-◌, ◌%◌, ◌≡◌, Bool, true, false, ◌||◌, Option, none, some, List, ℤ, pos,
  negsuc, ◌>>=◌, ltb, ◌==◌, if◌then◌else◌, ltb_ℤ, leb_ℤ, pos_part, add32, sub32, rem32, load, store,
}
use log_aggregator_c.CString.{str_eq}
use log_aggregator_c.LogEntry.{LogEntry}

pub record Cache : Type 0 where
  pub cells : Option (List LogEntry)  -- static log_entry *cache; `none` is NULL
  pub capacity : ℕ
  pub count : ℕ
  pub head : ℕ
  pub tail : ℕ

-- The environment decides: the memory that malloc returns, its content left over from before, and
-- whether the lock is created.
unfoldable pub cache_init : Cache → ℕ → Option (List LogEntry) → Bool → ℤ × Cache
cache_init c size none lock_ok = (negsuc 0, record c { cells = none; capacity = size })
cache_init c size (some memory) lock_ok =
    let c' = record c { cells = some memory; capacity = size; count = 0; head = 0; tail = 0 } in
    if lock_ok then (pos 0, c') else (negsuc 0, record c' { cells = none })

unfoldable pub cache_destroy : Cache → Cache
cache_destroy c = record c { cells = none }

-- `tail + 1` and `head + 1` are at most `capacity`, and `count` grows below it: no `int` overflows.
unfoldable pub cache_insert : Cache → LogEntry → Option Cache
cache_insert c entry = do
  cells ← c.cells
  cells' ← store cells c.tail entry
  let c' = record c { cells = some cells'; tail = (c.tail + 1) % c.capacity }
  some (
      if ltb c.count c.capacity
      then record c' { count = c.count + 1 }
      else record c' { head = (c.head + 1) % c.capacity })

-- level == NULL || strcmp(level, cache[index].level) == 0
unfoldable pub matches : Option (List ℕ) → LogEntry → Bool
matches none e = true
matches (some level) e = str_eq level e.level

-- The body of the `if` in the loop: the entry goes to buffer[matched++].
abbrev keep : Option (List ℕ) → LogEntry → ℕ → List LogEntry → Option (ℕ × List LogEntry)
keep level e matched buffer =
    if matches level e
    then (store buffer matched e >>= λ buffer'. some (matched + 1, buffer'))
    else some (matched, buffer)

-- The while loop. `left` is `count - offset - scanned`, which the test compares with 0.
pub scan :
    List LogEntry
    → ℕ
    → ℤ
    → Option (List ℕ)
    → (left : ℕ) → (index : ℤ) → (matched : ℕ) → List LogEntry
    → Option (ℕ × List LogEntry)
scan cells capacity limit level zero index matched buffer = some (matched, buffer)
scan cells capacity limit level (suc left) index matched buffer = elim (ltb_ℤ (pos matched) limit) [
  | true ↦ do
    e ← load cells index
    (matched', buffer') ← keep level e matched buffer
    scan cells capacity limit level left
        (rem32 (add32 (sub32 index (pos 1)) (pos capacity)) capacity) matched' buffer'
  | false ↦ some (matched, buffer)
]

-- Returns the result and what `buffer` holds after the call.
unfoldable pub cache_get_range :
    Cache
    → (limit offset : ℤ) → (level : Option (List ℕ)) → (buffer : List LogEntry)
    → Option (ℕ × List LogEntry)
cache_get_range c limit offset level buffer =
    if c.count == 0 || leb_ℤ (pos c.count) offset
    then some (0, buffer)
    else (c.cells >>= λ cells.
        scan cells c.capacity limit level (pos_part (sub32 (pos c.count) offset))
          (rem32 (add32 (sub32 (sub32 (pos c.tail) (pos 1)) offset) (pos c.capacity)) c.capacity) 0
          buffer)
