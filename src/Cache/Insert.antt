-- ===== src/Cache/Insert.antt =====
-- cache_init and cache_insert: the invariant of the ring and the entries that it holds.
use native.Mathlib.Nat.{mod-eq_of_lt}
use mathlib.Core.Path.{subst, subst₂}
use mathlib.Core.List.{reverse-cons}
use log_aggregator_c.Base.{
  ℕ, ◌+◌, ◌^◌, ◌≤◌, ◌<◌, ◌≡◌, refl, ap, ◌∙◌, true, Option, some, List, [], ◌∷◌, arith, length, set,
  take, sym, take_all, take-append-take, append_assoc, append-nil, reverse, ◌++◌, ◌>>=◌,
}
use log_aggregator_c.LogEntry.{LogEntry}
use log_aggregator_c.Cache.{Cache, cache_init, cache_insert}
use log_aggregator_c.Cache.Ring.{newest, recent, IsValid, length-newest}
use log_aggregator_c.Cache.Shift.{after, cache_insert-after, after-IsValid, recent-after}

-- What a call of cache_insert leaves: a valid cache of the same capacity that holds `held`.
pub record Holds (c : Option Cache) (size : ℕ) (held : List LogEntry) : Type 0 where
  pub cache : Cache
  pub cells : List LogEntry
  pub result : c ≡ some cache
  pub valid : IsValid cache cells
  pub same_size : cache.capacity ≡ size
  pub entries : recent cache cells ≡ held

-- On a well-formed cache, cache_insert writes inside the memory, keeps the cache well formed and
-- its capacity, and leaves the new entry in front of the old ones, of which the oldest is dropped
-- when the cache was full.
pub cache_insert_lem :
    {c : Cache} {cells : List LogEntry} (e : LogEntry)
    → IsValid c cells
    → Holds (cache_insert c e) c.capacity (take c.capacity (e ∷ recent c cells))
cache_insert_lem {c} {cells} e v = record {
  cache = after v e;
  cells = set cells c.tail e;
  result = cache_insert-after v e;
  valid = after-IsValid v e;
  same_size = ground arith;
  entries = recent-after v e;
}

-- cache_init on memory of the asked size gives a well-formed empty cache.
pub cache_init-IsValid :
    (c : Cache) (size : ℕ) (memory : List LogEntry)
    → length memory ≡ size
    → 0 < size
    → size ≤ 2 ^ 30
    → IsValid (cache_init c size (some memory) true).1 memory
unfolding cache_init
cache_init-IsValid c size memory h p q = record {
  memory = refl;
  storage = h;
  positive = p;
  small = q;
  tail_in = p;
  head_in = p;
  count_in = omega arith;
  span = sym (mod-eq_of_lt {n = 0 + 0} {m = size} p);
}

-- the calls of cache_insert for the entries of a list, in order
unfoldable pub insert_all : Option Cache → List LogEntry → Option Cache
insert_all c [] = c
insert_all c (e ∷ es) = insert_all (c >>= λ c'. cache_insert c' e) es

-- A cache holds no more than its size.
pub Holds-short :
    {c : Option Cache} {size : ℕ} {held : List LogEntry} → Holds c size held → length held ≤ size
Holds-short h = omega (
  arith,
  ap length entries,
  length-newest cells cache.capacity cache.tail 0 cache.count,
  valid.count_in,
  same_size,
)
  where
    open h use {cache, cells, same_size, valid, entries}

pub take-reverse-cons :
    (size : ℕ) (e : LogEntry) (es held : List LogEntry)
    → take size (reverse es ++ take size (e ∷ held)) ≡ take size (reverse (e ∷ es) ++ held)
take-reverse-cons size e es held =
    take-append-take size size (reverse es) (e ∷ held) (omega arith)
    ∙ ap (take size) (
        sym (append_assoc (reverse es) (e ∷ []) held)
        ∙ ap (λ l. l ++ held) (sym (reverse-cons e es)))

pub cache_insert-Holds :
    {c : Option Cache} (e : LogEntry) {size : ℕ} {held : List LogEntry} (h : Holds c size held)
    → Holds (cache_insert h.cache e) size (take size (e ∷ held))
cache_insert-Holds e h =
    subst₂ (λ k l. Holds (cache_insert h.cache e) k (take k (e ∷ l))) h.same_size h.entries
      (cache_insert_lem e h.valid)

insert_all-Holds :
    (es : List LogEntry) (c : Option Cache) {size : ℕ} {held : List LogEntry}
    → Holds c size held
    → Holds (insert_all c es) size (take size (reverse es ++ held))
unfolding insert_all
insert_all-Holds [] c {size} {held} h =
    subst (Holds c size) (sym (take_all size held (Holds-short h))) h
insert_all-Holds (e ∷ es) c {size} {held} h = rw h.result (
    subst (Holds (insert_all (cache_insert h.cache e) es) size) (take-reverse-cons size e es held)
      (insert_all-Holds es (cache_insert h.cache e) (cache_insert-Holds e h)))

-- After cache_init on fresh memory and any sequence of insertions, the cache holds exactly the
-- last `size` entries inserted, newest first, and no insertion has accessed memory out of bounds.
pub insert_all_lem :
    (c : Cache) (size : ℕ) (memory es : List LogEntry)
    → length memory ≡ size
    → 0 < size
    → size ≤ 2 ^ 30
    → Holds
        (insert_all (some (cache_init c size (some memory) true).1) es)
        size
        (take size (reverse es))
unfolding cache_init newest
insert_all_lem c size memory es h p q =
    subst
      (λ l.
        Holds (insert_all (some (cache_init c size (some memory) true).1) es) size (take size l))
      (append-nil (reverse es))
      (insert_all-Holds es (some (cache_init c size (some memory) true).1) fresh)
  where
    fresh : Holds (some (cache_init c size (some memory) true).1) size []
    fresh = record {
      cache = (cache_init c size (some memory) true).1;
      cells = memory;
      result = refl;
      valid = cache_init-IsValid c size memory h p q;
      same_size = refl;
      entries = refl;
    }
