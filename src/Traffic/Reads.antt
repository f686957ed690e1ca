-- ===== src/Traffic/Reads.antt =====
-- Where the accepted entries are at any time, and what a GET shows of them.
use mathlib.Core.Path.{subst}
use mathlib.Core.List.{reverse-append}
use log_aggregator_c.Base.{
  ℕ, zero, suc, ◌-◌, ◌<◌, ◌≡◌, refl, ap, ap₂, sym, ◌∙◌, true, Option, List, [], ◌∷◌, ◌++◌,
  append_assoc, map, reverse, take, drop, length-take, take-cons, pos, arith, length, filter_if,
}
use log_aggregator_c.LogEntry.{LogEntry}
use log_aggregator_c.Cache.{Cache, matches}
use log_aggregator_c.Cache.Ring.{recent, length-newest, IsValid}
use log_aggregator_c.Queue.Ring.{contents}
use log_aggregator_c.Db.{Libpq}
use log_aggregator_c.Db.Read.{ReadFails}
use log_aggregator_c.Db.Rows.{entry_of, Table, Inserts, Reads as ReadLaws}
use log_aggregator_c.Handlers.{Reply}
use log_aggregator_c.Handlers.Post.{Cjson}
use log_aggregator_c.Handlers.Get.{GetVar, query_page, query_limit, query_level, handle_get_logs}
use log_aggregator_c.Handlers.Page.{Request, Shows}
use log_aggregator_c.Handlers.FirstPage.{FirstPage}
use log_aggregator_c.Handlers.Ahead.{Ahead, ahead_lem}
use log_aggregator_c.Worker.{Worker}
use log_aggregator_c.Worker.Order.{Holds-same}
use log_aggregator_c.Traffic.{
  Place, at_test, in_pop, sleeping, caching, writing, ended, Traffic, Reach,
}
use log_aggregator_c.Traffic.Invariant.{in_hand, unwritten, Inv, Fresh, Reach-Inv}

reverse-in_hand : (p : Place) → reverse (in_hand p) ≡ in_hand p
reverse-in_hand at_test = refl
reverse-in_hand in_pop = refl
reverse-in_hand sleeping = refl
reverse-in_hand (caching e) = refl
reverse-in_hand (writing e) = refl
reverse-in_hand ended = refl

take-length-take :
    {A : Type 0} (n : ℕ) (xs ys : List A) → take (length (take n xs)) (xs ++ ys) ≡ take n xs
take-length-take zero xs ys = refl
take-length-take (suc n) [] ys = refl
take-length-take (suc n) (x ∷ xs) ys = ap (λ l. x ∷ l) (take-length-take n xs ys)

-- A cache that holds the first ones of some entries.
pub record IsFront (c : Cache) (es : List LogEntry) : Type 0 where
  pub cells : List LogEntry
  pub valid : IsValid c cells
  pub agrees : recent c cells ≡ take c.count es

-- What page 0 shows of the matching ones of `es`.
abbrev pub Front :
    (pq : Libpq) (conn_info level : Option (List ℕ)) (w : pq.World) (limit : ℕ)
    (es shown : List LogEntry)
    → Type 0
Front pq conn_info level w limit es shown =
    FirstPage (ReadFails pq conn_info level w) limit (filter_if (matches level) es) shown

-- A GET that shows the newest of the entries that the worker has handled.
pub record ShowsHandled {pq : Libpq} (conn_info : Option (List ℕ)) (t : Traffic pq)
    (base : List LogEntry) (level : Option (List ℕ)) (limit : ℕ)
    (o : Option ((ℕ × Reply) × pq.World)) : Type 0 where
  pub handled : List LogEntry
  pub known : t.accepted ≡ handled ++ (in_hand t.place ++ contents t.server.queue)
  pub shows : Shows pq o (Front pq conn_info level t.server.world limit (reverse handled ++ base))

module _ {pq : Libpq} {table : Table pq} (ins : Inserts table) (reads : ReadLaws table)
    (json : Cjson) (conn_info : Option (List ℕ)) (size : ℕ) (base : List LogEntry)
    {server : Worker pq} {t : Traffic pq} (fresh : Fresh table size base server)
    (reach : Reach json pq conn_info server t) (on : t.intact ≡ true) where
  inv : Inv table size base t
  inv = Reach-Inv ins reads json conn_info size base fresh reach

  abbrev entries : List LogEntry
  entries = map entry_of (table.rows t.server.world)

  abbrev cells : List LogEntry
  cells = inv.cached.cells

  valid : IsValid t.server.cache cells
  valid = subst (λ c. IsValid c cells) (Holds-same inv.cached) inv.cached.valid

  held : recent t.server.cache cells ≡ take size (reverse t.inserted)
  held =
      subst (λ c. recent c cells ≡ take size (reverse t.inserted)) (Holds-same inv.cached)
        inv.cached.entries

  counted : length (recent t.server.cache cells) ≡ t.server.cache.count
  counted = length-newest cells t.server.cache.capacity t.server.cache.tail 0 t.server.cache.count

  all_handled : unwritten t.place ++ entries ≡ reverse t.inserted ++ base
  all_handled = inv.stored.written on

  -- In every state that the server can reach from an empty queue and an empty cache, by steps of
  -- requests, of the worker and of the calls that stop it in any order, if every db_write has
  -- returned 0: what waits in the queue, then what the worker holds and has not stored, then the
  -- table, are, newest first, exactly the entries that were answered with 200, in the order in
  -- which queue_push took them, in front of the rows that the table had at first.
  pub accepted_in_order :
      reverse (contents t.server.queue) ++ (in_hand t.place ++ (unwritten t.place ++ entries))
      ≡ reverse t.accepted ++ base
  accepted_in_order =
      let queued = contents t.server.queue in
      let hand = in_hand t.place in
      ap (λ l. reverse queued ++ (hand ++ l)) all_handled
      ∙ ap (λ h. reverse queued ++ (h ++ (reverse t.inserted ++ base)))
          (sym (reverse-in_hand t.place))
      ∙ sym (append_assoc (reverse queued) (reverse hand) (reverse t.inserted ++ base))
      ∙ ap (λ l. l ++ (reverse t.inserted ++ base)) (sym (reverse-append hand queued))
      ∙ sym (append_assoc (reverse (hand ++ queued)) (reverse t.inserted) base)
      ∙ ap (λ l. l ++ base)
          (sym (reverse-append t.inserted (hand ++ queued)) ∙ ap reverse (sym inv.flow.conserved))

  -- In every state that the server can reach from an empty queue and an empty cache, if every
  -- db_write has returned 0, the cache is well formed and holds the newest of the entries that the
  -- table has, behind the one that the worker is about to write, if there is one.
  pub cache-IsFront : IsFront t.server.cache (unwritten t.place ++ entries)
  cache-IsFront = record {
    cells = inv.cached.cells;
    valid = valid;
    agrees =
        held
        ∙ sym (take-length-take size (reverse t.inserted) base)
        ∙ ap₂ take (ap length (sym held) ∙ counted) (sym all_handled);
  }

  module _ (get_var : GetVar) (r : Request get_var) (limit : ℕ)
      (page : query_page get_var r.query ≡ pos 0)
      (asked : query_limit get_var r.query ≡ pos limit) where
    count_pos : (e : LogEntry) → unwritten t.place ≡ e ∷ [] → 0 < t.server.cache.count
    count_pos e last =
        let newest : reverse t.inserted ≡ e ∷ reverse inv.stored.earlier =
          ap reverse (inv.stored.ends ∙ ap (λ l. inv.stored.earlier ++ l) last)
          ∙ reverse-append inv.stored.earlier (e ∷ []) in
        omega (
          arith,
          counted,
          ap length held,
          length-take size (reverse t.inserted),
          ap length newest,
          valid.positive,
          ap (λ c. c.capacity) (Holds-same inv.cached),
          inv.cached.same_size,
        )

    -- In every state that the server can reach from an empty queue and an empty cache, if every
    -- db_write has returned 0, and the worker has put an entry into the cache and not yet written
    -- it, a GET of page 0 shows the first `limit` matching ones of the cache; if these are fewer,
    -- behind them matching rows of the table, but, if the new entry matches, without the newest of
    -- those that are not in the cache; or, where the database fails on being asked for these, the
    -- cache's entries but the last.
    pub racing_get :
        (e : LogEntry)
        → unwritten t.place ≡ e ∷ []
        → let matching = filter_if (matches (query_level get_var r.query)) in
          let old = t.server.cache.count - 1 in
          Shows pq
            (handle_get_logs get_var pq conn_info r.query r.memory t.server.cache t.server.world)
            (Ahead
              (ReadFails pq conn_info (query_level get_var r.query) t.server.world)
              limit
              (matching (e ∷ []))
              (matching (take old entries))
              (matching (drop old entries)))
    racing_get e last =
        let c = cache-IsFront in
        ahead_lem get_var pq table conn_info r limit (t.server.cache.count - 1) (e ∷ [])
          t.server.world c.valid page asked
          (c.agrees
            ∙ ap (λ l. take t.server.cache.count (l ++ entries)) last
            ∙ take-cons t.server.cache.count e entries (count_pos e last))
          (inv.stored.short on)
