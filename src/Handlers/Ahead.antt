-- ===== src/Handlers/Ahead.antt =====
-- GET requests for page 0 with a cache that holds entries which the table does not have.
use mathlib.Core.Path.{subst}
use log_aggregator_c.Base.{
  ℕ, ◌-◌, ◌*◌, ◌≤◌, ◌<◌, ◌≡◌, ap, sym, ◌∙◌, Option, List, ◌++◌, arith, length, length-append,
  length-take, take, drop, drop-drop, take_all, take-append-drop, map, map-take, map-drop,
  filter_if, filter_if-append, drop-append, pos,
}
use log_aggregator_c.Config.{page_size}
use log_aggregator_c.LogEntry.{LogEntry}
use log_aggregator_c.Cache.{Cache, matches}
use log_aggregator_c.Cache.Ring.{recent, IsValid}
use log_aggregator_c.Cache.Scan.{page_of}
use log_aggregator_c.Db.{Libpq}
use log_aggregator_c.Db.Rows.{in_level, entry_of, Table}
use log_aggregator_c.Db.Read.{ReadFails, db_page}
use log_aggregator_c.Handlers.Get.{GetVar, query_page, query_limit, query_level, handle_get_logs}
use log_aggregator_c.Handlers.Page.{
  Request, Answer, from_cache, db_failed, with_db, Shows, get_cached_lem,
}
use log_aggregator_c.Handlers.FirstPage.{AllShort, filter_if-entry_of}

-- What is shown when `new` are in the cache only, `seen` in the cache and the table, and `unseen` in
-- the table only: where the cache does not fill the page, as many of the newest `unseen` as there
-- are `new` are left out.
pub data Ahead (Fails : ℕ → ℕ → Type 0) (limit : ℕ) (new seen unseen shown : List LogEntry)
    : Type 0 where
  full :
      limit ≤ length (new ++ seen)
      → shown ≡ take limit (new ++ seen)
      → Ahead Fails limit new seen unseen shown
  gap :
      length (new ++ seen) < limit
      → shown ≡ (new ++ seen) ++ take (limit - length (new ++ seen)) (drop (length new) unseen)
      → Ahead Fails limit new seen unseen shown
  no_table :
      length (new ++ seen) < limit
      → Fails (limit - length (new ++ seen)) (length (new ++ seen))
      → shown ≡ take (length (new ++ seen) - 1) (new ++ seen)
      → Ahead Fails limit new seen unseen shown

drop-new :
    {A : Type 0} (new seen unseen : List A)
    → drop (length (new ++ seen)) (seen ++ unseen) ≡ drop (length new) unseen
drop-new new seen unseen =
    ap (λ k. drop k (seen ++ unseen)) (length-append new seen)
    ∙ sym (drop-drop (length new) (length seen) (seen ++ unseen))
    ∙ ap (drop (length new)) (drop-append seen unseen)

-- A GET of page 0 with a cache that holds `new` entries which the table does not have, in front of
-- the newest `k` of the table, whose levels fit their arrays, ends without a fault. It shows the
-- first `limit` matching ones of the cache; if these are fewer, behind them matching rows of the
-- table, but without the newest ones that are not in the cache, as many as there are matching `new`
-- entries; or, where the database fails on being asked for these, the cache's
-- entries but the last.
pub ahead_lem :
    (get_var : GetVar) (pq : Libpq) (table : Table pq) (conn_info : Option (List ℕ))
    (r : Request get_var) {c : Cache} {cells : List LogEntry} (limit k : ℕ) (new : List LogEntry)
    (w : pq.World)
    → IsValid c cells
    → query_page get_var r.query ≡ pos 0
    → query_limit get_var r.query ≡ pos limit
    → recent c cells ≡ new ++ take k (map entry_of (table.rows w))
    → AllShort (table.rows w)
    → let matching = filter_if (matches (query_level get_var r.query)) in
      Shows pq (handle_get_logs get_var pq conn_info r.query r.memory c w) (
        Ahead
          (ReadFails pq conn_info (query_level get_var r.query) w)
          limit
          (matching new)
          (matching (take k (map entry_of (table.rows w))))
          (matching (drop k (map entry_of (table.rows w)))))
ahead_lem get_var pq table conn_info r {c} {cells} limit k new w v p l agrees short =
    let s = get_cached_lem get_var pq table conn_info r 0 limit w v p l (omega arith) in
    record { shown = s.shown; world = s.world; result = s.result; holds = right s.holds }
  where
    level : Option (List ℕ)
    level = query_level get_var r.query

    matching : List LogEntry → List LogEntry
    matching = filter_if (matches level)

    entries : List LogEntry
    entries = map entry_of (table.rows w)

    seen : List LogEntry
    seen = matching (take k entries)

    unseen : List LogEntry
    unseen = matching (drop k entries)

    cached : List LogEntry
    cached = page_of limit (0 * page_size) level (recent c cells)

    all : matching entries ≡ seen ++ unseen
    all =
        ap matching (sym (take-append-drop k entries))
        ∙ filter_if-append (matches level) (take k entries) (drop k entries)

    found : cached ≡ take limit (matching new ++ seen)
    found =
        ap (λ es. take limit (matching es)) agrees
        ∙ ap (take limit) (filter_if-append (matches level) new (take k entries))

    short_cached : length cached < limit → cached ≡ matching new ++ seen
    short_cached h =
        found
        ∙ take_all limit (matching new ++ seen)
            (omega (arith, h, ap length found, length-take limit (matching new ++ seen)))

    fewer : length cached < limit → length (matching new ++ seen) < limit
    fewer h = omega (arith, h, ap length (short_cached h))

    from_table :
        (n : ℕ)
        → db_page n (length (matching new ++ seen)) level (table.rows w)
          ≡ take n (drop (length (matching new)) unseen)
    from_table n =
        map-take entry_of n
          (drop (length (matching new ++ seen)) (filter_if (in_level level) (table.rows w)))
        ∙ ap (take n) (
            map-drop entry_of (length (matching new ++ seen))
              (filter_if (in_level level) (table.rows w))
            ∙ ap (drop (length (matching new ++ seen)))
                (sym (filter_if-entry_of level (table.rows w) short) ∙ all)
            ∙ drop-new (matching new) seen unseen)

    right :
        {shown : List LogEntry}
        → Answer (ReadFails pq conn_info level w) (table.rows w) limit level cached shown
        → Ahead (ReadFails pq conn_info level w) limit (matching new) seen unseen shown
    right (from_cache h e) =
        full (omega (arith, h, ap length found, length-take limit (matching new ++ seen)))
          (e ∙ found)
    right (db_failed h bad e) =
        no_table (fewer h)
          (subst (λ l. ReadFails pq conn_info level w (limit - length l) (length l))
            (short_cached h) bad)
          (e ∙ ap (λ l. take (length l - 1) l) (short_cached h))
    right (with_db h e) = gap (fewer h) (
        e
        ∙ ap (λ l. l ++ db_page (limit - length l) (length l) level (table.rows w)) (short_cached h)
        ∙ ap (λ l. (matching new ++ seen) ++ l)
            (from_table (limit - length (matching new ++ seen))))
