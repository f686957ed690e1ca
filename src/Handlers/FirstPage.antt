-- ===== src/Handlers/FirstPage.antt =====
-- GET requests for page 0, with a cache that agrees with the table.
use mathlib.Core.Path.{subst}
use log_aggregator_c.Base.{
  ℕ, ◌-◌, ◌*◌, ◌≤◌, ◌<◌, ◌≡◌, refl, ap, sym, ◌∙◌, Bool-cases, inl, inr, Option, none, some, List,
  [], ◌∷◌, ◌++◌, arith, length, length-append, length-take, take, drop, take_all, take-take,
  take-append, take-append_short, drop-append, take-append-drop, map, map-take, map-drop, filter_if,
  filter_if-append, pos,
}
use log_aggregator_c.Config.{page_size}
use log_aggregator_c.CString.{str_eq, c_str}
use log_aggregator_c.CString.Copy.{field, c_str-field, bytes_eq, str_eq-bytes_eq}
use log_aggregator_c.LogEntry.{LogEntry}
use log_aggregator_c.Cache.{Cache, matches}
use log_aggregator_c.Cache.Ring.{recent, IsValid}
use log_aggregator_c.Cache.Scan.{page_of}
use log_aggregator_c.Db.{Libpq}
use log_aggregator_c.Db.Rows.{Row, in_level, entry_of, Table}
use log_aggregator_c.Db.Read.{ReadFails, db_page}
use log_aggregator_c.Handlers.Get.{GetVar, query_page, query_limit, query_level, handle_get_logs}
use log_aggregator_c.Handlers.Page.{
  Request, Answer, from_cache, db_failed, with_db, Shows, get_cached_lem,
}

str_eq-field :
    (s t : List ℕ) → length (c_str t) ≤ 15 → str_eq s (field 15 t ++ (0 ∷ [])) ≡ str_eq s t
str_eq-field s t h =
    str_eq-bytes_eq s (field 15 t ++ (0 ∷ []))
    ∙ ap (bytes_eq (c_str s)) (c_str-field 15 t ∙ take_all 15 (c_str t) h)
    ∙ sym (str_eq-bytes_eq s t)

-- The levels in the table fit the arrays.
abbrev pub AllShort : List Row → Type 0
AllShort [] = Unit
AllShort (r ∷ rows) = (length (c_str r.level) ≤ 15) × AllShort rows

pub filter_if-entry_of :
    (level : Option (List ℕ)) (rows : List Row)
    → AllShort rows
    → filter_if (matches level) (map entry_of rows) ≡ map entry_of (filter_if (in_level level) rows)
unfolding matches
filter_if-entry_of none [] h = refl
filter_if-entry_of (some l) [] h = refl
filter_if-entry_of none (r ∷ rows) h = ap (λ es. entry_of r ∷ es) (filter_if-entry_of none rows h.1)
filter_if-entry_of (some l) (r ∷ rows) h =
    rw (str_eq-field l r.level h.0) (elim (Bool-cases (str_eq l r.level)) [
      | inl e ↦ rw e (ap (λ es. entry_of r ∷ es) (filter_if-entry_of (some l) rows h.1))
      | inr e ↦ rw e (filter_if-entry_of (some l) rows h.1)
    ])

-- `front` matching entries from the cache, `back` those that only the table has.
module _ (limit : ℕ) (front back : List LogEntry) where
  abbrev cached : List LogEntry
  cached = take limit front

  cached-from_cache : limit ≤ length cached → cached ≡ take limit (front ++ back)
  cached-from_cache h =
      sym (take-append_short limit front back (omega (arith, length-take limit front)))

  cached_all : length cached < limit → cached ≡ front
  cached_all h = take_all limit front (omega (arith, length-take limit front))

  cached-with_db :
      length cached < limit
      → cached ++ take (limit - length cached) (drop (length cached) (front ++ back))
        ≡ take limit (front ++ back)
  cached-with_db h = rw (cached_all h) (
      rw (drop-append front back)
        (sym (take-append limit front back (omega (arith, ap length (cached_all h))))))

  cached-prefix : (k : ℕ) → k ≤ length cached → take k cached ≡ take k (front ++ back)
  cached-prefix k h =
      take-take k limit front (omega (arith, length-take limit front))
      ∙ sym (take-append_short k front back (omega (arith, length-take limit front)))

-- What page 0 shows of the `newest` matching entries: the first `limit` of them, or, where the cache
-- had `n` of them and the database fails on being asked for the others, all of these but the last.
pub data FirstPage (Fails : ℕ → ℕ → Type 0) (limit : ℕ) (newest shown : List LogEntry)
    : Type 0 where
  whole : shown ≡ take limit newest → FirstPage Fails limit newest shown
  cut :
      (n : ℕ)
      → n < limit
      → n ≤ length newest
      → Fails (limit - n) n
      → shown ≡ take (n - 1) newest
      → FirstPage Fails limit newest shown

-- With a cache that holds the newest entries of the table, and levels that fit their arrays, a GET
-- of page 0 ends without a fault and shows the newest `limit` matching entries of the table, newest
-- first; or, if the cache had too few and the database fails on being asked for the others, those
-- that the cache had but the last.
pub first_page_lem :
    (get_var : GetVar) (pq : Libpq) (table : Table pq) (conn_info : Option (List ℕ))
    (r : Request get_var) {c : Cache} {cells : List LogEntry} (limit : ℕ) (w : pq.World)
    → IsValid c cells
    → query_page get_var r.query ≡ pos 0
    → query_limit get_var r.query ≡ pos limit
    → recent c cells ≡ take c.count (map entry_of (table.rows w))
    → AllShort (table.rows w)
    → let newest =
        filter_if (matches (query_level get_var r.query)) (map entry_of (table.rows w)) in
      Shows pq
        (handle_get_logs get_var pq conn_info r.query r.memory c w)
        (FirstPage (ReadFails pq conn_info (query_level get_var r.query) w) limit newest)
first_page_lem get_var pq table conn_info r {c} {cells} limit w v p l agrees short =
    let s = get_cached_lem get_var pq table conn_info r 0 limit w v p l (omega arith) in
    record { shown = s.shown; world = s.world; result = s.result; holds = right s.holds }
  where
    level : Option (List ℕ)
    level = query_level get_var r.query

    entries : List LogEntry
    entries = map entry_of (table.rows w)

    front : List LogEntry
    front = filter_if (matches level) (take c.count entries)

    back : List LogEntry
    back = filter_if (matches level) (drop c.count entries)

    all : filter_if (matches level) entries ≡ front ++ back
    all =
        ap (filter_if (matches level)) (sym (take-append-drop c.count entries))
        ∙ filter_if-append (matches level) (take c.count entries) (drop c.count entries)

    from_table : (n o : ℕ) → db_page n o level (table.rows w) ≡ take n (drop o (front ++ back))
    from_table n o =
        map-take entry_of n (drop o (filter_if (in_level level) (table.rows w)))
        ∙ ap (take n) (
            map-drop entry_of o (filter_if (in_level level) (table.rows w))
            ∙ ap (drop o) (sym (filter_if-entry_of level (table.rows w) short) ∙ all))

    found : page_of limit (0 * page_size) level (recent c cells) ≡ cached limit front back
    found = ap (λ es. take limit (filter_if (matches level) es)) agrees

    right :
        {shown : List LogEntry}
        → Answer
            (ReadFails pq conn_info level w)
            (table.rows w)
            limit
            level
            (page_of limit (0 * page_size) level (recent c cells))
            shown
        → FirstPage (ReadFails pq conn_info level w) limit (filter_if (matches level) entries) shown
    right (from_cache h e) = whole (
        e
        ∙ found
        ∙ cached-from_cache limit front back (omega (arith, ap length found))
        ∙ ap (take limit) (sym all))
    right (db_failed h bad e) =
        let had = length (cached limit front back) in
        cut had (omega (arith, h, ap length found))
          (omega (arith, ap length all, length-append front back, length-take limit front))
          (subst (λ l. ReadFails pq conn_info level w (limit - length l) (length l)) found bad)
          (e
            ∙ ap (λ l. take (length l - 1) l) found
            ∙ cached-prefix limit front back (had - 1) (omega arith)
            ∙ ap (take (had - 1)) (sym all))
    right (with_db h e) = whole (
        e
        ∙ ap (λ l. l ++ db_page (limit - length l) (length l) level (table.rows w)) found
        ∙ ap (λ l. cached limit front back ++ l)
            (from_table (limit - length (cached limit front back))
              (length (cached limit front back)))
        ∙ cached-with_db limit front back (omega (arith, ap length found))
        ∙ ap (take limit) (sym all))
