-- ===== src/Handlers/Late.antt =====
-- GET requests for page 0 whose query runs after the worker has written more entries.
use mathlib.Core.Path.{subst}
use log_aggregator_c.Base.{
  ℕ, ◌-◌, ◌≤◌, ◌<◌, ◌≡◌, ap, sym, ◌∙◌, Option, some, List, ◌++◌, arith, length, take, drop,
  drop-append_short, drop-append_long, take_all, take-append-drop, map, map-take, map-drop,
  filter_if, filter_if-append, pos, ◌>>=◌,
}
use log_aggregator_c.Config.{page_size}
use log_aggregator_c.LogEntry.{LogEntry}
use log_aggregator_c.Cache.{Cache, matches, cache_get_range}
use log_aggregator_c.Cache.Ring.{recent, IsValid}
use log_aggregator_c.Cache.Read.{cache_get_range_lem}
use log_aggregator_c.Cache.Scan.{page_of, overwrite}
use log_aggregator_c.Db.{Libpq}
use log_aggregator_c.Db.Rows.{in_level, entry_of, Table}
use log_aggregator_c.Db.Fill.{AllSized}
use log_aggregator_c.Db.Read.{ReadFails, db_page}
use log_aggregator_c.Handlers.Get.{fill_from_db}
use log_aggregator_c.Handlers.Fetch.{fill_from_db-Filled}
use log_aggregator_c.Handlers.Page.{
  Answer, from_cache, db_failed, with_db, Shows, printed, Filled-Shows,
}
use log_aggregator_c.Handlers.FirstPage.{AllShort, filter_if-entry_of}

-- What is shown of the cached `front` when `again` are those of them that the query finds again.
pub data Repeats (Fails : ℕ → ℕ → Type 0) (limit : ℕ) (front again unseen shown : List LogEntry)
    : Type 0 where
  twice :
      shown ≡ front ++ take (limit - length front) (again ++ unseen)
      → Repeats Fails limit front again unseen shown
  no_table :
      Fails (limit - length front) (length front)
      → shown ≡ take (length front - 1) front
      → Repeats Fails limit front again unseen shown

-- The two calls of the handler, with `buffer` for the entries: the cache is read, and later, in the
-- state `w` of the database, the table.
pub record ReadTwice (pq : Libpq) (conn_info : Option (List ℕ)) (c : Cache) (limit : ℕ)
    (level : Option (List ℕ)) (buffer : List LogEntry) (w : pq.World) (P : List LogEntry → Type 0)
    : Type 0 where
  pub got : ℕ
  pub filled : List LogEntry
  pub first : cache_get_range c (pos limit) (pos 0) level buffer ≡ some (got, filled)
  pub second : Shows pq (fill_from_db pq conn_info (pos limit) level got filled w >>= printed pq) P

-- Let the cache hold the newest entries of the table, too few to fill page 0, and let the worker
-- write `news` to the table between the two calls of a GET of this page, no more matching ones than
-- the cache gave. Then the GET shows the cached entries, and behind them the last of these again, as
-- many as matching `news` were written, in front of the older ones, up to the limit; or, where
-- the database fails on being asked for these, the cached entries but the last.
pub late_get :
    (pq : Libpq) (table : Table pq) (conn_info : Option (List ℕ)) {c : Cache}
    {cells : List LogEntry} (limit : ℕ) (level : Option (List ℕ)) (buffer news olds : List LogEntry)
    (w : pq.World)
    → IsValid c cells
    → recent c cells ≡ take c.count olds
    → map entry_of (table.rows w) ≡ news ++ olds
    → AllShort (table.rows w)
    → AllSized buffer
    → limit ≤ length buffer
    → limit ≤ page_size
    → let matching = filter_if (matches level) in
      let front = matching (take c.count olds) in
      length front < limit
      → length (matching news) ≤ length front
      → ReadTwice pq conn_info c limit level buffer w (
          Repeats
            (ReadFails pq conn_info level w)
            limit
            front
            (drop (length front - length (matching news)) front)
            (matching (drop c.count olds)))
late_get pq table conn_info {c} {cells} limit level buffer news olds w v agrees later short sized
      room small few fewer =
    record {
      got = length cached;
      filled = overwrite cached buffer;
      first = cache_get_range_lem limit 0 level buffer v room;
      second =
          let s = Filled-Shows pq (table.rows w) limit level cached buffer _ (
            fill_from_db-Filled pq table conn_info limit level cached buffer w room small sized
              (omega (arith, ap length found, few))) in
          record { shown = s.shown; world = s.world; result = s.result; holds = right s.holds };
    }
  where
    matching : List LogEntry → List LogEntry
    matching = filter_if (matches level)

    front : List LogEntry
    front = matching (take c.count olds)

    unseen : List LogEntry
    unseen = matching (drop c.count olds)

    cached : List LogEntry
    cached = page_of limit 0 level (recent c cells)

    found : cached ≡ front
    found = ap (λ es. take limit (matching es)) agrees ∙ take_all limit front (omega (arith, few))

    all : matching (map entry_of (table.rows w)) ≡ matching news ++ (front ++ unseen)
    all =
        ap matching later
        ∙ filter_if-append (matches level) news olds
        ∙ ap (λ l. matching news ++ l)
            (ap matching (sym (take-append-drop c.count olds))
              ∙ filter_if-append (matches level) (take c.count olds) (drop c.count olds))

    behind :
        drop (length front) (matching news ++ (front ++ unseen))
        ≡ drop (length front - length (matching news)) front ++ unseen
    behind =
        drop-append_long (length front) (matching news) (front ++ unseen) fewer
        ∙ drop-append_short (length front - length (matching news)) front unseen (omega arith)

    from_table :
        (n : ℕ)
        → db_page n (length front) level (table.rows w)
          ≡ take n (drop (length front - length (matching news)) front ++ unseen)
    from_table n =
        map-take entry_of n (drop (length front) (filter_if (in_level level) (table.rows w)))
        ∙ ap (take n) (
            map-drop entry_of (length front) (filter_if (in_level level) (table.rows w))
            ∙ ap (drop (length front)) (sym (filter_if-entry_of level (table.rows w) short) ∙ all)
            ∙ behind)

    right :
        {shown : List LogEntry}
        → Answer (ReadFails pq conn_info level w) (table.rows w) limit level cached shown
        → Repeats
            (ReadFails pq conn_info level w)
            limit
            front
            (drop (length front - length (matching news)) front)
            unseen
            shown
    right (from_cache h e) = absurd (omega (arith, h, ap length found, few))
    right (db_failed h bad e) =
        no_table
          (subst (λ l. ReadFails pq conn_info level w (limit - length l) (length l)) found bad)
          (e ∙ ap (λ l. take (length l - 1) l) found)
    right (with_db h e) = twice (
        e
        ∙ ap (λ l. l ++ db_page (limit - length l) (length l) level (table.rows w)) found
        ∙ ap (λ l. front ++ l) (from_table (limit - length front)))
