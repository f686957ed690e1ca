-- ===== src/Handlers/Page.antt =====
-- Which entries a GET request shows.
use mathlib.Core.Path.{subst}
use log_aggregator_c.Base.{
  ℕ, suc, ◌-◌, ◌*◌, ◌≤◌, ◌<◌, ◌≡◌, refl, ap, sym, ◌∙◌, ◌⊎◌, inl, inr, Option, some, List, [], ◌∷◌,
  ◌++◌, arith, length, length-append, length-take, take, take_all, map, ℤ, pos_part, ◌≤ℤ◌, pos,
  sub_ℕ, ◌>>=◌,
}
use log_aggregator_c.Config.{page_size, pages_in_cache}
use log_aggregator_c.LogEntry.{LogEntry}
use log_aggregator_c.Cache.{Cache}
use log_aggregator_c.Cache.Ring.{recent, IsValid}
use log_aggregator_c.Cache.Read.{page_of-beyond}
use log_aggregator_c.Cache.Scan.{page_of, overwrite}
use log_aggregator_c.Db.{Libpq}
use log_aggregator_c.Db.Rows.{Row, Table}
use log_aggregator_c.Db.Read.{ReadFails, db_page, length-db_page}
use log_aggregator_c.Db.Fill.{AllSized}
use log_aggregator_c.Handlers.{Reply, logs}
use log_aggregator_c.Handlers.Get.{
  GetVar, query_page, query_limit, query_level, items_of, handle_get_logs,
}
use log_aggregator_c.Handlers.Fetch.{
  Limit, query_limit-Limit, Filled, enough, missed, filled, fetch_cached, item_of,
  items_of-overwrite,
}

-- A request, and the memory that malloc returns for its logs.
pub record Request (get_var : GetVar) : Type 0 where
  pub query : Option (List ℕ)
  pub memory : ℤ → Option (List LogEntry)
  pub buffer : List LogEntry
  pub allocated : memory (query_limit get_var query) ≡ some buffer
  pub room : query_limit get_var query ≤ℤ pos (length buffer)
  pub sized : AllSized buffer

-- What a request shows when the cache found `cached`: that, if it fills the page; if it does not,
-- what the database adds to it; or, if the database fails, all of `cached` but its last entry.
pub data Answer (Fails : ℕ → ℕ → Type 0) (rows : List Row) (limit : ℕ) (level : Option (List ℕ))
    (cached shown : List LogEntry) : Type 0 where
  from_cache : limit ≤ length cached → shown ≡ cached → Answer Fails rows limit level cached shown
  db_failed :
      length cached < limit
      → Fails (limit - length cached) (length cached)
      → shown ≡ take (length cached - 1) cached
      → Answer Fails rows limit level cached shown
  with_db :
      length cached < limit
      → shown ≡ cached ++ db_page (limit - length cached) (length cached) level rows
      → Answer Fails rows limit level cached shown

-- A request answered with status 200 and the entries `shown`.
pub record Shows (pq : Libpq) (o : Option ((ℕ × Reply) × pq.World)) (P : List LogEntry → Type 0)
    : Type 0 where
  pub shown : List LogEntry
  pub world : pq.World
  pub result : o ≡ some ((200, logs (map item_of shown)), world)
  pub holds : P shown

-- The end of the handler: what is printed of what has been fetched.
abbrev pub printed : (pq : Libpq) → ℤ × List LogEntry × pq.World → Option ((ℕ × Reply) × pq.World)
printed pq r = items_of r.0 r.1 >>= λ items. some ((200, logs items), r.2)

printed-overwrite :
    (pq : Libpq) (n : ℕ) (found buffer : List LogEntry) (w : pq.World)
    → n ≤ length found
    → printed pq (pos n, overwrite found buffer, w)
      ≡ some ((200, logs (map item_of (take n found))), w)
printed-overwrite pq n found buffer w h = rw (items_of-overwrite n found buffer h)

printed-minus_one :
    (pq : Libpq) (found buffer : List LogEntry) (w : pq.World)
    → printed pq (sub_ℕ (length found) 1, overwrite found buffer, w)
      ≡ some ((200, logs (map item_of (take (length found - 1) found))), w)
unfolding items_of
printed-minus_one pq [] buffer w = refl
printed-minus_one pq (x ∷ xs) buffer w =
    let e : sub_ℕ (suc (length xs)) 1 ≡ pos (suc (length xs) - 1) = ground arith in
    rw e (printed-overwrite pq (suc (length xs) - 1) (x ∷ xs) buffer w (omega arith))

pub Filled-Shows :
    (pq : Libpq) {Fails : ℕ → ℕ → Type 0} (rows : List Row) (limit : ℕ) (level : Option (List ℕ))
    (cached buffer : List LogEntry) (o : Option (ℤ × List LogEntry × pq.World))
    → Filled pq Fails rows limit level cached buffer o
    → Shows pq (o >>= printed pq) (Answer Fails rows limit level cached)
Filled-Shows pq rows limit level cached buffer o (enough w h e) = record {
  shown = take (length cached) cached;
  world = w;
  result = rw e (printed-overwrite pq (length cached) cached buffer w (omega arith));
  holds = from_cache h (take_all (length cached) cached (omega arith));
}
Filled-Shows pq rows limit level cached buffer o (missed w h bad e) = record {
  shown = take (length cached - 1) cached;
  world = w;
  result = rw e (printed-minus_one pq cached buffer w);
  holds = db_failed h bad refl;
}
Filled-Shows pq rows limit level cached buffer o (filled w h e) =
    let all = cached ++ db_page (limit - length cached) (length cached) level rows in
    record {
      shown = take (length all) all;
      world = w;
      result = rw e (printed-overwrite pq (length all) all buffer w (omega arith));
      holds = with_db h (take_all (length all) all (omega arith));
    }

-- A GET for one of the pages 0 to 10, with memory for its entries and a well-formed cache, always
-- ends without a fault and answers 200 with exactly these entries: the first `limit` matching ones
-- behind the `page * 100` newest of the cache; if they are fewer than `limit`, behind them as many of
-- the newest matching rows as are missing, skipping as many as the cache gave; or, where the
-- database fails on being asked for these, the cache's entries without the last one.
pub get_cached_lem :
    (get_var : GetVar) (pq : Libpq) (table : Table pq) (conn_info : Option (List ℕ))
    (r : Request get_var) {c : Cache} {cells : List LogEntry} (page limit : ℕ) (w : pq.World)
    → IsValid c cells
    → query_page get_var r.query ≡ pos page
    → query_limit get_var r.query ≡ pos limit
    → page ≤ pages_in_cache
    → let level = query_level get_var r.query in
      Shows pq (handle_get_logs get_var pq conn_info r.query r.memory c w) (
        Answer
          (ReadFails pq conn_info level w)
          (table.rows w)
          limit
          level
          (page_of limit (page * page_size) level (recent c cells)))
unfolding handle_get_logs
get_cached_lem get_var pq table conn_info r {c} {cells} page limit w v p l small =
    rw (r.allocated, handle_get_logs)
      (rw p (
        rw l (
          Filled-Shows pq (table.rows w) limit (query_level get_var r.query)
            (page_of limit (page * page_size) (query_level get_var r.query) (recent c cells))
            r.buffer _
            (fetch_cached pq table conn_info page limit (query_level get_var r.query) r.buffer w v
              small (limit-le l (query_limit-Limit get_var r.query)) (room-le l r.room) r.sized))))
  where
    limit-le : {z : ℤ} → z ≡ pos limit → Limit z → limit ≤ page_size
    limit-le e k = omega (arith, ap pos_part (sym e ∙ k.is), k.small)

    room-le : {z : ℤ} → z ≡ pos limit → z ≤ℤ pos (length r.buffer) → limit ≤ length r.buffer
    room-le e k = let k' = rw e at k in omega arith

-- What is shown is never more than the limit.
pub Answer-length-le :
    {Fails : ℕ → ℕ → Type 0} {rows : List Row} {limit : ℕ} {level : Option (List ℕ)}
    {cached shown : List LogEntry}
    → length cached ≤ limit
    → Answer Fails rows limit level cached shown
    → length shown ≤ limit
Answer-length-le h (from_cache _ e) = omega (arith, ap length e)
Answer-length-le {cached} h (db_failed _ _ e) =
    omega (arith, ap length e, length-take (length cached - 1) cached)
Answer-length-le {rows} {limit} {level} {cached} h (with_db _ e) = omega (
  arith,
  ap length e,
  length-append cached (db_page (limit - length cached) (length cached) level rows),
  length-db_page (limit - length cached) (length cached) level rows,
)

-- A page from 1 to 10 that lies behind everything that the cache holds shows the newest matching
-- rows, as page 0 would: the database is not asked to skip a row; or nothing, where the database
-- fails on being asked for them.
pub later_page_restarts :
    (get_var : GetVar) (pq : Libpq) (table : Table pq) (conn_info : Option (List ℕ))
    (r : Request get_var) {c : Cache} {cells : List LogEntry} (page limit : ℕ) (w : pq.World)
    → IsValid c cells
    → query_page get_var r.query ≡ pos page
    → query_limit get_var r.query ≡ pos limit
    → page ≤ pages_in_cache
    → c.count ≤ page * page_size
    → let level = query_level get_var r.query in
      Shows pq (handle_get_logs get_var pq conn_info r.query r.memory c w) (λ shown.
        (shown ≡ db_page limit 0 level (table.rows w))
        ⊎ (ReadFails pq conn_info level w limit 0 × (shown ≡ [])))
later_page_restarts get_var pq table conn_info r {c} {cells} page limit w v p l small behind =
    let s = get_cached_lem get_var pq table conn_info r page limit w v p l small in
    record { shown = s.shown; world = s.world; result = s.result; holds = narrow s.holds }
  where
    level : Option (List ℕ)
    level = query_level get_var r.query

    nothing : page_of limit (page * page_size) level (recent c cells) ≡ []
    nothing = page_of-beyond limit (page * page_size) level c cells behind

    narrow :
        {shown : List LogEntry}
        → Answer
            (ReadFails pq conn_info level w)
            (table.rows w)
            limit
            level
            (page_of limit (page * page_size) level (recent c cells))
            shown
        → (shown ≡ db_page limit 0 level (table.rows w))
          ⊎ (ReadFails pq conn_info level w limit 0 × (shown ≡ []))
    narrow (from_cache h e) =
        let none_wanted : 0 ≡ limit = omega (arith, h, ap length nothing) in
        inl (e ∙ nothing ∙ ap (λ n. db_page n 0 level (table.rows w)) none_wanted)
    narrow (db_failed _ bad e) =
        let same : limit - 0 ≡ limit = omega arith in
        inr (
          subst (λ n. ReadFails pq conn_info level w n 0) same
              (subst (λ l. ReadFails pq conn_info level w (limit - length l) (length l)) nothing
                bad),
          e ∙ ap (λ l. take (length l - 1) l) nothing,
        )
    narrow (with_db _ e) = inl (
        e
        ∙ ap (λ l. l ++ db_page (limit - length l) (length l) level (table.rows w)) nothing
        ∙ ap (λ n. db_page n 0 level (table.rows w)) {x = limit - 0} (omega arith))
