-- ===== src/Handlers/Fetch.antt =====
-- What handle_get_logs has in its buffer after the cache and the database have been read.
use log_aggregator_c.Base.{
  ℕ, zero, suc, ◌+◌, ◌-◌, ◌*◌, ◌≤◌, ◌<◌, ◌≡◌, refl, ap, sym, ◌∙◌, true, Bool-cases, inl, inr,
  Option, Option-cases, some, List, [], ◌∷◌, ◌++◌, arith, length, length-append, length-take,
  length-drop, drop-cons, ap₂, map, filter_if, take_all, append-nil, add32-minus_one, take, drop, ℤ,
  pos, negsuc, ltb_ℤ, leb_ℤ, ◌>>=◌, mul32-pos, sub32, sub32-pos, add32, add32-pos,
  get_elem?-eq-get_or, sub_ℕ,
}
use log_aggregator_c.Config.{page_size, pages_in_cache}
use log_aggregator_c.LogEntry.{LogEntry, no_entry}
use log_aggregator_c.Cache.{Cache, matches}
use log_aggregator_c.Cache.Ring.{recent, IsValid}
use log_aggregator_c.Cache.Read.{cache_get_range_lem}
use log_aggregator_c.Cache.Scan.{page_of, overwrite}
use log_aggregator_c.CString.{atoi, c_str}
use log_aggregator_c.Db.{Libpq}
use log_aggregator_c.Db.Rows.{Row, Table}
use log_aggregator_c.Db.Read.{
  ReadFails, ReadOutcome, failed, answered, db_page, length-db_page, db_read_range_lem,
}
use log_aggregator_c.Db.Fill.{AllSized}
use log_aggregator_c.Handlers.{Item}
use log_aggregator_c.Handlers.Get.{
  GetVar, query_value, query_limit, clamp_limit, fill_from_db, fetch, items_from, items_of,
}

-- The limit that the handler uses lies between 0 and the page size.
pub record Limit (z : ℤ) : Type 0 where
  pub value : ℕ
  pub is : z ≡ pos value
  pub small : value ≤ page_size

clamp_limit-Limit : (z : ℤ) → Limit (clamp_limit z)
unfolding clamp_limit
clamp_limit-Limit (negsuc n) = record { value = 10; is = ground arith; small = omega arith }
clamp_limit-Limit (pos n) = elim (Bool-cases (ltb_ℤ (pos page_size) (pos n))) [
  | inl big ↦ record { value = 100; is = ground (arith, big); small = omega arith }
  | inr ok ↦ record { value = n; is = ground (arith, ok); small = ground (arith, ok) }
]

pub query_limit-Limit :
    (get_var : GetVar) (query : Option (List ℕ)) → Limit (query_limit get_var query)
unfolding query_limit
query_limit-Limit get_var query = elim (Option-cases (query_value get_var query "limit")) [
  | inl e ↦ rw (e, query_limit) (record { value = 10; is = refl; small = omega arith })
  | inr (s, e) ↦ rw (e, query_limit) (clamp_limit-Limit (atoi s))
]

AllSized-drop : (n : ℕ) (es : List LogEntry) → AllSized es → AllSized (drop n es)
AllSized-drop zero es s = s
AllSized-drop (suc n) [] s = tt
AllSized-drop (suc n) (e ∷ es) s = AllSized-drop n es s.1

drop-overwrite :
    (xs ys : List LogEntry)
    → length xs ≤ length ys
    → drop (length xs) (overwrite xs ys) ≡ drop (length xs) ys
drop-overwrite [] ys h = refl
drop-overwrite (x ∷ xs) [] h = absurd (omega arith)
drop-overwrite (x ∷ xs) (y ∷ ys) h = drop-overwrite xs ys (omega arith)

take-overwrite :
    (n : ℕ) (xs ys : List LogEntry) → n ≤ length xs → take n (overwrite xs ys) ≡ take n xs
take-overwrite zero xs ys h = refl
take-overwrite (suc n) [] ys h = absurd (omega arith)
take-overwrite (suc n) (x ∷ xs) [] h = ap (λ l. x ∷ take n l) (append-nil xs)
take-overwrite (suc n) (x ∷ xs) (y ∷ ys) h = ap (λ l. x ∷ l) (take-overwrite n xs ys (omega arith))

overwrite-append :
    (xs zs ys : List LogEntry)
    → length xs ≤ length ys
    → xs ++ overwrite zs (drop (length xs) ys) ≡ overwrite (xs ++ zs) ys
overwrite-append [] zs ys h = refl
overwrite-append (x ∷ xs) zs [] h = absurd (omega arith)
overwrite-append (x ∷ xs) zs (y ∷ ys) h = ap (λ l. x ∷ l) (overwrite-append xs zs ys (omega arith))

-- What the buffer holds and what `total` is when the cache had the entries `cached`. `Fails` is
-- whether the database fails when it is asked with a limit and an offset.
pub data Filled (pq : Libpq) (Fails : ℕ → ℕ → Type 0) (rows : List Row) (limit : ℕ)
    (level : Option (List ℕ)) (cached buffer : List LogEntry)
    (o : Option (ℤ × List LogEntry × pq.World)) : Type 0 where
  enough :
      (w : pq.World)
      → limit ≤ length cached
      → o ≡ some (pos (length cached), overwrite cached buffer, w)
      → Filled pq Fails rows limit level cached buffer o
  missed :
      (w : pq.World)
      → length cached < limit
      → Fails (limit - length cached) (length cached)
      → o ≡ some (sub_ℕ (length cached) 1, overwrite cached buffer, w)
      → Filled pq Fails rows limit level cached buffer o
  filled :
      (w : pq.World)
      → length cached < limit
      → o
        ≡ some (
          pos (length (cached ++ db_page (limit - length cached) (length cached) level rows)),
          overwrite (cached ++ db_page (limit - length cached) (length cached) level rows) buffer,
          w,
        )
      → Filled pq Fails rows limit level cached buffer o

module _ (pq : Libpq) (table : Table pq) (conn_info : Option (List ℕ)) (limit : ℕ)
    (level : Option (List ℕ)) (cached buffer : List LogEntry) (w : pq.World)
    (room : limit ≤ length buffer) (small : limit ≤ page_size) (sized : AllSized buffer)
    (short : length cached ≤ limit) where
  abbrev rest : List LogEntry
  rest = drop (length cached) (overwrite cached buffer)

  abbrev with_db : ℤ × List LogEntry × pq.World → Option (ℤ × List LogEntry × pq.World)
  with_db r =
      some (
        add32 (pos (length cached)) r.0,
        take (length cached) (overwrite cached buffer) ++ r.1,
        r.2,
      )

  whole : take (length cached) (overwrite cached buffer) ≡ cached
  whole =
      take-overwrite (length cached) cached buffer (omega arith)
      ∙ take_all (length cached) cached (omega arith)

  rest-eq-drop : rest ≡ drop (length cached) buffer
  rest-eq-drop = drop-overwrite cached buffer (omega arith)

  add_failure : add32 (pos (length cached)) (negsuc 0) ≡ sub_ℕ (length cached) 1
  add_failure = add32-minus_one (length cached) (omega arith)

  db_outcome :
      (found : List LogEntry)
      → found ≡ db_page (limit - length cached) (length cached) level (table.rows w)
      → length cached < limit
      → (o : Option (ℤ × List LogEntry × pq.World))
      → ReadOutcome pq
          (ReadFails pq conn_info level w (limit - length cached) (length cached))
          o
          rest
          found
      → Filled pq
          (ReadFails pq conn_info level w)
          (table.rows w)
          limit
          level
          cached
          buffer
          (o >>= with_db)
  db_outcome found n more o (failed w' bad e) = missed w' more bad (
      rw e (
        rw add_failure (
          ap (λ l. some (sub_ℕ (length cached) 1, l, w'))
            (ap (λ l. l ++ rest) whole ∙ ap (λ l. cached ++ l) rest-eq-drop))))
  db_outcome found n more o (answered w' e) = filled w' more (
      rw e (
        rw (← n) (
          rw
            (add32-pos (length cached) (length found) (
              omega (
                arith,
                ap length n,
                length-db_page (limit - length cached) (length cached) level (table.rows w),
              )))
            (ap₂ (λ k l. some (pos k, l, w')) (sym (length-append cached found))
              (ap (λ l. l ++ overwrite found rest) whole
                ∙ ap (λ l. cached ++ overwrite found l) rest-eq-drop
                ∙ overwrite-append cached found buffer (omega arith))))))

  pub fill_from_db-Filled :
      Filled pq
        (ReadFails pq conn_info level w)
        (table.rows w)
        limit
        level
        cached
        buffer
        (fill_from_db pq conn_info (pos limit) level (length cached) (overwrite cached buffer) w)
  unfolding fill_from_db
  fill_from_db-Filled = elim (Bool-cases (ltb_ℤ (pos (length cached)) (pos limit))) [
    | inr stop ↦ rw stop (enough w (ground (arith, stop)) refl)
    | inl more ↦
        let m : length cached < limit = ground (arith, more) in
        let need : sub32 (pos limit) (pos (length cached)) ≡ pos (limit - length cached) =
          sub32-pos limit (length cached) (omega arith) (omega arith) ∙ ground arith in
        rw more (
          rw need (
            db_outcome _ refl m _ (
              db_read_range_lem pq table conn_info (limit - length cached) (length cached) level
                rest w (omega arith)
                (omega (arith, ap length rest-eq-drop, length-drop (length cached) buffer))
                (rw rest-eq-drop (AllSized-drop (length cached) buffer sized)))))
  ]

-- The pages that are looked for in the cache.
pub fetch_cached :
    (pq : Libpq) (table : Table pq) (conn_info : Option (List ℕ)) {c : Cache}
    {cells : List LogEntry} (page limit : ℕ) (level : Option (List ℕ)) (buffer : List LogEntry)
    (w : pq.World)
    → IsValid c cells
    → page ≤ pages_in_cache
    → limit ≤ page_size
    → limit ≤ length buffer
    → AllSized buffer
    → Filled pq
        (ReadFails pq conn_info level w)
        (table.rows w)
        limit
        level
        (page_of limit (page * page_size) level (recent c cells))
        buffer
        (fetch pq conn_info c (pos page) (pos limit) level buffer w)
unfolding fetch
fetch_cached pq table conn_info {c} {cells} page limit level buffer w v p small room sized =
    let t : leb_ℤ (pos page) (pos pages_in_cache) ≡ true = ground arith in
    rw t (
      rw (mul32-pos page page_size (omega arith)) (
        rw (cache_get_range_lem limit (page * page_size) level buffer v room) (
          fill_from_db-Filled pq table conn_info limit level
            (page_of limit (page * page_size) level (recent c cells)) buffer w room small sized
            (omega (
              arith,
              length-take limit
                  (filter_if (matches level) (drop (page * page_size) (recent c cells))),
            )))))

-- The loop over `logs` reads the entries of the buffer's front.
abbrev pub item_of : LogEntry → Item
item_of e = record { timestamp = e.timestamp; level = c_str e.level; message = c_str e.message }

items_from_lem :
    (left i : ℕ) (es : List LogEntry)
    → i + left ≤ length es
    → items_from left i es ≡ some (map item_of (take left (drop i es)))
unfolding items_from
items_from_lem zero i es h = refl
items_from_lem (suc left) i es h =
    rw (get_elem?-eq-get_or es i no_entry (omega arith)) (
      rw (items_from_lem left (i + 1) es (omega arith))
        (rw (drop-cons i es no_entry (omega arith))))

pub items_of-overwrite :
    (n : ℕ) (found buffer : List LogEntry)
    → n ≤ length found
    → items_of (pos n) (overwrite found buffer) ≡ some (map item_of (take n found))
unfolding items_of
items_of-overwrite n found buffer h =
    items_from_lem n 0 (overwrite found buffer)
      (omega (arith, length-append found (drop (length found) buffer)))
    ∙ ap (λ l. some (map item_of l)) (take-overwrite n found buffer h)
