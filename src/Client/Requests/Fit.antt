-- ===== src/Client/Requests/Fit.antt =====
-- The requests fit their buffers, and the server's limits.
use log_aggregator_c.Base.{
  ℕ, zero, suc, ◌+◌, ◌/◌, ◌%◌, ◌≤◌, ◌<◌, ◌≡◌, refl, ap, Bool, true, false, ◌&&◌, Bool-cases, inl,
  inr, none, some, List, [], ◌∷◌, ◌++◌, arith, pos, negsuc, ltb, leb, if◌then◌else◌, length,
  length-append, load, get_elem?,
}
use log_aggregator_c.Config.{pages_in_cache}
use log_aggregator_c.CString.{codes, digits_of, upcase}
use log_aggregator_c.CString.Copy.{bytes_eq}
use log_aggregator_c.Handlers.Get.{clamp_limit}
use log_aggregator_c.Client.Requests.{
  LogTemplate, logs_table, logs_table_size, Request, post, get, decimal, payload, get_url, perform,
  send_post_request, send_get_request,
}

-- What holds of every row of the table, as a test.
row_ok : LogTemplate → Bool
row_ok t = leb (length t.level) 5 && leb (length t.message) 60 && bytes_eq (upcase t.level) t.level

all_ok : List LogTemplate → Bool
unfolding row_ok
all_ok [] = true
all_ok (t ∷ ts) = row_ok t && all_ok ts

logs_table-all_ok : all_ok logs_table ≡ true
unfolding all_ok logs_table upcase bytes_eq
logs_table-all_ok = refl

bytes_eq→eq : (s t : List ℕ) → bytes_eq s t ≡ true → s ≡ t
unfolding bytes_eq
bytes_eq→eq [] [] h = refl
bytes_eq→eq [] (d ∷ ds) h = cc
bytes_eq→eq (c ∷ cs) [] h = cc
bytes_eq→eq (c ∷ cs) (d ∷ ds) h = ground (arith, bytes_eq→eq cs ds)

-- A row of the table.
pub record Row (rand : ℕ) : Type 0 where
  pub template : LogTemplate
  pub found : load logs_table (pos (rand % logs_table_size)) ≡ some template
  pub short_level : length template.level ≤ 5
  pub short_message : length template.message ≤ 60
  pub upper : upcase template.level ≡ template.level

row_at :
    (ts : List LogTemplate) (i : ℕ)
    → all_ok ts ≡ true
    → i < length ts
    → (t : LogTemplate) × (get_elem? ts i ≡ some t) × (row_ok t ≡ true)
unfolding all_ok
row_at [] i h k = absurd (omega arith)
row_at (t ∷ ts) zero h k = (t, refl, ground (arith, h))
row_at (t ∷ ts) (suc i) h k = row_at ts i (ground (arith, h)) (omega arith)

pub row_of : (rand : ℕ) → Row rand
unfolding row_ok logs_table_size
row_of rand =
    let (t, found, ok) =
      row_at logs_table (rand % logs_table_size) logs_table-all_ok (omega arith) in
    record {
      template = t;
      found = found;
      short_level = ground (arith, ok);
      short_message = ground (arith, ok);
      upper = bytes_eq→eq (upcase t.level) t.level (ground (arith, ok));
    }

length-payload : (t : LogTemplate) → length (payload t) ≡ 25 + length t.level + length t.message
unfolding payload
length-payload t = omega (
  arith,
  length-append (codes "{\"level\":\"")
      (t.level ++ (codes "\",\"message\":\"" ++ (t.message ++ codes "\"}"))),
  length-append t.level (codes "\",\"message\":\"" ++ (t.message ++ codes "\"}")),
  length-append (codes "\",\"message\":\"") (t.message ++ codes "\"}"),
  length-append t.message (codes "\"}"),
)

-- Numbers below ten, a hundred and a thousand have at most one, two and three digits.
length-digits_of :
    (fuel n : ℕ)
    → (n < 10 → length (digits_of fuel n) ≤ 1)
      × (n < 100 → length (digits_of fuel n) ≤ 2)
      × (n < 1000 → length (digits_of fuel n) ≤ 3)
unfolding digits_of
length-digits_of zero n = (λ h. omega arith, λ h. omega arith, λ h. omega arith)
length-digits_of (suc fuel) n = elim (Bool-cases (ltb n 10)) [
  | inl small ↦ rw small (λ h. omega arith, λ h. omega arith, λ h. omega arith)
  | inr large ↦
      let ih = length-digits_of fuel (n / 10) in
      let l = length-append (digits_of fuel (n / 10)) ((b'0' + n % 10) ∷ []) in
      rw large (
        λ h. absurd (ground (arith, large)),
        λ h. omega (arith, l, ih.0 (omega arith)),
        λ h. omega (arith, l, ih.1 (omega arith)),
      )
]

-- What snprintf leaves uncut is sent.
perform-fits :
    (text : List ℕ) (request : Request) (ok : Bool)
    → length text < 512
    → perform text request ok ≡ (if ok then pos 0 else negsuc 0, some request)
perform-fits text request ok h = rw (leb-false text h) refl
  where
    leb-false : (text : List ℕ) → length text < 512 → leb 512 (length text) ≡ false
    leb-false text h = ground arith

-- Whatever rand gives, send_post_request reads inside the table, its text fits the buffer, and it
-- sends a row's JSON text; its result tells whether libcurl succeeded.
pub send_post_request_lem :
    (url : List ℕ) (rand : ℕ) (ok : Bool)
    → (t : LogTemplate) × (send_post_request url rand ok
        ≡ some (if ok then pos 0 else negsuc 0, some (post url (payload t))))
      × (length (payload t) ≤ 90)
unfolding send_post_request
send_post_request_lem url rand ok =
    let r = row_of rand in
    let h : length (payload r.template) ≤ 90 =
      omega (arith, length-payload r.template, r.short_level, r.short_message) in
    (
      r.template,
      rw r.found (
          ap some
            (perform-fits (payload r.template) (post url (payload r.template)) ok (omega arith))),
      h,
    )

length-get_url :
    (url level : List ℕ) (limit page : ℕ)
    → length (get_url url level limit page)
      ≡ length url + 20 + length (decimal limit) + length level + length (decimal page)
unfolding get_url
length-get_url url level limit page =
    let p = codes "&page=" ++ decimal page in
    let l = codes "&level=" ++ (level ++ p) in
    let q = codes "?limit=" ++ (decimal limit ++ l) in
    omega (
      arith,
      length-append url q,
      length-append (codes "?limit=") (decimal limit ++ l),
      length-append (decimal limit) l,
      length-append (codes "&level=") (level ++ p),
      length-append level p,
      length-append (codes "&page=") (decimal page),
    )

-- With a URL of at most 480 bytes, and whatever rand gives, send_get_request sends a request for a
-- limit from 1 to 100, which the server takes as it is, for a page from 1 to 10, which the server
-- reads from its cache, and for a level that the server's upper case leaves alone; its result tells
-- whether libcurl succeeded.
pub send_get_request_lem :
    (url : List ℕ) (rand_index rand_limit rand_page : ℕ) (ok : Bool)
    → length url ≤ 480
    → (level : List ℕ) × (limit : ℕ) × (page : ℕ) × (send_get_request url rand_index rand_limit
          rand_page ok
        ≡ some (if ok then pos 0 else negsuc 0, some (get (get_url url level limit page))))
      × (1 ≤ limit)
      × (clamp_limit (pos limit) ≡ pos limit)
      × (1 ≤ page)
      × (page ≤ pages_in_cache)
      × (upcase level ≡ level)
unfolding send_get_request clamp_limit
send_get_request_lem url rand_index rand_limit rand_page ok h =
    let r = row_of rand_index in
    let level = r.template.level in
    let limit = 1 + rand_limit % 100 in
    let page = 1 + rand_page % 10 in
    let text = get_url url level limit page in
    let fits : length text < 512 = omega (
      arith,
      length-get_url url level limit page,
      (length-digits_of (suc limit) limit).2 (omega arith),
      (length-digits_of (suc page) page).1 (omega arith),
      r.short_level,
      h,
    ) in
    (
      level,
      limit,
      page,
      rw r.found (ap some (perform-fits text (get text) ok fits)),
      omega arith,
      ground arith,
      omega arith,
      omega arith,
      r.upper,
    )

-- A longer URL is never asked.
pub send_get_request_long :
    (url : List ℕ) (rand_index rand_limit rand_page : ℕ) (ok : Bool)
    → 512 ≤ length url
    → send_get_request url rand_index rand_limit rand_page ok ≡ some (negsuc 0, none)
unfolding send_get_request
send_get_request_long url rand_index rand_limit rand_page ok h =
    let r = row_of rand_index in
    let text = get_url url r.template.level (1 + rand_limit % 100) (1 + rand_page % 10) in
    let t : leb 512 (length text) ≡ true =
      ground
        (arith, length-get_url url r.template.level (1 + rand_limit % 100) (1 + rand_page % 10)) in
    rw r.found (rw t refl)
