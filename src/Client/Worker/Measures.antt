-- ===== src/Client/Worker/Measures.antt =====
-- What the metrics of a thread say of its requests.
use log_aggregator_c.Base.{
  ℕ, suc, ◌+◌, ◌-◌, ◌^◌, ◌≤◌, ◌<◌, ◌≡◌, refl, ap, sym, ◌∙◌, ◌⊎◌, Bool, true, false, not, Bool-cases,
  inl, inr, Option, some, List, [], ◌∷◌, arith, ℤ, pos, negsuc, add32-pos, failed, ltb,
  if◌then◌else◌, length, ◌>>=◌,
}
use mathlib.Core.Path.{subst}
use log_aggregator_c.CString.{codes, str_eq}
use log_aggregator_c.Client.Clock.{now_us}
use log_aggregator_c.Client.Requests.{Request, post, get, payload, get_url}
use log_aggregator_c.Client.Requests.Fit.{send_post_request_lem, send_get_request_lem}
use log_aggregator_c.Client.Worker.{
  WorkerMetrics, WorkerCtx, Round, elapsed, send_request, counted, worker_rounds,
}

-- The requests that the loop makes: the rounds before the end.
unfoldable pub requests : (end_us : ℕ) → List Round → List Round
requests end_us [] = []
requests end_us (r ∷ rounds) = if ltb (now_us r.now) end_us then r ∷ requests end_us rounds else []

-- Whether the thread takes a request for a success.
abbrev pub counts_as_success : WorkerCtx → Round → Bool
counts_as_success ctx r = if str_eq ctx.workload (codes "write-heavy") then false else r.ok

unfoldable pub successes : WorkerCtx → List Round → ℕ
successes ctx [] = 0
successes ctx (r ∷ rs) = (if counts_as_success ctx r then 1 else 0) + successes ctx rs

unfoldable pub total_time : List Round → ℕ
total_time [] = 0
total_time (r ∷ rs) = elapsed r + total_time rs

abbrev pub AllWithin : (low high : ℕ) → List Round → Type 0
AllWithin low high [] = Unit
AllWithin low high (r ∷ rs) = (low ≤ elapsed r) × (elapsed r ≤ high) × AllWithin low high rs

-- One of the requests took this time.
abbrev pub Occurs : ℕ → List Round → Type 0
Occurs n [] = ⊥
Occurs n (r ∷ rs) = (elapsed r ≡ n) ⊎ Occurs n rs

send_request_lem :
    (ctx : WorkerCtx) (r : Round)
    → length ctx.url ≤ 480
    → (res : ℤ) × (send_request ctx r ≡ some res) × (failed res ≡ not (counts_as_success ctx r))
unfolding send_request
send_request_lem ctx r h =
    let (t, p, _) = send_post_request_lem ctx.url r.rand_index r.ok in
    let g = send_get_request_lem ctx.url r.rand_index r.rand_limit r.rand_page r.ok h in
    elim (Bool-cases (str_eq ctx.workload (codes "write-heavy"))) [
      | inl w ↦ (negsuc 0, rw (p, w) refl, rw w refl)
      | inr w ↦
          let res : ℤ = if r.ok then pos 0 else negsuc 0 in
          let got : ℤ × Option Request = (res, some (get (get_url ctx.url g.0 g.1 g.2))) in
          let posted : ℤ × Option Request = (res, some (post ctx.url (payload t))) in
          let heavy = str_eq ctx.workload (codes "read-heavy") in
          (
            res,
            rw (w, p, g.3) (choice got posted heavy r.below_most r.below_half refl refl),
            rw w (failed-ok r.ok),
          )
    ]
  where
    failed-ok : (ok : Bool) → failed (if ok then pos 0 else negsuc 0) ≡ not ok
    failed-ok true = refl
    failed-ok false = refl

    choice :
        (x y : ℤ × Option Request) (b c d : Bool) {a : ℤ}
        → x.0 ≡ a
        → y.0 ≡ a
        → (if b
            then ((if c then some x else some y) >>= λ v. some v.0)
            else ((if d then some y else some x) >>= λ v. some v.0))
          ≡ some a
    choice x y true true d p q = ap some p
    choice x y true false d p q = ap some q
    choice x y false c true p q = ap some q
    choice x y false c false p q = ap some p

-- `m'` is what `m` becomes by the requests `rs`.
pub record Counted (ctx : WorkerCtx) (rs : List Round) (s f : ℕ) (m m' : WorkerMetrics)
    : Type 0 where
  pub succeeded : m'.success_count ≡ pos (s + successes ctx rs)
  pub failures : ℕ
  pub lost : m'.failure_count ≡ pos (f + failures)
  pub together : successes ctx rs + failures ≡ length rs
  pub time : m'.total_response_time_us ≡ m.total_response_time_us + total_time rs
  pub within : AllWithin m'.min_response_time_us m'.max_response_time_us rs
  pub min_le : m'.min_response_time_us ≤ m.min_response_time_us
  pub max_ge : m.max_response_time_us ≤ m'.max_response_time_us
  pub min_found :
      (m'.min_response_time_us ≡ m.min_response_time_us) ⊎ Occurs m'.min_response_time_us rs
  pub max_found :
      (m'.max_response_time_us ≡ m.max_response_time_us) ⊎ Occurs m'.max_response_time_us rs

counted-count :
    (b : Bool) (res : ℤ) (time : ℕ) (m : WorkerMetrics) (s f : ℕ)
    → failed res ≡ not b
    → m.success_count ≡ pos s
    → m.failure_count ≡ pos f
    → s + f < 2 ^ 31 - 1
    → ((counted res time m).success_count ≡ pos (s + (if b then 1 else 0)))
      × ((counted res time m).failure_count ≡ pos (f + (if b then 0 else 1)))
unfolding counted
counted-count true res time m s f e hs hf h =
    (rw (e, hs) (add32-pos s 1 (omega arith)), rw (e, hf) (ap pos (omega arith)))
counted-count false res time m s f e hs hf h =
    (rw (e, hs) (ap pos (omega arith)), rw (e, hf) (add32-pos f 1 (omega arith)))

Counted-nil :
    (ctx : WorkerCtx) (s f : ℕ) (m : WorkerMetrics)
    → m.success_count ≡ pos s
    → m.failure_count ≡ pos f
    → Counted ctx [] s f m m
unfolding successes total_time
Counted-nil ctx s f m hs hf = record {
  succeeded = hs ∙ ap pos (omega arith);
  failures = 0;
  lost = hf ∙ ap pos (omega arith);
  together = omega arith;
  time = omega arith;
  within = tt;
  min_le = omega arith;
  max_ge = omega arith;
  min_found = inl refl;
  max_found = inl refl;
}

-- The times of one more request.
counted-time :
    (res : ℤ) (time : ℕ) (m : WorkerMetrics)
    → let c = counted res time m in
      (c.total_response_time_us ≡ m.total_response_time_us + time)
      × (c.min_response_time_us ≤ time)
      × (time ≤ c.max_response_time_us)
      × (c.min_response_time_us ≤ m.min_response_time_us)
      × (m.max_response_time_us ≤ c.max_response_time_us)
      × ((c.min_response_time_us ≡ m.min_response_time_us) ⊎ (time ≡ c.min_response_time_us))
      × ((c.max_response_time_us ≡ m.max_response_time_us) ⊎ (time ≡ c.max_response_time_us))
unfolding counted
counted-time res time m =
    (refl, ground arith, ground arith, ground arith, ground arith, ground arith, ground arith)

Counted-cons :
    (ctx : WorkerCtx) (r : Round) (rs : List Round) (res : ℤ) (s f : ℕ) (m m' : WorkerMetrics)
    → failed res ≡ not (counts_as_success ctx r)
    → Counted ctx rs
        (s + (if counts_as_success ctx r then 1 else 0))
        (f + (if counts_as_success ctx r then 0 else 1))
        (counted res (elapsed r) m)
        m'
    → Counted ctx (r ∷ rs) s f m m'
unfolding successes total_time
Counted-cons ctx r rs res s f m m' e c =
    let (total, low, high, least, most, min_kept, max_kept) = counted-time res (elapsed r) m in
    record {
      succeeded = c.succeeded ∙ ap pos (omega arith);
      failures = (if counts_as_success ctx r then 0 else 1) + c.failures;
      lost = c.lost ∙ ap pos (omega arith);
      together = one_of (counts_as_success ctx r) c.together;
      time = omega (arith, c.time, total);
      within = (omega (arith, c.min_le, low), omega (arith, c.max_ge, high), c.within);
      min_le = omega (arith, c.min_le, least);
      max_ge = omega (arith, c.max_ge, most);
      min_found = found c.min_found min_kept;
      max_found = found c.max_found max_kept;
    }
  where
    one_of :
        (b : Bool)
        → successes ctx rs + c.failures ≡ length rs
        → (if b then 1 else 0) + successes ctx rs + ((if b then 0 else 1) + c.failures)
          ≡ suc (length rs)
    one_of true h = omega (arith, h)
    one_of false h = omega (arith, h)

    found :
        {a b n : ℕ}
        → (n ≡ b) ⊎ Occurs n rs
        → (b ≡ a) ⊎ (elapsed r ≡ b)
        → (n ≡ a) ⊎ Occurs n (r ∷ rs)
    found (inr o) k = inr (inr o)
    found (inl h) (inl k) = inl (h ∙ k)
    found (inl h) (inr k) = inr (inl (k ∙ sym h))

worker_rounds-more :
    (ctx : WorkerCtx) (end_us : ℕ) (r : Round) (rounds : List Round) (m m' : WorkerMetrics)
    (res : ℤ)
    → ltb (now_us r.now) end_us ≡ true
    → send_request ctx r ≡ some res
    → ltb (m.total_response_time_us + elapsed r) (2 ^ 63) ≡ true
    → worker_rounds ctx end_us rounds (counted res (elapsed r) m) ≡ some m'
    → worker_rounds ctx end_us (r ∷ rounds) m ≡ some m'
unfolding worker_rounds
worker_rounds-more ctx end_us r rounds m m' res more sent holds result =
    rw (more, worker_rounds) (rw (sent, holds) result)

requests-more :
    (end_us : ℕ) (r : Round) (rounds : List Round)
    → ltb (now_us r.now) end_us ≡ true
    → requests end_us (r ∷ rounds) ≡ r ∷ requests end_us rounds
unfolding requests
requests-more end_us r rounds more = rw more refl

pub worker_rounds-Counted :
    (ctx : WorkerCtx) (end_us : ℕ) (rounds : List Round) (m : WorkerMetrics) (s f : ℕ)
    → length ctx.url ≤ 480
    → m.success_count ≡ pos s
    → m.failure_count ≡ pos f
    → s + f + length rounds < 2 ^ 31
    → m.total_response_time_us + total_time (requests end_us rounds) < 2 ^ 63
    → (m' : WorkerMetrics) × (worker_rounds ctx end_us rounds m ≡ some m')
      × Counted ctx (requests end_us rounds) s f m m'
unfolding worker_rounds requests successes total_time
worker_rounds-Counted ctx end_us [] m s f u hs hf h fits = (m, refl, Counted-nil ctx s f m hs hf)
worker_rounds-Counted ctx end_us (r ∷ rounds) m s f u hs hf h fits =
    let (res, sent, fate) = send_request_lem ctx r u in
    let b = counts_as_success ctx r in
    let (good, lost) = counted-count b res (elapsed r) m s f fate hs hf (omega arith) in
    elim (Bool-cases (ltb (now_us r.now) end_us)) [
      | inr over ↦ (m, rw (over, worker_rounds) refl, rw over (Counted-nil ctx s f m hs hf))
      | inl more ↦
          let fits' : m.total_response_time_us + (elapsed r + total_time (requests end_us rounds))
              < 2 ^ 63 =
            rw more at fits in
          let holds : ltb (m.total_response_time_us + elapsed r) (2 ^ 63) ≡ true = ground arith in
          let total = (counted-time res (elapsed r) m).0 in
          let (m', result, c) =
            worker_rounds-Counted ctx end_us rounds (counted res (elapsed r) m)
              (s + (if b then 1 else 0)) (f + (if b then 0 else 1)) u good lost
              (one_more b (omega arith)) (omega (arith, total, fits')) in
          (
            m',
            worker_rounds-more ctx end_us r rounds m m' res more sent holds result,
            subst (λ rs. Counted ctx rs s f m m') (sym (requests-more end_us r rounds more))
                (Counted-cons ctx r (requests end_us rounds) res s f m m' fate c),
          )
    ]
  where
    one_more :
        (b : Bool)
        → s + f + suc (length rounds) < 2 ^ 31
        → s + (if b then 1 else 0) + (f + (if b then 0 else 1)) + length rounds < 2 ^ 31
    one_more true h = omega arith
    one_more false h = omega arith
