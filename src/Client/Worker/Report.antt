-- ===== src/Client/Worker/Report.antt =====
-- The metrics that a thread returns.
use log_aggregator_c.Base.{
  ℕ, ◌+◌, ◌-◌, ◌*◌, ◌≤◌, ◌<◌, ◌≡◌, refl, ap, ◌∙◌, ◌⊎◌, true, inl, inr, some, List, [], ◌∷◌, arith,
  pos, pos_part, ◌==◌, if◌then◌else◌, length, ◌^◌,
}
use log_aggregator_c.CString.{codes, str_eq}
use log_aggregator_c.Client.Clock.{Timespec, now_us}
use log_aggregator_c.Client.Worker.{
  WorkerMetrics, WorkerCtx, Round, llong_max, first_metrics, set_min, loadgen_worker,
}
use log_aggregator_c.Client.Worker.Measures.{
  requests, successes, total_time, AllWithin, Occurs, Counted, worker_rounds-Counted,
}

-- What the metrics `m` say of the requests `rs`.
pub record Measured (ctx : WorkerCtx) (rs : List Round) (m : WorkerMetrics) : Type 0 where
  pub succeeded : m.success_count ≡ pos (successes ctx rs)
  pub lost : m.failure_count ≡ pos (length rs - successes ctx rs)
  pub total : m.total_response_time_us ≡ total_time rs
  pub within : AllWithin m.min_response_time_us m.max_response_time_us rs
  pub extremes :
      ((rs ≡ []) × (m.min_response_time_us ≡ 0) × (m.max_response_time_us ≡ 0))
      ⊎ (Occurs m.min_response_time_us rs × Occurs m.max_response_time_us rs)

set_min-ne : (m : WorkerMetrics) → m.min_response_time_us < llong_max → set_min m ≡ m
set_min-ne m h = ground arith

Counted-Measured :
    (ctx : WorkerCtx) (rs : List Round) (m : WorkerMetrics)
    → Counted ctx rs 0 0 first_metrics m
    → total_time rs < llong_max
    → Measured ctx rs (set_min m)
unfolding total_time
Counted-Measured ctx [] m c b = record {
  succeeded = c.succeeded ∙ ap pos (omega arith);
  lost = c.lost ∙ ap pos (omega (arith, c.together));
  total = c.time ∙ omega arith;
  within = tt;
  extremes = inl (refl, least c.min_found, most c.max_found);
}
  where
    least :
        (m.min_response_time_us ≡ llong_max) ⊎ ⊥
        → (if m.min_response_time_us == llong_max then 0 else m.min_response_time_us) ≡ 0
    least (inl e) = rw e refl
    least (inr o) = elim o [ ]

    most : (m.max_response_time_us ≡ 0) ⊎ ⊥ → m.max_response_time_us ≡ 0
    most (inl e) = e
    most (inr o) = elim o [ ]
Counted-Measured ctx (r ∷ rs) m c b =
    let keep : set_min m ≡ m = set_min-ne m (omega (arith, c.within.0, b)) in
    rw keep (record {
      succeeded = c.succeeded ∙ ap pos (omega arith);
      lost = c.lost ∙ ap pos (omega (arith, c.together));
      total = c.time ∙ omega arith;
      within = c.within;
      extremes = inr (least c.min_found, most c.max_found);
    })
  where
    least :
        (m.min_response_time_us ≡ llong_max) ⊎ Occurs m.min_response_time_us (r ∷ rs)
        → Occurs m.min_response_time_us (r ∷ rs)
    least (inr o) = o
    least (inl e) = absurd (omega (arith, c.within.0, b, e))

    most :
        (m.max_response_time_us ≡ 0) ⊎ Occurs m.max_response_time_us (r ∷ rs)
        → Occurs m.max_response_time_us (r ∷ rs)
    most (inr o) = o
    most (inl e) = inl (omega (arith, c.within.1, e))

-- end_us
abbrev pub end_of : WorkerCtx → ℕ → ℕ
end_of ctx start_us = start_us + pos_part ctx.duration_sec * 1000000

-- A thread with a handle and memory, a URL of at most 480 bytes and fewer than 2^31 rounds, whose
-- requests together take less than the longest time that a long long holds, returns metrics that
-- count its successes and its other requests, sum up their times, and name the shortest and the
-- longest of them, or 0 for both if there was no request.
pub loadgen_worker_lem :
    (ctx : WorkerCtx) (start : Timespec) (rounds : List Round)
    → length ctx.url ≤ 480
    → length rounds < 2 ^ 31
    → total_time (requests (end_of ctx (now_us start)) rounds) < llong_max
    → (m : WorkerMetrics) × (loadgen_worker ctx start true true rounds ≡ some (some m))
      × Measured ctx (requests (end_of ctx (now_us start)) rounds) m
unfolding loadgen_worker
loadgen_worker_lem ctx start rounds u h b =
    let (m, result, c) =
      worker_rounds-Counted ctx (end_of ctx (now_us start)) rounds first_metrics 0 0 u refl refl
        (omega arith) (omega (arith, b)) in
    (
      set_min m,
      rw result refl,
      Counted-Measured ctx (requests (end_of ctx (now_us start)) rounds) m c b,
    )

successes-write_heavy :
    (ctx : WorkerCtx) (rs : List Round)
    → str_eq ctx.workload (codes "write-heavy") ≡ true
    → successes ctx rs ≡ 0
unfolding successes
successes-write_heavy ctx [] h = refl
successes-write_heavy ctx (r ∷ rs) h = rw h (omega (arith, successes-write_heavy ctx rs h))

-- In the write-heavy workload a thread with a handle and memory, a URL of at most 480 bytes and fewer
-- than 2^31 rounds, whose requests together take less than the longest time that a long long holds,
-- reports no success, and all its requests as failures, whatever libcurl said of them.
pub write_heavy_fails :
    (ctx : WorkerCtx) (start : Timespec) (rounds : List Round)
    → str_eq ctx.workload (codes "write-heavy") ≡ true
    → length ctx.url ≤ 480
    → length rounds < 2 ^ 31
    → total_time (requests (end_of ctx (now_us start)) rounds) < llong_max
    → (m : WorkerMetrics) × (loadgen_worker ctx start true true rounds ≡ some (some m))
      × (m.success_count ≡ pos 0)
      × (m.failure_count ≡ pos (length (requests (end_of ctx (now_us start)) rounds)))
write_heavy_fails ctx start rounds w u h b =
    let rs = requests (end_of ctx (now_us start)) rounds in
    let (m, result, d) = loadgen_worker_lem ctx start rounds u h b in
    let none_counted = successes-write_heavy ctx rs w in
    (
      m,
      result,
      d.succeeded ∙ ap pos none_counted,
      d.lost ∙ ap (λ n. pos (length rs - n)) none_counted ∙ ap pos (omega arith),
    )
