-- ===== src/Client/Worker/Times.antt =====
-- How long a thread runs, by the times that it measures.
use log_aggregator_c.Base.{
  ℕ, ◌+◌, ◌-◌, ◌*◌, ◌^◌, ◌≤◌, ◌<◌, ◌≡◌, refl, ap, true, false, ◌⊎◌, Bool-cases, inl, inr, some,
  List, [], ◌∷◌, arith, pos_part, ltb, length,
}
use log_aggregator_c.Client.Clock.{Timespec, now_us, IsReading, NotAfter, now_us_bound, now_us_mono}
use log_aggregator_c.Client.Worker.{WorkerMetrics, WorkerCtx, Round, loadgen_worker}
use log_aggregator_c.Client.Worker.Measures.{requests, total_time, AllWithin, Occurs}
use log_aggregator_c.Client.Worker.Report.{end_of, loadgen_worker_lem}

-- The readings of the rounds come from one clock that stood at `t` before.
abbrev pub AreReadings : Timespec → List Round → Type 0
AreReadings t [] = IsReading t
AreReadings t (r ∷ rounds) =
    IsReading t
    × NotAfter t r.now
    × IsReading r.now
    × NotAfter r.now r.req_start
    × IsReading r.req_start
    × NotAfter r.req_start r.req_end
    × AreReadings r.req_end rounds

AreReadings-IsReading : (t : Timespec) (rounds : List Round) → AreReadings t rounds → IsReading t
AreReadings-IsReading t [] a = a
AreReadings-IsReading t (r ∷ rounds) a = a.0

-- At the end of the time there are no more requests.
requests-over :
    (end_us : ℕ) (t : Timespec) (rounds : List Round)
    → AreReadings t rounds
    → end_us ≤ now_us t
    → requests end_us rounds ≡ []
unfolding requests
requests-over end_us t [] a h = refl
requests-over end_us t (r ∷ rounds) (reading, after, _, _, _, _, _) h =
    let later = now_us_mono t r.now reading after in
    let over : ltb (now_us r.now) end_us ≡ false = grind (arith, later, h) in rw over refl

-- All requests together take the time up to the end, and the last one at most `longest` behind it.
total_time-le :
    (end_us longest low : ℕ) (t : Timespec) (rounds : List Round)
    → AreReadings t rounds
    → AllWithin low longest (requests end_us rounds)
    → total_time (requests end_us rounds) ≤ end_us - now_us t + longest
unfolding requests total_time
total_time-le end_us longest low t [] a w = omega arith
total_time-le end_us longest low t (r ∷ rounds) (reading, after, now, starts, start, ends, a) w =
    let later = now_us_mono t r.now reading after in
    let started = now_us_mono r.now r.req_start now starts in
    let ended = now_us_mono r.req_start r.req_end start ends in
    elim (Bool-cases (ltb (now_us r.now) end_us)) [
      | inr over ↦ rw over (omega arith)
      | inl more ↦
          let w' = rw more at w in
          let rest = total_time-le end_us longest low r.req_end rounds a w'.2 in
          rw more (elim (Bool-cases (ltb (now_us r.req_end) end_us)) [
            | inl in_time ↦ grind (arith, rest, later, started, ended)
            | inr late ↦
                let none_left =
                  ap total_time (requests-over end_us r.req_end rounds a (grind arith)) in
                omega (arith, none_left, w'.1)
          ])
    ]

-- The time of all requests fits a long long: it is part of the time between two readings.
total_time-fits :
    (end_us : ℕ) (t : Timespec) (rounds : List Round)
    → AreReadings t rounds
    → total_time (requests end_us rounds) + now_us t < 2 ^ 63 - 1
unfolding requests total_time
total_time-fits end_us t [] a = omega (arith, now_us_bound a)
total_time-fits end_us t (r ∷ rounds) (reading, after, now, starts, start, ends, a) =
    let later = now_us_mono t r.now reading after in
    let started = now_us_mono r.now r.req_start now starts in
    let ended = now_us_mono r.req_start r.req_end start ends in
    let rest = total_time-fits end_us r.req_end rounds a in
    elim (Bool-cases (ltb (now_us r.now) end_us)) [
      | inl more ↦ rw more (omega arith)
      | inr over ↦ rw over (omega (arith, now_us_bound reading))
    ]

Occurs-total_time : (n : ℕ) (rs : List Round) → Occurs n rs → n ≤ total_time rs
unfolding total_time
Occurs-total_time n [] o = elim o [ ]
Occurs-total_time n (r ∷ rs) (inl h) = omega arith
Occurs-total_time n (r ∷ rs) (inr o) = omega (arith, Occurs-total_time n rs o)

-- A thread whose clock is read in order, for less than 2^43 seconds, with a handle and memory, a URL
-- of at most 480 bytes and fewer than 2^31 rounds: its requests together take at most the time that
-- it was asked to run and, for the last one, that of its longest request, however long each of them
-- takes; the sum of their times is at least the longest of them, and it is below 2^63.
pub worker_times_lem :
    (ctx : WorkerCtx) (start : Timespec) (rounds : List Round)
    → AreReadings start rounds
    → length ctx.url ≤ 480
    → length rounds < 2 ^ 31
    → (m : WorkerMetrics) × (loadgen_worker ctx start true true rounds ≡ some (some m))
      × (m.total_response_time_us ≤ pos_part ctx.duration_sec * 1000000 + m.max_response_time_us)
      × (m.max_response_time_us ≤ m.total_response_time_us)
      × (m.total_response_time_us < 2 ^ 63)
worker_times_lem ctx start rounds a u h =
    let end_us = end_of ctx (now_us start) in
    let rs = requests end_us rounds in
    let fits = total_time-fits end_us start rounds a in
    let (m, result, d) = loadgen_worker_lem ctx start rounds u h (omega (arith, fits)) in
    let spent =
      total_time-le end_us m.max_response_time_us m.min_response_time_us start rounds a d.within in
    (
      m,
      result,
      omega (arith, d.total, spent),
      most m rs d.extremes d.total,
      omega (arith, d.total, fits),
    )
  where
    most :
        (m : WorkerMetrics) (rs : List Round)
        → ((rs ≡ []) × (m.min_response_time_us ≡ 0) × (m.max_response_time_us ≡ 0))
          ⊎ (Occurs m.min_response_time_us rs × Occurs m.max_response_time_us rs)
        → m.total_response_time_us ≡ total_time rs
        → m.max_response_time_us ≤ m.total_response_time_us
    most m rs (inl (_, _, e)) t = omega arith
    most m rs (inr (_, o)) t = omega (arith, Occurs-total_time m.max_response_time_us rs o)
