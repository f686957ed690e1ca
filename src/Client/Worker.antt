-- ===== src/Client/Worker.antt =====
-- A thread of the load generator, src/client/loadgen_worker.c: its loop and what it measures.
pub mod Measures
pub mod Report
pub mod Times
use log_aggregator_c.Base.{
  ℕ, suc, ◌+◌, ◌-◌, ◌*◌, ◌^◌, Bool, true, false, not, Option, none, some, List, [], ◌∷◌, ℤ, pos,
  negsuc, pos_part, add32, failed, ltb, ◌==◌, ◌>>=◌, if◌then◌else◌,
}
use log_aggregator_c.CString.{codes, str_eq}
use log_aggregator_c.Client.Clock.{Timespec, now_us}
use log_aggregator_c.Client.Requests.{Request, send_post_request, send_get_request}

-- include/client/loadgen_worker.h. The times are not negative: natural numbers.
pub record WorkerMetrics : Type 0 where
  pub success_count : ℤ
  pub failure_count : ℤ
  pub total_response_time_us : ℕ
  pub min_response_time_us : ℕ
  pub max_response_time_us : ℕ

pub record WorkerCtx : Type 0 where
  pub thread_id : ℤ
  pub duration_sec : ℤ
  pub url : List ℕ
  pub workload : List ℕ

-- What a round of the loop meets: the clock in its test, before the request and behind it, what
-- the random numbers decide, and whether libcurl succeeds.
pub record Round : Type 0 where
  pub now : Timespec
  pub req_start : Timespec
  pub below_most : Bool  -- r < 0.8
  pub below_half : Bool  -- r < 0.5
  pub rand_index : ℕ
  pub rand_limit : ℕ
  pub rand_page : ℕ
  pub ok : Bool
  pub req_end : Timespec

abbrev pub llong_max : ℕ
llong_max = 2 ^ 63 - 1

-- `elapsed`, which is set to 0 where it would be negative
abbrev pub elapsed : Round → ℕ
elapsed r = now_us r.req_end - now_us r.req_start

abbrev pub send_post : WorkerCtx → Round → Option (ℤ × Option Request)
send_post ctx r = send_post_request ctx.url r.rand_index r.ok

abbrev pub send_get : WorkerCtx → Round → Option (ℤ × Option Request)
send_get ctx r = send_get_request ctx.url r.rand_index r.rand_limit r.rand_page r.ok

-- `res` after the choice of the request. In the write-heavy branch the result is not assigned.
unfoldable pub send_request : WorkerCtx → Round → Option ℤ
send_request ctx r =
    if str_eq ctx.workload (codes "write-heavy")
    then (send_post ctx r >>= λ a. some (negsuc 0))
    else if str_eq ctx.workload (codes "read-heavy")
    then ((if r.below_most then send_get ctx r else send_post ctx r) >>= λ a. some a.0)
    else ((if r.below_half then send_post ctx r else send_get ctx r) >>= λ a. some a.0)

-- The variables behind the request, where the sum of the times does not overflow.
unfoldable pub counted : ℤ → ℕ → WorkerMetrics → WorkerMetrics
counted res time m = record {
  success_count = if failed res then m.success_count else add32 m.success_count (pos 1);
  failure_count = if failed res then add32 m.failure_count (pos 1) else m.failure_count;
  total_response_time_us = m.total_response_time_us + time;
  min_response_time_us = if ltb time m.min_response_time_us then time else m.min_response_time_us;
  max_response_time_us = if ltb m.max_response_time_us time then time else m.max_response_time_us;
}

-- The rest of the loop's body. A sum of the times that a long long does not hold is undefined.
abbrev pub count_request : ℤ → ℕ → WorkerMetrics → Option WorkerMetrics
count_request res time m =
    if ltb (m.total_response_time_us + time) (2 ^ 63) then some (counted res time m) else none

-- while (now_us() < end_us), over the rounds up to one whose clock has reached the end; where the
-- list ends, the clock has.
unfoldable pub worker_rounds :
    WorkerCtx → (end_us : ℕ) → List Round → WorkerMetrics → Option WorkerMetrics
worker_rounds ctx end_us [] m = some m
worker_rounds ctx end_us (r ∷ rounds) m = elim (ltb (now_us r.now) end_us) [
  | false ↦ some m
  | true ↦ send_request ctx r >>= λ res.
      count_request res (elapsed r) m >>= λ m'. worker_rounds ctx end_us rounds m'
]

abbrev pub first_metrics : WorkerMetrics
first_metrics = record {
  success_count = pos 0;
  failure_count = pos 0;
  total_response_time_us = 0;
  min_response_time_us = llong_max;
  max_response_time_us = 0;
}

-- The metrics of a thread that got no handle from curl_easy_init.
abbrev pub no_metrics : WorkerMetrics
no_metrics = record first_metrics { min_response_time_us = 0 }

abbrev pub set_min : WorkerMetrics → WorkerMetrics
set_min m = record m {
  min_response_time_us = if m.min_response_time_us == llong_max then 0 else m.min_response_time_us;
}

-- The inner `none` is NULL, where malloc fails.
unfoldable pub loadgen_worker :
    WorkerCtx
    → (start : Timespec) → (got_curl got_memory : Bool) → List Round
    → Option (Option WorkerMetrics)
loadgen_worker ctx start got_curl got_memory rounds =
    if not got_curl
    then some (if got_memory then some no_metrics else none)
    else (worker_rounds ctx (now_us start + pos_part ctx.duration_sec * 1000000) rounds
          first_metrics
        >>= λ m. some (if got_memory then some (set_min m) else none))
