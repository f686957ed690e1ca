-- ===== src/Client/Tests.antt =====
-- A small run of the load generator, and the theorems at concrete inputs.
use log_aggregator_c.Base.{
  ℕ, ◌+◌, ◌*◌, ◌/◌, ◌%◌, ◌^◌, ◌≤◌, ◌<◌, ◌≡◌, refl, true, false, none, some, List, [], ◌∷◌, map, ℤ,
  pos, negsuc, pos_part, arith, length,
}
use log_aggregator_c.Config.{pages_in_cache}
use log_aggregator_c.CString.{codes, str_eq, upcase}
use log_aggregator_c.Handlers.Get.{clamp_limit}
use log_aggregator_c.Client.{LoadgenConfig}
use log_aggregator_c.Client.Args.{default_config, parse_args, client_main}
use log_aggregator_c.Client.Args.Settings.{
  Parsed, parse_args_lem, command_line, client_main-command_line,
}
use log_aggregator_c.Client.Requests.{get, get_url, send_get_request}
use log_aggregator_c.Client.Requests.Fit.{send_get_request_lem}
use log_aggregator_c.Client.Clock.{Timespec, now_us, IsReading, NotAfter}
use log_aggregator_c.Client.Worker.{
  WorkerMetrics, WorkerCtx, Round, llong_max, loadgen_worker, no_metrics,
}
use log_aggregator_c.Client.Worker.Measures.{requests, total_time}
use log_aggregator_c.Client.Worker.Report.{Measured, end_of, loadgen_worker_lem, write_heavy_fails}
use log_aggregator_c.Client.Worker.Times.{AreReadings, worker_times_lem}
use log_aggregator_c.Client.Loadgen.{
  Floats, ThreadRun, join_threads, first_totals, sum_metrics, run_loadgen,
}
use log_aggregator_c.Client.Loadgen.Sums.{
  Summed, AllCounted, all_successes, all_failures, sum_metrics_lem,
}
use log_aggregator_c.Client.Loadgen.Csv.{absent, Ran, run_loadgen_lem}
use log_aggregator_c.Client.Loadgen.Threads.{all_requests, join_threads_lem}

abbrev address : List ℕ
address = codes "http://localhost:8080/logs"

-- The number of threads is missing.
abbrev words : List (List ℕ)
words = codes "--url" ∷ address ∷ codes "--threads" ∷ []

parse_args_lem_example : Parsed words default_config (parse_args words default_config)
parse_args_lem_example = parse_args_lem words default_config

abbrev config : LoadgenConfig
config = record {
  threads = pos 2;
  duration_sec = pos 1;
  url = some address;
  csv_path = some (codes "out.csv");
  workload = codes "mixed";
}

client_main-command_line_example :
    client_main (command_line address 2 1 (codes "out.csv") (codes "mixed")) (λ cfg. pos 0)
    ≡ (pos 0, some config)
client_main-command_line_example =
    client_main-command_line address 2 1 (codes "out.csv") (codes "mixed") (λ cfg. pos 0)
      (omega arith) (omega arith) (omega arith) (omega arith)

send_get_request_lem_example :
    (level : List ℕ) × (limit : ℕ) × (page : ℕ) × (send_get_request address 7 99 9 false
      ≡ some (negsuc 0, some (get (get_url address level limit page))))
    × (1 ≤ limit)
    × (clamp_limit (pos limit) ≡ pos limit)
    × (1 ≤ page)
    × (page ≤ pages_in_cache)
    × (upcase level ≡ level)
send_get_request_lem_example = send_get_request_lem address 7 99 9 false (omega arith)

-- A reading in the first seconds.
abbrev at : ℕ → Timespec
at us = record { tv_sec = us / 1000000; tv_nsec = us % 1000000 * 1000 }

-- A thread that makes two requests, of 5 and 3 microseconds, and finds the time over at its third.
abbrev round : ℕ → ℕ → Round
round now time = record {
  now = at now;
  req_start = at now;
  below_most = true;
  below_half = false;
  rand_index = 1;
  rand_limit = 2;
  rand_page = 3;
  ok = true;
  req_end = at (now + time);
}

abbrev rounds : List Round
rounds = round 10 5 ∷ round 20 3 ∷ round 2000000 1 ∷ []

abbrev ctx : List ℕ → WorkerCtx
ctx workload = record {
  thread_id = pos 0;
  duration_sec = pos 1;
  url = address;
  workload = workload;
}

loadgen_worker_lem_example :
    (m : WorkerMetrics) × (loadgen_worker (ctx (codes "mixed")) (at 0) true true rounds
      ≡ some (some m))
    × Measured
        (ctx (codes "mixed"))
        (requests (end_of (ctx (codes "mixed")) (now_us (at 0))) rounds)
        m
unfolding requests now_us total_time
loadgen_worker_lem_example =
    loadgen_worker_lem (ctx (codes "mixed")) (at 0) rounds (omega arith) (omega arith) (omega arith)

write_heavy_fails_example :
    (m : WorkerMetrics) × (loadgen_worker (ctx (codes "write-heavy")) (at 0) true true rounds
      ≡ some (some m))
    × (m.success_count ≡ pos 0)
    × (m.failure_count ≡ pos 2)
unfolding requests str_eq now_us total_time
write_heavy_fails_example =
    write_heavy_fails (ctx (codes "write-heavy")) (at 0) rounds refl (omega arith) (omega arith)
      (omega arith)

-- Numbers in the place of floating-point values.
abbrev whole : Floats
whole = record {
  Double = ℤ;
  of_int = λ z. z;
  add = λ a b. pos (pos_part a + pos_part b);
  mul = λ a b. pos (pos_part a * pos_part b);
  div = λ a b. a;
}

abbrev metrics : List WorkerMetrics
metrics =
    record {
      success_count = pos 2;
      failure_count = pos 1;
      total_response_time_us = 9;
      min_response_time_us = 1;
      max_response_time_us = 5;
    }
    ∷ no_metrics
    ∷ []

sum_metrics_lem_example :
    Summed metrics 0 0 llong_max 0 (sum_metrics whole metrics (first_totals whole))
    × (all_successes metrics + all_failures metrics < 2 ^ 63)
sum_metrics_lem_example =
    sum_metrics_lem whole metrics
      (refl, refl, omega arith, omega arith, (refl, refl, omega arith, omega arith, tt))
      (omega arith)

run_loadgen_lem_example :
    Ran whole config true
      (some (map some metrics))
      true
      true
      none
      []
      (run_loadgen whole config true (some (map some metrics)) true true none)
run_loadgen_lem_example =
    run_loadgen_lem whole config true (some (map some metrics)) true true none [] (absent refl refl)

abbrev thread_run : ThreadRun
thread_run = record {
  created = true;
  start = at 0;
  got_curl = true;
  got_memory = true;
  rounds = rounds;
}

join_threads_lem_example :
    (ms : List WorkerMetrics) × (join_threads config address 0 (thread_run ∷ thread_run ∷ [])
      ≡ some (map some ms))
    × AllCounted ms
    × (length ms ≡ 2)
    × (all_successes ms + all_failures ms ≡ all_requests config (thread_run ∷ thread_run ∷ []))
unfolding requests now_us total_time
join_threads_lem_example =
    join_threads_lem config address 0 (thread_run ∷ thread_run ∷ []) (omega arith)
      (refl, refl, refl, omega arith, omega arith, (refl, refl, refl, omega arith, omega arith, tt))

at-IsReading : (us : ℕ) → us < 2 ^ 40 → IsReading (at us)
at-IsReading us h = record { nanoseconds = omega arith; uptime = omega (arith, h) }

at-NotAfter : (us vs : ℕ) → us ≤ vs → NotAfter (at us) (at vs)
at-NotAfter us vs h = grind (arith, h)

round-AreReadings :
    (us now time : ℕ) (later : List Round)
    → us ≤ now
    → now + time < 2 ^ 40
    → AreReadings (at (now + time)) later
    → AreReadings (at us) (round now time ∷ later)
round-AreReadings us now time later p q a = (
  at-IsReading us (omega arith),
  at-NotAfter us now p,
  at-IsReading now (omega arith),
  at-NotAfter now now (omega arith),
  at-IsReading now (omega arith),
  at-NotAfter now (now + time) (omega arith),
  a,
)

rounds-AreReadings : AreReadings (at 0) rounds
rounds-AreReadings =
    round-AreReadings 0 10 5 (round 20 3 ∷ round 2000000 1 ∷ []) (omega arith) (omega arith) (
      round-AreReadings 15 20 3 (round 2000000 1 ∷ []) (omega arith) (omega arith) (
        round-AreReadings 23 2000000 1 [] (omega arith) (omega arith)
          (at-IsReading 2000001 (omega arith))))

worker_times_lem_example :
    (m : WorkerMetrics) × (loadgen_worker (ctx (codes "mixed")) (at 0) true true rounds
      ≡ some (some m))
    × (m.total_response_time_us ≤ 1000000 + m.max_response_time_us)
    × (m.max_response_time_us ≤ m.total_response_time_us)
    × (m.total_response_time_us < 2 ^ 63)
worker_times_lem_example =
    worker_times_lem (ctx (codes "mixed")) (at 0) rounds rounds-AreReadings (omega arith)
      (omega arith)
