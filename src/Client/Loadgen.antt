-- ===== src/Client/Loadgen.antt =====
-- run_loadgen of src/client/loadgen.c: the sum of what the threads measured, and the line that it
-- adds to the CSV file. `double` and its arithmetic are a parameter.
pub mod Sums
pub mod Csv
pub mod Threads
use log_aggregator_c.Base.{
  ℕ, ◌+◌, Bool, true, false, not, Option, none, some, List, [], ◌∷◌, ◌++◌, ℤ, pos, negsuc, ◌+ℤ◌,
  ltb_ℤ, ltb, ◌==◌, if◌then◌else◌, ◌>>=◌,
}
use log_aggregator_c.Client.{LoadgenConfig}
use log_aggregator_c.Client.Clock.{Timespec}
use log_aggregator_c.Client.Worker.{WorkerMetrics, WorkerCtx, Round, llong_max, loadgen_worker}

pub record Floats : Type 1 where
  pub Double : Type 0
  pub of_int : ℤ → Double
  pub add : Double → Double → Double
  pub mul : Double → Double → Double
  pub div : Double → Double → Double

-- The variables of the loop over the metrics. The counts are of type long: sums of fewer than 2^31
-- values of type int.
pub record Totals (f : Floats) : Type 0 where
  pub success_count : ℤ
  pub failure_count : ℤ
  pub total_response_time_us : f.Double
  pub global_min_us : ℕ
  pub global_max_us : ℕ

-- The columns of a line.
pub record Line (f : Floats) : Type 0 where
  pub workload : List ℕ
  pub threads : ℤ
  pub duration : ℤ
  pub success_count : ℤ
  pub failure_count : ℤ
  pub avg_response_time_ms : f.Double
  pub max_response_time_ms : f.Double
  pub min_response_time_ms : f.Double
  pub avg_throughput_rps : f.Double
  pub failure_rate : f.Double

pub data CsvLine (f : Floats) : Type 0 where
  header : CsvLine f
  row : Line f → CsvLine f

-- The second loop over pthread_join: it copies the metrics through the pointer that a thread
-- returned, without a test for NULL.
unfoldable pub collect : List (Option WorkerMetrics) → Option (List WorkerMetrics)
collect [] = some []
collect (m ∷ ms) = m >>= λ a. collect ms >>= λ rest. some (a ∷ rest)

module _ (f : Floats) where
  open f use {Double, of_int, add, mul, div}

  abbrev pub first_totals : Totals f
  first_totals = record {
    success_count = pos 0;
    failure_count = pos 0;
    total_response_time_us = of_int (pos 0);
    global_min_us = llong_max;
    global_max_us = 0;
  }

  -- The body of the last loop. A minimum is never negative.
  unfoldable pub add_metrics : WorkerMetrics → Totals f → Totals f
  add_metrics m t = record {
    success_count = t.success_count +ℤ m.success_count;
    failure_count = t.failure_count +ℤ m.failure_count;
    total_response_time_us = add t.total_response_time_us (of_int (pos m.total_response_time_us));
    global_min_us =
        if ltb m.min_response_time_us t.global_min_us
        then m.min_response_time_us
        else t.global_min_us;
    global_max_us =
        if ltb t.global_max_us m.max_response_time_us
        then m.max_response_time_us
        else t.global_max_us;
  }

  unfoldable pub sum_metrics : List WorkerMetrics → Totals f → Totals f
  sum_metrics [] t = t
  sum_metrics (m ∷ ms) t = sum_metrics ms (add_metrics m t)

  -- From `total_count` on.
  unfoldable pub line_of : LoadgenConfig → Totals f → Line f
  line_of cfg t =
      let total_count = t.success_count +ℤ t.failure_count in
      let avg_us =
        if ltb_ℤ (pos 0) total_count
        then div t.total_response_time_us (of_int total_count)
        else of_int (pos 0) in
      record {
        workload = cfg.workload;
        threads = cfg.threads;
        duration = cfg.duration_sec;
        success_count = t.success_count;
        failure_count = t.failure_count;
        avg_response_time_ms = div avg_us (of_int (pos 1000));
        max_response_time_ms = div (of_int (pos t.global_max_us)) (of_int (pos 1000));
        min_response_time_ms =
            if t.global_min_us == llong_max
            then of_int (pos 0)
            else div (of_int (pos t.global_min_us)) (of_int (pos 1000));
        avg_throughput_rps = div (of_int t.success_count) (of_int cfg.duration_sec);
        failure_rate = mul (div (of_int t.failure_count) (of_int total_count)) (of_int (pos 100));
      }

  -- The two calls of fopen and of fprintf, the second of which succeeds. `none` is a file that does
  -- not exist, `can_read` whether one that exists can be opened with "r".
  abbrev pub append_line : Line f → (can_read : Bool) → Option (List (CsvLine f)) → List (CsvLine f)
  append_line l can_read none = header ∷ row l ∷ []
  append_line l true (some lines) = lines ++ (row l ∷ [])
  append_line l false (some lines) = lines ++ (header ∷ row l ∷ [])

  -- `got_memory` is whether the three calls of malloc succeed, `joined` what join_threads gives.
  -- Returns the result and the file afterwards; `none` is undefined: in a thread or its join, or the
  -- read through NULL.
  unfoldable pub run_loadgen :
      LoadgenConfig
      → (got_memory : Bool) → (joined : Option (List (Option WorkerMetrics)))
      → (can_append can_read : Bool) → Option (List (CsvLine f))
      → Option (ℤ × Option (List (CsvLine f)))
  run_loadgen cfg got_memory joined can_append can_read file =
      if not got_memory
      then some (negsuc 0, file)
      else (joined >>= collect >>= λ metrics.
          if not can_append
          then some (negsuc 0, file)
          else some (
            pos 0,
            some (append_line (line_of cfg (sum_metrics metrics first_totals)) can_read file),
          ))

-- workers[i]
abbrev pub worker_of : LoadgenConfig → (url : List ℕ) → ℕ → WorkerCtx
worker_of cfg url i = record {
  thread_id = pos i;
  duration_sec = cfg.duration_sec;
  url = url;
  workload = cfg.workload;
}

-- What a thread meets: whether pthread_create succeeds, which is not tested, the clock at its start, whether it gets a handle and memory, its rounds.
pub record ThreadRun : Type 0 where
  pub created : Bool
  pub start : Timespec
  pub got_curl : Bool
  pub got_memory : Bool
  pub rounds : List Round

-- The two loops over the threads, from thread `i` on: what pthread_join finds for each. Of a thread
-- that was not created the handle is not set, and to join it is undefined.
unfoldable pub join_threads :
    LoadgenConfig → (url : List ℕ) → (i : ℕ) → List ThreadRun → Option (List (Option WorkerMetrics))
join_threads cfg url i [] = some []
join_threads cfg url i (r ∷ runs) =
    if not r.created
    then none
    else (loadgen_worker (worker_of cfg url i) r.start r.got_curl r.got_memory r.rounds >>= λ m.
        join_threads cfg url (i + 1) runs >>= λ ms. some (m ∷ ms))
