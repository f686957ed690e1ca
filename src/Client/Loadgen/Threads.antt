-- ===== src/Client/Loadgen/Threads.antt =====
-- All threads together: every request is counted once.
use log_aggregator_c.Base.{
  ℕ, suc, ◌+◌, ◌^◌, ◌≤◌, ◌<◌, ◌≡◌, refl, ap, sym, ◌∙◌, true, Bool-cases, inl, inr, some, List, [],
  ◌∷◌, map, arith, pos, pos_part, ltb, length,
}
use log_aggregator_c.Client.{LoadgenConfig}
use log_aggregator_c.Client.Clock.{now_us}
use log_aggregator_c.Client.Worker.{WorkerMetrics, WorkerCtx, Round, llong_max}
use log_aggregator_c.Client.Worker.Measures.{requests, counts_as_success, successes, total_time}
use log_aggregator_c.Client.Worker.Report.{end_of, loadgen_worker_lem}
use log_aggregator_c.Client.Loadgen.{ThreadRun, worker_of, join_threads}
use log_aggregator_c.Client.Loadgen.Sums.{AllCounted, all_successes, all_failures}

-- The requests that a thread makes; they do not depend on which of the threads it is.
abbrev pub thread_requests : LoadgenConfig → ThreadRun → List Round
thread_requests cfg r = requests (end_of (worker_of cfg [] 0) (now_us r.start)) r.rounds

-- Every thread is created, gets a handle and memory, and its rounds and the sum of their times can
-- be counted.
abbrev pub AllFine : LoadgenConfig → List ThreadRun → Type 0
AllFine cfg [] = Unit
AllFine cfg (r ∷ runs) =
    (r.created ≡ true)
    × (r.got_curl ≡ true)
    × (r.got_memory ≡ true)
    × (length r.rounds < 2 ^ 31)
    × (total_time (thread_requests cfg r) < llong_max)
    × AllFine cfg runs

unfoldable pub all_requests : LoadgenConfig → List ThreadRun → ℕ
all_requests cfg [] = 0
all_requests cfg (r ∷ runs) = length (thread_requests cfg r) + all_requests cfg runs

successes-le : (ctx : WorkerCtx) (rs : List Round) → successes ctx rs ≤ length rs
unfolding successes
successes-le ctx [] = omega arith
successes-le ctx (r ∷ rs) = elim (Bool-cases (counts_as_success ctx r)) [
  | inl e ↦ rw e (omega (arith, successes-le ctx rs))
  | inr e ↦ rw e (omega (arith, successes-le ctx rs))
]

length-requests-le : (end_us : ℕ) (rs : List Round) → length (requests end_us rs) ≤ length rs
unfolding requests
length-requests-le end_us [] = omega arith
length-requests-le end_us (r ∷ rs) = elim (Bool-cases (ltb (now_us r.now) end_us)) [
  | inl e ↦ rw e (omega (arith, length-requests-le end_us rs))
  | inr e ↦ rw e (omega arith)
]

-- With a URL of at most 480 bytes, and threads that are all created, get a handle and memory, and
-- each make fewer than 2^31 rounds whose requests together take less than the longest time that a
-- long long holds, run_loadgen joins threads that all return metrics, whose counts fit an int, and all successes and failures together
-- are exactly the requests that the threads made.
pub join_threads_lem :
    (cfg : LoadgenConfig) (url : List ℕ) (i : ℕ) (runs : List ThreadRun)
    → length url ≤ 480
    → AllFine cfg runs
    → (ms : List WorkerMetrics) × (join_threads cfg url i runs ≡ some (map some ms))
      × AllCounted ms
      × (length ms ≡ length runs)
      × (all_successes ms + all_failures ms ≡ all_requests cfg runs)
unfolding join_threads all_successes all_failures all_requests
join_threads_lem cfg url i [] u fine = ([], refl, tt, refl, refl)
join_threads_lem cfg url i (r ∷ runs) u fine =
    let ctx = worker_of cfg url i in
    let rs = thread_requests cfg r in
    let (m, result, d) = loadgen_worker_lem ctx r.start r.rounds u fine.3 fine.4 in
    let (ms, results, counted, same, sum) = join_threads_lem cfg url (i + 1) runs u fine.5 in
    let short : length rs < 2 ^ 31 =
      omega (arith, length-requests-le (end_of ctx (now_us r.start)) r.rounds, fine.3) in
    let le = successes-le ctx rs in
    (
      m ∷ ms,
      rw (fine.0, fine.1, fine.2) (rw result (rw results refl)),
      (
        d.succeeded ∙ ap (λ z. pos (pos_part z)) (sym d.succeeded),
        d.lost ∙ ap (λ z. pos (pos_part z)) (sym d.lost),
        omega (arith, ap pos_part d.succeeded, le, short),
        omega (arith, ap pos_part d.lost, short),
        counted,
      ),
      ap suc same,
      omega (arith, ap pos_part d.succeeded, ap pos_part d.lost, le, sum),
    )
