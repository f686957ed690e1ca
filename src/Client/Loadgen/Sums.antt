-- ===== src/Client/Loadgen/Sums.antt =====
-- The totals over all threads.
use log_aggregator_c.Base.{
  ℕ, ◌+◌, ◌*◌, ◌^◌, ◌≤◌, ◌<◌, ◌≡◌, refl, ap, ap₂, sym, ◌∙◌, ◌⊎◌, inl, inr, List, [], ◌∷◌, arith,
  pos, pos_part, ◌+ℤ◌, length,
}
use log_aggregator_c.Client.Worker.{WorkerMetrics, llong_max}
use log_aggregator_c.Client.Loadgen.{Floats, Totals, add_metrics, first_totals, sum_metrics}

-- The counts of every thread are natural numbers that fit an int.
abbrev pub AllCounted : List WorkerMetrics → Type 0
AllCounted [] = Unit
AllCounted (m ∷ ms) =
    (m.success_count ≡ pos (pos_part m.success_count))
    × (m.failure_count ≡ pos (pos_part m.failure_count))
    × (pos_part m.success_count < 2 ^ 31)
    × (pos_part m.failure_count < 2 ^ 31)
    × AllCounted ms

unfoldable pub all_successes : List WorkerMetrics → ℕ
all_successes [] = 0
all_successes (m ∷ ms) = pos_part m.success_count + all_successes ms

unfoldable pub all_failures : List WorkerMetrics → ℕ
all_failures [] = 0
all_failures (m ∷ ms) = pos_part m.failure_count + all_failures ms

abbrev pub AllBetween : (low high : ℕ) → List WorkerMetrics → Type 0
AllBetween low high [] = Unit
AllBetween low high (m ∷ ms) =
    (low ≤ m.min_response_time_us) × (m.max_response_time_us ≤ high) × AllBetween low high ms

abbrev pub IsSomeMin : ℕ → List WorkerMetrics → Type 0
IsSomeMin n [] = ⊥
IsSomeMin n (m ∷ ms) = (m.min_response_time_us ≡ n) ⊎ IsSomeMin n ms

abbrev pub IsSomeMax : ℕ → List WorkerMetrics → Type 0
IsSomeMax n [] = ⊥
IsSomeMax n (m ∷ ms) = (m.max_response_time_us ≡ n) ⊎ IsSomeMax n ms

-- What the totals `t` say of the metrics `ms`, when the sums start at `s` and `g` and the extremes
-- at `low` and `high`.
pub record Summed {f : Floats} (ms : List WorkerMetrics) (s g low high : ℕ) (t : Totals f)
    : Type 0 where
  pub successes : t.success_count ≡ pos (s + all_successes ms)
  pub failures : t.failure_count ≡ pos (g + all_failures ms)
  pub between : AllBetween t.global_min_us t.global_max_us ms
  pub low_ge : t.global_min_us ≤ low
  pub high_le : high ≤ t.global_max_us
  pub low_found : (t.global_min_us ≡ low) ⊎ IsSomeMin t.global_min_us ms
  pub high_found : (t.global_max_us ≡ high) ⊎ IsSomeMax t.global_max_us ms

+ℤ-pos : (a b : ℕ) → pos a +ℤ pos b ≡ pos (a + b)
unfolding ◌+ℤ◌
+ℤ-pos a b = ground arith

module _ {f : Floats} where
  add_metrics-extremes :
      (m : WorkerMetrics) (t : Totals f)
      → let u = add_metrics f m t in
        (u.global_min_us ≤ m.min_response_time_us)
        × (m.max_response_time_us ≤ u.global_max_us)
        × (u.global_min_us ≤ t.global_min_us)
        × (t.global_max_us ≤ u.global_max_us)
        × ((u.global_min_us ≡ t.global_min_us) ⊎ (m.min_response_time_us ≡ u.global_min_us))
        × ((u.global_max_us ≡ t.global_max_us) ⊎ (m.max_response_time_us ≡ u.global_max_us))
  unfolding add_metrics
  add_metrics-extremes m t =
      (ground arith, ground arith, ground arith, ground arith, ground arith, ground arith)

  add_metrics-counts :
      (m : WorkerMetrics) (t : Totals f) (s g a b : ℕ)
      → t.success_count ≡ pos s
      → t.failure_count ≡ pos g
      → m.success_count ≡ pos a
      → m.failure_count ≡ pos b
      → ((add_metrics f m t).success_count ≡ pos (s + a))
        × ((add_metrics f m t).failure_count ≡ pos (g + b))
  unfolding add_metrics
  add_metrics-counts m t s g a b hs hg ha hb =
      (ap₂ ◌+ℤ◌ hs ha ∙ +ℤ-pos s a, ap₂ ◌+ℤ◌ hg hb ∙ +ℤ-pos g b)

  sum_metrics-Summed :
      (ms : List WorkerMetrics) (t : Totals f) (s g : ℕ)
      → AllCounted ms
      → t.success_count ≡ pos s
      → t.failure_count ≡ pos g
      → Summed ms s g t.global_min_us t.global_max_us (sum_metrics f ms t)
  unfolding sum_metrics all_successes all_failures
  sum_metrics-Summed [] t s g c hs hg = record {
    successes = hs ∙ ap pos (omega arith);
    failures = hg ∙ ap pos (omega arith);
    between = tt;
    low_ge = omega arith;
    high_le = omega arith;
    low_found = inl refl;
    high_found = inl refl;
  }
  sum_metrics-Summed (m ∷ ms) t s g c hs hg =
      let a = pos_part m.success_count in
      let b = pos_part m.failure_count in
      let (min_le, max_ge, low_ge, high_le, low, high) = add_metrics-extremes m t in
      let (counted, lost) = add_metrics-counts m t s g a b hs hg c.0 c.1 in
      let r = sum_metrics-Summed ms (add_metrics f m t) (s + a) (g + b) c.4 counted lost in
      record {
        successes = r.successes ∙ ap pos (omega arith);
        failures = r.failures ∙ ap pos (omega arith);
        between = (omega (arith, r.low_ge, min_le), omega (arith, r.high_le, max_ge), r.between);
        low_ge = omega (arith, r.low_ge, low_ge);
        high_le = omega (arith, r.high_le, high_le);
        low_found = found_min r.low_found low;
        high_found = found_max r.high_found high;
      }
    where
      found_min :
          {a b n : ℕ}
          → (n ≡ b) ⊎ IsSomeMin n ms
          → (b ≡ a) ⊎ (m.min_response_time_us ≡ b)
          → (n ≡ a) ⊎ IsSomeMin n (m ∷ ms)
      found_min (inr o) k = inr (inr o)
      found_min (inl h) (inl k) = inl (h ∙ k)
      found_min (inl h) (inr k) = inr (inl (k ∙ sym h))

      found_max :
          {a b n : ℕ}
          → (n ≡ b) ⊎ IsSomeMax n ms
          → (b ≡ a) ⊎ (m.max_response_time_us ≡ b)
          → (n ≡ a) ⊎ IsSomeMax n (m ∷ ms)
      found_max (inr o) k = inr (inr o)
      found_max (inl h) (inl k) = inl (h ∙ k)
      found_max (inl h) (inr k) = inr (inl (k ∙ sym h))

-- All counts together fit a long.
all_counts-lt :
    (ms : List WorkerMetrics)
    → AllCounted ms
    → all_successes ms + all_failures ms ≤ length ms * 2 ^ 32
unfolding all_successes all_failures
all_counts-lt [] c = omega arith
all_counts-lt (m ∷ ms) c = omega (arith, all_counts-lt ms c.4)

-- The totals over fewer than 2^31 threads, whose counts fit an int: the counts are the sums over
-- all threads and fit a long, together too; no thread's minimum is below the total's and no
-- maximum above it, and these are some thread's, or the values that they started with.
pub sum_metrics_lem :
    (f : Floats) (ms : List WorkerMetrics)
    → AllCounted ms
    → length ms < 2 ^ 31
    → Summed ms 0 0 llong_max 0 (sum_metrics f ms (first_totals f))
      × (all_successes ms + all_failures ms < 2 ^ 63)
sum_metrics_lem f ms c h =
    (sum_metrics-Summed ms (first_totals f) 0 0 c refl refl, omega (arith, all_counts-lt ms c))
