-- ===== src/Client/Clock.antt =====
-- now_us of src/client/loadgen_worker.c: the monotonic clock in microseconds.
use log_aggregator_c.Base.{ℕ, ◌+◌, ◌-◌, ◌*◌, ◌/◌, ◌^◌, ◌≤◌, ◌<◌, ◌≡◌, ◌⊎◌, inl, inr, arith}

-- What clock_gettime writes. It counts from the start of the machine: the fields are not negative.
pub record Timespec : Type 0 where
  pub tv_sec : ℕ
  pub tv_nsec : ℕ

-- No step overflows a long long for readings as IsReading describes them.
unfoldable pub now_us : Timespec → ℕ
now_us ts = ts.tv_sec * 1000000 + ts.tv_nsec / 1000

-- What POSIX says of a reading: tv_nsec is below a second. And the machine runs for less than 2^43
-- seconds.
pub record IsReading (t : Timespec) : Type 0 where
  pub nanoseconds : t.tv_nsec < 1000000000
  pub uptime : t.tv_sec < 2 ^ 43

-- A reading of the clock and one that is not before it.
abbrev pub NotAfter : Timespec → Timespec → Type 0
NotAfter t u = (t.tv_sec < u.tv_sec) ⊎ ((t.tv_sec ≡ u.tv_sec) × (t.tv_nsec ≤ u.tv_nsec))

pub now_us_bound : {t : Timespec} → IsReading t → now_us t < 2 ^ 63 - 1
unfolding now_us
now_us_bound r = omega (arith, r.nanoseconds, r.uptime)

pub now_us_mono : (t u : Timespec) → IsReading t → NotAfter t u → now_us t ≤ now_us u
unfolding now_us
now_us_mono t u r (inl h) = omega (arith, r.nanoseconds, h)
now_us_mono t u r (inr h) = omega (arith, h.0, h.1)
