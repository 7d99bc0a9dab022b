-- ===== src/Time/Arithmetic.antt =====
-- `time_add` and `time_subtract` (kernel/src/sys/time.h) as arithmetic on nanoseconds.
use elysium_os.Base.{ℕ, ◌+◌, ◌-◌, ◌*◌, ◌^◌, ◌<◌, ◌≡◌, arith}
use elysium_os.Time.{Time, time_add, time_subtract}

-- A point in time as nanoseconds since the beginning.
abbrev pub total : Time → ℕ
total t = t.seconds * 1000000000 + t.nanoseconds

pub record IsTime (t : Time) : Type 0 where
  pub seconds_fit : t.seconds < 2 ^ 64
  pub nanoseconds_fit : t.nanoseconds < 1000000000

-- The sum of two well-formed times is well-formed and is their sum in nanoseconds, as long as the
-- seconds do not overflow.
pub time_add-total :
    (a b : Time)
    → IsTime a
    → IsTime b
    → a.seconds + b.seconds + 1 < 2 ^ 64
    → IsTime (time_add a b) × (total (time_add a b) ≡ total a + total b)
unfolding time_add
time_add-total a b p q fits = (
  record { seconds_fit = ground (arith, p, q); nanoseconds_fit = ground (arith, p, q) },
  ground (arith, p, q),
)

-- The difference of two well-formed times is well-formed, and it is their difference in nanoseconds,
-- 0 where the second is the later one.
pub time_subtract-total :
    (a b : Time)
    → IsTime a
    → IsTime b
    → IsTime (time_subtract a b) × (total (time_subtract a b) ≡ total a - total b)
unfolding time_subtract
time_subtract-total a b p q = (
  record { seconds_fit = ground (arith, p, q); nanoseconds_fit = ground (arith, p, q) },
  ground (arith, p, q),
)
