-- ===== src/Time/Tests.antt =====
-- Times and timers (kernel/src/sys/time.h and time.c) on small inputs.
use elysium_os.Base.{true, ok, ℕ, ◌+◌, ◌-◌, ◌≡◌, ltb, List, [], ◌∷◌, arith, refl}
use elysium_os.Time.{Time, Clock, time_add, time_subtract, time_advance, timer_create}
use elysium_os.Time.Arithmetic.{total, IsTime, time_add-total, time_subtract-total}
use elysium_os.Time.Timers.{
  IsClock, Advanced, WithTimer, time_advance-Advanced, time_advance-time_add,
  timer_create-time_advance,
}

abbrev time : ℕ → ℕ → Time
time s n = record { seconds = s; nanoseconds = n }

abbrev late : Time
late = time 1 900000000

abbrev step : Time
step = time 2 200000000

-- callbacks that add to a log
abbrev clock : Clock (List ℕ)
clock = record {
  realtime = late;
  monotonic = late;
  timers =
      record { deadline = time 4 100000000; callback = λ w. 7 ∷ w }
      ∷ record { deadline = time 4 100000001; callback = λ w. 8 ∷ w }
      ∷ [];
  world = [];
}

time_add_run : time_add late step ≡ time 4 100000000
unfolding time_add
time_add_run = refl

time_subtract_run : time_subtract step late ≡ time 0 300000000
unfolding time_subtract
time_subtract_run = refl

time_advance_run : Clock.world (time_advance step clock) ≡ 7 ∷ []
unfolding time_advance
time_advance_run = refl

IsTime-late : IsTime late
IsTime-late = record { seconds_fit = omega arith; nanoseconds_fit = omega arith }

IsTime-step : IsTime step
IsTime-step = record { seconds_fit = omega arith; nanoseconds_fit = omega arith }

IsClock-clock : IsClock clock
IsClock-clock = record {
  monotonic = IsTime-late;
  timers = (
    record { seconds_fit = omega arith; nanoseconds_fit = omega arith },
    (record { seconds_fit = omega arith; nanoseconds_fit = omega arith }, tt),
  );
}

time_add-total_example :
    IsTime (time_add late step) × (total (time_add late step) ≡ total late + total step)
time_add-total_example = time_add-total late step IsTime-late IsTime-step (omega arith)

time_subtract-total_example :
    IsTime (time_subtract step late) × (total (time_subtract step late) ≡ total step - total late)
time_subtract-total_example = time_subtract-total step late IsTime-step IsTime-late

time_advance-Advanced_example : Advanced clock (total late + total step) (time_advance step clock)
time_advance-Advanced_example =
    time_advance-Advanced step clock IsTime-step IsClock-clock (omega arith)

time_advance-time_add_example :
    Clock.timers (time_advance late (time_advance step clock))
    ≡ Clock.timers (time_advance (time_add step late) clock)
time_advance-time_add_example =
    time_advance-time_add step late clock IsTime-step IsTime-late IsClock-clock (omega arith)

timer_create-time_advance_example :
    (c' : Clock (List ℕ)) × (timer_create true late (λ w. 9 ∷ w) clock ≡ ok c')
    × WithTimer (ltb (total step) (total late)) step late (λ w. 9 ∷ w) clock c'
timer_create-time_advance_example =
    timer_create-time_advance late step (λ w. 9 ∷ w) clock IsTime-late IsTime-step IsClock-clock
      (omega arith) (omega arith)
