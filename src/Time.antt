-- ===== src/Time.antt =====
-- Points in time and timers, kernel/src/sys/time.h and time.c.
pub mod Arithmetic
pub mod Timers
mod Tests
use elysium_os.Base.{
  ℕ, ◌+◌, ◌-◌, ◌*◌, ◌%◌, ◌^◌, ◌<◌, Bool, ◌&&◌, ◌||◌, List, [], ◌∷◌, ltb, leb, ◌==◌, if◌then◌else◌,
  add64, sub64, Run, ok, assert, ◌>>◌,
}

-- TIME_NANOSECONDS_IN_SECOND
abbrev pub nanoseconds_in_second : ℕ
nanoseconds_in_second = 1000000000

-- time_t
pub record Time : Type 0 where
  pub seconds : ℕ
  pub nanoseconds : ℕ

-- the sums of the 32-bit field
abbrev pub add32 : ℕ → ℕ → ℕ
add32 a b = (a + b) % 2 ^ 32

abbrev pub sub32 : ℕ → ℕ → ℕ
sub32 a b = (a + 2 ^ 32 - b) % 2 ^ 32

unfoldable pub time_add : Time → Time → Time
time_add a b =
    let seconds = add64 a.seconds b.seconds in
    let nanoseconds = add32 a.nanoseconds b.nanoseconds in
    if leb nanoseconds_in_second nanoseconds
    then record { seconds = add64 seconds 1; nanoseconds = sub32 nanoseconds nanoseconds_in_second }
    else record { seconds = seconds; nanoseconds = nanoseconds }

unfoldable pub time_subtract : Time → Time → Time
time_subtract a b =
    if ltb a.seconds b.seconds
    then record { seconds = 0; nanoseconds = 0 }
    else (let seconds = sub64 a.seconds b.seconds in
        if ltb a.nanoseconds b.nanoseconds
        then (if seconds == 0 then record { seconds = 0; nanoseconds = 0 } else record {
          seconds = sub64 seconds 1;
          nanoseconds = add32 a.nanoseconds (sub32 nanoseconds_in_second b.nanoseconds);
        })
        else record { seconds = seconds; nanoseconds = sub32 a.nanoseconds b.nanoseconds })

-- timer_t. A callback acts on the rest of the kernel, `World`; it cannot create a timer, since the
-- lock of the list is held while it runs.
pub record Timer (World : Type 0) : Type 0 where
  pub deadline : Time
  pub callback : World → World

pub record Clock (World : Type 0) : Type 0 where
  pub realtime : Time
  pub monotonic : Time
  pub timers : List (Timer World)
  pub world : World

-- The two tests that skip a timer.
abbrev pub is_later : (deadline now : Time) → Bool
is_later deadline now =
    ltb now.seconds deadline.seconds
    || (deadline.seconds == now.seconds && ltb now.nanoseconds deadline.nanoseconds)

module _ {World : Type 0} where
  -- The loop: the timers that stay, and the world after the callbacks of the others.
  unfoldable pub expire : Time → List (Timer World) → World → List (Timer World) × World
  expire now [] w = ([], w)
  expire now (t ∷ ts) w =
      if is_later t.deadline now
      then (let (kept, w') = expire now ts w in (t ∷ kept, w'))
      else expire now ts (t.callback w)

  unfoldable pub time_advance : Time → Clock World → Clock World
  unfolding time_add expire
  time_advance length c =
      let now = time_add c.monotonic length in
      let (kept, w) = expire now c.timers c.world in
      record { monotonic = now; realtime = time_add c.realtime length; timers = kept; world = w }

  -- heap_alloc panics unless the heap has room for the timer.
  unfoldable pub timer_create :
      (room : Bool) → Time → (World → World) → Clock World → Run (Clock World)
  unfolding time_add
  timer_create room length callback c =
      assert room
      >> ok (record c {
        timers = record { deadline = time_add c.monotonic length; callback = callback } ∷ c.timers;
      })
