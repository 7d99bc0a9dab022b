-- ===== src/Time/Timers.antt =====
-- `time_advance` and `timer_create` (kernel/src/sys/time.c): which timers run, and when.
use elysium_os.Base.{
  ℕ, ◌+◌, ◌^◌, ◌<◌, ◌≤◌, ◌≡◌, true, false, ltb, if◌then◌else◌, List, [], ◌∷◌, arith, Bool-cases,
  inl, inr, refl, ap, Bool, ok, subst, sym, ◌∙◌,
}
use elysium_os.Time.{Time, Timer, Clock, is_later, expire, time_add, time_advance, timer_create}
use elysium_os.Time.Arithmetic.{total, IsTime, time_add-total}

is_later-total : (d now : Time) → IsTime d → IsTime now → is_later d now ≡ ltb (total now) (total d)
is_later-total d now p q = ground (arith, p, q)

module _ {World : Type 0} where
  -- the timers whose deadline is later than `now`, in nanoseconds
  abbrev pub waiting : (now : ℕ) → List (Timer World) → List (Timer World)
  waiting now [] = []
  waiting now (t ∷ ts) = if ltb now (total t.deadline) then t ∷ waiting now ts else waiting now ts

  -- The callbacks of the others, one after the next.
  abbrev pub run_due : (now : ℕ) → List (Timer World) → World → World
  run_due now [] w = w
  run_due now (t ∷ ts) w =
      if ltb now (total t.deadline) then run_due now ts w else run_due now ts (t.callback w)

  abbrev pub AreTimers : List (Timer World) → Type 0
  AreTimers [] = Unit
  AreTimers (t ∷ ts) = IsTime t.deadline × AreTimers ts

  pub record IsClock (c : Clock World) : Type 0 where
    pub monotonic : IsTime c.monotonic
    pub timers : AreTimers c.timers

  expire-waiting :
      (now : Time) (ts : List (Timer World)) (w : World)
      → IsTime now
      → AreTimers ts
      → expire now ts w ≡ (waiting (total now) ts, run_due (total now) ts w)
  unfolding expire
  expire-waiting now [] w p q = refl
  expire-waiting now (t ∷ ts) w p q =
      let same = is_later-total t.deadline now q.0 p in
      elim (Bool-cases (ltb (total now) (total t.deadline))) [
        | inl later ↦ simp (same, later, expire-waiting now ts w p q.1)
        | inr due ↦ simp (same, due, expire-waiting now ts (t.callback w) p q.1)
      ]

  waiting-AreTimers : (n : ℕ) (ts : List (Timer World)) → AreTimers ts → AreTimers (waiting n ts)
  waiting-AreTimers n [] q = tt
  waiting-AreTimers n (t ∷ ts) q = elim (Bool-cases (ltb n (total t.deadline))) [
    | inl later ↦ simp later (q.0, waiting-AreTimers n ts q.1)
    | inr due ↦ simp due (waiting-AreTimers n ts q.1)
  ]

  waiting-waiting :
      (m n : ℕ) (ts : List (Timer World)) → m ≤ n → waiting n (waiting m ts) ≡ waiting n ts
  waiting-waiting m n [] h = refl
  waiting-waiting m n (t ∷ ts) h = elim (Bool-cases (ltb m (total t.deadline))) [
    | inl later ↦ elim (Bool-cases (ltb n (total t.deadline))) [
      | inl last ↦ simp (later, last, waiting-waiting m n ts h)
      | inr due ↦ simp (later, due, waiting-waiting m n ts h)
    ]
    | inr due ↦
        let past : ltb n (total t.deadline) ≡ false = ground arith in
        simp (due, past, waiting-waiting m n ts h)
  ]

  -- What an advance to `now`, in nanoseconds, does.
  pub record Advanced (c : Clock World) (now : ℕ) (c' : Clock World) : Type 0 where
    pub clock : IsClock c'
    pub monotonic : total c'.monotonic ≡ now
    pub timers : c'.timers ≡ waiting now c.timers
    pub world : c'.world ≡ run_due now c.timers c.world

  -- Advancing a well-formed clock moves the monotonic time on by the length, runs the callbacks of
  -- exactly the timers whose deadline is not later than the new time, in the order of the list, and
  -- keeps the others as they are. It is stated for lengths with which the seconds do not overflow.
  pub time_advance-Advanced :
      (length : Time) (c : Clock World)
      → IsTime length
      → IsClock c
      → c.monotonic.seconds + length.seconds + 1 < 2 ^ 64
      → Advanced c (total c.monotonic + total length) (time_advance length c)
  unfolding time_advance
  time_advance-Advanced length c p is fits =
      let (whole, sum) = time_add-total c.monotonic length is.monotonic p fits in
      let e = expire-waiting (time_add c.monotonic length) c.timers c.world whole is.timers in
      record {
        clock = record {
          monotonic = whole;
          timers =
              subst (λ r. AreTimers (r.0)) (sym e)
                (waiting-AreTimers (total (time_add c.monotonic length)) c.timers is.timers);
        };
        monotonic = sum;
        timers = ap (λ r. r.0) e ∙ ap (λ n. waiting n c.timers) sum;
        world = ap (λ r. r.1) e ∙ ap (λ n. run_due n c.timers c.world) sum;
      }

  -- The timers that are left after two advances are those that are left after one by the sum.
  pub time_advance-time_add :
      (l m : Time) (c : Clock World)
      → IsTime l
      → IsTime m
      → IsClock c
      → c.monotonic.seconds + l.seconds + m.seconds + 2 < 2 ^ 64
      → Clock.timers (time_advance m (time_advance l c))
        ≡ Clock.timers (time_advance (time_add l m) c)
  time_advance-time_add l m c p q is fits =
      let first = time_advance-Advanced l c p is (omega arith) in
      let middle = first.clock in
      let (both, sum) = time_add-total l m p q (omega arith) in
      let second =
        time_advance-Advanced m (time_advance l c) q middle
          (omega (arith, first.monotonic, middle.monotonic)) in
      let once = time_advance-Advanced (time_add l m) c both is (omega (arith, sum, both)) in
      let end : total (Clock.monotonic (time_advance l c)) + total m
          ≡ total c.monotonic + total (time_add l m) =
        omega (arith, first.monotonic, sum) in
      second.timers
      ∙ ap (waiting (total (Clock.monotonic (time_advance l c)) + total m)) first.timers
      ∙ waiting-waiting (total c.monotonic + total l)
          (total (Clock.monotonic (time_advance l c)) + total m) c.timers
          (omega (arith, first.monotonic))
      ∙ ap (λ n. waiting n c.timers) end
      ∙ sym once.timers

  -- The clock with a new timer.
  abbrev created : Time → (World → World) → Clock World → Clock World
  created length callback c = record c {
    timers = record { deadline = time_add c.monotonic length; callback = callback } ∷ c.timers;
  }

  -- What the next advance by `d` does with the new timer of a length, if it waits on or runs.
  abbrev pub WithTimer :
      (later : Bool) → (d length : Time) → (World → World) → Clock World → Clock World → Type 0
  WithTimer true d length callback c c' =
      (Clock.timers (time_advance d c')
        ≡ record { deadline = time_add c.monotonic length; callback = callback }
          ∷ Clock.timers (time_advance d c))
      × (Clock.world (time_advance d c') ≡ Clock.world (time_advance d c))
  WithTimer false d length callback c c' =
      (Clock.timers (time_advance d c') ≡ Clock.timers (time_advance d c))
      × (Clock.world (time_advance d c')
          ≡ Clock.world (time_advance d (record c { world = callback c.world })))

  -- If the heap has room for it, a new timer of a well-formed clock is made. In the next advance, by
  -- `d`, its callback runs once, before those of the older timers, and it is gone, if the advance is at
  -- least as long as the timer; otherwise it waits on as the first of the list, and its callback does
  -- not run. The other timers do as without it. It is stated for lengths with which the seconds do not
  -- overflow.
  pub timer_create-time_advance :
      (length d : Time) (callback : World → World) (c : Clock World)
      → IsTime length
      → IsTime d
      → IsClock c
      → c.monotonic.seconds + length.seconds + 1 < 2 ^ 64
      → c.monotonic.seconds + d.seconds + 1 < 2 ^ 64
      → (c' : Clock World) × (timer_create true length callback c ≡ ok c')
        × WithTimer (ltb (total d) (total length)) d length callback c c'
  unfolding timer_create
  timer_create-time_advance length d callback c p q is fits fits_d =
      let (whole, sum) = time_add-total c.monotonic length is.monotonic p fits in
      let new =
        time_advance-Advanced d (created length callback c) q
          (record { monotonic = is.monotonic; timers = (whole, is.timers) }) fits_d in
      let old = time_advance-Advanced d c q is fits_d in
      let ran =
        time_advance-Advanced d (record c { world = callback c.world }) q
          (record { monotonic = is.monotonic; timers = is.timers }) fits_d in
      (
        created length callback c,
        refl,
        elim (Bool-cases (ltb (total d) (total length))) [
          | inl later ↦
              let waits : ltb (total c.monotonic + total d) (total (time_add c.monotonic length))
                  ≡ true =
                ground (arith, sum) in
              simp later (
                new.timers
                    ∙ simp (waits) (
                        ap
                          (λ ts.
                            record { deadline = time_add c.monotonic length; callback = callback }
                            ∷ ts)
                          (sym old.timers)),
                new.world ∙ simp (waits) (sym old.world),
              )
          | inr due ↦
              let runs : ltb (total c.monotonic + total d) (total (time_add c.monotonic length))
                  ≡ false =
                ground (arith, sum) in
              simp due
                (new.timers ∙ simp (runs) (sym old.timers), new.world ∙ simp (runs) (sym ran.world))
        ],
      )
