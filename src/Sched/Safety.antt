-- ===== src/Sched/Safety.antt =====
-- The places of threads after each call of the scheduler (kernel/src/sched/sched.c and
-- kernel/src/arch/x86_64/sched.c).
use elysium_os.Base.{
  ℕ, ◌+◌, ◌≤◌, ◌<◌, false, ◌≡◌, ◌≢◌, ◌⊎◌, inl, inr, refl, sym, ap, subst, List, [], ◌∷◌, ◌++◌, none,
  some, length, length-append, ◌==◌, arith, ne→not_==,
}
use elysium_os.Sched.{Sched, sched_process_create, sched_thread_schedule}
use elysium_os.Sched.Switch.{sched_init_cpu}
use elysium_os.Sched.Frames.{
  DroppedOn, nothing, dropped, drop_previous-DroppedOn, thread_create_user-made, exit-Frame,
}
use elysium_os.Sched.Moves.{sched_next-Moved}
use elysium_os.Sched.Places.{
  is, busy, busy_previous, count, all_owned, places, count-append, all_owned-append, all_owned-set,
  busy-idle, busy-eq, IsPlaced, Fewer, Fewer-IsPlaced, Moved-Fewer,
}
use elysium_os.Sched.Steps.{
  start, Step, process_step, spawn_step, cpu_step, exit_step, next_step, drop_step, Steps, here,
  later,
}

rest-le :
    (t x i : ℕ) (rest : List ℕ)
    → (rest ≡ []) ⊎ ((rest ≡ x ∷ []) × ((x == i) ≡ false))
    → count t rest ≤ busy i x t
rest-le t x i rest (inl e) = omega (arith, ap (count t) e)
rest-le t x i rest (inr (e, b)) = omega (arith, ap (count t) e, busy-eq i x t b)

DroppedOn-Fewer : (c : ℕ) (s s' : Sched) → DroppedOn c s s' → Fewer s s'
DroppedOn-Fewer c s s' (nothing e) =
    subst (Fewer s) (sym e) (record { places_le = λ t. omega arith; counted = refl })
DroppedOn-Fewer c s s' (dropped cpu x there p d) = record {
  places_le = λ t. omega (
    arith,
    ap (count t) d.queued,
    count-append t s.threads_queued d.rest,
    rest-le t x cpu.idle_thread d.rest d.rest_cases,
    ap (all_owned t) d.same_cpus,
    all_owned-set t s.cpus c cpu (record cpu { previous = none }) there,
    ap (λ o. busy_previous cpu.idle_thread o t) p,
  );
  counted = d.counted;
}

-- A thread that is new, or two, come into one place each.
record Grown (s s' : Sched) : Type 0 where
  added : ℕ
  old : (t : ℕ) → t < length s.all_threads → places t s' ≡ places t s
  new : (t : ℕ) → length s.all_threads ≤ t → places t s' ≤ places t s + 1
  beyond : (t : ℕ) → length s.all_threads + added ≤ t → places t s' ≡ places t s
  counted : length s'.all_threads ≡ length s.all_threads + added

lt_or_le : (a b : ℕ) → (a < b) ⊎ (b ≤ a)
lt_or_le a b = ground arith

Grown-IsPlaced : {s s' : Sched} → Grown s s' → IsPlaced s → IsPlaced s'
Grown-IsPlaced {s} g h = record {
  at_most_once = λ t. elim (lt_or_le t (length s.all_threads)) [
    | inl l ↦ omega (arith, g.old t l, h.at_most_once t)
    | inr l ↦ omega (arith, g.new t l, h.not_yet t l)
  ];
  not_yet = λ t l. omega (
    arith,
    g.counted,
    g.beyond t (omega (arith, g.counted)),
    h.not_yet t (omega (arith, g.counted)),
  );
}

is-ne : (x t : ℕ) → x ≢ t → is x t ≡ 0
is-ne x t h = ground arith

is-le : (x t : ℕ) → is x t ≤ 1
is-le x t = ground arith

spawn-Grown :
    (t : ℕ) (s s' : Sched)
    → (t ≡ length s.all_threads)
      × (s'.threads_queued ≡ s.threads_queued)
      × (s'.cpus ≡ s.cpus)
      × (length s'.all_threads ≡ length s.all_threads + 1)
    → Grown s (sched_thread_schedule t s')
unfolding sched_thread_schedule
spawn-Grown t s s' (fresh, q, c, l) = record {
  added = 1;
  old = λ u h. omega (arith, counts u, is-ne t u (λ e. absurd (omega arith)));
  new = λ u h. omega (arith, counts u, is-le t u);
  beyond = λ u h. omega (arith, counts u, is-ne t u (λ e. absurd (omega arith)));
  counted = l;
}
  where
    counts :
        (u : ℕ) → count u (s'.threads_queued ++ t ∷ []) + all_owned u s'.cpus ≡ places u s + is t u
    counts u =
        omega (arith, ap (count u) q, count-append u s'.threads_queued (t ∷ []), ap (all_owned u) c)

sched_init_cpu-Grown : (s : Sched) → Grown s (sched_init_cpu s)
unfolding sched_init_cpu
sched_init_cpu-Grown s = record {
  added = 2;
  old = λ u h. omega (
    arith,
    counts u,
    is-ne n u (λ e. absurd (omega arith)),
    is-ne (1 + n) u (λ e. absurd (omega arith)),
  );
  new = λ u h. omega (arith, counts u, apart u);
  beyond = λ u h. omega (
    arith,
    counts u,
    is-ne n u (λ e. absurd (omega arith)),
    is-ne (1 + n) u (λ e. absurd (omega arith)),
  );
  counted = length-append s.all_threads _;
}
  where
    n : ℕ
    n = length s.all_threads

    apart : (u : ℕ) → is n u + is (1 + n) u ≤ 1
    apart u = ground arith

    fresh : ((1 + n) == n) ≡ false
    fresh = ne→not_== (1 + n) n (λ e. absurd (omega arith))

    counts : (u : ℕ) → places u (sched_init_cpu s) ≡ places u s + (is n u + is (1 + n) u)
    counts u = omega (
      arith,
      all_owned-append u s.cpus
          (record { current = n; idle_thread = n; previous = some (1 + n) } ∷ []),
      busy-idle n u,
      busy-eq n (1 + n) u fresh,
    )

Step-IsPlaced : {s s' : Sched} {xs : List ℕ} → Step s xs s' → IsPlaced s → IsPlaced s'
unfolding sched_process_create
Step-IsPlaced {s} process_step h = record { at_most_once = h.at_most_once; not_yet = h.not_yet }
Step-IsPlaced {s} (spawn_step p t s₁ e) h =
    Grown-IsPlaced (spawn-Grown t s s₁ (thread_create_user-made p t s s₁ e)) h
Step-IsPlaced {s} cpu_step h = Grown-IsPlaced (sched_init_cpu-Grown s) h
Step-IsPlaced {s} (exit_step c s₁ e) h =
    let f = exit-Frame c s s₁ e in
    Fewer-IsPlaced
      (record {
        places_le = λ t. omega (arith, ap (count t) f.queued, ap (all_owned t) f.same_cpus);
        counted = f.counted;
      })
      h
Step-IsPlaced {s} (next_step c cpu s₁ there p e) h =
    Fewer-IsPlaced (Moved-Fewer c cpu s s₁ there p (sched_next-Moved c cpu s s₁ there e)) h
Step-IsPlaced {s} (drop_step c s₁ e) h =
    Fewer-IsPlaced (DroppedOn-Fewer c s s₁ (drop_previous-DroppedOn c s s₁ e)) h

start-IsPlaced : IsPlaced start
start-IsPlaced = record { at_most_once = λ t. omega arith; not_yet = λ t l. refl }

pub Steps-IsPlaced : {xs : List ℕ} {s : Sched} → Steps start xs s → IsPlaced s
Steps-IsPlaced here = start-IsPlaced
Steps-IsPlaced (later r st) = Step-IsPlaced st (Steps-IsPlaced r)
