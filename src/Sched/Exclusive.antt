-- ===== src/Sched/Exclusive.antt =====
-- No thread is in two places, and no assertion fails, after any calls of the scheduler by any processors
-- (kernel/src/sched/sched.c and kernel/src/arch/x86_64/sched.c).
use elysium_os.Base.{
  ℕ, ◌+◌, ◌≤◌, true, false, ◌≡◌, ◌≢◌, ◌⊎◌, inl, inr, refl, ap, ◌∙◌, List, [], ◌∷◌, some, get_elem?,
  ◌==◌, if◌then◌else◌, arith, ok, ne→not_==, ◌>>=◌, Bool,
}
use elysium_os.Sched.{Cpu, Sched, sched_thread_next, next_of}
use elysium_os.Sched.Switch.{sched_next, switch_to, sched_switch, cpu_of}
use elysium_os.Sched.Moves.{Moved, sched_next-Moved}
use elysium_os.Sched.Places.{is, busy, busy_previous, count, owned, owned-le, owned_twice, IsPlaced}
use elysium_os.Sched.Steps.{start, Steps}
use elysium_os.Sched.Safety.{Steps-IsPlaced}

-- No two processors run one thread, the thread of a processor does not wait in the queue, nor does the
-- thread that a processor has yet to drop, and no thread waits twice.
pub record IsExclusive (s : Sched) : Type 0 where
  pub one_cpu :
      (c d : ℕ) (cpu other : Cpu)
      → get_elem? s.cpus c ≡ some cpu
      → get_elem? s.cpus d ≡ some other
      → cpu.current ≡ other.current
      → c ≡ d
  pub not_waiting :
      (c : ℕ) (cpu : Cpu) → get_elem? s.cpus c ≡ some cpu → count cpu.current s.threads_queued ≡ 0
  pub not_dropped :
      (c : ℕ) (cpu : Cpu) (t : ℕ)
      → get_elem? s.cpus c ≡ some cpu
      → cpu.previous ≡ some t
      → count t s.threads_queued ≡ 0
  pub waits_once : (t : ℕ) → count t s.threads_queued ≤ 1

runs : (cpu : Cpu) → 1 ≤ owned cpu.current cpu
runs cpu = ground arith

leaves : (cpu : Cpu) (t : ℕ) → cpu.previous ≡ some t → 1 ≤ owned t cpu
leaves cpu t e = omega (arith, ap (λ o. busy_previous cpu.idle_thread o t) e, idle_or_busy)
  where
    idle_or_busy : 1 ≤ is cpu.idle_thread t + busy cpu.idle_thread t t
    idle_or_busy = ground arith

IsPlaced-IsExclusive : (s : Sched) → IsPlaced s → IsExclusive s
IsPlaced-IsExclusive s h = record {
  one_cpu = λ c d cpu other e f same. elim (dec_eq c d) [
    | inl p ↦ p
    | inr ne ↦ absurd (
        omega (
          arith,
          h.at_most_once cpu.current,
          owned_twice cpu.current s.cpus c d cpu other ne e f,
          runs cpu,
          runs other,
          ap (λ t. owned t other) same,
        ))
  ];
  not_waiting = λ c cpu e.
      omega (arith, h.at_most_once cpu.current, owned-le cpu.current s.cpus c cpu e, runs cpu);
  not_dropped =
      λ c cpu t e p. omega (arith, h.at_most_once t, owned-le t s.cpus c cpu e, leaves cpu t p);
  waits_once = λ t. omega (arith, h.at_most_once t);
}
  where
    dec_eq : (a b : ℕ) → (a ≡ b) ⊎ (a ≢ b)
    dec_eq a b = ground arith

-- Processors make and switch threads in any order, from the state before the first of them. Then no two
-- processors run one thread, a thread that runs or that its processor has yet to drop does not wait in
-- the queue, and no thread waits there twice.
pub Steps-IsExclusive : {xs : List ℕ} {s : Sched} → Steps start xs s → IsExclusive s
Steps-IsExclusive {s} r = IsPlaced-IsExclusive s (Steps-IsPlaced r)

-- The assertion of the switch holds: the next thread is another one.
module _ (c : ℕ) (cpu : Cpu) where
  sched_switch-returns :
      (next : ℕ) (s : Sched)
      → cpu.current ≢ next
      → (s' : Sched) × (sched_switch c cpu next s ≡ ok s')
  unfolding sched_switch
  sched_switch-returns next s ne = rw (ne→not_== cpu.current next ne) (_, refl)

  stay_or_idle-returns :
      (b : Bool) (s : Sched)
      → (cpu.current == cpu.idle_thread) ≡ b
      → (s' : Sched) × ((if b then ok s else sched_switch c cpu cpu.idle_thread s) ≡ ok s')
  stay_or_idle-returns true s e = (s, refl)
  stay_or_idle-returns false s e =
      sched_switch-returns cpu.idle_thread s (λ same. absurd (ground arith))

  switch_to-returns :
      (q : List ℕ) (s : Sched)
      → count cpu.current q ≡ 0
      → (s' : Sched) × (switch_to c cpu (next_of q s) ≡ ok s')
  switch_to-returns [] s apart = stay_or_idle-returns (cpu.current == cpu.idle_thread) s refl
  switch_to-returns (t ∷ ts) s apart = sched_switch-returns t _ (λ same. absurd (ground arith))

-- After any calls of the scheduler, x86_64_sched_next of a processor returns from its first half: its
-- assertion that the next thread is another one holds. The processor then runs the first thread of the
-- queue, which leaves the queue, and has the old one to drop; if none waits, it goes to its idle thread,
-- or stays there if it is on it.
pub sched_next-Moved_total :
    {xs : List ℕ} {s : Sched} (c : ℕ) (cpu : Cpu)
    → Steps start xs s
    → get_elem? s.cpus c ≡ some cpu
    → (s' : Sched) × (sched_next c s ≡ ok s') × Moved c cpu s s'
unfolding sched_next sched_thread_next
sched_next-Moved_total {s} c cpu r there =
    let (s', e) =
      switch_to-returns c cpu s.threads_queued s ((Steps-IsExclusive r).not_waiting c cpu there) in
    let returned =
      ap (λ o. cpu_of o >>= λ x. switch_to c x (next_of s.threads_queued s)) there ∙ e in
    (s', returned, sched_next-Moved c cpu s s' there returned)
