-- ===== src/Sched/Moves.antt =====
-- What the first half of a switch does (kernel/src/arch/x86_64/sched.c).
use elysium_os.Base.{
  ℕ, zero, suc, some-eq, Bool, true, false, not, ◌≡◌, refl, sym, ap, subst, ◌∙◌, List, [], ◌∷◌,
  Option, none, some, get_elem?, set, ◌==◌, ==→eq, if◌then◌else◌, ok, assert, ◌>>◌, ok-injective,
  arith,
}
use elysium_os.Sched.{Cpu, Sched, sched_thread_next, next_of}
use elysium_os.Sched.Switch.{cpu_at, cpu_of, sched_switch, switch_to, sched_next}
use elysium_os.Sched.Frames.{bind-ok}

-- The processor with its thread left for the next one.
abbrev pub left : Cpu → ℕ → Cpu
left cpu next = record cpu { current = next; previous = some cpu.current }

-- What a switch does to the processor and to the queue.
pub data Switched (cpu cpu' : Cpu) : List ℕ → List ℕ → Type 0 where
  stays : cpu.current ≡ cpu.idle_thread → cpu' ≡ cpu → Switched cpu cpu' [] []
  idles : cpu' ≡ left cpu cpu.idle_thread → Switched cpu cpu' [] []
  goes_on : (t : ℕ) (ts : List ℕ) → cpu' ≡ left cpu t → Switched cpu cpu' (t ∷ ts) ts

pub record Moved (c : ℕ) (cpu : Cpu) (s s' : Sched) : Type 0 where
  pub cpu' : Cpu
  pub switched : Switched cpu cpu' s.threads_queued s'.threads_queued
  pub cpus_set : s'.cpus ≡ set s.cpus c cpu'
  pub same_threads : s'.all_threads ≡ s.all_threads

sched_switch-ok : (b : Bool) (s₁ s' : Sched) → assert b >> ok s₁ ≡ ok s' → s₁ ≡ s'
sched_switch-ok true s₁ s' e = ok-injective e
sched_switch-ok false s₁ s' e = absurd (ground arith)

set-same {ℓ} :
    {A : Type ℓ} (xs : List A) (i : ℕ) (x : A) → get_elem? xs i ≡ some x → set xs i x ≡ xs
set-same [] i x e = refl
set-same (y ∷ xs) zero x e = ap (λ z. z ∷ xs) (sym (some-eq e))
set-same (y ∷ xs) (suc i) x e = ap (λ zs. y ∷ zs) (set-same xs i x e)

module _ (c : ℕ) (cpu : Cpu) where
  stay_or_idle-Moved :
      (b : Bool) (s s' : Sched)
      → (cpu.current == cpu.idle_thread) ≡ b
      → get_elem? s.cpus c ≡ some cpu
      → s.threads_queued ≡ []
      → (if b then ok s else sched_switch c cpu cpu.idle_thread s) ≡ ok s'
      → Moved c cpu s s'
  unfolding sched_switch
  stay_or_idle-Moved true s s' idle here none_waits e =
      subst (Moved c cpu s) (ok-injective e) (record {
        cpu' = cpu;
        switched =
            subst (λ q. Switched cpu cpu q q) (sym none_waits)
              (stays (==→eq cpu.current cpu.idle_thread idle) refl);
        cpus_set = sym (set-same s.cpus c cpu here);
        same_threads = refl;
      })
  stay_or_idle-Moved false s s' idle here none_waits e =
      subst (Moved c cpu s) (sched_switch-ok (not (cpu.current == cpu.idle_thread)) _ s' e)
        (record {
          cpu' = left cpu cpu.idle_thread;
          switched =
              subst (λ q. Switched cpu (left cpu cpu.idle_thread) q q) (sym none_waits)
                (idles refl);
          cpus_set = refl;
          same_threads = refl;
        })

  switch_to-Moved :
      (q : List ℕ) (s s' : Sched)
      → get_elem? s.cpus c ≡ some cpu
      → s.threads_queued ≡ q
      → switch_to c cpu (next_of q s) ≡ ok s'
      → Moved c cpu s s'
  unfolding sched_switch
  switch_to-Moved [] s s' here waiting e =
      stay_or_idle-Moved (cpu.current == cpu.idle_thread) s s' refl here waiting e
  switch_to-Moved (t ∷ ts) s s' here waiting e =
      subst (Moved c cpu s) (sched_switch-ok (not (cpu.current == t)) _ s' e) (record {
        cpu' = left cpu t;
        switched = subst (λ q. Switched cpu (left cpu t) q ts) (sym waiting) (goes_on t ts refl);
        cpus_set = refl;
        same_threads = refl;
      })

  cpu_at-eq : (o : Option Cpu) (a : Cpu) → o ≡ some cpu → cpu_of o ≡ ok a → a ≡ cpu
  cpu_at-eq none a here e = absurd (ground arith)
  cpu_at-eq (some x) a here e = sym (ok-injective e) ∙ some-eq here

  pub sched_next-Moved :
      (s s' : Sched) → get_elem? s.cpus c ≡ some cpu → sched_next c s ≡ ok s' → Moved c cpu s s'
  unfolding sched_next sched_thread_next
  sched_next-Moved s s' here e =
      let (a, found, e₁) = bind-ok (cpu_at c s) _ e in
      switch_to-Moved s.threads_queued s s' here refl (
        subst (λ x. switch_to c x (next_of s.threads_queued s) ≡ ok s')
          (cpu_at-eq (get_elem? s.cpus c) a here found) e₁)
