-- ===== src/Sched/Frames.antt =====
-- What the functions of the scheduler leave alone, when they return.
use elysium_os.Base.{
  ℕ, ◌+◌, Bool, true, false, ◌≡◌, ◌⊎◌, inl, inr, refl, sym, ap, subst, ◌∙◌, List, [], ◌∷◌, ◌++◌,
  Option, none, some, length, get_elem?, set, length-set, length-append, ◌==◌, if◌then◌else◌, Run,
  ok, panic, undefined, ◌>>=◌, ok-injective, arith,
}
use mathlib.Core.List.{append-nil}
use elysium_os.Sched.{
  ready, active, destroy, ThreadState, Cpu, Sched, thread_at, process_at, sched_process_destroy,
  sched_thread_schedule, destroy_if_empty, leave_process, arch_sched_thread_destroy, drop_in,
  sched_thread_drop, without, remove_all,
}
use elysium_os.Sched.Switch.{cpu_at, cpu_of, drop_on, drop_previous, thread_create_user, exit}

pub bind-ok {ℓ κ} :
    {A : Type ℓ} {B : Type κ} (m : Run A) (f : A → Run B) {b : B}
    → m >>= f ≡ ok b
    → (a : A) × (m ≡ ok a) × (f a ≡ ok b)
bind-ok (ok a) f e = (a, refl, e)
bind-ok panic f e = absurd (ground arith)
bind-ok undefined f e = absurd (ground arith)

-- The same queue, the same processors, and as many cells for threads.
pub record Frame (s s' : Sched) : Type 0 where
  pub queued : s'.threads_queued ≡ s.threads_queued
  pub same_cpus : s'.cpus ≡ s.cpus
  pub counted : length s'.all_threads ≡ length s.all_threads

Frame-refl : (s : Sched) → Frame s s
Frame-refl s = record { queued = refl; same_cpus = refl; counted = refl }

Frame-of : {s s₁ s' : Sched} → Frame s s₁ → ok s₁ ≡ ok s' → Frame s s'
Frame-of {s} f e = subst (Frame s) (ok-injective e) f

sched_process_destroy-Frame :
    (p : ℕ) (s s' : Sched) → sched_process_destroy p s ≡ ok s' → Frame s s'
unfolding sched_process_destroy
sched_process_destroy-Frame p s s' e =
    let (proc, found, e₁) = bind-ok (process_at p s) _ e in
    let (table, removed, e₂) =
      bind-ok (remove_all proc.resource_table.count 0 proc.resource_table) _ e₁ in
    Frame-of (record { queued = refl; same_cpus = refl; counted = refl }) e₂

destroy_if_empty-Frame :
    (ts : List ℕ) (p : ℕ) (s s' : Sched) → destroy_if_empty ts p s ≡ ok s' → Frame s s'
destroy_if_empty-Frame [] p s s' e = sched_process_destroy-Frame p s s' e
destroy_if_empty-Frame (t ∷ ts) p s s' e = Frame-of (Frame-refl s) e

leave_process-Frame :
    (t : ℕ) (proc : Option ℕ) (s s' : Sched) → leave_process t proc s ≡ ok s' → Frame s s'
leave_process-Frame t none s s' e = Frame-of (Frame-refl s) e
leave_process-Frame t (some p) s s' e =
    let (proc, found, e₁) = bind-ok (process_at p s) _ e in
    let f = destroy_if_empty-Frame (without t proc.threads) p _ s' e₁ in
    record { queued = f.queued; same_cpus = f.same_cpus; counted = f.counted }

pub arch_sched_thread_destroy-Frame :
    (t : ℕ) (s s' : Sched) → arch_sched_thread_destroy t s ≡ ok s' → Frame s s'
unfolding arch_sched_thread_destroy
arch_sched_thread_destroy-Frame t s s' e =
    let (thread, found, e₁) = bind-ok (thread_at t s) _ e in
    let (s₁, left, e₂) = bind-ok (leave_process t thread.proc s) _ e₁ in
    let f = leave_process-Frame t thread.proc s s₁ left in
    Frame-of
      (record {
        queued = f.queued;
        same_cpus = f.same_cpus;
        counted = length-set s₁.all_threads t none ∙ f.counted;
      })
      e₂

-- A thread that is dropped goes to the end of the queue, or nowhere if it is to be destroyed or idle.
pub record Dropped (idle_thread t : ℕ) (s s' : Sched) : Type 0 where
  pub rest : List ℕ
  pub queued : s'.threads_queued ≡ s.threads_queued ++ rest
  pub rest_cases : (rest ≡ []) ⊎ ((rest ≡ t ∷ []) × ((t == idle_thread) ≡ false))
  pub same_cpus : s'.cpus ≡ s.cpus
  pub counted : length s'.all_threads ≡ length s.all_threads

Frame-Dropped : {i t : ℕ} {s s' : Sched} → Frame s s' → Dropped i t s s'
Frame-Dropped {s} f = record {
  rest = [];
  queued = f.queued ∙ sym (append-nil s.threads_queued);
  rest_cases = inl refl;
  same_cpus = f.same_cpus;
  counted = f.counted;
}

schedule-Dropped :
    (i t : ℕ) (s s' : Sched)
    → (t == i) ≡ false
    → ok (sched_thread_schedule t s) ≡ ok s'
    → Dropped i t s s'
unfolding sched_thread_schedule
schedule-Dropped i t s s' busy e = subst (Dropped i t s) (ok-injective e) (record {
  rest = t ∷ [];
  queued = refl;
  rest_cases = inr (refl, busy);
  same_cpus = refl;
  counted = refl;
})

drop_in-Dropped :
    (state : ThreadState) (i t : ℕ) (s s' : Sched)
    → (t == i) ≡ false
    → drop_in state t s ≡ ok s'
    → Dropped i t s s'
drop_in-Dropped destroy i t s s' busy e = Frame-Dropped (arch_sched_thread_destroy-Frame t s s' e)
drop_in-Dropped ready i t s s' busy e = schedule-Dropped i t s s' busy e
drop_in-Dropped active i t s s' busy e = schedule-Dropped i t s s' busy e

drop_busy-Dropped :
    (b : Bool) (i t : ℕ) (s s' : Sched)
    → (t == i) ≡ b
    → (if b then ok s else thread_at t s >>= λ thread. drop_in thread.state t s) ≡ ok s'
    → Dropped i t s s'
drop_busy-Dropped true i t s s' busy e = Frame-Dropped (Frame-of (Frame-refl s) e)
drop_busy-Dropped false i t s s' busy e =
    let (thread, found, e₁) = bind-ok (thread_at t s) _ e in
    drop_in-Dropped thread.state i t s s' busy e₁

pub sched_thread_drop-Dropped :
    (i t : ℕ) (s s' : Sched) → sched_thread_drop i t s ≡ ok s' → Dropped i t s s'
unfolding sched_thread_drop
sched_thread_drop-Dropped i t s s' e = drop_busy-Dropped (t == i) i t s s' refl e

-- A processor that has left no thread stays as it is; otherwise it drops that thread.
pub data DroppedOn (c : ℕ) (s s' : Sched) : Type 0 where
  nothing : s' ≡ s → DroppedOn c s s'
  dropped :
      (cpu : Cpu) (t : ℕ)
      → get_elem? s.cpus c ≡ some cpu
      → cpu.previous ≡ some t
      → Dropped cpu.idle_thread t
          (record s { cpus = set s.cpus c (record cpu { previous = none }) })
          s'
      → DroppedOn c s s'

drop_on-DroppedOn :
    (c : ℕ) (cpu : Cpu) (previous : Option ℕ) (s s' : Sched)
    → get_elem? s.cpus c ≡ some cpu
    → cpu.previous ≡ previous
    → drop_on c cpu previous s ≡ ok s'
    → DroppedOn c s s'
drop_on-DroppedOn c cpu none s s' here p e = nothing (sym (ok-injective e))
drop_on-DroppedOn c cpu (some t) s s' here p e =
    dropped cpu t here p (sched_thread_drop-Dropped cpu.idle_thread t _ s' e)

cpu_of-ok : (o : Option Cpu) (a : Cpu) → cpu_of o ≡ ok a → o ≡ some a
cpu_of-ok none a e = absurd (ground arith)
cpu_of-ok (some x) a e = ap some (ok-injective e)

pub drop_previous-DroppedOn : (c : ℕ) (s s' : Sched) → drop_previous c s ≡ ok s' → DroppedOn c s s'
unfolding drop_previous
drop_previous-DroppedOn c s s' e =
    let (cpu, found, e₁) = bind-ok (cpu_at c s) _ e in
    drop_on-DroppedOn c cpu cpu.previous s s' (cpu_of-ok (get_elem? s.cpus c) cpu found) refl e₁

pub thread_create_user-made :
    (p t : ℕ) (s s' : Sched)
    → thread_create_user p s ≡ ok (t, s')
    → (t ≡ length s.all_threads)
      × (s'.threads_queued ≡ s.threads_queued)
      × (s'.cpus ≡ s.cpus)
      × (length s'.all_threads ≡ length s.all_threads + 1)
unfolding thread_create_user
thread_create_user-made p t s s' e =
    let (proc, found, e₁) = bind-ok (process_at p s) _ e in
    subst
      (λ r.
        (r.0 ≡ length s.all_threads)
        × (r.1.threads_queued ≡ s.threads_queued)
        × (r.1.cpus ≡ s.cpus)
        × (length r.1.all_threads ≡ length s.all_threads + 1))
      (ok-injective e₁) (refl, refl, refl, length-append s.all_threads _)

pub exit-Frame : (c : ℕ) (s s' : Sched) → exit c s ≡ ok s' → Frame s s'
unfolding exit
exit-Frame c s s' e =
    let (cpu, found, e₁) = bind-ok (cpu_at c s) _ e in
    let (thread, there, e₂) = bind-ok (thread_at cpu.current s) _ e₁ in
    Frame-of
      (record { queued = refl; same_cpus = refl; counted = length-set s.all_threads cpu.current _ })
      e₂
