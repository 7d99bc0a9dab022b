-- ===== src/Sched/Fifo.antt =====
-- The queue of kernel/src/sched/sched.c is served in order.
use elysium_os.Base.{
  ℕ, ◌-◌, ◌≤◌, ◌≡◌, ◌⊎◌, inl, inr, refl, sym, ap, subst, ◌∙◌, List, [], ◌∷◌, ◌++◌, some, suc, zero,
  take, length, get_elem?, arith,
}
use mathlib.Core.List.{append-nil, append_assoc}
use elysium_os.Sched.{Cpu, Sched, sched_process_create, sched_thread_schedule}
use elysium_os.Sched.Switch.{sched_init_cpu}
use elysium_os.Sched.Frames.{
  DroppedOn, nothing, dropped, drop_previous-DroppedOn, thread_create_user-made, exit-Frame,
}
use elysium_os.Sched.Moves.{Switched, stays, idles, goes_on, sched_next-Moved}
use elysium_os.Sched.Steps.{
  Step, process_step, spawn_step, cpu_step, exit_step, next_step, drop_step, Steps, here, later,
}

-- What was taken and what waits is what waited before, with new threads behind.
Switched-InOrder :
    {cpu cpu' : Cpu} {q q' : List ℕ}
    → Switched cpu cpu' q q'
    → (new : List ℕ) × (take 1 q ++ q' ≡ q ++ new)
Switched-InOrder (stays idle e) = ([], refl)
Switched-InOrder (idles e) = ([], refl)
Switched-InOrder (goes_on t ts e) = ([], ap (λ z. t ∷ z) (sym (append-nil ts)))

DroppedOn-InOrder :
    (c : ℕ) (s s' : Sched)
    → DroppedOn c s s'
    → (new : List ℕ) × (s'.threads_queued ≡ s.threads_queued ++ new)
DroppedOn-InOrder c s s' (nothing e) =
    ([], ap (λ z. z.threads_queued) e ∙ sym (append-nil s.threads_queued))
DroppedOn-InOrder c s s' (dropped cpu x there p d) = (d.rest, d.queued)

Step-InOrder :
    {s s' : Sched} {xs : List ℕ}
    → Step s xs s'
    → (new : List ℕ) × (xs ++ s'.threads_queued ≡ s.threads_queued ++ new)
unfolding sched_process_create sched_thread_schedule sched_init_cpu
Step-InOrder {s} process_step = ([], sym (append-nil s.threads_queued))
Step-InOrder {s} (spawn_step p t s₁ e) =
    let (fresh, q, same_cpus, counted) = thread_create_user-made p t s s₁ e in
    (t ∷ [], ap (λ z. z ++ t ∷ []) q)
Step-InOrder {s} cpu_step = ([], sym (append-nil s.threads_queued))
Step-InOrder {s} (exit_step c s₁ e) =
    ([], (exit-Frame c s s₁ e).queued ∙ sym (append-nil s.threads_queued))
Step-InOrder {s} (next_step c cpu s₁ there p e) =
    Switched-InOrder (sched_next-Moved c cpu s s₁ there e).switched
Step-InOrder {s} (drop_step c s₁ e) = DroppedOn-InOrder c s s₁ (drop_previous-DroppedOn c s s₁ e)

Steps-InOrder :
    {s s' : Sched} {xs : List ℕ}
    → Steps s xs s'
    → (new : List ℕ) × (xs ++ s'.threads_queued ≡ s.threads_queued ++ new)
Steps-InOrder {s} here = ([], sym (append-nil s.threads_queued))
Steps-InOrder {s} {s'} (later {xs} {ys} {s₁} r st) =
    let (new, e) = Steps-InOrder r in
    let (more, f) = Step-InOrder st in
    (
      new ++ more,
      append_assoc xs ys s'.threads_queued
          ∙ ap (λ z. xs ++ z) f
          ∙ sym (append_assoc xs s₁.threads_queued more)
          ∙ ap (λ z. z ++ more) e
          ∙ append_assoc s.threads_queued new more,
    )

get_elem?-append :
    (xs ys : List ℕ) (k t : ℕ) → get_elem? xs k ≡ some t → get_elem? (xs ++ ys) k ≡ some t
get_elem?-append [] ys k t e = absurd (ground arith)
get_elem?-append (x ∷ xs) ys zero t e = e
get_elem?-append (x ∷ xs) ys (suc k) t e = get_elem?-append xs ys k t e

get_elem?-either :
    (xs ys : List ℕ) (k t : ℕ)
    → get_elem? (xs ++ ys) k ≡ some t
    → (get_elem? xs k ≡ some t) ⊎ ((length xs ≤ k) × (get_elem? ys (k - length xs) ≡ some t))
get_elem?-either [] ys k t e =
    inr (omega arith, subst (λ i. get_elem? ys i ≡ some t) (omega arith) e)
get_elem?-either (x ∷ xs) ys zero t e = inl e
get_elem?-either (x ∷ xs) ys (suc k) t e = elim (get_elem?-either xs ys k t e) [
  | inl l ↦ inl l
  | inr (l, r) ↦ inr (omega arith, subst (λ i. get_elem? ys i ≡ some t) (omega (arith, l)) r)
]

-- A thread with k threads before it in the queue is the one that is taken after the first k, whichever
-- processors take them and whatever else is called. As long as no more than k were taken, it still
-- waits, and each that was taken has brought it one place forward.
pub Steps-in_turn :
    {s s' : Sched} {xs : List ℕ} (k t : ℕ)
    → Steps s xs s'
    → get_elem? s.threads_queued k ≡ some t
    → (get_elem? xs k ≡ some t)
      ⊎ ((length xs ≤ k) × (get_elem? s'.threads_queued (k - length xs) ≡ some t))
Steps-in_turn {s} {s'} {xs} k t r e =
    let (new, same) = Steps-InOrder r in
    get_elem?-either xs s'.threads_queued k t
      (subst (λ z. get_elem? z k ≡ some t) (sym same) (get_elem?-append s.threads_queued new k t e))
