-- ===== src/Sched/Tests.antt =====
-- One processor and two threads of a process (kernel/src/sched/sched.c).
use elysium_os.Base.{
  ℕ, ◌-◌, ◌≤◌, ◌≡◌, ◌⊎◌, refl, List, [], ◌∷◌, some, none, length, get_elem?, Run, ok, panic,
  undefined,
}
use elysium_os.Sched.{
  Cpu, Sched, sched_process_create, sched_thread_schedule, sched_process_destroy, remove_all,
  sched_thread_drop, arch_sched_thread_destroy, sched_thread_next,
}
use elysium_os.Sched.Switch.{
  sched_init_cpu, sched_switch, sched_next, drop_previous, thread_create_user, exit,
}
use elysium_os.Sched.Moves.{Moved}
use elysium_os.Sched.Steps.{
  start, process_step, spawn_step, cpu_step, exit_step, next_step, drop_step, Steps, here, later,
}
use elysium_os.Sched.Exclusive.{IsExclusive, Steps-IsExclusive, sched_next-Moved_total}
use elysium_os.Sched.Fifo.{Steps-in_turn}

abbrev state_of : Run Sched → Sched
state_of (ok s) = s
state_of panic = start
state_of undefined = start

abbrev spawned : Run (ℕ × Sched) → Sched
spawned (ok r) = r.1
spawned panic = start
spawned undefined = start

unfoldable booted : Sched
unfolding sched_init_cpu drop_previous sched_thread_drop arch_sched_thread_destroy
    sched_process_create
booted = (sched_process_create (state_of (drop_previous 0 (sched_init_cpu start)))).1

unfoldable two_wait : Sched
unfolding booted sched_init_cpu drop_previous sched_thread_drop arch_sched_thread_destroy
    sched_process_create thread_create_user sched_thread_schedule
two_wait = sched_thread_schedule 3 (
    spawned
      (thread_create_user 0 (sched_thread_schedule 2 (spawned (thread_create_user 0 booted)))))

booted_run : Steps start [] booted
unfolding booted sched_init_cpu drop_previous sched_thread_drop arch_sched_thread_destroy
    sched_process_create
booted_run = later (later (later here cpu_step) (drop_step 0 _ refl)) process_step

two_wait_run : Steps start [] two_wait
unfolding two_wait booted sched_init_cpu drop_previous sched_thread_drop arch_sched_thread_destroy
    sched_process_create thread_create_user sched_thread_schedule
two_wait_run = later (later booted_run (spawn_step 0 2 _ refl)) (spawn_step 0 3 _ refl)

two_wait_queue : two_wait.threads_queued ≡ 2 ∷ 3 ∷ []
unfolding two_wait booted sched_init_cpu drop_previous sched_thread_drop arch_sched_thread_destroy
    sched_process_create thread_create_user sched_thread_schedule
two_wait_queue = refl

Steps-IsExclusive_example : IsExclusive two_wait
Steps-IsExclusive_example = Steps-IsExclusive two_wait_run

abbrev idle_cpu : Cpu
idle_cpu = record { current = 0; idle_thread = 0; previous = none }

sched_next-Moved_total_example :
    (s' : Sched) × (sched_next 0 two_wait ≡ ok s') × Moved 0 idle_cpu two_wait s'
unfolding two_wait booted sched_init_cpu drop_previous sched_thread_drop arch_sched_thread_destroy
    sched_process_create thread_create_user sched_thread_schedule
sched_next-Moved_total_example = sched_next-Moved_total 0 idle_cpu two_wait_run refl

unfoldable first_runs : Sched
unfolding two_wait booted sched_init_cpu drop_previous sched_thread_drop arch_sched_thread_destroy
    sched_process_create thread_create_user sched_thread_schedule sched_next sched_thread_next
    sched_switch exit sched_process_destroy remove_all
first_runs = state_of (drop_previous 0 (state_of (sched_next 0 two_wait)))

unfoldable second_runs : Sched
unfolding first_runs two_wait booted sched_init_cpu drop_previous sched_thread_drop
    arch_sched_thread_destroy sched_process_create thread_create_user sched_thread_schedule
    sched_next sched_thread_next sched_switch exit sched_process_destroy remove_all
second_runs = state_of (drop_previous 0 (state_of (sched_next 0 (state_of (exit 0 first_runs)))))

abbrev served : List ℕ
served = 2 ∷ 3 ∷ []

both_served : Steps two_wait served second_runs
unfolding first_runs second_runs two_wait booted sched_init_cpu drop_previous sched_thread_drop
    arch_sched_thread_destroy sched_process_create thread_create_user sched_thread_schedule
    sched_next sched_thread_next sched_switch exit sched_process_destroy remove_all
both_served =
    later
      (later
        (later (later (later here (next_step 0 idle_cpu _ refl refl refl)) (drop_step 0 _ refl))
          (exit_step 0 _ refl))
        (next_step 0 _ _ refl refl refl))
      (drop_step 0 _ refl)

Steps-in_turn_example :
    (get_elem? served 1 ≡ some 3)
    ⊎ ((length served ≤ 1) × (get_elem? second_runs.threads_queued (1 - length served) ≡ some 3))
unfolding two_wait booted sched_init_cpu drop_previous sched_thread_drop arch_sched_thread_destroy
    sched_process_create thread_create_user sched_thread_schedule sched_next sched_thread_next
    sched_switch exit sched_process_destroy remove_all
Steps-in_turn_example = Steps-in_turn 1 3 both_served refl
