-- ===== src/Sched/Steps.antt =====
-- The calls of the scheduler by several processors, in any order.
use elysium_os.Base.{ℕ, ◌≡◌, List, [], ◌++◌, none, some, take, get_elem?, ok}
use elysium_os.Sched.{Cpu, Sched, sched_process_create, sched_thread_schedule}
use elysium_os.Sched.Switch.{sched_next, drop_previous, thread_create_user, sched_init_cpu, exit}

-- Before the first process and the first processor.
abbrev pub start : Sched
start = record { all_threads = []; processes = []; threads_queued = []; cpus = [] }

-- A step, with the threads that it takes from the queue. The timer is off while a processor has yet to
-- drop the thread that it left.
pub data Step (s : Sched) : List ℕ → Sched → Type 0 where
  process_step : Step s [] (sched_process_create s).1
  spawn_step :
      (p t : ℕ) (s' : Sched)
      → thread_create_user p s ≡ ok (t, s')
      → Step s [] (sched_thread_schedule t s')
  cpu_step : Step s [] (sched_init_cpu s)
  exit_step : (c : ℕ) (s' : Sched) → exit c s ≡ ok s' → Step s [] s'
  next_step :
      (c : ℕ) (cpu : Cpu) (s' : Sched)
      → get_elem? s.cpus c ≡ some cpu
      → cpu.previous ≡ none
      → sched_next c s ≡ ok s'
      → Step s (take 1 s.threads_queued) s'
  drop_step : (c : ℕ) (s' : Sched) → drop_previous c s ≡ ok s' → Step s [] s'

pub data Steps (s : Sched) : List ℕ → Sched → Type 0 where
  here : Steps s [] s
  later : {xs ys : List ℕ} {s₁ s₂ : Sched} → Steps s xs s₁ → Step s₁ ys s₂ → Steps s (xs ++ ys) s₂
