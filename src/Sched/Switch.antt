-- ===== src/Sched/Switch.antt =====
-- The functions of kernel/src/arch/x86_64/sched.c on processors: the switch to the next thread, in two
-- halves around the assembly that changes the stack, and the threads that are made. exit is
-- kernel/src/arch/x86_64/syscall.c.
use elysium_os.Base.{
  ℕ, ◌+◌, not, [], ◌∷◌, ◌++◌, Option, none, some, length, get_elem?, set, ◌==◌, if◌then◌else◌, Run,
  ok, undefined, assert, ◌>>=◌, ◌>>◌,
}
use elysium_os.Sched.{
  ready, destroy, Cpu, Sched, thread_at, process_at, sched_thread_next, sched_thread_drop,
}

abbrev pub cpu_of : Option Cpu → Run Cpu
cpu_of none = undefined
cpu_of (some cpu) = ok cpu

abbrev pub cpu_at : ℕ → Sched → Run Cpu
cpu_at c s = cpu_of (get_elem? s.cpus c)

-- sched_switch as far as the context switch, with the assertion before its call
unfoldable pub sched_switch : (c : ℕ) → Cpu → (next : ℕ) → Sched → Run Sched
sched_switch c cpu next s =
    assert (not (cpu.current == next))
    >> ok (record s {
      cpus = set s.cpus c (record cpu { current = next; previous = some cpu.current });
    })

abbrev pub switch_to : ℕ → Cpu → Option ℕ × Sched → Run Sched
switch_to c cpu (some next, s) = sched_switch c cpu next s
switch_to c cpu (none, s) =
    if cpu.current == cpu.idle_thread then ok s else sched_switch c cpu cpu.idle_thread s

-- x86_64_sched_next on the processor `c`, up to the context switch
unfoldable pub sched_next : ℕ → Sched → Run Sched
sched_next c s = cpu_at c s >>= λ cpu. switch_to c cpu (sched_thread_next s)

abbrev pub drop_on : ℕ → Cpu → Option ℕ → Sched → Run Sched
drop_on c cpu none s = ok s
drop_on c cpu (some t) s =
    sched_thread_drop cpu.idle_thread t
      (record s { cpus = set s.cpus c (record cpu { previous = none }) })

-- What follows the context switch: the end of sched_switch, and common_thread_init.
unfoldable pub drop_previous : ℕ → Sched → Run Sched
drop_previous c s = cpu_at c s >>= λ cpu. drop_on c cpu cpu.previous s

unfoldable pub thread_create_user : (proc : ℕ) → Sched → Run (ℕ × Sched)
thread_create_user p s = process_at p s >>= λ proc. ok (
  length s.all_threads,
  record s {
    all_threads = s.all_threads ++ some (record { state = ready; proc = some p }) ∷ [];
    processes =
        set s.processes p (some (record proc { threads = length s.all_threads ∷ proc.threads }));
  },
)

-- x86_64_sched_init_cpu: a processor begins in its idle thread and drops the dummy that it came from.
unfoldable pub sched_init_cpu : Sched → Sched
sched_init_cpu s = record s {
  all_threads =
      s.all_threads
      ++ some (record { state = ready; proc = none })
        ∷ some (record { state = destroy; proc = none })
        ∷ [];
  cpus =
      s.cpus
      ++ record {
        current = length s.all_threads;
        idle_thread = length s.all_threads;
        previous = some (1 + length s.all_threads);
      }
        ∷ [];
}

-- syscall_exit, before it calls x86_64_sched_next
unfoldable pub exit : ℕ → Sched → Run Sched
exit c s = cpu_at c s >>= λ cpu. thread_at cpu.current s >>= λ thread. ok (record s {
  all_threads = set s.all_threads cpu.current (some (record thread { state = destroy }));
})
