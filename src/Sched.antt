-- ===== src/Sched.antt =====
-- Processes, threads and the run queue: kernel/src/sched/sched.c with sched.h, thread.h and process.h,
-- and the parts of kernel/src/arch/x86_64/sched.c above the assembly. A pointer to a thread or a
-- process is its place in the list of all that were created; a cell is `none` once it is freed.
pub mod Switch
pub mod Steps
pub mod Frames
pub mod Moves
pub mod Places
pub mod Safety
pub mod Exclusive
pub mod Fifo
mod Tests
use elysium_os.Base.{
  ℕ, zero, suc, Bool, true, false, List, [], ◌∷◌, ◌++◌, Option, none, some, length, get_elem?, set,
  replicate, ◌==◌, if◌then◌else◌, Run, ok, panic, undefined, ◌>>=◌, Result,
}
use elysium_os.Resource.{Table, pos, resource_remove}

-- thread_state_t
pub data ThreadState : Type 0 where
  ready active destroy : ThreadState

-- thread_t
pub record Thread : Type 0 where
  pub state : ThreadState
  pub proc : Option ℕ

-- process_t
pub record Process : Type 0 where
  pub threads : List ℕ
  pub resource_table : Table ℕ

-- cpu_t; `previous` is the thread that the processor left and has not dropped yet.
pub record Cpu : Type 0 where
  pub current : ℕ
  pub idle_thread : ℕ
  pub previous : Option ℕ

pub record Sched : Type 0 where
  pub all_threads : List (Option Thread)
  pub processes : List (Option Process)
  pub threads_queued : List ℕ
  pub cpus : List Cpu

-- A read of an object that was freed is undefined.
abbrev pub object {ℓ} : {A : Type ℓ} → Option (Option A) → Run A
object (some (some a)) = ok a
object (some none) = undefined
object none = undefined

abbrev pub thread_at : ℕ → Sched → Run Thread
thread_at t s = object (get_elem? s.all_threads t)

abbrev pub process_at : ℕ → Sched → Run Process
process_at p s = object (get_elem? s.processes p)

-- DEFAULT_RESOURCE_COUNT
abbrev pub default_resource_count : ℕ
default_resource_count = 256

unfoldable pub sched_process_create : Sched → ℕ × Sched
sched_process_create s = (
  length s.processes,
  record s {
    processes =
        s.processes
        ++ some (record {
          threads = [];
          resource_table = record {
            resources = replicate default_resource_count none;
            count = default_resource_count;
          };
        })
          ∷ [];
  },
)

-- The loop of `sched_process_destroy`, for the `left` entries from `i` on.
unfoldable pub remove_all : (left i : ℕ) → Table ℕ → Run (Table ℕ)
remove_all zero i table = ok table
remove_all (suc left) i table = resource_remove table (pos i) >>= λ r. remove_all left (suc i) r.1

unfoldable pub sched_process_destroy : ℕ → Sched → Run Sched
sched_process_destroy p s = process_at p s >>= λ proc.
    remove_all proc.resource_table.count 0 proc.resource_table >>= λ _.
    ok (record s { processes = set s.processes p none })

unfoldable pub sched_thread_schedule : ℕ → Sched → Sched
sched_thread_schedule t s = record s { threads_queued = s.threads_queued ++ t ∷ [] }

abbrev pub next_of : List ℕ → Sched → Option ℕ × Sched
next_of [] s = (none, s)
next_of (t ∷ ts) s = (some t, record s { threads_queued = ts })

unfoldable pub sched_thread_next : Sched → Option ℕ × Sched
sched_thread_next s = next_of s.threads_queued s

-- list_delete of the element of a thread
abbrev pub without : ℕ → List ℕ → List ℕ
without t [] = []
without t (x ∷ xs) = if x == t then xs else x ∷ without t xs

abbrev pub destroy_if_empty : List ℕ → ℕ → Sched → Run Sched
destroy_if_empty [] p s = sched_process_destroy p s
destroy_if_empty (t ∷ ts) p s = ok s

abbrev pub leave_process : ℕ → Option ℕ → Sched → Run Sched
leave_process t none s = ok s
leave_process t (some p) s = process_at p s >>= λ proc.
    destroy_if_empty (without t proc.threads) p (record s {
      processes = set s.processes p (some (record proc { threads = without t proc.threads }));
    })

unfoldable pub arch_sched_thread_destroy : ℕ → Sched → Run Sched
arch_sched_thread_destroy t s = thread_at t s >>= λ thread. leave_process t thread.proc s >>= λ s'.
    ok (record s' { all_threads = set s'.all_threads t none })

abbrev pub drop_in : ThreadState → ℕ → Sched → Run Sched
drop_in destroy t s = arch_sched_thread_destroy t s
drop_in ready t s = ok (sched_thread_schedule t s)
drop_in active t s = ok (sched_thread_schedule t s)

unfoldable pub sched_thread_drop : (idle_thread t : ℕ) → Sched → Run Sched
sched_thread_drop idle_thread t s =
    if t == idle_thread then ok s else thread_at t s >>= λ thread. drop_in thread.state t s
