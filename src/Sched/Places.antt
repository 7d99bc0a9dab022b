-- ===== src/Sched/Places.antt =====
-- Where the threads are: in the queue, on a processor, or between a processor and the queue. No thread
-- is in two places, whatever the order of the calls (kernel/src/sched/sched.c).
use elysium_os.Base.{
  ℕ, zero, suc, ◌+◌, ◌≤◌, false, ◌≡◌, ◌≢◌, refl, ap, List, [], ◌∷◌, ◌++◌, Option, none, some,
  length, get_elem?, set, ◌==◌, if◌then◌else◌, arith, some-eq,
}
use elysium_os.Sched.{Cpu, Sched}
use elysium_os.Sched.Moves.{Switched, stays, idles, goes_on, Moved}

abbrev pub is : ℕ → ℕ → ℕ
is x t = if x == t then 1 else 0

-- A thread other than the idle one.
abbrev pub busy : (idle_thread x t : ℕ) → ℕ
busy idle_thread x t = if x == idle_thread then 0 else is x t

abbrev pub busy_previous : (idle_thread : ℕ) → Option ℕ → ℕ → ℕ
busy_previous idle_thread none t = 0
busy_previous idle_thread (some x) t = busy idle_thread x t

abbrev pub count : ℕ → List ℕ → ℕ
count t [] = 0
count t (x ∷ xs) = is x t + count t xs

-- A processor has its idle thread, whether it runs or not.
abbrev pub owned : ℕ → Cpu → ℕ
owned t cpu =
    is cpu.idle_thread t
    + busy cpu.idle_thread cpu.current t
    + busy_previous cpu.idle_thread cpu.previous t

abbrev pub all_owned : ℕ → List Cpu → ℕ
all_owned t [] = 0
all_owned t (cpu ∷ cpus) = owned t cpu + all_owned t cpus

-- In how many places a thread is.
abbrev pub places : ℕ → Sched → ℕ
places t s = count t s.threads_queued + all_owned t s.cpus

pub count-append : (t : ℕ) (xs ys : List ℕ) → count t (xs ++ ys) ≡ count t xs + count t ys
count-append t [] ys = omega arith
count-append t (x ∷ xs) ys = omega (arith, count-append t xs ys)

pub all_owned-append :
    (t : ℕ) (xs ys : List Cpu) → all_owned t (xs ++ ys) ≡ all_owned t xs + all_owned t ys
all_owned-append t [] ys = omega arith
all_owned-append t (x ∷ xs) ys = omega (arith, all_owned-append t xs ys)

pub all_owned-set :
    (t : ℕ) (cpus : List Cpu) (c : ℕ) (cpu cpu' : Cpu)
    → get_elem? cpus c ≡ some cpu
    → all_owned t (set cpus c cpu') + owned t cpu ≡ all_owned t cpus + owned t cpu'
all_owned-set t [] c cpu cpu' e = absurd (ground arith)
all_owned-set t (x ∷ xs) zero cpu cpu' e = omega (arith, ap (owned t) (some-eq e))
all_owned-set t (x ∷ xs) (suc c) cpu cpu' e = omega (arith, all_owned-set t xs c cpu cpu' e)

pub owned-le :
    (t : ℕ) (cpus : List Cpu) (c : ℕ) (cpu : Cpu)
    → get_elem? cpus c ≡ some cpu
    → owned t cpu ≤ all_owned t cpus
owned-le t [] c cpu e = absurd (ground arith)
owned-le t (x ∷ xs) zero cpu e = omega (arith, ap (owned t) (some-eq e))
owned-le t (x ∷ xs) (suc c) cpu e = omega (arith, owned-le t xs c cpu e)

pub owned_twice :
    (t : ℕ) (cpus : List Cpu) (c d : ℕ) (cpu other : Cpu)
    → c ≢ d
    → get_elem? cpus c ≡ some cpu
    → get_elem? cpus d ≡ some other
    → owned t cpu + owned t other ≤ all_owned t cpus
owned_twice t [] c d cpu other ne e f = absurd (ground arith)
owned_twice t (x ∷ xs) zero zero cpu other ne e f = absurd (ne refl)
owned_twice t (x ∷ xs) zero (suc d) cpu other ne e f =
    omega (arith, ap (owned t) (some-eq e), owned-le t xs d other f)
owned_twice t (x ∷ xs) (suc c) zero cpu other ne e f =
    omega (arith, ap (owned t) (some-eq f), owned-le t xs c cpu e)
owned_twice t (x ∷ xs) (suc c) (suc d) cpu other ne e f =
    omega (arith, owned_twice t xs c d cpu other (λ p. ne (ap suc p)) e f)

pub busy-le : (i x t : ℕ) → busy i x t ≤ is x t
busy-le i x t = ground arith

pub busy-idle : (i t : ℕ) → busy i i t ≡ 0
busy-idle i t = ground arith

pub busy-eq : (i x t : ℕ) → (x == i) ≡ false → busy i x t ≡ is x t
busy-eq i x t h = ground arith

-- A switch puts no thread into a second place.
Switched-le :
    (t : ℕ) (cpu cpu' : Cpu) (q q' : List ℕ)
    → cpu.previous ≡ none
    → Switched cpu cpu' q q'
    → count t q' + owned t cpu' ≤ count t q + owned t cpu
Switched-le t cpu cpu' q q' p (stays idle e) = omega (arith, ap (owned t) e)
Switched-le t cpu cpu' q q' p (idles e) = omega (
  arith,
  ap (owned t) e,
  ap (λ o. busy_previous cpu.idle_thread o t) p,
  busy-idle cpu.idle_thread t,
)
Switched-le t cpu cpu' q q' p (goes_on x xs e) = omega (
  arith,
  ap (owned t) e,
  ap (λ o. busy_previous cpu.idle_thread o t) p,
  busy-le cpu.idle_thread x t,
)

-- What the calls keep of places, threads that are not made yet included.
pub record IsPlaced (s : Sched) : Type 0 where
  pub at_most_once : (t : ℕ) → places t s ≤ 1
  pub not_yet : (t : ℕ) → length s.all_threads ≤ t → places t s ≡ 0

pub record Fewer (s s' : Sched) : Type 0 where
  pub places_le : (t : ℕ) → places t s' ≤ places t s
  pub counted : length s'.all_threads ≡ length s.all_threads

pub Fewer-IsPlaced : {s s' : Sched} → Fewer s s' → IsPlaced s → IsPlaced s'
Fewer-IsPlaced f h = record {
  at_most_once = λ t. omega (arith, f.places_le t, h.at_most_once t);
  not_yet = λ t l. omega (arith, f.places_le t, f.counted, h.not_yet t (omega (arith, f.counted)));
}

pub Moved-Fewer :
    (c : ℕ) (cpu : Cpu) (s s' : Sched)
    → get_elem? s.cpus c ≡ some cpu
    → cpu.previous ≡ none
    → Moved c cpu s s'
    → Fewer s s'
Moved-Fewer c cpu s s' there p m = record {
  places_le = λ t. omega (
    arith,
    Switched-le t cpu m.cpu' s.threads_queued s'.threads_queued p m.switched,
    all_owned-set t s.cpus c cpu m.cpu' there,
    ap (all_owned t) m.cpus_set,
  );
  counted = ap length m.same_threads;
}
