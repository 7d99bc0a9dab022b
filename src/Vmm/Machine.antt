-- ===== src/Vmm/Machine.antt =====
-- What kernel/src/memory/vmm.c asks of the physical memory manager and of the page tables
-- (kernel/src/memory/pmm.h and kernel/src/arch/vmm.h), and the state that it keeps itself.
use elysium_os.Base.{ℕ, ◌/◌, ◌%◌, ◌^◌, Bool, List, Option, ◌==◌, Run}
use elysium_os.Vmm.Segments.{Segment, Space}

-- The kernel's address space, or that of the process at hand.
pub data Owner : Type 0 where
  kernel user : Owner

-- Physical memory and the page tables: `Memory` is all of their state.
pub record Machine : Type 1 where
  pub Memory : Type 0
  -- pmm_alloc_page(flags)->paddr, where the flag asks for a zeroed page
  pub alloc_page : (zeroed : Bool) → Memory → Run (ℕ × Memory)
  -- arch_vmm_ptm_map
  pub ptm_map : Owner → (vaddr paddr prot cache flags : ℕ) → Memory → Run Memory
  -- arch_vmm_ptm_unmap
  pub ptm_unmap : Owner → (vaddr : ℕ) → Memory → Memory
  -- arch_vmm_ptm_physical
  pub ptm_physical : Owner → (vaddr : ℕ) → Memory → Option ℕ
  -- memcpy to and from HHDM(paddr)
  pub hhdm_write : (paddr : ℕ) → List ℕ → Memory → Memory
  pub hhdm_read : (paddr length : ℕ) → Memory → List ℕ
  -- the i-th segment object of a page that nobody has written to
  pub blank : (i : ℕ) → Memory → Segment

-- `g_vmm_kernel_address_space`, a process's space, and `g_segments_free`.
pub record State (Memory : Type 0) : Type 0 where
  pub memory : Memory
  pub kernel_space : Space
  pub user_space : Space
  pub segments_free : List Segment

module _ {Memory : Type 0} where
  abbrev pub space_of : Owner → State Memory → Space
  space_of kernel st = st.kernel_space
  space_of user st = st.user_space

  abbrev pub set_space : Owner → Space → State Memory → State Memory
  set_space kernel s st = record st { kernel_space = s }
  set_space user s st = record st { user_space = s }

-- flags & (1 << k)
abbrev pub has_flag : (flags k : ℕ) → Bool
has_flag flags k = (flags / 2 ^ k) % 2 == 1

-- the bits of VMM_FLAG_FIXED, VMM_FLAG_NO_DEMAND and VMM_FLAG_ANON_ZERO
abbrev pub flag_fixed : ℕ
flag_fixed = 1

abbrev pub flag_no_demand : ℕ
flag_no_demand = 2

abbrev pub flag_anon_zero : ℕ
flag_anon_zero = 10

-- VMM_PROT_READ | VMM_PROT_WRITE
abbrev pub prot_read_write : ℕ
prot_read_write = 6

-- ARCH_VMM_FLAG_NONE and ARCH_VMM_FLAG_USER
abbrev pub arch_flags : Owner → ℕ
arch_flags kernel = 0
arch_flags user = 1

-- ARCH_PAGE_SIZE / sizeof(vmm_segment_t)
abbrev pub segments_per_page : ℕ
segments_per_page = 64
