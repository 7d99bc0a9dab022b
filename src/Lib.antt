-- ===== src/Lib.antt =====
-- Verification of ElysiumOS, a small x86-64 kernel written in C.
--
-- The kernel's memory management has three layers: pages of physical memory (kernel/src/memory/pmm.c),
-- the segments of address spaces (kernel/src/memory/vmm.c), which take pages and page tables from
-- below, and the kernel heap (kernel/src/memory/heap.c), which lives in one mapping and from which the
-- rest of the kernel allocates its objects.
--
-- Base holds what the other modules share: Boolean tests on numbers, lists measured by native numbers,
-- 64-bit words with their wrap-around written out, and the three outcomes of a call: a value, a kernel
-- panic (a failed ASSERT), or behaviour that C leaves undefined.
--
-- Heap is heap.c. `Entry` is a `heap_entry_t` with its protection word, the list of entries in address
-- order stands for `g_entries`, and `initialize`, `alloc_align`, `alloc` and `free` are heap_initialize,
-- heap_alloc_align, heap_alloc and heap_free. Merges go by the order of the list, as in the code. The
-- label `aligned` of the code is the definition `aligned`. The search for an offset runs on `fit_rounds`,
-- as many jumps as can pass the smallest entry.
--
-- Vmm is vmm.c. Vmm.Segments has the segments, the macros on bounds, find_space, addr_to_segment and
-- memory_exists; Vmm.Machine is the interface to the page tables and to the physical pages, and the
-- state; Vmm.Pool has segment_map, segment_unmap and the pool of segment objects; Vmm.Map has
-- map_common with vmm_map_anon and vmm_map_direct, and vmm_fault; Vmm.Unmap has vmm_unmap; Vmm.Copy has
-- vmm_copy_to and vmm_copy_from. The loops without a bound run on fuel: find_space on one round for each
-- segment and two more, memory_exists and the copies on one for each byte, the loops of vmm_unmap on one
-- for each page. Each round takes at least as much off what is left, so the fuel is enough.
--
-- Time is sys/time.h and time.c of kernel/src: time_add, time_subtract, time_advance and timer_create. A
-- callback is a function on the rest of the kernel. Resource is kernel/src/sched/resource.c. Tmpfs is
-- kernel/src/fs/tmpfs.c: Tmpfs.File has tmpfs_node_rw and tmpfs_node_truncate, with the heap as the
-- parameter `heap_alloc`, since the bytes of fresh memory are not known; Tmpfs.Tree has the nodes, whose
-- pointers are places in a list of all nodes, and the operations on directories. The search in a
-- directory runs on one round for each node there is. tmpfs_node_mkdir and tmpfs_node_create differ in
-- one argument and are `node_make`.
--
-- Vfs is the path lookup of kernel/src/fs/vfs.c over a record of the calls that it makes of a file system
-- (kernel/src/fs/vfs.h); the loop over the characters of the path is recursion on them. Vfs.Walk goes from
-- the characters to the components of the path, and Vfs.Descent to the entries of directories.
--
-- SyscallFs is kernel/src/syscall/syscall_fs.c on top of Resource and Vfs: SyscallFs.Open, SyscallFs.Data
-- (read and write), SyscallFs.Seek, and SyscallFs.Stat (stat and getcwd). The record `Nodes` has the other
-- operations of a node and the copies from and to the process; flags stand decoded, and an off_t is the
-- word that holds it. That each call frees the strings and buffers it took is left out.
--
-- Pmm is kernel/src/memory/pmm.c. A pointer to a page is a `Ref`, the number of its region and its index
-- there. Pmm.Blocks has the loops of pmm_alloc and pmm_free on the lists of blocks and on the pages,
-- Pmm.Zones has pmm_zone_register and pmm_region_add, and Pmm.Pages the functions with their accounts. The
-- loop of pmm_free runs on one round for each order from the block's on, and ends by then; that of
-- pmm_region_add on one for each free page, and each takes a page at least. What a bitwise exclusive or
-- with a power of two does is written out in `flip`.
--
-- Format is kernel/src/lib/format.c; what it writes is the list of characters that `format` returns, or
-- `undefined` where the code reads an argument of another type, or outside of its tables, or where a width
-- or a precision overflows an int. Format.Parse
-- reads the parts of a directive, one definition for each label, Format.Convert has the conversions and the
-- loop, on one round for each character and one more, and Format.Number prints a number. A number has at
-- most 64 digits.
--
-- Sched is kernel/src/sched/sched.c with the functions on processors of kernel/src/arch/x86_64/sched.c in
-- Sched.Switch. x86_64_sched_next is two definitions, `sched_next` up to the context switch and
-- `drop_previous` behind it, since other processors may run between them; Sched.Steps has the steps. A
-- circular list whose head is the queue is the sequence from the head on, so that list_prepend on the head
-- puts a thread at the end. What a thread has of stacks and registers is
-- left out, and a process or a thread is made only where there is memory for it.
--
-- Where the code takes an object from the heap, the model asks whether the heap has room for it, in an
-- argument `room` (timer_create, resource_create, create_tnode), or in the field `heap_room` of the file
-- systems (the path lookup, and the buffers of system calls): heap_alloc panics if it has not.
--
-- The spinlocks are not modelled: a call is atomic. Not modelled: the
-- page tables of arch/x86_64/vmm.c, the set-up of stacks, the other system calls, the loader and the
-- ram disk; nor log output, and what only reaches registers, ports and the
-- framebuffer.
mod Base
pub mod Heap
pub mod Vmm
pub mod Time
pub mod Resource
pub mod Tmpfs
pub mod Vfs
pub mod SyscallFs
pub mod Pmm
pub mod Format
pub mod Sched
