-- ===== src/Vmm.antt =====
-- The segments of an address space, kernel/src/memory/vmm.c: where memory is mapped, which segment
-- an address belongs to, and the operations that map and unmap. Page tables and physical pages are
-- reached through the interface of `Vmm.Machine`; the spinlocks make each call atomic.
pub mod Segments
pub mod Machine
pub mod Pool
pub mod Map
pub mod Unmap
pub mod Copy
mod Tests
