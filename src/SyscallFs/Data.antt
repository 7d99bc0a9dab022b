-- ===== src/SyscallFs/Data.antt =====
-- `read` and `write` of kernel/src/syscall/syscall_fs.c.
pub mod Laws
use elysium_os.Base.{
  Result, einval, ebadf, ℕ, ◌≡◌, Bool, true, false, List, Option, none, some, length, if◌then◌else◌,
  Run, ok, ◌>>=◌, ◌>>◌, assert, add64,
}
use elysium_os.Vfs.{FileSystems}
use elysium_os.Resource.{
  Mode, read_only, write_only, read_write, reference, Resource, ℤ, resource_get,
}
use elysium_os.SyscallFs.{
  Nodes, Return, State, refused, counted, with_world, with_offset, room, syscall_buffer_in,
}

abbrev pub readable : Mode → Bool
readable read_only = true
readable read_write = true
readable _ = false

abbrev pub writable : Mode → Bool
writable write_only = true
writable read_write = true
writable _ = false

module _ (fs : FileSystems) (nodes : Nodes fs) where
  open fs use {World, Node}
  open nodes use {rw_read, rw_write, buffer_in, buffer_out}

  -- The buffer is a block of the heap. What is read goes to the process, whatever `rw` answers.
  unfoldable pub read_done :
      ℤ
      → (buf : ℕ) → Resource Node
      → State Node World
      → (Result (Unit {0}) × List ℕ) × World
      → Return × State Node World
  read_done id buf r st ((a, bytes), w) = (
    counted a (length bytes),
    with_offset id (add64 r.offset (length bytes)) r (with_world (buffer_out buf bytes w) st),
  )

  abbrev pub read_open :
      ℤ
      → (buf count : ℕ) → State Node World
      → Option (Resource Node)
      → Run (Return × State Node World)
  read_open id buf count st none = ok (refused ebadf, st)
  read_open id buf count st (some r) =
      if readable r.mode
      then (assert (room fs nodes count st.world)
          >> ok (read_done id buf r st (rw_read r.node r.offset count st.world)))
      else ok (refused ebadf, st)

  unfoldable pub syscall_fs_read :
      (resource_id : ℤ) → (buf count : ℕ) → State Node World → Run (Return × State Node World)
  unfolding read_done
  syscall_fs_read id buf count st = resource_get st.table id >>= λ r. read_open id buf count st r

  unfoldable pub write_done :
      ℤ
      → Resource Node
      → State Node World
      → (Result (Unit {0}) × ℕ) × World
      → Return × State Node World
  write_done id r st ((a, n), w) =
      (counted a n, with_offset id (add64 r.offset n) r (with_world w st))

  unfoldable pub write_from :
      ℤ → Resource Node → State Node World → Option (List ℕ) × World → Return × State Node World
  unfolding write_done
  write_from id r st (none, w) = (refused einval, with_world w st)
  write_from id r st (some bytes, w) =
      write_done id r (with_world w st) (rw_write r.node r.offset bytes w)

  abbrev pub write_open :
      ℤ
      → (buf count : ℕ) → State Node World
      → Option (Resource Node)
      → Run (Return × State Node World)
  write_open id buf count st none = ok (refused ebadf, st)
  write_open id buf count st (some r) =
      if writable r.mode
      then (syscall_buffer_in fs nodes buf count st.world >>= λ b. ok (write_from id r st b))
      else ok (refused ebadf, st)

  unfoldable pub syscall_fs_write :
      (resource_id : ℤ) → (buf count : ℕ) → State Node World → Run (Return × State Node World)
  unfolding write_from syscall_buffer_in
  syscall_fs_write id buf count st = resource_get st.table id >>= λ r. write_open id buf count st r
