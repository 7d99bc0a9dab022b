-- ===== src/SyscallFs/Seek.antt =====
-- `seek` of kernel/src/syscall/syscall_fs.c. An off_t or ssize_t is the 64-bit word that holds it.
pub mod Laws
use elysium_os.Base.{
  Result, done, failed, einval, ebadf, ℕ, ◌≡◌, ◌+◌, ◌^◌, Bool, true, false, not, ◌&&◌, ◌||◌, List,
  Option, none, some, leb, ltb, if◌then◌else◌, Run, ok, undefined, ◌>>=◌, add64,
}
use elysium_os.Vfs.{Attr, FileSystems}
use elysium_os.Resource.{
  Mode, read_only, write_only, read_write, reference, Resource, ℤ, resource_get,
}
use elysium_os.SyscallFs.{Nodes, Return, State, refused, returned, with_world, with_offset}

-- SEEK_SET, SEEK_CUR, SEEK_END, and every other number
pub data Whence : Type 0 where
  seek_set seek_cur seek_end seek_other : Whence

-- x < 0
abbrev pub is_negative : ℕ → Bool
is_negative x = leb (2 ^ 63) x

-- x + y of two signed numbers, undefined where it overflows
abbrev pub same : Bool → Bool → Bool
same true b = b
same false b = not b

unfoldable pub signed_add : ℕ → ℕ → Run ℕ
signed_add x y =
    if same (is_negative x) (is_negative y) && not (same (is_negative x) (is_negative (add64 x y)))
    then undefined
    else ok (add64 x y)

abbrev pub seekable : Mode → Bool
seekable reference = false
seekable _ = true

module _ (fs : FileSystems) (nodes : Nodes fs) where
  open fs use {World, Node}
  open nodes use {attr}

  -- From the test of `new_offset` on.
  unfoldable pub seek_to :
      ℤ → Resource Node → State Node World → (new_offset : ℕ) → Return × State Node World
  seek_to id r st new_offset =
      if is_negative new_offset
      then (refused einval, st)
      else (returned new_offset, with_offset id new_offset r st)

  -- SEEK_END: the sum with the unsigned size wraps around.
  unfoldable pub seek_end_of :
      ℤ
      → (offset : ℕ) → Resource Node
      → State Node World
      → Result Attr × World
      → Return × State Node World
  unfolding seek_to
  seek_end_of id offset r st (failed e, w) = (refused e, with_world w st)
  seek_end_of id offset r st (done a, w) = seek_to id r (with_world w st) (add64 offset a.size)

  unfoldable pub seek_from :
      ℤ → (offset : ℕ) → Whence → Resource Node → State Node World → Run (Return × State Node World)
  unfolding seek_end_of
  seek_from id offset seek_set r st = ok (seek_to id r st offset)
  seek_from id offset seek_cur r st =
      signed_add r.offset offset >>= λ new_offset. ok (seek_to id r st new_offset)
  seek_from id offset seek_end r st = ok (seek_end_of id offset r st (attr r.node st.world))
  seek_from id offset seek_other r st = ok (refused einval, st)

  abbrev pub seek_open :
      ℤ
      → (offset : ℕ) → Whence
      → State Node World
      → Option (Resource Node)
      → Run (Return × State Node World)
  seek_open id offset whence st none = ok (refused ebadf, st)
  seek_open id offset whence st (some r) =
      if seekable r.mode then seek_from id offset whence r st else ok (refused ebadf, st)

  unfoldable pub syscall_fs_seek :
      (resource_id : ℤ) → (offset : ℕ) → Whence → State Node World → Run (Return × State Node World)
  unfolding seek_from
  syscall_fs_seek id offset whence st =
      resource_get st.table id >>= λ r. seek_open id offset whence st r
