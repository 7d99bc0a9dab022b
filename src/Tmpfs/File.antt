-- ===== src/Tmpfs/File.antt =====
-- The contents of a file: `tmpfs_node_rw` and `tmpfs_node_truncate` (kernel/src/fs/tmpfs.c).
pub mod Laws
pub mod Truncate
use elysium_os.Base.{
  ℕ, ◌+◌, ◌-◌, ◌<◌, ◌≡◌, Bool, List, [], ◌∷◌, Option, none, some, length, take, drop, put,
  replicate, leb, ltb, ◌==◌, if◌then◌else◌, add64, sub64, Run, ok, panic, undefined, ◌>>=◌, ◌>>◌,
}

-- tmpfs_file_t: `base` is `none` for NULL, and otherwise the buffer that it leads to.
pub record File : Type 0 where
  pub base : Option (List ℕ)
  pub size : ℕ

-- What `tfile->base` leads to; NULL leads to no bytes at all.
abbrev pub buffer : File → List ℕ
buffer f = elim f.base [ none ↦ [] | some bytes ↦ bytes ]

-- memcpy to an offset in a buffer, undefined beyond its end
unfoldable pub copy_to : (dst : List ℕ) (start : ℕ) (src : List ℕ) → Run (List ℕ)
copy_to dst start src =
    if leb (start + length src) (length dst) then ok (put dst start src) else undefined

-- memcpy out of a buffer, undefined beyond its end
unfoldable pub copy_from : (src : List ℕ) (start count : ℕ) → Run (List ℕ)
copy_from src start count =
    if leb (start + count) (length src) then ok (take count (drop start src)) else undefined

-- VFS_RW_READ: the bytes that are copied out, as many as `*rw_count` says.
unfoldable pub read : File → (offset size : ℕ) → Run (List ℕ)
unfolding copy_from
read f offset size =
    if leb f.size offset
    then ok []
    else (let rest = sub64 f.size offset in
        copy_from (buffer f) offset (if ltb size rest then size else rest))

-- The buffer after a write; the write of nothing to NULL leaves NULL.
abbrev pub stored : File → List ℕ → File
stored f bytes = elim f.base [ none ↦ f | some old ↦ record f { base = some bytes } ]

-- The bytes of an object fresh from the heap are whatever was there; `heap_alloc` answers them.
module _ (heap_alloc : ℕ → Run (List ℕ)) where
  -- The buffer is replaced by a larger one with the old bytes in front.
  unfoldable pub grow : File → (size : ℕ) → Run File
  unfolding copy_to copy_from
  grow f size = do
    fresh ← heap_alloc size
    old ← copy_from (buffer f) 0 f.size
    bytes ← copy_to fresh 0 old
    ok (record { base = some bytes; size = size })

  -- VFS_RW_WRITE of the bytes of the packet's buffer
  unfoldable pub write : File → (offset : ℕ) → (bytes : List ℕ) → Run File
  unfolding grow copy_to
  write f offset bytes = do
    f ←
        (if ltb f.size (add64 offset (length bytes))
          then grow f (add64 offset (length bytes))
          else ok f)
    written ← copy_to (buffer f) offset bytes
    ok (stored f written)

  unfoldable pub truncate : File → (size : ℕ) → Run File
  unfolding copy_to copy_from
  truncate f size =
      if ltb 0 size
      then (do
        fresh ← heap_alloc size
        old ← copy_from (buffer f) 0 (if ltb f.size size then f.size else size)
        bytes ← copy_to (put fresh 0 (replicate size 0)) 0 old
        ok (record { base = some bytes; size = size }))
      else ok (record { base = none; size = size })
