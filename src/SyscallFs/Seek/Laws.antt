-- ===== src/SyscallFs/Seek/Laws.antt =====
-- What `seek` of kernel/src/syscall/syscall_fs.c promises.
use elysium_os.Base.{
  done, einval, inl, inr, ℕ, ◌+◌, ◌-◌, ◌<◌, ◌≤◌, ◌^◌, ◌≡◌, ◌≢◌, true, false, Option, none, some,
  leb, ltb, if◌then◌else◌, ok, arith, refl, ap, sym, ◌∙◌, ◌>>=◌, add64, Bool-cases,
}
use elysium_os.Vfs.{Attr, FileSystems}
use elysium_os.Resource.{Resource, ℤ, pos, resource_get}
use elysium_os.SyscallFs.{Nodes, Return, State, refused, returned, with_world, with_offset}
use elysium_os.SyscallFs.Seek.{
  Whence, seek_set, seek_cur, seek_end, seek_other, is_negative, signed_add, seek_to, seek_end_of,
  seek_from, seekable, syscall_fs_seek,
}

-- A signed 64-bit offset, by its sign.
pub data Displacement : Type 0 where
  forward : (k : ℕ) → Displacement
  back : (k : ℕ) → Displacement

-- its word in two's complement
abbrev pub word_of : Displacement → ℕ
word_of (forward k) = k
word_of (back k) = 2 ^ 64 - k

abbrev pub IsInt64 : Displacement → Type 0
IsInt64 (forward k) = k < 2 ^ 63
IsInt64 (back k) = (0 < k) × (k ≤ 2 ^ 63)

-- The place that lies so far from `base`, if it is an offset.
abbrev pub sought : (base : ℕ) → Displacement → Option ℕ
sought base (forward k) = if ltb (base + k) (2 ^ 63) then some (base + k) else none
sought base (back k) = if leb k base then some (base - k) else none

-- With SEEK_CUR a sum that is no offset overflows.
abbrev pub Fits : Whence → (offset : ℕ) → Displacement → Type 0
Fits seek_cur offset (forward k) = offset + k < 2 ^ 63
Fits whence offset d = Unit

-- From where a seek counts.
abbrev pub from : Whence → (offset size : ℕ) → ℕ
from seek_cur offset size = offset
from seek_end offset size = size
from whence offset size = 0

word-add : (d : Displacement) → IsInt64 d → word_of d ≡ add64 0 (word_of d)
word-add (forward k) int = omega arith
word-add (back k) int = let (positive, small) = int in omega arith

swap : (d : Displacement) (b : ℕ) → add64 (word_of d) b ≡ add64 b (word_of d)
swap d b = omega arith

module _ (fs : FileSystems) (nodes : Nodes fs) where
  open fs use {World, Node}
  open nodes use {attr}

  -- The answer, and the state after it.
  abbrev pub sought_to : ℤ → Resource Node → State Node World → Option ℕ → Return × State Node World
  sought_to id r st none = (refused einval, st)
  sought_to id r st (some n) = (returned n, with_offset id n r st)

  -- Only SEEK_END asks for the attributes.
  abbrev pub asked : Whence → World → State Node World → State Node World
  asked seek_end w st = with_world w st
  asked whence w st = st

  seek_to-in :
      (id : ℤ) (r : Resource Node) (st : State Node World) (n : ℕ)
      → is_negative n ≡ false
      → Path
          (Return × State Node World)
          (seek_to fs nodes id r st n)
          (returned n, with_offset id n r st)
  unfolding seek_to
  seek_to-in id r st n h = simp (seek_to, h)

  seek_to-sought :
      (id : ℤ) (r : Resource Node) (st : State Node World) (base : ℕ) (d : Displacement) (n : ℕ)
      → IsInt64 d
      → base < 2 ^ 63
      → n ≡ add64 base (word_of d)
      → Path
          (Return × State Node World)
          (seek_to fs nodes id r st n)
          (sought_to id r st (sought base d))
  unfolding seek_to
  seek_to-sought id r st base (forward k) n int low h =
      elim (Bool-cases (ltb (base + k) (2 ^ 63))) [
        | inl fits ↦
            let e : n ≡ base + k = ground arith in
            let sign : leb (2 ^ 63) n ≡ false = ground arith in
            let there : (if ltb (base + k) (2 ^ 63) then some (base + k) else none)
                ≡ some (base + k) =
              simp (fits) in
            seek_to-in id r st n sign
            ∙ ap (λ n. (returned n, with_offset id n r st)) e
            ∙ sym (ap (sought_to id r st) there)
        | inr out ↦ let sign : leb (2 ^ 63) n ≡ true = ground arith in simp (seek_to, sign, out)
      ]
  seek_to-sought id r st base (back k) n int low h = elim (Bool-cases (leb k base)) [
    | inl fits ↦
        let (positive, small) = int in
        let e : n ≡ base - k = ground arith in
        let sign : leb (2 ^ 63) n ≡ false = ground arith in
        let there : (if leb k base then some (base - k) else none) ≡ some (base - k) =
          simp (fits) in
        seek_to-in id r st n sign
        ∙ ap (λ n. (returned n, with_offset id n r st)) e
        ∙ sym (ap (sought_to id r st) there)
    | inr out ↦
        let (positive, small) = int in
        let sign : leb (2 ^ 63) n ≡ true = ground arith in simp (seek_to, sign, out)
  ]

  signed_add-Fits :
      (offset : ℕ) (d : Displacement)
      → IsInt64 d
      → offset < 2 ^ 63
      → Fits seek_cur offset d
      → signed_add offset (word_of d) ≡ ok (add64 offset (word_of d))
  unfolding signed_add
  signed_add-Fits offset (forward k) int low fits =
      let a : leb (2 ^ 63) offset ≡ false = ground arith in
      let b : leb (2 ^ 63) k ≡ false = ground arith in
      let c : leb (2 ^ 63) (add64 offset k) ≡ false = ground arith in simp (signed_add, a, b, c)
  signed_add-Fits offset (back k) int low fits =
      let (positive, small) = int in
      let a : leb (2 ^ 63) offset ≡ false = ground arith in
      let b : leb (2 ^ 63) (2 ^ 64 - k) ≡ true = ground arith in simp (signed_add, a, b)

  seek_from-sought :
      (id : ℤ) (whence : Whence) (d : Displacement) (r : Resource Node) (st : State Node World)
      (a : Attr) (w : World)
      → whence ≢ seek_other
      → attr r.node st.world ≡ (done a, w)
      → IsInt64 d
      → Fits whence r.offset d
      → r.offset < 2 ^ 63
      → a.size < 2 ^ 63
      → seek_from fs nodes id (word_of d) whence r st
        ≡ ok (sought_to id r (asked whence w st) (sought (from whence r.offset a.size) d))
  unfolding seek_from seek_end_of
  seek_from-sought id seek_set d r st a w known sized int fits low small =
      ap ok (seek_to-sought id r st 0 d (word_of d) int (omega arith) (word-add d int))
  seek_from-sought id seek_cur d r st a w known sized int fits low small =
      ap (λ m. m >>= λ n. ok (seek_to fs nodes id r st n)) (signed_add-Fits r.offset d int low fits)
      ∙ ap ok (seek_to-sought id r st r.offset d _ int low refl)
  seek_from-sought id seek_end d r st a w known sized int fits low small =
      ap (λ s. ok (seek_end_of fs nodes id (word_of d) r st s)) sized
      ∙ ap ok (seek_to-sought id r (with_world w st) a.size d _ int small (swap d a.size))
  seek_from-sought id seek_other d r st a w known sized int fits low small = absurd (known refl)

  -- Seeking with an identifier that is open to read or to write, by a signed 64-bit displacement: it
  -- always returns. The new offset, which is the value too, lies as far from the start, the old offset
  -- or the end as the displacement says, if that is at least 0 and below 2^63; if it is not, the error
  -- is EINVAL and the open files are as before. It is stated for offsets and sizes below 2^63, and for
  -- sums of SEEK_CUR that do not overflow.
  pub syscall_fs_seek-sought :
      (i : ℕ) (whence : Whence) (d : Displacement) (r : Resource Node) (st : State Node World)
      (a : Attr) (w : World)
      → whence ≢ seek_other
      → resource_get st.table (pos i) ≡ ok (some r)
      → seekable r.mode ≡ true
      → attr r.node st.world ≡ (done a, w)
      → IsInt64 d
      → Fits whence r.offset d
      → r.offset < 2 ^ 63
      → a.size < 2 ^ 63
      → syscall_fs_seek fs nodes (pos i) (word_of d) whence st
        ≡ ok (sought_to (pos i) r (asked whence w st) (sought (from whence r.offset a.size) d))
  unfolding syscall_fs_seek
  syscall_fs_seek-sought i whence d r st a w known there can sized int fits low small =
      (simp (syscall_fs_seek, there, can))
      ∙ seek_from-sought (pos i) whence d r st a w known sized int fits low small
