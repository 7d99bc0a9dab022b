-- ===== src/SyscallFs.antt =====
-- The system calls on open files, kernel/src/syscall/syscall_fs.c, over the table of open files of the
-- process at hand, the path lookup and what a node's operations and the copies from and to the process
-- do. `flags` stand decoded: the values of O_CREAT and the others are the C library's.
pub mod Open
pub mod Data
pub mod Seek
pub mod Stat
mod Tests
use elysium_os.Base.{
  Result, done, failed, Errno, einval, ebadf, ℕ, zero, suc, ◌+◌, ◌<◌, ◌≡◌, Bool, true, false, List,
  [], ◌∷◌, Option, none, some, length, set, ltb, ◌==◌, if◌then◌else◌, Run, ok, panic, undefined,
  ◌>>=◌, ◌>>◌, assert, not, ◌&&◌, sub64, add64,
}
use elysium_os.Vfs.{Attr, Call, FileSystems}
use elysium_os.Resource.{Mode, Resource, Table, ℤ, pos, negsuc, resource_get, resource_remove}

-- The other operations of a node, what is kept of a node, and the memory of the process.
pub record Nodes (fs : FileSystems) : Type 0 where
  -- node->type == VFS_NODE_TYPE_DIR
  pub is_dir : fs.Node → Bool
  -- node->ops->rw: what it answers, and the bytes that it read, or how many it wrote
  pub rw_read : fs.Node → (offset size : ℕ) → fs.World → (Result (Unit {0}) × List ℕ) × fs.World
  pub rw_write : fs.Node → (offset : ℕ) → List ℕ → fs.World → (Result (Unit {0}) × ℕ) × fs.World
  pub attr : fs.Node → fs.World → Result Attr × fs.World
  pub truncate : fs.Node → (length : ℕ) → Call fs.World (Unit {0})
  -- the copies of syscall_buffer_in and syscall_buffer_out
  pub buffer_in : (src count : ℕ) → fs.World → Option (List ℕ) × fs.World
  pub buffer_out : (dest : ℕ) → List ℕ → fs.World → fs.World

-- What a call stores in `err`: 0, an error number, or a negated one.
pub data Err : Type 0 where
  no_error : Err
  positive : Errno → Err
  negated : Errno → Err

-- syscall_return_t; a `failed e` in `value` is -e as a size_t.
pub record Return : Type 0 where
  pub value : Result ℕ
  pub err : Err

-- The process at hand, and the rest of the kernel.
pub record State (Node World : Type 0) : Type 0 where
  pub cwd : Option Node
  pub table : Table Node
  pub world : World

-- AT_FDCWD, or an identifier
pub data At : Type 0 where
  at_fdcwd : At
  at : ℤ → At

abbrev pub refused : Errno → Return
refused e = record { value = done 0; err = positive e }

abbrev pub returned : ℕ → Return
returned n = record { value = done n; err = no_error }

-- `ret.value = count; if(r != 0) ret.err = -r;`
abbrev pub counted : Result (Unit {0}) → ℕ → Return
counted (done u) n = returned n
counted (failed e) n = record { value = done n; err = positive e }

-- The node that a path is relative to: the working directory, or that of an open file.
abbrev pub base_of : {Node : Type 0} → Option (Resource Node) → Option (Option Node)
base_of none = none
base_of (some r) = some (some r.node)

module _ {Node World : Type 0} where
  abbrev pub with_table : Table Node → State Node World → State Node World
  with_table t st = record st { table = t }

  abbrev pub with_world : World → State Node World → State Node World
  with_world w st = record st { world = w }

  -- resource->offset = offset
  abbrev pub with_offset : ℤ → ℕ → Resource Node → State Node World → State Node World
  with_offset (negsuc n) offset r st = st
  with_offset (pos id) offset r st = record st {
    table = record st.table {
      resources = set st.table.resources id (some (record r { offset = offset }));
    };
  }

  abbrev pub closed : State Node World → Result ℕ × Table Node → Return × State Node World
  closed st (done n, t) = (returned 0, with_table t st)
  closed st (failed e, t) = (refused e, with_table t st)

  unfoldable pub syscall_fs_close :
      (resource_id : ℤ) → State Node World → Run (Return × State Node World)
  syscall_fs_close id st = resource_remove st.table id >>= λ r. ok (closed st r)

  unfoldable pub base_node : At → State Node World → Run (Option (Option Node))
  base_node at_fdcwd st = ok (some st.cwd)
  base_node (at id) st = resource_get st.table id >>= λ r. ok (base_of r)

-- A C string: the characters up to the first 0.
abbrev pub c_string : List ℕ → List ℕ
c_string [] = []
c_string (c ∷ cs) = if c == 0 then [] else (c ∷ c_string cs)

module _ (fs : FileSystems) (nodes : Nodes fs) where
  open fs use {World, Node}
  open nodes use {buffer_in}

  -- Whether heap_alloc returns, for a buffer that the call frees again.
  abbrev pub room : (size : ℕ) → World → Bool
  room size w = not (size == 0) && fs.heap_room size w

  unfoldable pub syscall_buffer_in : (src count : ℕ) → World → Run (Option (List ℕ) × World)
  syscall_buffer_in src count w = assert (room count w) >> ok (buffer_in src count w)

  -- syscall_string_in: `str[length] = 0` is undefined outside of the buffer.
  abbrev pub terminated : (length : ℕ) → Option (List ℕ) × World → Run (Option (List ℕ) × World)
  terminated n (none, w) = ok (none, w)
  terminated n (some bytes, w) =
      if ltb n (length bytes) then ok (some (c_string (set bytes n 0)), w) else undefined

  unfoldable pub string_in : (src length : ℕ) → World → Run (Option (List ℕ) × World)
  unfolding syscall_buffer_in
  string_in src n w = syscall_buffer_in src (add64 n 1) w >>= terminated n
