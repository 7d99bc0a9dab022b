-- ===== src/SyscallFs/Tests.antt =====
-- The system calls on open files (kernel/src/syscall/syscall_fs.c), for a process with two open files.
use elysium_os.Base.{
  panic, ltb, done, failed, einval, enoent, emfile, ebadf, ℕ, ◌≡◌, ◌≢◌, false, List, [], ◌∷◌, none,
  some, length, take, drop, ◌==◌, if◌then◌else◌, ok, arith, refl,
}
use elysium_os.Vfs.{Attr, FileSystems, answer, refuse, lookup}
use elysium_os.Resource.{
  Resource, pos, read_only, read_write, resource_get, resource_create, resource_remove,
}
use elysium_os.Resource.Laws.{IsTable}
use elysium_os.SyscallFs.{
  Nodes, State, at_fdcwd, no_error, refused, returned, syscall_fs_close, string_in,
  syscall_buffer_in, base_node,
}
use elysium_os.SyscallFs.Open.{Flags, o_rdonly, syscall_fs_open}
use elysium_os.SyscallFs.Data.{syscall_fs_read}
use elysium_os.SyscallFs.Data.Laws.{IsFile, read_all, Dealt, read_all-Dealt}
use elysium_os.SyscallFs.Seek.{seek_end, seek_other, syscall_fs_seek}
use elysium_os.SyscallFs.Seek.Laws.{
  back, word_of, asked, from, sought, sought_to, syscall_fs_seek-sought,
}

-- What was written to the memory of the process, the last first.
abbrev Memory : Type 0
Memory = List (ℕ × List ℕ)

abbrev systems : FileSystems
systems = record {
  World = Memory;
  Node = ℕ;
  heap_room = λ size w. ltb size 4096;
  first_root = λ w. some (answer 0);
  node_lookup = λ node name. if length name == 1 then answer (some 7) else refuse enoent;
  node_create = λ node name. answer 8;
  node_mkdir = λ node name. answer 8;
  mount_node = λ node w. none;
  mounted_root = λ node w. none;
}

abbrev text : List ℕ
text = 104 ∷ 101 ∷ 108 ∷ 108 ∷ 111 ∷ []

abbrev attrs : Attr
attrs = record { size = 5; block_size = 1; block_count = 5; device_id = 0; inode = 1 }

-- Every path of the process is "a".
abbrev nodes : Nodes systems
nodes = record {
  is_dir = λ node. node == 0;
  rw_read = λ node offset size w. ((done tt, take size (drop offset text)), w);
  rw_write = λ node offset bytes w. ((done tt, length bytes), w);
  attr = λ node w. (done attrs, w);
  truncate = λ node n. answer tt;
  buffer_in = λ src count w. (some (97 ∷ 0 ∷ []), w);
  buffer_out = λ dest bytes w. (dest, bytes) ∷ w;
}

abbrev opened : Resource ℕ
opened = record { node = 7; offset = 1; mode = read_write }

abbrev process : State ℕ Memory
process = record {
  cwd = some 0;
  table = record { resources = some opened ∷ none ∷ []; count = 2 };
  world = [];
}

abbrev busy : State ℕ Memory
busy = record process { table = record { resources = some opened ∷ []; count = 1 } }

IsTable-process : IsTable process.table
IsTable-process = record { counted = refl }

abbrev plain : Flags
plain = record {
  directory = false;
  append = false;
  creat = false;
  trunc = false;
  excl = false;
  access = o_rdonly;
  unsupported = false;
}

open_run :
    syscall_fs_open systems nodes at_fdcwd 1 100 plain process
    ≡ ok (
      returned 1,
      record process {
        table = record {
          resources = some opened ∷ some (record { node = 7; offset = 0; mode = read_only }) ∷ [];
          count = 2;
        };
      },
    )
unfolding syscall_fs_open string_in syscall_buffer_in base_node lookup resource_create
open_run = refl

-- A full table: there is no error, and the value is -EMFILE.
open_full_run :
    syscall_fs_open systems nodes at_fdcwd 1 100 plain busy
    ≡ ok (record { value = failed emfile; err = no_error }, busy)
unfolding syscall_fs_open string_in syscall_buffer_in base_node lookup resource_create
open_full_run = refl

close_run : syscall_fs_close (pos 1) process ≡ ok (refused ebadf, process)
unfolding syscall_fs_close resource_remove
close_run = refl

seek_run :
    syscall_fs_seek systems nodes (pos 0) (word_of (back 6)) seek_end process
    ≡ ok (refused einval, process)
unfolding syscall_fs_seek resource_get
seek_run = refl

-- A read of no bytes fails the assertion of heap_alloc.
read_nothing_run : syscall_fs_read systems nodes (pos 0) 500 0 process ≡ panic
unfolding syscall_fs_read resource_get
read_nothing_run = refl

read_run :
    syscall_fs_read systems nodes (pos 0) 500 2 process
    ≡ ok (
      returned 2,
      record process {
        table = record { resources = some (record opened { offset = 3 }) ∷ none ∷ []; count = 2 };
        world = (500, 101 ∷ 108 ∷ []) ∷ [];
      },
    )
unfolding syscall_fs_read resource_get
read_run = refl

abbrev reads : List (ℕ × ℕ)
reads = (500, 2) ∷ (600, 9) ∷ []

IsFile-text : IsFile systems nodes 7 (λ w. text)
IsFile-text = record {
  reads = λ offset size w. refl;
  apart = λ dest bytes w. refl;
  heap_apart = λ size dest bytes w. refl;
}

open_there : resource_get process.table (pos 0) ≡ ok (some opened)
unfolding resource_get
open_there = refl

read_all-Dealt_example :
    (st' : State ℕ Memory) × (read_all systems nodes (pos 0) reads process ≡ ok st')
    × Dealt systems nodes 0 opened text reads process st'
read_all-Dealt_example =
    read_all-Dealt systems nodes 0 reads process opened (λ w. text) IsFile-text IsTable-process
      open_there refl (refl, (refl, tt)) (omega arith) (omega arith)

end_not_other : seek_end ≢ seek_other
end_not_other e = ground (arith, e)

syscall_fs_seek-sought_example :
    syscall_fs_seek systems nodes (pos 0) (word_of (back 2)) seek_end process
    ≡ ok (
        sought_to systems nodes
          (pos 0)
          opened
          (asked systems nodes seek_end [] process)
          (sought (from seek_end 1 5) (back 2)))
syscall_fs_seek-sought_example =
    syscall_fs_seek-sought systems nodes 0 seek_end (back 2) opened process attrs [] end_not_other
      open_there refl refl (omega arith, omega arith) tt (omega arith) (omega arith)
