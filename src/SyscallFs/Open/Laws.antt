-- ===== src/SyscallFs/Open/Laws.antt =====
-- `open` of kernel/src/syscall/syscall_fs.c, and `read` behind it.
use elysium_os.Base.{done, ℕ, ◌<◌, ◌≡◌, true, false, List, Option, some, length, set, ok, add64}
use elysium_os.Vfs.{FileSystems, Call}
use elysium_os.Resource.{Mode, Resource}
use elysium_os.SyscallFs.{Nodes, State, At, with_world, room, c_string, base_node}
use elysium_os.SyscallFs.Open.{Flags, mode_of, open_lookup}
use elysium_os.SyscallFs.Data.{readable}

-- Flags of a file that is opened to be read from its start, created or not.
pub record ForReading (flags : Flags) (mode : Mode) : Type 0 where
  pub supported : flags.unsupported ≡ false
  pub access : mode_of flags.access ≡ some mode
  pub may_read : readable mode ≡ true
  pub directory : flags.directory ≡ false
  pub trunc : flags.trunc ≡ false
  pub append : flags.append ≡ false

module _ (fs : FileSystems) (nodes : Nodes fs) where
  open fs use {World, Node}
  open nodes use {buffer_in}

  -- The path of a call is copied in, and looked up, with what the flags ask for, it leads to the node.
  pub record Leads (dir : At) (path_length path : ℕ) (flags : Flags) (st : State Node World)
      (node : Node) (w : World) : Type 0 where
    pub bytes : List ℕ
    pub copied : World
    pub has_room : room fs nodes (add64 path_length 1) st.world ≡ true
    pub copy : buffer_in path (add64 path_length 1) st.world ≡ (some bytes, copied)
    pub in_bounds : path_length < length bytes
    pub cwd : Option Node
    pub base : base_node dir (with_world copied st) ≡ ok (some cwd)
    pub find : Call World Node
    pub search : open_lookup fs nodes flags (c_string (set bytes path_length 0)) cwd ≡ some find
    pub reached : find copied ≡ ok (done node, w)
