-- ===== src/Vmm/Tests.antt =====
-- Runs of the memory manager (kernel/src/memory/vmm.c) on a space of a few pages.
use elysium_os.Base.{ℕ, ◌+◌, ◌≡◌, Bool, true, [], ◌∷◌, none, some, ok, arith, refl}
use elysium_os.Vmm.Segments.{anon, direct, Segment, Space, find_space, hint, memory_exists}
use elysium_os.Vmm.Segments.Wellformed.{IsSpace}
use elysium_os.Vmm.Segments.Find.{Found, find_space-Found}
use elysium_os.Vmm.Segments.Exists.{Answers, memory_exists-Answers}
use elysium_os.Vmm.Machine.{user, Machine, State, space_of}
use elysium_os.Vmm.Map.{Request, map_common}
use elysium_os.Vmm.Map.Laws.{Mapped, map_common-Mapped}
use elysium_os.Vmm.Pool.{physical_of}
use elysium_os.Vmm.Unmap.{upper_part, unmap}
use elysium_os.Vmm.Unmap.Part.{Cut}
use elysium_os.Vmm.Unmap.Laws.{unmap-Cut}

abbrev four_pages : Segment
four_pages = record { base = 8192; length = 16384; backing = anon true; protection = 6; cache = 0 }

abbrev space : Space
space = record { segments = four_pages ∷ []; start = 4096; end = 65536 }

abbrev empty_space : Space
empty_space = record { segments = []; start = 131072; end = 262144 }

space-IsSpace : IsSpace space
space-IsSpace = record {
  above_null = omega arith;
  in_memory = omega arith;
  start_on_page = refl;
  placed = (
    record {
      above = omega arith;
      below = omega arith;
      some_pages = omega arith;
      base_on_page = refl;
      whole_pages = refl;
    },
    tt,
    tt,
  );
}

-- Memory that counts the pages given out, and page tables that forget what they are told.
abbrev machine : Machine
machine = record {
  Memory = ℕ;
  alloc_page = λ zeroed m. ok (4096, m + 1);
  ptm_map = λ o vaddr paddr prot cache flags m. ok m;
  ptm_unmap = λ o vaddr m. m;
  ptm_physical = λ o vaddr m. none;
  hhdm_write = λ paddr bytes m. m;
  hhdm_read = λ paddr length m. [];
  blank = λ i m. four_pages;
}

abbrev state : State ℕ
state = record {
  memory = 0;
  kernel_space = empty_space;
  user_space = space;
  segments_free = four_pages ∷ [];
}

abbrev request : Request
request = record {
  hint = 12288;
  length = 8192;
  prot = 2;
  cache = 0;
  flags = 0;
  backing = direct 1048576;
}

-- The hint is taken, so the place is the one behind the segment.
find_space_run : find_space space 12288 8192 ≡ some 24576
unfolding find_space
find_space_run = refl

map_common_run :
    map_common machine user request state
    ≡ ok (
      24576,
      record state {
        user_space = record space {
          segments =
              record {
                base = 24576;
                length = 8192;
                backing = direct 1048576;
                protection = 2;
                cache = 0;
              }
              ∷ four_pages
              ∷ [];
        };
        segments_free = [];
      },
    )
unfolding map_common
map_common_run = refl

-- One page out of the middle.
unmap_run :
    unmap machine user 12288 4096 state
    ≡ ok (record state {
      user_space = record space {
        segments =
            record four_pages { length = 4096 }
            ∷ record four_pages { base = 16384; length = 8192 }
            ∷ [];
      };
      segments_free = [];
    })
unfolding unmap
unmap_run = refl

find_space-Found_example :
    (r : ℕ) × (find_space space 12288 8192 ≡ some r) × Found space (hint space 12288 8192) 8192 r
find_space-Found_example = find_space-Found space space-IsSpace 8192 (omega arith) 12288

memory_exists-Answers_example :
    (b : Bool) × (memory_exists space 12288 4096 ≡ some b) × Answers (four_pages ∷ []) 12288 4096 b
memory_exists-Answers_example =
    memory_exists-Answers space space-IsSpace 12288 4096 refl (omega arith)

map_common-Mapped_example :
    (r : ℕ) × (st' : State ℕ) × (map_common machine user request state ≡ ok (r, st'))
    × Mapped request space r (space_of user st')
map_common-Mapped_example =
    map_common-Mapped machine user request state four_pages [] refl refl space-IsSpace

unmap-Cut_example :
    (st' : State ℕ) × (unmap machine user 12288 4096 state ≡ ok st')
    × Cut space 12288 4096 (space_of user st')
unmap-Cut_example =
    unmap-Cut machine user 12288 4096 refl refl state space-IsSpace (four_pages, [], refl) refl

abbrev registers : Segment
registers = record four_pages { backing = direct 1048576 }

-- The first address of the part above a cut leads to the beginning of the physical range, not as far into
-- it as before the cut.
direct_run : physical_of machine registers 12288 0 ≡ ok (1048576 + 4096, 0)
unfolding physical_of
direct_run = refl

direct_cut_run :
    physical_of machine (upper_part registers four_pages 12288) 12288 0 ≡ ok (1048576, 0)
unfolding physical_of
direct_cut_run = refl
