-- ===== src/SyscallFs/Data/Laws.antt =====
-- What `read` and `write` of kernel/src/syscall/syscall_fs.c promise: an open file is a cursor.
use elysium_os.Base.{
  done, ℕ, ◌+◌, ◌<◌, ◌^◌, ◌≡◌, ◌≢◌, true, List, [], ◌∷◌, some, length, take, drop, Run, ok, arith,
  refl, ap, sym, subst, ◌∙◌, ◌>>=◌, add64, drop-length-take, drop-drop, length-take-drop,
  length-take_add,
}
use elysium_os.Vfs.{FileSystems}
use elysium_os.Resource.{Resource, ℤ, pos, resource_get}
use elysium_os.Resource.Laws.{IsTable, resource_get-set}
use elysium_os.SyscallFs.{Nodes, State, returned, with_world, with_offset, room}
use elysium_os.SyscallFs.Data.{readable, read_done, syscall_fs_read}

module _ (fs : FileSystems) (nodes : Nodes fs) where
  open fs use {World, Node}
  open nodes use {rw_read, rw_write, buffer_in, buffer_out}

  -- The contents of a node are `content`, which reads give, and which the memory of the process is
  -- not a part of, no more than the kernel heap is.
  pub record IsFile (node : Node) (content : World → List ℕ) : Type 0 where
    pub reads :
        (offset size : ℕ) (w : World)
        → rw_read node offset size w ≡ ((done tt, take size (drop offset (content w))), w)
    pub apart :
        (dest : ℕ) (bytes : List ℕ) (w : World) → content (buffer_out dest bytes w) ≡ content w
    pub heap_apart :
        (size dest : ℕ) (bytes : List ℕ) (w : World)
        → room fs nodes size (buffer_out dest bytes w) ≡ room fs nodes size w

  -- Reads with an identifier, one after the other, each into a buffer and of a count.
  unfoldable pub read_all : ℤ → List (ℕ × ℕ) → State Node World → Run (State Node World)
  read_all id [] st = ok st
  read_all id ((buf, count) ∷ calls) st =
      syscall_fs_read fs nodes id buf count st >>= λ r. read_all id calls (r.1)

  -- The bytes `rest` dealt out to the buffers in their order.
  unfoldable pub deal : List (ℕ × ℕ) → (rest : List ℕ) → World → World
  deal [] rest w = w
  deal ((buf, count) ∷ calls) rest w =
      deal calls (drop count rest) (buffer_out buf (take count rest) w)

  abbrev pub counts : List (ℕ × ℕ) → ℕ
  counts [] = 0
  counts ((buf, count) ∷ calls) = count + counts calls

  -- The heap has room for the buffer of each read, so that none is of 0 bytes.
  abbrev pub HasRoom : List (ℕ × ℕ) → World → Type 0
  HasRoom [] w = Unit
  HasRoom ((buf, count) ∷ calls) w = (room fs nodes count w ≡ true) × HasRoom calls w

  HasRoom-apart :
      (node : Node) (content : World → List ℕ) (dest : ℕ) (bytes : List ℕ) (w : World)
      (calls : List (ℕ × ℕ))
      → IsFile node content
      → HasRoom calls w
      → HasRoom calls (buffer_out dest bytes w)
  HasRoom-apart node content dest bytes w [] file h = tt
  HasRoom-apart node content dest bytes w ((buf, count) ∷ calls) file (h, hs) = (
    file.heap_apart count dest bytes w ∙ h,
    HasRoom-apart node content dest bytes w calls file hs,
  )

  -- The offset of the identifier after one read.
  abbrev after : Resource Node → (count : ℕ) → List ℕ → Resource Node
  after r count content = record r {
    offset = r.offset + length (take count (drop r.offset content));
  }

  read_once :
      (i buf count : ℕ) (st : State Node World) (r : Resource Node) (content : World → List ℕ)
      → IsFile r.node content
      → resource_get st.table (pos i) ≡ ok (some r)
      → readable r.mode ≡ true
      → room fs nodes count st.world ≡ true
      → length (content st.world) < 2 ^ 64
      → r.offset < 2 ^ 64
      → syscall_fs_read fs nodes (pos i) buf count st
        ≡ ok (
          returned (length (take count (drop r.offset (content st.world)))),
          with_offset
              (pos i)
              (r.offset + length (take count (drop r.offset (content st.world))))
              r
              (with_world
                (buffer_out buf (take count (drop r.offset (content st.world))) st.world)
                st),
        )
  unfolding syscall_fs_read read_done
  read_once i buf count st r content file there can space small low =
      let within = length-take-drop count r.offset (content st.world) in
      let exact : add64 r.offset (length (take count (drop r.offset (content st.world))))
          ≡ r.offset + length (take count (drop r.offset (content st.world))) =
        omega arith in
      simp
        (syscall_fs_read, there, can, space, file.reads r.offset count st.world, read_done, exact)

  -- What a number of reads comes to.
  abbrev pub Dealt :
      ℕ
      → Resource Node
      → (content : List ℕ) → List (ℕ × ℕ)
      → State Node World
      → State Node World
      → Type 0
  Dealt i r content calls st st' =
      (st'.world ≡ deal calls (drop r.offset content) st.world)
      × (resource_get st'.table (pos i) ≡ ok (some (after r (counts calls) content)))
      × ((j : ℕ) → j ≢ i → resource_get st'.table (pos j) ≡ resource_get st.table (pos j))
      × IsTable st'.table

  -- Reads with an identifier of a well-formed table that may read, each of 1 byte or more and with room
  -- in the heap for its buffer, from a file whose reads give its contents and which, like the heap, is
  -- apart from the memory of the process: each of them returns, and together they deal out the
  -- contents of the file from the offset on, without a gap or an overlap, to their buffers; the offset
  -- moves on by as many bytes as there were, and the other identifiers are as before. The file is
  -- shorter than 2^64 bytes, and so is the offset.
  pub read_all-Dealt :
      (i : ℕ) (calls : List (ℕ × ℕ)) (st : State Node World) (r : Resource Node)
      (content : World → List ℕ)
      → IsFile r.node content
      → IsTable st.table
      → resource_get st.table (pos i) ≡ ok (some r)
      → readable r.mode ≡ true
      → HasRoom calls st.world
      → length (content st.world) < 2 ^ 64
      → r.offset < 2 ^ 64
      → (st' : State Node World) × (read_all (pos i) calls st ≡ ok st')
        × Dealt i r (content st.world) calls st st'
  unfolding read_all deal
  read_all-Dealt i [] st r content file is there can rooms small low = (
    st,
    refl,
    (refl, there ∙ ap (λ n. ok (some (record r { offset = n }))) (omega arith), (λ j ne. refl), is),
  )
  read_all-Dealt i ((buf, count) ∷ calls) st r content file is there can (space, rooms) small low =
      let bytes = take count (drop r.offset (content st.world)) in
      let w = buffer_out buf bytes st.world in
      let r1 : Resource Node = after r count (content st.world) in
      let st1 : State Node World = with_offset (pos i) r1.offset r (with_world w st) in
      let one = read_once i buf count st r content file there can space small low in
      let (is1, there1, others1) = resource_get-set st.table i r1 is (r, there) in
      let same : content w ≡ content st.world = file.apart buf bytes st.world in
      let within = length-take-drop count r.offset (content st.world) in
      let behind : drop r1.offset (content w) ≡ drop count (drop r.offset (content st.world)) =
        ap (drop r1.offset) same
        ∙ drop-drop r.offset (length bytes) r1.offset (content st.world) refl
        ∙ drop-length-take count (drop r.offset (content st.world)) in
      let (st', runs, dealt) =
        read_all-Dealt i calls st1 r1 content file is1 there1 can
          (HasRoom-apart r.node content buf bytes st.world calls file rooms)
          (subst (λ c. length c < 2 ^ 64) (sym same) small) (omega arith) in
      let (world, there', others, is') = dealt in
      let total =
        length-take_add count (counts calls) (count + counts calls)
          (drop r.offset (content st.world)) refl in
      let offset : r1.offset + length (take (counts calls) (drop r1.offset (content w)))
          ≡ r.offset + length (take (count + counts calls) (drop r.offset (content st.world))) =
        ap (λ xs. r1.offset + length (take (counts calls) xs)) behind ∙ omega (arith, total) in
      (
        st',
        ap (λ m. m >>= λ r. read_all (pos i) calls (r.1)) one ∙ runs,
        (
          world ∙ ap (λ xs. deal calls xs w) behind,
          there' ∙ ap (λ n. ok (some (record r { offset = n }))) offset,
          (λ j ne. others j ne ∙ others1 j ne),
          is',
        ),
      )
