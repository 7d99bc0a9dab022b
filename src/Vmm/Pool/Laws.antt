-- ===== src/Vmm/Pool/Laws.antt =====
-- The pool of segment objects beside the address spaces (kernel/src/memory/vmm.c).
use elysium_os.Base.{◌≡◌, List, ◌∷◌, ok, refl}
use elysium_os.Vmm.Segments.{Segment, Space}
use elysium_os.Vmm.Machine.{Owner, kernel, user, Machine, State, space_of, set_space}
use elysium_os.Vmm.Pool.{segments_alloc, segments_free}

module _ {Memory : Type 0} where
  pub space_of-segments_free_set :
      (o : Owner) (xs : List Segment) (st : State Memory)
      → space_of o (record st { segments_free = xs }) ≡ space_of o st
  space_of-segments_free_set kernel xs st = refl
  space_of-segments_free_set user xs st = refl

  pub space_of-set_space :
      (o : Owner) (s : Space) (st : State Memory) → space_of o (set_space o s st) ≡ s
  space_of-set_space kernel s st = refl
  space_of-set_space user s st = refl

  pub space_of-memory_set :
      (o : Owner) (m : Memory) (st : State Memory)
      → space_of o (record st { memory = m }) ≡ space_of o st
  space_of-memory_set kernel m st = refl
  space_of-memory_set user m st = refl

module _ (machine : Machine) where
  open machine use {Memory}

  pub space_of-segments_free :
      (o : Owner) (x : Segment) (st : State Memory)
      → space_of o (segments_free machine x st) ≡ space_of o st
  unfolding segments_free
  space_of-segments_free kernel x st = refl
  space_of-segments_free user x st = refl

  pub segments_alloc-take :
      (x : Segment) (xs : List Segment) (st : State Memory)
      → st.segments_free ≡ x ∷ xs
      → segments_alloc machine st ≡ ok (x, record st { segments_free = xs })
  unfolding segments_alloc
  segments_alloc-take x xs st pool = rw pool refl
