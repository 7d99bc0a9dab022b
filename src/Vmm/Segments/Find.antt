-- ===== src/Vmm/Segments/Find.antt =====
-- The search of `find_space` (kernel/src/memory/vmm.c).
use elysium_os.Base.{
  ◌%◌, ℕ, zero, suc, ◌+◌, ◌^◌, ◌≤◌, ◌<◌, ◌≡◌, ◌≢◌, inl, inr, true, List, [], ◌∷◌, none, some, ltb,
  if◌then◌else◌, add64, length, arith, Bool-cases, Option-cases, refl, subst, some-eq,
}
use elysium_os.Vmm.Segments.{
  page_size, Segment, Space, segment_in_bounds, segment_intersects, first_hit, find_space_loop,
  hint, find_space,
}
use elysium_os.Vmm.Segments.Wellformed.{IsPlaced, IsClear, ArePlaced, IsSpace}

-- the segments that end above the address
pending : ℕ → List Segment → ℕ
pending a [] = 0
pending a (x ∷ xs) = (if ltb a (x.base + x.length) then 1 else 0) + pending a xs

pending-le-length : (a : ℕ) (xs : List Segment) → pending a xs ≤ length xs
unfolding pending
pending-le-length a [] = omega arith
pending-le-length a (x ∷ xs) = ground (arith, pending-le-length a xs)

pending_anti : (a b : ℕ) (xs : List Segment) → a ≤ b → pending b xs ≤ pending a xs
unfolding pending
pending_anti a b [] h = omega arith
pending_anti a b (x ∷ xs) h = ground (arith, pending_anti a b xs)

-- A segment in the way: no later place before its end is free.
record Hit (s : Space) (address len : ℕ) (xs : List Segment) (x : Segment) : Type 0 where
  placed : IsPlaced s x
  ends_above : address < x.base + x.length
  fewer : pending (x.base + x.length) xs < pending address xs
  blocks : (a : ℕ) → address ≤ a → IsClear a len xs → x.base + x.length ≤ a

-- What `first_hit` answers about segments that lie in a space.
module _ (s : Space) (small : s.end < 2 ^ 64) (address len : ℕ) (some_bytes : 0 < len)
    (fits : address + len ≤ s.end) where
  first_hit-none :
      (xs : List Segment)
      → ArePlaced s xs
      → first_hit address len xs ≡ none
      → IsClear address len xs
  unfolding first_hit
  first_hit-none [] p h = tt
  first_hit-none (x ∷ xs) p h =
      (ground (arith, p.0.below), first_hit-none xs p.2 (ground (arith, p.0.below)))

  Hit-here :
      (y : Segment) (ys : List Segment)
      → ArePlaced s (y ∷ ys)
      → segment_intersects address len y.base y.length ≡ true
      → Hit s address len (y ∷ ys) y
  unfolding pending
  Hit-here y ys p hit = record {
    placed = p.0;
    ends_above = ground (arith, p.0.below);
    fewer = ground (arith, p.0.below, pending_anti address (y.base + y.length) ys);
    blocks = λ a later clear. ground (arith, p.0.below, clear.0);
  }

  first_hit-some :
      (xs : List Segment) (x : Segment)
      → ArePlaced s xs
      → first_hit address len xs ≡ some x
      → Hit s address len xs x
  unfolding first_hit pending
  first_hit-some [] x p h = absurd (ground arith)
  first_hit-some (y ∷ ys) x p h =
      elim (Bool-cases (segment_intersects address len y.base y.length)) [
        | inl hit ↦
            subst (Hit s address len (y ∷ ys)) (some-eq (simp hit at h)) (Hit-here y ys p hit)
        | inr miss ↦
            let later = first_hit-some ys x p.2 (simp miss at h) in
            record {
              placed = later.placed;
              ends_above = later.ends_above;
              fewer = ground (
                arith,
                later.fewer,
                later.ends_above,
                pending_anti address (x.base + x.length) ys,
              );
              blocks = λ a above clear. later.blocks a above clear.1;
            }
      ]

-- What `find_space` promises of its answer `r`, for a search that begins at `from`.
pub record Found (s : Space) (from len r : ℕ) : Type 0 where
  -- a place inside the bounds that no segment touches, unless it is the 0 of a failure
  pub is_free : r ≢ 0 → (from ≤ r) × (segment_in_bounds s r len ≡ true) × IsClear r len s.segments
  -- no place below it is free, and none at all if the search failed
  pub is_first :
      (a : ℕ)
      → from ≤ a
      → segment_in_bounds s a len ≡ true
      → IsClear a len s.segments
      → (r ≢ 0) × (r ≤ a)
  pub on_page : from % page_size ≡ 0 → r % page_size ≡ 0

module _ (s : Space) (is : IsSpace s) (len : ℕ) (some_bytes : 0 < len) where
  in_bounds_room : (a : ℕ) → segment_in_bounds s a len ≡ true → (s.start ≤ a) × (a + len ≤ s.end)
  in_bounds_room a h = ground (arith, is.in_memory)

  in_bounds_of_room : (a : ℕ) → s.start ≤ a → a + len ≤ s.end → segment_in_bounds s a len ≡ true
  in_bounds_of_room a above below = ground (arith, is.in_memory)

  find_space_loop-Found :
      (fuel address : ℕ)
      → s.start ≤ address
      → pending address s.segments < fuel
      → (r : ℕ) × (find_space_loop fuel s address len ≡ some r) × Found s address len r
  unfolding find_space_loop
  find_space_loop-Found zero address above enough = absurd (omega arith)
  find_space_loop-Found (suc fuel) address above enough =
      elim (Bool-cases (segment_in_bounds s address len)) [
        | inr out ↦ (
          0,
          simp out,
          record {
            is_free = λ ne. absurd (ne refl);
            is_first = λ a later room clear.
                let (low, high) = in_bounds_room a room in
                cc (in_bounds_of_room address above (omega arith));
            on_page = λ h. refl;
          },
        )
        | inl room ↦ elim (Option-cases (first_hit address len s.segments)) [
          | inl none_hit ↦ (
            address,
            simp (room, none_hit),
            record {
              is_free = λ ne. (
                omega arith,
                room,
                first_hit-none s is.in_memory address len some_bytes (in_bounds_room address room).1
                    s.segments is.placed none_hit,
              );
              is_first = λ a later fits clear. (omega (arith, is.above_null), later);
              on_page = λ h. h;
            },
          )
          | inr (x, hit) ↦
              let blocked =
                first_hit-some s is.in_memory address len some_bytes (in_bounds_room address room).1
                  s.segments x is.placed hit in
              let next : add64 x.base x.length ≡ x.base + x.length =
                omega (arith, is.in_memory, blocked.placed.below) in
              let (r, eq, found) =
                find_space_loop-Found fuel (x.base + x.length) (omega (arith, blocked.placed.above))
                  (omega (arith, blocked.fewer)) in
              (
                r,
                simp (room, hit, next, eq),
                record {
                  is_free = λ ne.
                      let (from, fits, clear) = found.is_free ne in
                      (omega (arith, blocked.ends_above), fits, clear);
                  is_first = λ a later fits clear.
                      found.is_first a (blocked.blocks a later clear) fits clear;
                  on_page = λ h.
                      found.on_page
                        (omega (arith, blocked.placed.base_on_page, blocked.placed.whole_pages));
                },
              )
        ]
      ]

  -- `find_space` always answers. A nonzero answer is inside the bounds, at or after the address at
  -- which the search begins (the hint, or the start of the space if nothing fits at the hint), and
  -- touches no segment, and it is a page boundary if the search begins on one; no place between is
  -- free; and it fails only if no place from there on is.
  pub find_space-Found :
      (address : ℕ)
      → (r : ℕ) × (find_space s address len ≡ some r) × Found s (hint s address len) len r
  unfolding find_space
  find_space-Found address =
      find_space_loop-Found (suc (suc (length s.segments))) (hint s address len)
        (ground (arith, is.in_memory))
        (omega (arith, pending-le-length (hint s address len) s.segments))
