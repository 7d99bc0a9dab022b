-- ===== src/Vmm/Segments.antt =====
-- Segments and the searches over them (kernel/src/memory/vmm.c and vmm.h).
pub mod Wellformed
pub mod Find
pub mod Exists
use elysium_os.Base.{
  ℕ, zero, suc, ◌+◌, ◌-◌, Bool, true, false, not, ◌&&◌, ◌||◌, List, [], ◌∷◌, Option, none, some,
  ltb, leb, ◌==◌, if◌then◌else◌, add64, sub64, length,
}

abbrev pub page_size : ℕ
page_size = 4096

-- vmm_segment_type_t with the part of the union that goes with it
pub data Backing : Type 0 where
  anon : (back_zeroed : Bool) → Backing
  direct : (physical_address : ℕ) → Backing

pub record Segment : Type 0 where
  pub base : ℕ
  pub length : ℕ
  pub backing : Backing
  pub protection : ℕ
  pub cache : ℕ

pub record Space : Type 0 where
  pub segments : List Segment
  pub start : ℕ
  pub end : ℕ

-- ADDRESS_IN_BOUNDS
abbrev pub address_in_bounds : Space → ℕ → Bool
address_in_bounds s a = leb s.start a && ltb a s.end

-- SEGMENT_IN_BOUNDS
abbrev pub segment_in_bounds : Space → (base length : ℕ) → Bool
segment_in_bounds s base length = address_in_bounds s base && leb length (sub64 s.end base)

-- ADDRESS_IN_SEGMENT
abbrev pub address_in_segment : (a base length : ℕ) → Bool
address_in_segment a base length = leb base a && ltb a (add64 base length)

-- SEGMENT_INTERSECTS
abbrev pub segment_intersects : (base₁ length₁ base₂ length₂ : ℕ) → Bool
segment_intersects base₁ length₁ base₂ length₂ =
    ltb base₁ (add64 base₂ length₂) && ltb base₂ (add64 base₁ length₁)

-- The first segment in the way: the body of the loop of `find_space`.
unfoldable pub first_hit : (address length : ℕ) → List Segment → Option Segment
first_hit address length [] = none
first_hit address length (x ∷ xs) =
    if segment_intersects address length x.base x.length
    then some x
    else first_hit address length xs

-- `while(true)` on fuel; 0 is the failure that the code returns, `none` a lack of fuel.
unfoldable pub find_space_loop : (fuel : ℕ) → Space → (address length : ℕ) → Option ℕ
find_space_loop zero s address length = none
find_space_loop (suc fuel) s address length =
    if not (segment_in_bounds s address length)
    then some 0
    else elim (first_hit address length s.segments) [
      | none ↦ some address
      | some x ↦ find_space_loop fuel s (add64 x.base x.length) length
    ]

abbrev pub hint : Space → (address length : ℕ) → ℕ
hint s address length = if segment_in_bounds s address length then address else s.start

-- One round for each segment that can be in the way, and one to see that none is.
unfoldable pub find_space : Space → (address length : ℕ) → Option ℕ
unfolding find_space_loop first_hit
find_space s address len =
    find_space_loop (suc (suc (length s.segments))) s (hint s address len) len

unfoldable pub segment_of : ℕ → List Segment → Option Segment
segment_of a [] = none
segment_of a (x ∷ xs) = if address_in_segment a x.base x.length then some x else segment_of a xs

unfoldable pub addr_to_segment : Space → ℕ → Option Segment
unfolding segment_of
addr_to_segment s a = if address_in_bounds s a then segment_of a s.segments else none

-- One walk of `memory_exists`: an answer, or the range with which the walk starts again.
pub data Walk : Type 0 where
  found : Walk
  missing : Walk
  restart : (address length : ℕ) → Walk

unfoldable pub walk : (address length : ℕ) → List Segment → Walk
walk address length [] = missing
walk address length (x ∷ xs) =
    let end = add64 x.base x.length in
    let stop = add64 address length in
    if leb x.base address && ltb address end
    then (if leb stop end then found else restart end (sub64 stop end))
    else if ltb address x.base && ltb x.base stop && leb stop end
    then restart address (sub64 length (sub64 stop x.base))
    else walk address length xs

-- Each restart has a shorter range; `none` is a lack of fuel.
unfoldable pub memory_exists_loop : (fuel : ℕ) → List Segment → (address length : ℕ) → Option Bool
memory_exists_loop zero xs address length = none
memory_exists_loop (suc fuel) xs address length =
    if length == 0 then some true else elim (walk address length xs) [
      | found ↦ some true
      | missing ↦ some false
      | restart address' length' ↦ memory_exists_loop fuel xs address' length'
    ]

unfoldable pub memory_exists : Space → (address length : ℕ) → Option Bool
unfolding memory_exists_loop walk
memory_exists s address length =
    if not (address_in_bounds s address) || not (address_in_bounds s (add64 address length))
    then some false
    else memory_exists_loop (suc length) s.segments address length
