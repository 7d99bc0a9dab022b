-- ===== src/Vmm/Segments/Wellformed.antt =====
-- Well-formed address spaces (kernel/src/memory/vmm.c): their segments are whole pages inside the
-- bounds, and no two of them share an address.
use elysium_os.Base.{
  arith, ℕ, ◌+◌, ◌%◌, ◌^◌, ◌≤◌, ◌<◌, ◌≡◌, ◌⊎◌, Bool, false, ◌||◌, if◌then◌else◌, Option, none, some,
  List, [], ◌∷◌,
}
use elysium_os.Vmm.Segments.{page_size, Segment, Space, address_in_segment}

pub record IsPlaced (s : Space) (x : Segment) : Type 0 where
  pub above : s.start ≤ x.base
  pub below : x.base + x.length ≤ s.end
  pub some_pages : 0 < x.length
  pub base_on_page : x.base % page_size ≡ 0
  pub whole_pages : x.length % page_size ≡ 0

-- Two ranges with no address in common.
abbrev pub Apart : (base₁ length₁ base₂ length₂ : ℕ) → Type 0
Apart base₁ length₁ base₂ length₂ = (base₁ + length₁ ≤ base₂) ⊎ (base₂ + length₂ ≤ base₁)

-- A range shares no address with the segments.
abbrev pub IsClear : (address length : ℕ) → List Segment → Type 0
IsClear address length [] = Unit
IsClear address length (x ∷ xs) = Apart address length x.base x.length × IsClear address length xs

abbrev pub ArePlaced : Space → List Segment → Type 0
ArePlaced s [] = Unit
ArePlaced s (x ∷ xs) = IsPlaced s x × IsClear x.base x.length xs × ArePlaced s xs

pub record IsSpace (s : Space) : Type 0 where
  pub above_null : 0 < s.start
  pub in_memory : s.end < 2 ^ 64
  pub start_on_page : s.start % page_size ≡ 0
  pub placed : ArePlaced s s.segments

-- Some segment holds the address.
abbrev pub covered : ℕ → List Segment → Bool
covered a [] = false
covered a (x ∷ xs) = address_in_segment a x.base x.length || covered a xs

-- What may be done with an address, if a segment holds it.
abbrev pub protection_at : ℕ → List Segment → Option ℕ
protection_at a [] = none
protection_at a (x ∷ xs) =
    if address_in_segment a x.base x.length then some x.protection else protection_at a xs

-- Being placed depends on the bounds of a space alone.
pub ArePlaced-bounds :
    (s s' : Space) (xs : List Segment)
    → s.start ≡ s'.start
    → s.end ≡ s'.end
    → ArePlaced s xs
    → ArePlaced s' xs
ArePlaced-bounds s s' [] p q h = tt
ArePlaced-bounds s s' (x ∷ xs) p q h = (
  record {
    above = omega (arith, h.0.above);
    below = omega (arith, h.0.below);
    some_pages = h.0.some_pages;
    base_on_page = h.0.base_on_page;
    whole_pages = h.0.whole_pages;
  },
  h.1,
  ArePlaced-bounds s s' xs p q h.2,
)
