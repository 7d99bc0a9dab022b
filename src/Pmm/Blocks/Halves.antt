-- ===== src/Pmm/Blocks/Halves.antt =====
-- Splitting a block in hand, and merging it with its buddy (kernel/src/memory/pmm.c).
use elysium_os.Base.{
  ℕ, suc, ◌+◌, ◌-◌, ◌%◌, ◌^◌, ◌≤◌, ◌<◌, ◌≡◌, inl, inr, List, ◌∷◌, some, get_elem?, arith, refl, ap,
  sym, subst, ◌∙◌, some-eq,
}
use elysium_os.Pmm.{Ref, Region, used_pages}
use elysium_os.Pmm.Blocks.{Blocks}
use elysium_os.Pmm.Blocks.Cover.{inside-halves, cover_blocks, Among, Among-cases}
use elysium_os.Pmm.Blocks.Tiling.{IsPlaced, InPlace, Tiled}
use elysium_os.Pmm.Blocks.Powers.{lower_half, upper_half}
use native.Mathlib.Nat.{pow-succ'}

-- Other blocks in hand that have the same pages.
rehand :
    {z : ℕ} {b : Blocks} {A H : List (ℕ × Ref)} (H' : List (ℕ × Ref))
    → Tiled z b A H
    → ((r i : ℕ) → cover_blocks H' r i ≡ cover_blocks H r i)
    → ((k : ℕ) (ref : Ref) → Among (k, ref) H' → InPlace b.regions k ref)
    → Tiled z b A H'
rehand {b = b} {A = A} H' t same hand = record {
  eight = t.eight;
  paged = t.paged;
  bounded = t.bounded;
  tiled = λ r g e i. omega (arith, t.tiled r g e i, same r i);
  heads = t.heads;
  taken = t.taken;
  hand = hand;
  idle = t.idle;
}

abbrev pub upper : ℕ → Ref → Ref
upper o ref = record ref { index = ref.index + 2 ^ o }

place_lower : (g : Region) (o i : ℕ) → IsPlaced g (suc o) i → IsPlaced g o i
place_lower g o i p = record {
  small = omega (arith, p.small);
  low = p.low;
  high = omega (arith, p.high, pow-succ' 2 o);
  aligned = lower_half o (i - used_pages g.page_count) p.aligned;
}

place_upper : (g : Region) (o i : ℕ) → IsPlaced g (suc o) i → IsPlaced g o (i + 2 ^ o)
place_upper g o i p =
    let e : i + 2 ^ o - used_pages g.page_count ≡ i - used_pages g.page_count + 2 ^ o =
      omega (arith, p.low) in
    record {
      small = omega (arith, p.small);
      low = omega (arith, p.low);
      high = omega (arith, p.high, pow-succ' 2 o);
      aligned = ap (λ x. x % 2 ^ o) e ∙ upper_half o (i - used_pages g.page_count) p.aligned;
    }

-- A block in hand as its two halves.
pub split_hand :
    {z : ℕ} {b : Blocks} {A H : List (ℕ × Ref)} (o : ℕ) (ref : Ref)
    → Tiled z b A ((suc o, ref) ∷ H)
    → Tiled z b A ((o, upper o ref) ∷ (o, ref) ∷ H)
split_hand {b = b} {H = H} o ref t =
    let place = t.hand (suc o) ref (0, refl) in
    rehand ((o, upper o ref) ∷ (o, ref) ∷ H) t (λ r i. omega (arith, inside-halves o ref r i))
      (λ k ref' a. elim (Among-cases (k, ref') (o, upper o ref) ((o, ref) ∷ H) a) [
        | inl e ↦
            subst (λ x. InPlace b.regions (x.0) (x.1)) e
              (record {
                region = place.region;
                there = place.there;
                placed = place_upper place.region o ref.index place.placed;
              })
        | inr a ↦ elim (Among-cases (k, ref') (o, ref) H a) [
          | inl e ↦
              subst (λ x. InPlace b.regions (x.0) (x.1)) e
                (record {
                  region = place.region;
                  there = place.there;
                  placed = place_lower place.region o ref.index place.placed;
                })
          | inr (n, e) ↦ t.hand k ref' (suc n, e)
        ]
      ])

-- Two buddies in hand as one block.
pub join_hand :
    {z : ℕ} {b : Blocks} {A H : List (ℕ × Ref)} (o : ℕ) (low : Ref)
    → Tiled z b A ((o, low) ∷ (o, upper o low) ∷ H)
    → o < 7
    → ((g : Region)
        → get_elem? b.regions low.region ≡ some g
        → (low.index - used_pages g.page_count) % 2 ^ suc o ≡ 0)
    → Tiled z b A ((suc o, low) ∷ H)
join_hand {b = b} {H = H} o low t small aligned =
    let place = t.hand o low (0, refl) in
    let above = t.hand o (upper o low) (1, refl) in
    let same : above.region ≡ place.region = some-eq (sym above.there ∙ place.there) in
    let high : low.index + 2 ^ o + 2 ^ o ≤ place.region.page_count =
      subst (λ g. low.index + 2 ^ o + 2 ^ o ≤ g.page_count) same above.placed.high in
    rehand ((suc o, low) ∷ H) t (λ r i. omega (arith, inside-halves o low r i))
      (λ k ref' a. elim (Among-cases (k, ref') (suc o, low) H a) [
        | inl e ↦
            subst (λ x. InPlace b.regions (x.0) (x.1)) e
              (record {
                region = place.region;
                there = place.there;
                placed = record {
                  small = omega arith;
                  low = place.placed.low;
                  high = omega (arith, high, pow-succ' 2 o);
                  aligned = aligned place.region place.there;
                };
              })
        | inr (n, e) ↦ t.hand k ref' (suc (suc n), e)
      ])

pub swap_hand :
    {z : ℕ} {b : Blocks} {A H : List (ℕ × Ref)} (x y : ℕ × Ref)
    → Tiled z b A (x ∷ y ∷ H)
    → Tiled z b A (y ∷ x ∷ H)
swap_hand {b = b} {H = H} (o, ref) (o', ref') t =
    rehand ((o', ref') ∷ (o, ref) ∷ H) t (λ r i. omega arith)
      (λ k ref'' a. elim (Among-cases (k, ref'') (o', ref') ((o, ref) ∷ H) a) [
        | inl e ↦ subst (λ x. InPlace b.regions (x.0) (x.1)) e (t.hand o' ref' (1, refl))
        | inr a ↦ elim (Among-cases (k, ref'') (o, ref) H a) [
          | inl e ↦ subst (λ x. InPlace b.regions (x.0) (x.1)) e (t.hand o ref (0, refl))
          | inr (n, e) ↦ t.hand k ref'' (suc (suc n), e)
        ]
      ])
