-- ===== src/Heap/Fit.antt =====
-- The choice of an offset in `heap_alloc_align` (kernel/src/memory/heap.c, the label `check_fit`).
use elysium_os.Base.{
  ℕ, zero, suc, ◌+◌, ◌%◌, ◌^◌, ◌≤◌, ◌<◌, ◌≡◌, ◌⊎◌, some, arith, add64, ltb, ◌==◌, false, inl, inr,
  Bool-cases,
}
use native.Mathlib.Nat.{add-mod_right}
use elysium_os.Heap.{Entry, header, min_entry_size, check_fit, first_offset}

-- An offset that cuts the entry so that both parts can hold what they must.
pub record Fits (e : Entry) (size alignment offset : ℕ) : Type 0 where
  pub room : offset + size ≤ e.size
  pub cut : (offset ≡ 0) ⊎ (header + min_entry_size ≤ offset)
  pub on_boundary : (e.addr + header + offset) % alignment ≡ 0

pub first_offset_lem :
    (e : Entry) (alignment : ℕ)
    → 0 < alignment
    → e.addr + header < 2 ^ 64
    → (first_offset e alignment < alignment)
      × ((e.addr + header + first_offset e alignment) % alignment ≡ 0)
unfolding first_offset
first_offset_lem e alignment pos fits = grind arith

pub check_fit-Fits :
    (fuel : ℕ) (e : Entry) (size alignment offset o : ℕ)
    → 0 < alignment
    → size + alignment + header + min_entry_size < 2 ^ 64
    → offset < alignment + header + min_entry_size
    → (e.addr + header + offset) % alignment ≡ 0
    → check_fit fuel e size alignment offset ≡ some o
    → Fits e size alignment o
unfolding check_fit
check_fit-Fits zero e size alignment offset o pos small bound mods h = absurd (ground arith)
check_fit-Fits (suc fuel) e size alignment offset o pos small bound mods h =
    ground
      (arith, no_wrap, check_fit-Fits fuel e size alignment (add64 offset alignment) o pos small)
  where
    no_wrap :
        offset < header + min_entry_size
        → (e.addr + header + add64 offset alignment) % alignment ≡ 0
    no_wrap lt =
        let same : e.addr + header + add64 offset alignment ≡ e.addr + header + offset + alignment =
          omega arith in
        rw (same, add-mod_right) mods

-- An entry with room for the block, the alignment and a cut-off header is never skipped.
pub check_fit_total :
    (fuel : ℕ) (e : Entry) (size alignment offset : ℕ)
    → 0 < alignment
    → size + alignment + header + min_entry_size ≤ e.size
    → e.size < 2 ^ 64
    → offset < alignment + header + min_entry_size
    → 0 < fuel
    → header + min_entry_size < offset + fuel
    → (o : ℕ) × (check_fit fuel e size alignment offset ≡ some o)
unfolding check_fit
check_fit_total zero e size alignment offset pos room small bound more rounds = absurd (omega arith)
check_fit_total (suc fuel) e size alignment offset pos room small bound more rounds =
    elim (Bool-cases (offset == 0)) [
      | inl zero_offset ↦ (offset, rw (fits, zero_offset))
      | inr nonzero ↦ elim (Bool-cases (ltb offset (header + min_entry_size))) [
        | inl short ↦
            rw (fits, nonzero, short)
              (check_fit_total fuel e size alignment (add64 offset alignment) pos room small
                (ground arith) (ground arith) (ground arith))
        | inr enough ↦ (offset, rw (fits, nonzero, enough))
      ]
    ]
  where
    fits : ltb e.size (add64 offset size) ≡ false
    fits = ground arith
