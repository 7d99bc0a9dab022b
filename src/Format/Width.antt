-- ===== src/Format/Width.antt =====
-- How many characters kernel/src/lib/format.c prints for a number.
use elysium_os.Base.{ℕ, suc, ◌^◌, ◌≤◌, ◌<◌, ◌≡◌, ◌⊎◌}
use elysium_os.Format.Number.{Number}

-- The digits that there are, by the value.
pub record Digits (radix value k : ℕ) : Type 0 where
  pub below : value < radix ^ k
  pub least : (k ≡ 1) ⊎ ((m : ℕ) × (k ≡ suc m) × (radix ^ m ≤ value))
