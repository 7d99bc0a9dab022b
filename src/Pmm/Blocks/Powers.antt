-- ===== src/Pmm/Blocks/Powers.antt =====
-- The arithmetic of blocks whose sizes are powers of two (kernel/src/memory/pmm.c).
use elysium_os.Base.{
  ℕ, zero, suc, ◌+◌, ◌-◌, ◌*◌, ◌/◌, ◌%◌, ◌^◌, ◌≤◌, ◌<◌, ◌≡◌, ◌⊎◌, inl, inr, ◌==◌, arith, ap, sym,
  ◌∙◌, Bool-cases,
}
use elysium_os.Pmm.Blocks.{flip}
use native.Mathlib.Nat.{
  pow-succ', mod-add-div, mul-mod_right, mul-le-mul_left, lt_of_mul-lt-mul_left, mul-div-mul_right,
}

pub multiple : (x p : ℕ) → x % p ≡ 0 → x ≡ p * (x / p)
multiple x p h = let e = mod-add-div x p in omega (arith, e, h)

pub of_multiple : (x p q : ℕ) → x ≡ p * q → x % p ≡ 0
of_multiple x p q h = ap (λ x. x % p) h ∙ mul-mod_right p q

double : (o q : ℕ) → 2 ^ suc o * q ≡ 2 ^ o * (q + q)
double o q = grind (arith, pow-succ' 2 o)

-- Both halves of an aligned block are aligned.
pub lower_half : (o x : ℕ) → x % 2 ^ suc o ≡ 0 → x % 2 ^ o ≡ 0
lower_half o x h =
    let q = x / 2 ^ suc o in of_multiple x (2 ^ o) (q + q) (multiple x (2 ^ suc o) h ∙ double o q)

pub upper_half : (o x : ℕ) → x % 2 ^ suc o ≡ 0 → (x + 2 ^ o) % 2 ^ o ≡ 0
upper_half o x h =
    let q = x / 2 ^ o in
    let e = multiple x (2 ^ o) (lower_half o x h) in
    of_multiple (x + 2 ^ o) (2 ^ o) (q + 1) (grind (arith, e))

-- A block and its buddy are the halves of an aligned block: the buddy is the upper one or the lower.
pub flip-halves :
    (o x : ℕ)
    → x % 2 ^ o ≡ 0
    → ((flip x (2 ^ o) ≡ x + 2 ^ o) × (x % 2 ^ suc o ≡ 0))
      ⊎ ((flip x (2 ^ o) + 2 ^ o ≡ x) × (flip x (2 ^ o) % 2 ^ suc o ≡ 0))
flip-halves o x h =
    let e = multiple x (2 ^ o) h in
    let q = x / 2 ^ o in
    elim (Bool-cases (q % 2 == 0)) [
      | inl even ↦
          let half : q ≡ 2 * (q / 2) = ground arith in
          inl (
            simp (even),
            of_multiple x (2 ^ suc o) (q / 2) (grind (arith, e, half, double o (q / 2))),
          )
      | inr odd ↦
          let half : q ≡ 2 * (q / 2) + 1 = ground arith in
          let down : x ≡ 2 ^ suc o * (q / 2) + 2 ^ o =
            omega (arith, e, ap (λ q. 2 ^ o * q) half, double o (q / 2)) in
          let away : flip x (2 ^ o) ≡ x - 2 ^ o = simp (odd) in
          inr (
            omega (arith, away, down),
            of_multiple (flip x (2 ^ o)) (2 ^ suc o) (q / 2) (omega (arith, away, down)),
          )
    ]

pub flip-bytes : (x p : ℕ) → flip (x * 4096) (p * 4096) ≡ flip x p * 4096
flip-bytes x p =
    let e : (x * 4096) / (p * 4096) ≡ x / p = mul-div-mul_right x p (omega arith) in
    elim (Bool-cases ((x / p) % 2 == 0)) [
      | inl even ↦
          let a : flip (x * 4096) (p * 4096) ≡ x * 4096 + p * 4096 = simp (e, even) in
          let b : flip x p ≡ x + p = simp (even) in omega (arith, a, b)
      | inr odd ↦
          let a : flip (x * 4096) (p * 4096) ≡ x * 4096 - p * 4096 = simp (e, odd) in
          let b : flip x p ≡ x - p = simp (odd) in omega (arith, a, b)
    ]

power_multiple : (a b : ℕ) → a ≤ b → (m : ℕ) × (2 ^ b ≡ 2 ^ a * m)
power_multiple a zero h = let e : a ≡ 0 = omega arith in (1, ap (λ a. 2 ^ a * 1) (sym e))
power_multiple a (suc b) h = elim (Bool-cases (a == suc b)) [
  | inl same ↦ let e : a ≡ suc b = ground arith in (1, omega (arith, ap (λ a. 2 ^ a) e))
  | inr less ↦
      let (m, e) = power_multiple a b (ground arith) in (m + m, omega (arith, e, pow-succ' 2 b))
]

-- Of two aligned blocks that have a page in common, the larger one has the smaller in it.
pub nested :
    (a b s y t : ℕ)
    → a ≤ b
    → s % 2 ^ a ≡ 0
    → y % 2 ^ b ≡ 0
    → s ≤ t
    → t < s + 2 ^ a
    → y ≤ t
    → t < y + 2 ^ b
    → (y ≤ s) × (s + 2 ^ a ≤ y + 2 ^ b)
nested a b s y t le hs hy h1 h2 h3 h4 =
    let (m, power) = power_multiple a b le in
    let p = 2 ^ a in
    let e = s / p in
    let c = y / 2 ^ b in
    let es : s ≡ p * e = multiple s p hs in
    let ey : y ≡ p * (m * c) = multiple y (2 ^ b) hy ∙ ap (λ n. n * c) power ∙ omega arith in
    let low : m * c < e + 1 = lt_of_mul-lt-mul_left p (omega (arith, es, ey, h3, h2)) in
    let high : e < m * c + m = lt_of_mul-lt-mul_left p (omega (arith, es, ey, h1, h4, power)) in
    let left : p * (m * c) ≤ p * e = mul-le-mul_left p (omega (arith, low)) in
    let right : p * (e + 1) ≤ p * (m * c + m) = mul-le-mul_left p (omega (arith, high)) in
    (omega (arith, es, ey, left), omega (arith, es, ey, right, power))
