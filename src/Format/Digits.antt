-- ===== src/Format/Digits.antt =====
-- The digits that kernel/src/lib/format.c prints, read back.
use elysium_os.Base.{
  ℕ, zero, suc, ◌+◌, ◌-◌, ◌*◌, ◌/◌, ◌%◌, ◌^◌, ◌≤◌, ◌<◌, ◌≡◌, ◌⊎◌, inl, inr, Bool, true, false, List,
  Option, none, some, ◌&&◌, lt→ltb, [], ◌∷◌, ltb, leb, ◌==◌, if◌then◌else◌, arith, refl, ap, ap₂,
  sym, subst, ◌∙◌, Bool-cases, leb→le, not_leb→lt,
}
use elysium_os.Format.Number.{power_loop, digit_char, digit_loop}
use native.Mathlib.Nat.{
  pow-succ', pow-suc, pow-zero, one-le-pow, div-lt_iff_lt-mul, le-div_iff_mul-le, mod-add-div,
  mod-lt, mul-div_cancel_left, mul-le-mul_right, div-eq_of_lt, div-one, le_of_lt, pow-le-pow_left,
}

-- The value of a character as a digit, with letters of one case.
abbrev pub digit_value : (uppercase : Bool) → ℕ → Option ℕ
digit_value uppercase c =
    let letter = if uppercase then 65 else 97 in
    if leb 48 c && leb c 57
    then some (c - 48)
    else if leb letter c && leb c (letter + 5)
    then some (c - letter + 10)
    else none

-- A digit of the radix.
abbrev pub below : (radix : ℕ) → Option ℕ → Option ℕ
below radix none = none
below radix (some d) = if ltb d radix then some d else none

abbrev pub with_digit : Option ℕ → (ℕ → Option ℕ) → Option ℕ
with_digit none f = none
with_digit (some d) f = f d

-- What digits come to behind the number `acc`; another character is refused.
abbrev pub read_digits : (uppercase : Bool) → (radix acc : ℕ) → List ℕ → Option ℕ
read_digits u radix acc [] = some acc
read_digits u radix acc (c ∷ cs) =
    with_digit (below radix (digit_value u c)) (λ d. read_digits u radix (acc * radix + d) cs)

-- A number has a digit at least.
abbrev pub read_number : (uppercase : Bool) → (radix : ℕ) → List ℕ → Option ℕ
read_number u radix [] = none
read_number u radix (c ∷ cs) = read_digits u radix 0 (c ∷ cs)

digit_value-digit_char : (u : Bool) (c : ℕ) → c < 16 → digit_value u (digit_char u c) ≡ some c
unfolding digit_char
digit_value-digit_char true c h = ground arith
digit_value-digit_char false c h = ground arith

power_more :
    (rounds r v pw n : ℕ)
    → leb r (v / pw) ≡ true
    → power_loop (suc rounds) r v pw n ≡ power_loop rounds r v (pw * r) (suc n)
unfolding power_loop
power_more rounds r v pw n h = simp (h)

power_done :
    (rounds r v pw n : ℕ) → leb r (v / pw) ≡ false → power_loop (suc rounds) r v pw n ≡ (pw, n)
unfolding power_loop
power_done rounds r v pw n h = simp (h)

-- The power that the loop finds is that of the first digit.
pub power_loop-Found :
    (rounds radix value k pw length : ℕ)
    → 1 < radix
    → pw ≡ radix ^ k
    → value < radix ^ (k + rounds)
    → (m : ℕ) × Path (ℕ × ℕ) (power_loop rounds radix value pw length) (radix ^ m, length + (m - k))
      × (k ≤ m)
      × (m ≤ k + rounds)
      × (value < radix ^ suc m)
      × ((m ≡ k) ⊎ (radix ^ m ≤ value))
unfolding power_loop
power_loop-Found zero r v k pw n big e h =
    let same : v < r ^ k = subst (λ j. v < r ^ j) (omega arith) h in
    let larger = mul-le-mul_right (r ^ k) (le_of_lt big) in
    (
      k,
      ap₂ (λ a b. (a, b)) e (omega arith),
      omega arith,
      omega arith,
      omega (arith, same, pow-succ' r k, larger),
      inl refl,
    )
power_loop-Found (suc rounds) r v k pw n big e h = elim (Bool-cases (leb r (v / pw))) [
  | inl more ↦
      let pos : 0 < pw = subst (λ p. 0 < p) (sym e) (one-le-pow k r (omega arith)) in
      let up : r * pw ≤ v = (le-div_iff_mul-le pos).0 (leb→le r (v / pw) more) in
      let next : pw * r ≡ r ^ suc k = ap (λ p. p * r) e ∙ sym (pow-suc r k) in
      let (m, runs, low, high, below, above) =
        power_loop-Found rounds r v (suc k) (pw * r) (suc n) big next
          (subst (λ j. v < r ^ j) (omega arith) h) in
      (
        m,
        power_more rounds r v pw n more ∙ runs ∙ ap (λ b. (r ^ m, b)) (omega (arith, low)),
        omega (arith, low),
        omega (arith, high),
        below,
        inr (elim above [
          | inl same ↦
              subst (λ j. r ^ j ≤ v) (sym same) (subst (λ p. p ≤ v) next (omega (arith, up)))
          | inr le ↦ le
        ]),
      )
  | inr less ↦
      let pos : 0 < pw = subst (λ p. 0 < p) (sym e) (one-le-pow k r (omega arith)) in
      let down : v < r * pw = (div-lt_iff_lt-mul pos).0 (not_leb→lt r (v / pw) less) in
      (
        k,
        power_done rounds r v pw n less ∙ ap₂ (λ a b. (a, b)) e (omega arith),
        omega arith,
        omega arith,
        omega (arith, down, pow-succ' r k, ap (λ p. r * p) e),
        inl refl,
      )
]

pub digit_loop_end : (rounds r : ℕ) (u : Bool) (p v : ℕ) → digit_loop rounds r u p v 0 ≡ []
unfolding digit_loop
digit_loop_end zero r u p v = refl
digit_loop_end (suc rounds) r u p v = refl

pub digit_loop_step :
    (rounds r : ℕ) (u : Bool) (p v pw : ℕ)
    → 0 < p
    → 0 < pw
    → digit_loop (suc rounds) r u p v pw
      ≡ digit_char u (v / pw) ∷ digit_loop rounds r u p (v % pw) (pw / r)
unfolding digit_loop
digit_loop_step rounds r u p v pw pos pos' =
    let a : (pw == 0) ≡ false = ground arith in
    let b : (p == 0) ≡ false = ground arith in simp (a, b)

pub power_pos : (r m pw : ℕ) → 1 < r → pw ≡ r ^ m → 0 < pw
power_pos r m pw big e = subst (λ p. 0 < p) (sym e) (one-le-pow m r (omega arith))

first_digit :
    (rounds r : ℕ) (u : Bool) (p v m pw acc : ℕ)
    → 1 < r
    → r ≤ 16
    → 0 < p
    → pw ≡ r ^ m
    → v < r ^ suc m
    → read_digits u r acc (digit_loop (suc rounds) r u p v pw)
      ≡ read_digits u r (acc * r + v / pw) (digit_loop rounds r u p (v % pw) (pw / r))
first_digit rounds r u p v m pw acc big small pos e h =
    let pos' = power_pos r m pw big e in
    let bound : v < r * pw = omega (arith, h, pow-succ' r m, ap (λ p. r * p) e) in
    let digit : v / pw < r = (div-lt_iff_lt-mul pos').1 bound in
    let head : below r (digit_value u (digit_char u (v / pw))) ≡ some (v / pw) =
      ap (below r) (digit_value-digit_char u (v / pw) (omega arith))
      ∙ ap (λ b. if b then some (v / pw) else none) (lt→ltb (v / pw) r digit) in
    ap (read_digits u r acc) (digit_loop_step rounds r u p v pw pos pos')
    ∙ ap
        (λ o.
          with_digit o
            (λ d. read_digits u r (acc * r + d) (digit_loop rounds r u p (v % pw) (pw / r))))
        head

-- What the digits come to, behind the number `acc`.
pub read_digits-digit_loop :
    (rounds radix : ℕ) (u : Bool) (precision value m pw acc : ℕ)
    → 1 < radix
    → radix ≤ 16
    → 0 < precision
    → pw ≡ radix ^ m
    → value < radix ^ suc m
    → m + 1 < rounds
    → read_digits u radix acc (digit_loop rounds radix u precision value pw)
      ≡ some (acc * radix ^ suc m + value)
read_digits-digit_loop zero r u p v m pw acc big small pos e h enough = absurd (omega arith)
read_digits-digit_loop (suc rounds) r u p v zero pw acc big small pos e h enough =
    let one : pw ≡ 1 = e ∙ pow-zero r in
    let gone : pw / r ≡ 0 = ap (λ p. p / r) one ∙ div-eq_of_lt big in
    let whole : v / pw ≡ v = ap (λ p. v / p) one ∙ div-one v in
    first_digit rounds r u p v 0 pw acc big small pos e h
    ∙ ap (λ x. read_digits u r (acc * r + v / pw) (digit_loop rounds r u p (v % pw) x)) gone
    ∙ ap (read_digits u r (acc * r + v / pw)) (digit_loop_end rounds r u p (v % pw))
    ∙ ap some (
        omega
          (arith, whole, ap (λ x. acc * x) (pow-succ' r 0), ap (λ x. acc * (r * x)) (pow-zero r)))
read_digits-digit_loop (suc rounds) r u p v (suc m) pw acc big small pos e h enough =
    let pos' = power_pos r (suc m) pw big e in
    let down : pw / r ≡ r ^ m =
      ap (λ p. p / r) (e ∙ pow-succ' r m) ∙ mul-div_cancel_left (r ^ m) (omega arith) in
    let rest : v % pw < r ^ suc m = subst (λ p. v % pw < p) e (mod-lt v pos') in
    let ih =
      read_digits-digit_loop rounds r u p (v % pw) m (pw / r) (acc * r + v / pw) big small pos down
        rest (omega arith) in
    first_digit rounds r u p v (suc m) pw acc big small pos e h
    ∙ ih
    ∙ ap some (
        omega (
          arith,
          ap (λ x. (acc * r + v / pw) * x) (sym e),
          mod-add-div v pw,
          ap (λ x. acc * x) (pow-succ' r (suc m)),
          ap (λ x. acc * (r * x)) (sym e),
        ))

-- There is a first digit.
read_number-first :
    (rounds r : ℕ) (u : Bool) (p v pw : ℕ)
    → 0 < p
    → 0 < pw
    → read_number u r (digit_loop (suc rounds) r u p v pw)
      ≡ read_digits u r 0 (digit_loop (suc rounds) r u p v pw)
read_number-first rounds r u p v pw pos pos' =
    let step = digit_loop_step rounds r u p v pw pos pos' in
    ap (read_number u r) step ∙ sym (ap (read_digits u r 0) step)

-- The digits of a number, by the power that the first loop finds.
pub read_number-digits :
    (radix : ℕ) (u : Bool) (precision value length : ℕ)
    → 1 < radix
    → radix ≤ 16
    → 0 < precision
    → value < 2 ^ 64
    → read_number u radix
        (digit_loop 66 radix u precision value (power_loop 64 radix value 1 length).0)
      ≡ some value
read_number-digits r u p v n big small pos h =
    let fits : v < r ^ 64 = omega (arith, h, pow-le-pow_left {n = 2} {m = r} (omega arith) 64) in
    let (m, runs, low, high, below, above) =
      power_loop-Found 64 r v 0 1 n big (sym (pow-zero r))
        (subst (λ k. v < r ^ k) (omega arith) fits) in
    ap (λ x. read_number u r (digit_loop 66 r u p v (x.0))) runs
    ∙ read_number-first 65 r u p v (r ^ m) pos (power_pos r m (r ^ m) big refl)
    ∙ read_digits-digit_loop 66 r u p v m (r ^ m) 0 big small pos refl below (omega (arith, high))
    ∙ ap some (omega arith)
