-- ===== src/Format/Number.antt =====
-- How kernel/src/lib/format.c prints a number: from `lbl_print_number` on.
use elysium_os.Base.{
  ℕ, zero, suc, ◌+◌, ◌-◌, ◌*◌, ◌/◌, ◌%◌, Bool, not, ◌&&◌, ◌||◌, List, [], ◌∷◌, ◌++◌, length,
  replicate, leb, ◌==◌, if◌then◌else◌,
}
use elysium_os.Format.{Style, spaces}

-- The loop that finds the power of the radix of the first digit, and counts the digits.
unfoldable pub power_loop : (rounds radix value pw length : ℕ) → ℕ × ℕ
power_loop zero radix value pw length = (pw, length)
power_loop (suc rounds) radix value pw length =
    let rest = power_loop rounds radix value (pw * radix) (suc length) in
    if leb radix (value / pw) then rest else (pw, length)

unfoldable pub digit_char : (uppercase : Bool) → (c : ℕ) → ℕ
digit_char uppercase c = if leb 10 c then c - 10 + (if uppercase then 65 else 97) else (c + 48)

-- The loop that prints the digits; it ends early where the precision is 0 and what is left of the value
-- is 0 too.
unfoldable pub digit_loop :
    (rounds radix : ℕ) → (uppercase : Bool) → (precision value pw : ℕ) → List ℕ
unfolding digit_char
digit_loop zero radix uppercase precision value pw = []
digit_loop (suc rounds) radix uppercase precision value pw =
    let rest = digit_loop rounds radix uppercase precision (value % pw) (pw / radix) in
    if not (pw == 0) && not (precision == 0 && value == 0)
    then digit_char uppercase (value / pw) ∷ rest
    else []

-- A number as it is printed; a value has at most 64 digits, and the last round sees that `pw` is 0.
pub record Number : Type 0 where
  pub style : Style
  pub width : ℕ
  pub precision : ℕ
  pub value : ℕ
  pub negative : Bool
  pub radix : ℕ
  pub lead : List ℕ

abbrev pub digits_from : ℕ
digits_from = 66

abbrev pub power_of : Number → ℕ × ℕ
power_of n = power_loop 64 n.radix n.value 1 (if n.precision == 0 && n.value == 0 then 0 else 1)

-- !(flags & FLAG_NO_PREFIX_ON_ZERO) || value.integer != 0
abbrev pub prefixed : Number → Bool
prefixed n = not n.style.no_prefix_on_zero || not (n.value == 0)

abbrev pub precision_pad : Number → ℕ
precision_pad n =
    if (n.precision - (power_of n).1) == 0 && (n.style.leading_zero && prefixed n)
    then 1
    else (n.precision - (power_of n).1)

-- The sign or the prefix.
abbrev pub sign_of : Number → List ℕ
sign_of n = if n.negative then 45 ∷ [] else if prefixed n then n.lead else []

abbrev pub number_length : Number → ℕ
number_length n = (power_of n).1 + precision_pad n + length (sign_of n)

abbrev pub number_digits : Number → List ℕ
number_digits n =
    digit_loop digits_from n.radix n.style.uppercase n.precision n.value (power_of n).0

-- The parts of a number in their order, filled up on one side.
abbrev pub laid_out : (left zero_ : Bool) → (fill n : ℕ) → (sign zeros digits : List ℕ) → List ℕ
laid_out left zero_ fill n sign zeros digits =
    let before = if not left && not zero_ then spaces fill else [] in
    if n == 0
    then before
    else (before
        ++ sign
        ++ (if zero_ && not left then replicate fill 48 else [])
        ++ zeros
        ++ digits
        ++ (if left then spaces fill else []))

unfoldable pub print_number : Number → List ℕ
print_number n =
    laid_out n.style.left n.style.zero (n.width - number_length n) (number_length n) (sign_of n)
      (replicate (precision_pad n) 48) (number_digits n)
