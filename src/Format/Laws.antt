-- ===== src/Format/Laws.antt =====
-- What kernel/src/lib/format.c prints for a number can be read back.
use elysium_os.Base.{
  ℕ, ◌+◌, ◌-◌, ◌%◌, ◌^◌, ◌≤◌, ◌<◌, ◌≡◌, ◌⊎◌, inl, inr, Bool, true, false, ◌&&◌, List, [], ◌∷◌, ◌++◌,
  none, some, ap₂, replicate, leb, ◌==◌, if◌then◌else◌, Run, ok, arith, refl, ap, sym, ◌∙◌,
  Bool-cases, leb→le, not_leb→lt,
}
use elysium_os.Format.{Style, plain, l_l, number, Directive}
use elysium_os.Format.Number.{
  Number, print_number, laid_out, power_of, power_loop, number_digits, number_length, precision_pad,
  prefixed, sign_of,
}
use elysium_os.Format.Parse.{
  read_flags, read_decimal, lookup_type, read_width, read_precision, read_length, type_of,
  read_value,
}
use elysium_os.Format.Convert.{
  number_of, unsigned, signed, hexadecimal, octal, convert_number, directive, format, format_loop,
}
use elysium_os.Format.Digits.{read_number, power_loop-Found, read_number-digits}
use native.Mathlib.Nat.{pow-zero, pow-le-pow_left}

-- A number without flags, width and precision.
record IsPlain (n : Number) : Type 0 where
  left : n.style.left ≡ false
  zero_ : n.style.zero ≡ false
  leading : n.style.leading_zero ≡ false
  width : n.width ≡ 0
  precision : n.precision ≡ 1
  lead : n.lead ≡ []

append_nil : (xs : List ℕ) → xs ++ [] ≡ xs
append_nil [] = refl
append_nil (x ∷ xs) = ap (λ xs. x ∷ xs) (append_nil xs)

power_of-length : (n : Number) → IsPlain n → 1 < n.radix → n.value < 2 ^ 64 → 1 ≤ (power_of n).1
power_of-length n plain big h =
    let start : (if n.precision == 0 && n.value == 0 then 0 else 1) ≡ 1 =
      ap (λ p. if p == 0 && n.value == 0 then 0 else 1) plain.precision in
    let fits : n.value < n.radix ^ (0 + 64) =
      omega (arith, h, pow-le-pow_left {n = 2} {m = n.radix} (omega arith) 64) in
    let (m, runs, low, high, below, above) =
      power_loop-Found 64 n.radix n.value 0 1 1 big (sym (pow-zero n.radix)) fits in
    let e : (power_of n).1 ≡ 1 + (m - 0) =
      ap (λ k. (power_loop 64 n.radix n.value 1 k).1) start ∙ ap (λ x. x.1) runs in
    omega (arith, e)

laid_out-plain :
    (left zero_ : Bool) (fill n : ℕ) (sign zeros digits : List ℕ)
    → left ≡ false
    → zero_ ≡ false
    → fill ≡ 0
    → 0 < n
    → zeros ≡ []
    → laid_out left zero_ fill n sign zeros digits ≡ sign ++ digits
laid_out-plain left zero_ fill n sign zeros digits a b c pos d =
    let some_ : (n == 0) ≡ false = ground arith in simp (a, b, c, some_, d, append_nil)

pad_none :
    (x : ℕ) (leading pref : Bool)
    → x ≡ 0
    → leading ≡ false
    → (if (x == 0) && (leading && pref) then 1 else x) ≡ 0
pad_none x leading pref a b = simp (a, b)

sign_none :
    (negative pref : Bool) (lead : List ℕ)
    → lead ≡ []
    → (if negative then 45 ∷ [] else if pref then lead else []) ≡ (if negative then 45 ∷ [] else [])
sign_none true pref lead h = refl
sign_none false true lead h = h
sign_none false false lead h = refl

print_number-plain :
    (n : Number)
    → IsPlain n
    → 1 < n.radix
    → n.value < 2 ^ 64
    → print_number n ≡ (if n.negative then 45 ∷ [] else []) ++ number_digits n
unfolding print_number
print_number-plain n plain big h =
    let one = power_of-length n plain big h in
    let none_left : n.precision - (power_of n).1 ≡ 0 = omega (arith, one, plain.precision) in
    let no_pad : precision_pad n ≡ 0 =
      pad_none (n.precision - (power_of n).1) n.style.leading_zero (prefixed n) none_left
        plain.leading in
    let no_fill : n.width - number_length n ≡ 0 = omega (arith, plain.width) in
    let sign : sign_of n ≡ (if n.negative then 45 ∷ [] else []) =
      sign_none n.negative (prefixed n) n.lead plain.lead in
    laid_out-plain n.style.left n.style.zero (n.width - number_length n) (number_length n)
      (sign_of n) (replicate (precision_pad n) 48) (number_digits n) plain.left plain.zero_ no_fill
      (omega (arith, one)) (ap (λ k. replicate k 48) no_pad)
    ∙ ap (λ s. s ++ number_digits n) sign

-- The conversions of unsigned numbers, their radices, and whether their letters are capitals.
pub data Unsigned : (c radix : ℕ) (letters : Bool) → Type 0 where
  decimal : Unsigned 117 10 false
  lowercase : Unsigned 120 16 false
  uppercase : Unsigned 88 16 true
  octal_ : Unsigned 111 8 false

digits_read :
    (n : Number)
    → IsPlain n
    → 1 < n.radix
    → n.radix ≤ 16
    → n.value < 2 ^ 64
    → read_number n.style.uppercase n.radix (number_digits n) ≡ some n.value
digits_read n plain big small h =
    read_number-digits n.radix n.style.uppercase n.precision n.value
      (if n.precision == 0 && n.value == 0 then 0 else 1) big small (omega (arith, plain.precision))
      h

abbrev long_directive : Directive
long_directive = record { style = plain; width = 0; precision = none; length_prefix = l_l }

-- A conversion that is all of the format.
alone :
    (f : ℕ → Number) (n : ℕ)
    → n < 2 ^ 64
    → IsPlain (f n)
    → 1 < (f n).radix
    → (f n).value < 2 ^ 64
    → Path
        (Run (List ℕ))
        (ok (print_number (f (n % 2 ^ 64)) ++ []))
        (ok ((if (f n).negative then 45 ∷ [] else []) ++ number_digits (f n)))
alone f n h plain big small =
    let whole : n % 2 ^ 64 ≡ n = omega arith in
    ap (λ v. ok (print_number (f v) ++ [])) whole
    ∙ ap ok (append_nil (print_number (f n)))
    ∙ ap ok (print_number-plain (f n) plain big small)

unsigned_alone :
    (radix : ℕ) (u : Bool) (f : ℕ → Number) (n : ℕ)
    → IsPlain (f n)
    → (f n).radix ≡ radix
    → (f n).style.uppercase ≡ u
    → (f n).value ≡ n
    → (f n).negative ≡ false
    → 1 < radix
    → radix ≤ 16
    → n < 2 ^ 64
    → (digits : List ℕ) × Path (Run (List ℕ)) (ok (print_number (f (n % 2 ^ 64)) ++ [])) (ok digits)
      × (read_number u radix digits ≡ some n)
unsigned_alone radix u f n plain r caps v unsigned_ big small h = (
  number_digits (f n),
  alone f n h plain (omega (arith, r)) (omega (arith, v))
      ∙ ap (λ b. ok ((if b then 45 ∷ [] else []) ++ number_digits (f n))) unsigned_,
  ap₂ (λ u r. read_number u r (number_digits (f n))) (sym caps) (sym r)
      ∙ digits_read (f n) plain (omega (arith, r)) (omega (arith, r)) (omega (arith, v))
      ∙ ap some v,
)

IsPlain-number :
    (style : Style) (value radix : ℕ)
    → style.left ≡ false
    → style.zero ≡ false
    → style.leading_zero ≡ false
    → IsPlain (number_of long_directive style value radix [])
IsPlain-number style value radix a b c = record {
  left = a;
  zero_ = b;
  leading = c;
  width = refl;
  precision = refl;
  lead = refl;
}

-- "%lu", "%lx", "%lX" and "%lo" print one digit or more and nothing else, each a digit of the radix of the
-- conversion with letters of its case, and read in that radix they come to the number, for every number
-- below 2^64.
pub read_number-format :
    (c radix : ℕ) (letters : Bool) (n : ℕ)
    → Unsigned c radix letters
    → n < 2 ^ 64
    → (digits : List ℕ) × (format (37 ∷ 108 ∷ c ∷ []) (number n ∷ []) ≡ ok digits)
      × (read_number letters radix digits ≡ some n)
unfolding format format_loop directive convert_number read_flags read_width read_precision
    read_length type_of read_value read_decimal lookup_type
read_number-format c radix letters n decimal h =
    unsigned_alone 10 false (unsigned long_directive) n (IsPlain-number plain n 10 refl refl refl)
      refl refl refl refl (omega arith) (omega arith) h
read_number-format c radix letters n lowercase h =
    let f = hexadecimal long_directive false in
    unsigned_alone 16 false f n (IsPlain-number (f n).style n 16 refl refl refl) refl refl refl refl
      (omega arith) (omega arith) h
read_number-format c radix letters n uppercase h =
    let f = hexadecimal long_directive true in
    unsigned_alone 16 true f n (IsPlain-number (f n).style n 16 refl refl refl) refl refl refl refl
      (omega arith) (omega arith) h
read_number-format c radix letters n octal_ h =
    let f = octal long_directive in
    unsigned_alone 8 false f n (IsPlain-number (f n).style n 8 refl refl refl) refl refl refl refl
      (omega arith) (omega arith) h

signed_alone :
    (n : ℕ) (m : Number)
    → n < 2 ^ 64
    → signed long_directive n ≡ m
    → IsPlain m
    → m.radix ≡ 10
    → m.style.uppercase ≡ false
    → m.value < 2 ^ 64
    → Path
        (Run (List ℕ))
        (ok (print_number (signed long_directive (n % 2 ^ 64)) ++ []))
        (ok ((if m.negative then 45 ∷ [] else []) ++ number_digits m))
      × (read_number false 10 (number_digits m) ≡ some m.value)
signed_alone n m h e plain r caps small =
    let whole : n % 2 ^ 64 ≡ n = omega arith in
    (
      ap (λ v. ok (print_number (signed long_directive v) ++ [])) whole
          ∙ ap (λ m. ok (print_number m ++ [])) e
          ∙ ap ok (append_nil (print_number m))
          ∙ ap ok (print_number-plain m plain (omega (arith, r)) small),
      ap₂ (λ u r. read_number u r (number_digits m)) (sym caps) (sym r)
          ∙ digits_read m plain (omega (arith, r)) (omega (arith, r)) small,
    )

-- For every 64-bit word, "%ld" prints nothing but decimal digits, one at least, that come to the number if
-- that is below 2^63, and otherwise, for a negative number in two's complement, a '-' and then nothing but
-- decimal digits, one at least, that come to its absolute value.
pub read_number-format_signed :
    (n : ℕ)
    → n < 2 ^ 64
    → ((n < 2 ^ 63)
        × ((digits : List ℕ) × (format (37 ∷ 108 ∷ 100 ∷ []) (number n ∷ []) ≡ ok digits)
            × (read_number false 10 digits ≡ some n)))
      ⊎ ((2 ^ 63 ≤ n)
          × ((digits : List ℕ) × (format (37 ∷ 108 ∷ 100 ∷ []) (number n ∷ []) ≡ ok (45 ∷ digits))
              × (read_number false 10 digits ≡ some (2 ^ 64 - n))))
unfolding format format_loop directive convert_number read_flags read_width read_precision
    read_length type_of read_value read_decimal lookup_type
read_number-format_signed n h = elim (Bool-cases (leb (2 ^ 63) n)) [
  | inl negative ↦
      let m : Number = record (number_of long_directive plain (2 ^ 64 - n) 10 []) {
        negative = true;
      } in
      let e : signed long_directive n ≡ m = simp (negative) in
      let p = IsPlain-number plain (2 ^ 64 - n) 10 refl refl refl in
      let is_plain : IsPlain m = record {
        left = p.left;
        zero_ = p.zero_;
        leading = p.leading;
        width = p.width;
        precision = p.precision;
        lead = p.lead;
      } in
      let low : 2 ^ 63 ≤ n = leb→le (2 ^ 63) n negative in
      let (runs, reads) = signed_alone n m h e is_plain refl refl (omega (arith, low)) in
      inr (low, (number_digits m, runs, reads))
  | inr positive ↦
      let m : Number = number_of long_directive plain n 10 [] in
      let e : signed long_directive n ≡ m = simp (positive) in
      let is_plain = IsPlain-number plain n 10 refl refl refl in
      let (runs, reads) = signed_alone n m h e is_plain refl refl h in
      inl (not_leb→lt (2 ^ 63) n positive, (number_digits m, runs, reads))
]
