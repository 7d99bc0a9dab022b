-- ===== src/Format/Tests.antt =====
-- Formats and what is printed for them (kernel/src/lib/format.c).
use elysium_os.Base.{
  true, some, false, ℕ, ◌-◌, ◌^◌, ◌<◌, ◌≤◌, ◌⊎◌, ◌≡◌, List, arith, [], ◌∷◌, ok, undefined, refl,
}
use elysium_os.Format.{plain, number, text}
use elysium_os.Format.Digits.{read_number}
use elysium_os.Format.Laws.{lowercase, read_number-format, read_number-format_signed}
use elysium_os.Format.Width.{Digits}
use elysium_os.Format.Number.{Number, print_number, power_loop, digit_loop, digit_char}
use elysium_os.Format.Parse.{
  read_flags, read_decimal, lookup_type, read_width, read_precision, read_length, type_of,
  read_value,
}
use elysium_os.Format.Convert.{format, format_loop, directive, convert_number}

-- "a%5d|" of -42
signed_run :
    format (97 ∷ 37 ∷ 53 ∷ 100 ∷ 124 ∷ []) (number (2 ^ 32 - 42) ∷ [])
    ≡ ok (97 ∷ 32 ∷ 32 ∷ 45 ∷ 52 ∷ 50 ∷ 124 ∷ [])
unfolding format format_loop directive convert_number print_number power_loop digit_loop digit_char
    read_decimal lookup_type read_flags read_width read_precision read_length type_of read_value
signed_run = refl

-- "%#06lx" of 255
hex_run :
    format (37 ∷ 35 ∷ 48 ∷ 54 ∷ 108 ∷ 120 ∷ []) (number 255 ∷ [])
    ≡ ok (48 ∷ 120 ∷ 48 ∷ 48 ∷ 102 ∷ 102 ∷ [])
unfolding format format_loop directive convert_number print_number power_loop digit_loop digit_char
    read_decimal lookup_type read_flags read_width read_precision read_length type_of read_value
hex_run = refl

-- "%-3s|%q" of "ab": there is no conversion q.
text_run :
    format (37 ∷ 45 ∷ 51 ∷ 115 ∷ 124 ∷ 37 ∷ 113 ∷ []) (text (97 ∷ 98 ∷ []) ∷ [])
    ≡ ok (97 ∷ 98 ∷ 32 ∷ 124 ∷ 37 ∷ 113 ∷ [])
unfolding format format_loop directive convert_number print_number power_loop digit_loop digit_char
    read_decimal lookup_type read_flags read_width read_precision read_length type_of read_value
text_run = refl

-- "%!" reads the table of conversions out of bounds.
bounds_run : format (37 ∷ 33 ∷ []) [] ≡ undefined
unfolding format format_loop directive convert_number print_number power_loop digit_loop digit_char
    read_decimal lookup_type read_flags read_width read_precision read_length type_of
bounds_run = refl

-- "%.0u" of 100 prints "1".
precision_run : format (37 ∷ 46 ∷ 48 ∷ 117 ∷ []) (number 100 ∷ []) ≡ ok (49 ∷ [])
unfolding format format_loop directive convert_number print_number power_loop digit_loop digit_char
    read_decimal lookup_type read_flags read_width read_precision read_length type_of read_value
precision_run = refl

read_number-format_example :
    (digits : List ℕ) × (format (37 ∷ 108 ∷ 120 ∷ []) (number 48879 ∷ []) ≡ ok digits)
    × (read_number false 16 digits ≡ some 48879)
read_number-format_example = read_number-format 120 16 false 48879 lowercase (omega arith)

read_number-format_signed_example :
    ((2 ^ 64 - 5 < 2 ^ 63)
      × ((digits : List ℕ) × (format (37 ∷ 108 ∷ 100 ∷ []) (number (2 ^ 64 - 5) ∷ []) ≡ ok digits)
          × (read_number false 10 digits ≡ some (2 ^ 64 - 5))))
    ⊎ ((2 ^ 63 ≤ 2 ^ 64 - 5)
        × ((digits : List ℕ) × (format (37 ∷ 108 ∷ 100 ∷ []) (number (2 ^ 64 - 5) ∷ [])
              ≡ ok (45 ∷ digits))
            × (read_number false 10 digits ≡ some (2 ^ 64 - (2 ^ 64 - 5)))))
read_number-format_signed_example = read_number-format_signed (2 ^ 64 - 5) (omega arith)

-- "%#8.3lx" of 255
abbrev wide : Number
wide = record {
  style = record plain { alternative = true };
  width = 8;
  precision = 3;
  value = 255;
  negative = false;
  radix = 16;
  lead = 48 ∷ 120 ∷ [];
}
