-- ===== src/Format/Parse.antt =====
-- How kernel/src/lib/format.c reads a directive.
use elysium_os.Base.{
  ℕ, ◌+◌, ◌-◌, ◌*◌, ◌%◌, ◌^◌, Bool, true, not, ◌&&◌, ◌||◌, List, [], ◌∷◌, Option, none, some, ltb,
  leb, ◌==◌, if◌then◌else◌, Run, ok, undefined, ◌>>=◌,
}
use elysium_os.Format.{
  Style, Prefix, l_none, l_h, l_hh, l_l, l_ll, l_j, l_z, l_t, l_double, ArgType, int, uint, char,
  uchar, short, ushort, long, ulong, llong, ullong, ptr, double, ldouble, intmax, uintmax, size,
  ssize, ptrdiff, uptrdiff, Arg, number, text,
}

-- A number of w bits as one of 64.
abbrev pub sign_extend : (w n : ℕ) → ℕ
sign_extend w n = if ltb (n % 2 ^ w) (2 ^ (w - 1)) then n % 2 ^ w else (n % 2 ^ w + 2 ^ 64 - 2 ^ w)

-- lbl_flags
abbrev pub settled_style : Style → Style
settled_style s = record s { space = s.space && not s.sign; zero = s.zero && not s.left }

unfoldable pub read_flags : Style → List ℕ → Option (Style × List ℕ)
read_flags s [] = none
read_flags s (c ∷ fmt) =
    let left = read_flags (record s { left = true }) fmt in
    let sign = read_flags (record s { sign = true }) fmt in
    let space = read_flags (record s { space = true }) fmt in
    let alternative = read_flags (record s { alternative = true }) fmt in
    let zero_ = read_flags (record s { zero = true }) fmt in
    if c == 45
    then left
    else if c == 43
    then sign
    else if c == 32
    then space
    else if c == 35
    then alternative
    else if c == 48
    then zero_
    else some (settled_style s, c ∷ fmt)

abbrev pub is_digit : ℕ → Bool
is_digit c = leb 48 c && leb c 57

-- The loops that read a width or a precision; they end the output where the format ends. A number that
-- is too large for an int is undefined.
unfoldable pub read_decimal : (n : ℕ) → List ℕ → Run (Option (ℕ × List ℕ))
read_decimal n [] = ok none
read_decimal n (c ∷ fmt) =
    let rest = read_decimal (n * 10 + (c - 48)) fmt in
    if is_digit c
    then (if ltb (n * 10 + (c - 48)) (2 ^ 31) then rest else undefined)
    else ok (some (n, c ∷ fmt))

-- va_arg(list, int), in 32 bits
abbrev pub int_arg : List Arg → Run (ℕ × List Arg)
int_arg (number n ∷ args) = ok (n % 2 ^ 32, args)
int_arg _ = undefined

-- The least int has no negation.
abbrev pub star_width : Style → List ℕ → ℕ × List Arg → Run (Option (Style × ℕ × List ℕ × List Arg))
star_width s fmt (n, args) =
    if ltb n (2 ^ 31)
    then ok (some (s, n, fmt, args))
    else if n == 2 ^ 31
    then undefined
    else ok (some (record s { left = true }, 2 ^ 32 - n, fmt, args))

abbrev pub plain_width :
    Style → List Arg → Option (ℕ × List ℕ) → Option (Style × ℕ × List ℕ × List Arg)
plain_width s args none = none
plain_width s args (some (n, fmt)) = some (s, n, fmt, args)

-- lbl_width
unfoldable pub read_width : Style → List ℕ → List Arg → Run (Option (Style × ℕ × List ℕ × List Arg))
unfolding read_decimal
read_width s [] args = ok none
read_width s (c ∷ fmt) args =
    if c == 42
    then (int_arg args >>= star_width s fmt)
    else (read_decimal 0 (c ∷ fmt) >>= λ o. ok (plain_width s args o))

abbrev pub star_precision : List ℕ → ℕ × List Arg → Option ℕ × List ℕ × List Arg
star_precision fmt (n, args) = (some (if ltb n (2 ^ 31) then n else 1), fmt, args)

abbrev pub plain_precision : List Arg → Option (ℕ × List ℕ) → Option (Option ℕ × List ℕ × List Arg)
plain_precision args none = none
plain_precision args (some (n, fmt)) = some (some n, fmt, args)

abbrev pub precision_digits : List ℕ → List Arg → Run (Option (Option ℕ × List ℕ × List Arg))
precision_digits [] args = ok none
precision_digits (c ∷ fmt) args =
    if c == 42
    then (int_arg args >>= λ a. ok (some (star_precision fmt a)))
    else (read_decimal 0 (c ∷ fmt) >>= λ o. ok (plain_precision args o))

-- lbl_precision, without the change of FLAG_ZERO
unfoldable pub read_precision : List ℕ → List Arg → Run (Option (Option ℕ × List ℕ × List Arg))
unfolding read_decimal
read_precision [] args = ok (some (none, [], args))
read_precision (c ∷ fmt) args =
    if c == 46 then precision_digits fmt args else ok (some (none, c ∷ fmt, args))

-- lbl_length and lbl_length_ext
abbrev pub length_ext : Prefix → List ℕ → Prefix × List ℕ
length_ext p [] = (p, [])
length_ext p (c ∷ fmt) =
    if c == 104 then (l_hh, fmt) else if c == 108 then (l_ll, fmt) else (p, c ∷ fmt)

unfoldable pub read_length : List ℕ → Prefix × List ℕ
read_length [] = (l_none, [])
read_length (c ∷ fmt) =
    if c == 104
    then length_ext l_h fmt
    else if c == 108
    then length_ext l_l fmt
    else if c == 106
    then (l_j, fmt)
    else if c == 122
    then (l_z, fmt)
    else if c == 116
    then (l_t, fmt)
    else if c == 76
    then (l_double, fmt)
    else (l_none, c ∷ fmt)

-- The rows of `lookup`: the types of %d and %i, of %o, %x and %u, and the others.
abbrev pub integers : (c : ℕ) → (signed unsigned : ArgType) → Option ArgType → Option ArgType
integers c signed unsigned others =
    if c == 100 || c == 105
    then some signed
    else if c == 111 || (c == 120 || c == 117)
    then some unsigned
    else if c == 110
    then some ptr
    else others

abbrev pub floats : (c : ℕ) → ArgType → Option ArgType
floats c t = if c == 102 || (c == 101 || (c == 97 || c == 103)) then some t else none

unfoldable pub lookup_type : Prefix → (c : ℕ) → Option ArgType
lookup_type l_none c =
    integers c int uint
      (if c == 99 then some int else if c == 115 || c == 112 then some ptr else floats c double)
lookup_type l_h c = integers c short ushort none
lookup_type l_hh c = integers c char uchar none
lookup_type l_l c = integers c long ulong (if c == 99 then some int else floats c double)
lookup_type l_ll c = integers c llong ullong none
lookup_type l_j c = integers c intmax uintmax none
lookup_type l_z c = integers c ssize size none
lookup_type l_t c = integers c ptrdiff uptrdiff none
lookup_type l_double c = floats c ldouble

abbrev pub or_plain : (c : ℕ) → Option ArgType → Option ArgType
or_plain c none = lookup_type l_none c
or_plain c (some t) = some t

-- The type for a conversion; outside of the letters the table is read out of bounds.
unfoldable pub type_of : Prefix → (c : ℕ) → Run (Option ArgType)
unfolding lookup_type
type_of p c =
    let index = if ltb c 97 then c + 32 else c in
    if leb 97 index && leb index 122 then ok (or_plain index (lookup_type p index)) else undefined

abbrev pub word_arg : (ℕ → ℕ) → List Arg → Run (Arg × List Arg)
word_arg f (number n ∷ args) = ok (number (f n), args)
word_arg f _ = undefined

-- `value` after the switch on the type; one that is passed over leaves it, and is not printed.
unfoldable pub read_value : ArgType → List Arg → Run (Arg × List Arg)
read_value int args = word_arg (sign_extend 32) args
read_value uint args = word_arg (λ n. n % 2 ^ 32) args
read_value char args = word_arg (sign_extend 8) args
read_value uchar args = word_arg (λ n. n % 2 ^ 8) args
read_value short args = word_arg (sign_extend 16) args
read_value ushort args = word_arg (λ n. n % 2 ^ 16) args
read_value ptr (text t ∷ args) = ok (text t, args)
read_value ptr _ = undefined
read_value double args = ok (number 0, args)
read_value ldouble args = ok (number 0, args)
read_value _ args = word_arg (λ n. n % 2 ^ 64) args
