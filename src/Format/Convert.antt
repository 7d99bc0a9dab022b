-- ===== src/Format/Convert.antt =====
-- The conversions of kernel/src/lib/format.c, and the loop over the format.
use elysium_os.Base.{
  ℕ, zero, suc, ◌-◌, ◌%◌, ◌^◌, Bool, true, false, ◌&&◌, ◌||◌, List, [], ◌∷◌, ◌++◌, Option, none,
  some, length, take, min, leb, ◌==◌, if◌then◌else◌, Run, ok, panic, undefined, ◌>>=◌,
}
use elysium_os.Format.{Style, plain, Prefix, ArgType, Arg, number, text, Directive, spaces}
use elysium_os.Format.Number.{Number, print_number}
use elysium_os.Format.Parse.{
  read_flags, read_width, read_precision, read_length, type_of, read_value,
}

-- A body of so many characters, filled up on one side.
abbrev pub padded : Directive → (n : ℕ) → List ℕ → List ℕ
padded d n body =
    if d.style.left then body ++ spaces (d.width - n) else (spaces (d.width - n) ++ body)

abbrev pub text_length : Option ℕ → ℕ → ℕ
text_length none n = n
text_length (some p) n = min p n

-- `if(precision < 0) precision = 1;`
abbrev pub precision_of : Option ℕ → ℕ
precision_of none = 1
precision_of (some p) = p

abbrev pub number_of : Directive → Style → (value radix : ℕ) → (lead : List ℕ) → Number
number_of d style value radix lead = record {
  style = style;
  width = d.width;
  precision = precision_of d.precision;
  value = value;
  negative = false;
  radix = radix;
  lead = lead;
}

-- 'x' and 'X'
abbrev pub hexadecimal : Directive → (uppercase : Bool) → ℕ → Number
hexadecimal d uppercase n =
    number_of d (record d.style { uppercase = uppercase; no_prefix_on_zero = true }) n 16
      (if d.style.alternative then 48 ∷ (if uppercase then 88 else 120) ∷ [] else [])

abbrev pub octal : Directive → ℕ → Number
octal d n =
    number_of d (record d.style { leading_zero = d.style.alternative; no_prefix_on_zero = true }) n
      8 []

abbrev pub unsigned : Directive → ℕ → Number
unsigned d n = number_of d d.style n 10 []

-- lbl_print_signed_number, for 'd' and 'i'
abbrev pub signed : Directive → ℕ → Number
signed d n =
    let lead = if d.style.sign then 43 ∷ [] else if d.style.space then 32 ∷ [] else [] in
    if leb (2 ^ 63) n
    then record (number_of d d.style (2 ^ 64 - n) 10 lead) { negative = true }
    else number_of d d.style n 10 lead

-- The switch on the conversion; `none` is lbl_invalid.
unfoldable pub convert_number : Directive → (c n : ℕ) → Option (List ℕ)
convert_number d c n =
    if c == 99
    then some (padded d 1 (n % 256 ∷ []))
    else if c == 88
    then some (print_number (hexadecimal d true n))
    else if c == 120
    then some (print_number (hexadecimal d false n))
    else if c == 117
    then some (print_number (unsigned d n))
    else if c == 111
    then some (print_number (octal d n))
    else if c == 100 || c == 105
    then some (print_number (signed d n))
    else none

abbrev pub convert : Directive → (c : ℕ) → Arg → Option (List ℕ)
convert d c (number n) = convert_number d c n
convert d c (text t) =
    if c == 115
    then some (
        padded d (text_length d.precision (length t)) (take (text_length d.precision (length t)) t))
    else none

-- What becomes of a directive: the format ends in it, it is none, or it is printed.
pub data DirectiveStep : Type 0 where
  finished : DirectiveStep
  invalid : List Arg → DirectiveStep
  printed : (out fmt : List ℕ) → List Arg → DirectiveStep

abbrev pub converted : List ℕ → List Arg → Option (List ℕ) → DirectiveStep
converted fmt args none = invalid args
converted fmt args (some out) = printed out fmt args

abbrev pub typed : Directive → (c : ℕ) → List ℕ → List Arg → Option ArgType → Run DirectiveStep
typed d c fmt args none = ok (invalid args)
typed d c fmt args (some t) =
    read_value t args >>= λ v. ok (converted fmt (v.1) (convert d c (v.0)))

-- lbl_modifiers and what follows; at the end of the format the table is read out of bounds.
abbrev pub modifiers :
    Style → (width : ℕ) → Option ℕ → List Arg → Prefix × List ℕ → Run DirectiveStep
modifiers s width precision args (p, []) = undefined
modifiers s width precision args (p, c ∷ fmt) =
    type_of p c
    >>= typed (record { style = s; width = width; precision = precision; length_prefix = p }) c fmt
        args

abbrev pub is_none : {A : Type 0} → Option A → Bool
is_none none = true
is_none (some a) = false

abbrev pub after_precision :
    Style → (width : ℕ) → Option (Option ℕ × List ℕ × List Arg) → Run DirectiveStep
after_precision s width none = ok finished
after_precision s width (some (precision, fmt, args)) =
    modifiers (record s { zero = s.zero && is_none precision }) width precision args
      (read_length fmt)

abbrev pub after_width : Option (Style × ℕ × List ℕ × List Arg) → Run DirectiveStep
after_width none = ok finished
after_width (some (s, width, fmt, args)) = read_precision fmt args >>= after_precision s width

abbrev pub after_flags : List Arg → Option (Style × List ℕ) → Run DirectiveStep
after_flags args none = ok finished
after_flags args (some (s, fmt)) = read_width s fmt args >>= after_width

-- From lbl_flags on.
unfoldable pub directive : List ℕ → List Arg → Run DirectiveStep
directive fmt args = after_flags args (read_flags plain fmt)

abbrev pub emit : List ℕ → Run (List ℕ) → Run (List ℕ)
emit out m = m >>= λ rest. ok (out ++ rest)

-- An invalid directive prints its '%', and goes on behind that.
abbrev pub go_on :
    (List ℕ → List Arg → Run (List ℕ)) → (fallback : List ℕ) → DirectiveStep → Run (List ℕ)
go_on loop fallback finished = ok []
go_on loop fallback (invalid args) = emit (37 ∷ []) (loop fallback args)
go_on loop fallback (printed out fmt args) = emit out (loop fmt args)

-- lbl_normal; a round takes a character at least.
unfoldable pub format_loop : (rounds : ℕ) → (fmt : List ℕ) → List Arg → Run (List ℕ)
format_loop zero fmt args = panic
format_loop (suc rounds) [] args = ok []
format_loop (suc rounds) (c ∷ []) args = if c == 37 then ok [] else ok (c ∷ [])
format_loop (suc rounds) (c ∷ d ∷ fmt) args =
    let next = format_loop rounds (d ∷ fmt) args in
    let behind = format_loop rounds fmt args in
    if c == 37
    then if d == 37
      then emit (37 ∷ []) behind
      else (directive (d ∷ fmt) args >>= go_on (format_loop rounds) (d ∷ fmt))
    else emit (c ∷ []) next

-- The characters that are written.
unfoldable pub format : (fmt : List ℕ) → List Arg → Run (List ℕ)
format fmt args = format_loop (suc (length fmt)) fmt args
