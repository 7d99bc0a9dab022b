-- ===== src/Format.antt =====
-- Formatted output, kernel/src/lib/format.c (init/src/format.c is a copy): the directives. What is
-- written to `out` is a list of characters, and its length is `count`. A text is the list of its
-- characters, without the 0 at its end.
pub mod Number
pub mod Parse
pub mod Convert
pub mod Digits
pub mod Left
pub mod Ends
pub mod Laws
pub mod Width
mod Tests
use elysium_os.Base.{
  ℕ, zero, suc, ◌+◌, ◌-◌, ◌%◌, ◌^◌, ◌≡◌, Bool, true, false, not, ◌&&◌, ◌||◌, List, [], ◌∷◌, ◌++◌,
  Option, none, some, length, replicate, take, ltb, leb, ◌==◌, if◌then◌else◌, Run, ok, panic,
  undefined, ◌>>=◌,
}

-- the FLAG_ bits
pub record Style : Type 0 where
  pub left : Bool
  pub sign : Bool
  pub space : Bool
  pub alternative : Bool
  pub zero : Bool
  pub uppercase : Bool
  pub leading_zero : Bool
  pub no_prefix_on_zero : Bool

abbrev pub plain : Style
plain = record {
  left = false;
  sign = false;
  space = false;
  alternative = false;
  zero = false;
  uppercase = false;
  leading_zero = false;
  no_prefix_on_zero = false;
}

-- Lnone and the others, of the length prefixes
pub data Prefix : Type 0 where
  l_none l_h l_hh l_l l_ll l_j l_z l_t l_double : Prefix

-- the types of arguments
pub data ArgType : Type 0 where
  int uint char uchar short ushort long ulong llong ullong ptr double ldouble intmax uintmax size
        ssize ptrdiff uptrdiff :
      ArgType

-- A variable argument: the word that is passed, or a pointer to a text.
pub data Arg : Type 0 where
  number : ℕ → Arg
  text : List ℕ → Arg

-- What a directive says; `precision` is `none` for -1.
pub record Directive : Type 0 where
  pub style : Style
  pub width : ℕ
  pub precision : Option ℕ
  pub length_prefix : Prefix

abbrev pub spaces : ℕ → List ℕ
spaces n = replicate n 32
