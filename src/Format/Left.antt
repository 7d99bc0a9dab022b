-- ===== src/Format/Left.antt =====
-- Reading the parts of a directive (kernel/src/lib/format.c) ends, and leaves no more of the format.
use elysium_os.Base.{
  ℕ, suc, ◌-◌, ◌+◌, ◌*◌, ◌^◌, ◌≤◌, Bool, true, false, List, [], ◌∷◌, Option, none, some, length,
  ltb, ◌==◌, if◌then◌else◌, Run, ok, panic, undefined, ◌>>=◌, arith,
}
use elysium_os.Format.{Style, Arg, number, text}
use elysium_os.Format.Parse.{
  read_flags, read_decimal, read_width, read_precision, int_arg, star_width, plain_width,
  plain_precision, precision_digits, is_digit,
}

-- A call that does not panic, and an answer of which `P` holds if there is one.
abbrev pub Ends {ℓ} : {A : Type ℓ} → (A → Type 0) → Run A → Type 0
Ends P (ok a) = P a
Ends P panic = ⊥
Ends P undefined = Unit

pub Ends-bind {ℓ κ} :
    {A : Type ℓ} {B : Type κ} (P : A → Type 0) (Q : B → Type 0) (m : Run A) (f : A → Run B)
    → Ends P m
    → ((a : A) → P a → Ends Q (f a))
    → Ends Q (m >>= f)
Ends-bind P Q (ok a) f h g = g a h
Ends-bind P Q panic f h g = h
Ends-bind P Q undefined f h g = tt

pub Ends-if {ℓ} :
    {A : Type ℓ} (P : A → Type 0) (b : Bool) (x y : Run A)
    → Ends P x
    → Ends P y
    → Ends P (if b then x else y)
Ends-if P true x y hx hy = hx
Ends-if P false x y hx hy = hy

-- What is left of the format is no longer than n.
abbrev pub Left : {A : Type 0} → ℕ → Option (A × List ℕ) → Type 0
Left n none = Unit
Left n (some (a, fmt)) = length fmt ≤ n

Left-if :
    {A : Type 0} (n : ℕ) (b : Bool) (x y : Option (A × List ℕ))
    → Left n x
    → Left n y
    → Left n (if b then x else y)
Left-if n true x y hx hy = hx
Left-if n false x y hx hy = hy

Left-suc : {A : Type 0} (n : ℕ) (x : Option (A × List ℕ)) → Left n x → Left (suc n) x
Left-suc n none h = tt
Left-suc n (some (a, fmt)) h = omega arith

Left-le : {A : Type 0} (m n : ℕ) (x : Option (A × List ℕ)) → m ≤ n → Left m x → Left n x
Left-le m n none le h = tt
Left-le m n (some (a, fmt)) le h = omega arith

pub read_flags-Left : (s : Style) (fmt : List ℕ) → Left (length fmt) (read_flags s fmt)
unfolding read_flags
read_flags-Left s [] = tt
read_flags-Left s (c ∷ fmt) =
    let on = λ (s : Style). Left-suc (length fmt) (read_flags s fmt) (read_flags-Left s fmt) in
    Left-if _ (c == 45) _ _ (on (record s { left = true })) (
      Left-if _ (c == 43) _ _ (on (record s { sign = true })) (
        Left-if _ (c == 32) _ _ (on (record s { space = true })) (
          Left-if _ (c == 35) _ _ (on (record s { alternative = true }))
            (Left-if _ (c == 48) _ _ (on (record s { zero = true })) (omega arith)))))

Ends-weaken :
    {A : Type 0} (P Q : A → Type 0) (m : Run A) → ((a : A) → P a → Q a) → Ends P m → Ends Q m
Ends-weaken P Q (ok a) f h = f a h
Ends-weaken P Q panic f h = h
Ends-weaken P Q undefined f h = tt

read_decimal-Ends : (fmt : List ℕ) (n : ℕ) → Ends (Left (length fmt)) (read_decimal n fmt)
unfolding read_decimal
read_decimal-Ends [] n = tt
read_decimal-Ends (c ∷ fmt) n =
    Ends-if (Left (length (c ∷ fmt))) (is_digit c) _ _
      (Ends-if (Left (length (c ∷ fmt))) (ltb (n * 10 + (c - 48)) (2 ^ 31)) _ _
        (Ends-weaken (Left (length fmt)) (Left (suc (length fmt)))
          (read_decimal (n * 10 + (c - 48)) fmt) (λ o h. Left-suc (length fmt) o h)
          (read_decimal-Ends fmt (n * 10 + (c - 48))))
        tt)
      (omega arith)

abbrev pub LeftWidth : ℕ → Option (Style × ℕ × List ℕ × List Arg) → Type 0
LeftWidth n none = Unit
LeftWidth n (some (s, w, fmt, args)) = length fmt ≤ n

abbrev pub LeftPrecision : ℕ → Option (Option ℕ × List ℕ × List Arg) → Type 0
LeftPrecision n none = Unit
LeftPrecision n (some (p, fmt, args)) = length fmt ≤ n

int_arg-Ends : (args : List Arg) → Ends (λ a. Unit) (int_arg args)
int_arg-Ends [] = tt
int_arg-Ends (number n ∷ args) = tt
int_arg-Ends (text t ∷ args) = tt

star_width-Ends :
    (s : Style) (fmt : List ℕ) (a : ℕ × List Arg) (n : ℕ)
    → length fmt ≤ n
    → Ends (LeftWidth n) (star_width s fmt a)
star_width-Ends s fmt (k, args) n h =
    Ends-if (LeftWidth n) (ltb k (2 ^ 31)) _ _ h (Ends-if (LeftWidth n) (k == 2 ^ 31) _ _ tt h)

plain_width-Left :
    (n : ℕ) (s : Style) (args : List Arg) (o : Option (ℕ × List ℕ))
    → Left n o
    → LeftWidth n (plain_width s args o)
plain_width-Left n s args none h = tt
plain_width-Left n s args (some (k, fmt)) h = h

pub read_width-Ends :
    (s : Style) (fmt : List ℕ) (args : List Arg) (n : ℕ)
    → length fmt ≤ n
    → Ends (LeftWidth n) (read_width s fmt args)
unfolding read_width
read_width-Ends s [] args n h = tt
read_width-Ends s (c ∷ fmt) args n h =
    Ends-if (LeftWidth n) (c == 42) _ _
      (Ends-bind (λ a. Unit) (LeftWidth n) (int_arg args) _ (int_arg-Ends args)
        (λ a u. star_width-Ends s fmt a n (omega (arith, h))))
      (Ends-bind (Left (length (c ∷ fmt))) (LeftWidth n) (read_decimal 0 (c ∷ fmt)) _
        (read_decimal-Ends (c ∷ fmt) 0)
        (λ o l. plain_width-Left n s args o (Left-le (length (c ∷ fmt)) n o h l)))

plain_precision-Left :
    (n : ℕ) (args : List Arg) (o : Option (ℕ × List ℕ))
    → Left n o
    → LeftPrecision n (plain_precision args o)
plain_precision-Left n args none h = tt
plain_precision-Left n args (some (k, fmt)) h = h

precision_digits-Ends :
    (fmt : List ℕ) (args : List Arg) (n : ℕ)
    → length fmt ≤ n
    → Ends (LeftPrecision n) (precision_digits fmt args)
precision_digits-Ends [] args n h = tt
precision_digits-Ends (c ∷ fmt) args n h =
    Ends-if (LeftPrecision n) (c == 42) _ _
      (Ends-bind (λ a. Unit) (LeftPrecision n) (int_arg args) _ (int_arg-Ends args)
        (λ a u. omega (arith, h)))
      (Ends-bind (Left (length (c ∷ fmt))) (LeftPrecision n) (read_decimal 0 (c ∷ fmt)) _
        (read_decimal-Ends (c ∷ fmt) 0)
        (λ o l. plain_precision-Left n args o (Left-le (length (c ∷ fmt)) n o h l)))

pub read_precision-Ends :
    (fmt : List ℕ) (args : List Arg) (n : ℕ)
    → length fmt ≤ n
    → Ends (LeftPrecision n) (read_precision fmt args)
unfolding read_precision
read_precision-Ends [] args n h = h
read_precision-Ends (c ∷ fmt) args n h =
    Ends-if (LeftPrecision n) (c == 46) _ _ (precision_digits-Ends fmt args n (omega (arith, h))) h
