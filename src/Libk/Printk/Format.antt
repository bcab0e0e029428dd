-- ===== src/Libk/Printk/Format.antt =====
-- _vsprintf of kernel/src/libk/printk.c. A string is the list of its bytes up to the NUL, and the
-- variadic arguments are a list. The texts of numbers are those that itoa and ltoa leave in `numbuf`.
pub mod Laws
use mathlib.Core.List
use mathlib.Core.Option.{map}
use goofyos.Base.{
  ℕ, zero, suc, ◌-◌, ◌%◌, Bool, true, false, [], ◌∷◌, ◌++◌, Option, none, some, ◌==◌, ltb,
  if◌then◌else◌, length, take, replicate,
}
use goofyos.Base.Int.{ℤ}
use goofyos.Libk.Printk.{magnitude}
use goofyos.Libk.Printk.Digits.{number_text}
use goofyos.Libk.Printk.Text.{integer_text}
use goofyos.Libk.Printk.Width.{parse_width}

pub data Arg : Type 0 where
  string : List.List ℕ → Arg
  character : ℕ → Arg
  integer : ℤ → Arg
  pointer : ℕ → Arg

-- `overrun` is a read behind the NUL of the format, and `bad_args` a missing or mistyped argument, an
-- `int` whose negation overflows, or a pointer that overruns `numbuf`, all undefined.
pub data Printed : Type 0 where
  done : List.List ℕ → Printed
  overrun bad_args out_of_fuel : Printed

abbrev pub emit : List.List ℕ → Printed → Printed
emit xs (done ys) = done (xs ++ ys)
emit xs overrun = overrun
emit xs bad_args = bad_args
emit xs out_of_fuel = out_of_fuel

abbrev pub spaces : ℕ → List.List ℕ
spaces n = replicate n b' '

-- `for (i = 0; i < width - strlen(numbuf); i++) *str++ = ' ';` and the copy of `numbuf`.
abbrev pub padded : ℕ → List.List ℕ → List.List ℕ
padded width text = spaces (width - length text) ++ text

-- `for (sc = s; count-- && *sc != '\\0'; ++sc);`
unfoldable pub strnlen : List.List ℕ → ℕ → ℕ
strnlen s zero = 0
strnlen [] (suc count) = 0
strnlen (c ∷ s) (suc count) = suc (strnlen s count)

-- The bytes for `%s`, `%c`, the numbers, and `%p`. A number's text and its NUL are in `numbuf`, of 16
-- bytes, which the digits of a pointer can overrun.
unfoldable pub put_string : ℕ → List.List Arg → Option (List.List ℕ × List.List Arg)
put_string width (string s ∷ args) =
    let len : ℕ = strnlen s 1024 in some (spaces (width - len) ++ take len s, args)
put_string width _ = none

unfoldable pub put_character : ℕ → List.List Arg → Option (List.List ℕ × List.List Arg)
put_character width (character c ∷ args) = some (spaces (width - 1) ++ (c % 256) ∷ [], args)
put_character width _ = none

unfoldable pub put_integer : ℕ → Bool → ℕ → List.List Arg → Option (List.List ℕ × List.List Arg)
put_integer base capital width (integer n ∷ args) =
    map (λ m. (padded width (integer_text base capital n), args)) (magnitude n)
put_integer base capital width _ = none

unfoldable pub put_pointer : ℕ → List.List Arg → Option (List.List ℕ × List.List Arg)
put_pointer width (pointer p ∷ args) =
    let text : List.List ℕ = number_text 16 true p in
    if ltb (length text) 16
    then some (spaces (width - 2 - length text) ++ (b'0' ∷ b'x' ∷ text), args)
    else none
put_pointer width _ = none

-- The `switch`. Another character prints nothing.
unfoldable pub convert : ℕ → ℕ → List.List Arg → Option (List.List ℕ × List.List Arg)
convert width c args =
    if c == b's'
    then put_string width args
    else if c == b'c'
    then put_character width args
    else if c == b'd'
    then put_integer 10 false width args
    else if c == b'x'
    then put_integer 16 false width args
    else if c == b'X'
    then put_integer 16 true width args
    else if c == b'p'
    then put_pointer width args
    else some ([], args)

abbrev pub converted : Option (List.List ℕ × List.List Arg) → (List.List Arg → Printed) → Printed
converted none rest = bad_args
converted (some (out, args)) rest = emit out (rest args)

-- What stands behind the `%` and its width.
abbrev pub directive :
    ℕ × List.List ℕ → List.List Arg → (List.List ℕ → List.List Arg → Printed) → Printed
directive (width, []) args rest = overrun
directive (width, c ∷ fmt) args rest = converted (convert width c args) (rest fmt)

-- On fuel: a directive takes as many bytes of the format as its width has digits.
unfoldable pub _vsprintf : ℕ → List.List ℕ → List.List Arg → Printed
_vsprintf zero fmt args = out_of_fuel
_vsprintf (suc fuel) [] args = done []
_vsprintf (suc fuel) (c ∷ fmt) args =
    let plain : Printed = emit (c ∷ []) (_vsprintf fuel fmt args) in
    let special : Printed = directive (parse_width fmt) args (_vsprintf fuel) in
    if c == b'%' then special else plain
