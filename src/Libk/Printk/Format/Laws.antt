-- ===== src/Libk/Printk/Format/Laws.antt =====
-- What _vsprintf of kernel/src/libk/printk.c prints for a format, and that it ends.
use mathlib.Core.List
use native.Mathlib.Nat.{zero-add}
use goofyos.Base.{
  ℕ, zero, suc, ◌+◌, ◌-◌, ◌*◌, ◌≤◌, ◌<◌, ◌≡◌, ◌≢◌, ◌∙◌, refl, sym, ap, true, false, [], ◌∷◌, ◌++◌,
  Option, none, some, ◌%◌, ◌^◌, Bool, lt→ltb, take, replicate, arith, inl, inr, Bool-cases, ◌==◌,
  length, All,
}
use goofyos.Base.Int.{ℤ, abs}
use goofyos.Libk.Printk.Digits.{number_text}
use goofyos.Libk.Printk.Text.{integer_text, magnitude-abs}
use goofyos.Libk.Printk.Width.{parse_width, parse_width_from, is_digit, in_base, parse_width_lem}
use goofyos.Libk.Printk.Format.{
  Arg, string, character, integer, pointer, strnlen, put_string, put_character, put_integer,
  put_pointer, Printed, done, overrun, bad_args, out_of_fuel, emit, convert, converted, directive,
  _vsprintf,
}

emit-emit : (xs ys : List.List ℕ) (r : Printed) → emit (xs ++ ys) r ≡ emit xs (emit ys r)
emit-emit xs ys (done zs) = ap done (List.append_assoc xs ys zs)
emit-emit xs ys overrun = refl
emit-emit xs ys bad_args = refl
emit-emit xs ys out_of_fuel = refl

emit-nil : (r : Printed) → r ≡ emit [] r
emit-nil (done zs) = refl
emit-nil overrun = refl
emit-nil bad_args = refl
emit-nil out_of_fuel = refl

suc_plus : (a b : ℕ) → suc a + b ≡ suc (a + b)
suc_plus a b = omega arith

_vsprintf_plain :
    (fuel c : ℕ) (fmt : List.List ℕ) (args : List.List Arg)
    → (c == b'%') ≡ false
    → _vsprintf (suc fuel) (c ∷ fmt) args ≡ emit (c ∷ []) (_vsprintf fuel fmt args)
unfolding _vsprintf
_vsprintf_plain fuel c fmt args h = rw h

_vsprintf_text :
    (p fmt : List.List ℕ) (fuel : ℕ) (args : List.List Arg)
    → All (λ c. (c == b'%') ≡ false) p
    → _vsprintf (length p + fuel) (p ++ fmt) args ≡ emit p (_vsprintf fuel fmt args)
_vsprintf_text [] fmt fuel args h = rw zero-add (emit-nil _)
_vsprintf_text (c ∷ p) fmt fuel args h = rw (suc_plus (length p) fuel) (
    _vsprintf_plain (length p + fuel) c (p ++ fmt) args h.0
    ∙ (ap (emit (c ∷ [])) (_vsprintf_text p fmt fuel args h.1) ∙ sym (emit-emit (c ∷ []) p _)))

_vsprintf_special :
    (fuel : ℕ) (fmt : List.List ℕ) (args : List.List Arg)
    → _vsprintf (suc fuel) (b'%' ∷ fmt) args ≡ directive (parse_width fmt) args (_vsprintf fuel)
unfolding _vsprintf
_vsprintf_special fuel fmt args = refl

-- Which text a letter has for an argument, before it is brought to the width: at most 1024 bytes of a
-- string, the low byte of a character, the digits of an int, whose negation does not overflow, and `0x`
-- with at most 15 digits of a pointer.
pub data Shows : ℕ → Arg → List.List ℕ → Type 0 where
  as_string : (s : List.List ℕ) → Shows b's' (string s) (take 1024 s)
  as_character : (k : ℕ) → Shows b'c' (character k) ((k % 256) ∷ [])
  as_decimal : (n : ℤ) → abs n < 2 ^ 31 → Shows b'd' (integer n) (integer_text 10 false n)
  as_lower : (n : ℤ) → abs n < 2 ^ 31 → Shows b'x' (integer n) (integer_text 16 false n)
  as_upper : (n : ℤ) → abs n < 2 ^ 31 → Shows b'X' (integer n) (integer_text 16 true n)
  as_pointer :
      (p : ℕ)
      → length (number_text 16 true p) < 16
      → Shows b'p' (pointer p) (b'0' ∷ b'x' ∷ number_text 16 true p)

-- The text behind as many spaces as it is shorter than the width.
abbrev pub right_aligned : ℕ → List.List ℕ → List.List ℕ
right_aligned width text = replicate (width - length text) b' ' ++ text

strnlen_lem :
    (s : List.List ℕ) (count : ℕ)
    → (take (strnlen s count) s ≡ take count s) × (length (take count s) ≡ strnlen s count)
unfolding strnlen
strnlen_lem s zero = (refl, refl)
strnlen_lem [] (suc count) = (refl, refl)
strnlen_lem (c ∷ s) (suc count) =
    let (same, long) = strnlen_lem s count in (ap (λ l. c ∷ l) same, ap suc long)

put_integer_lem :
    (base width : ℕ) (capital : Bool) (n : ℤ) (args : List.List Arg)
    → abs n < 2 ^ 31
    → put_integer base capital width (integer n ∷ args)
      ≡ some (right_aligned width (integer_text base capital n), args)
unfolding put_integer
put_integer_lem base width capital n args h = rw (magnitude-abs n h) refl

put_pointer_lem :
    (width p : ℕ) (args : List.List Arg)
    → length (number_text 16 true p) < 16
    → put_pointer width (pointer p ∷ args)
      ≡ some (right_aligned width (b'0' ∷ b'x' ∷ number_text 16 true p), args)
unfolding put_pointer
put_pointer_lem width p args h =
    let l : ℕ = length (number_text 16 true p) in
    let e : width - 2 - l ≡ width - suc (suc l) = omega arith in rw (lt→ltb l 16 h, e) refl

convert-Shows :
    (width c : ℕ) (a : Arg) (text : List.List ℕ) (args : List.List Arg)
    → Shows c a text
    → convert width c (a ∷ args) ≡ some (right_aligned width text, args)
unfolding convert put_string put_character
convert-Shows width c a text args (as_string s) =
    let (same, long) = strnlen_lem s 1024 in rw (same, long) refl
convert-Shows width c a text args (as_character k) = refl
convert-Shows width c a text args (as_decimal n h) = put_integer_lem 10 width false n args h
convert-Shows width c a text args (as_lower n h) = put_integer_lem 16 width false n args h
convert-Shows width c a text args (as_upper n h) = put_integer_lem 16 width true n args h
convert-Shows width c a text args (as_pointer p h) = put_pointer_lem width p args h

-- A text without `%` is printed as it stands. A directive behind it, a width of digits that is below
-- 2 ^ 31 in base 11 and one of the letters s, c, d, x, X and p, prints the text of the next argument that
-- the letter says, behind the spaces that bring it to the width, which is read in base 11. The rest of
-- the format follows with the other arguments. A character is cut to a byte, a string to 1024 bytes, an
-- integer is an int but not the least, and a pointer has at most 15 digits.
pub _vsprintf_directive :
    (p digits fmt : List.List ℕ) (c fuel : ℕ) (a : Arg) (text : List.List ℕ) (args : List.List Arg)
    → All (λ c. (c == b'%') ≡ false) p
    → All (λ c. is_digit c ≡ true) digits
    → in_base 11 0 digits < 2 ^ 31
    → Shows c a text
    → _vsprintf (length p + suc fuel) (p ++ (b'%' ∷ (digits ++ (c ∷ fmt)))) (a ∷ args)
      ≡ emit (p ++ right_aligned (in_base 11 0 digits) text) (_vsprintf fuel fmt args)
_vsprintf_directive p digits fmt c fuel a text args h d w shows =
    let width : ℕ = in_base 11 0 digits in
    _vsprintf_text p (b'%' ∷ (digits ++ (c ∷ fmt))) (suc fuel) (a ∷ args) h
    ∙ ap (emit p) (
        _vsprintf_special fuel (digits ++ (c ∷ fmt)) (a ∷ args)
        ∙ rw
            (
              parse_width_lem digits (c ∷ fmt) d (letter c a text shows) w,
              convert-Shows width c a text args shows,
            )
            refl)
    ∙ sym (emit-emit p (right_aligned width text) (_vsprintf fuel fmt args))
  where
    letter : (c : ℕ) (a : Arg) (text : List.List ℕ) → Shows c a text → is_digit c ≡ false
    letter c a text (as_string s) = refl
    letter c a text (as_character k) = refl
    letter c a text (as_decimal n h) = refl
    letter c a text (as_lower n h) = refl
    letter c a text (as_upper n h) = refl
    letter c a text (as_pointer p h) = refl

Ends : Printed → Type 0
Ends r = r ≢ out_of_fuel

emit-Ends : (xs : List.List ℕ) (r : Printed) → Ends r → Ends (emit xs r)
unfolding Ends
emit-Ends xs (done ys) h e = cc
emit-Ends xs overrun h e = cc
emit-Ends xs bad_args h e = cc
emit-Ends xs out_of_fuel h e = h e

converted-Ends :
    (o : Option (List.List ℕ × List.List Arg)) (rest : List.List Arg → Printed)
    → ((args : List.List Arg) → Ends (rest args))
    → Ends (converted o rest)
converted-Ends none rest h = unfold Ends in λ e. cc
converted-Ends (some (out, args)) rest h = emit-Ends out (rest args) (h args)

directive-Ends :
    (width : ℕ) (tail : List.List ℕ) (args : List.List Arg)
    (rest : List.List ℕ → List.List Arg → Printed)
    → ((fmt : List.List ℕ) (args : List.List Arg) → length fmt < length tail → Ends (rest fmt args))
    → Ends (directive (width, tail) args rest)
directive-Ends width [] args rest h = unfold Ends in λ e. cc
directive-Ends width (c ∷ fmt) args rest h =
    converted-Ends (convert width c args) (rest fmt) (λ a. h fmt a (omega arith))

parse_width_from-length :
    (wd : ℕ) (fmt : List.List ℕ) → length (parse_width_from wd fmt).1 ≤ length fmt
unfolding parse_width_from
parse_width_from-length wd [] = omega arith
parse_width_from-length wd (c ∷ fmt) =
    ground (arith, parse_width_from-length ((wd + (wd * 10 + (c - b'0'))) % 2 ^ 32) fmt)

parse_width-length : (fmt : List.List ℕ) → length (parse_width fmt).1 ≤ length fmt
unfolding parse_width
parse_width-length fmt = parse_width_from-length 0 fmt

_vsprintf-Ends :
    (fuel : ℕ) (fmt : List.List ℕ) (args : List.List Arg)
    → length fmt < fuel
    → Ends (_vsprintf fuel fmt args)
unfolding _vsprintf
_vsprintf-Ends zero fmt args h = absurd (omega arith)
_vsprintf-Ends (suc fuel) [] args h = unfold Ends in λ e. cc
_vsprintf-Ends (suc fuel) (c ∷ fmt) args h = elim (Bool-cases (c == b'%')) [
  | inr plain ↦ rw plain (emit-Ends (c ∷ []) _ (_vsprintf-Ends fuel fmt args (omega arith)))
  | inl special ↦ rw special (
      directive-Ends (parse_width fmt).0 (parse_width fmt).1 args (_vsprintf fuel)
        (λ f a k. _vsprintf-Ends fuel f a (omega (arith, parse_width-length fmt))))
]

-- The walk over a format ends: for a format of n bytes a fuel of n + 1 is enough.
pub _vsprintf_total :
    (fuel : ℕ) (fmt : List.List ℕ) (args : List.List Arg)
    → length fmt < fuel
    → _vsprintf fuel fmt args ≢ out_of_fuel
unfolding Ends
_vsprintf_total fuel fmt args h = _vsprintf-Ends fuel fmt args h
