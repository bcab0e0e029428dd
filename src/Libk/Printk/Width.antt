-- ===== src/Libk/Printk/Width.antt =====
-- The field width of a format in kernel/src/libk/printk.c. A string is the list of its bytes up to
-- the NUL.
use goofyos.Base.{
  ℕ, ◌+◌, ◌-◌, ◌*◌, ◌%◌, ◌^◌, ◌≤◌, ◌<◌, ltb, lt→ltb, ◌≡◌, refl, Bool, true, false, ◌&&◌, List, [],
  ◌∷◌, ◌++◌, arith, leb, if◌then◌else◌, All,
}

abbrev pub is_digit : ℕ → Bool
is_digit c = leb b'0' c && leb c b'9'

-- `wd += wd * 10 + (*fmt - '0')` on the 32 bits of an `int`, which wrap round, and what follows the
-- digits.
unfoldable pub parse_width_from : ℕ → List ℕ → ℕ × List ℕ
parse_width_from wd [] = (wd, [])
parse_width_from wd (c ∷ fmt) =
    if is_digit c
    then parse_width_from ((wd + (wd * 10 + (c - b'0'))) % 2 ^ 32) fmt
    else (wd, c ∷ fmt)

-- A width that has become negative asks for no spaces, as 0 does.
abbrev pub not_negative : ℕ → ℕ
not_negative wd = if ltb wd (2 ^ 31) then wd else 0

unfoldable pub parse_width : List ℕ → ℕ × List ℕ
parse_width fmt = let (wd, rest) = parse_width_from 0 fmt in (not_negative wd, rest)

-- A string of digits read in a base.
abbrev pub in_base : ℕ → ℕ → List ℕ → ℕ
in_base base acc [] = acc
in_base base acc (c ∷ cs) = in_base base (acc * base + (c - b'0')) cs

-- No digit stands in front.
abbrev pub NoDigit : List ℕ → Type 0
NoDigit [] = Unit
NoDigit (c ∷ cs) = is_digit c ≡ false

in_base-le : (acc : ℕ) (digits : List ℕ) → acc ≤ in_base 11 acc digits
in_base-le acc [] = omega arith
in_base-le acc (c ∷ digits) =
    let more = in_base-le (acc * 11 + (c - b'0')) digits in omega (arith, more)

parse_width_from_lem :
    (wd : ℕ) (digits rest : List ℕ)
    → All (λ c. is_digit c ≡ true) digits
    → NoDigit rest
    → in_base 11 wd digits < 2 ^ 31
    → parse_width_from wd (digits ++ rest) ≡ (in_base 11 wd digits, rest)
unfolding parse_width_from
parse_width_from_lem wd [] [] d n s = refl
parse_width_from_lem wd [] (c ∷ rest) d n s = rw n
parse_width_from_lem wd (c ∷ digits) rest d n s =
    let more = in_base-le (wd * 11 + (c - b'0')) digits in
    let e : (wd + (wd * 10 + (c - b'0'))) % 2 ^ 32 ≡ wd * 11 + (c - b'0') =
      omega (arith, more, s) in
    rw (d.0, e) (parse_width_from_lem (wd * 11 + (c - b'0')) digits rest d.1 n s)

-- parse_width consumes the digits in front and no more, and reads them in base 11, if that is below
-- 2 ^ 31.
pub parse_width_lem :
    (digits rest : List ℕ)
    → All (λ c. is_digit c ≡ true) digits
    → NoDigit rest
    → in_base 11 0 digits < 2 ^ 31
    → parse_width (digits ++ rest) ≡ (in_base 11 0 digits, rest)
unfolding parse_width
parse_width_lem digits rest d n s =
    rw (parse_width_from_lem 0 digits rest d n s, lt→ltb (in_base 11 0 digits) (2 ^ 31) s) refl
