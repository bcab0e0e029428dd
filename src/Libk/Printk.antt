-- ===== src/Libk/Printk.antt =====
-- Number printing of kernel/src/libk/printk.c over the byte memory of Libk.Memory. `str` is the
-- address of the buffer.
pub mod Reverse
pub mod Digits
pub mod Text
pub mod Value
pub mod Width
pub mod Format
use mathlib.Core.Option.{map}
use goofyos.Base.{
  ℕ, zero, suc, ◌+◌, ◌-◌, ◌*◌, ◌/◌, ◌%◌, ◌^◌, Bool, true, false, ◌&&◌, Option, none, some, List, [],
  ◌∷◌, if◌then◌else◌, ltb, leb, ◌==◌,
}
use goofyos.Base.Int.{ℤ, pos, negsuc}
use goofyos.Libk.Memory.{Mem, write}

-- `while (start < end)`: swap the two bytes and step inwards, on fuel.
unfoldable pub reverse_loop : ℕ → ℕ → ℕ → ℕ → Mem → Mem
reverse_loop zero str start end m = m
reverse_loop (suc fuel) str start end m =
    let temp : ℕ = m (str + start) in
    let m₁ : Mem = write m (str + start) (m (str + end)) in
    let m₂ : Mem = write m₁ (str + end) temp in
    let rest : Mem = reverse_loop fuel str (start + 1) (end - 1) m₂ in
    if ltb start end then rest else m

-- For a length of 0 the source's `end` is -1, and here it is 0: the loop is not entered either way.
unfoldable pub reverse : ℕ → ℕ → Mem → Mem
reverse str length m = reverse_loop length str 0 (length - 1) m

-- `(rem > 9) ? (rem - 10) + (capital ? 'A' : 'a') : rem + '0'`
unfoldable pub digit_char : Bool → ℕ → ℕ
digit_char capital rem =
    if ltb 9 rem then (rem - 10) + (if capital then b'A' else b'a') else rem + b'0'

-- `while (num != 0)`: the new memory and the new `i`, on fuel.
unfoldable pub put_digits : ℕ → ℕ → ℕ → Bool → ℕ → ℕ → Mem → Mem × ℕ
put_digits zero num base capital str i m = (m, i)
put_digits (suc fuel) num base capital str i m =
    let rest : Mem × ℕ =
      put_digits fuel (num / base) base capital str (i + 1)
        (write m (str + i) (digit_char capital (num % base))) in
    if num == 0 then (m, i) else rest

-- What follows the loop over the digits.
unfoldable pub finish : ℕ → Mem × ℕ → Mem
finish str (m, i) = write (reverse str i m) (str + i) 0

unfoldable pub ltoa : ℕ → ℕ → ℕ → Bool → Mem → Mem
ltoa num str base capital m =
    if num == 0
    then write (write m str b'0') (str + 1) 0
    else finish str (put_digits num num base capital str 0 m)

-- The absolute value, with `num = -num` for a negative `int`. `none` is the overflow at the least one,
-- -2 ^ 31, whose negative is no `int`: that is undefined.
unfoldable pub magnitude : ℤ → Option ℕ
magnitude (pos n) = some n
magnitude (negsuc n) = if ltb (n + 1) (2 ^ 31) then some (n + 1) else none

unfoldable pub is_negative : ℤ → Bool
is_negative (pos n) = false
is_negative (negsuc n) = true

-- `if (isNegative) str[i++] = '-';`
unfoldable pub put_sign : Bool → ℕ → Mem × ℕ → Mem × ℕ
put_sign false str r = r
put_sign true str (m, i) = (write m (str + i) b'-', i + 1)

-- itoa behind the negation, for the absolute value `n`.
unfoldable pub put_int : ℤ → ℕ → ℕ → Bool → Mem → ℕ → Mem
put_int num str base capital m n =
    if n == 0
    then write (write m str b'0') (str + 1) 0
    else finish str
        (put_sign (is_negative num && (base == 10)) str (put_digits n n base capital str 0 m))

-- `none` is undefined.
unfoldable pub itoa : ℤ → ℕ → ℕ → Bool → Mem → Option Mem
itoa num str base capital m = map (put_int num str base capital m) (magnitude num)
