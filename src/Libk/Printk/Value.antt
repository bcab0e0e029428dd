-- ===== src/Libk/Printk/Value.antt =====
-- The number that a text of kernel/src/libk/printk.c stands for, and the room that the text takes.
use mathlib.Core.List
use native.Mathlib.Nat.{pow-suc, one-le-pow}
use goofyos.Base.{
  ℕ, zero, suc, ◌+◌, ◌-◌, ◌*◌, ◌/◌, ◌%◌, ◌^◌, ◌≤◌, ◌<◌, ◌≡◌, ◌∙◌, refl, sym, ap, Bool, false, [],
  ◌∷◌, ◌++◌, arith, inl, inr, length, Bool-cases, if◌then◌else◌, leb, ◌==◌, ==→eq,
}
use goofyos.Libk.Bytes.{length-reverse, CString-end, CString}
use goofyos.Libk.Memory.{Mem}
use goofyos.Libk.Memory.Copy.{IsBytes}
use goofyos.Libk.Printk.{digit_char, ltoa}
use goofyos.Libk.Printk.Text.{ltoa_lem}
use goofyos.Libk.Printk.Digits.{digits_of, number_text}

-- A digit of either case, as a reader takes it.
abbrev pub digit_value : ℕ → ℕ
digit_value c = if leb b'a' c then c - 87 else if leb b'A' c then c - 55 else c - b'0'

abbrev pub number_from : ℕ → ℕ → List.List ℕ → ℕ
number_from base acc [] = acc
number_from base acc (c ∷ cs) = number_from base (acc * base + digit_value c) cs

digit_value-digit_char :
    (capital : Bool) (rem : ℕ) → rem < 36 → digit_value (digit_char capital rem) ≡ rem
unfolding digit_char
digit_value-digit_char capital rem h = ground arith

number_from-append :
    (base acc c : ℕ) (xs : List.List ℕ)
    → number_from base acc (xs ++ c ∷ []) ≡ number_from base acc xs * base + digit_value c
number_from-append base acc c [] = refl
number_from-append base acc c (x ∷ xs) = number_from-append base (acc * base + digit_value x) c xs

small : (base n : ℕ) → 2 ≤ base → base ≤ 36 → n % base < 36
small base n lo hi = omega arith

smaller : (base n f : ℕ) → 2 ≤ base → n ≤ suc f → (n == 0) ≡ false → n / base ≤ f
smaller base n f lo h nz = grind arith

-- Reading the digits that were put, the highest first, gives the number back.
digits_of-value :
    (base : ℕ) (capital : Bool) (fuel num : ℕ)
    → 2 ≤ base
    → base ≤ 36
    → num ≤ fuel
    → number_from base 0 (List.reverse (digits_of fuel num base capital)) ≡ num
unfolding digits_of
digits_of-value base capital zero num lo hi h = omega arith
digits_of-value base capital (suc fuel) num lo hi h = elim (Bool-cases (num == 0)) [
  | inl z ↦ rw z (sym (==→eq num 0 z))
  | inr nz ↦ rw nz (
      rw
        (List.reverse-cons (digit_char capital (num % base))
          (digits_of fuel (num / base) base capital))
        (number_from-append base 0 _ (List.reverse (digits_of fuel (num / base) base capital))
          ∙ rw
              (
                digits_of-value base capital fuel (num / base) lo hi
                    (smaller base num fuel lo h nz),
                digit_value-digit_char capital (num % base) (small base num lo hi),
              )
              (omega arith)))
]

-- The text of a number, read in its base, is the number.
pub number_text-value :
    (base : ℕ) (capital : Bool) (num : ℕ)
    → 2 ≤ base
    → base ≤ 36
    → number_from base 0 (number_text base capital num) ≡ num
unfolding number_text
number_text-value base capital num lo hi = elim (Bool-cases (num == 0)) [
  | inl z ↦ rw z (omega (arith, ==→eq num 0 z))
  | inr nz ↦ rw nz (digits_of-value base capital num num lo hi (omega arith))
]

-- ltoa leaves a string at `str` that, read in the base of 2 to 36, is the number.
pub ltoa-value :
    (base : ℕ) (capital : Bool) (str num : ℕ) (m : Mem)
    → 2 ≤ base
    → base ≤ 36
    → IsBytes m
    → (text : List.List ℕ) × CString (ltoa num str base capital m) str text
      × (number_from base 0 text ≡ num)
ltoa-value base capital str num m lo hi h = (
  number_text base capital num,
  (ltoa_lem base capital str lo hi num m h).string,
  number_text-value base capital num lo hi,
)

digits_of-zero : (capital : Bool) (fuel : ℕ) → digits_of fuel 0 16 capital ≡ []
unfolding digits_of
digits_of-zero capital zero = refl
digits_of-zero capital (suc fuel) = refl

digits_of-suc :
    (capital : Bool) (fuel num : ℕ)
    → 0 < num
    → length (digits_of (suc fuel) num 16 capital)
      ≡ suc (length (digits_of fuel (num / 16) 16 capital))
unfolding digits_of
digits_of-suc capital fuel num p = elim (Bool-cases (num == 0)) [
  | inl z ↦ absurd (omega (arith, ==→eq num 0 z))
  | inr nz ↦ rw nz
]

-- How many hexadecimal digits a number has.
digits_of-length :
    (capital : Bool) (k fuel num : ℕ)
    → num ≤ fuel
    → 16 ^ k ≤ num
    → num < 16 ^ suc k
    → length (digits_of fuel num 16 capital) ≡ suc k
digits_of-length capital k zero num h lo hi = absurd (omega (arith, one-le-pow k 16))
digits_of-length capital zero (suc fuel) num h lo hi =
    let none_left : num / 16 ≡ 0 = omega (arith, pow-suc 16 0) in
    digits_of-suc capital fuel num (omega arith) ∙ rw (none_left, digits_of-zero)
digits_of-length capital (suc k) (suc fuel) num h lo hi =
    digits_of-suc capital fuel num (omega (arith, one-le-pow (suc k) 16))
    ∙ ap suc (
        digits_of-length capital k fuel (num / 16) (omega (arith, one-le-pow (suc k) 16))
          (omega (arith, pow-suc 16 k)) (omega (arith, pow-suc 16 (suc k))))

-- A number with `k + 1` hexadecimal digits takes `k + 1` bytes and the NUL: from 2 ^ 60 on the NUL
-- of ltoa stands at index 16, behind the end of the 16-byte buffer that `%p` passes.
pub number_text-length :
    (capital : Bool) (k num : ℕ)
    → 16 ^ k ≤ num
    → num < 16 ^ suc k
    → length (number_text 16 capital num) ≡ suc k
unfolding number_text
number_text-length capital k num lo hi = elim (Bool-cases (num == 0)) [
  | inl z ↦ absurd (omega (arith, ==→eq num 0 z, one-le-pow k 16))
  | inr nz ↦ rw nz (
      length-reverse (digits_of num num 16 capital)
      ∙ digits_of-length capital k num num (omega arith) lo hi)
]

-- ltoa in base 16 overruns the 16-byte `numbuf` of `%p` at every number from 2 ^ 60 to 2 ^ 64 - 1:
-- the byte behind the buffer becomes 0, whatever it was.
pub ltoa_overrun :
    (capital : Bool) (num numbuf : ℕ) (m : Mem)
    → IsBytes m
    → 2 ^ 60 ≤ num
    → num < 2 ^ 64
    → ltoa num numbuf 16 capital m (numbuf + 16) ≡ 0
ltoa_overrun capital num numbuf m h lo hi = rw (number_text-length capital 15 num lo hi) at (
    CString-end _ numbuf (number_text 16 capital num)
      (ltoa_lem 16 capital numbuf (omega arith) (omega arith) num m h).string)
