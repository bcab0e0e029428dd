-- ===== src/Base/Bits.antt =====
-- The bit operations on native numbers at variables: exclusive or a digit at a time, that the same
-- mask twice changes nothing, that an empty mask clears all, and that an inclusive or with bits below
-- the number's last one is a sum.
use Prim.Native.Nat.{
  ℕ, zero, suc, ◌+◌, ◌*◌, ◌/◌, ◌%◌, ◌≤◌, ◌<◌, bit_xor, digits, differ, bit_xor-bitwise, bit_and,
  bit_and-bitwise, min, max, bit_or, bit_or-bitwise, ◌^◌,
}
use mathlib.Core.Path.{◌≡◌, refl, sym, ap, ◌∙◌}
use native.Mathlib.Omega.{arith}
use native.Mathlib.Nat.{pow-suc}

-- An operation on digits that keeps the second number once the first has run out.
module _ (op : ℕ → ℕ → ℕ) where
  abbrev keep_digits : ℕ → ℕ → ℕ → ℕ
  keep_digits n a b = digits (λ b. b) op n a b

  keep_digits-zero : (n b : ℕ) → keep_digits n 0 b ≡ b
  keep_digits-zero zero b = refl
  keep_digits-zero (suc n) b = refl

  -- Any count of digits that the number has room in gives the same.
  keep_digits_enough : (a b n m : ℕ) → a ≤ n → a ≤ m → keep_digits n a b ≡ keep_digits m a b
  keep_digits_enough zero b n m p q = keep_digits-zero n b ∙ sym (keep_digits-zero m b)
  keep_digits_enough (suc a) b (suc n) (suc m) p q =
      let rest = keep_digits_enough (suc a / 2) (b / 2) n m (omega arith) (omega arith) in
      omega (arith, rest)
  keep_digits_enough (suc a) b zero m p q = absurd (omega arith)
  keep_digits_enough (suc a) b (suc n) zero p q = absurd (omega arith)

zero-bit_xor : (b : ℕ) → bit_xor 0 b ≡ b
zero-bit_xor b = bit_xor-bitwise 0 b

differ_bits :
    (x y : ℕ) → x < 2 → y < 2 → (differ x y < 2) × (differ (differ x y) y ≡ x) × (differ zero y ≡ y)
differ_bits zero zero h k = (omega arith, refl, refl)
differ_bits zero (suc zero) h k = (omega arith, refl, refl)
differ_bits (suc zero) zero h k = (omega arith, refl, refl)
differ_bits (suc zero) (suc zero) h k = (omega arith, refl, refl)
differ_bits zero (suc (suc y)) h k = absurd (omega arith)
differ_bits (suc zero) (suc (suc y)) h k = absurd (omega arith)
differ_bits (suc (suc x)) y h k = absurd (omega arith)

pub bit_xor_step : (a b : ℕ) → bit_xor a b ≡ bit_xor (a / 2) (b / 2) * 2 + differ (a % 2) (b % 2)
bit_xor_step zero b = omega (
  arith,
  zero-bit_xor b,
  zero-bit_xor (b / 2),
  (differ_bits 0 (b % 2) (omega arith) (omega arith)).2,
)
bit_xor_step (suc a) b = omega (
  arith,
  bit_xor-bitwise (suc a) b,
  bit_xor-bitwise (suc a / 2) (b / 2),
  keep_digits_enough differ (suc a / 2) (b / 2) a (suc a / 2) (omega arith) (omega arith),
)

halves : (y d : ℕ) → d < 2 → ((y * 2 + d) / 2 ≡ y) × ((y * 2 + d) % 2 ≡ d)
halves y d h = omega arith

-- One digit of the law, from the law for the other digits.
cancel_step :
    (a b : ℕ) → bit_xor (bit_xor (a / 2) (b / 2)) (b / 2) ≡ a / 2 → bit_xor (bit_xor a b) b ≡ a
cancel_step a b ih =
    let y : ℕ = bit_xor (a / 2) (b / 2) in
    let d : ℕ = differ (a % 2) (b % 2) in
    let (small, back, _) = differ_bits (a % 2) (b % 2) (omega arith) (omega arith) in
    let (half, rest) = halves y d small in
    rw (bit_xor_step a b) (bit_xor_step (y * 2 + d) b ∙ rw (half, rest, ih, back) (omega arith))

bit_xor_cancel_fuel : (n a b : ℕ) → a + b ≤ n → bit_xor (bit_xor a b) b ≡ a
bit_xor_cancel_fuel zero a b h =
    let e : a ≡ 0 = omega arith in
    let f : b ≡ 0 = omega arith in rw (e, f, zero-bit_xor) (zero-bit_xor _)
bit_xor_cancel_fuel (suc n) zero zero h = rw zero-bit_xor (zero-bit_xor _)
bit_xor_cancel_fuel (suc n) zero (suc b) h =
    cancel_step 0 (suc b) (bit_xor_cancel_fuel n (0 / 2) (suc b / 2) (omega arith))
bit_xor_cancel_fuel (suc n) (suc a) b h =
    cancel_step (suc a) b (bit_xor_cancel_fuel n (suc a / 2) (b / 2) (omega arith))

-- The same mask twice changes nothing.
pub bit_xor_cancel : (a b : ℕ) → bit_xor (bit_xor a b) b ≡ a
bit_xor_cancel a b = bit_xor_cancel_fuel (a + b) a b (omega arith)

min-zero : (a : ℕ) → min a 0 ≡ 0
min-zero a = omega arith

and_digits-zero : (n a : ℕ) → digits (λ b. zero) min n a 0 ≡ 0
and_digits-zero zero a = refl
and_digits-zero (suc n) zero = refl
and_digits-zero (suc n) (suc a) = rw (and_digits-zero n (suc a / 2), min-zero (suc a % 2)) refl

pub bit_and-zero : (a : ℕ) → bit_and a 0 ≡ 0
bit_and-zero a = bit_and-bitwise a 0 ∙ and_digits-zero a a

zero-bit_or : (b : ℕ) → bit_or 0 b ≡ b
zero-bit_or b = bit_or-bitwise 0 b

pub bit_or_step : (a b : ℕ) → bit_or a b ≡ bit_or (a / 2) (b / 2) * 2 + max (a % 2) (b % 2)
bit_or_step zero b = omega (arith, zero-bit_or b, zero-bit_or (b / 2))
bit_or_step (suc a) b = omega (
  arith,
  bit_or-bitwise (suc a) b,
  bit_or-bitwise (suc a / 2) (b / 2),
  keep_digits_enough max (suc a / 2) (b / 2) a (suc a / 2) (omega arith) (omega arith),
)

bit_or-zero_below : (n a : ℕ) → a ≤ n → bit_or a 0 ≡ a
bit_or-zero_below n zero h = zero-bit_or 0
bit_or-zero_below zero (suc a) h = absurd (omega arith)
bit_or-zero_below (suc n) (suc a) h =
    omega (arith, bit_or_step (suc a) 0, bit_or-zero_below n (suc a / 2) (omega arith))

pub bit_or-zero : (a : ℕ) → bit_or a 0 ≡ a
bit_or-zero a = bit_or-zero_below a a (omega arith)

-- The bits of `f` go below those of a multiple of 2 ^ n.
pub bit_or-add : (n k f : ℕ) → f < 2 ^ n → bit_or (k * 2 ^ n) f ≡ k * 2 ^ n + f
bit_or-add zero k f h =
    let e : f ≡ 0 = omega arith in
    rw e (bit_or-zero_below (k * 2 ^ 0) (k * 2 ^ 0) (omega arith) ∙ omega arith)
bit_or-add (suc n) k f h =
    let doubled : k * 2 ^ suc n ≡ k * 2 ^ n * 2 =
      omega (arith, ap (λ (t : ℕ). k * t) (pow-suc 2 n)) in
    let small : f / 2 < 2 ^ n = omega (arith, pow-suc 2 n) in
    let half : k * 2 ^ n * 2 / 2 ≡ k * 2 ^ n = omega arith in
    let low : k * 2 ^ n * 2 % 2 ≡ 0 = omega arith in
    rw doubled
      (bit_or_step (k * 2 ^ n * 2) f ∙ rw (half, low) (omega (arith, bit_or-add n k (f / 2) small)))
