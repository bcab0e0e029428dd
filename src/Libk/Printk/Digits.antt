-- ===== src/Libk/Printk/Digits.antt =====
-- The loop over the digits of kernel/src/libk/printk.c and the digits that it leaves behind.
use mathlib.Core.List
use goofyos.Base.{
  ℕ, zero, suc, ◌+◌, ◌/◌, ◌%◌, ◌≤◌, ◌<◌, ◌≡◌, ◌≢◌, ◌∙◌, refl, Bool, false, [], ◌∷◌, arith, inl, inr,
  length, Bool-cases, if◌then◌else◌, ◌==◌, get_or,
}
use goofyos.Libk.Memory.{Mem, write, within}
use goofyos.Libk.Memory.Copy.{IsBytes, write-IsBytes}
use goofyos.Libk.Bytes.{Bytes}
use goofyos.Libk.Printk.{digit_char, put_digits}

-- The digits of a number, the lowest first, none for 0.
unfoldable pub digits_of : ℕ → ℕ → ℕ → Bool → List.List ℕ
digits_of zero num base capital = []
digits_of (suc fuel) num base capital =
    let rest : List.List ℕ = digits_of fuel (num / base) base capital in
    if num == 0 then [] else digit_char capital (num % base) ∷ rest

-- The digits as they are read.
unfoldable pub number_text : ℕ → Bool → ℕ → List.List ℕ
number_text base capital num =
    if num == 0 then b'0' ∷ [] else List.reverse (digits_of num num base capital)

pub digit_char_range :
    (capital : Bool) (rem : ℕ)
    → rem < 36
    → (digit_char capital rem < 256) × (0 < digit_char capital rem)
unfolding digit_char
digit_char_range capital rem h = ground arith

-- What the loop over the digits leaves behind.
pub record Put (m : Mem) (str i : ℕ) (ds : List.List ℕ) (r : Mem × ℕ) : Type 0 where
  pub count : r.1 ≡ i + length ds
  pub text : Bytes r.0 (str + i) ds
  pub same : (b : ℕ) → within (str + i) (length ds) b ≡ false → r.0 b ≡ m b
  pub bytes : IsBytes r.0

module _ (base : ℕ) (capital : Bool) (str : ℕ) (lo : 2 ≤ base) (hi : base ≤ 36) where
  digit_fits : (n : ℕ) → digit_char capital (n % base) < 256
  digit_fits n = (digit_char_range capital (n % base) (small n)).0
    where
      small : (n : ℕ) → n % base < 36
      small n = omega arith

  digit_positive : (n : ℕ) → 0 < digit_char capital (n % base)
  digit_positive n = (digit_char_range capital (n % base) (small n)).1
    where
      small : (n : ℕ) → n % base < 36
      small n = omega arith

  Put-cons :
      (m : Mem) (i c : ℕ) (ds : List.List ℕ) (r : Mem × ℕ)
      → c < 256
      → Put (write m (str + i) c) str (i + 1) ds r
      → Put m str i (c ∷ ds) r
  Put-cons m i c ds r h p = record {
    count = omega (arith, p.count);
    text = (p.same (str + i) (ground arith) ∙ ground arith, next p.text);
    same = λ b out. p.same b (ground arith) ∙ ground arith;
    bytes = p.bytes;
  }
    where
      shift : str + (i + 1) ≡ str + i + 1
      shift = omega arith

      next : Bytes r.0 (str + (i + 1)) ds → Bytes r.0 (str + i + 1) ds
      next q = rw shift at q

  pub put_digits-Put :
      (fuel num i : ℕ) (m : Mem)
      → IsBytes m
      → Put m str i (digits_of fuel num base capital) (put_digits fuel num base capital str i m)
  unfolding put_digits digits_of
  put_digits-Put zero num i m h = record {
    count = omega arith;
    text = tt;
    same = λ b out. refl;
    bytes = h;
  }
  put_digits-Put (suc fuel) num i m h = elim (Bool-cases (num == 0)) [
    | inl done ↦
        rw done (record { count = omega arith; text = tt; same = λ b out. refl; bytes = h })
    | inr more ↦ rw more (
        Put-cons m i (digit_char capital (num % base)) (digits_of fuel (num / base) base capital) _
          (digit_fits num)
          (put_digits-Put fuel (num / base) (i + 1) _
            (write-IsBytes m (str + i) (digit_char capital (num % base)) h)))
  ]

  pub digits_of-nonzero :
      (fuel num j : ℕ)
      → j < length (digits_of fuel num base capital)
      → get_or (digits_of fuel num base capital) j 0 ≢ 0
  unfolding digits_of
  digits_of-nonzero zero num j h = absurd (omega arith)
  digits_of-nonzero (suc fuel) num zero h = ground (arith, digit_positive num)
  digits_of-nonzero (suc fuel) num (suc j) h = ground (arith, digits_of-nonzero fuel (num / base) j)
