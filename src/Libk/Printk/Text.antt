-- ===== src/Libk/Printk/Text.antt =====
-- The text that ltoa and itoa of kernel/src/libk/printk.c leave in the buffer.
use mathlib.Core.List
use goofyos.Base.{
  lt→ltb, ◌^◌, some, ℕ, ◌+◌, ◌-◌, ◌≤◌, ◌<◌, ◌≡◌, ◌≢◌, refl, Bool, false, ◌&&◌, [], ◌∷◌, arith, inl,
  inr, length, Bool-cases, if◌then◌else◌, ◌==◌, get_or,
}
use goofyos.Base.Int.{ℤ, pos, negsuc, abs}
use goofyos.Libk.Memory.{Mem, write, within}
use goofyos.Libk.Memory.Copy.{IsBytes}
use goofyos.Libk.Bytes.{
  Bytes, CString, Bytes-frame, CString-of_Bytes, length-reverse, get_or-reverse,
}
use goofyos.Libk.Printk.{finish, ltoa, reverse, magnitude, is_negative}
use goofyos.Libk.Printk.Reverse.{reverse_lem}
use goofyos.Libk.Printk.Digits.{digits_of, number_text, Put, put_digits-Put, digits_of-nonzero}

-- The memory `k` holds the string `text` at `str`, and differs from `m` nowhere else.
pub record Finished (m : Mem) (str : ℕ) (text : List.List ℕ) (k : Mem) : Type 0 where
  pub string : CString k str text
  pub same : (b : ℕ) → within str (length text + 1) b ≡ false → k b ≡ m b

finish_at :
    (m m' : Mem) (str : ℕ) (ds : List.List ℕ)
    → IsBytes m'
    → Bytes m' str ds
    → ((j : ℕ) → j < length ds → get_or ds j 0 ≢ 0)
    → ((b : ℕ) → within str (length ds) b ≡ false → m' b ≡ m b)
    → Finished m str (List.reverse ds) (finish str (m', length ds))
unfolding finish
finish_at m m' str ds h c n same =
    let (turned, kept) = reverse_lem str ds m' h c in
    record {
      string =
          CString-of_Bytes _ str (List.reverse ds)
            (Bytes-frame (reverse str (length ds) m') _ str (List.reverse ds)
              (λ j k. ground (arith, length-reverse ds)) turned)
            (ground (arith, length-reverse ds))
            (λ j k.
              let k' : j < length ds = omega (arith, length-reverse ds) in
              rw (get_or-reverse ds j k') (n (length ds - 1 - j) (omega arith)));
      same = λ b out. ground (arith, length-reverse ds, kept b, same b);
    }

finish_lem :
    (m : Mem) (str : ℕ) (ds : List.List ℕ) (r : Mem × ℕ)
    → Put m str 0 ds r
    → ((j : ℕ) → j < length ds → get_or ds j 0 ≢ 0)
    → Finished m str (List.reverse ds) (finish str r)
finish_lem m str ds (m', i) p n =
    let plus : str + 0 ≡ str = omega arith in
    let e : i ≡ length ds = omega (arith, p.count) in
    rw e (finish_at m m' str ds p.bytes (rw plus at p.text) n (rw plus at p.same))

zero_lem : (m : Mem) (str : ℕ) → Finished m str (b'0' ∷ []) (write (write m str b'0') (str + 1) 0)
zero_lem m str = record { string = ground arith; same = λ b out. ground arith }

module _ (base : ℕ) (capital : Bool) (str : ℕ) (lo : 2 ≤ base) (hi : base ≤ 36) where
  -- ltoa writes the number's digits in the base, the highest first, ends them with a NUL, and
  -- changes no other byte of memory.
  pub ltoa_lem :
      (num : ℕ) (m : Mem)
      → IsBytes m
      → Finished m str (number_text base capital num) (ltoa num str base capital m)
  unfolding ltoa number_text
  ltoa_lem num m h = elim (Bool-cases (num == 0)) [
    | inl z ↦ rw z (zero_lem m str)
    | inr nz ↦ rw nz (
        finish_lem m str (digits_of num num base capital) _
          (put_digits-Put base capital str lo hi num num 0 m h)
          (digits_of-nonzero base capital str lo hi num num))
  ]

-- What itoa prints: a minus sign in base 10 alone.
unfoldable pub integer_text : ℕ → Bool → ℤ → List.List ℕ
integer_text base capital num =
    if is_negative num && (base == 10)
    then b'-' ∷ number_text base capital (abs num)
    else number_text base capital (abs num)

pub magnitude-abs : (num : ℤ) → abs num < 2 ^ 31 → magnitude num ≡ some (abs num)
unfolding magnitude
magnitude-abs (pos n) h = refl
magnitude-abs (negsuc n) h = rw (lt→ltb (n + 1) (2 ^ 31) h) refl
