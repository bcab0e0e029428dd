-- ===== src/Libk/Strings/Compare.antt =====
-- strlen and the comparisons of kernel/src/libk/string.c.
use goofyos.Base.{
  ℕ, zero, suc, ◌+◌, ◌<◌, ◌≡◌, ◌≢◌, ◌∙◌, refl, sym, ap, ◌↔◌, true, false, List, [], ◌∷◌, some,
  arith, inl, inr, Bool-cases, ◌==◌, if◌then◌else◌, length, take, ==→eq,
}
use goofyos.Base.Int.{ℤ, pos, negsuc, sub_ℕ}
use goofyos.Libk.Memory.{Mem}
use goofyos.Libk.Memory.Copy.{IsBytes}
use goofyos.Libk.Bytes.{Bytes, CString}
use goofyos.Libk.Strings.{strlen_from, strlen, strcmp, strncmp, char_lt, memcmp}

next_place : (str i : ℕ) → str + (i + 1) ≡ str + i + 1
next_place str i = omega arith

plus_zero : (str : ℕ) → str + 0 ≡ str
plus_zero str = omega arith

strlen_from_lem :
    (fuel str i : ℕ) (m : Mem) (xs : List ℕ)
    → CString m (str + i) xs
    → length xs < fuel
    → strlen_from fuel str i m ≡ some (i + length xs)
unfolding strlen_from
strlen_from_lem zero str i m xs c h = absurd (omega arith)
strlen_from_lem (suc fuel) str i m [] c h = ground (arith, c)
strlen_from_lem (suc fuel) str i m (x ∷ xs) c h =
    ground (arith, c.0, c.1, strlen_from_lem fuel str (i + 1) m xs (rw (next_place str i) c.2))

-- strlen counts the bytes in front of the NUL, and ends if it may read that far.
pub strlen_lem :
    (fuel str : ℕ) (m : Mem) (xs : List ℕ)
    → CString m str xs
    → length xs < fuel
    → strlen fuel str m ≡ some (length xs)
unfolding strlen
strlen_lem fuel str m xs c h =
    strlen_from_lem fuel str 0 m xs (rw (plus_zero str) c) h ∙ ap some (omega arith)

-- The outcome of a comparison is 0 exactly for equal texts.
abbrev pub Decides {ℓ} : ℤ → Type ℓ → Type ℓ
Decides r P = (r ≡ pos 0) ↔ P

cons_ne : (x y : ℕ) (xs ys : List ℕ) → x ≢ y → (x ∷ xs) ≢ (y ∷ ys)
cons_ne x y xs ys h e = ground arith

cons-Decides :
    (x : ℕ) (xs ys : List ℕ) (r : ℤ) → Decides r (xs ≡ ys) → Decides r ((x ∷ xs) ≡ (x ∷ ys))
cons-Decides x xs ys r d = (λ e. ap (λ t. x ∷ t) (d.0 e), λ e. d.1 (tail_eq e))
  where
    tail_eq : (x ∷ xs) ≡ (x ∷ ys) → xs ≡ ys
    tail_eq e = cc

-- The first difference decides.
differ-Decides : (x y : ℕ) (xs ys : List ℕ) → x ≢ y → Decides (sub_ℕ x y) ((x ∷ xs) ≡ (y ∷ ys))
differ-Decides x y xs ys h = (λ e. absurd (nonzero e), λ e. absurd (cons_ne x y xs ys h e))
  where
    nonzero : sub_ℕ x y ≡ pos 0 → ⊥
    nonzero e = ground arith

strcmp_end :
    (fuel str1 str2 : ℕ) (m : Mem) (x y : ℕ)
    → m str1 ≡ x
    → m str2 ≡ y
    → (x == 0) ≡ true
    → strcmp (suc fuel) str1 str2 m ≡ some (sub_ℕ x y)
unfolding strcmp
strcmp_end fuel str1 str2 m x y p q h = rw (p, q, h)

strcmp_differ :
    (fuel str1 str2 : ℕ) (m : Mem) (x y : ℕ)
    → m str1 ≡ x
    → m str2 ≡ y
    → (x == y) ≡ false
    → strcmp (suc fuel) str1 str2 m ≡ some (sub_ℕ x y)
unfolding strcmp
strcmp_differ fuel str1 str2 m x y p q h = ground arith

strcmp_same :
    (fuel str1 str2 : ℕ) (m : Mem) (x y : ℕ)
    → m str1 ≡ x
    → m str2 ≡ y
    → x ≡ y
    → x ≢ 0
    → strcmp (suc fuel) str1 str2 m ≡ strcmp fuel (str1 + 1) (str2 + 1) m
unfolding strcmp
strcmp_same fuel str1 str2 m x y p q h k = ground arith

test_false : (x y : ℕ) → x ≢ y → (x == y) ≡ false
test_false x y h = ground arith

differ_absurd : (x y : ℕ) → (x == y) ≡ false → x ≡ y → ⊥
differ_absurd x y p q = ground arith

from_zero : (y : ℕ) → y ≢ 0 → sub_ℕ 0 y ≡ pos 0 → ⊥
from_zero y h e = ground arith

to_zero : (x : ℕ) → x ≢ 0 → sub_ℕ x 0 ≡ pos 0 → ⊥
to_zero x h e = ground arith

-- strcmp ends on two strings, and returns 0 exactly when they are equal.
pub strcmp_lem :
    (fuel str1 str2 : ℕ) (m : Mem) (xs ys : List ℕ)
    → CString m str1 xs
    → CString m str2 ys
    → length xs < fuel
    → (r : ℤ) × (strcmp fuel str1 str2 m ≡ some r) × Decides r (xs ≡ ys)
strcmp_lem zero str1 str2 m xs ys c d h = absurd (omega arith)
strcmp_lem (suc fuel) str1 str2 m [] [] c d h =
    (pos 0, strcmp_end fuel str1 str2 m 0 0 c d refl, (λ _. refl, λ _. refl))
strcmp_lem (suc fuel) str1 str2 m [] (y ∷ ys) c d h = (
  sub_ℕ 0 y,
  strcmp_end fuel str1 str2 m 0 y c d.0 refl,
  (λ e. absurd (from_zero y d.1 e), λ e. cc),
)
strcmp_lem (suc fuel) str1 str2 m (x ∷ xs) [] c d h = (
  sub_ℕ x 0,
  strcmp_differ fuel str1 str2 m x 0 c.0 d (test_false x 0 c.1),
  (λ e. absurd (to_zero x c.1 e), λ e. cc),
)
strcmp_lem (suc fuel) str1 str2 m (x ∷ xs) (y ∷ ys) c d h = elim (Bool-cases (x == y)) [
  | inl same ↦
      let e : x ≡ y = ==→eq x y same in
      let (r, run, dec) = strcmp_lem fuel (str1 + 1) (str2 + 1) m xs ys c.2 d.2 (omega arith) in
      (r, strcmp_same fuel str1 str2 m x y c.0 d.0 e c.1 ∙ run, rw e (cons-Decides y xs ys r dec))
  | inr other ↦ (
    sub_ℕ x y,
    strcmp_differ fuel str1 str2 m x y c.0 d.0 other,
    differ-Decides x y xs ys (differ_absurd x y other),
  )
]

char_lt_total : (a b : ℕ) → a < 256 → b < 256 → char_lt a b ≡ false → char_lt b a ≡ false → a ≡ b
unfolding char_lt
char_lt_total a b p q h k = ground arith

char_lt_irrefl : (a : ℕ) → char_lt a a ≡ false
unfolding char_lt
char_lt_irrefl a = ground arith

unequal_nonzero :
    (x y : ℕ) (rest : ℤ)
    → x < 256
    → y < 256
    → (x == y) ≡ false
    → (if char_lt x y then negsuc 0 else if char_lt y x then pos 1 else rest) ≡ pos 0
    → ⊥
unequal_nonzero x y rest p q h e = ground (arith, char_lt_total x y p q)

-- memcmp returns 0 exactly when the two ranges hold the same bytes.
pub memcmp_lem :
    (str1 str2 : ℕ) (m : Mem) (xs ys : List ℕ)
    → IsBytes m
    → Bytes m str1 xs
    → Bytes m str2 ys
    → length xs ≡ length ys
    → Decides (memcmp str1 str2 (length xs) m) (xs ≡ ys)
unfolding memcmp
memcmp_lem str1 str2 m [] [] b c d h = (λ _. refl, λ _. refl)
memcmp_lem str1 str2 m [] (y ∷ ys) b c d h = absurd (omega arith)
memcmp_lem str1 str2 m (x ∷ xs) [] b c d h = absurd (omega arith)
memcmp_lem str1 str2 m (x ∷ xs) (y ∷ ys) b c d h =
    rw (c.0, d.0)
      (elim (Bool-cases (x == y)) [
        | inl same ↦
            let e : x ≡ y = ==→eq x y same in
            rw (e, char_lt_irrefl y)
              (cons-Decides y xs ys _
                (memcmp_lem (str1 + 1) (str2 + 1) m xs ys b c.1 d.1 (omega arith)))
        | inr other ↦ (
          λ e. absurd (unequal_nonzero x y _ (rw c.0 at (b str1)) (rw d.0 at (b str2)) other e),
          λ e. absurd (cons_ne x y xs ys (differ_absurd x y other) e),
        )
      ])

-- strncmp returns 0 exactly when the first `n` bytes of the two strings are the same, where a string
-- that ends earlier counts up to its end.
pub strncmp_lem :
    (str1 str2 n : ℕ) (m : Mem) (xs ys : List ℕ)
    → CString m str1 xs
    → CString m str2 ys
    → Decides (strncmp str1 str2 n m) (take n xs ≡ take n ys)
unfolding strncmp
strncmp_lem str1 str2 zero m xs ys c d = (λ _. refl, λ _. refl)
strncmp_lem str1 str2 (suc n) m [] [] c d = rw (c, d) (λ _. refl, λ _. refl)
strncmp_lem str1 str2 (suc n) m [] (y ∷ ys) c d =
    rw (c, d.0, test_false 0 y (λ e. d.1 (sym e))) (λ e. absurd (from_zero y d.1 e), λ e. cc)
strncmp_lem str1 str2 (suc n) m (x ∷ xs) [] c d =
    rw (c.0, d, test_false x 0 c.1) (λ e. absurd (to_zero x c.1 e), λ e. cc)
strncmp_lem str1 str2 (suc n) m (x ∷ xs) (y ∷ ys) c d =
    rw (c.0, d.0)
      (elim (Bool-cases (x == y)) [
        | inr other ↦
            rw other (differ-Decides x y (take n xs) (take n ys) (differ_absurd x y other))
        | inl same ↦
            let e : x ≡ y = ==→eq x y same in
            rw (same, test_false x 0 c.1)
              (rw e (
                cons-Decides y (take n xs) (take n ys) _
                  (strncmp_lem (str1 + 1) (str2 + 1) n m xs ys c.2 d.2)))
      ])
