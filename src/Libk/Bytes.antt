-- ===== src/Libk/Bytes.antt =====
-- Byte strings in the memory of Libk.Memory.
use mathlib.Core.List.{reverse, reverse_aux}
use goofyos.Base.{
  ℕ, zero, suc, ◌+◌, ◌-◌, ◌<◌, ◌≡◌, ◌≢◌, ◌∙◌, refl, sym, ap, List, [], ◌∷◌, ◌++◌, arith, length,
  get_or, ◌==◌, ltb, if◌then◌else◌,
}
use goofyos.Libk.Memory.{Mem}

-- The bytes `xs` stand in memory from the address `a` on.
abbrev pub Bytes : Mem → ℕ → List ℕ → Type 0
Bytes m a [] = Unit
Bytes m a (x ∷ xs) = (m a ≡ x) × Bytes m (a + 1) xs

-- The string `xs` with its terminating NUL.
abbrev pub CString : Mem → ℕ → List ℕ → Type 0
CString m a [] = m a ≡ 0
CString m a (x ∷ xs) = (m a ≡ x) × (x ≢ 0) × CString m (a + 1) xs

pub plus_one : (a j : ℕ) → a + suc j ≡ a + 1 + j
plus_one a j = omega arith

pub Bytes-get_or :
    (m : Mem) (a j : ℕ) (xs : List ℕ) → Bytes m a xs → j < length xs → m (a + j) ≡ get_or xs j 0
Bytes-get_or m a j [] b h = absurd (omega arith)
Bytes-get_or m a zero (x ∷ xs) b h = ground (arith, b.0)
Bytes-get_or m a (suc j) (x ∷ xs) b h =
    rw (plus_one a j) (Bytes-get_or m (a + 1) j xs b.1 (omega arith))

pub Bytes-of_get_or :
    (m : Mem) (a : ℕ) (xs : List ℕ)
    → ((j : ℕ) → j < length xs → m (a + j) ≡ get_or xs j 0)
    → Bytes m a xs
Bytes-of_get_or m a [] h = tt
Bytes-of_get_or m a (x ∷ xs) h = (
  ap m (omega arith) ∙ h 0 (omega arith),
  Bytes-of_get_or m (a + 1) xs (λ j k. ap m (sym (plus_one a j)) ∙ h (suc j) (omega arith)),
)

pub CString-of_Bytes :
    (m : Mem) (a : ℕ) (xs : List ℕ)
    → Bytes m a xs
    → m (a + length xs) ≡ 0
    → ((j : ℕ) → j < length xs → get_or xs j 0 ≢ 0)
    → CString m a xs
CString-of_Bytes m a [] b z n = ap m (omega arith) ∙ z
CString-of_Bytes m a (x ∷ xs) b z n = (
  b.0,
  n 0 (omega arith),
  CString-of_Bytes m (a + 1) xs b.1 (ap m (sym (plus_one a (length xs))) ∙ z)
      (λ j k. n (suc j) (omega arith)),
)

pub Bytes-frame :
    (m k : Mem) (a : ℕ) (xs : List ℕ)
    → ((j : ℕ) → j < length xs → k (a + j) ≡ m (a + j))
    → Bytes m a xs
    → Bytes k a xs
Bytes-frame m k a xs same b = Bytes-of_get_or k a xs (λ j h. same j h ∙ Bytes-get_or m a j xs b h)

pub Bytes-append :
    (m : Mem) (a : ℕ) (xs ys : List ℕ)
    → Bytes m a xs
    → Bytes m (a + length xs) ys
    → Bytes m a (xs ++ ys)
Bytes-append m a [] ys b c = rw (rw_zero a) at c
  where
    rw_zero : (a : ℕ) → a + 0 ≡ a
    rw_zero a = omega arith
Bytes-append m a (x ∷ xs) ys b c =
    (b.0, Bytes-append m (a + 1) xs ys b.1 (rw (plus_one a (length xs)) at c))

pub length-reverse_aux : (xs ys : List ℕ) → length (reverse_aux xs ys) ≡ length xs + length ys
length-reverse_aux [] ys = omega arith
length-reverse_aux (x ∷ xs) ys = omega (arith, length-reverse_aux xs (x ∷ ys))

pub length-reverse : (xs : List ℕ) → length (reverse xs) ≡ length xs
length-reverse xs = omega (arith, length-reverse_aux xs [])

get_or-cons :
    (x : ℕ) (xs : List ℕ) (k : ℕ)
    → get_or (x ∷ xs) k 0 ≡ (if k == 0 then x else get_or xs (k - 1) 0)
get_or-cons x xs zero = refl
get_or-cons x xs (suc k) = ground arith

-- The element at `j` of a reversed list with a tail.
get_or-reverse_aux :
    (xs ys : List ℕ) (j : ℕ)
    → get_or (reverse_aux xs ys) j 0
      ≡ (if ltb j (length xs) then get_or xs (length xs - 1 - j) 0 else get_or ys (j - length xs) 0)
get_or-reverse_aux [] ys j = ground arith
get_or-reverse_aux (x ∷ xs) ys j = ground (
  arith,
  get_or-reverse_aux xs (x ∷ ys) j,
  get_or-cons x ys (j - length xs),
  get_or-cons x xs (suc (length xs) - 1 - j),
)

pub get_or-reverse :
    (xs : List ℕ) (j : ℕ)
    → j < length xs
    → get_or (reverse xs) j 0 ≡ get_or xs (length xs - 1 - j) 0
get_or-reverse xs j h = ground (arith, get_or-reverse_aux xs [] j)

pub get_or-append :
    (xs ys : List ℕ) (j : ℕ)
    → get_or (xs ++ ys) j 0
      ≡ (if ltb j (length xs) then get_or xs j 0 else get_or ys (j - length xs) 0)
get_or-append [] ys j = ground arith
get_or-append (x ∷ xs) ys j =
    ground (arith, get_or-append xs ys (j - 1), get_or-cons x (xs ++ ys) j, get_or-cons x xs j)

pub CString-end : (m : Mem) (a : ℕ) (xs : List ℕ) → CString m a xs → m (a + length xs) ≡ 0
CString-end m a [] c = ap m (omega arith) ∙ c
CString-end m a (x ∷ xs) c = ap m (plus_one a (length xs)) ∙ CString-end m (a + 1) xs c.2
