-- ===== src/Libk/Strings/Copy.antt =====
-- strcpy and strdup of kernel/src/libk/string.c.
use goofyos.Base.{
  ℕ, zero, suc, ◌+◌, ◌≤◌, ◌<◌, ◌≡◌, ◌≢◌, ◌∙◌, ◌⊎◌, false, List, [], ◌∷◌, some, arith, length,
  get_or,
}
use goofyos.Libk.Memory.{Mem, write, within, memcpy}
use goofyos.Libk.Memory.Copy.{IsBytes, memcpy_lem}
use goofyos.Libk.Bytes.{
  Bytes, CString, Bytes-of_get_or, Bytes-get_or, CString-of_Bytes, CString-end,
}
use goofyos.Libk.Strings.{strcpy, strdup, copied, duplicated}
use goofyos.Libk.Strings.Compare.{strlen_lem}

pub Bytes-of_CString : (m : Mem) (a : ℕ) (xs : List ℕ) → CString m a xs → Bytes m a xs
Bytes-of_CString m a [] c = tt
Bytes-of_CString m a (x ∷ xs) c = (c.0, Bytes-of_CString m (a + 1) xs c.2)

nonzero_of_CString :
    (m : Mem) (a j : ℕ) (xs : List ℕ) → CString m a xs → j < length xs → get_or xs j 0 ≢ 0
nonzero_of_CString m a j [] c h = absurd (omega arith)
nonzero_of_CString m a zero (x ∷ xs) c h = c.1
nonzero_of_CString m a (suc j) (x ∷ xs) c h = nonzero_of_CString m (a + 1) j xs c.2 (omega arith)

-- The memory behind a copy of the string `xs` with its NUL to `dest`.
pub record IsCopied (m : Mem) (dest : ℕ) (xs : List ℕ) (k : Mem) : Type 0 where
  pub string : CString k dest xs
  pub same : (b : ℕ) → within dest (length xs + 1) b ≡ false → k b ≡ m b

copied_lem :
    (dest src : ℕ) (m : Mem) (xs : List ℕ)
    → IsBytes m
    → CString m src xs
    → (dest ≤ src) ⊎ (src + length xs ≤ dest)
    → IsCopied m dest xs (write (memcpy dest src (length xs) m) (dest + length xs) 0)
copied_lem dest src m xs h c d =
    let n : ℕ = length xs in
    let bytes = Bytes-of_CString m src xs c in
    record {
      string =
          CString-of_Bytes _ dest xs
            (Bytes-of_get_or _ dest xs (λ j k. at j k ∙ Bytes-get_or m src j xs bytes k))
            (ground arith) (λ j k. nonzero_of_CString m src j xs c k);
      same = λ b out. ground (arith, memcpy_lem dest src n m b h d);
    }
  where
    at :
        (j : ℕ)
        → j < length xs
        → write (memcpy dest src (length xs) m) (dest + length xs) 0 (dest + j) ≡ m (src + j)
    at j k = ground (arith, memcpy_lem dest src (length xs) m (dest + j) h d)

-- strcpy copies a string with its NUL to a destination that starts at or below the source or behind
-- its last byte, returns the length, and changes no other byte.
pub strcpy_lem :
    (fuel dest src : ℕ) (m : Mem) (xs : List ℕ)
    → IsBytes m
    → CString m src xs
    → (dest ≤ src) ⊎ (src + length xs ≤ dest)
    → length xs < fuel
    → (k : Mem) × (strcpy fuel dest src m ≡ some (length xs, k)) × IsCopied m dest xs k
unfolding strcpy copied
strcpy_lem fuel dest src m xs h c d f =
    (_, rw (strlen_lem fuel src m xs c f), copied_lem dest src m xs h c d)

-- strdup asks for as many bytes as the string has in front of its NUL, and writes one byte more:
-- the byte behind the allocation becomes 0, whatever it was.
pub strdup_overrun :
    (fuel str : ℕ) (fresh : ℕ → ℕ) (m : Mem) (xs : List ℕ)
    → IsBytes m
    → CString m str xs
    → (fresh (length xs) ≤ str) ⊎ (str + length xs ≤ fresh (length xs))
    → length xs < fuel
    → let new = fresh (length xs) in
      (k : Mem) × (strdup fuel fresh str m ≡ some (length xs, new, k))
      × IsCopied m new xs k
      × (k (new + length xs) ≡ 0)
unfolding strdup duplicated
strdup_overrun fuel str fresh m xs h c d f =
    let (k, run, is) = strcpy_lem fuel (fresh (length xs)) str m xs h c d f in
    (k, rw (strlen_lem fuel str m xs c f, run), is, CString-end k (fresh (length xs)) xs is.string)
