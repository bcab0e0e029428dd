-- ===== src/Fs/Initrd/Headers.antt =====
-- The headers of kernel/src/fs/initrd.c: sizes in octal, and the end of the unpacking.
use goofyos.Base.{
  ℕ, suc, ◌+◌, ◌-◌, ◌*◌, ◌%◌, ◌^◌, ◌≡◌, ◌∙◌, ◌<◌, ◌≤◌, ◌⊎◌, refl, ap, true, List, [], ◌∷◌, length,
  get_or, arith,
}
use goofyos.Fs.Vfs.{Vfs, VnodeOperations}
use goofyos.Fs.Initrd.{oct_from, oct2bin, is_ustar, size_field}

-- The number that octal digits write, behind others.
unfoldable pub octal : ℕ → List ℕ → ℕ
octal n [] = n
octal n (d ∷ ds) = octal (n * 8 + d) ds

octal-le : (n : ℕ) (ds : List ℕ) → n ≤ octal n ds
unfolding octal
octal-le n [] = omega arith
octal-le n (d ∷ ds) = let more = octal-le (n * 8 + d) ds in omega (arith, more)

oct_from-step :
    (mem : ℕ → ℕ) (str size n : ℕ)
    → oct_from mem str (suc size) n
      ≡ oct_from mem (suc str) size ((n * 8 + mem str + (2 ^ 32 - 48)) % 2 ^ 32)
unfolding oct_from
oct_from-step mem str size n = refl

oct_from-end : (mem : ℕ → ℕ) (str n : ℕ) → oct_from mem str 0 n ≡ n
unfolding oct_from
oct_from-end mem str n = refl

oct_from-octal :
    (mem : ℕ → ℕ) (str n : ℕ) (ds : List ℕ)
    → ((i : ℕ) → i < length ds → mem (str + i) ≡ 48 + get_or ds i 0)
    → octal n ds < 2 ^ 32
    → oct_from mem str (length ds) n ≡ octal n ds
unfolding octal
oct_from-octal mem str n [] text small = oct_from-end mem str n
oct_from-octal mem str n (d ∷ ds) text small =
    let first : mem str ≡ 48 + d = ap mem (omega arith) ∙ text 0 (omega arith) in
    let grows = octal-le (n * 8 + d) ds in
    let step : (n * 8 + mem str + (2 ^ 32 - 48)) % 2 ^ 32 ≡ n * 8 + d =
      omega (arith, first, grows, small) in
    oct_from-step mem str (length ds) n
    ∙ ap (oct_from mem (suc str) (length ds)) step
    ∙ oct_from-octal mem (suc str) (n * 8 + d) ds
        (λ i h. ap mem (omega arith) ∙ text (suc i) (omega arith)) small

-- oct2bin reads octal digits as the number that they write, if it is below 2 ^ 32.
pub oct2bin-octal :
    (mem : ℕ → ℕ) (str : ℕ) (ds : List ℕ)
    → ((i : ℕ) → i < length ds → mem (str + i) ≡ 48 + get_or ds i 0)
    → octal 0 ds < 2 ^ 32
    → oct2bin mem str (length ds) ≡ octal 0 ds
unfolding oct2bin
oct2bin-octal mem str ds text small = oct_from-octal mem str 0 ds text small

-- A size that does not make the `int` of the next header's offset overflow.
abbrev pub FitsInt : ℕ → Type 0
FitsInt size = size + 1024 ≤ 2 ^ 31

module _ (ops : VnodeOperations) (mem : ℕ → ℕ) where
  -- The sizes of the header given and of all with the magic are at most 2 ^ 31 - 1024.
  abbrev pub IsSized : ℕ → Type 0
  IsSized header =
      (at : ℕ) → (at ≡ header) ⊎ (is_ustar mem at ≡ true) → FitsInt (oct2bin mem (size_field at) 11)
