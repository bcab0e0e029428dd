-- ===== src/Fs/Vfs/Paths.antt =====
-- The path parser of kernel/src/fs/vfs.c: its files joined again are the path.
use goofyos.Base.{
  ℕ, ◌+◌, ◌≡◌, ◌∙◌, ◌<◌, ◌⊎◌, refl, sym, ap, true, false, List, [], ◌∷◌, ◌++◌, Option, some, All,
  ltb, ◌==◌, if◌then◌else◌, drop, length, length-append, arith, Bool-cases, inl, inr, lt→ltb, ==→eq,
}
use mathlib.Core.List.{append-nil, append_assoc}
use goofyos.Fs.Vfs.{split_path, vfs_parse_path, slash, is_absolute}

-- Every file followed by a slash.
unfoldable pub joined : List (List ℕ) → List ℕ
joined [] = []
joined (f ∷ files) = f ++ slash ∷ joined files

-- No character is a slash.
abbrev pub IsClean : List ℕ → Type 0
IsClean f = All (λ c. (c == slash) ≡ false) f

-- The files that stand in a text, the last with its slash or without.
pub record Splits (result : Option (List (List ℕ))) (text : List ℕ) : Type 0 where
  pub files : List (List ℕ)
  pub found : result ≡ some files
  pub whole : (joined files ≡ text) ⊎ (joined files ≡ text ++ slash ∷ [])
  pub clean : All IsClean files

IsClean-last : (f : List ℕ) (c : ℕ) → IsClean f → (c == slash) ≡ false → IsClean (f ++ c ∷ [])
IsClean-last [] c h e = (e, tt)
IsClean-last (d ∷ f) c h e = (h.0, IsClean-last f c h.1 e)

length_zero : (xs : List ℕ) → (length xs == 0) ≡ true → xs ≡ []
length_zero [] e = refl
length_zero (x ∷ xs) e = absurd (ground arith)

joined-cons : (f : List ℕ) (files : List (List ℕ)) → joined (f ∷ files) ≡ f ++ slash ∷ joined files
unfolding joined
joined-cons f files = refl

-- The end of the path.
split_path-end : (buf : List ℕ) → length buf < 256 → IsClean buf → Splits (split_path buf []) buf
unfolding split_path joined
split_path-end buf short clean = elim (Bool-cases (length buf == 0)) [
  | inl e ↦
      let empty = length_zero buf e in
      record { files = []; found = rw e refl; whole = inl (sym empty); clean = tt }
  | inr e ↦
      let fits : ltb (length buf) 256 ≡ true = lt→ltb _ _ short in
      record { files = buf ∷ []; found = rw (e, fits) refl; whole = inr refl; clean = (clean, tt) }
]

-- A file before a slash.
split_path-cut :
    (buf : List ℕ) (c : ℕ) (path : List ℕ)
    → length buf < 256
    → IsClean buf
    → (c == slash) ≡ true
    → Splits (split_path [] path) path
    → Splits (split_path buf (c ∷ path)) (buf ++ c ∷ path)
unfolding split_path
split_path-cut buf c path short clean e rest =
    let fits : ltb (length buf) 256 ≡ true = lt→ltb _ _ short in
    let sep = ==→eq c slash e in
    let front = joined-cons buf rest.files in
    let rejoined : (joined (buf ∷ rest.files) ≡ buf ++ c ∷ path)
        ⊎ (joined (buf ∷ rest.files) ≡ (buf ++ c ∷ path) ++ slash ∷ []) =
      elim rest.whole [
        | inl h ↦ inl (front ∙ rw (h, sep) refl)
        | inr h ↦ inr (front ∙ rw (h, sep) (sym (append_assoc buf (slash ∷ path) (slash ∷ []))))
      ] in
    record {
      files = buf ∷ rest.files;
      found = rw (fits, e, rest.found) refl;
      whole = rejoined;
      clean = (clean, rest.clean);
    }

-- One more character of a file.
split_path-grow :
    (buf : List ℕ) (c : ℕ) (path : List ℕ)
    → length buf < 256
    → (c == slash) ≡ false
    → Splits (split_path (buf ++ c ∷ []) path) ((buf ++ c ∷ []) ++ path)
    → Splits (split_path buf (c ∷ path)) (buf ++ c ∷ path)
unfolding split_path
split_path-grow buf c path short e rest =
    let fits : ltb (length buf) 256 ≡ true = lt→ltb _ _ short in
    rw (fits, e) (rw (append_assoc buf (c ∷ []) path) at rest)

split_path-Splits :
    (buf path : List ℕ)
    → length buf + length path < 256
    → IsClean buf
    → Splits (split_path buf path) (buf ++ path)
split_path-Splits buf [] short clean =
    rw (append-nil buf) (split_path-end buf (omega (arith, short)) clean)
split_path-Splits buf (c ∷ path) short clean = elim (Bool-cases (c == slash)) [
  | inl e ↦
      split_path-cut buf c path (omega arith) clean e (split_path-Splits [] path (omega arith) tt)
  | inr e ↦
      let rest =
        split_path-Splits (buf ++ c ∷ []) path (omega (arith, short, length-append buf (c ∷ [])))
          (IsClean-last buf c clean e) in
      split_path-grow buf c path (omega (arith, short)) e rest
]

-- The path as it is joined: an absolute one gets a second slash after the file for the root.
abbrev pub led : List ℕ → List ℕ
led [] = []
led (c ∷ path) = if c == slash then slash ∷ slash ∷ path else c ∷ path

-- vfs_parse_path parses every path of fewer than 256 characters without leaving its buffer, and into
-- files that make the path again when a slash is put after each (a last one may be new): the first file
-- of an absolute path is the slash itself, for the root, and no other file has a slash.
pub vfs_parse_path_lem :
    (path : List ℕ)
    → length path < 256
    → (files : List (List ℕ)) × (vfs_parse_path path ≡ some files)
      × ((joined files ≡ led path) ⊎ (joined files ≡ led path ++ slash ∷ []))
      × (if is_absolute path
          then ((slash ∷ []) ∷ drop 1 files ≡ files) × All IsClean (drop 1 files)
          else All IsClean files)
unfolding vfs_parse_path joined
vfs_parse_path_lem [] short =
    let s = split_path-Splits [] [] (omega arith) tt in (s.files, s.found, s.whole, s.clean)
vfs_parse_path_lem (c ∷ path) short = elim (Bool-cases (c == slash)) [
  | inl e ↦
      let s = split_path-Splits [] path (omega arith) tt in
      let twice : List ℕ → List ℕ = λ l. slash ∷ slash ∷ l in
      rw e (
        (slash ∷ []) ∷ s.files,
        rw s.found refl,
        elim s.whole [ inl h ↦ inl (ap twice h) | inr h ↦ inr (ap twice h) ],
        (refl, s.clean),
      )
  | inr e ↦
      let s = split_path-Splits [] (c ∷ path) (omega (arith, short)) tt in
      rw e (s.files, s.found, s.whole, s.clean)
]
