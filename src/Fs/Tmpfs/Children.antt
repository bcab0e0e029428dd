-- ===== src/Fs/Tmpfs/Children.antt =====
-- New files and directories of kernel/src/fs/tmpfs.c, and the state that every call keeps.
use goofyos.Base.{
  ℕ, suc, ◌^◌, ◌≡◌, ◌∙◌, ◌<◌, refl, sym, ap, true, false, List, [], ◌∷◌, ◌++◌, none, some, All, ltb,
  ◌==◌, if◌then◌else◌, arith, Bool-cases, inl, inr, ==→eq,
}
use goofyos.Dsa.Hashmap.{same_key, hmap_lookup, insert_entry}
use goofyos.Dsa.Hashmap.Lookup.{
  or_else-none, same_key_self, same_key_sound, IsInitial, hmap_add-Adds,
}
use goofyos.Fs.Tmpfs.{Inode, Tmpfs, find_name, long_bytes, with_child, child_inode, new_child}
use goofyos.Fs.Tmpfs.Data.{IsRoomy}
use goofyos.Fs.Tmpfs.Names.{long_bytes_sound, new_child-new, new_child-parent, new_child-other}

-- The numbers are the places of the inodes, children are allocated, files have room, and the cache
-- holds exactly the inodes allocated.
pub record IsTmpfs (fs : Tmpfs) : Type 0 where
  pub counted : fs.current_inode ≡ fs.allocated
  pub unlocked : fs.lock ≡ false
  pub numbered : (p : ℕ) → p < fs.allocated → (fs.inodes p).number ≡ p
  pub family : (p : ℕ) → p < fs.allocated → All (λ c. c < fs.allocated) (fs.inodes p).children
  pub roomy : (p : ℕ) → p < fs.allocated → IsRoomy (fs.inodes p)
  pub cache : IsInitial fs.tnode_cache
  pub found :
      (n : ℕ)
      → n < 256 ^ 8
      → hmap_lookup (long_bytes 8 n) fs.tnode_cache ≡ (if ltb n fs.allocated then some n else none)

-- The file system after a child was made.
abbrev pub grown : ℕ → ℕ → List ℕ → ℕ → Tmpfs → Tmpfs
grown kind tnode name flags fs = record (new_child kind tnode name flags fs) {
  tnode_cache = insert_entry (long_bytes 8 fs.current_inode) fs.allocated fs.tnode_cache;
}

All-suc : (n : ℕ) (cs : List ℕ) → All (λ c. c < n) cs → All (λ c. c < suc n) cs
All-suc n [] h = h
All-suc n (c ∷ cs) h = (omega (arith, h.0), All-suc n cs h.1)

pub All-last : (n : ℕ) (cs : List ℕ) → All (λ c. c < n) cs → All (λ c. c < suc n) (cs ++ n ∷ [])
All-last n [] h = (omega arith, h)
All-last n (c ∷ cs) h = (omega (arith, h.0), All-last n cs h.1)

pub long_bytes-differ :
    (a b : ℕ)
    → a < 256 ^ 8
    → b < 256 ^ 8
    → (a == b) ≡ false
    → same_key (long_bytes 8 a) (long_bytes 8 b) ≡ false
long_bytes-differ a b p q d = elim (Bool-cases (same_key (long_bytes 8 a) (long_bytes 8 b))) [
  | inl e ↦ let same = long_bytes_sound 8 a b p q (same_key_sound _ _ e) in absurd (ground arith)
  | inr e ↦ e
]

-- What holds of all the children holds of the one found.
pub find_name-All :
    (P : ℕ → Type 0) (f : ℕ → Inode) (cs name : List ℕ) (c : ℕ)
    → All P cs
    → find_name f cs name ≡ some c
    → P c
unfolding find_name
find_name-All P f [] name c every e = absurd (none_some e)
  where
    none_some : none ≡ some c → ⊥
    none_some x = cc
find_name-All P f (d ∷ cs) name c every e = elim (Bool-cases (same_key (f d).name name)) [
  | inl h ↦ let same : d ≡ c = some_injective (rw h at e) in rw (sym same) every.0
  | inr h ↦ find_name-All P f cs name c every.1 (rw h at e)
]
  where
    some_injective : some d ≡ some c → d ≡ c
    some_injective x = cc

module _ (kind tnode : ℕ) (name : List ℕ) (flags : ℕ) (fs : Tmpfs) (good : IsTmpfs fs)
    (here : tnode < fs.allocated) (few : fs.allocated < 256 ^ 8) where
  -- What holds of the new child, of its parent and of the others holds of all.
  pub grown-every :
      (P : ℕ → Inode → Type 0)
      → P fs.allocated (child_inode kind name flags fs.current_inode)
      → P tnode (with_child fs.allocated (fs.inodes tnode))
      → ((q : ℕ) → q < fs.allocated → P q (fs.inodes q))
      → (p : ℕ) → p < suc fs.allocated
      → P p ((grown kind tnode name flags fs).inodes p)
  grown-every P new parent old p h = elim (Bool-cases (p == fs.allocated)) [
    | inl e ↦
        let at_new = ==→eq p fs.allocated e in
        rw (at_new, new_child-new kind tnode name flags fs here) new
    | inr e ↦ elim (Bool-cases (p == tnode)) [
      | inl g ↦
          let at_parent = ==→eq p tnode g in
          rw (at_parent, new_child-parent kind tnode name flags fs here) parent
      | inr g ↦
          let before : p < fs.allocated = ground arith in
          rw (new_child-other kind tnode name flags fs p before (ground arith)) (old p before)
    ]
  ]

  pub grown-found :
      (n : ℕ)
      → n < 256 ^ 8
      → hmap_lookup
          (long_bytes 8 n)
          (insert_entry (long_bytes 8 fs.current_inode) fs.allocated fs.tnode_cache)
        ≡ (if ltb n (suc fs.allocated) then some n else none)
  grown-found n h =
      let added =
        hmap_add-Adds (long_bytes 8 fs.current_inode) fs.allocated fs.tnode_cache good.cache in
      let key = good.counted in
      added.found (long_bytes 8 n)
      ∙ rw (good.found n h, key)
          (elim (Bool-cases (n == fs.allocated)) [
            | inl e ↦
                let new = ==→eq n fs.allocated e in
                let self = same_key_self (long_bytes 8 fs.allocated) in
                let out : ltb fs.allocated fs.allocated ≡ false = ground arith in
                let into : ltb fs.allocated (suc fs.allocated) ≡ true = ground arith in
                rw (new, self, out, into) refl
            | inr e ↦
                let differ : same_key (long_bytes 8 n) (long_bytes 8 fs.allocated) ≡ false =
                  long_bytes-differ n fs.allocated h few e in
                let keep : ltb n (suc fs.allocated) ≡ ltb n fs.allocated = ground arith in
                rw (differ, keep) (or_else-none _)
          ])

  pub grown-IsTmpfs : IsTmpfs (grown kind tnode name flags fs)
  unfolding new_child
  grown-IsTmpfs = record {
    counted = ap suc good.counted;
    unlocked = good.unlocked;
    numbered =
        grown-every (λ p i. i.number ≡ p) good.counted (good.numbered tnode here) good.numbered;
    family =
        grown-every (λ p i. All (λ c. c < suc fs.allocated) i.children) tt
          (All-last fs.allocated (fs.inodes tnode).children (good.family tnode here))
          (λ q h. All-suc fs.allocated (fs.inodes q).children (good.family q h));
    roomy =
        grown-every (λ p i. IsRoomy i) (record { room = omega arith; pages = refl })
          (roomy_parent (good.roomy tnode here)) good.roomy;
    cache =
        (hmap_add-Adds (long_bytes 8 fs.current_inode) fs.allocated fs.tnode_cache
          good.cache).initial;
    found = grown-found;
  }
    where
      roomy_parent : {i : Inode} → IsRoomy i → IsRoomy (with_child fs.allocated i)
      roomy_parent r = record { room = r.room; pages = r.pages }
