-- ===== src/Fs/Tmpfs/Names.antt =====
-- The names in directories of kernel/src/fs/tmpfs.c, and the keys of its inode cache.
use goofyos.Base.{
  ℕ, zero, suc, ◌/◌, ◌%◌, ◌^◌, ◌≡◌, ◌≢◌, ◌<◌, refl, ap, false, List, [], ◌∷◌, ◌++◌, none, some, All,
  get_or, drop, ◌==◌, if◌then◌else◌, arith, Bool-cases, inl, inr, ==→eq, ==_self,
}
use native.Mathlib.Nat.{pow-suc}
use goofyos.Dsa.Hashmap.{same_key}
use goofyos.Dsa.Hashmap.Lookup.{or_else}
use goofyos.Fs.Tmpfs.{Inode, Tmpfs, find_name, long_bytes, with_child, child_inode, new_child}

-- A `long` is found from its bytes.
pub long_bytes_sound :
    (width a b : ℕ)
    → a < 256 ^ width
    → b < 256 ^ width
    → long_bytes width a ≡ long_bytes width b
    → a ≡ b
unfolding long_bytes
long_bytes_sound zero a b p q e = omega arith
long_bytes_sound (suc width) a b p q e =
    let power = pow-suc 256 width in
    let heads : a % 256 ≡ b % 256 = ap (λ l. get_or l 0 0) e in
    let tails =
      long_bytes_sound width (a / 256) (b / 256) (omega arith) (omega arith)
        (ap (λ l. drop 1 l) e) in
    omega arith

pub find_name-ext :
    (f g : ℕ → Inode) (bound : ℕ) (cs name : List ℕ)
    → ((c : ℕ) → c < bound → (f c).name ≡ (g c).name)
    → All (λ c. c < bound) cs
    → find_name f cs name ≡ find_name g cs name
unfolding find_name
find_name-ext f g bound [] name same below = refl
find_name-ext f g bound (c ∷ cs) name same below =
    rw (same c below.0, find_name-ext f g bound cs name same below.1) refl

pub find_name-append :
    (f : ℕ → Inode) (cs : List ℕ) (c : ℕ) (name : List ℕ)
    → find_name f (cs ++ c ∷ []) name
      ≡ or_else (find_name f cs name) (if same_key (f c).name name then some c else none)
unfolding find_name
find_name-append f [] c name = refl
find_name-append f (d ∷ cs) c name = elim (Bool-cases (same_key (f d).name name)) [
  | inl h ↦ rw h refl
  | inr h ↦ rw h (find_name-append f cs c name)
]

-- The inodes after a child was made.
module _ (kind tnode : ℕ) (name : List ℕ) (flags : ℕ) (fs : Tmpfs) where
  abbrev made : Tmpfs
  made = new_child kind tnode name flags fs

  pub new_child-new :
      tnode < fs.allocated
      → (new_child kind tnode name flags fs).inodes fs.allocated
        ≡ child_inode kind name flags fs.current_inode
  unfolding new_child
  new_child-new p =
      let other : (tnode == fs.allocated) ≡ false = ground arith in
      rw (other, ==_self fs.allocated) refl

  pub new_child-parent :
      tnode < fs.allocated
      → (new_child kind tnode name flags fs).inodes tnode
        ≡ with_child fs.allocated (fs.inodes tnode)
  unfolding new_child
  new_child-parent p =
      let other : (fs.allocated == tnode) ≡ false = ground arith in rw (other, ==_self tnode) refl

  pub new_child-other :
      (q : ℕ)
      → q < fs.allocated
      → q ≢ tnode
      → (new_child kind tnode name flags fs).inodes q ≡ fs.inodes q
  unfolding new_child
  new_child-other q p d =
      let new : (fs.allocated == q) ≡ false = ground arith in
      let other : (tnode == q) ≡ false = ground arith in rw (new, other) refl

  pub new_child-name :
      tnode < fs.allocated
      → (q : ℕ) → q < fs.allocated
      → ((new_child kind tnode name flags fs).inodes q).name ≡ (fs.inodes q).name
  new_child-name here q p = elim (Bool-cases (q == tnode)) [
    | inl h ↦
        let at_parent = ==→eq q tnode h in rw at_parent (ap (λ i. i.name) (new_child-parent here))
    | inr h ↦ ap (λ i. i.name) (new_child-other q p (ground arith))
  ]
