-- ===== src/Fs/Tmpfs/Mount.antt =====
-- The file system that tmpfs_mount of kernel/src/fs/tmpfs.c leaves.
use goofyos.Base.{
  ℕ, true, ◌^◌, ◌≡◌, ◌∙◌, ◌<◌, refl, false, List, [], none, some, ltb, ◌==◌, if◌then◌else◌, arith,
  Bool-cases, inl, inr, ==→eq,
}
use goofyos.Dsa.Hashmap.{same_key, hmap_init, insert_entry}
use goofyos.Dsa.Hashmap.Lookup.{
  same_key_self, Adds, hmap_add-Adds, hmap_init-IsInitial, hmap_lookup-init,
}
use goofyos.Fs.Tmpfs.{
  Inode, Tmpfs, done, find_name, long_bytes, tmpfs_mount, root_vnode, root_inode,
}
use goofyos.Fs.Tmpfs.Data.{IsRoomy}
use goofyos.Fs.Tmpfs.Children.{IsTmpfs, long_bytes-differ}
use goofyos.Fs.Tmpfs.Calls.{child_named}

root_found :
    (n : ℕ)
    → n < 256 ^ 8
    → (if same_key (long_bytes 8 n) (long_bytes 8 0) then some 0 else none)
      ≡ (if ltb n 1 then some n else none)
root_found n h = elim (Bool-cases (n == 0)) [
  | inl e ↦ let root = ==→eq n 0 e in rw (root, same_key_self (long_bytes 8 0)) refl
  | inr e ↦
      let out : ltb n 1 ≡ false = ground arith in
      rw (long_bytes-differ n 0 h (omega arith) e, out) refl
]

no_name : (f : ℕ → Inode) (other : List ℕ) → find_name f [] other ≡ none
unfolding find_name
no_name f other = refl

-- The file system with its root only.
abbrev pub mounted : List ℕ → Tmpfs
mounted name = record {
  inodes = λ p. root_inode name;
  allocated = 1;
  current_inode = 1;
  tnode_cache = insert_entry (long_bytes 8 0) 0 hmap_init;
  lock = false;
}

root_number : (p : ℕ) → p < 1 → 0 ≡ p
root_number p h = omega arith

empty_room : {name : List ℕ} → IsRoomy (root_inode name)
empty_room = record { room = omega arith; pages = refl }

pub mounted-IsTmpfs : (name : List ℕ) → IsTmpfs (mounted name)
mounted-IsTmpfs name =
    let added : Adds {V = ℕ} (long_bytes 8 0) 0 hmap_init
        (insert_entry {V = ℕ} (long_bytes 8 0) 0 hmap_init) =
      hmap_add-Adds {V = ℕ} (long_bytes 8 0) 0 hmap_init hmap_init-IsInitial in
    record {
      counted = refl;
      unlocked = refl;
      numbered = λ p h. root_number p h;
      family = λ p h. tt;
      roomy = λ p h. empty_room;
      cache = added.initial;
      found = λ n h.
          added.found (long_bytes 8 n) ∙ rw (hmap_lookup-init (long_bytes 8 n)) (root_found n h);
    }

-- Mounting, when its dentry_resolve harms nothing, succeeds and leaves a well-formed file system
-- whose root, a directory, has no children.
pub tmpfs_mount-IsTmpfs :
    (name : List ℕ)
    → (tmpfs_mount true name ≡ done (root_vnode, mounted name))
      × IsTmpfs (mounted name)
      × ((other : List ℕ) → child_named (mounted name) 0 other ≡ none)
unfolding tmpfs_mount
tmpfs_mount-IsTmpfs name =
    let added = hmap_add-Adds {V = ℕ} (long_bytes 8 0) 0 hmap_init hmap_init-IsInitial in
    (rw added.added refl, mounted-IsTmpfs name, λ other. no_name (λ p. root_inode name) other)
