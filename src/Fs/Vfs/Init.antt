-- ===== src/Fs/Vfs/Init.antt =====
-- The state that vfs_init of kernel/src/fs/vfs.c leaves, if its dentry_resolve harms nothing.
use Prim.Native.Nat.{bit_or}
use goofyos.Base.{
  ℕ, zero, suc, ◌/◌, ◌%◌, ◌^◌, ◌≡◌, ◌∙◌, ◌<◌, ◌≤◌, refl, ap, true, false, List, [], ◌∷◌, ◌++◌, none,
  drop, get_or, ◌==◌, if◌then◌else◌, arith, Bool-cases, inl, inr,
}
use goofyos.Dsa.Hashmap.{same_key, hmap_init, hmap_lookup, insert_entry}
use goofyos.Dsa.Hashmap.Lookup.{
  same_key_sound, Adds, hmap_add-Adds, hmap_init-IsInitial, hmap_lookup-init,
}
use goofyos.Fs.Tmpfs.{done, root_vnode, long_bytes}
use goofyos.Fs.Tmpfs.Names.{long_bytes_sound}
use goofyos.Fs.Tmpfs.Mount.{mounted, mounted-IsTmpfs, tmpfs_mount-IsTmpfs}
use goofyos.Fs.Vfs.{Vfs, vnode_key, dcache_key, slash}
use goofyos.Fs.Vfs.Calls.{vfs_init, vfs_cache_dentry, vfs_cache_vnode}
use goofyos.Fs.Vfs.Walk.{IsVfs, IsEntry}

-- Two keys that start with a `long` each.
long_bytes-prefix :
    (width a b : ℕ) (xs ys : List ℕ)
    → long_bytes width a ++ xs ≡ long_bytes width b ++ ys
    → (long_bytes width a ≡ long_bytes width b) × (xs ≡ ys)
unfolding long_bytes
long_bytes-prefix zero a b xs ys e = (refl, e)
long_bytes-prefix (suc width) a b xs ys e =
    let heads : a % 256 ≡ b % 256 = ap (λ l. get_or l 0 0) e in
    let rest = long_bytes-prefix width (a / 256) (b / 256) xs ys (ap (λ l. drop 1 l) e) in
    (rw heads (ap (λ l. b % 256 ∷ l) rest.0), rest.1)

differ : (key key' : List ℕ) → (key ≡ key' → ⊥) → same_key key key' ≡ false
differ key key' h = elim (Bool-cases (same_key key key')) [
  | inl e ↦ absurd (h (same_key_sound key key' e))
  | inr e ↦ e
]

-- A cache with one entry finds nothing under another key.
only_one :
    (key other : List ℕ) (v : ℕ)
    → (other ≡ key → ⊥)
    → hmap_lookup other (insert_entry key v hmap_init) ≡ none
only_one key other v h =
    let added : Adds key v hmap_init (insert_entry key v hmap_init) =
      hmap_add-Adds key v hmap_init hmap_init-IsInitial in
    added.found other ∙ rw (hmap_lookup-init {V = ℕ} other, differ other key h) refl

dcache_key-root :
    (d : ℕ) (name : List ℕ)
    → 0 < d
    → d < 256 ^ 8
    → dcache_key d name ≡ dcache_key 0 (slash ∷ [])
    → ⊥
dcache_key-root d name p h e =
    let same = long_bytes_sound 8 d 0 h (omega arith) ((long_bytes-prefix 8 d 0 _ _ e).0) in
    omega arith

vnode_key-root : (vfs num : ℕ) → 0 < num → num < 256 ^ 8 → vnode_key vfs num ≡ vnode_key vfs 0 → ⊥
vnode_key-root vfs num p h e =
    let same = long_bytes_sound 8 num 0 h (omega arith) ((long_bytes-prefix 8 vfs vfs _ _ e).1) in
    omega arith

-- The state with the root only; the cached vnode is not the root dentry's.
abbrev pub started : ℕ → Vfs
started vfs = record {
  dentries = λ d. record { name = slash ∷ []; parent = 0; vnode = 1; refcount = 1 };
  next_dentry = 2;
  vnodes = λ v.
      if v == 2
      then record {
        lock = false;
        mode = bit_or 0o040000 0o777;
        size = 0;
        number = 0;
        refcount = 0;
        private_data = 0;
      }
      else root_vnode;
  next_vnode = 3;
  dentry_cache = insert_entry (dcache_key 0 (slash ∷ [])) 1 hmap_init;
  vnode_cache = insert_entry (vnode_key vfs 0) 2 hmap_init;
  vfs = vfs;
  fs = mounted (slash ∷ []);
  global_root = 1;
}

few_enough : 1 ≤ 256 ^ 8
few_enough = omega arith

started-IsEntry : (vfs d : ℕ) → IsEntry (started vfs) d
started-IsEntry vfs d = record { node = omega arith; unlocked = refl; inode = omega arith }

-- When dentry_resolve, in tmpfs_mount, harms nothing, vfs_init leaves a well-formed state: the root
-- dentry over an empty tmpfs.
pub vfs_init-IsVfs : (vfs : ℕ) → (vfs_init true vfs ≡ done (started vfs)) × IsVfs (started vfs)
unfolding vfs_init vfs_cache_dentry vfs_cache_vnode
vfs_init-IsVfs vfs =
    let mount = tmpfs_mount-IsTmpfs (slash ∷ []) in
    let one = hmap_add-Adds {V = ℕ} (dcache_key 0 (slash ∷ [])) 1 hmap_init hmap_init-IsInitial in
    let two = hmap_add-Adds {V = ℕ} (vnode_key vfs 0) 2 hmap_init hmap_init-IsInitial in
    (
      rw (mount.0, one.added, two.added) refl,
      record {
        fs = mounted-IsTmpfs (slash ∷ []);
        few = few_enough;
        entries = λ d p h. started-IsEntry vfs d;
        dentry_uncached = λ d name p h.
            only_one (dcache_key 0 (slash ∷ [])) (dcache_key d name) 1 (dcache_key-root d name p h);
        vnode_uncached = λ num p h.
            only_one (vnode_key vfs 0) (vnode_key vfs num) 2 (vnode_key-root vfs num p h);
        rootless = λ p h. tt;
      },
    )
