-- ===== src/Fs/Vfs.antt =====
-- The virtual file system of kernel/src/fs/vfs.c over one mounted file system. A pointer to a dentry or
-- a vnode is its place among those allocated, from 1 on; 0 is NULL. The operations of the vnodes are a
-- table whose missing entries are NULL. Allocations do not fail, and the memory that a call leaks or
-- frees is not part of the state. Every dentry has a vnode, so the guards against NULL arguments in
-- vfs_find_vnode and vfs_find_child do not fire.
pub mod Calls
pub mod Paths
pub mod Walk
pub mod Search
pub mod Init
pub mod Create
use Prim.Native.Nat.{bit_and, bit_or}
use goofyos.Base.{
  ℕ, zero, suc, ◌+◌, Bool, true, false, List, [], ◌∷◌, ◌++◌, Option, none, some, ltb, leb, ◌==◌,
  ◌&&◌, ◌||◌, if◌then◌else◌, length,
}
use goofyos.Dsa.Hashmap.{Hashmap, same_key, hmap_init, hmap_add, hmap_lookup}
use goofyos.Fs.Tmpfs.{
  Tmpfs, Vnode, Outcome, done, spinning, wild, Result, ok, failed, Called, eexist, einval, s_ifmt,
  is_regular, long_bytes, tmpfs_lookup, tmpfs_create_node, tmpfs_mkdir, tmpfs_create, tmpfs_read,
  tmpfs_write, tmpfs_mount,
}

abbrev pub enosys : ℕ
enosys = 38

-- `VFS_PATH_MAX`
abbrev pub vfs_path_max : ℕ
vfs_path_max = 256

abbrev pub slash : ℕ
slash = 47

-- `struct dentry`
pub record Dentry : Type 0 where
  pub name : List ℕ
  pub parent : ℕ
  pub vnode : ℕ
  pub refcount : ℕ

-- The allocated dentries and vnodes, the two caches, the file system and the root.
pub record Vfs : Type 0 where
  pub dentries : ℕ → Dentry
  pub next_dentry : ℕ
  pub vnodes : ℕ → Vnode
  pub next_vnode : ℕ
  pub dentry_cache : Hashmap ℕ
  pub vnode_cache : Hashmap ℕ
  pub vfs : ℕ
  pub fs : Tmpfs
  pub global_root : ℕ

-- The entries of `struct vnode_operations` that vfs.c calls.
pub record VnodeOperations : Type 0 where
  pub read : Option (Vnode → ℕ → ℕ → Tmpfs → Result (List ℕ))
  pub write : Option (Vnode → List ℕ → ℕ → Tmpfs → Called)
  pub lookup : Option (Vnode → List ℕ → Tmpfs → Outcome (Result ℕ))
  pub mkdir : Option (Vnode → List ℕ → ℕ → Tmpfs → Outcome Called)
  pub create : Option (Vnode → List ℕ → ℕ → Tmpfs → Outcome Called)
  pub create_node : Option (ℕ → Tmpfs → Result Vnode)

-- `tmpfs_operations`; vmalloc's bytes are a parameter.
abbrev pub tmpfs_operations : (ℕ → ℕ) → VnodeOperations
tmpfs_operations fresh = record {
  read = some tmpfs_read;
  write = some (tmpfs_write fresh);
  lookup = some tmpfs_lookup;
  mkdir = some tmpfs_mkdir;
  create = some tmpfs_create;
  create_node = some tmpfs_create_node;
}

-- `struct file`
pub record File : Type 0 where
  pub entry : ℕ
  pub pos : ℕ
  pub flags : ℕ

abbrev pub more_files : List ℕ → Option (List (List ℕ)) → Option (List (List ℕ))
more_files file none = none
more_files file (some files) = some (file ∷ files)

-- The loop of vfs_parse_path with the characters in `buf`; `none` is a write past the buffer's end.
unfoldable pub split_path : List ℕ → List ℕ → Option (List (List ℕ))
split_path buf [] =
    if length buf == 0
    then some []
    else if ltb (length buf) vfs_path_max
    then some (buf ∷ [])
    else none
split_path buf (c ∷ path) =
    let cut : Option (List (List ℕ)) = more_files buf (split_path [] path) in
    let grow : Option (List (List ℕ)) = split_path (buf ++ c ∷ []) path in
    if ltb (length buf) vfs_path_max then if c == slash then cut else grow else none

abbrev pub is_absolute : List ℕ → Bool
is_absolute [] = false
is_absolute (c ∷ path) = c == slash

unfoldable pub vfs_parse_path : List ℕ → Option (List (List ℕ))
vfs_parse_path [] = split_path [] []
vfs_parse_path (c ∷ path) =
    if c == slash then more_files (slash ∷ []) (split_path [] path) else split_path [] (c ∷ path)

-- `struct vnode_key` and `struct dcache_key`, whose name ends in its NUL.
abbrev pub vnode_key : ℕ → ℕ → List ℕ
vnode_key vfs number = long_bytes 8 vfs ++ long_bytes 8 number

abbrev pub dcache_key : ℕ → List ℕ → List ℕ
dcache_key parent name = long_bytes 8 parent ++ (name ++ 0 ∷ [])

-- A call's result and the state that it leaves.
pub record Returned {ℓ} (A : Type ℓ) : Type ℓ where
  pub code : Result A
  pub state : Vfs

abbrev pub return {ℓ} : {A : Type ℓ} → Result A → Vfs → Outcome (Returned A)
return code state = done (record { code = code; state = state })

-- Goes on after a call that succeeds, and returns the error of one that fails.
abbrev pub on_success {ℓ κ} :
    {A : Type ℓ} {B : Type κ}
    → (A → Vfs → Outcome (Returned B))
    → Result A
    → Vfs
    → Outcome (Returned B)
on_success next (ok a) state = next a state
on_success next (failed e) state = return (failed e) state

abbrev pub bind {ℓ κ} :
    {A : Type ℓ} {B : Type κ}
    → Outcome (Returned A)
    → (A → Vfs → Outcome (Returned B))
    → Outcome (Returned B)
bind (done r) next = on_success next r.code r.state
bind spinning next = spinning
bind wild next = wild

abbrev pub alloc_vnode : Vnode → Vfs → Outcome (Returned ℕ)
alloc_vnode v s = return (ok s.next_vnode) (record s {
  vnodes = λ q. if s.next_vnode == q then v else s.vnodes q;
  next_vnode = suc s.next_vnode;
})

abbrev pub dot : List ℕ
dot = 46 ∷ []

module _ (ops : VnodeOperations) where
  abbrev pub create_with : Option (ℕ → Tmpfs → Result Vnode) → ℕ → Vfs → Outcome (Returned ℕ)
  create_with none num s = return (failed enosys) s
  create_with (some create_node) num s = on_success alloc_vnode (create_node num s.fs) s

  abbrev pub or_create : Option ℕ → ℕ → Vfs → Outcome (Returned ℕ)
  or_create (some v) num s = return (ok v) s
  or_create none num s = create_with ops.create_node num s

  unfoldable pub vfs_find_vnode : ℕ → Vfs → Outcome (Returned ℕ)
  vfs_find_vnode num s = or_create (hmap_lookup (vnode_key s.vfs num) s.vnode_cache) num s

  -- The new dentry, which is in use only from here on.
  abbrev pub fill_dentry : ℕ → List ℕ → ℕ → Vfs → Outcome (Returned ℕ)
  fill_dentry dent name v s =
      let entry : Dentry = record { name = name; parent = dent; vnode = v; refcount = 1 } in
      return (ok s.next_dentry) (record s {
        dentries = λ q. if s.next_dentry == q then entry else s.dentries q;
        next_dentry = suc s.next_dentry;
      })

  abbrev pub looked_up : ℕ → List ℕ → Outcome (Result ℕ) → Vfs → Outcome (Returned ℕ)
  looked_up dent name (done num) s =
      on_success (λ n t. bind (vfs_find_vnode n t) (fill_dentry dent name)) num s
  looked_up dent name spinning s = spinning
  looked_up dent name wild s = wild

  -- A NULL lookup is called without a test.
  abbrev pub lookup_with :
      Option (Vnode → List ℕ → Tmpfs → Outcome (Result ℕ)) → ℕ → List ℕ → Vfs → Outcome (Returned ℕ)
  lookup_with none dent name s = wild
  lookup_with (some lookup) dent name s =
      let entry : Dentry = s.dentries dent in
      looked_up dent name (lookup (s.vnodes entry.vnode) name s.fs) s

  abbrev pub or_lookup : Option ℕ → ℕ → List ℕ → Vfs → Outcome (Returned ℕ)
  or_lookup (some d) dent name s = return (ok d) s
  or_lookup none dent name s = lookup_with ops.lookup dent name s

  unfoldable pub vfs_find_child : ℕ → List ℕ → Vfs → Outcome (Returned ℕ)
  vfs_find_child dent name s =
      if same_key name dot
      then return (ok dent) s
      else or_lookup (hmap_lookup (dcache_key dent name) s.dentry_cache) dent name s

  -- The loop of vfs_find_dentry.
  unfoldable pub find_files : ℕ → List (List ℕ) → Vfs → Outcome (Returned ℕ)
  find_files cur [] s = return (ok cur) s
  find_files cur (file ∷ files) s =
      bind (vfs_find_child cur file s) (λ next t. find_files next files t)
