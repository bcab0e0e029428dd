-- ===== src/Fs/Vfs/Calls.antt =====
-- The calls of kernel/src/fs/vfs.c on paths and open files, and vfs_init.
use Prim.Native.Nat.{bit_and, bit_or}
use goofyos.Base.{
  ℕ, ◌+◌, Bool, true, false, List, [], ◌∷◌, Option, none, some, ltb, ◌==◌, ◌&&◌, ◌||◌,
  if◌then◌else◌, length,
}
use goofyos.Dsa.Hashmap.{Hashmap, hmap_init, hmap_add}
use goofyos.Fs.Tmpfs.{
  Tmpfs, Vnode, Outcome, done, spinning, wild, Result, ok, failed, Called, eexist, einval, s_ifmt,
  is_regular, tmpfs_mount,
}
use goofyos.Fs.Vfs.{
  Dentry, Vfs, VnodeOperations, File, Returned, return, bind, slash, is_absolute, vfs_parse_path,
  vfs_find_child, find_files, enosys, vnode_key, dcache_key,
}

-- `dlist_back_pop` and the tail of the parsed files.
unfoldable pub but_last : List (List ℕ) → List (List ℕ)
but_last [] = []
but_last (f ∷ []) = []
but_last (f ∷ g ∷ files) = f ∷ but_last (g ∷ files)

unfoldable pub last_file : List (List ℕ) → List ℕ
last_file [] = []
last_file (f ∷ []) = f
last_file (f ∷ g ∷ files) = last_file (g ∷ files)

abbrev pub but_first : List (List ℕ) → List (List ℕ)
but_first [] = []
but_first (f ∷ files) = files

-- `S_ISBLK`
abbrev pub is_block : ℕ → Bool
is_block mode = bit_and mode s_ifmt == 0o060000

abbrev pub vnode_of : Vfs → ℕ → Vnode
vnode_of s d = let entry : Dentry = s.dentries d in s.vnodes entry.vnode

-- The vnode and the file system that a vnode operation leaves.
abbrev pub left_by : ℕ → Called → Vfs → Outcome (Returned ℕ)
left_by d r s =
    let entry : Dentry = s.dentries d in
    return r.code
      (record s { vnodes = λ q. if entry.vnode == q then r.node else s.vnodes q; fs = r.fs })

abbrev pub left_by_call : ℕ → Outcome Called → Vfs → Outcome (Returned ℕ)
left_by_call d (done r) s = left_by d r s
left_by_call d spinning s = spinning
left_by_call d wild s = wild

-- Where a search starts: NULL is the root, and so is any directory for an absolute path.
abbrev pub start_of : List ℕ → ℕ → Vfs → ℕ
start_of path rel s = if is_absolute path || (rel == 0) then s.global_root else rel

abbrev pub files_to_find : List ℕ → Bool → List (List ℕ) → List (List ℕ)
files_to_find path parent files =
    let kept : List (List ℕ) = if parent then but_last files else files in
    if is_absolute path then but_first kept else kept

abbrev pub find_parsed :
    VnodeOperations → List ℕ → ℕ → Bool → Option (List (List ℕ)) → Vfs → Outcome (Returned ℕ)
find_parsed ops path rel parent none s = wild
find_parsed ops path rel parent (some files) s =
    if (length files == 0) || ((length files == 1) && parent)
    then return (failed einval) s
    else find_files ops (start_of path rel s) (files_to_find path parent files) s

unfoldable pub vfs_find_dentry : VnodeOperations → List ℕ → ℕ → Bool → Vfs → Outcome (Returned ℕ)
vfs_find_dentry ops path rel parent s = find_parsed ops path rel parent (vfs_parse_path path) s

-- Any error of the search for the child is taken to say that it does not exist.
abbrev pub unless_found : Outcome (Returned ℕ) → (Vfs → Outcome (Returned ℕ)) → Outcome (Returned ℕ)
unless_found spinning next = spinning
unless_found wild next = wild
unless_found (done r) next = elim r.code [
  | ok d ↦ return (failed eexist) r.state
  | failed e ↦ next r.state
]

module _ (ops : VnodeOperations) where
  abbrev pub make_parsed :
      (Vnode → List ℕ → ℕ → Tmpfs → Outcome Called)
      → ℕ
      → ℕ
      → Option (List (List ℕ))
      → Vfs
      → Outcome (Returned ℕ)
  make_parsed make parent flags none s = wild
  make_parsed make parent flags (some files) s =
      let child : List ℕ = last_file files in
      unless_found (vfs_find_child ops parent child s)
        (λ t. left_by_call parent (make (vnode_of t parent) child flags t.fs) t)

  abbrev pub make_in :
      Option (Vnode → List ℕ → ℕ → Tmpfs → Outcome Called)
      → List ℕ
      → ℕ
      → ℕ
      → Vfs
      → Outcome (Returned ℕ)
  make_in none path flags parent s = return (failed enosys) s
  make_in (some make) path flags parent s = make_parsed make parent flags (vfs_parse_path path) s

  -- The body that vfs_mkdir and vfs_create share.
  unfoldable pub make_at :
      Option (Vnode → List ℕ → ℕ → Tmpfs → Outcome Called)
      → List ℕ
      → ℕ
      → ℕ
      → Vfs
      → Outcome (Returned ℕ)
  make_at make path rel flags s =
      bind (vfs_find_dentry ops path rel true s) (make_in make path flags)

  unfoldable pub vfs_mkdir : List ℕ → ℕ → ℕ → Vfs → Outcome (Returned ℕ)
  vfs_mkdir = make_at ops.mkdir

  unfoldable pub vfs_create : List ℕ → ℕ → ℕ → Vfs → Outcome (Returned ℕ)
  vfs_create = make_at ops.create

  unfoldable pub vfs_open : List ℕ → ℕ → ℕ → Vfs → Outcome (Returned File)
  vfs_open path rel flags s =
      bind (vfs_find_dentry ops path rel false s)
        (λ file t. return (ok (record { entry = file; pos = 0; flags = flags })) t)

  -- The position moves for files and block devices only.
  abbrev pub advanced : ℕ → File → Vnode → File
  advanced res fd node =
      if ltb 0 res && (is_regular node.mode || is_block node.mode)
      then record fd { pos = fd.pos + res }
      else fd

  abbrev pub advanced_by : Result ℕ → File → Vnode → File
  advanced_by (ok res) fd node = advanced res fd node
  advanced_by (failed e) fd node = fd

  abbrev pub write_with :
      Option (Vnode → List ℕ → ℕ → Tmpfs → Called) → File → List ℕ → Vfs → Result ℕ × File × Vfs
  write_with none fd buf s = (failed enosys, fd, s)
  write_with (some write) fd buf s =
      let entry : Dentry = s.dentries fd.entry in
      let r : Called = write (s.vnodes entry.vnode) buf fd.pos s.fs in
      (
        r.code,
        advanced_by r.code fd r.node,
        record s { vnodes = λ q. if entry.vnode == q then r.node else s.vnodes q; fs = r.fs },
      )

  unfoldable pub vfs_write : File → List ℕ → Vfs → Result ℕ × File × Vfs
  vfs_write = write_with ops.write

  abbrev pub read_with :
      Option (Vnode → ℕ → ℕ → Tmpfs → Result (List ℕ)) → File → ℕ → Vfs → Result (List ℕ)
  read_with none fd n s = failed enosys
  read_with (some read) fd n s = read (vnode_of s fd.entry) n fd.pos s.fs

  -- The position asked for is not used.
  unfoldable pub vfs_pread : File → ℕ → ℕ → Vfs → Result (List ℕ)
  vfs_pread fd n pos s = read_with ops.read fd n s

  abbrev pub advanced_past : Result (List ℕ) → File → Vnode → File
  advanced_past (ok buf) fd node = advanced (length buf) fd node
  advanced_past (failed e) fd node = fd

  unfoldable pub vfs_read : File → ℕ → Vfs → Result (List ℕ) × File
  vfs_read fd n s =
      let res : Result (List ℕ) = vfs_pread fd n fd.pos s in
      (res, advanced_past res fd (vnode_of s fd.entry))

unfoldable pub vfs_size : File → Vfs → ℕ
vfs_size fd s = let node : Vnode = vnode_of s fd.entry in node.size

abbrev pub with_dentries : Vfs → Option (Hashmap ℕ) → Option Vfs
with_dentries s none = none
with_dentries s (some cache) = some (record s { dentry_cache = cache })

abbrev pub with_vnodes : Vfs → Option (Hashmap ℕ) → Option Vfs
with_vnodes s none = none
with_vnodes s (some cache) = some (record s { vnode_cache = cache })

unfoldable pub vfs_cache_dentry : ℕ → Vfs → Option Vfs
vfs_cache_dentry d s =
    let ent : Dentry = s.dentries d in
    with_dentries s (hmap_add (dcache_key ent.parent ent.name) d s.dentry_cache)

unfoldable pub vfs_cache_vnode : ℕ → Vfs → Option Vfs
vfs_cache_vnode v s =
    let vnode : Vnode = s.vnodes v in
    with_vnodes s (hmap_add (vnode_key s.vfs vnode.number) v s.vnode_cache)

abbrev pub or_wild {ℓ} : {A : Type ℓ} → Option A → Outcome A
or_wild none = wild
or_wild (some a) = done a

abbrev pub cached_vnode : ℕ → Option Vfs → Option Vfs
cached_vnode v none = none
cached_vnode v (some s) = vfs_cache_vnode v s

-- The root dentry and the vnode that tmpfs_mount gives it are the first ones. The vnode allocated
-- here, which tmpfs_mount replaces, is what is cached: its number is 0, its mode a directory's, its
-- private_data NULL, which no call follows.
abbrev pub mounted_root : ℕ → Outcome (Vnode × Tmpfs) → Outcome Vfs
mounted_root vfs spinning = spinning
mounted_root vfs wild = wild
mounted_root vfs (done (root, fs)) =
    let node : Vnode = record {
      lock = false;
      mode = bit_or 0o040000 0o777;
      size = 0;
      number = 0;
      refcount = 0;
      private_data = 0;
    } in
    let entry : Dentry = record { name = slash ∷ []; parent = 0; vnode = 1; refcount = 1 } in
    or_wild (
      cached_vnode 2 (
        vfs_cache_dentry 1 (record {
          dentries = λ d. entry;
          next_dentry = 2;
          vnodes = λ v. if v == 2 then node else root;
          next_vnode = 3;
          dentry_cache = hmap_init;
          vnode_cache = hmap_init;
          vfs = vfs;
          fs = fs;
          global_root = 1;
        })))

-- `survives` as for tmpfs_mount.
unfoldable pub vfs_init : Bool → ℕ → Outcome Vfs
vfs_init survives vfs = mounted_root vfs (tmpfs_mount survives (slash ∷ []))
