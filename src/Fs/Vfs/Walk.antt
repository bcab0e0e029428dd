-- ===== src/Fs/Vfs/Walk.antt =====
-- The search for paths of kernel/src/fs/vfs.c over a mounted tmpfs.
use goofyos.Base.{
  ℕ, suc, ◌+◌, ◌^◌, ◌≡◌, ◌<◌, ◌≤◌, refl, false, List, [], ◌∷◌, Option, none, some, All, ◌==◌,
  if◌then◌else◌, arith, Bool-cases, inl, inr, ==→eq, ==_self,
}
use goofyos.Dsa.Hashmap.{same_key, hmap_lookup}
use goofyos.Fs.Tmpfs.{Inode, Tmpfs, Vnode, Outcome, done, ok, failed, enoent}
use goofyos.Fs.Tmpfs.Children.{IsTmpfs}
use goofyos.Fs.Tmpfs.Calls.{child_named}
use goofyos.Fs.Vfs.{Vfs, Returned, vnode_key, dcache_key, dot}
use goofyos.Fs.Vfs.Calls.{vnode_of}

-- The inode that the files lead to from a directory.
unfoldable pub walk : Tmpfs → ℕ → List (List ℕ) → Option ℕ
walk fs p [] = some p
walk fs p (file ∷ files) =
    if same_key file dot
    then walk fs p files
    else elim (child_named fs p file) [ none ↦ none | some c ↦ walk fs c files ]

-- A dentry in use: its vnode is allocated, unlocked, and for an inode of the file system.
pub record IsEntry (s : Vfs) (d : ℕ) : Type 0 where
  pub node : (s.dentries d).vnode < s.next_vnode
  pub unlocked : (vnode_of s d).lock ≡ false
  pub inode : (vnode_of s d).private_data < s.fs.allocated

-- Every dentry is in use, only the root is in the caches, and no directory has the root for a child.
pub record IsVfs (s : Vfs) : Type 0 where
  pub fs : IsTmpfs s.fs
  pub few : s.fs.allocated ≤ 256 ^ 8
  pub entries : (d : ℕ) → 0 < d → d < s.next_dentry → IsEntry s d
  pub dentry_uncached :
      (d : ℕ) (name : List ℕ)
      → 0 < d
      → d < 256 ^ 8
      → hmap_lookup (dcache_key d name) s.dentry_cache ≡ none
  pub vnode_uncached :
      (num : ℕ) → 0 < num → num < 256 ^ 8 → hmap_lookup (vnode_key s.vfs num) s.vnode_cache ≡ none
  pub rootless : (p : ℕ) → p < s.fs.allocated → All (λ c. 0 < c) (s.fs.inodes p).children

-- What a call returns for the inode that is sought.
abbrev pub IsAt : Option ℕ → Returned ℕ → Type 0
IsAt none r = r.code ≡ failed enoent
IsAt (some p) r =
    (d : ℕ) × (r.code ≡ ok d)
    × (0 < d)
    × (d < r.state.next_dentry)
    × ((vnode_of r.state d).private_data ≡ p)

-- A search that ends, with the inode sought, in a state that is well formed and has the same files.
pub record Reaches (call : Outcome (Returned ℕ)) (sought : Option ℕ) (s : Vfs) (steps : ℕ)
    : Type 0 where
  pub result : Returned ℕ
  pub returned : call ≡ done result
  pub at : IsAt sought result
  pub good : IsVfs result.state
  pub same_fs : result.state.fs ≡ s.fs
  pub grew : result.state.next_dentry ≤ s.next_dentry + steps

-- The state with one more dentry and vnode.
abbrev pub entered : ℕ → List ℕ → Vnode → Vfs → Vfs
entered dent name v s = record s {
  dentries = λ q.
      if s.next_dentry == q
      then record { name = name; parent = dent; vnode = s.next_vnode; refcount = 1 }
      else s.dentries q;
  next_dentry = suc s.next_dentry;
  vnodes = λ q. if s.next_vnode == q then v else s.vnodes q;
  next_vnode = suc s.next_vnode;
}

pub entered-new :
    (dent : ℕ) (name : List ℕ) (v : Vnode) (s : Vfs)
    → vnode_of (entered dent name v s) s.next_dentry ≡ v
entered-new dent name v s = rw (==_self s.next_dentry, ==_self s.next_vnode) refl

entered-old :
    (dent : ℕ) (name : List ℕ) (v : Vnode) (s : Vfs) (d : ℕ)
    → d < s.next_dentry
    → IsEntry s d
    → IsEntry (entered dent name v s) d
entered-old dent name v s d h e =
    let other : (s.next_dentry == d) ≡ false = ground arith in
    let node = e.node in
    let apart : (s.next_vnode == (s.dentries d).vnode) ≡ false = ground arith in
    record {
      node = rw other (omega (arith, node));
      unlocked = rw (other, apart) e.unlocked;
      inode = rw (other, apart) e.inode;
    }

pub entered-IsVfs :
    (dent : ℕ) (name : List ℕ) (v : Vnode) (s : Vfs)
    → IsVfs s
    → v.lock ≡ false
    → v.private_data < s.fs.allocated
    → IsVfs (entered dent name v s)
entered-IsVfs dent name v s good unlocked here = record {
  fs = good.fs;
  few = good.few;
  entries = λ d p h. elim (Bool-cases (d == s.next_dentry)) [
    | inl e ↦
        let new = ==→eq d s.next_dentry e in
        rw new (record {
          node = rw (==_self s.next_dentry) (omega arith);
          unlocked = rw (entered-new dent name v s) unlocked;
          inode = rw (entered-new dent name v s) here;
        })
    | inr e ↦
        let old : d < s.next_dentry = ground arith in
        entered-old dent name v s d old (good.entries d p old)
  ];
  dentry_uncached = good.dentry_uncached;
  vnode_uncached = good.vnode_uncached;
  rootless = good.rootless;
}

-- The vnode that tmpfs_create_node gives for an inode.
abbrev pub node_for : Tmpfs → ℕ → Vnode
node_for fs c =
    let t : Inode = fs.inodes c in
    record {
      lock = false;
      mode = t.mode;
      size = t.length;
      number = c;
      refcount = 1;
      private_data = c;
    }
