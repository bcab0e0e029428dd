-- ===== src/Fs/Tmpfs.antt =====
-- The memory file system of kernel/src/fs/tmpfs.c. A `struct tmpfs_inode *` is the place of the inode
-- among those allocated, a name is the list of its bytes, a file's data the byte at each offset. Counts
-- and offsets are not negative and below 2 ^ 31, so that no sum or returned `int` wraps. `strcmp` finds
-- no difference exactly between equal lists of bytes. Allocations do not fail.
pub mod Bytes
pub mod Data
pub mod Names
pub mod Children
pub mod Calls
pub mod Mount
pub mod Keeps
use Prim.Native.Nat.{bit_and, bit_or, max, min}
use goofyos.Base.{
  ℕ, zero, suc, ◌+◌, ◌-◌, ◌*◌, ◌/◌, ◌%◌, Bool, true, false, List, [], ◌∷◌, ◌++◌, Option, none, some,
  ltb, leb, ◌==◌, ◌&&◌, if◌then◌else◌, length, get_or,
}
use goofyos.Dsa.Hashmap.{Hashmap, same_key, hmap_init, hmap_add, hmap_lookup}

-- `struct tmpfs_inode`
pub record Inode : Type 0 where
  pub name : List ℕ
  pub children : List ℕ
  pub bytes : ℕ → ℕ
  pub number : ℕ
  pub length : ℕ
  pub effective_length : ℕ
  pub mode : ℕ

-- `struct tmpfs_superblock`, the lock of its `struct vfs`, and the inodes allocated so far.
pub record Tmpfs : Type 0 where
  pub inodes : ℕ → Inode
  pub allocated : ℕ
  pub current_inode : ℕ
  pub tnode_cache : Hashmap ℕ
  pub lock : Bool

-- The fields of `struct vnode` that the operations use.
pub record Vnode : Type 0 where
  pub lock : Bool
  pub mode : ℕ
  pub size : ℕ
  pub number : ℕ
  pub refcount : ℕ
  pub private_data : ℕ

-- A call returns, or waits for a lock that is held, or follows a wild pointer (hmap_resize).
pub data Outcome {ℓ} (A : Type ℓ) : Type ℓ where
  done : A → Outcome A
  spinning wild : Outcome A

-- What an `int` result means: a value, or minus an error number.
pub data Result {ℓ} (A : Type ℓ) : Type ℓ where
  ok : A → Result A
  failed : ℕ → Result A

abbrev pub enoent : ℕ
enoent = 2

abbrev pub eexist : ℕ
eexist = 17

abbrev pub einval : ℕ
einval = 22

abbrev pub s_ifmt : ℕ
s_ifmt = 0o170000

abbrev pub s_ifreg : ℕ
s_ifreg = 0o100000

abbrev pub s_ifdir : ℕ
s_ifdir = 0o040000

-- `S_ISREG`
unfoldable pub is_regular : ℕ → Bool
is_regular mode = bit_and mode s_ifmt == s_ifreg

-- The little-endian bytes of a `long`, which the cache takes for the key.
unfoldable pub long_bytes : ℕ → ℕ → List ℕ
long_bytes zero n = []
long_bytes (suc width) n = n % 256 ∷ long_bytes width (n / 256)

-- The loop of tmpfs_has_file and of tmpfs_lookup: the first child with the name.
unfoldable pub find_name : (ℕ → Inode) → List ℕ → List ℕ → Option ℕ
find_name inodes [] name = none
find_name inodes (curr ∷ children) name =
    let c : Inode = inodes curr in
    if same_key c.name name then some curr else find_name inodes children name

abbrev pub is_child : Option ℕ → Bool
is_child none = false
is_child (some curr) = true

unfoldable pub tmpfs_has_file : Inode → List ℕ → (ℕ → Inode) → Bool
tmpfs_has_file node name inodes = is_child (find_name inodes node.children name)

abbrev pub place_inode : (ℕ → Inode) → ℕ → Inode → ℕ → Inode
place_inode inodes p i q = if p == q then i else inodes q

-- `dlist_back_push` to the children.
abbrev pub with_child : ℕ → Inode → Inode
with_child child i = record i { children = i.children ++ child ∷ [] }

-- The inode of a new file or directory.
abbrev pub child_inode : ℕ → List ℕ → ℕ → ℕ → Inode
child_inode kind name flags number = record {
  name = name;
  children = [];
  bytes = λ i. 0;
  number = number;
  length = 0;
  effective_length = 0;
  mode = bit_or (bit_and flags 0o7777) kind;
}

-- The allocation, the number and the parent's new child.
unfoldable pub new_child : ℕ → ℕ → List ℕ → ℕ → Tmpfs → Tmpfs
new_child kind tnode name flags fs =
    let inodes : ℕ → Inode =
      place_inode fs.inodes fs.allocated (child_inode kind name flags fs.current_inode) in
    record fs {
      inodes = place_inode inodes tnode (with_child fs.allocated (inodes tnode));
      allocated = suc fs.allocated;
      current_inode = suc fs.current_inode;
    }

-- A call's result, the vnode and the file system that it leaves.
pub record Called : Type 0 where
  pub code : Result ℕ
  pub node : Vnode
  pub fs : Tmpfs

abbrev pub cached : Vnode → Tmpfs → Option (Hashmap ℕ) → Outcome Called
cached node fs none = wild
cached node fs (some cache) =
    done (record { code = ok 0; node = node; fs = record fs { tnode_cache = cache } })

-- The body that tmpfs_mkdir and tmpfs_create share. A name that exists returns with the lock held.
unfoldable pub make_child : ℕ → Vnode → List ℕ → ℕ → Tmpfs → Outcome Called
make_child kind node name flags fs =
    if node.lock
    then spinning
    else if tmpfs_has_file (fs.inodes node.private_data) name fs.inodes
    then done (record { code = failed eexist; node = record node { lock = true }; fs = fs })
    else if fs.lock
    then spinning
    else cached node (new_child kind node.private_data name flags fs)
        (hmap_add (long_bytes 8 fs.current_inode) fs.allocated fs.tnode_cache)

unfoldable pub tmpfs_mkdir : Vnode → List ℕ → ℕ → Tmpfs → Outcome Called
tmpfs_mkdir = make_child s_ifdir

unfoldable pub tmpfs_create : Vnode → List ℕ → ℕ → Tmpfs → Outcome Called
tmpfs_create = make_child s_ifreg

-- The bytes of a block from an offset on.
unfoldable pub bytes_at : (ℕ → ℕ) → ℕ → ℕ → List ℕ
bytes_at bytes off zero = []
bytes_at bytes off (suc n) = bytes off ∷ bytes_at bytes (suc off) n

-- The bytes copied to the buffer, which start at the file's first whatever the offset is.
unfoldable pub tmpfs_read : Vnode → ℕ → ℕ → Tmpfs → Result (List ℕ)
tmpfs_read node n off fs =
    let tnode : Inode = fs.inodes node.private_data in
    if is_regular node.mode
    then if leb tnode.length off
      then ok []
      else ok (bytes_at tnode.bytes 0 (min n (tnode.length - off)))
    else failed einval

-- `vmalloc` of whole pages, whose bytes are `fresh`, and the copy of the old data.
unfoldable pub with_room : (ℕ → ℕ) → ℕ → Inode → Inode
with_room fresh new_length tnode =
    if ltb tnode.effective_length new_length
    then record tnode {
      bytes = λ i. if ltb i tnode.length then tnode.bytes i else fresh i;
      effective_length = (new_length + 0xfff) / 4096 * 4096;
    }
    else tnode

-- `memcpy` of the buffer to an offset.
abbrev pub overwrite : (ℕ → ℕ) → ℕ → List ℕ → ℕ → ℕ
overwrite bytes off buf i =
    if leb off i && ltb i (off + length buf) then get_or buf (i - off) 0 else bytes i

unfoldable pub written_inode : (ℕ → ℕ) → List ℕ → ℕ → Inode → Inode
written_inode fresh buf off tnode =
    let new_length : ℕ = max tnode.length (off + length buf) in
    let roomy : Inode = with_room fresh new_length tnode in
    record roomy { bytes = overwrite roomy.bytes off buf; length = new_length }

-- `buf` is the n bytes to write.
unfoldable pub tmpfs_write : (ℕ → ℕ) → Vnode → List ℕ → ℕ → Tmpfs → Called
tmpfs_write fresh node buf off fs =
    let tnode : Inode = written_inode fresh buf off (fs.inodes node.private_data) in
    if is_regular node.mode
    then record {
      code = ok (length buf);
      node = record node { size = tnode.length };
      fs = record fs { inodes = place_inode fs.inodes node.private_data tnode };
    }
    else record { code = failed einval; node = node; fs = fs }

abbrev pub number_of : (ℕ → Inode) → Option ℕ → Result ℕ
number_of inodes none = failed enoent
number_of inodes (some curr) = let c : Inode = inodes curr in ok c.number

unfoldable pub tmpfs_lookup : Vnode → List ℕ → Tmpfs → Outcome (Result ℕ)
tmpfs_lookup node name fs =
    let tnode : Inode = fs.inodes node.private_data in
    if node.lock
    then spinning
    else done (number_of fs.inodes (find_name fs.inodes tnode.children name))

abbrev pub node_of : (ℕ → Inode) → ℕ → Option ℕ → Result Vnode
node_of inodes num none = failed enoent
node_of inodes num (some tnode) =
    let t : Inode = inodes tnode in
    ok (record {
      lock = false;
      mode = t.mode;
      size = t.length;
      number = num;
      refcount = 1;
      private_data = tnode;
    })

unfoldable pub tmpfs_create_node : ℕ → Tmpfs → Result Vnode
tmpfs_create_node num fs = node_of fs.inodes num (hmap_lookup (long_bytes 8 num) fs.tnode_cache)

-- The root inode's name is the dentry's. Its mode stays 0, the vnode's does not.
abbrev pub root_inode : List ℕ → Inode
root_inode name = record {
  name = name;
  children = [];
  bytes = λ i. 0;
  number = 0;
  length = 0;
  effective_length = 0;
  mode = 0;
}

abbrev pub root_vnode : Vnode
root_vnode = record {
  lock = false;
  mode = bit_or s_ifdir 0o777;
  size = 0;
  number = 0;
  refcount = 1;
  private_data = 0;
}

abbrev pub mounted_with : List ℕ → Option (Hashmap ℕ) → Outcome (Vnode × Tmpfs)
mounted_with name none = wild
mounted_with name (some cache) = done (
  root_vnode,
  record {
    inodes = λ p. root_inode name;
    allocated = 1;
    current_inode = 1;
    tnode_cache = cache;
    lock = false;
  },
)

-- At its end tmpfs_mount calls dentry_resolve for the path that it prints, which reads the bytes of the
-- name, and what is behind them, as a struct dentry, follows the pointer found there, and copies from it
-- to a buffer on the stack: `survives` says whether the memory is such that this comes back and has
-- harmed nothing.
unfoldable pub tmpfs_mount : Bool → List ℕ → Outcome (Vnode × Tmpfs)
tmpfs_mount survives name =
    if survives then mounted_with name (hmap_add (long_bytes 8 0) 0 hmap_init) else wild
