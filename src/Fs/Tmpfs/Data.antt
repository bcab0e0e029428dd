-- ===== src/Fs/Tmpfs/Data.antt =====
-- The bytes of files of kernel/src/fs/tmpfs.c: what a write leaves, and what reads find.
use Prim.Native.Nat.{max, min}
use goofyos.Base.{
  ℕ, ◌+◌, ◌-◌, ◌%◌, ◌≡◌, ◌≢◌, ◌∙◌, ◌<◌, ◌≤◌, refl, ap, true, false, List, ◌++◌, ltb, leb, leb→le,
  ltb→le, ==_self, length, arith, Bool-cases, inl, inr,
}
use goofyos.Fs.Tmpfs.{
  Inode, Tmpfs, Vnode, ok, Called, is_regular, bytes_at, tmpfs_read, with_room, overwrite,
  written_inode, tmpfs_write, place_inode,
}
use goofyos.Fs.Tmpfs.Bytes.{bytes_at-ext, bytes_at-get, overwrite_inside, overwrite-contents}

-- The file's bytes.
pub contents : Inode → List ℕ
contents i = bytes_at i.bytes 0 i.length

-- Whole pages, with room for the file.
pub record IsRoomy (i : Inode) : Type 0 where
  pub room : i.length ≤ i.effective_length
  pub pages : i.effective_length % 4096 ≡ 0

-- The two branches of with_room hold the same bytes below the length.
with_room-contents :
    (fresh : ℕ → ℕ) (new_length : ℕ) (t : Inode) (i : ℕ)
    → i < t.length
    → (with_room fresh new_length t).bytes i ≡ t.bytes i
unfolding with_room
with_room-contents fresh new_length t i p = ground arith

with_room-IsRoomy :
    (fresh : ℕ → ℕ) (new_length : ℕ) (t : Inode)
    → IsRoomy t
    → (new_length ≤ (with_room fresh new_length t).effective_length)
      × ((with_room fresh new_length t).effective_length % 4096 ≡ 0)
unfolding with_room
with_room-IsRoomy fresh new_length t r = elim (Bool-cases (ltb t.effective_length new_length)) [
  | inl h ↦ rw h (omega arith, omega arith)
  | inr h ↦ rw h (ltb→le _ _ h, r.pages)
]

-- What the operations say of an inode that was written_inode.
pub record Writes (old new : Inode) (off : ℕ) (buf : List ℕ) : Type 0 where
  pub stored :
      contents new
      ≡ bytes_at old.bytes 0 off
        ++ (buf ++ bytes_at old.bytes (off + length buf) (old.length - (off + length buf)))
  pub sized : new.length ≡ max old.length (off + length buf)
  pub roomy : IsRoomy new
  pub named : new.name ≡ old.name
  pub family : new.children ≡ old.children
  pub numbered : new.number ≡ old.number

with_room-kept :
    (fresh : ℕ → ℕ) (new_length : ℕ) (t : Inode)
    → ((with_room fresh new_length t).name ≡ t.name)
      × (((with_room fresh new_length t).children ≡ t.children)
          × ((with_room fresh new_length t).number ≡ t.number))
unfolding with_room
with_room-kept fresh new_length t = elim (Bool-cases (ltb t.effective_length new_length)) [
  | inl h ↦ rw h (refl, (refl, refl))
  | inr h ↦ rw h (refl, (refl, refl))
]

pub written_inode-Writes :
    (fresh : ℕ → ℕ) (buf : List ℕ) (off : ℕ) (t : Inode)
    → IsRoomy t
    → off ≤ t.length
    → Writes t (written_inode fresh buf off t) off buf
unfolding written_inode contents
written_inode-Writes fresh buf off t r p =
    let n : ℕ = length buf in
    let len : ℕ = max t.length (off + n) in
    let u : Inode = with_room fresh len t in
    let kept = with_room-kept fresh len t in
    let space = with_room-IsRoomy fresh len t r in
    let early : bytes_at u.bytes 0 off ≡ bytes_at t.bytes 0 off =
      bytes_at-ext u.bytes t.bytes 0 off
        (λ i l h. with_room-contents fresh len t i (omega arith)) in
    let late : bytes_at u.bytes (off + n) (t.length - (off + n))
        ≡ bytes_at t.bytes (off + n) (t.length - (off + n)) =
      bytes_at-ext u.bytes t.bytes (off + n) (t.length - (off + n))
        (λ i l h. with_room-contents fresh len t i (omega arith)) in
    record {
      stored = overwrite-contents u.bytes off t.length buf p ∙ rw (early, late) refl;
      sized = refl;
      roomy = record { room = space.0; pages = space.1 };
      named = kept.0;
      family = kept.1.0;
      numbered = kept.1.1;
    }

-- What a call of tmpfs_write leaves for a regular file.
pub record Stores (node : Vnode) (buf : List ℕ) (off : ℕ) (fs : Tmpfs) (r : Called) : Type 0 where
  pub code : r.code ≡ ok (length buf)
  pub file : Writes (fs.inodes node.private_data) (r.fs.inodes node.private_data) off buf
  pub size : r.node.size ≡ max (fs.inodes node.private_data).length (off + length buf)
  pub others : (p : ℕ) → p ≢ node.private_data → r.fs.inodes p ≡ fs.inodes p
  pub back : off ≡ 0 → tmpfs_read r.node (length buf) 0 r.fs ≡ ok buf

-- A read from the start gives the first bytes.
tmpfs_read_start :
    (node : Vnode) (n : ℕ) (fs : Tmpfs)
    → is_regular node.mode ≡ true
    → tmpfs_read node n 0 fs
      ≡ ok (
          bytes_at
            (fs.inodes node.private_data).bytes
            0
            (min n (fs.inodes node.private_data).length))
unfolding tmpfs_read bytes_at
tmpfs_read_start node n fs regular =
    let t : Inode = fs.inodes node.private_data in
    elim (Bool-cases (leb t.length 0)) [
      | inl h ↦
          let empty = leb→le t.length 0 h in
          let none_left : min n t.length ≡ 0 = omega arith in rw (regular, h, none_left) refl
      | inr h ↦ let all : t.length - 0 ≡ t.length = omega arith in rw (regular, h, all) refl
    ]

written_inode-start :
    (fresh : ℕ → ℕ) (buf : List ℕ) (t : Inode)
    → bytes_at
        (written_inode fresh buf 0 t).bytes
        0
        (min (length buf) (written_inode fresh buf 0 t).length)
      ≡ buf
unfolding written_inode
written_inode-start fresh buf t =
    let u : Inode = with_room fresh (max t.length (0 + length buf)) t in
    let count : min (length buf) (max t.length (0 + length buf)) ≡ length buf = ground arith in
    rw count (bytes_at-get (overwrite u.bytes 0 buf) 0 buf (overwrite_inside u.bytes 0 buf))

place_inode_other :
    (inodes : ℕ → Inode) (p : ℕ) (i : Inode) (q : ℕ) → q ≢ p → place_inode inodes p i q ≡ inodes q
place_inode_other inodes p i q d = ground arith

-- A write by tmpfs_write to a regular file, starting inside it or at its end, returns its count and
-- leaves a file of the bytes before the offset, the buffer and the bytes after it, in whole pages with
-- room for them; the name, number and children of the file and every other inode stay, the vnode has
-- the new length, and what was written_inode at the start is what tmpfs_read then returns.
pub tmpfs_write-Stores :
    (fresh : ℕ → ℕ) (node : Vnode) (buf : List ℕ) (off : ℕ) (fs : Tmpfs)
    → is_regular node.mode ≡ true
    → IsRoomy (fs.inodes node.private_data)
    → off ≤ (fs.inodes node.private_data).length
    → Stores node buf off fs (tmpfs_write fresh node buf off fs)
unfolding tmpfs_write
tmpfs_write-Stores fresh node buf off fs regular roomy inside =
    let p : ℕ = node.private_data in
    let t : Inode = fs.inodes p in
    let w : Inode = written_inode fresh buf off t in
    let writes = written_inode-Writes fresh buf off t roomy inside in
    rw regular (record {
      code = refl;
      file = rw (==_self p) writes;
      size = writes.sized;
      others = λ q d. place_inode_other fs.inodes p w q d;
      back = λ start.
          tmpfs_read_start (record node { size = w.length }) (length buf) _ regular
          ∙ rw (==_self p, start) (ap ok (written_inode-start fresh buf t));
    })

-- tmpfs_read inside a regular file returns as many bytes as are asked for and follow the offset, but
-- takes them from the file's start: it gives what a read of that count at offset 0 gives.
pub tmpfs_read-from_start :
    (node : Vnode) (n off : ℕ) (fs : Tmpfs)
    → is_regular node.mode ≡ true
    → off < (fs.inodes node.private_data).length
    → tmpfs_read node n off fs
      ≡ tmpfs_read node (min n ((fs.inodes node.private_data).length - off)) 0 fs
unfolding tmpfs_read
tmpfs_read-from_start node n off fs regular inside =
    let t : Inode = fs.inodes node.private_data in
    let first : leb t.length off ≡ false = ground arith in
    let second : leb t.length 0 ≡ false = ground arith in
    let count : min (min n (t.length - off)) (t.length - 0) ≡ min n (t.length - off) =
      omega arith in
    rw (regular, first, second, count) refl
