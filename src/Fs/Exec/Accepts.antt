-- ===== src/Fs/Exec/Accepts.antt =====
-- Which files the loader of kernel/src/fs/exec accepts.
use goofyos.Base.{
  ℕ, zero, suc, ◌+◌, ◌-◌, ◌≡◌, refl, ap, true, false, [], ◌&&◌, ltb, leb, if◌then◌else◌, length,
  arith, inl, inr, Bool-cases,
}
use Prim.Native.Nat.{min}
use goofyos.Fs.Tmpfs.{Vnode, Inode, ok, failed, is_regular, tmpfs_read, bytes_at}
use goofyos.Fs.Vfs.{Vfs, File, tmpfs_operations}
use goofyos.Fs.Vfs.Calls.{vnode_of, vfs_size, vfs_pread}
use goofyos.Fs.Exec.{read_header, run_elf_file, exec_file}

abbrev data_of : File → Vfs → Inode
data_of file s = let node : Vnode = vnode_of s file.entry in s.fs.inodes node.private_data

length-bytes_at : (f : ℕ → ℕ) (at n : ℕ) → length (bytes_at f at n) ≡ n
unfolding bytes_at
length-bytes_at f at zero = refl
length-bytes_at f at (suc n) = ap suc (length-bytes_at f (suc at) n)

-- What a read of a header of 64 bytes from a file of `l` bytes at the position `p` gives.
read_header_lem :
    (f : ℕ → ℕ) (l p : ℕ)
    → read_header (if leb l p then ok [] else ok (bytes_at f 0 (min 64 (l - p))))
      ≡ (if leb (p + 64) l then ok 0 else failed 8)
read_header_lem f l p = elim (Bool-cases (leb l p)) [
  | inl e ↦ ground arith
  | inr e ↦ rw (e, length-bytes_at f 0 (min 64 (l - p))) (ground arith)
]

-- A regular file of tmpfs is accepted exactly if its vnode says at least 64 bytes and there are 64 bytes
-- behind the position of the descriptor, whatever these bytes are; the result is 0 or ENOEXEC.
pub exec_file_lem :
    (fresh : ℕ → ℕ) (file : File) (s : Vfs)
    → is_regular (vnode_of s file.entry).mode ≡ true
    → exec_file (tmpfs_operations fresh) file s ≡ (
        if leb 64 (vfs_size file s) && leb (file.pos + 64) (data_of file s).length
        then ok 0
        else failed 8)
unfolding exec_file run_elf_file vfs_pread tmpfs_read
exec_file_lem fresh file s regular =
    let read = read_header_lem (data_of file s).bytes (data_of file s).length file.pos in
    elim (Bool-cases (ltb (vfs_size file s) 64)) [
      | inl e ↦ let few : leb 64 (vfs_size file s) ≡ false = ground arith in rw (e, few) refl
      | inr e ↦
          let many : leb 64 (vfs_size file s) ≡ true = ground arith in
          rw (regular, e, read, many)
            (elim (Bool-cases (leb (file.pos + 64) (data_of file s).length)) [
              | inl q ↦ rw q refl
              | inr q ↦ rw q refl
            ])
    ]
