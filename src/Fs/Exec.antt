-- ===== src/Fs/Exec.antt =====
-- The loader of kernel/src/fs/exec, as far as it goes: binfmt.c and binfmt_elf.c, over the calls of
-- kernel/src/fs/vfs.c. `kzalloc` of the parameters succeeds, and they live only during the call.
pub mod Accepts
use goofyos.Base.{
  ℕ, zero, suc, ◌+◌, ◌*◌, ◌^◌, Bool, true, false, List, ◌&&◌, ◌==◌, ltb, if◌then◌else◌, length,
}
use goofyos.Base.Int.{ℤ, pos, negsuc}
use goofyos.Libk.Memory.{Mem}
use goofyos.Libk.Strings.{memcmp}
use goofyos.Fs.Tmpfs.{Result, ok, failed}
use goofyos.Fs.Vfs.{Vfs, VnodeOperations, File}
use goofyos.Fs.Vfs.Calls.{vfs_size, vfs_pread}

-- A little-endian field of two bytes, and of four.
abbrev pub half : ℕ → Mem → ℕ
half a m = m a + m (a + 1) * 2 ^ 8

abbrev pub word : ℕ → Mem → ℕ
word a m = half a m + half (a + 2) m * 2 ^ 16

abbrev pub is_zero : ℤ → Bool
is_zero (pos zero) = true
is_zero (pos (suc n)) = false
is_zero (negsuc n) = false

-- The header is at `hdr` and the text ELFMAG at `magic`.
unfoldable pub validate_elf : ℕ → ℕ → Mem → Bool
validate_elf hdr magic m =
    if is_zero (memcmp hdr magic 4 m)
    then false
    else if m (hdr + 4) == 2
    then if m (hdr + 5) == 1
      then if half (hdr + 18) m == 62
        then if word (hdr + 20) m == 1 then half (hdr + 16) m == 2 else false
        else false
      else false
    else false

-- 64 is the size of `struct elf64_hdr`. `failed 8` is -ENOEXEC.
abbrev pub read_header : Result (List ℕ) → Result ℕ
read_header (failed e) = failed 8
read_header (ok buf) = if length buf == 64 then ok 0 else failed 8

unfoldable pub run_elf_file : VnodeOperations → File → Vfs → Result ℕ
run_elf_file ops executable s =
    if ltb (vfs_size executable s) 64
    then failed 8
    else read_header (vfs_pread ops executable 64 0 s)

abbrev pub ran : Result ℕ → Result ℕ
ran (failed e) = failed 8
ran (ok err) = if err == 0 then ok 0 else failed 8

unfoldable pub exec_file : VnodeOperations → File → Vfs → Result ℕ
exec_file ops file s = ran (run_elf_file ops file s)
