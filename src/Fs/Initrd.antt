-- ===== src/Fs/Initrd.antt =====
-- The unpacking of the initial ram disk, kernel/src/fs/initrd.c. The archive is a memory of bytes, each
-- below 128 in the texts of a header, and a header is named by its address. What is printed is left out.
pub mod Headers
use goofyos.Base.{
  ℕ, zero, suc, ◌+◌, ◌-◌, ◌*◌, ◌/◌, ◌%◌, ◌^◌, Bool, true, false, List, [], ◌∷◌, Option, none, ltb,
  some, ◌==◌, ◌||◌, if◌then◌else◌,
}
use goofyos.Dsa.Hashmap.{same_key}
use goofyos.Fs.Tmpfs.{Outcome, done, spinning, wild, Result, ok, failed, bytes_at}
use goofyos.Fs.Vfs.{Vfs, VnodeOperations, File, Returned}
use goofyos.Fs.Vfs.Calls.{vfs_mkdir, vfs_create, vfs_open, vfs_write}

-- The loop of oct2bin from a digit on; the `int` wraps round.
unfoldable pub oct_from : (ℕ → ℕ) → ℕ → ℕ → ℕ → ℕ
oct_from mem str zero n = n
oct_from mem str (suc size) n =
    oct_from mem (suc str) size ((n * 8 + mem str + (2 ^ 32 - 48)) % 2 ^ 32)

unfoldable pub oct2bin : (ℕ → ℕ) → ℕ → ℕ → ℕ
oct2bin mem str size = oct_from mem str size 0

-- The fields of `struct posix_ustar_header` that are read.
abbrev pub size_field : ℕ → ℕ
size_field header = header + 124

abbrev pub typeflag_field : ℕ → ℕ
typeflag_field header = header + 156

abbrev pub magic_field : ℕ → ℕ
magic_field header = header + 257

-- `strcmp` with "ustar", of which the NUL is a part.
abbrev pub is_ustar : (ℕ → ℕ) → ℕ → Bool
is_ustar mem header =
    same_key (bytes_at mem (magic_field header) 6) (117 ∷ 115 ∷ 116 ∷ 97 ∷ 114 ∷ 0 ∷ [])

-- The 32 bits of `(((filesize + 511) / 512) + 1) * 512`, an `int`: the sum and the product wrap round,
-- and the division of a negative sum rounds to 0.
abbrev pub aligned : ℕ → ℕ
aligned filesize =
    let sum : ℕ = (filesize + 511) % 2 ^ 32 in
    if ltb sum (2 ^ 31)
    then (sum / 512 + 1) * 512 % 2 ^ 32
    else (2 ^ 32 + 512 - (2 ^ 32 - sum) / 512 * 512) % 2 ^ 32

-- A negative offset goes back.
abbrev pub next_block : ℕ → ℕ → ℕ
next_block header filesize =
    let offset : ℕ = aligned filesize in
    if ltb offset (2 ^ 31) then header + offset else header + offset - 2 ^ 32

-- `none` is NULL.
unfoldable pub ustar_next : (ℕ → ℕ) → ℕ → Option ℕ
ustar_next mem header =
    let new : ℕ = next_block header (oct2bin mem (size_field header) 11) in
    if is_ustar mem new then some new else none

-- The text up to its NUL, of which a name field has at most 100 bytes.
unfoldable pub text_at : (ℕ → ℕ) → ℕ → ℕ → List ℕ
text_at mem str zero = []
text_at mem str (suc room) =
    let rest : List ℕ = text_at mem (suc str) room in if mem str == 0 then [] else mem str ∷ rest

-- The state behind a call whose error is only printed.
abbrev pub whatever {ℓ} : {A : Type ℓ} → Outcome (Returned A) → Outcome Vfs
whatever (done r) = done r.state
whatever spinning = spinning
whatever wild = wild

abbrev pub left_by_write : Result ℕ × File × Vfs → Outcome Vfs
left_by_write (code, fd, s) = done s

module _ (ops : VnodeOperations) (mem : ℕ → ℕ) where
  -- A file that does not open is written through a descriptor without an entry, and a negative size is
  -- a count without bound for memcpy.
  abbrev pub write_opened : ℕ → Outcome (Returned File) → Outcome Vfs
  write_opened header (done r) = elim r.code [
    | ok fd ↦
        let size : ℕ = oct2bin mem (size_field header) 11 in
        if ltb size (2 ^ 31)
        then left_by_write (vfs_write ops fd (bytes_at mem (header + 512) size) r.state)
        else wild
    | failed e ↦ wild
  ]
  write_opened header spinning = spinning
  write_opened header wild = wild

  abbrev pub fill_created : ℕ → Outcome (Returned ℕ) → Outcome Vfs
  fill_created header (done r) = elim r.code [
    | ok code ↦ write_opened header (vfs_open ops (text_at mem header 100) 0 0 r.state)
    | failed e ↦ done r.state
  ]
  fill_created header spinning = spinning
  fill_created header wild = wild

  -- The body of unpack_ustar's loop.
  unfoldable pub unpack_file : ℕ → Vfs → Outcome Vfs
  unpack_file header s =
      let name : List ℕ = text_at mem header 100 in
      let flag : ℕ = mem (typeflag_field header) in
      if same_key name (46 ∷ 47 ∷ [])
      then done s
      else if flag == 53
      then whatever (vfs_mkdir ops name 0 0 s)
      else if (flag == 0) || (flag == 48)
      then fill_created header (vfs_create ops name 0 0 s)
      else done s

  abbrev pub go_on : Outcome Vfs → (Vfs → Option (Outcome Vfs)) → Option (Outcome Vfs)
  go_on (done t) next = next t
  go_on spinning next = some spinning
  go_on wild next = some wild

  -- The loop of unpack_ustar; `none` is more headers than fuel.
  unfoldable pub unpack_ustar : ℕ → Option ℕ → Vfs → Option (Outcome Vfs)
  unpack_ustar zero fs s = none
  unpack_ustar (suc fuel) none s = some (done s)
  unpack_ustar (suc fuel) (some header) s =
      go_on (unpack_file header s) (unpack_ustar fuel (ustar_next mem header))
