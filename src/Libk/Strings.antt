-- ===== src/Libk/Strings.antt =====
-- The string functions of kernel/src/libk/string.c over the byte memory of Libk.Memory. A loop
-- that runs to a NUL takes fuel; `none` means that the fuel ran out.
pub mod Compare
pub mod Copy
use goofyos.Base.{
  ℕ, zero, suc, ◌+◌, ◌%◌, Bool, true, false, ◌&&◌, Option, none, some, ◌==◌, ltb, if◌then◌else◌,
}
use goofyos.Base.Int.{ℤ, pos, negsuc, sub_ℕ}
use goofyos.Libk.Memory.{Mem, write, memcpy}

-- `for (i = 0; str[i]; i++);` from `i` on
unfoldable pub strlen_from : ℕ → ℕ → ℕ → Mem → Option ℕ
strlen_from zero str i m = none
strlen_from (suc fuel) str i m =
    let rest : Option ℕ = strlen_from fuel str (i + 1) m in
    if m (str + i) == 0 then some i else rest

unfoldable pub strlen : ℕ → ℕ → Mem → Option ℕ
strlen fuel str m = strlen_from fuel str 0 m

unfoldable pub strcmp : ℕ → ℕ → ℕ → Mem → Option ℤ
strcmp zero str1 str2 m = none
strcmp (suc fuel) str1 str2 m =
    let rest : Option ℤ = strcmp fuel (str1 + 1) (str2 + 1) m in
    if m str1 == 0
    then some (sub_ℕ (m str1) (m str2))
    else if m str1 == m str2
    then rest
    else some (sub_ℕ (m str1) (m str2))

-- The loop of strncmp with `n` rounds left.
unfoldable pub strncmp : ℕ → ℕ → ℕ → Mem → ℤ
strncmp str1 str2 zero m = pos 0
strncmp str1 str2 (suc n) m =
    let rest : ℤ = strncmp (str1 + 1) (str2 + 1) n m in
    if m str1 == m str2 then (if m str1 == 0 then pos 0 else rest) else sub_ℕ (m str1) (m str2)

-- A `char` is signed: the order of its values is that of the bytes moved by half the range.
unfoldable pub char_lt : ℕ → ℕ → Bool
char_lt a b = ltb ((a + 128) % 256) ((b + 128) % 256)

unfoldable pub memcmp : ℕ → ℕ → ℕ → Mem → ℤ
memcmp str1 str2 zero m = pos 0
memcmp str1 str2 (suc n) m =
    let rest : ℤ = memcmp (str1 + 1) (str2 + 1) n m in
    if char_lt (m str1) (m str2)
    then negsuc 0
    else if char_lt (m str2) (m str1)
    then pos 1
    else rest

-- `str1[len] = '\0'; return len;` behind the copy
unfoldable pub copied : ℕ → ℕ → Mem → Option ℕ → Option (ℕ × Mem)
copied str1 str2 m none = none
copied str1 str2 m (some len) = some (len, write (memcpy str1 str2 len m) (str1 + len) 0)

unfoldable pub strcpy : ℕ → ℕ → ℕ → Mem → Option (ℕ × Mem)
strcpy fuel str1 str2 m = copied str1 str2 m (strlen fuel str2 m)

abbrev pub allotted : ℕ → ℕ → Option (ℕ × Mem) → Option (ℕ × ℕ × Mem)
allotted size new none = none
allotted size new (some (len, m)) = some (size, new, m)

-- `fresh` is what `kmalloc` returns for the size that it is asked for; the result has that size,
-- the new string and the memory.
unfoldable pub duplicated : ℕ → (ℕ → ℕ) → ℕ → Mem → Option ℕ → Option (ℕ × ℕ × Mem)
duplicated fuel fresh str m none = none
duplicated fuel fresh str m (some size) =
    allotted size (fresh size) (strcpy fuel (fresh size) str m)

unfoldable pub strdup : ℕ → (ℕ → ℕ) → ℕ → Mem → Option (ℕ × ℕ × Mem)
strdup fuel fresh str m = duplicated fuel fresh str m (strlen fuel str m)
