-- ===== src/Mm/Mapper.antt =====
-- The page tables of kernel/src/mm/mapper.c. A table is named by its physical address and holds 512
-- entries; the code reaches it through the direct map, whose offset cancels.
pub mod Bits
pub mod Tree
pub mod Enter
pub mod Write
pub mod Map
pub mod Walk
use Prim.Native.Nat.{bit_or}
use goofyos.Base.{
  ℕ, zero, suc, ◌+◌, ◌-◌, ◌*◌, ◌/◌, ◌%◌, ◌^◌, Bool, true, false, ◌&&◌, List, [], ◌∷◌, Option, none,
  some, ltb, ◌==◌, if◌then◌else◌,
}
use goofyos.Base.Int.{ℤ, signed32}

-- `fresh` are the pages that mapper_alloc_zpage will return, and `locked` is the lock of the
-- `struct page_table`.
pub record Tables : Type 0 where
  pub entry : ℕ → ℕ → ℕ
  pub fresh : List ℕ
  pub locked : Bool

-- How a call ends: `halted` is hcf, `no_page` a table at NULL, `spinning` an acquire that never
-- returns.
pub data Mapped {ℓ} (A : Type ℓ) : Type ℓ where
  ok : A → Mapped A
  halted no_page spinning : Mapped A

infixl 5 ◌>>=◌
abbrev pub ◌>>=◌ {ℓ κ} : {A : Type ℓ} {B : Type κ} → Mapped A → (A → Mapped B) → Mapped B
ok a >>= next = next a
halted >>= next = halted
no_page >>= next = no_page
spinning >>= next = spinning

-- `(uint64_t)addr >> (12 + 9 * level) & 0x1ff`
unfoldable pub get_index : ℕ → ℕ → ℕ
get_index level addr = addr / 2 ^ (12 + 9 * level) % 512

-- `*table & PG_PRESENT`
abbrev pub present : ℕ → Bool
present value = value % 2 == 1

-- `*table & PG_PS`, which is bit 6.
abbrev pub is_large : ℕ → Bool
is_large value = value / 64 % 2 == 1

-- `value & 0x7ffffffffffff000`
abbrev pub frame : ℕ → ℕ
frame value = value / 4096 % 2 ^ 51 * 4096

abbrev pub set_entry : (ℕ → ℕ → ℕ) → ℕ → ℕ → ℕ → ℕ → ℕ → ℕ
set_entry entry t i value q j = if t == q && (i == j) then value else entry q j

abbrev pub zero_page : (ℕ → ℕ → ℕ) → ℕ → ℕ → ℕ → ℕ
zero_page entry p q j = if p == q then 0 else entry q j

-- The branch of map_page's loop without a table.
unfoldable pub add_table : ℕ → ℕ → List ℕ → Tables → Mapped (ℕ × Tables)
add_table t i [] s = no_page
add_table t i (p ∷ rest) s = ok (
  p,
  record s { entry = set_entry (zero_page s.entry p) t i (bit_or (bit_or p 1) 2); fresh = rest },
)

-- The next table, and the new state.
unfoldable pub enter : ℕ → ℕ → Tables → Mapped (ℕ × Tables)
enter t i s = if present (s.entry t i) then ok (frame (s.entry t i), s) else add_table t i s.fresh s

-- The loop of map_page: the table at level 0.
unfoldable pub descend : ℕ → ℕ → ℕ → Tables → Mapped (ℕ × Tables)
descend zero virt t s = ok (t, s)
descend (suc level) virt t s =
    enter t (get_index (suc level) virt) s >>= λ (t', s'). descend level virt t' s'

-- `flags & ~PG_FLAGMASK`, where the mask has the bits 0, 1, 2, 6 and 63.
unfoldable pub bad_flags : ℕ → Bool
bad_flags flags =
    if flags / 8 % 8 == 0 then (if flags / 2 ^ 7 % 2 ^ 56 == 0 then false else true) else true

-- The last write, behind which the lock is released.
abbrev pub finish_map : ℕ → ℕ → ℕ → ℕ × Tables → Tables
finish_map phys virt flags (t, s) = record s {
  entry = set_entry s.entry t (get_index 0 virt) (bit_or (bit_or phys flags) 1);
  locked = false;
}

unfoldable pub map_page : ℕ → ℕ → ℕ → ℕ → Tables → Mapped Tables
map_page cr3 phys virt flags s =
    if s.locked
    then spinning
    else if bad_flags flags
    then halted
    else descend 3 virt cr3 (record s { locked = true }) >>= λ r. ok (finish_map phys virt flags r)

-- The loop of unmap_page: the table at level 0, none at a missing table.
unfoldable pub find_table : ℕ → ℕ → ℕ → (ℕ → ℕ → ℕ) → Option ℕ
find_table zero virt t entry = some t
find_table (suc level) virt t entry =
    let value : ℕ = entry t (get_index (suc level) virt) in
    let rest : Option ℕ = find_table level virt (frame value) entry in
    if present value then rest else none

-- An early return keeps the lock.
abbrev pub clear_found : ℕ → Option ℕ → Tables → Tables
clear_found virt none s = record s { locked = true }
clear_found virt (some t) s = record s {
  entry = set_entry s.entry t (get_index 0 virt) 0;
  locked = false;
}

unfoldable pub unmap_page : ℕ → ℕ → Tables → Mapped Tables
unmap_page cr3 virt s =
    if s.locked then spinning else ok (clear_found virt (find_table 3 virt cr3 s.entry) s)

-- The loop of is_mapped and what follows it.
unfoldable pub mapped_from : ℕ → ℕ → ℕ → (ℕ → ℕ → ℕ) → Bool
mapped_from zero virt t entry = present (entry t (get_index 0 virt))
mapped_from (suc level) virt t entry =
    let value : ℕ = entry t (get_index (suc level) virt) in
    let rest : Bool = mapped_from level virt (frame value) entry in
    if is_large value then true else if present value then rest else false

-- The lock is free again behind each return.
unfoldable pub is_mapped : ℕ → ℕ → Tables → Mapped Bool
is_mapped cr3 virt s = if s.locked then spinning else ok (mapped_from 3 virt cr3 s.entry)

-- `page_size *= 0x1000` for each level, on 64 bits.
unfoldable pub page_size_at : ℕ → ℕ
page_size_at zero = 4096
page_size_at (suc level) = page_size_at level * 4096 % 2 ^ 64

-- `virt & (page_size - 1)`, for a power of two.
unfoldable pub virt_offset : ℕ → ℕ → ℕ
virt_offset level virt = virt % page_size_at level

-- The loop of virt_to_pfn; the result is converted to `int` by the caller of this.
unfoldable pub pfn_from : ℕ → ℕ → ℕ → (ℕ → ℕ → ℕ) → ℕ
pfn_from zero virt t entry =
    (frame (entry t (get_index 0 virt)) + virt_offset 0 virt) % 2 ^ 64 / 4096
pfn_from (suc level) virt t entry =
    let value : ℕ = entry t (get_index (suc level) virt) in
    let rest : ℕ = pfn_from level virt (frame value) entry in
    if is_large value
    then (frame value + virt_offset (suc level) virt) % 2 ^ 64
    else if present value
    then rest
    else 0

-- An `int` keeps the low 32 bits, as a signed number.
unfoldable pub virt_to_pfn : ℕ → ℕ → Tables → ℤ
virt_to_pfn cr3 virt s = signed32 (pfn_from 3 virt cr3 s.entry % 2 ^ 32)

-- `memcpy(pg, kernel_virtual_pt.cr3, 0x1000)` into the first of the fresh pages.
abbrev pub copy_table : ℕ → List ℕ → Tables → Mapped (ℕ × Tables)
copy_table kernel_cr3 [] s = no_page
copy_table kernel_cr3 (p ∷ rest) s = ok (
  p,
  record s { entry = λ q j. if p == q then s.entry kernel_cr3 j else s.entry q j; fresh = rest },
)

unfoldable pub new_page_table : ℕ → Tables → Mapped (ℕ × Tables)
new_page_table kernel_cr3 s = copy_table kernel_cr3 s.fresh s
