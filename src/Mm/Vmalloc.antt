-- ===== src/Mm/Vmalloc.antt =====
-- The list of virtual address ranges of kernel/src/mm/vmalloc.c, in the order of its `next` pointers.
-- The nodes are private to the list, and `flags` has VM_INUSE alone.
pub mod Reserve
pub mod Release
use goofyos.Base.{
  ℕ, ◌+◌, ◌-◌, ◌/◌, ◌%◌, Bool, true, false, ◌||◌, List, [], ◌∷◌, Option, none, some, ltb, ◌==◌,
  if◌then◌else◌,
}

-- `struct vmalloc_struct`
pub record Range : Type 0 where
  pub addr : ℕ
  pub size : ℕ
  pub used : Bool

-- The rest of the walk behind a node that is left as it is.
abbrev pub behind : Range → Option (ℕ × List Range) → Option (ℕ × List Range)
behind r none = none
behind r (some (addr, rs)) = some (addr, r ∷ rs)

-- The loop of vmalloc_map_range; `none` is NULL.
unfoldable pub reserve : ℕ → List Range → Option (ℕ × List Range)
reserve size [] = none
reserve size (r ∷ rs) =
    let rest : Option (ℕ × List Range) = behind r (reserve size rs) in
    if r.used
    then rest
    else if r.size == size
    then some (r.addr, record r { used = true } ∷ rs)
    else if ltb size r.size
    then (let new : ℕ = r.addr + r.size - size in
        some (
          new,
          record r { size = r.size - size } ∷ record { addr = new; size = size; used = true } ∷ rs,
        ))
    else rest

unfoldable pub vmalloc_map_range : ℕ → List Range → Option (ℕ × List Range)
vmalloc_map_range size rs =
    if size == 0 || (if size % 4096 == 0 then false else true) then none else reserve size rs

-- Every node at the address.
unfoldable pub vmalloc_unmap_range : ℕ → List Range → List Range
vmalloc_unmap_range range [] = []
vmalloc_unmap_range range (r ∷ rs) =
    (if r.addr == range then record r { used = false } else r) ∷ vmalloc_unmap_range range rs

abbrev pub after : Range → Option (ℕ × ℕ) × List Range → Option (ℕ × ℕ) × List Range
after r (pages, rs) = (pages, r ∷ rs)

-- `_vfree`: the first node at the address, with the number of pages and the address that
-- _vrelease_pages is called with, if there is such a node.
unfoldable pub vfree : ℕ → List Range → Option (ℕ × ℕ) × List Range
vfree range [] = (none, [])
vfree range (r ∷ rs) =
    let rest : Option (ℕ × ℕ) × List Range = after r (vfree range rs) in
    if r.addr == range then (some (r.size / 4096, r.addr), record r { used = false } ∷ rs) else rest

-- `root` with `vmalloc_lock`
pub record Vmalloc : Type 0 where
  pub ranges : List Range
  pub locked : Bool

unfoldable pub has_range : ℕ → List Range → Bool
has_range range [] = false
has_range range (r ∷ rs) = if r.addr == range then true else has_range range rs

-- The return inside the loop is behind acquire and in front of release.
unfoldable pub vunmap_contiguous : ℕ → Vmalloc → Vmalloc
vunmap_contiguous range s = record {
  ranges = (vfree range s.ranges).1;
  locked = has_range range s.ranges;
}

-- The list that vmalloc_init builds: one free range from VMALLOC_START to VMALLOC_END.
unfoldable pub vmalloc_init : List Range
vmalloc_init =
    record {
      addr = 0xffffd00000000000;
      size = 0xffffe00000000000 - 0xffffd00000000000;
      used = false;
    }
    ∷ []
