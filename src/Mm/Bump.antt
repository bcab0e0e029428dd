-- ===== src/Mm/Bump.antt =====
-- The early page allocator of kernel/src/mm/bump_alloc.c over the memory map. `unsigned int` values
-- have 32 bits.
pub mod Order
use goofyos.Base.{
  ℕ, ◌+◌, ◌-◌, ◌*◌, ◌/◌, ◌%◌, ◌^◌, Bool, List, [], ◌∷◌, Option, none, some, ltb, if◌then◌else◌,
}
use goofyos.Mm.Buddy.{Run, ok, hcf}

-- An entry of mm_phys_regions.
pub record Region : Type 0 where
  pub base : ℕ
  pub size : ℕ

pub record Bump : Type 0 where
  pub allocated : ℕ
  pub buddy_initialized : Bool

-- The loop over the regions: `(uint64_t)phys + (left * PAGE_SIZE)`, none for NULL.
unfoldable pub find_page : ℕ → List Region → Option ℕ
find_page left [] = none
find_page left (r ∷ rs) =
    let page_count : ℕ = (r.size / 4096) % 2 ^ 32 in
    let rest : Option ℕ = find_page (left - page_count) rs in
    if ltb left page_count then some (r.base % 2 ^ 32 + (left * 4096) % 2 ^ 32) else rest

-- `bump_allocated++; return __va(...)`
unfoldable pub bumped : ℕ → Bump → Option ℕ → Option ℕ × Bump
bumped hhdm s none = (none, s)
bumped hhdm s (some phys) =
    (some ((phys + hhdm) % 2 ^ 64), record s { allocated = (s.allocated + 1) % 2 ^ 32 })

unfoldable pub bump_page : ℕ → List Region → Bump → Run (Option ℕ × Bump)
bump_page hhdm regions s =
    if s.buddy_initialized then hcf else ok (bumped hhdm s (find_page s.allocated regions))
