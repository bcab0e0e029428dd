-- ===== src/Mm/Bump/Order.antt =====
-- The order in which kernel/src/mm/bump_alloc.c hands out the pages of the memory map.
use goofyos.Base.{
  ℕ, zero, suc, ◌+◌, ◌-◌, ◌*◌, ◌/◌, ◌%◌, ◌^◌, ◌<◌, ◌≡◌, ◌∙◌, refl, sym, ap, false, List, [], ◌∷◌,
  ◌++◌, Option, none, some, ltb, if◌then◌else◌, arith, All, Bool-cases, inl, inr, ltb→lt,
}
use goofyos.Mm.Buddy.{ok}
use goofyos.Mm.Bump.{Region, Bump, find_page, bumped, bump_page}

-- `n` pages from an address on.
unfoldable pub pages_from : ℕ → ℕ → List ℕ
pages_from zero base = []
pages_from (suc n) base = base ∷ pages_from n (base + 4096)

-- All the whole pages of the memory map, in its order.
unfoldable pub all_pages : List Region → List ℕ
all_pages [] = []
all_pages (r ∷ rs) = pages_from (r.size / 4096) r.base ++ all_pages rs

abbrev pub element : List ℕ → ℕ → Option ℕ
element [] i = none
element (x ∷ xs) zero = some x
element (x ∷ xs) (suc i) = element xs i

element-pages_from :
    (n i base : ℕ) (rest : List ℕ)
    → element (pages_from n base ++ rest) i
      ≡ (if ltb i n then some (base + i * 4096) else element rest (i - n))
unfolding pages_from
element-pages_from zero i base rest = ground arith
element-pages_from (suc n) zero base rest = ground arith
element-pages_from (suc n) (suc i) base rest =
    ground (arith, element-pages_from n i (base + 4096) rest)

-- A region that ends at or below 4 GiB.
abbrev pub IsLow : Region → Type 0
IsLow r = r.base + r.size < 2 ^ 32

place :
    (base size left : ℕ)
    → base + size < 2 ^ 32
    → left < size / 4096
    → base % 2 ^ 32 + (left * 4096) % 2 ^ 32 ≡ base + left * 4096
place base size left low l = omega arith

find_page_lem :
    (left : ℕ) (rs : List Region) → All IsLow rs → find_page left rs ≡ element (all_pages rs) left
unfolding find_page all_pages
find_page_lem left [] low = refl
find_page_lem left (r ∷ rs) low =
    let n : ℕ = r.size / 4096 in
    let whole : n % 2 ^ 32 ≡ n = omega (arith, low.0) in
    elim (Bool-cases (ltb left n)) [
      | inl l ↦
          let inside = place r.base r.size left low.0 (ltb→lt left n l) in
          rw (whole, l)
            (ap some inside ∙ sym (element-pages_from n left r.base (all_pages rs) ∙ rw l refl))
      | inr g ↦
          rw (whole, g)
            (find_page_lem (left - n) rs low.1
              ∙ sym (element-pages_from n left r.base (all_pages rs) ∙ rw g refl))
    ]

-- While the memory map lies below 4 GiB and the page allocator is not initialised, bump_page returns
-- the page of the memory map whose index is the number of the pages handed out before, as an address
-- in the direct map, and counts it, or returns NULL behind the last page.
pub bump_page_lem :
    (hhdm : ℕ) (rs : List Region) (s : Bump)
    → All IsLow rs
    → s.buddy_initialized ≡ false
    → bump_page hhdm rs s ≡ ok (bumped hhdm s (element (all_pages rs) s.allocated))
unfolding bump_page
bump_page_lem hhdm rs s low early =
    simp early (ap (λ o. ok (bumped hhdm s o)) (find_page_lem s.allocated rs low))
