-- ===== src/Mm/Pages.antt =====
-- The addresses of pages in the direct map, as in kernel/src/include/goofy-os/mm.h. A page is named by
-- its frame number. `hhdm` is `hhdm_offset`, and addresses are at or above it.
use goofyos.Base.{
  ℕ, zero, suc, ◌+◌, ◌-◌, ◌*◌, ◌/◌, ◌%◌, ◌^◌, ◌≡◌, ◌≤◌, ◌<◌, ◌==◌, refl, ap, true, false, List, [],
  ◌∷◌, length, arith, inl, inr, Bool-cases, ==→eq,
}
use native.Mathlib.Nat.{mul-le-mul_left}
use goofyos.Dsa.Links.Chain.{has, Distinct}

unfoldable pub page_to_virt : ℕ → ℕ → ℕ
page_to_virt hhdm pfn = hhdm + pfn * 4096

unfoldable pub hhdm_to_page : ℕ → ℕ → ℕ
hhdm_to_page hhdm a = (a - hhdm) / 4096

unfoldable pub base_pfn : ℕ → ℕ → ℕ
base_pfn pfn order = pfn - pfn % 2 ^ order

-- The first `n` objects of `size` bytes from `base` on, the last in front.
abbrev pub objects : ℕ → ℕ → ℕ → List ℕ
objects base size zero = []
objects base size (suc n) = (base + size * n) ∷ objects base size n

pub length-objects : (base size n : ℕ) → length (objects base size n) ≡ n
length-objects base size zero = refl
length-objects base size (suc n) = ap suc (length-objects base size n)

-- An object is not among those before it.
pub has-objects :
    (base size n j : ℕ) → 0 < size → n ≤ j → has (base + size * j) (objects base size n) ≡ false
has-objects base size zero j p le = refl
has-objects base size (suc n) j p le =
    let further = mul-le-mul_left size le in
    let before = has-objects base size n j p (omega arith) in ground arith

pub Distinct-objects : (base size n : ℕ) → 0 < size → Distinct (objects base size n)
Distinct-objects base size zero p = tt
Distinct-objects base size (suc n) p =
    (has-objects base size n n p (omega arith), Distinct-objects base size n p)

objects-range :
    (base size n x : ℕ)
    → has x (objects base size n) ≡ true
    → (base ≤ x) × (x + size ≤ base + size * n)
objects-range base size zero x h = absurd (ground arith)
objects-range base size (suc n) x h = elim (Bool-cases (x == base + size * n)) [
  | inl e ↦ let same = ==→eq x (base + size * n) e in (omega arith, omega arith)
  | inr e ↦ let (l, u) = objects-range base size n x (rw e at h) in (l, omega arith)
]

-- The objects of the pages from `page` on lie in those pages.
pub objects-page :
    (hhdm page order size n x : ℕ)
    → size * n ≤ 4096 * 2 ^ order
    → 0 < size
    → has x (objects (page_to_virt hhdm page) size n) ≡ true
    → (page ≤ hhdm_to_page hhdm x) × (hhdm_to_page hhdm x < page + 2 ^ order)
unfolding page_to_virt hhdm_to_page
objects-page hhdm page order size n x fits p h =
    let (l, u) = objects-range (page_to_virt hhdm page) size n x h in (omega arith, omega arith)

pub object_in : (base size n j : ℕ) → j < n → has (base + size * j) (objects base size n) ≡ true
object_in base size zero j lt = absurd (omega arith)
object_in base size (suc n) j lt = elim (Bool-cases (j == n)) [
  | inl e ↦ let same = ==→eq j n e in rw same (ground arith)
  | inr e ↦ let rest = object_in base size n j (ground arith) in ground arith
]
