-- ===== src/Mm/Buddy/Weight.antt =====
-- The free pages that the lists of kernel/src/mm/buddy.c account for: each block of order `o`
-- counts 2 ^ o pages, and the counters are 32-bit.
use native.Mathlib.Nat.{pow-suc}
use native.Mathlib.Numerals.{add-one}
use mathlib.Core.Bool.{Bool}
use mathlib.Core.Path.{subst}
use goofyos.Base.{
  ℕ, zero, suc, ◌+◌, ◌-◌, ◌*◌, ◌/◌, ◌%◌, ◌^◌, ◌≤◌, ◌<◌, ◌≡◌, ◌≢◌, refl, ap, ◌∙◌, sym, true, false,
  Option, none, some, arith, inl, inr, Bool-cases, ◌==◌, ltb, if◌then◌else◌, ==→eq,
}
use goofyos.Dsa.Links.{update}
use goofyos.Dsa.ListHead.{list_pop_front}
use goofyos.Mm.Buddy.{
  Buddy, Run, ok, hcf, fault, out_of_fuel, ◌>>=◌, max_order, levels, get_buddy, can_merge,
  remove_from_freelist, direct_free, free_pages_nolock, taken, take_first, split_block,
  alloc_pages_nolock, set_free,
}

abbrev pub modulus : ℕ
modulus = 2 ^ 32

unfoldable pub sum_below : ℕ → (ℕ → ℕ) → ℕ
sum_below zero f = 0
sum_below (suc n) f = sum_below n f + f n * 2 ^ n

-- The pages in all the lists.
unfoldable pub pages_listed : Buddy → ℕ
pages_listed s = sum_below levels s.count

sum_below_skip : (n o v : ℕ) (f : ℕ → ℕ) → n ≤ o → sum_below n (update f o v) ≡ sum_below n f
unfolding sum_below
sum_below_skip zero o v f h = refl
sum_below_skip (suc n) o v f h = ground (arith, sum_below_skip n o v f)

sum_below-update :
    (n o v : ℕ) (f : ℕ → ℕ)
    → o < n
    → sum_below n (update f o v) + f o * 2 ^ o ≡ sum_below n f + v * 2 ^ o
unfolding sum_below
sum_below-update zero o v f h = absurd (omega arith)
sum_below-update (suc n) o v f h = elim (Bool-cases (o == n)) [
  | inl e ↦ rw (==→eq o n e) (ground (arith, sum_below_skip n n v f))
  | inr e ↦ rw e (ground (arith, sum_below-update n o v f))
]

-- A counter that goes up by one adds its block's pages, and one that goes down takes them off.
count_up :
    (w w' c t : ℕ) → w' + c * t ≡ w + (c + 1) % modulus * t → w' % modulus ≡ (w + t) % modulus
count_up w w' c t h =
    let q : ℕ = (c + 1) / modulus in
    let e : c + 1 ≡ q * modulus + (c + 1) % modulus = omega arith in
    omega (arith, ap (λ (u : ℕ). u * t) e)

count_down :
    (w w' c t : ℕ)
    → w' + c * t ≡ w + (c + modulus - 1) % modulus * t
    → (w' + t) % modulus ≡ w % modulus
count_down w w' c t h =
    let d : ℕ = c + modulus - 1 in
    let q : ℕ = d / modulus in
    let e : d ≡ q * modulus + d % modulus = omega arith in
    let g : d + 1 ≡ c + modulus = omega arith in
    omega (arith, ap (λ (u : ℕ). u * t) e, ap (λ (u : ℕ). u * t) g)

direct_free-pages :
    (pfn order : ℕ) (s : Buddy)
    → order ≤ max_order
    → pages_listed (direct_free pfn order s) % modulus ≡ (pages_listed s + 2 ^ order) % modulus
unfolding direct_free pages_listed
direct_free-pages pfn order s h =
    count_up (sum_below levels s.count) _ (s.count order) (2 ^ order)
      (sum_below-update levels order _ s.count (omega arith))

remove_from_freelist-pages :
    (pfn order : ℕ) (s : Buddy)
    → s.order pfn ≡ order
    → order ≤ max_order
    → (pages_listed (remove_from_freelist pfn s) + 2 ^ order) % modulus ≡ pages_listed s % modulus
unfolding remove_from_freelist pages_listed
remove_from_freelist-pages pfn order s e h = rw e (
    count_down (sum_below levels s.count) _ (s.count order) (2 ^ order)
      (sum_below-update levels order _ s.count (omega arith)))

-- What the tests before a merge have found out.
pub can_merge-order :
    (pfn order : ℕ) (s : Buddy)
    → can_merge pfn order s ≡ true
    → (s.order (get_buddy pfn order % 2 ^ 32) ≡ order) × (order ≢ max_order)
unfolding can_merge
can_merge-order pfn order s h = (ground arith, ground arith)

-- The page that the merged block starts with.
abbrev pub front : ℕ → ℕ → ℕ
front pfn buddy = if ltb pfn buddy then pfn else buddy

pub free_merge :
    (fuel pfn order : ℕ) (s : Buddy)
    → can_merge pfn order s ≡ true
    → let buddy = get_buddy pfn order % 2 ^ 32 in
      free_pages_nolock (suc fuel) pfn order s
      ≡ free_pages_nolock fuel (front pfn buddy) (order + 1) (remove_from_freelist buddy s)
unfolding free_pages_nolock
free_merge fuel pfn order s m = rw m

pub free_direct :
    (fuel pfn order : ℕ) (s : Buddy)
    → can_merge pfn order s ≡ false
    → free_pages_nolock (suc fuel) pfn order s ≡ ok (direct_free pfn order s)
unfolding free_pages_nolock
free_direct fuel pfn order s m = rw m

pub below_top :
    (order : ℕ) → order ≤ max_order → (order == max_order) ≡ false → order + 1 ≤ max_order
below_top order h k = ground arith

ok-injective : {A : Type 0} {a b : A} → ok a ≡ ok b → a ≡ b
ok-injective h = cc

abbrev pub is_some {ℓ} : {A : Type ℓ} → Option A → Bool
is_some none = false
is_some (some _) = true

-- Freeing a block of an order up to 15, where it returns, adds the block's 2 ^ order pages to those
-- that the lists account for, however many merges follow (modulo 2 ^ 32).
pub free_pages_nolock-pages :
    (fuel pfn order : ℕ) (s : Buddy) {s' : Buddy}
    → order ≤ max_order
    → free_pages_nolock fuel pfn order s ≡ ok s'
    → pages_listed s' % modulus ≡ (pages_listed s + 2 ^ order) % modulus
free_pages_nolock-pages zero pfn order s h r = absurd (no_fuel r)
  where
    no_fuel : {s' : Buddy} → free_pages_nolock zero pfn order s ≡ ok s' → ⊥
    no_fuel q = unfold free_pages_nolock in cc q
free_pages_nolock-pages (suc fuel) pfn order s h r = elim (Bool-cases (can_merge pfn order s)) [
  | inr m ↦
      rw (ok-injective (sym r ∙ free_direct fuel pfn order s m)) (direct_free-pages pfn order s h)
  | inl m ↦
      let buddy : ℕ = get_buddy pfn order % 2 ^ 32 in
      let (same, below) = can_merge-order pfn order s m in
      omega (
        arith,
        free_pages_nolock-pages fuel (front pfn buddy) (order + 1) (remove_from_freelist buddy s)
            (omega arith) (sym (free_merge fuel pfn order s m) ∙ r),
        remove_from_freelist-pages buddy order s same h,
        pow-suc 2 order,
        ap (λ (n : ℕ). 2 ^ n) (add-one order),
      )
]

-- The pages that a result has taken off the lists, if there is one.
abbrev Takes : Buddy → ℕ → Run (Option ℕ × Buddy) → Type 0
Takes s order (ok (page, s')) =
    (pages_listed s' + (if is_some page then 2 ^ order else 0)) % modulus ≡ pages_listed s % modulus
Takes s order hcf = Unit
Takes s order fault = Unit
Takes s order out_of_fuel = Unit

taken-Takes :
    (order : ℕ) (s : Buddy) (o : Option (ℕ × ℕ))
    → order ≤ max_order
    → Takes s order (taken order s o)
unfolding taken pages_listed
taken-Takes order s none h = tt
taken-Takes order s (some (node, rest)) h =
    count_down (sum_below levels s.count) _ (s.count order) (2 ^ order)
      (sum_below-update levels order _ s.count (omega arith))

set_free-pages : (s : Buddy) (pfn : ℕ) (b : Bool) → pages_listed (set_free s pfn b) ≡ pages_listed s
unfolding pages_listed
set_free-pages s pfn b = refl

freed-Takes :
    (s s' : Buddy) (order pfn : ℕ) (r : Run Buddy)
    → (pages_listed s' + 2 ^ (order + 1)) % modulus ≡ pages_listed s % modulus
    → ((t : Buddy) → r ≡ ok t → pages_listed t % modulus ≡ (pages_listed s' + 2 ^ order) % modulus)
    → Takes s order (r >>= λ t. ok (some pfn, set_free t pfn false))
freed-Takes s s' order pfn (ok t) h k = omega (
  arith,
  set_free-pages t pfn false,
  k t refl,
  pow-suc 2 order,
  ap (λ (n : ℕ). 2 ^ n) (add-one order),
)
freed-Takes s s' order pfn hcf h k = tt
freed-Takes s s' order pfn fault h k = tt
freed-Takes s s' order pfn out_of_fuel h k = tt

split_block-Takes :
    (s : Buddy) (order : ℕ) (r : Run (Option ℕ × Buddy))
    → order ≤ max_order
    → Takes s (order + 1) r
    → Takes s order (r >>= split_block order)
unfolding split_block
split_block-Takes s order (ok (none, t)) h k = k
split_block-Takes s order (ok (some pfn, t)) h k =
    freed-Takes s t order pfn (free_pages_nolock levels (get_buddy pfn order) order t) k
      (λ u e. free_pages_nolock-pages levels (get_buddy pfn order) order t h e)
split_block-Takes s order hcf h k = tt
split_block-Takes s order fault h k = tt
split_block-Takes s order out_of_fuel h k = tt

alloc-Takes :
    (fuel order : ℕ) (s : Buddy)
    → order ≤ max_order
    → Takes s order (alloc_pages_nolock fuel order s)
unfolding alloc_pages_nolock take_first
alloc-Takes zero order s h = tt
alloc-Takes (suc fuel) order s h = elim (Bool-cases (ltb max_order order)) [
  | inl over ↦ rw over tt
  | inr fits ↦ elim (Bool-cases (ltb 0 (s.count order))) [
    | inl listed ↦ rw (fits, listed) (taken-Takes order s (list_pop_front s.links (s.head order)) h)
    | inr empty ↦ elim (Bool-cases (order == max_order)) [
      | inl top ↦ rw (fits, empty, top) (omega arith)
      | inr below ↦
          rw (fits, empty, below)
            (split_block-Takes s order (alloc_pages_nolock fuel (order + 1) s) h
              (alloc-Takes fuel (order + 1) s (below_top order h below)))
    ]
  ]
]

-- For an order up to 15, an allocation that succeeds takes exactly the 2 ^ order pages of its block
-- off those that the lists account for, however many blocks it splits; one that returns NULL leaves
-- their number as it was (modulo 2 ^ 32).
pub alloc_pages_nolock-pages :
    (fuel order : ℕ) (s : Buddy) {s' : Buddy} {page : Option ℕ}
    → order ≤ max_order
    → alloc_pages_nolock fuel order s ≡ ok (page, s')
    → (pages_listed s' + (if is_some page then 2 ^ order else 0)) % modulus
      ≡ pages_listed s % modulus
alloc_pages_nolock-pages fuel order s h r = subst (Takes s order) r (alloc-Takes fuel order s h)
