-- ===== src/Mm/Buddy/Total.antt =====
-- The recursions of kernel/src/mm/buddy.c end: the fuel of one call for each order is enough.
use mathlib.Core.Path.{subst}
use goofyos.Base.{
  ℕ, zero, suc, ◌+◌, ◌-◌, ◌≤◌, ◌<◌, ◌≡◌, ◌≢◌, ◌∙◌, false, Option, none, some, arith, inl, inr,
  Bool-cases, ◌==◌, ltb, ltb→le, ◌%◌, ◌^◌,
}
use goofyos.Dsa.ListHead.{list_pop_front}
use goofyos.Mm.Buddy.{
  Buddy, Run, ok, hcf, fault, out_of_fuel, ◌>>=◌, max_order, levels, get_buddy, can_merge,
  remove_from_freelist, direct_free, free_pages_nolock, taken, take_first, split_block,
  alloc_pages_nolock,
}
use goofyos.Mm.Buddy.Weight.{front, free_merge, free_direct, can_merge-order, below_top}

-- Freeing a block of an order that has a list ends and gives a new state, if the fuel is above the
-- number of orders that are left to merge into.
pub free_pages_nolock_total :
    (fuel pfn order : ℕ) (s : Buddy)
    → order ≤ max_order
    → max_order - order < fuel
    → (s' : Buddy) × (free_pages_nolock fuel pfn order s ≡ ok s')
free_pages_nolock_total zero pfn order s h f = absurd (omega arith)
free_pages_nolock_total (suc fuel) pfn order s h f = elim (Bool-cases (can_merge pfn order s)) [
  | inr m ↦ (direct_free pfn order s, free_direct fuel pfn order s m)
  | inl m ↦
      let buddy : ℕ = get_buddy pfn order % 2 ^ 32 in
      let below = (can_merge-order pfn order s m).1 in
      let (t, e) =
        free_pages_nolock_total fuel (front pfn buddy) (order + 1) (remove_from_freelist buddy s)
          (omega arith) (omega arith) in
      (t, free_merge fuel pfn order s m ∙ e)
]

-- An allocation that has not ended.
abbrev Ends : {A : Type 0} → Run A → Type 0
Ends (ok a) = Unit
Ends hcf = Unit
Ends fault = Unit
Ends out_of_fuel = ⊥

taken-Ends : (order : ℕ) (s : Buddy) (o : Option (ℕ × ℕ)) → Ends (taken order s o)
unfolding taken
taken-Ends order s none = tt
taken-Ends order s (some (node, rest)) = tt

split_block-Ends :
    (order : ℕ) (r : Run (Option ℕ × Buddy))
    → order ≤ max_order
    → Ends r
    → Ends (r >>= split_block order)
unfolding split_block
split_block-Ends order (ok (none, t)) h k = tt
split_block-Ends order (ok (some pfn, t)) h k =
    rw ((free_pages_nolock_total levels (get_buddy pfn order) order t h (omega arith)).1) tt
split_block-Ends order hcf h k = tt
split_block-Ends order fault h k = tt
split_block-Ends order out_of_fuel h k = k

fuel_below :
    (order fuel : ℕ)
    → order ≤ max_order
    → (order == max_order) ≡ false
    → max_order - order < suc fuel
    → max_order - (order + 1) < fuel
fuel_below order fuel h k f = omega (arith, below_top order h k)

alloc-Ends :
    (fuel order : ℕ) (s : Buddy) → max_order - order < fuel → Ends (alloc_pages_nolock fuel order s)
unfolding alloc_pages_nolock take_first
alloc-Ends zero order s f = absurd (omega arith)
alloc-Ends (suc fuel) order s f = elim (Bool-cases (ltb max_order order)) [
  | inl over ↦ rw over tt
  | inr fits ↦ elim (Bool-cases (ltb 0 (s.count order))) [
    | inl listed ↦ rw (fits, listed) (taken-Ends order s (list_pop_front s.links (s.head order)))
    | inr empty ↦ elim (Bool-cases (order == max_order)) [
      | inl top ↦ rw (fits, empty, top) tt
      | inr below ↦
          rw (fits, empty, below)
            (split_block-Ends order (alloc_pages_nolock fuel (order + 1) s)
              (ltb→le max_order order fits)
              (alloc-Ends fuel (order + 1) s
                (fuel_below order fuel (ltb→le max_order order fits) below f)))
    ]
  ]
]

-- An allocation always ends: with one call for each order from `order` on it halts the machine,
-- faults or returns, and does not run on.
pub alloc_pages_nolock_total :
    (fuel order : ℕ) (s : Buddy)
    → max_order - order < fuel
    → alloc_pages_nolock fuel order s ≢ out_of_fuel
alloc_pages_nolock_total fuel order s f e = subst Ends e (alloc-Ends fuel order s f)
