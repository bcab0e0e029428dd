-- ===== src/Mm/Buddy/Init.antt =====
-- Which pages buddy_init of kernel/src/mm/buddy.c frees.
use mathlib.Core.Path.{fun_ext}
use goofyos.Base.{
  ℕ, zero, suc, ◌+◌, ◌-◌, ◌%◌, ◌≤◌, ◌<◌, ◌≡◌, ◌∙◌, true, false, List, [], ◌∷◌, arith, ltb, ap,
  lt→ltb,
}
use goofyos.Dsa.Links.Chain.{has}
use goofyos.Mm.Buddy.{Buddy, Zone, Run, ok, ◌>>=◌, levels, free_pages, init_order, init_zone}

-- Every second one of the `n` pages from `p` on.
unfoldable pub every_second : ℕ → ℕ → List ℕ
every_second zero p = []
every_second (suc zero) p = p ∷ []
every_second (suc (suc n)) p = p ∷ every_second n (p + 2)

-- Freeing pages one by one, at order 0.
unfoldable pub free_each : List ℕ → ℕ → Buddy → Run (ℕ × Buddy)
free_each [] page_idx s = ok (page_idx, s)
free_each (p ∷ ps) page_idx s = free_pages p 0 s >>= free_each ps (page_idx + 1)

init_order-zero : (left : ℕ) → 0 < left → init_order levels left 0 ≡ 0
unfolding init_order
init_order-zero left h = ground arith

every_second-skips : (n p q : ℕ) → has q (every_second n p) ≡ true → (q + p) % 2 ≡ 0
unfolding every_second
every_second-skips zero p q h = absurd (ground arith)
every_second-skips (suc zero) p q h = ground arith
every_second-skips (suc (suc n)) p q h = ground (arith, every_second-skips n (p + 2) q)

not_lt→ltb : (a b : ℕ) → b ≤ a → ltb a b ≡ false
not_lt→ltb a b h = ground arith

two_on : (i : ℕ) → i + 1 + 1 ≡ i + 2
two_on i = omega arith

-- One page is freed and the next one skipped.
init_step :
    (fuel bump i page_idx : ℕ) (z : Zone) (s : Buddy)
    → i < z.size
    → bump ≤ page_idx
    → init_zone (suc fuel) bump z i page_idx s
      ≡ (free_pages (z.pfn_base + i) 0 s >>= init_zone fuel bump z (i + 2) (page_idx + 1))
unfolding init_zone
init_step fuel bump i page_idx z s h k = rw (
  lt→ltb i z.size h,
  not_lt→ltb page_idx bump k,
  init_order-zero (z.size - i) (omega arith),
  two_on i,
)

init_end :
    (fuel bump i page_idx : ℕ) (z : Zone) (s : Buddy)
    → z.size ≤ i
    → init_zone fuel bump z i page_idx s ≡ ok (page_idx, s)
unfolding init_zone
init_end zero bump i page_idx z s h = rw (not_lt→ltb i z.size h)
init_end (suc fuel) bump i page_idx z s h = rw (not_lt→ltb i z.size h)

init_zone-free_each :
    (n fuel bump i p page_idx : ℕ) (z : Zone) (s : Buddy)
    → i + n ≡ z.size
    → p ≡ z.pfn_base + i
    → n ≤ fuel
    → bump ≤ page_idx
    → init_zone fuel bump z i page_idx s ≡ free_each (every_second n p) page_idx s
unfolding every_second free_each
init_zone-free_each zero fuel bump i p page_idx z s e q f k =
    init_end fuel bump i page_idx z s (omega arith)
init_zone-free_each (suc n) zero bump i p page_idx z s e q f k = absurd (omega arith)
init_zone-free_each (suc zero) (suc fuel) bump i p page_idx z s e q f k =
    init_step fuel bump i page_idx z s (omega arith) k
    ∙ rw q (
        ap (λ c. free_pages (z.pfn_base + i) 0 s >>= c)
          (fun_ext λ t. init_end fuel bump (i + 2) (page_idx + 1) z t (omega arith)))
init_zone-free_each (suc (suc n)) (suc fuel) bump i p page_idx z s e q f k =
    init_step fuel bump i page_idx z s (omega arith) k
    ∙ rw q (
        ap (λ c. free_pages (z.pfn_base + i) 0 s >>= c)
          (fun_ext λ t.
            init_zone-free_each n fuel bump (i + 2) (z.pfn_base + i + 2) (page_idx + 1) z t
              (omega arith) (omega arith) (omega arith) (omega arith)))

-- In a zone that starts behind the pages of the early allocator, buddy_init frees the first page,
-- the third and so on, each as a block of order 0; no page at an odd distance from the zone's first
-- page is freed.
pub init_zone_lem :
    (bump page_idx : ℕ) (z : Zone) (s : Buddy)
    → bump ≤ page_idx
    → let freed = every_second z.size z.pfn_base in
      (init_zone z.size bump z 0 page_idx s ≡ free_each freed page_idx s)
      × ((q : ℕ) → (q + z.pfn_base) % 2 ≡ 1 → has q freed ≡ false)
init_zone_lem bump page_idx z s k = (
  init_zone-free_each z.size z.size bump 0 z.pfn_base page_idx z s (omega arith) (omega arith)
      (omega arith) k,
  λ q odd. ground (arith, every_second-skips z.size z.pfn_base q),
)
