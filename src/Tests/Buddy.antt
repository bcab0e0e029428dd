-- ===== src/Tests/Buddy.antt =====
-- Runs of the theorems on kernel/src/mm/buddy.c.
use goofyos.Base.{
  ℕ, ◌+◌, ◌%◌, ◌≡◌, ◌≢◌, refl, arith, [], ◌∷◌, some, true, false, if◌then◌else◌, ◌==◌,
}
use goofyos.Dsa.Links.Chain.{has}
use goofyos.Mm.Buddy.{
  Buddy, Zone, ok, out_of_fuel, page_node, get_buddy, valid_buddy_pfn, remove_from_freelist,
  free_pages_nolock, alloc_pages_nolock, init_zone,
}
use goofyos.Mm.Buddy.Weight.{
  pages_listed, modulus, front, free_pages_nolock-pages, alloc_pages_nolock-pages,
}
use goofyos.Mm.Buddy.Total.{free_pages_nolock_total, alloc_pages_nolock_total}
use goofyos.Mm.Buddy.Merge.{alloc_then_merge}
use goofyos.Mm.Buddy.Init.{every_second, free_each, init_zone_lem}

abbrev zone : Zone
zone = record { pfn_base = 0; size = 8 }

-- Page 4 is free, alone in the list of order 0.
abbrev one_page : Buddy
one_page = record {
  free = λ p. p == 4;
  order = λ p. 0;
  links = record { next = λ a. 0; prev = λ a. 0 };
  head = λ o. if o == 0 then page_node 4 else 0;
  count = λ o. if o == 0 then 1 else 0;
  zones = zone ∷ [];
}

-- Page 5 is the buddy of page 4.
abbrev freed : (s' : Buddy) × (free_pages_nolock 16 5 0 one_page ≡ ok s')
freed = free_pages_nolock_total 16 5 0 one_page (omega arith) (omega arith)

free_pages_nolock-pages_example :
    pages_listed freed.0 % modulus ≡ (pages_listed one_page + 1) % modulus
free_pages_nolock-pages_example = free_pages_nolock-pages 16 5 0 one_page (omega arith) freed.1

free_pages_nolock_total_example : (s' : Buddy) × (free_pages_nolock 16 5 0 one_page ≡ ok s')
free_pages_nolock_total_example =
    free_pages_nolock_total 16 5 0 one_page (omega arith) (omega arith)

alloc_pages_nolock_total_example : alloc_pages_nolock 16 0 one_page ≢ out_of_fuel
alloc_pages_nolock_total_example = alloc_pages_nolock_total 16 0 one_page (omega arith)

page_4-valid : valid_buddy_pfn 4 one_page ≡ true
unfolding valid_buddy_pfn
page_4-valid = refl

alloc_then_merge_example :
    (t : Buddy) × (alloc_pages_nolock 16 0 one_page ≡ ok (some 4, t))
    × (t.head 0 ≡ one_page.links.next (page_node 4))
    × (t.links ≡ one_page.links)
    × (t.free 4 ≡ true)
    × (free_pages_nolock 16 (get_buddy 4 0) 0 t
        ≡ free_pages_nolock 15 (front (get_buddy 4 0) 4) 1 (remove_from_freelist 4 t))
alloc_then_merge_example =
    alloc_then_merge 15 15 4 0 one_page (omega arith) (omega arith) refl refl refl page_4-valid
      (omega arith)

abbrev allocated : (t : Buddy) × (alloc_pages_nolock 16 0 one_page ≡ ok (some 4, t))
allocated = (alloc_then_merge_example.0, alloc_then_merge_example.1)

alloc_pages_nolock-pages_example :
    (pages_listed allocated.0 + 1) % modulus ≡ pages_listed one_page % modulus
alloc_pages_nolock-pages_example = alloc_pages_nolock-pages 16 0 one_page (omega arith) allocated.1

init_zone_example :
    (init_zone 8 0 zone 0 0 one_page ≡ free_each (every_second 8 0) 0 one_page)
    × ((q : ℕ) → (q + 0) % 2 ≡ 1 → has q (every_second 8 0) ≡ false)
init_zone_example = init_zone_lem 0 0 zone one_page (omega arith)
