-- ===== src/Tests/Hashmap.antt =====
-- A run of the theorem on kernel/src/dsa/hashmap.c.
use goofyos.Base.{ℕ, [], ◌∷◌}
use goofyos.Dsa.Hashmap.{hmap_init, insert_entry}
use goofyos.Dsa.Hashmap.Lookup.{Adds, hmap_init-IsInitial, hmap_add-Adds}

hmap_add_example : Adds {V = ℕ} (97 ∷ []) 7 hmap_init (insert_entry (97 ∷ []) 7 hmap_init)
hmap_add_example = hmap_add-Adds (97 ∷ []) 7 hmap_init hmap_init-IsInitial
