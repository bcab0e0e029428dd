-- ===== src/Tests/Dlist.antt =====
-- Runs of the theorems on the dlist of kernel/src/dsa/list.c.
use goofyos.Base.{◌+◌, ◌≡◌, refl, [], ◌∷◌, if◌then◌else◌, ◌==◌, some, arith}
use goofyos.Dsa.Dlist.{Dlist, dlist_remove_item}
use goofyos.Dsa.Dlist.Ends.{Represents}
use goofyos.Dsa.Dlist.Remove.{dlist_remove_item-Represents}

-- The nodes 10, 20 and 30 in this order, with the values 11, 21 and 31.
abbrev three : Dlist
three = record {
  links = record {
    next = λ a. if a == 10 then 20 else if a == 20 then 30 else 0;
    prev = λ a. if a == 20 then 10 else if a == 30 then 20 else 0;
  };
  value = λ a. a + 1;
  head = 10;
  tail = 30;
  count = 3;
}

three-Represents : Represents three (10 ∷ 20 ∷ 30 ∷ [])
three-Represents = record {
  chain = (omega arith, refl, refl, (omega arith, refl, refl, (omega arith, refl, refl, tt)));
  distinct = (refl, (refl, (refl, tt)));
  head = refl;
  tail = refl;
  count = refl;
}

dlist_remove_item_example :
    (t : Dlist) × (dlist_remove_item 20 three ≡ some t)
    × Represents t (10 ∷ 30 ∷ [])
    × (t.value ≡ three.value)
dlist_remove_item_example =
    dlist_remove_item-Represents (10 ∷ []) 20 (30 ∷ []) three-Represents (omega arith)
