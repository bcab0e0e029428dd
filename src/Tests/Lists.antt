-- ===== src/Tests/Lists.antt =====
-- Runs of the theorems on kernel/src/dsa/list.c.
use goofyos.Base.{refl, arith, [], ◌∷◌, if◌then◌else◌, ◌==◌}
use goofyos.Dsa.Links.{Links, null}
use goofyos.Dsa.ListHead.{list_remove_node}
use goofyos.Dsa.ListHead.Laws.{IsList}
use goofyos.Dsa.ListHead.Remove.{Removed, remove_later}

-- The nodes 10, 20 and 30 in this order.
abbrev three : Links
three = record {
  next = λ a. if a == 10 then 20 else if a == 20 then 30 else 0;
  prev = λ a. if a == 20 then 10 else if a == 30 then 20 else 0;
}

three-IsList : IsList three 10 null (10 ∷ 20 ∷ 30 ∷ [])
three-IsList = record {
  start = refl;
  chain = (omega arith, refl, refl, (omega arith, refl, refl, (omega arith, refl, refl, tt)));
  distinct = (refl, (refl, (refl, tt)));
}

remove_later_example : Removed three 20 null (10 ∷ []) (30 ∷ []) (list_remove_node three 10 20)
remove_later_example = remove_later [] (30 ∷ []) three-IsList
