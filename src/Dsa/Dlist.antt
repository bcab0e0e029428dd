-- ===== src/Dsa/Dlist.antt =====
-- The double-ended list of values of kernel/src/dsa/list.c. `new` is the node that kzalloc returns,
-- cleared; it does not fail. kfree leaves the node's memory out of the list.
pub mod Ends
pub mod Pops
pub mod Remove
use goofyos.Base.{
  ℕ, zero, suc, ◌+◌, ◌-◌, ◌%◌, ◌^◌, List, [], ◌∷◌, Option, none, some, ◌==◌, if◌then◌else◌,
}
use goofyos.Dsa.Links.{Links, null, update, set_next, set_prev}

-- `struct dlist` with the heap of `struct dnode`.
pub record Dlist : Type 0 where
  pub links : Links
  pub value : ℕ → ℕ
  pub head : ℕ
  pub tail : ℕ
  pub count : ℕ

-- The cleared node.
abbrev pub zeroed : Links → ℕ → Links
zeroed l new = set_prev (set_next l new null) new null

unfoldable pub dlist_front_push : ℕ → ℕ → Dlist → Dlist
dlist_front_push new value s =
    let l : Links = set_next (zeroed s.links new) new s.head in
    record {
      links = if s.head == null then l else set_prev l s.head new;
      value = update s.value new value;
      head = new;
      tail = if s.tail == null then new else s.tail;
      count = (s.count + 1) % 2 ^ 64;
    }

-- The value, none for NULL.
unfoldable pub dlist_front_pop : Dlist → Option ℕ × Dlist
dlist_front_pop s =
    if s.head == null
    then (none, s)
    else let ret : ℕ = s.head in
      let l : Links =
        if s.links.next ret == null then s.links else set_prev s.links (s.links.next ret) null in
      let head : ℕ = l.next ret in
      (
        some (s.value ret),
        record {
          links = set_next l ret null;
          value = s.value;
          head = head;
          tail = if head == null then null else s.tail;
          count = (s.count + 2 ^ 64 - 1) % 2 ^ 64;
        },
      )

unfoldable pub dlist_back_push : ℕ → ℕ → Dlist → Dlist
dlist_back_push new value s =
    let l : Links = set_prev (zeroed s.links new) new s.tail in
    record {
      links = if s.tail == null then l else set_next l s.tail new;
      value = update s.value new value;
      head = if s.head == null then new else s.head;
      tail = new;
      count = (s.count + 1) % 2 ^ 64;
    }

-- The dlist without its last node `ret`.
unfoldable pub without_last : ℕ → Dlist → Dlist
without_last ret s =
    let l : Links =
      if s.links.prev ret == null then s.links else set_next s.links (s.links.prev ret) null in
    let tail : ℕ = l.prev ret in
    record {
      links = set_prev l ret null;
      value = s.value;
      head = if tail == null then null else s.head;
      tail = tail;
      count = (s.count + 2 ^ 64 - 1) % 2 ^ 64;
    }

-- `none` is the read through a NULL tail.
unfoldable pub dlist_back_pop : Dlist → Option (ℕ × Dlist)
dlist_back_pop s = if s.tail == null then none else some (s.value s.tail, without_last s.tail s)

-- The last three lines of dlist_remove_item. They do not free the node, and fault without a
-- neighbour.
unfoldable pub unlink_item : ℕ → Dlist → Option Dlist
unlink_item item s =
    if s.links.next item == null
    then none
    else let l : Links = set_prev s.links (s.links.next item) (s.links.prev item) in
      if l.prev item == null
      then none
      else some (record s {
        links = set_next l (l.prev item) (l.next item);
        count = (s.count + 2 ^ 64 - 1) % 2 ^ 64;
      })

abbrev pub dropped : Option (ℕ × Dlist) → Option Dlist
dropped none = none
dropped (some (value, s)) = some s

unfoldable pub dlist_remove_item : ℕ → Dlist → Option Dlist
dlist_remove_item item s =
    if item == s.head
    then some (dlist_front_pop s).1
    else if item == s.tail
    then dropped (dlist_back_pop s)
    else unlink_item item s

-- The first freed value in front of the later ones.
abbrev pub freed_first : Option ℕ → Option (List ℕ × Dlist) → Option (List ℕ × Dlist)
freed_first v none = none
freed_first none (some (freed, t)) = some (freed, t)
freed_first (some value) (some (freed, t)) = some (value ∷ freed, t)

-- The values that dlist_kfree_values passes to kfree, and the list behind it, on fuel for the loop.
unfoldable pub dlist_kfree_values : ℕ → Dlist → Option (List ℕ × Dlist)
dlist_kfree_values zero s = none
dlist_kfree_values (suc fuel) s =
    let (value, t) = dlist_front_pop s in
    let rest : Option (List ℕ × Dlist) = freed_first value (dlist_kfree_values fuel t) in
    if s.head == null then some ([], s) else rest
