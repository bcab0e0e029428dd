-- ===== src/Mm/Mapper/Map.antt =====
-- What map_page, unmap_page and is_mapped of kernel/src/mm/mapper.c do to the mapping.
use Prim.Native.Nat.{bit_or}
use goofyos.Base.{
  ℕ, zero, suc, ◌/◌, ◌%◌, ◌^◌, ◌≡◌, ◌≢◌, ◌≤◌, ◌<◌, ◌∙◌, refl, sym, ap, Bool, true, false, [],
  Option, none, some, arith, length,
}
use goofyos.Mm.Mapper.{
  Tables, Mapped, ok, halted, no_page, spinning, ◌>>=◌, present, frame, get_index, set_entry, enter,
  descend, find_table, bad_flags, finish_map, map_page, clear_found, unmap_page,
}
use goofyos.Mm.Mapper.Bits.{page_number, present_or-one}
use goofyos.Mm.Mapper.Tree.{Labels, IsTree, lookup, leaf}
use goofyos.Mm.Mapper.Write.{
  steps, find-through, lookup-find, found_place, find-written, lookup-written, written-IsTree,
}
use goofyos.Mm.Mapper.Enter.{Extends, Extends-refl, Extends-trans, Entered, Enters, enter-Enters}

pub record Descended (root : ℕ) (l : Labels) (s : Tables) (k virt t t' : ℕ) (s' : Tables)
    (l' : Labels) : Type 0 where
  pub tree : IsTree root l' s'
  pub level : l'.level t' ≡ 0
  pub path : l'.path t' ≡ steps k virt (l.path t)
  pub found : find_table k virt t s'.entry ≡ some t'
  pub extends : Extends l s l' s'

-- The loop ends at level 0, or finds fewer pages than it has tables to add.
abbrev pub Descends : ℕ → Labels → Tables → ℕ → ℕ → ℕ → Mapped (ℕ × Tables) → Type 0
Descends root l s k virt t (ok (t', s')) = (l' : Labels) × Descended root l s k virt t t' s' l'
Descends root l s k virt t no_page = length s.fresh < k
Descends root l s k virt t halted = ⊥
Descends root l s k virt t spinning = ⊥

join_descent :
    (root : ℕ) (l : Labels) (s : Tables) (k virt t t' : ℕ) (s' : Tables) (l' : Labels)
    (r : Mapped (ℕ × Tables))
    → l.level t ≡ suc k
    → k < 3
    → Entered root l s t (get_index (suc k) virt) k t' s' l'
    → Descends root l' s' k virt t' r
    → Descends root l s (suc k) virt t r
join_descent root l s k virt t t' s' l' (ok (u, s'')) above bound e (l'', d) = (
  l'',
  record {
    tree = d.tree;
    level = d.level;
    path = d.path ∙ ap (steps k virt) e.path;
    found =
        let i : ℕ = get_index (suc k) virt in
        let here = (e.extends.labels t (λ x. absurd (omega arith))).0 in
        let kept = d.extends.keeps t i (λ x. absurd (omega arith)) e.linked in
        find-through k virt t t' s''.entry (ap present kept ∙ e.linked) (ap frame kept ∙ e.names)
        ∙ d.found;
    extends = Extends-trans e.extends d.extends;
  },
)
join_descent root l s k virt t t' s' l' no_page above bound e d = omega (arith, e.spent)
join_descent root l s k virt t t' s' l' halted above bound e d = d
join_descent root l s k virt t t' s' l' spinning above bound e d = d

next_descent :
    (root : ℕ) (l : Labels) (s : Tables) (k virt t : ℕ) (r : Mapped (ℕ × Tables))
    → l.level t ≡ suc k
    → k < 3
    → Enters root l s t (get_index (suc k) virt) k r
    → ((t' : ℕ) (s' : Tables) (l' : Labels)
        → IsTree root l' s'
        → l'.level t' ≡ k
        → Descends root l' s' k virt t' (descend k virt t' s'))
    → Descends root l s (suc k) virt t (r >>= λ (t', s'). descend k virt t' s')
next_descent root l s k virt t (ok (t', s')) above bound (l', e) go =
    join_descent root l s k virt t t' s' l' (descend k virt t' s') above bound e
      (go t' s' l' e.tree e.level)
next_descent root l s k virt t no_page above bound e go = omega (arith, e)
next_descent root l s k virt t halted above bound e go = e
next_descent root l s k virt t spinning above bound e go = e

pub descend-Descends :
    (root : ℕ) (l : Labels) (s : Tables) (k virt t : ℕ)
    → IsTree root l s
    → l.level t ≡ k
    → k ≤ 3
    → Descends root l s k virt t (descend k virt t s)
unfolding descend
descend-Descends root l s zero virt t tree at h = (
  l,
  record {
    tree = tree;
    level = at;
    path = refl;
    found = unfold find_table in refl;
    extends = Extends-refl l s;
  },
)
descend-Descends root l s (suc k) virt t tree at h =
    next_descent root l s k virt t (enter t (get_index (suc k) virt) s) at (omega arith)
      (enter-Enters root l s t (get_index (suc k) virt) k tree at (omega arith))
      (λ t' s' l' tree' at'. descend-Descends root l' s' k virt t' tree' at' (omega arith))

-- The page number of an address of 48 bits.
abbrev pub page_of : ℕ → ℕ
page_of virt = virt / 4096 % 2 ^ 36

same_way :
    (v w : ℕ) → steps 3 v [] ≡ steps 3 w [] → get_index 0 v ≡ get_index 0 w → page_of v ≡ page_of w
same_way v w e z = page_number v w (ground (arith, e)) (ground (arith, e)) (ground (arith, e)) z

-- The tables `s'` map the page of `virt` as `mapped` says, and every other page as before.
pub record Rewritten (root : ℕ) (l : Labels) (old : ℕ → ℕ → ℕ) (virt : ℕ) (mapped : Option ℕ)
    (s' : Tables) : Type 0 where
  pub tree : IsTree root l s'
  pub here : lookup 3 virt root s'.entry ≡ mapped
  pub there : (v : ℕ) → page_of v ≢ page_of virt → lookup 3 v root s'.entry ≡ lookup 3 v root old

write_entry :
    (root : ℕ) (l : Labels) (s : Tables) (virt t value : ℕ) (free : Bool)
    → IsTree root l s
    → l.level t ≡ 0
    → l.path t ≡ steps 3 virt []
    → find_table 3 virt root s.entry ≡ some t
    → Rewritten root l s.entry virt
        (leaf value)
        (record s { entry = set_entry s.entry t (get_index 0 virt) value; locked = free })
write_entry root l s virt t value free tree bottom path found =
    let i : ℕ = get_index 0 virt in
    let w : ℕ → ℕ → ℕ = set_entry s.entry t i value in
    record {
      tree = written-IsTree tree t i value bottom free;
      here =
          lookup-find 3 virt root w
          ∙ rw
              (find-written tree t i value bottom 3 virt root tree.root_level (omega arith) ∙ found)
              (ap leaf (written_self s.entry t i value));
      there = λ v other.
          lookup-written tree t i value bottom 3 v root tree.root_level (omega arith) (λ way z.
            other (same_way v virt (ap (steps 3 v) (sym tree.root_path) ∙ (way ∙ path)) z));
    }
  where
    written_self : (e : ℕ → ℕ → ℕ) (t i value : ℕ) → set_entry e t i value t i ≡ value
    written_self e t i value = ground arith

-- How a map_page of `virt` may end: with the page mapped, or without a page for a table.
abbrev pub Maps : ℕ → Tables → ℕ → ℕ → Mapped Tables → Type 0
Maps root s virt value (ok s') =
    (s'.locked ≡ false) × ((l' : Labels) × Rewritten root l' s.entry virt (some value) s')
Maps root s virt value no_page = length s.fresh < 3
Maps root s virt value halted = ⊥
Maps root s virt value spinning = ⊥

finish-Maps :
    (root : ℕ) (l : Labels) (s : Tables) (phys virt flags : ℕ) (r : Mapped (ℕ × Tables))
    → IsTree root l s
    → Descends root l s 3 virt root r
    → Maps root s virt (bit_or (bit_or phys flags) 1) (r >>= λ x. ok (finish_map phys virt flags x))
finish-Maps root l s phys virt flags (ok (t, s')) tree (l', d) =
    let value : ℕ = bit_or (bit_or phys flags) 1 in
    let w =
      write_entry root l' s' virt t value false d.tree d.level
        (d.path ∙ ap (steps 3 virt) tree.root_path) d.found in
    let mapped : Rewritten root l' s.entry virt (some value) (finish_map phys virt flags (t, s')) =
      record {
        tree = w.tree;
        here = w.here ∙ rw (present_or-one (bit_or phys flags)) refl;
        there = λ v other. w.there v other ∙ d.extends.maps 3 v root tree.root_level (omega arith);
      } in
    (refl, (l', mapped))
finish-Maps root l s phys virt flags no_page tree d = d
finish-Maps root l s phys virt flags halted tree d = d
finish-Maps root l s phys virt flags spinning tree d = d

-- On page tables that form a tree, with the lock free and flags that the mask allows, map_page either
-- maps the page of `virt` to the entry made of the physical address, the flags and PG_PRESENT, leaves
-- every address of another page mapped as it was and the tables a tree, and releases the lock; or
-- fewer than three fresh pages were left and the allocator has none for a table.
pub map_page-Maps :
    (root : ℕ) (l : Labels) (s : Tables) (phys virt flags : ℕ)
    → IsTree root l s
    → s.locked ≡ false
    → bad_flags flags ≡ false
    → Maps root s virt (bit_or (bit_or phys flags) 1) (map_page root phys virt flags s)
unfolding map_page
map_page-Maps root l s phys virt flags tree free good =
    let held : Tables = record s { locked = true } in
    let tree' : IsTree root l held = record {
      root_level = tree.root_level;
      root_path = tree.root_path;
      child = tree.child;
      small = tree.small;
      spare = tree.spare;
      distinct = tree.distinct;
    } in
    simp (free, good)
      (finish-Maps root l held phys virt flags (descend 3 virt root held) tree'
        (descend-Descends root l held 3 virt root tree' tree.root_level (omega arith)))

-- What unmap_page finds of the way to a page, and does.
clear_found_lem :
    (root : ℕ) (l : Labels) (s : Tables) (virt : ℕ) (found : Option ℕ)
    → IsTree root l s
    → find_table 3 virt root s.entry ≡ found
    → Rewritten root l s.entry virt none (clear_found virt found s)
clear_found_lem root l s virt none tree e = record {
  tree = record {
    root_level = tree.root_level;
    root_path = tree.root_path;
    child = tree.child;
    small = tree.small;
    spare = tree.spare;
    distinct = tree.distinct;
  };
  here = lookup-find 3 virt root s.entry ∙ rw e refl;
  there = λ v other. refl;
}
clear_found_lem root l s virt (some t) tree e =
    let (level, path) = found_place l s tree 3 virt root t tree.root_level (omega arith) e in
    write_entry root l s virt t 0 false tree level (path ∙ ap (steps 3 virt) tree.root_path) e

-- A way is missing when a table on it is.
abbrev pub is_missing : Option ℕ → Bool
is_missing none = true
is_missing (some t) = false

clear_found-locked :
    (virt : ℕ) (found : Option ℕ) (s : Tables)
    → (clear_found virt found s).locked ≡ is_missing found
clear_found-locked virt none s = refl
clear_found-locked virt (some t) s = refl

-- On page tables that form a tree, with the lock free, unmap_page leaves the page of `virt` unmapped,
-- every address of another page mapped as it was and the tables a tree; it releases the lock exactly
-- if no table on the way to the page is missing.
pub unmap_page_lem :
    (root : ℕ) (l : Labels) (s : Tables) (virt : ℕ)
    → IsTree root l s
    → s.locked ≡ false
    → (s' : Tables) × (unmap_page root virt s ≡ ok s')
      × Rewritten root l s.entry virt none s'
      × (s'.locked ≡ is_missing (find_table 3 virt root s.entry))
unfolding unmap_page
unmap_page_lem root l s virt tree free = (
  clear_found virt (find_table 3 virt root s.entry) s,
  simp free refl,
  clear_found_lem root l s virt (find_table 3 virt root s.entry) tree refl,
  clear_found-locked virt (find_table 3 virt root s.entry) s,
)
