-- ===== src/Mm/Buddy/Merge.antt =====
-- What an allocation straight from a list of kernel/src/mm/buddy.c leaves of the block's flag, and
-- what freeing the block's buddy then does.
use goofyos.Base.{
  ℕ, suc, ◌+◌, ◌-◌, ◌%◌, ◌^◌, ◌<◌, ◌≡◌, ◌≢◌, ◌∙◌, refl, true, false, some, arith, ◌==◌, ltb, ap,
  lt→ltb, ◌≤◌, ==_self,
}
use goofyos.Base.Bits.{bit_xor_cancel}
use goofyos.Dsa.Links.{null, update}
use goofyos.Dsa.ListHead.{list_pop_front}
use goofyos.Mm.Buddy.{
  Buddy, ok, max_order, page_node, node_pfn, get_buddy, valid_buddy_pfn, can_merge,
  remove_from_freelist, free_pages_nolock, taken, take_first, alloc_pages_nolock,
}
use goofyos.Mm.Buddy.Weight.{front, free_merge}

not_lt→ltb : (a b : ℕ) → b ≤ a → ltb a b ≡ false
not_lt→ltb a b h = ground arith

node_pfn-page_node : (pfn : ℕ) → node_pfn (page_node pfn) ≡ pfn
unfolding node_pfn page_node
node_pfn-page_node pfn = omega arith

page_node-ne-null : (pfn : ℕ) → page_node pfn ≢ null
unfolding page_node
page_node-ne-null pfn = omega arith

get_buddy_twice : (pfn order : ℕ) → get_buddy (get_buddy pfn order) order ≡ pfn
unfolding get_buddy
get_buddy_twice pfn order = bit_xor_cancel pfn (2 ^ order)

page_test : (pfn : ℕ) → (page_node pfn == null) ≡ false
page_test pfn = ground (arith, page_node-ne-null pfn)

-- The block that is handed out, with the state behind it: only the list's head and counter change.
taken_page :
    (order : ℕ) (s : Buddy) (pfn : ℕ)
    → s.head order ≡ page_node pfn
    → (t : Buddy) × (take_first order s ≡ ok (some pfn, t))
      × (t.free ≡ s.free)
      × (t.order ≡ s.order)
      × (t.zones ≡ s.zones)
      × (t.links ≡ s.links)
      × (t.head order ≡ s.links.next (page_node pfn))
unfolding take_first taken list_pop_front
taken_page order s pfn h = (
  record s {
    head = update s.head order (s.links.next (page_node pfn));
    count = update s.count order ((s.count order + 2 ^ 32 - 1) % 2 ^ 32);
  },
  rw (h, page_test pfn, node_pfn-page_node pfn),
  refl,
  refl,
  refl,
  refl,
  rw (==_self order) refl,
)

can_merge_intro :
    (q order pfn : ℕ) (t : Buddy)
    → get_buddy q order % 2 ^ 32 ≡ pfn
    → valid_buddy_pfn pfn t ≡ true
    → t.free pfn ≡ true
    → t.order pfn ≡ order
    → order < max_order
    → can_merge q order t ≡ true
unfolding can_merge
can_merge_intro q order pfn t e v f o h = rw (e, v, f, o) (ground arith)

alloc_listed :
    (fuel order : ℕ) (s : Buddy)
    → order < max_order
    → 0 < s.count order
    → alloc_pages_nolock (suc fuel) order s ≡ take_first order s
unfolding alloc_pages_nolock
alloc_listed fuel order s h c =
    rw (not_lt→ltb max_order order (omega arith), lt→ltb 0 (s.count order) c)

valid_same :
    (pfn : ℕ) (s t : Buddy)
    → t.zones ≡ s.zones
    → valid_buddy_pfn pfn s ≡ true
    → valid_buddy_pfn pfn t ≡ true
unfolding valid_buddy_pfn
valid_same pfn s t e v = rw e v

-- The first block of a nonempty list, a valid page below 2 ^ 32 of an order below 15 whose free flag
-- and order say so, is allocated: the list then begins with the block that its link names, and the
-- links and its free flag are as before. So freeing its buddy at the same order takes the allocated
-- block for a free one: remove_from_freelist is called for it, and then the merged block, which
-- contains it, is freed.
pub alloc_then_merge :
    (fuel fuel' pfn order : ℕ) (s : Buddy)
    → order < max_order
    → 0 < s.count order
    → s.head order ≡ page_node pfn
    → s.free pfn ≡ true
    → s.order pfn ≡ order
    → valid_buddy_pfn pfn s ≡ true
    → pfn < 2 ^ 32
    → (t : Buddy) × (alloc_pages_nolock (suc fuel) order s ≡ ok (some pfn, t))
      × (t.head order ≡ s.links.next (page_node pfn))
      × (t.links ≡ s.links)
      × (t.free pfn ≡ true)
      × (free_pages_nolock (suc fuel') (get_buddy pfn order) order t
          ≡ free_pages_nolock fuel'
              (front (get_buddy pfn order) pfn)
              (order + 1)
              (remove_from_freelist pfn t))
alloc_then_merge fuel fuel' pfn order s h c f b o v w =
    let (t, e, ef, eo, ez, el, eh) = taken_page order s pfn f in
    let q : ℕ = get_buddy pfn order in
    let back : get_buddy q order % 2 ^ 32 ≡ pfn = omega (arith, get_buddy_twice pfn order) in
    let m =
      can_merge_intro q order pfn t back (valid_same pfn s t ez v) (ap (λ g. g pfn) ef ∙ b)
        (ap (λ g. g pfn) eo ∙ o) h in
    let flag : t.free pfn ≡ true = ap (λ g. g pfn) ef ∙ b in
    (t, alloc_listed fuel order s h c ∙ e, eh, el, flag, rw back at (free_merge fuel' q order t m))
