-- ===== src/Mm/Buddy.antt =====
-- The page allocator of kernel/src/mm/buddy.c. A page is named by its page frame number, and its
-- list node by the address of its `buddy_list` field in the array of `struct page`. The functions
-- are the critical sections of kmem.lock.
pub mod Weight
pub mod Total
pub mod Merge
pub mod Init
use Prim.Native.Nat.{bit_xor}
use goofyos.Base.{
  ℕ, zero, suc, ◌+◌, ◌-◌, ◌*◌, ◌/◌, ◌%◌, ◌^◌, Bool, true, false, ◌&&◌, ◌||◌, List, [], ◌∷◌, Option,
  none, some, ltb, leb, ◌==◌, if◌then◌else◌,
}
use goofyos.Dsa.Links.{Links, null, update}
use goofyos.Dsa.ListHead.{list_pop_front, list_push_front, list_remove_node}

abbrev pub max_order : ℕ
max_order = 15

abbrev pub sparsemap_array : ℕ
sparsemap_array = 0xffffc00000000000

-- `&pfn_to_page(pfn)->buddy_list`: a `struct page` takes 64 bytes and the field stands at 8.
unfoldable pub page_node : ℕ → ℕ
page_node pfn = sparsemap_array + 64 * pfn + 8

-- `page_to_pfn(container_of(node, struct page, buddy_list))`
unfoldable pub node_pfn : ℕ → ℕ
node_pfn node = (node - 8 - sparsemap_array) / 64

pub record Zone : Type 0 where
  pub pfn_base : ℕ
  pub size : ℕ

-- `free` is PAGE_FLAG_FREE, the only flag; `head` and `count` are those of buddy_lists[order].
pub record Buddy : Type 0 where
  pub free : ℕ → Bool
  pub order : ℕ → ℕ
  pub links : Links
  pub head : ℕ → ℕ
  pub count : ℕ → ℕ
  pub zones : List Zone

-- `hcf` is the halt of the machine, `fault` a read through NULL, and `out_of_fuel` a recursion
-- that has not ended.
pub data Run {ℓ} (A : Type ℓ) : Type ℓ where
  ok : A → Run A
  hcf fault out_of_fuel : Run A

infixl 5 ◌>>=◌
abbrev pub ◌>>=◌ {ℓ κ} : {A : Type ℓ} {B : Type κ} → Run A → (A → Run B) → Run B
ok a >>= f = f a
hcf >>= f = hcf
fault >>= f = fault
out_of_fuel >>= f = out_of_fuel

abbrev pub set_free : Buddy → ℕ → Bool → Buddy
set_free s pfn b = record s { free = λ p. if pfn == p then b else s.free p }

-- `GET_BUDDY(pfn, order)`
unfoldable pub get_buddy : ℕ → ℕ → ℕ
get_buddy pfn order = bit_xor pfn (2 ^ order)

unfoldable pub valid_in : List Zone → ℕ → Bool
valid_in [] pfn = false
valid_in (z ∷ zs) pfn = (leb z.pfn_base pfn && ltb pfn (z.pfn_base + z.size)) || valid_in zs pfn

unfoldable pub valid_buddy_pfn : ℕ → Buddy → Bool
unfolding valid_in
valid_buddy_pfn pfn s = valid_in s.zones pfn

unfoldable pub remove_from_freelist : ℕ → Buddy → Buddy
remove_from_freelist pfn s =
    let o : ℕ = s.order pfn in
    let r = list_remove_node s.links (s.head o) (page_node pfn) in
    record s {
      free = λ p. if pfn == p then false else s.free p;
      links = r.1;
      head = update s.head o r.0;
      count = update s.count o ((s.count o + 2 ^ 32 - 1) % 2 ^ 32);
    }

-- The code behind the label `direct_free`.
unfoldable pub direct_free : ℕ → ℕ → Buddy → Buddy
direct_free pfn order s =
    let r = list_push_front s.links (s.head order) (page_node pfn) in
    record s {
      free = λ p. if pfn == p then true else s.free p;
      order = update s.order pfn order;
      links = r.1;
      head = update s.head order r.0;
      count = update s.count order ((s.count order + 1) % 2 ^ 32);
    }

-- `buddy_pfn` is an `unsigned int`.
unfoldable pub can_merge : ℕ → ℕ → Buddy → Bool
can_merge pfn order s =
    let buddy : ℕ = get_buddy pfn order % 2 ^ 32 in
    if valid_buddy_pfn buddy s
    then (if s.free buddy
        then (if s.order buddy == order
            then (if s.order buddy == max_order then false else true)
            else false)
        else false)
    else false

-- On fuel: the order grows with each call.
unfoldable pub free_pages_nolock : ℕ → ℕ → ℕ → Buddy → Run Buddy
unfolding can_merge
free_pages_nolock zero pfn order s = out_of_fuel
free_pages_nolock (suc fuel) pfn order s =
    let buddy : ℕ = get_buddy pfn order % 2 ^ 32 in
    let merged : Run Buddy =
      free_pages_nolock fuel (if ltb pfn buddy then pfn else buddy) (order + 1)
        (remove_from_freelist buddy s) in
    if can_merge pfn order s then merged else ok (direct_free pfn order s)

-- No call merges past the largest order.
abbrev pub levels : ℕ
levels = max_order + 1

unfoldable pub free_pages : ℕ → ℕ → Buddy → Run Buddy
free_pages pfn order s = free_pages_nolock levels pfn order s

-- The list node that was popped and the new head, none for a NULL head.
unfoldable pub taken : ℕ → Buddy → Option (ℕ × ℕ) → Run (Option ℕ × Buddy)
taken order s none = fault
taken order s (some (node, rest)) = ok (
  some (node_pfn node),
  record s {
    head = update s.head order rest;
    count = update s.count order ((s.count order + 2 ^ 32 - 1) % 2 ^ 32);
  },
)

unfoldable pub take_first : ℕ → Buddy → Run (Option ℕ × Buddy)
take_first order s = taken order s (list_pop_front s.links (s.head order))

-- What follows the recursive call: free the buddy of the block, and clear the block's flag.
unfoldable pub split_block : ℕ → Option ℕ × Buddy → Run (Option ℕ × Buddy)
split_block order (none, s) = ok (none, s)
split_block order (some pfn, s) = free_pages_nolock levels (get_buddy pfn order) order s >>= λ s'.
    ok (some pfn, set_free s' pfn false)

unfoldable pub alloc_pages_nolock : ℕ → ℕ → Buddy → Run (Option ℕ × Buddy)
alloc_pages_nolock zero order s = out_of_fuel
alloc_pages_nolock (suc fuel) order s =
    let higher : Run (Option ℕ × Buddy) =
      alloc_pages_nolock fuel (order + 1) s >>= split_block order in
    if ltb max_order order
    then hcf
    else if ltb 0 (s.count order)
    then take_first order s
    else if order == max_order
    then ok (none, s)
    else higher

-- `while (left < (1 << cur_order) && cur_order < MAX_ORDER) cur_order++;`
unfoldable pub init_order : ℕ → ℕ → ℕ → ℕ
init_order zero left cur_order = cur_order
init_order (suc fuel) left cur_order =
    let rest : ℕ = init_order fuel left (cur_order + 1) in
    if ltb left (2 ^ cur_order) && ltb cur_order max_order then rest else cur_order

-- The body of the loop over one zone, from the page `i` on; `page_idx` goes on over the zones.
unfoldable pub init_zone : ℕ → ℕ → Zone → ℕ → ℕ → Buddy → Run (ℕ × Buddy)
init_zone zero bump z i page_idx s = if ltb i z.size then out_of_fuel else ok (page_idx, s)
init_zone (suc fuel) bump z i page_idx s =
    let skipped : Run (ℕ × Buddy) = init_zone fuel bump z (i + 1) (page_idx + 1) s in
    let o : ℕ = init_order levels (z.size - i) 0 in
    let freed : Run (ℕ × Buddy) =
      free_pages (z.pfn_base + i) o s
      >>= init_zone fuel bump z (i + 2 ^ o + 1) (page_idx + 2 ^ o) in
    if ltb i z.size then (if ltb page_idx bump then skipped else freed) else ok (page_idx, s)

unfoldable pub init_zones : ℕ → List Zone → ℕ → Buddy → Run (ℕ × Buddy)
init_zones bump [] page_idx s = ok (page_idx, s)
init_zones bump (z ∷ zs) page_idx s =
    init_zone z.size bump z 0 page_idx s >>= λ (page_idx', s'). init_zones bump zs page_idx' s'
