-- ===== src/Mm/Mempool.antt =====
-- The memory pools of kernel/src/mm/mempool.c. `pages` are the frames that alloc_pages will give in
-- turn, and it returns NULL behind the last. `none` is an access through NULL.
pub mod Drain
use goofyos.Base.{
  ℕ, zero, suc, ◌+◌, ◌-◌, ◌*◌, ◌/◌, ◌^◌, Bool, true, false, Option, none, some, List, [], ◌∷◌, ◌++◌,
  ◌==◌, ltb, if◌then◌else◌,
}
use goofyos.Dsa.Links.{Links, null, update}
use goofyos.Dsa.ListHead.{list_pop_front, list_push_front}
use goofyos.Mm.Pages.{page_to_virt, hhdm_to_page, base_pfn}

-- `links` are the list heads in the free chunks, `n_free` and `mempool` the fields of `struct page`, the
-- latter as whether it points to this pool. `freed` are the pages given back, with their order.
pub record Mempool : Type 0 where
  pub freelist : ℕ
  pub count : ℕ
  pub size : ℕ
  pub order : ℕ
  pub links : Links
  pub n_free : ℕ → ℕ
  pub mempool : ℕ → Bool
  pub pages : List ℕ
  pub freed : List ℕ

-- `none` is the halt on a size that the pool refuses; 16 is the size of `struct list_head`.
unfoldable pub mempool_init : Mempool → ℕ → ℕ → Option Mempool
mempool_init m size order =
    if ltb size 16
    then none
    else if ltb 4096 size
    then none
    else some (record m { freelist = null; count = 0; size = size; order = order })

abbrev pub max_count : Mempool → ℕ
max_count m = 4096 * 2 ^ m.order / m.size

-- `unsigned int`, one less.
abbrev pub down : ℕ → ℕ
down n = if n == 0 then 2 ^ 32 - 1 else n - 1

unfoldable pub mempool_free_nolock : ℕ → Mempool → ℕ → Mempool
mempool_free_nolock hhdm m chunk =
    let base : ℕ = base_pfn (hhdm_to_page hhdm chunk) m.order in
    let pushed : ℕ × Links = list_push_front m.links m.freelist chunk in
    let n : ℕ = suc (m.n_free base) in
    record m {
      freelist = pushed.0;
      links = pushed.1;
      n_free = update m.n_free base n;
      freed = if n == max_count m then base ∷ m.freed else m.freed;
    }

-- The free chunk in front.
abbrev pub popped_chunk : ℕ → Mempool → Option (ℕ × ℕ) → Option (ℕ × Mempool)
popped_chunk hhdm m none = none
popped_chunk hhdm m (some (ret, rest)) =
    let base : ℕ = base_pfn (hhdm_to_page hhdm ret) m.order in
    some (ret, record m { freelist = rest; n_free = update m.n_free base (down (m.n_free base)) })

unfoldable pub pop_chunk : ℕ → Mempool → Option (ℕ × Mempool)
pop_chunk hhdm m = popped_chunk hhdm m (list_pop_front m.links m.freelist)

-- The chunks `i`, …, `i + n - 1` of a new page, pushed in turn.
unfoldable pub push_chunks : ℕ → ℕ → ℕ → ℕ → ℕ × Links → ℕ × Links
push_chunks base size i zero l = l
push_chunks base size i (suc n) l =
    push_chunks base size (suc i) n (list_push_front l.1 l.0 (base + size * i))

-- `page[i].mempool = mempool`.
abbrev pub mark_pages : (ℕ → Bool) → ℕ → ℕ → ℕ → Bool
mark_pages f page n p = if ltb p page then f p else if ltb p (page + n) then true else f p

unfoldable pub refill : ℕ → Mempool → ℕ → List ℕ → Mempool
refill hhdm m page rest =
    let made : ℕ × Links =
      push_chunks (page_to_virt hhdm page) m.size 0 (max_count m) (null, m.links) in
    record m {
      freelist = made.0;
      count = max_count m;
      links = made.1;
      n_free = update m.n_free page (max_count m);
      mempool = mark_pages m.mempool page (2 ^ m.order);
      pages = rest;
    }

-- Where no page is left, alloc_pages clears the memory of the page NULL, which is wild: `none`.
unfoldable pub alloc_from : ℕ → Mempool → List ℕ → Option (ℕ × Mempool)
alloc_from hhdm m [] = if ltb 0 m.count then pop_chunk hhdm m else none
alloc_from hhdm m (page ∷ rest) =
    let again = alloc_from hhdm (refill hhdm m page rest) rest in
    if ltb 0 m.count then pop_chunk hhdm m else again

unfoldable pub mempool_alloc_nolock : ℕ → Mempool → Option (ℕ × Mempool)
mempool_alloc_nolock hhdm m = alloc_from hhdm m m.pages

-- memset of the chunk, which is an access through NULL when there was none.
abbrev pub zeroed_chunk : Option (ℕ × Mempool) → Option (ℕ × Mempool)
zeroed_chunk none = none
zeroed_chunk (some (ret, m)) = if ret == null then none else some (ret, m)

unfoldable pub mempool_zalloc : ℕ → Mempool → Option (ℕ × Mempool)
mempool_zalloc hhdm m = zeroed_chunk (mempool_alloc_nolock hhdm m)

abbrev pub and_allocs :
    (Mempool → Option (List ℕ × Mempool)) → Option (ℕ × Mempool) → Option (List ℕ × Mempool)
and_allocs f none = none
and_allocs f (some (x, m)) = then_more x (f m)
  where
    then_more : ℕ → Option (List ℕ × Mempool) → Option (List ℕ × Mempool)
    then_more x none = none
    then_more x (some (xs, m)) = some (x ∷ xs, m)

-- `n` allocations one after the other.
unfoldable pub allocs : ℕ → ℕ → Mempool → Option (List ℕ × Mempool)
allocs hhdm zero m = some ([], m)
allocs hhdm (suc n) m = and_allocs (allocs hhdm n) (mempool_alloc_nolock hhdm m)
