-- ===== src/Mm/Slab.antt =====
-- The slab allocator of kernel/src/mm/slab.c. `none` is an access through NULL, or a result that the
-- code leaves undefined. A slab is named by the address of its `slab_list`, a page by its frame number.
pub mod View
pub mod Moves
pub mod Chunks
pub mod Alloc
pub mod Free
pub mod New
pub mod Grow
pub mod Size
use goofyos.Base.{
  ℕ, zero, suc, ◌+◌, ◌-◌, ◌*◌, ◌/◌, ◌^◌, Bool, true, false, Option, none, some, List, [], ◌∷◌, ◌==◌,
  ltb, leb, if◌then◌else◌,
}
use goofyos.Dsa.Links.{Links, null, update, set_next, set_prev}
use goofyos.Dsa.ListHead.{
  list_pop_front, list_push_front, list_remove_node, slist_pop_front, slist_push_front,
}
use goofyos.Mm.Pages.{page_to_virt, hhdm_to_page}
use goofyos.Mm.Mempool.{Mempool, down, mempool_zalloc}

-- Which of the three lists of a cache.
pub data Kind : Type 0 where
  full partial empty : Kind

abbrev pub same_kind : Kind → Kind → Bool
same_kind full full = true
same_kind partial partial = true
same_kind empty empty = true
same_kind full partial = false
same_kind full empty = false
same_kind partial full = false
same_kind partial empty = false
same_kind empty full = false
same_kind empty partial = false

-- `head` are slab_full, slab_partial and slab_empty; `count` are n_full, n_partial and n_empty, `int`s
-- as their 32 bits.
pub record Cache : Type 0 where
  pub size : ℕ
  pub order : ℕ
  pub head : Kind → ℕ
  pub count : Kind → ℕ

-- The fields of `struct slab` but its links.
pub record Slab : Type 0 where
  pub cache : ℕ
  pub freelist : ℕ
  pub free_objects : ℕ

-- `links` are the `slab_list` of the slabs, `next` the pointers in the free chunks, `slab_of` the field
-- `slab` of the pages, `pool` is slab_mempool and `pages` what alloc_pages will give.
pub record Memory : Type 0 where
  pub links : Links
  pub slab : ℕ → Slab
  pub next : ℕ → ℕ
  pub cache : ℕ → Cache
  pub slab_of : ℕ → ℕ
  pub pool : Mempool
  pub pages : List ℕ

unfoldable pub slab_size : Cache → ℕ
slab_size c = 4096 * 2 ^ c.order

unfoldable pub n_objects : Cache → ℕ
n_objects c = slab_size c / c.size

abbrev pub set_kind : (Kind → ℕ) → Kind → ℕ → Kind → ℕ
set_kind f k v j = if same_kind k j then v else f j

abbrev pub set_slab : (ℕ → Slab) → ℕ → Slab → ℕ → Slab
set_slab f a v b = if a == b then v else f b

-- A list of a cache and the number of its slabs.
abbrev pub set_list : Memory → ℕ → Kind → ℕ → ℕ → Links → Memory
set_list m c k head count links =
    let old : Cache = m.cache c in
    record m {
      links = links;
      cache = λ d.
          if c == d
          then record old { head = set_kind old.head k head; count = set_kind old.count k count }
          else m.cache d;
    }

-- The list that a slab with `n` free objects belongs in.
unfoldable pub kind_of : ℕ → ℕ → Kind
kind_of objects n = if objects == n then empty else if n == 0 then full else partial

abbrev pub insert_in : Kind → ℕ → Memory → Memory
insert_in k a m =
    let c : ℕ = (m.slab a).cache in
    let pushed : ℕ × Links = list_push_front m.links ((m.cache c).head k) a in
    set_list m c k pushed.0 (suc ((m.cache c).count k)) pushed.1

unfoldable pub kmem_insert_slab : ℕ → Memory → Memory
kmem_insert_slab a m =
    let s : Slab = m.slab a in insert_in (kind_of (n_objects (m.cache s.cache)) s.free_objects) a m

abbrev pub chunk_taken : ℕ → Memory → Option (ℕ × ℕ) → Option (ℕ × Memory)
chunk_taken a m none = none
chunk_taken a m (some (chunk, rest)) =
    let s : Slab = m.slab a in
    let s' : Slab = record s { freelist = rest; free_objects = down s.free_objects } in
    some (chunk, record m { slab = set_slab m.slab a s' })

unfoldable pub kmem_get_chunk_from_slab : ℕ → Memory → Option (ℕ × Memory)
kmem_get_chunk_from_slab a m = chunk_taken a m (slist_pop_front m.next (m.slab a).freelist)

abbrev pub put_back : ℕ → Option (ℕ × Memory) → Option (ℕ × Memory)
put_back a none = none
put_back a (some (chunk, m)) = some (chunk, kmem_insert_slab a m)

abbrev pub slab_popped : ℕ → Kind → Memory → Option (ℕ × ℕ) → Option (ℕ × Memory)
slab_popped c k m none = none
slab_popped c k m (some (a, rest)) =
    put_back a
      (kmem_get_chunk_from_slab a (set_list m c k rest (down ((m.cache c).count k)) m.links))

-- The first slab of a list gives a chunk.
unfoldable pub alloc_in : Kind → ℕ → Memory → Option (ℕ × Memory)
alloc_in k c m = slab_popped c k m (list_pop_front m.links ((m.cache c).head k))

abbrev pub kmem_cache_alloc_partial : ℕ → Memory → Option (ℕ × Memory)
kmem_cache_alloc_partial = alloc_in partial

abbrev pub kmem_cache_alloc_empty : ℕ → Memory → Option (ℕ × Memory)
kmem_cache_alloc_empty = alloc_in empty

-- `new_page[i].slab = new_slab`.
abbrev pub mark_slab : (ℕ → ℕ) → ℕ → ℕ → ℕ → ℕ → ℕ
mark_slab f page n a p = if ltb p page then f p else if ltb p (page + n) then a else f p

-- The chunks `i`, …, `i + n - 1` of a new page, pushed in turn.
unfoldable pub add_chunks : ℕ → ℕ → ℕ → ℕ → ℕ × (ℕ → ℕ) → ℕ × (ℕ → ℕ)
add_chunks base size i zero l = l
add_chunks base size i (suc n) l =
    add_chunks base size (suc i) n (slist_push_front l.1 l.0 (base + size * i))

-- The new slab `a`, which mempool_zalloc has set to zero, with its chunks.
unfoldable pub new_slab : ℕ → ℕ → ℕ → ℕ → Memory → Memory
new_slab hhdm c page a m =
    let cache : Cache = m.cache c in
    let made : ℕ × (ℕ → ℕ) =
      add_chunks (page_to_virt hhdm page) cache.size 0 (n_objects cache) (null, m.next) in
    record m {
      links = set_prev (set_next m.links a null) a null;
      slab =
          set_slab m.slab a
            (record { cache = c; freelist = made.0; free_objects = n_objects cache });
      next = made.1;
      slab_of = mark_slab m.slab_of page (2 ^ cache.order) a;
    }

abbrev pub slab_made : ℕ → ℕ → ℕ → List ℕ → Memory → Option (ℕ × Mempool) → Option Memory
slab_made hhdm c page rest m none = none
slab_made hhdm c page rest m (some (a, pool)) =
    some (kmem_insert_slab a (new_slab hhdm c page a (record m { pool = pool; pages = rest })))

-- Without a page the function ends without a result.
abbrev pub new_empty_from : ℕ → ℕ → List ℕ → Memory → Option Memory
new_empty_from hhdm c [] m = none
new_empty_from hhdm c (page ∷ rest) m = slab_made hhdm c page rest m (mempool_zalloc hhdm m.pool)

unfoldable pub kmem_cache_new_empty : ℕ → ℕ → Memory → Option Memory
kmem_cache_new_empty hhdm c m = new_empty_from hhdm c m.pages m

abbrev pub then_alloc : ℕ → Option Memory → Option (ℕ × Memory)
then_alloc c none = none
then_alloc c (some m) = kmem_cache_alloc_empty c m

unfoldable pub kmem_cache_alloc_nolock : ℕ → ℕ → Memory → Option (ℕ × Memory)
kmem_cache_alloc_nolock hhdm c m =
    if (m.cache c).count partial == 0
    then if (m.cache c).count empty == 0
      then then_alloc c (kmem_cache_new_empty hhdm c m)
      else kmem_cache_alloc_empty c m
    else kmem_cache_alloc_partial c m

-- A slab leaves a list.
abbrev pub take_out : Kind → ℕ → ℕ → Memory → Memory
take_out k c a m =
    let old : Cache = m.cache c in
    let r : ℕ × Links = list_remove_node m.links (old.head k) a in
    set_list m c k r.0 (down (old.count k)) r.1

abbrev pub give_chunk : ℕ → ℕ → Memory → Memory
give_chunk a chunk m =
    let s : Slab = m.slab a in
    let pushed : ℕ × (ℕ → ℕ) = slist_push_front m.next s.freelist chunk in
    let s' : Slab = record s { freelist = pushed.0; free_objects = suc s.free_objects } in
    record m { slab = set_slab m.slab a s'; next = pushed.1 }

unfoldable pub kmem_cache_free_nolock : ℕ → ℕ → ℕ → Memory → Memory
kmem_cache_free_nolock hhdm c chunk m =
    let a : ℕ = m.slab_of (hhdm_to_page hhdm chunk) in
    let n : ℕ = (m.slab a).free_objects in
    let m₁ : Memory = if n == 0 then take_out full c a m else m in
    let m₂ : Memory = if ltb 0 n then take_out partial c a m₁ else m₁ in
    kmem_insert_slab a (give_chunk a chunk m₂)

-- The caches are named by their indices.
unfoldable pub kmalloc_idx : ℕ → ℕ
kmalloc_idx size =
    if leb size 8
    then 0
    else if leb size 16
    then 1
    else if leb size 32
    then 2
    else if leb size 64
    then 3
    else if leb size 128
    then 4
    else if leb size 192
    then 5
    else if leb size 256
    then 6
    else if leb size 512
    then 7
    else if leb size 1024
    then 8
    else if leb size 2048
    then 9
    else if leb size 4096
    then 10
    else if leb size 8192
    then 11
    else size

abbrev pub kmalloc_sizes : List ℕ
kmalloc_sizes = 8 ∷ 16 ∷ 32 ∷ 64 ∷ 128 ∷ 192 ∷ 256 ∷ 512 ∷ 1024 ∷ 2048 ∷ 4096 ∷ 8192 ∷ []

abbrev pub kmalloc_orders : List ℕ
kmalloc_orders = 0 ∷ 0 ∷ 0 ∷ 0 ∷ 0 ∷ 1 ∷ 1 ∷ 1 ∷ 1 ∷ 2 ∷ 2 ∷ 3 ∷ []

-- NULL for a size above the largest.
unfoldable pub kmalloc : ℕ → ℕ → Memory → Option (ℕ × Memory)
kmalloc hhdm size m =
    if ltb 8192 size then some (null, m) else kmem_cache_alloc_nolock hhdm (kmalloc_idx size) m

unfoldable pub kfree : ℕ → ℕ → Memory → Memory
kfree hhdm chunk m =
    let a : ℕ = m.slab_of (hhdm_to_page hhdm chunk) in
    kmem_cache_free_nolock hhdm (m.slab a).cache chunk m

-- The caches of slab_init, from the sizes and the orders.
unfoldable pub init_caches : List ℕ → List ℕ → ℕ → (ℕ → Cache) → ℕ → Cache
init_caches [] orders i caches = caches
init_caches (size ∷ sizes) [] i caches = caches
init_caches (size ∷ sizes) (order ∷ orders) i caches =
    let old : Cache = caches i in
    let new : Cache = record old { size = size; order = order } in
    init_caches sizes orders (suc i) (λ c. if i == c then new else caches c)
