-- ===== src/Mm/Slab/Grow.antt =====
-- kmem_cache_new_empty and the allocation behind it, where kernel/src/mm/slab.c has no slab left.
use goofyos.Base.{
  ℕ, ◌≡◌, ◌≢◌, ◌<◌, refl, sym, ◌∙◌, ap, true, false, Option, none, some, List, [], ◌∷◌, ◌==◌,
  length, arith, ==_self, Bool-cases, inl, inr,
}
use goofyos.Dsa.Links.{null}
use goofyos.Dsa.Links.Chain.{has}
use goofyos.Mm.Pages.{page_to_virt, hhdm_to_page, objects, length-objects}
use goofyos.Mm.Mempool.{Mempool, mempool_zalloc, mempool_alloc_nolock, zeroed_chunk}
use goofyos.Mm.Slab.{
  Kind, partial, empty, Memory, n_objects, slab_size, kind_of, kmem_insert_slab, new_slab,
  kmem_cache_new_empty, alloc_in, kmem_cache_alloc_nolock,
}
use goofyos.Mm.Slab.View.{View, with_slabs, with_free, IsCache}
use goofyos.Mm.Slab.Alloc.{Gives, alloc_in-Gives}
use goofyos.Mm.Slab.New.{new_slab-IsCache, new_slab-pages}

zalloc_ne : (hhdm a : ℕ) (p pool : Mempool) → mempool_zalloc hhdm p ≡ some (a, pool) → a ≢ null
unfolding mempool_zalloc
zalloc_ne hhdm a p pool e = from (mempool_alloc_nolock hhdm p) e
  where
    given : ℕ × Mempool
    given = (a, pool)

    nothing : Option (ℕ × Mempool)
    nothing = none

    not_both : nothing ≡ some given → ⊥
    not_both e = cc

    inner : (r : ℕ × Mempool) → some r ≡ some given → r ≡ given
    inner r e = cc

    same : (b : ℕ) → b ≡ a → a ≡ null → (b == null) ≡ false → ⊥
    same b pair y z = absurd (ground arith)

    from : (r : Option (ℕ × Mempool)) → zeroed_chunk r ≡ some (a, pool) → a ≢ null
    from none e = λ y. not_both e
    from (some (b, q)) e = elim (Bool-cases (b == null)) [
      | inl z ↦ λ y. not_both (rw z at e)
      | inr z ↦ λ y. same b (ap (λ r. r.0) (inner (b, q) (rw z at e))) y z
    ]

insert-objects :
    (a c : ℕ) (m : Memory)
    → (m.slab a).cache ≡ c
    → n_objects ((kmem_insert_slab a m).cache c) ≡ n_objects (m.cache c)
unfolding kmem_insert_slab n_objects slab_size
insert-objects a c m e = rw (e, ==_self c) refl

-- The frame `page` is next, the pool gives the slab `a`, which is in no list, and no slab has an object
-- of the page among its free chunks.
pub record CanGrow (hhdm : ℕ) (m : Memory) (c : ℕ) (v : View) (page a : ℕ) (rest : List ℕ)
    (pool : Mempool) : Type 0 where
  pub base : 0 < hhdm
  pub size : 0 < (m.cache c).size
  pub next_page : m.pages ≡ page ∷ rest
  pub next_slab : mempool_zalloc hhdm m.pool ≡ some (a, pool)
  pub out : (k : Kind) → has a (v.slabs k) ≡ false
  pub fresh :
      (k : Kind) (b x : ℕ)
      → has b (v.slabs k) ≡ true
      → has x (objects (page_to_virt hhdm page) (m.cache c).size (n_objects (m.cache c))) ≡ true
      → has x (v.free b) ≡ false

module _ {m : Memory} {c : ℕ} {v : View} (hhdm page a : ℕ) (rest : List ℕ) (pool : Mempool)
    (o : IsCache m c v) (g : CanGrow hhdm m c v page a rest pool) where
  abbrev cut : List ℕ
  cut = objects (page_to_virt hhdm page) (m.cache c).size (n_objects (m.cache c))

  drawn-IsCache : IsCache (record m { pool = pool; pages = rest }) c v
  drawn-IsCache = record {
    lists = λ k.
        let old = o.lists k in
        record { before = old.before; list = old.list; counted = old.counted; each = old.each };
    apart = o.apart;
    free_apart = o.free_apart;
  }

  kmem_cache_new_empty_lem :
      (m' : Memory) × ((kmem_cache_new_empty hhdm c m ≡ some m')
        × IsCache m' c (with_slabs (with_free v a cut) empty (a ∷ v.slabs empty))
        × ((x : ℕ) → has x cut ≡ true → m'.slab_of (hhdm_to_page hhdm x) ≡ a)
        × (n_objects (m'.cache c) ≡ n_objects (m.cache c)))
  unfolding kmem_cache_new_empty kmem_insert_slab new_slab kind_of
  kmem_cache_new_empty_lem =
      let drawn : Memory = record m { pool = pool; pages = rest } in
      let ne = zalloc_ne hhdm a m.pool pool g.next_slab in
      let is = new_slab-IsCache hhdm page a drawn-IsCache ne g.out g.base g.size g.fresh in
      let pages = new_slab-pages hhdm page a drawn-IsCache ne g.out g.size in
      let owner : ((new_slab hhdm c page a drawn).slab a).cache ≡ c = owned drawn in
      (
        kmem_insert_slab a (new_slab hhdm c page a drawn),
        (
          made,
          rw (sorted) at is,
          kept (new_slab hhdm c page a drawn) pages,
          insert-objects a c (new_slab hhdm c page a drawn) owner ∙ objects_kept drawn,
        ),
      )
    where
      made :
          let drawn : Memory = record m { pool = pool; pages = rest } in
          kmem_cache_new_empty hhdm c m ≡ some (kmem_insert_slab a (new_slab hhdm c page a drawn))
      made = rw (g.next_page, g.next_slab) refl

      kind_self : (n : ℕ) → kind_of n n ≡ empty
      kind_self n = rw (==_self n) refl

      sorted : kind_of (n_objects (m.cache c)) (length ((with_free v a cut).free a)) ≡ empty
      sorted =
          rw
            (
              ==_self a,
              length-objects (page_to_virt hhdm page) (m.cache c).size (n_objects (m.cache c)),
            )
            (kind_self (n_objects (m.cache c)))

      owned : (d : Memory) → ((new_slab hhdm c page a d).slab a).cache ≡ c
      owned d = rw (==_self a) refl

      kept :
          (d : Memory)
          → ((x : ℕ) → has x cut ≡ true → d.slab_of (hhdm_to_page hhdm x) ≡ a)
          → (x : ℕ) → has x cut ≡ true
          → (kmem_insert_slab a d).slab_of (hhdm_to_page hhdm x) ≡ a
      kept d h = h

      objects_kept :
          (d : Memory) → n_objects ((new_slab hhdm c page a d).cache c) ≡ n_objects (d.cache c)
      objects_kept d = refl

-- The allocation behind the new slab, in terms of the whole: what it gives is what the whole gives.
grown :
    {m₁ : Memory} {c : ℕ} {v : View} {a : ℕ} {r result : Option (ℕ × Memory)} (page_at : ℕ → ℕ)
    (xs : List ℕ)
    → Gives m₁ c v empty a [] r
    → r ≡ result
    → ((x : ℕ) → has x xs ≡ true → m₁.slab_of (page_at x) ≡ a)
    → (g : Gives m₁ c v empty a [] result) × ((x : ℕ)
        → has x xs ≡ true
        → g.memory.slab_of (page_at x) ≡ a)
grown page_at xs g e back = (
  record {
    chunk = g.chunk;
    rest = g.rest;
    memory = g.memory;
    first_free = g.first_free;
    is = sym e ∙ g.is;
    cache = g.cache;
    used = g.used;
    pages = g.pages;
  },
  λ x h. ap (λ f. f (page_at x)) g.pages ∙ back x h,
)

-- Where the cache `c` is well formed, has neither a partial nor an empty slab, a page and a slab can
-- be had, and a slab has objects, kmem_cache_alloc_nolock makes a new slab of the objects of the
-- page and gives its first free one, the last of the page. The slab goes to the list that its number
-- of free chunks says, slabs have as many objects as before, the cache stays well formed, no slab
-- has the chunk among its free ones, and in the memory that the allocation leaves each object of the
-- page leads back to the slab.
pub kmem_cache_alloc_nolock-grows :
    {m : Memory} {c : ℕ} {v : View} (hhdm page a : ℕ) (rest : List ℕ) (pool : Mempool)
    → IsCache m c v
    → CanGrow hhdm m c v page a rest pool
    → 0 < n_objects (m.cache c)
    → v.slabs partial ≡ []
    → v.slabs empty ≡ []
    → let cut : List ℕ =
        objects (page_to_virt hhdm page) (m.cache c).size (n_objects (m.cache c)) in
      (m₁ : Memory) × (n_objects (m₁.cache c) ≡ n_objects (m.cache c))
      × ((g : Gives m₁ c
            (with_slabs (with_free v a cut) empty (a ∷ []))
            empty
            a
            []
            (kmem_cache_alloc_nolock hhdm c m))
          × ((x : ℕ) → has x cut ≡ true → g.memory.slab_of (hhdm_to_page hhdm x) ≡ a))
unfolding kmem_cache_alloc_nolock
kmem_cache_alloc_nolock-grows {m} {c} {v} hhdm page a rest pool o g pos no_partial no_empty =
    let (m₁, p) = kmem_cache_new_empty_lem hhdm page a rest pool o g in
    let given = alloc_in-Gives empty a [] (rw no_empty at p.1) (rw p.3 pos) (λ q. cc) refl in
    (m₁, p.3, grown (hhdm_to_page hhdm) page_objects given (run p.0) p.2)
  where
    page_objects : List ℕ
    page_objects = objects (page_to_virt hhdm page) (m.cache c).size (n_objects (m.cache c))

    no_slab : (k : Kind) → v.slabs k ≡ [] → ((m.cache c).count k == 0) ≡ true
    no_slab k e = let n = (o.lists k).counted ∙ ap length e in ground (arith, n)

    run :
        {m₁ : Memory}
        → kmem_cache_new_empty hhdm c m ≡ some m₁
        → alloc_in empty c m₁ ≡ kmem_cache_alloc_nolock hhdm c m
    run e = rw (no_slab partial no_partial, no_slab empty no_empty, e) refl
