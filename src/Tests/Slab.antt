-- ===== src/Tests/Slab.antt =====
-- Runs of the theorems on kernel/src/mm/slab.c and mempool.c: the direct map at 65536, the cache 11 of
-- objects of 8192 bytes and the frames from 3 on.
use goofyos.Base.{
  ℕ, ◌≡◌, ◌*◌, ◌+◌, refl, sym, ◌∙◌, arith, true, none, some, List, [], ◌∷◌, ◌==◌, if◌then◌else◌,
}
use goofyos.Dsa.Links.{Links}
use goofyos.Dsa.Links.Chain.{has}
use goofyos.Dsa.ListHead.{list_pop_front}
use goofyos.Mm.Pages.{objects, hhdm_to_page, page_to_virt, base_pfn}
use goofyos.Mm.Mempool.{
  Mempool, mempool_alloc_nolock, mempool_zalloc, alloc_from, pop_chunk, allocs,
}
use goofyos.Mm.Mempool.Drain.{mempool_alloc_nolock-drains}
use goofyos.Mm.Slab.{
  Kind, full, partial, empty, Memory, n_objects, slab_size, kind_of, kmem_cache_alloc_nolock,
  kmem_cache_free_nolock, kmalloc_idx,
}
use goofyos.Mm.Slab.View.{View, with_slabs, with_free, Lists, IsCache}
use goofyos.Mm.Slab.Alloc.{sorted_in, Gives, kmem_cache_alloc_nolock-Gives}
use goofyos.Mm.Slab.Free.{kmem_cache_free_nolock-IsCache}
use goofyos.Mm.Slab.Grow.{CanGrow, kmem_cache_alloc_nolock-grows}
use goofyos.Mm.Slab.Size.{Fits, kmalloc_idx-Fits}

abbrev no_links : Links
no_links = record { next = λ a. 0; prev = λ a. 0 }

-- A pool with one chunk.
abbrev one_chunk : Mempool
one_chunk = record {
  freelist = 4096;
  count = 204;
  size = 40;
  order = 1;
  links = no_links;
  n_free = λ p. 1;
  mempool = λ p. true;
  pages = [];
  freed = [];
}

abbrev only : Kind → ℕ → Kind → ℕ
only full n full = n
only partial n partial = n
only empty n empty = n
only full n partial = 0
only full n empty = 0
only partial n full = 0
only partial n empty = 0
only empty n full = 0
only empty n partial = 0

-- The slab 100 is partial, with the free chunk 77824.
abbrev one_partial : Memory
one_partial = record {
  links = no_links;
  slab = λ a. record { cache = 11; freelist = 77824; free_objects = 1 };
  next = λ x. 0;
  cache = λ c. record { size = 8192; order = 3; head = only partial 100; count = only partial 1 };
  slab_of = λ p. 100;
  pool = one_chunk;
  pages = 8 ∷ [];
}

abbrev partial_slabs : Kind → List ℕ
partial_slabs full = []
partial_slabs partial = 100 ∷ []
partial_slabs empty = []

abbrev one_partial_view : View
one_partial_view = record { slabs = partial_slabs; free = λ a. 77824 ∷ [] }

only_slab : (k : Kind) (a : ℕ) → has a (partial_slabs k) ≡ true → (k ≡ partial) × (a ≡ 100)
only_slab full a h = absurd (ground arith)
only_slab partial a h = (refl, ground arith)
only_slab empty a h = absurd (ground arith)

one_partial-IsCache : IsCache one_partial 11 one_partial_view
unfolding kind_of n_objects slab_size
one_partial-IsCache = record {
  lists = lists;
  apart = λ j k a h g. (only_slab j a h).0 ∙ sym (only_slab k a g).0;
  free_apart = λ j k a b x h g p q. (only_slab j a h).1 ∙ sym (only_slab k b g).1;
}
  where
    lists : (k : Kind) → Lists one_partial 11 one_partial_view.free k (partial_slabs k)
    lists full = record {
      before = 0;
      list = record { start = refl; chain = tt; distinct = tt };
      counted = refl;
      each = λ a h. absurd (ground arith);
    }
    lists empty = record {
      before = 0;
      list = record { start = refl; chain = tt; distinct = tt };
      counted = refl;
      each = λ a h. absurd (ground arith);
    }
    lists partial = record {
      before = 0;
      list = record { start = refl; chain = (omega arith, refl, refl, tt); distinct = (refl, tt) };
      counted = refl;
      each = λ a h. (
        record {
          owner = refl;
          chunks = (refl, omega arith, refl);
          distinct = (refl, tt);
          counted = refl;
        },
        refl,
      );
    }

kmem_cache_alloc_nolock-Gives_example :
    Gives one_partial 11 one_partial_view partial 100 []
      (kmem_cache_alloc_nolock 65536 11 one_partial)
unfolding n_objects slab_size
kmem_cache_alloc_nolock-Gives_example =
    kmem_cache_alloc_nolock-Gives 65536 100 [] one_partial-IsCache (omega arith) refl

kmem_cache_free_nolock-IsCache_example :
    IsCache (kmem_cache_free_nolock 65536 11 86016 one_partial) 11 (
      sorted_in
        (n_objects (one_partial.cache 11))
        100
        (with_free (with_slabs one_partial_view partial []) 100 (86016 ∷ 77824 ∷ [])))
kmem_cache_free_nolock-IsCache_example =
    kmem_cache_free_nolock-IsCache 65536 86016 100 partial [] [] one_partial-IsCache refl refl
      (λ e. cc) (omega arith) (λ j b h. refl) (λ e. refl)

-- No slab yet.
abbrev no_slabs : Memory
no_slabs = record one_partial {
  cache = λ c. record { size = 8192; order = 3; head = λ k. 0; count = λ k. 0 };
}

abbrev no_slabs_view : View
no_slabs_view = record { slabs = λ k. []; free = λ a. [] }

no_slabs-IsCache : IsCache no_slabs 11 no_slabs_view
no_slabs-IsCache = record {
  lists = λ k. record {
    before = 0;
    list = record { start = refl; chain = tt; distinct = tt };
    counted = refl;
    each = λ a h. absurd (ground arith);
  };
  apart = λ j k a h g. absurd (ground arith);
  free_apart = λ j k a b x h g p q. absurd (ground arith);
}

-- The pool has given its chunk.
abbrev no_chunk : Mempool
no_chunk = record one_chunk { freelist = 0; n_free = λ p. if 0 == p then 0 else 1 }

no_slabs-CanGrow : CanGrow 65536 no_slabs 11 no_slabs_view 8 4096 [] no_chunk
unfolding mempool_zalloc mempool_alloc_nolock alloc_from pop_chunk list_pop_front base_pfn
    hhdm_to_page
no_slabs-CanGrow = record {
  base = omega arith;
  size = omega arith;
  next_page = refl;
  next_slab = refl;
  out = λ k. refl;
  fresh = λ k b x h g. refl;
}

kmem_cache_alloc_nolock-grows_example :
    (m₁ : Memory) × (n_objects (m₁.cache 11) ≡ 4)
    × ((g : Gives m₁ 11
          (with_slabs
            (with_free no_slabs_view 4096 (objects (65536 + 8 * 4096) 8192 4))
            empty
            (4096 ∷ []))
          empty
          4096
          []
          (kmem_cache_alloc_nolock 65536 11 no_slabs))
        × ((x : ℕ)
            → has x (objects (65536 + 8 * 4096) 8192 4) ≡ true
            → g.memory.slab_of (hhdm_to_page 65536 x) ≡ 4096))
unfolding n_objects slab_size page_to_virt
kmem_cache_alloc_nolock-grows_example =
    kmem_cache_alloc_nolock-grows 65536 8 4096 [] no_chunk no_slabs-IsCache no_slabs-CanGrow
      (omega arith) refl refl

kmalloc_idx-Fits_example : Fits (λ c. no_slabs.cache c) 100 (kmalloc_idx 100)
kmalloc_idx-Fits_example = kmalloc_idx-Fits (λ c. no_slabs.cache c) 100 (omega arith)

-- A pool with two chunks to a page, before its first allocation.
abbrev new_pool : Mempool
new_pool = record one_chunk { freelist = 0; count = 0; size = 4096; pages = 8 ∷ 10 ∷ [] }

mempool_alloc_nolock-drains_example :
    (m' : Mempool) × ((allocs 65536 2 new_pool ≡ some (102400 ∷ 98304 ∷ [], m'))
      × (mempool_alloc_nolock 65536 m' ≡ none)
      × (m'.pages ≡ 10 ∷ []))
unfolding page_to_virt
mempool_alloc_nolock-drains_example =
    mempool_alloc_nolock-drains 65536 8 (10 ∷ []) new_pool (omega arith) (omega arith) (omega arith)
      refl refl
