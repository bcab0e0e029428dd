-- ===== src/Mm/Slab/New.antt =====
-- kmem_cache_new_empty of kernel/src/mm/slab.c: a page becomes the free chunks of a new slab.
use goofyos.Base.{
  ℕ, zero, suc, ◌+◌, ◌*◌, ◌/◌, ◌^◌, ◌≡◌, ◌≢◌, ◌<◌, ◌≤◌, refl, sym, ◌∙◌, true, false, List, ◌==◌,
  arith, inl, inr, Bool-cases, ==→eq, ==_self,
}
use mathlib.Core.Bool.{false≢true}
use native.Mathlib.Nat.{div-add-mod}
use goofyos.Dsa.Links.{null, update, set_next, set_prev}
use goofyos.Dsa.Links.Chain.{has, SameOn}
use goofyos.Dsa.ListHead.{slist_push_front}
use goofyos.Mm.Pages.{
  page_to_virt, hhdm_to_page, objects, object_in, length-objects, has-objects, Distinct-objects,
  objects-page,
}
use goofyos.Mm.Slab.{
  Kind, Cache, Slab, Memory, n_objects, slab_size, kmem_insert_slab, add_chunks, new_slab,
  mark_slab,
}
use goofyos.Mm.Slab.View.{View, with_free, Chunks, IsCache}
use goofyos.Mm.Slab.Moves.{IsList-frame}
use goofyos.Mm.Slab.Chunks.{insert-IsCache, changed-IsCache, changed-Loose, Chunks-frame}
use goofyos.Mm.Slab.Alloc.{sorted_in}

module _ (base size : ℕ) (b : 0 < base) (p : 0 < size) where
  pushed_object :
      (i head : ℕ) (next : ℕ → ℕ)
      → Chunks next head (objects base size i)
      → let r = slist_push_front next head (base + size * i) in
        Chunks r.1 r.0 (objects base size (suc i))
  unfolding slist_push_front
  pushed_object i head next h =
      let x : ℕ = base + size * i in
      (
        refl,
        omega arith,
        rw (==_self x) (Chunks-frame next (update next x head) head (objects base size i) kept h),
      )
    where
      kept :
          (y : ℕ)
          → has y (objects base size i) ≡ true
          → update next (base + size * i) head y ≡ next y
      kept y g = elim (Bool-cases (base + size * i == y)) [
        | inl e ↦ absurd (
            false≢true
              (sym (has-objects base size i i p (omega arith)) ∙ rw (sym (==→eq _ y e)) at g))
        | inr e ↦ rw e refl
      ]

  -- The loop over a page makes a chain of its objects, the last in front, and writes only to them.
  add_chunks_lem :
      (t i n head : ℕ) (next : ℕ → ℕ)
      → i + n ≡ t
      → Chunks next head (objects base size i)
      → let r = add_chunks base size i n (head, next) in
        Chunks r.1 r.0 (objects base size t)
        × ((x : ℕ) → has x (objects base size t) ≡ false → r.1 x ≡ next x)
  unfolding add_chunks slist_push_front
  add_chunks_lem t i zero head next e h =
      let same : i ≡ t = omega arith in (rw (sym same) h, λ x o. refl)
  add_chunks_lem t i (suc n) head next e h =
      let r = slist_push_front next head (base + size * i) in
      let (c, same) =
        add_chunks_lem t (suc i) n r.0 r.1 (omega arith) (pushed_object i head next h) in
      (c, λ x o. same x o ∙ apart x o)
    where
      apart :
          (x : ℕ)
          → has x (objects base size t) ≡ false
          → update next (base + size * i) head x ≡ next x
      apart x o = elim (Bool-cases (base + size * i == x)) [
        | inl q ↦
            let it = object_in base size t i (omega arith) in
            absurd (false≢true (sym o ∙ rw (==→eq _ x q) at it))
        | inr q ↦ rw q refl
      ]

-- A new slab `a`, in no list, over the fresh pages from `page` on.
module _ {m : Memory} {c : ℕ} {v : View} (hhdm page a : ℕ) (o : IsCache m c v) (ne : a ≢ null)
    (out : (k : Kind) → has a (v.slabs k) ≡ false) where
  -- The objects of the pages.
  abbrev made : List ℕ
  made = objects (page_to_virt hhdm page) (m.cache c).size (n_objects (m.cache c))

  -- Its links are set to zero, and its pages point to it.
  abbrev cleared : Memory
  cleared = record m {
    links = set_prev (set_next m.links a null) a null;
    slab_of = mark_slab m.slab_of page (2 ^ (m.cache c).order) a;
  }

  cleared-IsCache : IsCache cleared c v
  cleared-IsCache = record {
    lists = λ k.
        let old = o.lists k in
        record {
          before = old.before;
          list = IsList-frame m.links cleared.links _ _ (v.slabs k) (kept k) old.list;
          counted = old.counted;
          each = old.each;
        };
    apart = o.apart;
    free_apart = o.free_apart;
  }
    where
      kept : (k : Kind) → SameOn (v.slabs k) m.links cleared.links
      kept k b h = elim (Bool-cases (a == b)) [
        | inl e ↦ absurd (false≢true (sym (out k) ∙ rw (sym (==→eq a b e)) at h))
        | inr e ↦ (rw e refl, rw e refl)
      ]

  pub new_slab-IsCache :
      0 < hhdm
      → 0 < (m.cache c).size
      → ((k : Kind) (b x : ℕ)
          → has b (v.slabs k) ≡ true
          → has x made ≡ true
          → has x (v.free b) ≡ false)
      → IsCache
          (kmem_insert_slab a (new_slab hhdm c page a m))
          c
          (sorted_in (n_objects (m.cache c)) a (with_free v a made))
  unfolding new_slab page_to_virt
  new_slab-IsCache h p fresh =
      let size : ℕ = (m.cache c).size in
      let n : ℕ = n_objects (m.cache c) in
      let (chain, same) =
        add_chunks_lem (page_to_virt hhdm page) size (omega arith) p n 0 n null m.next (omega arith)
          refl in
      let r = add_chunks (page_to_virt hhdm page) size 0 n (null, m.next) in
      let s : Slab = record { cache = c; freelist = r.0; free_objects = n } in
      let kept : (k : Kind) (b : ℕ)
          → has b (v.slabs k) ≡ true
          → (x : ℕ) → has x (v.free b) ≡ true
          → r.1 x ≡ m.next x =
        λ k b g x q. same x (not_made x made (v.free b) (fresh k b x g) q) in
      insert-IsCache (changed-IsCache a cleared-IsCache out r.1 s made kept) (
        changed-Loose a cleared-IsCache out r.1 s made kept ne
          (record {
            owner = refl;
            chunks = chain;
            distinct = Distinct-objects (page_to_virt hhdm page) size n p;
            counted = sym (length-objects (page_to_virt hhdm page) size n);
          })
          fresh)
    where
      not_made :
          (x : ℕ) (xs ys : List ℕ)
          → (has x xs ≡ true → has x ys ≡ false)
          → has x ys ≡ true
          → has x xs ≡ false
      not_made x xs ys f q = elim (Bool-cases (has x xs)) [
        | inl e ↦ absurd (false≢true (sym (f e) ∙ q))
        | inr e ↦ e
      ]

  -- Each object of the pages leads back to the slab.
  pub new_slab-pages :
      0 < (m.cache c).size
      → (x : ℕ) → has x made ≡ true
      → (new_slab hhdm c page a m).slab_of (hhdm_to_page hhdm x) ≡ a
  unfolding new_slab n_objects slab_size
  new_slab-pages p x h =
      let d : Cache = m.cache c in
      let (l, u) =
        objects-page hhdm page d.order d.size _ x (fits d.size (4096 * 2 ^ d.order) p) p h in
      marked (hhdm_to_page hhdm x) (2 ^ d.order) l u
    where
      fits : (size total : ℕ) → 0 < size → size * (total / size) ≤ total
      fits size total p = omega (arith, div-add-mod total size)

      marked : (q n : ℕ) → page ≤ q → q < page + n → mark_slab m.slab_of page n a q ≡ a
      marked q n l u = ground arith
