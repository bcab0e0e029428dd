-- ===== src/Mm/Slab/Free.antt =====
-- kmem_cache_free_nolock and kfree of kernel/src/mm/slab.c: the slab of the chunk leaves its list, takes
-- the chunk back and enters the list it then belongs in.
use goofyos.Base.{
  ℕ, suc, ◌≡◌, ◌≢◌, refl, sym, ◌∙◌, ap, true, false, List, [], ◌∷◌, ◌++◌, ◌==◌, if◌then◌else◌,
  length, arith, inl, inr, Bool-cases, ltb,
}
use goofyos.Dsa.Links.{Links, null}
use goofyos.Dsa.Links.Chain.{has, Distinct, SameOn, has-append, Distinct-split, ne_null_of_has}
use goofyos.Dsa.ListHead.{list_remove_node}
use goofyos.Dsa.ListHead.Laws.{IsList}
use goofyos.Dsa.ListHead.Remove.{Removed, remove_later, remove_first}
use goofyos.Mm.Pages.{hhdm_to_page}
use goofyos.Mm.Slab.{
  Kind, full, partial, empty, Memory, n_objects, kind_of, take_out, kmem_cache_free_nolock,
}
use goofyos.Mm.Mempool.{down}
use goofyos.Mm.Slab.View.{View, with_slabs, with_free, IsCache, Loose}
use goofyos.Mm.Slab.Moves.{shrunk-IsCache, shrunk-Loose, in_fewer, listed-objects}
use goofyos.Mm.Slab.Chunks.{insert-IsCache, give_chunk_lem}
use goofyos.Mm.Slab.Alloc.{sorted_in}

-- The removal of a node that is not the first, or has no back pointer.
removed :
    (l : Links) (head before a : ℕ) (xs ys : List ℕ)
    → IsList l head before (xs ++ a ∷ ys)
    → (xs ≡ [] → l.prev a ≡ null)
    → Removed l a before xs ys (list_remove_node l head a)
removed l head before a [] ys is back =
    let no : before ≡ null = sym is.chain.1 ∙ back refl in rw no (remove_first ys (rw no at is))
removed l head before a (x ∷ xs) ys is back = remove_later xs ys is

without_node :
    (a : ℕ) (xs ys : List ℕ)
    → Distinct (xs ++ a ∷ ys)
    → (has a (xs ++ ys) ≡ false)
      × ((b : ℕ) → has b (xs ++ ys) ≡ true → has b (xs ++ a ∷ ys) ≡ true)
      × (has a (xs ++ a ∷ ys) ≡ true)
without_node a xs ys d =
    let (dx, dy, apart) = Distinct-split xs (a ∷ ys) d in
    (
      ground (arith, has-append a xs ys, dy.0, apart a),
      λ b h. ground (arith, has-append b xs ys, has-append b xs (a ∷ ys), h),
      ground (arith, has-append a xs (a ∷ ys)),
    )

length_without : (a : ℕ) (xs ys : List ℕ) → length (xs ++ a ∷ ys) ≡ suc (length (xs ++ ys))
length_without a [] ys = refl
length_without a (x ∷ xs) ys = ap suc (length_without a xs ys)

-- The slab `a` leaves the list `k`.
module _ {m : Memory} {c : ℕ} {v : View} (o : IsCache m c v) (k : Kind) (a : ℕ) (xs ys : List ℕ)
    (split : v.slabs k ≡ xs ++ a ∷ ys) (back : xs ≡ [] → m.links.prev a ≡ null) where
  take_out_lem :
      IsCache (take_out k c a m) c (with_slabs v k (xs ++ ys))
      × Loose (take_out k c a m) c (with_slabs v k (xs ++ ys)) a
  take_out_lem =
      let old = o.lists k in
      let is : IsList m.links ((m.cache c).head k) old.before (xs ++ a ∷ ys) =
        rw split at old.list in
      let r = removed m.links ((m.cache c).head k) old.before a xs ys is back in
      let r₀ : ℕ × Links = list_remove_node m.links ((m.cache c).head k) a in
      let (gone, sub, mine) = without_node a xs ys is.distinct in
      let d : ℕ = down ((m.cache c).count k) in
      let fewer : d ≡ length (xs ++ ys) =
        one_less (length (xs ++ ys)) (old.counted ∙ ap length split ∙ length_without a xs ys) in
      let within : (b : ℕ) → has b (xs ++ ys) ≡ true → has b (v.slabs k) ≡ true =
        λ b h. rw split (sub b h) in
      let here : has a (v.slabs k) ≡ true = rw split mine in
      let keep : (j : Kind) → k ≢ j → SameOn (v.slabs j) m.links r₀.1 = λ j q b h.
        r.same b (outside j b q h)
          (ne_null_of_has m.links _ null b (v.slabs j) (o.lists j).list.chain h) in
      (
        shrunk-IsCache o k r₀.0 d r₀.1 a old.before (xs ++ ys) r.list fewer here gone within keep,
        shrunk-Loose o k r₀.0 d r₀.1 a old.before (xs ++ ys) r.list fewer here gone within keep
            (ne_null_of_has m.links _ null a (v.slabs k) old.list.chain here),
      )
    where
      one_less : (n : ℕ) → (m.cache c).count k ≡ suc n → down ((m.cache c).count k) ≡ n
      one_less n e = rw e (ground arith)

      outside : (j : Kind) (b : ℕ) → k ≢ j → has b (v.slabs j) ≡ true → has b (xs ++ a ∷ ys) ≡ false
      outside j b q h = elim (Bool-cases (has b (xs ++ a ∷ ys))) [
        | inl e ↦ absurd (q (o.apart k j b (rw split e) h))
        | inr e ↦ e
      ]

-- What a number of free chunks says of a list that is not the empty one.
kind-full : (objects n : ℕ) (k : Kind) → n ≡ 0 → k ≢ empty → kind_of objects n ≡ k → full ≡ k
unfolding kind_of
kind-full objects n k z d e = elim (Bool-cases (objects == n)) [
  | inl q ↦ absurd (d (sym (rw q at e)))
  | inr q ↦ rw (q, z) at e
]

kind-partial : (objects n : ℕ) (k : Kind) → n ≢ 0 → k ≢ empty → kind_of objects n ≡ k → partial ≡ k
unfolding kind_of
kind-partial objects n k z d e = elim (Bool-cases (objects == n)) [
  | inl q ↦ absurd (d (sym (rw q at e)))
  | inr q ↦ let p : (n == 0) ≡ false = ground arith in rw (q, p) at e
]

-- The test of `free_objects` finds the list of the slab.
take_out_found :
    {m : Memory} {c : ℕ} {v : View} (k : Kind) (a : ℕ)
    → k ≢ empty
    → IsCache m c v
    → has a (v.slabs k) ≡ true
    → let n : ℕ = (m.slab a).free_objects in
      let m₁ : Memory = if n == 0 then take_out full c a m else m in
      (if ltb 0 n then take_out partial c a m₁ else m₁) ≡ take_out k c a m
take_out_found {m} {c} {v} k a d o h =
    let (w, kind) = (o.lists k).each a h in
    let n : ℕ = (m.slab a).free_objects in
    elim (Bool-cases (n == 0)) [
      | inl e ↦
          let no : ltb 0 n ≡ false = ground arith in
          let z : n ≡ 0 = ground arith in
          rw (no, e)
            (ap (λ j. take_out j c a m)
              (kind-full _ (length (v.free a)) k (sym w.counted ∙ z) d kind))
      | inr e ↦
          let yes : ltb 0 n ≡ true = ground arith in
          let z : n ≢ 0 = ground arith in
          rw (yes, e)
            (ap (λ j. take_out j c a m)
              (kind-partial _ (length (v.free a)) k (λ q. z (w.counted ∙ q)) d kind))
    ]

-- Where the cache `c` is well formed, the page of a chunk belongs to a slab of its full or its partial
-- list, no slab has the chunk among its free ones, and the slab is not the first of its list or has no
-- back pointer, kmem_cache_free_nolock puts the chunk in front of the free chunks of the slab, and the
-- slab into the list that their number says. The cache stays well formed.
pub kmem_cache_free_nolock-IsCache :
    {m : Memory} {c : ℕ} {v : View} (hhdm chunk a : ℕ) (k : Kind) (xs ys : List ℕ)
    → IsCache m c v
    → m.slab_of (hhdm_to_page hhdm chunk) ≡ a
    → v.slabs k ≡ xs ++ a ∷ ys
    → k ≢ empty
    → chunk ≢ null
    → ((j : Kind) (b : ℕ) → has b (v.slabs j) ≡ true → has chunk (v.free b) ≡ false)
    → (xs ≡ [] → m.links.prev a ≡ null)
    → IsCache (kmem_cache_free_nolock hhdm c chunk m) c (
        sorted_in
          (n_objects (m.cache c))
          a
          (with_free (with_slabs v k (xs ++ ys)) a (chunk ∷ v.free a)))
unfolding kmem_cache_free_nolock
kmem_cache_free_nolock-IsCache {m} {c} {v} hhdm chunk a k xs ys o page split d ne used back =
    let here : has a (v.slabs k) ≡ true =
      rw split (without_node a xs ys (rw split at (o.lists k).list.distinct)).2 in
    let within : (b : ℕ) → has b (xs ++ ys) ≡ true → has b (v.slabs k) ≡ true =
      λ b h. rw split ((without_node a xs ys (rw split at (o.lists k).list.distinct)).1 b h) in
    let found = take_out_found k a d o here in
    let (t, l) = take_out_lem o k a xs ys split back in
    let (g, gl) =
      give_chunk_lem t l chunk ne (used k a here)
        (λ j b h. used j b (in_fewer v k (xs ++ ys) within j b h)) in
    let i = insert-IsCache g gl in
    rw (page, found)
      (rw (listed-objects m c k _ _ (list_remove_node m.links ((m.cache c).head k) a).1) at i)
