-- ===== src/Mm/Slab/Alloc.antt =====
-- kmem_cache_alloc_nolock of kernel/src/mm/slab.c: which chunk it gives, and where its slab goes.
use goofyos.Base.{
  ℕ, suc, ◌≡◌, ◌≢◌, ◌<◌, refl, sym, ◌∙◌, ap, Bool, true, false, Option, none, some, List, [], ◌∷◌,
  ◌==◌, if◌then◌else◌, length, arith, inl, inr, Bool-cases,
}
use goofyos.Dsa.Links.{null}
use goofyos.Dsa.Links.Chain.{has, has_self, has_cons, SameOn, first}
use goofyos.Dsa.ListHead.{list_pop_front, slist_pop_front}
use goofyos.Dsa.ListHead.Laws.{IsList, list_pop_front_lem}
use goofyos.Mm.Slab.{
  Kind, full, partial, empty, Memory, n_objects, kind_of, kmem_insert_slab,
  kmem_get_chunk_from_slab, chunk_taken, slab_popped, set_list, alloc_in, kmem_cache_alloc_nolock,
  put_back,
}
use goofyos.Mm.Mempool.{down}
use goofyos.Mm.Slab.View.{View, with_slabs, with_free, IsCache}
use goofyos.Mm.Slab.Moves.{shrunk-IsCache, shrunk-Loose, listed-objects}
use goofyos.Mm.Slab.Chunks.{insert-IsCache, kmem_get_chunk_from_slab_lem}

-- The slab `a` enters the list that a slab with its number of free chunks belongs in.
abbrev pub sorted_in : ℕ → ℕ → View → View
sorted_in objects a v =
    let k : Kind = kind_of objects (length (v.free a)) in with_slabs v k (a ∷ v.slabs k)

-- The list that an allocation looks in: the partial slabs, or without those the empty ones.
abbrev pub chosen_from : List ℕ → Kind
chosen_from [] = empty
chosen_from (a ∷ ss) = partial

abbrev pub chosen : View → Kind
chosen v = chosen_from (v.slabs partial)

-- Which slab each page leads to behind an allocation.
pages_after : Memory → Option (ℕ × Memory) → ℕ → ℕ
pages_after m none = m.slab_of
pages_after m (some (chunk, m')) = m'.slab_of

-- Giving a chunk of a slab changes no page's slab.
taken-pages :
    (a : ℕ) (m : Memory) (r : Option (ℕ × ℕ))
    → pages_after m (put_back a (chunk_taken a m r)) ≡ m.slab_of
unfolding pages_after kmem_insert_slab
taken-pages a m none = refl
taken-pages a m (some (x, rest)) = refl

popped-pages :
    (k : Kind) (c : ℕ) (m : Memory) (r : Option (ℕ × ℕ))
    → pages_after m (slab_popped c k m r) ≡ m.slab_of
unfolding pages_after kmem_get_chunk_from_slab
popped-pages k c m none = refl
popped-pages k c m (some (a, rest)) =
    let m₁ : Memory = set_list m c k rest (down ((m.cache c).count k)) m.links in
    taken-pages a m₁ (slist_pop_front m₁.next (m₁.slab a).freelist)

alloc_in-pages :
    {x : ℕ} {m' : Memory} (k : Kind) (c : ℕ) (m : Memory)
    → alloc_in k c m ≡ some (x, m')
    → m'.slab_of ≡ m.slab_of
unfolding alloc_in pages_after
alloc_in-pages k c m e =
    sym (ap (pages_after m) e) ∙ popped-pages k c m (list_pop_front m.links ((m.cache c).head k))

-- The list `k` of the cache `c` begins with the slab `a`, whose first free chunk is `x`.
module _ {m : Memory} {c : ℕ} {v : View} (o : IsCache m c v) (k : Kind) (a x : ℕ) (ss xs : List ℕ)
    (front : v.slabs k ≡ a ∷ ss) (chunk : v.free a ≡ x ∷ xs) where
  alloc_in_lem :
      (m' : Memory) × ((alloc_in k c m ≡ some (x, m'))
        × IsCache m' c (sorted_in (n_objects (m.cache c)) a (with_free (with_slabs v k ss) a xs)))
  unfolding alloc_in
  alloc_in_lem =
      let old = o.lists k in
      let is : IsList m.links ((m.cache c).head k) old.before (a ∷ ss) = rw front at old.list in
      let (e, rest) = list_pop_front_lem is in
      let n = first ss null in
      let d : ℕ = down ((m.cache c).count k) in
      let fewer : d ≡ length ss = one_less (length ss) (old.counted ∙ ap length front) in
      let mine : has a (v.slabs k) ≡ true = rw front (has_self a ss) in
      let sub : (b : ℕ) → has b ss ≡ true → has b (v.slabs k) ≡ true =
        λ b h. rw front (has_cons b a ss h) in
      let keep : (j : Kind) → k ≢ j → SameOn (v.slabs j) m.links m.links =
        λ j q b h. (refl, refl) in
      let sc = shrunk-IsCache o k n d m.links a a ss rest fewer mine is.distinct.0 sub keep in
      let sl =
        shrunk-Loose o k n d m.links a a ss rest fewer mine is.distinct.0 sub keep is.chain.0 in
      let (g, gc, gl) = kmem_get_chunk_from_slab_lem sc sl chunk in
      let i = insert-IsCache gc gl in
      (kmem_insert_slab a _, (rw e (ap (put_back a) g), rw (listed-objects m c k n d m.links) at i))
    where
      one_less : (n : ℕ) → (m.cache c).count k ≡ suc n → down ((m.cache c).count k) ≡ n
      one_less n e = rw e (ground arith)

-- A slab of the list `k` that is not the full one has a free chunk, where a slab has objects.
some_free :
    (objects : ℕ) (k : Kind) (xs : List ℕ)
    → 0 < objects
    → k ≢ full
    → kind_of objects (length xs) ≡ k
    → (x : ℕ) × ((ys : List ℕ) × (xs ≡ x ∷ ys))
unfolding kind_of
some_free objects k [] pos d e = absurd (d (sym e ∙ none_left))
  where
    none_left : (if objects == 0 then empty else if 0 == 0 then full else partial) ≡ full
    none_left = ground arith
some_free objects k (x ∷ ys) pos d e = (x, (ys, refl))

-- What an allocation from the slab `a`, first in the list `k` before `ss`, leaves: its first free chunk
-- is the result, `a` is in the list that its other chunks say, no slab has the result among its free
-- chunks, and no page leads to another slab than before.
pub record Gives (m : Memory) (c : ℕ) (v : View) (k : Kind) (a : ℕ) (ss : List ℕ)
    (result : Option (ℕ × Memory)) : Type 0 where
  pub chunk : ℕ
  pub rest : List ℕ
  pub memory : Memory
  pub first_free : v.free a ≡ chunk ∷ rest
  pub is : result ≡ some (chunk, memory)
  pub cache :
      IsCache memory c (sorted_in (n_objects (m.cache c)) a (with_free (with_slabs v k ss) a rest))
  pub used :
      (j : Kind) (b : ℕ)
      → has b (v.slabs j) ≡ true
      → has chunk ((with_free v a rest).free b) ≡ false
  pub pages : memory.slab_of ≡ m.slab_of

pub alloc_in-Gives :
    {m : Memory} {c : ℕ} {v : View} (k : Kind) (a : ℕ) (ss : List ℕ)
    → IsCache m c v
    → 0 < n_objects (m.cache c)
    → k ≢ full
    → v.slabs k ≡ a ∷ ss
    → Gives m c v k a ss (alloc_in k c m)
alloc_in-Gives {m} {c} {v} k a ss o pos d front =
    let mine : has a (v.slabs k) ≡ true = rw front (has_self a ss) in
    let (h, kind) = (o.lists k).each a mine in
    let (x, rest) = some_free (n_objects (m.cache c)) k (v.free a) pos d kind in
    let (xs, e) = rest in
    let (m', both) = alloc_in_lem o k a x ss xs front e in
    record {
      chunk = x;
      rest = xs;
      memory = m';
      first_free = e;
      is = both.0;
      cache = both.1;
      pages = alloc_in-pages k c m both.0;
      used = λ j b g. elim (Bool-cases (a == b)) [
        | inl q ↦ rw q (rw e at h.distinct).0
        | inr q ↦
            rw q (not_theirs mine x xs e j b g (λ s. absurd (ground arith)) (has x (v.free b)) refl)
      ];
    }
  where
    not_theirs :
        has a (v.slabs k) ≡ true
        → (x : ℕ) (xs : List ℕ) → v.free a ≡ x ∷ xs
        → (j : Kind) (b : ℕ) → has b (v.slabs j) ≡ true
        → a ≢ b
        → (t : Bool) → has x (v.free b) ≡ t
        → t ≡ false
    not_theirs mine x xs e j b g n false t = refl
    not_theirs mine x xs e j b g n true t =
        absurd (n (o.free_apart k j a b x mine g (rw e (has_self x xs)) t))

-- Where the cache `c` is well formed, its slabs have objects and a partial or else an empty slab is
-- there, kmem_cache_alloc_nolock gives the first free chunk of the first partial slab, or without a
-- partial one of the first empty slab. The slab goes to the list that its number of free chunks says,
-- the cache stays well formed, no slab has the chunk among its free ones, and no page leads to another
-- slab than before.
pub kmem_cache_alloc_nolock-Gives :
    {m : Memory} {c : ℕ} {v : View} (hhdm a : ℕ) (ss : List ℕ)
    → IsCache m c v
    → 0 < n_objects (m.cache c)
    → v.slabs (chosen v) ≡ a ∷ ss
    → Gives m c v (chosen v) a ss (kmem_cache_alloc_nolock hhdm c m)
unfolding kmem_cache_alloc_nolock
kmem_cache_alloc_nolock-Gives {m} {c} {v} hhdm a ss o pos front = from (v.slabs partial) refl front
  where
    is_none : (k : Kind) → v.slabs k ≡ [] → ((m.cache c).count k == 0) ≡ true
    is_none k e = let n = (o.lists k).counted ∙ ap length e in ground (arith, n)

    is_some :
        (k : Kind) (b : ℕ) (bs : List ℕ) → v.slabs k ≡ b ∷ bs → ((m.cache c).count k == 0) ≡ false
    is_some k b bs e = let n = (o.lists k).counted ∙ ap length e in ground (arith, n)

    from :
        (ps : List ℕ)
        → v.slabs partial ≡ ps
        → v.slabs (chosen_from ps) ≡ a ∷ ss
        → Gives m c v (chosen_from ps) a ss (kmem_cache_alloc_nolock hhdm c m)
    from [] e f =
        rw (is_none partial e, is_some empty a ss f) (alloc_in-Gives empty a ss o pos (λ q. cc) f)
    from (p ∷ ps) e f = rw (is_some partial p ps e) (alloc_in-Gives partial a ss o pos (λ q. cc) f)
