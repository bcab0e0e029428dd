-- ===== src/Mm/Slab/Chunks.antt =====
-- A slab of kernel/src/mm/slab.c outside the lists gives a chunk or takes one back, and enters its list.
use goofyos.Base.{
  ℕ, suc, ◌≡◌, ◌≢◌, refl, sym, ◌∙◌, ap, true, false, some, List, [], ◌∷◌, ◌==◌, length, arith, inl,
  inr, Bool-cases, ==→eq, ==_self,
}
use mathlib.Core.Bool.{false≢true}
use goofyos.Dsa.Links.{null, update}
use goofyos.Dsa.Links.Chain.{has, has_self, has_cons}
use goofyos.Dsa.ListHead.{slist_pop_front, slist_push_front}
use goofyos.Mm.Slab.{
  Kind, Slab, Memory, n_objects, kind_of, set_slab, kmem_insert_slab, kmem_get_chunk_from_slab,
  give_chunk,
}
use goofyos.Mm.Mempool.{down}
use goofyos.Mm.Slab.View.{View, with_slabs, with_free, Chunks, HasChunks, IsCache, Loose}
use goofyos.Mm.Slab.Moves.{insert_in-IsCache}

-- The list that the slab `a` belongs in.
abbrev pub kind_in : Memory → ℕ → View → ℕ → Kind
kind_in m c v a = kind_of (n_objects (m.cache c)) (length (v.free a))

pub insert-IsCache :
    {m : Memory} {c : ℕ} {v : View} {a : ℕ}
    → IsCache m c v
    → Loose m c v a
    → let k = kind_in m c v a in IsCache (kmem_insert_slab a m) c (with_slabs v k (a ∷ v.slabs k))
unfolding kmem_insert_slab
insert-IsCache {m} {c} {v} {a} o l =
    rw (l.chunks.owner, l.chunks.counted)
      (rw l.chunks.owner at (insert_in-IsCache o l (kind_in m c v a) refl))

pub Chunks-frame :
    (next next' : ℕ → ℕ) (head : ℕ) (xs : List ℕ)
    → ((x : ℕ) → has x xs ≡ true → next' x ≡ next x)
    → Chunks next head xs
    → Chunks next' head xs
Chunks-frame next next' head [] same h = h
Chunks-frame next next' head (x ∷ xs) same (e, n, h) = (
  e,
  n,
  rw (same x (has_self x xs))
      (Chunks-frame next next' (next x) xs (λ y g. same y (has_cons y x xs g)) h),
)

HasChunks-frame :
    {next next' : ℕ → ℕ} {c : ℕ} {s : Slab} {xs : List ℕ}
    → ((x : ℕ) → has x xs ≡ true → next' x ≡ next x)
    → HasChunks next c s xs
    → HasChunks next' c s xs
HasChunks-frame {next} {next'} {c} {s} {xs} same h = record {
  owner = h.owner;
  chunks = Chunks-frame next next' s.freelist xs same h.chunks;
  distinct = h.distinct;
  counted = h.counted;
}

-- The memory and the view where a slab outside the lists has other free chunks.
module _ {m : Memory} {c : ℕ} {v : View} (a : ℕ) (o : IsCache m c v)
    (out : (k : Kind) → has a (v.slabs k) ≡ false) (next : ℕ → ℕ) (s : Slab) (xs : List ℕ)
    (kept : (k : Kind) (b : ℕ)
      → has b (v.slabs k) ≡ true
      → (x : ℕ) → has x (v.free b) ≡ true
      → next x ≡ m.next x) where
  abbrev changed : Memory
  changed = record m { slab = set_slab m.slab a s; next = next }

  other : (k : Kind) (b : ℕ) → has b (v.slabs k) ≡ true → (a == b) ≡ false
  other k b h = elim (Bool-cases (a == b)) [
    | inl e ↦ absurd (false≢true (sym (out k) ∙ rw (sym (==→eq a b e)) at h))
    | inr e ↦ e
  ]

  pub changed-IsCache : IsCache changed c (with_free v a xs)
  changed-IsCache = record {
    lists = λ k.
        let old = o.lists k in
        record {
          before = old.before;
          list = old.list;
          counted = old.counted;
          each = λ b h.
              rw (other k b h) (HasChunks-frame (kept k b h) (old.each b h).0, (old.each b h).1);
        };
    apart = o.apart;
    free_apart = λ j k b d x h g. rw (other j b h, other k d g) (o.free_apart j k b d x h g);
  }

  pub changed-Loose :
      a ≢ null
      → HasChunks next c s xs
      → ((k : Kind) (b x : ℕ)
          → has b (v.slabs k) ≡ true
          → has x xs ≡ true
          → has x (v.free b) ≡ false)
      → Loose changed c (with_free v a xs) a
  changed-Loose ne chunks apart = record {
    ne = ne;
    out = out;
    chunks = rw (==_self a) chunks;
    apart = λ k b x h. rw (==_self a, other k b h) (apart k b x h);
  }

-- The slab `a` outside the lists gives its first free chunk.
module _ {m : Memory} {c : ℕ} {v : View} {a x : ℕ} {xs : List ℕ} (o : IsCache m c v)
    (l : Loose m c v a) (is : v.free a ≡ x ∷ xs) where
  abbrev given : Memory
  given =
      let s : Slab = m.slab a in
      record m {
        slab =
            set_slab m.slab a
              (record s { freelist = m.next s.freelist; free_objects = down s.free_objects });
      }

  pub kmem_get_chunk_from_slab_lem :
      (kmem_get_chunk_from_slab a m ≡ some (x, given))
      × IsCache given c (with_free v a xs)
      × Loose given c (with_free v a xs) a
  unfolding kmem_get_chunk_from_slab slist_pop_front
  kmem_get_chunk_from_slab_lem =
      let w : HasChunks m.next c (m.slab a) (x ∷ xs) = rw is at l.chunks in
      let s : Slab = m.slab a in
      let s' : Slab = record s {
        freelist = m.next s.freelist;
        free_objects = down s.free_objects;
      } in
      (
        popped w,
        changed-IsCache a o l.out m.next s' xs (λ k b h y g. refl),
        changed-Loose a o l.out m.next s' xs (λ k b h y g. refl) l.ne
            (record {
              owner = w.owner;
              chunks = rw w.chunks.0 w.chunks.2;
              distinct = w.distinct.1;
              counted = rw w.counted (ground arith);
            })
            (λ k b y h g. l.apart k b y h (rw is (has_cons y x xs g))),
      )
    where
      not_null : (y : ℕ) → y ≡ x → x ≢ null → (y == 0) ≡ false
      not_null y e n = ground arith

      popped :
          HasChunks m.next c (m.slab a) (x ∷ xs) → kmem_get_chunk_from_slab a m ≡ some (x, given)
      popped w =
          rw (not_null (m.slab a).freelist w.chunks.0 w.chunks.1)
            (ap (λ y. some (y, given)) w.chunks.0)

-- The slab `a` outside the lists takes back a chunk that is not free.
module _ {m : Memory} {c : ℕ} {v : View} {a : ℕ} (o : IsCache m c v) (l : Loose m c v a) (chunk : ℕ)
    (ne : chunk ≢ null) (mine : has chunk (v.free a) ≡ false)
    (used : (k : Kind) (b : ℕ) → has b (v.slabs k) ≡ true → has chunk (v.free b) ≡ false) where
  pub give_chunk_lem :
      IsCache (give_chunk a chunk m) c (with_free v a (chunk ∷ v.free a))
      × Loose (give_chunk a chunk m) c (with_free v a (chunk ∷ v.free a)) a
  unfolding slist_push_front
  give_chunk_lem =
      let s : Slab = m.slab a in
      let s' : Slab = record s { freelist = chunk; free_objects = suc s.free_objects } in
      let next' : ℕ → ℕ = update m.next chunk s.freelist in
      let kept : (k : Kind) (b : ℕ)
          → has b (v.slabs k) ≡ true
          → (x : ℕ) → has x (v.free b) ≡ true
          → next' x ≡ m.next x =
        λ k b h x g. not_chunk x (v.free b) (used k b h) g in
      (
        changed-IsCache a o l.out next' s' (chunk ∷ v.free a) kept,
        changed-Loose a o l.out next' s' (chunk ∷ v.free a) kept l.ne
            (record {
              owner = l.chunks.owner;
              chunks = (
                refl,
                ne,
                rw (==_self chunk) (
                    Chunks-frame m.next next' s.freelist (v.free a)
                      (λ x g. not_chunk x (v.free a) mine g) l.chunks.chunks),
              );
              distinct = (mine, l.chunks.distinct);
              counted = ap suc l.chunks.counted;
            })
            (λ k b y h g. in_either y (v.free b) (used k b h) (l.apart k b y h) g),
      )
    where
      not_chunk :
          (x : ℕ) (ys : List ℕ)
          → has chunk ys ≡ false
          → has x ys ≡ true
          → update m.next chunk (m.slab a).freelist x ≡ m.next x
      not_chunk x ys h g = elim (Bool-cases (chunk == x)) [
        | inl e ↦ absurd (false≢true (sym h ∙ rw (sym (==→eq chunk x e)) at g))
        | inr e ↦ rw e refl
      ]

      in_either :
          (y : ℕ) (ys : List ℕ)
          → has chunk ys ≡ false
          → (has y (v.free a) ≡ true → has y ys ≡ false)
          → has y (chunk ∷ v.free a) ≡ true
          → has y ys ≡ false
      in_either y ys h f g = elim (Bool-cases (y == chunk)) [
        | inl e ↦ rw (==→eq y chunk e) h
        | inr e ↦ f (rw e at g)
      ]
