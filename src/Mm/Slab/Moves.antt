-- ===== src/Mm/Slab/Moves.antt =====
-- A slab of kernel/src/mm/slab.c that leaves its list and enters one.
use goofyos.Base.{
  ℕ, suc, ◌≡◌, ◌≢◌, refl, sym, ◌∙◌, ap, Bool, true, false, List, [], ◌∷◌, ◌==◌, ◌⊎◌, length, arith,
  inl, inr, Bool-cases, ==→eq, ==_self,
}
use mathlib.Core.Bool.{false≢true}
use goofyos.Dsa.Links.{Links, null}
use goofyos.Dsa.Links.Chain.{has, SameOn, Chain-frame, has-first, ne_null_of_has}
use goofyos.Dsa.ListHead.{list_push_front}
use goofyos.Dsa.ListHead.Laws.{IsList, list_push_front_lem}
use goofyos.Mm.Slab.{
  Kind, full, partial, empty, same_kind, Memory, n_objects, kind_of, slab_size, set_list, insert_in,
}
use goofyos.Mm.Slab.View.{View, with_slabs, HasChunks, Lists, IsCache, Loose}

pub Kind-cases :
    (k j : Kind) → ((same_kind k j ≡ true) × (k ≡ j)) ⊎ ((same_kind k j ≡ false) × (k ≢ j))
Kind-cases full full = inl (refl, refl)
Kind-cases partial partial = inl (refl, refl)
Kind-cases empty empty = inl (refl, refl)
Kind-cases full partial = inr (refl, λ e. cc)
Kind-cases full empty = inr (refl, λ e. cc)
Kind-cases partial full = inr (refl, λ e. cc)
Kind-cases partial empty = inr (refl, λ e. cc)
Kind-cases empty full = inr (refl, λ e. cc)
Kind-cases empty partial = inr (refl, λ e. cc)

-- A list whose nodes are not written stays.
pub IsList-frame :
    (l k : Links) (head before : ℕ) (xs : List ℕ)
    → SameOn xs l k
    → IsList l head before xs
    → IsList k head before xs
IsList-frame l k head before xs same is = record {
  start = is.start;
  chain = Chain-frame l k before null xs same is.chain;
  distinct = is.distinct;
}

module _ (m : Memory) (c : ℕ) (k : Kind) (head count : ℕ) (links : Links) where
  pub listed-objects : n_objects ((set_list m c k head count links).cache c) ≡ n_objects (m.cache c)
  unfolding n_objects slab_size
  listed-objects = rw (==_self c) refl

  listed-head : ((set_list m c k head count links).cache c).head k ≡ head
  listed-head = elim (Kind-cases k k) [
    | inl (e, d) ↦ rw (==_self c, e) refl
    | inr (e, d) ↦ absurd (d refl)
  ]

  listed-count : ((set_list m c k head count links).cache c).count k ≡ count
  listed-count = elim (Kind-cases k k) [
    | inl (e, d) ↦ rw (==_self c, e) refl
    | inr (e, d) ↦ absurd (d refl)
  ]

  -- The list that is written.
  Lists-here :
      (free : ℕ → List ℕ) (before : ℕ) (ss : List ℕ)
      → IsList links head before ss
      → count ≡ length ss
      → ((a : ℕ)
          → has a ss ≡ true
          → HasChunks m.next c (m.slab a) (free a)
            × (kind_of (n_objects (m.cache c)) (length (free a)) ≡ k))
      → Lists (set_list m c k head count links) c free k ss
  Lists-here free before ss is n each = record {
    before = before;
    list = rw listed-head is;
    counted = listed-count ∙ n;
    each = λ a h. ((each a h).0, rw listed-objects (each a h).1);
  }

  -- Another list, whose slabs are not written.
  Lists-other :
      (free : ℕ → List ℕ) (j : Kind) (ss : List ℕ)
      → k ≢ j
      → SameOn ss m.links links
      → Lists m c free j ss
      → Lists (set_list m c k head count links) c free j ss
  Lists-other free j ss d same o = elim (Kind-cases k j) [
    | inl (e, q) ↦ absurd (d q)
    | inr (e, q) ↦ record {
      before = o.before;
      list = rw (==_self c, e) (IsList-frame m.links links _ _ ss same o.list);
      counted = rw (==_self c, e) o.counted;
      each = λ a h. ((o.each a h).0, rw listed-objects (o.each a h).1);
    }
  ]

  -- All lists, where `k` becomes `ss`.
  pub Lists-written :
      (v : View) (before : ℕ) (ss : List ℕ)
      → IsList links head before ss
      → count ≡ length ss
      → ((a : ℕ)
          → has a ss ≡ true
          → HasChunks m.next c (m.slab a) (v.free a)
            × (kind_of (n_objects (m.cache c)) (length (v.free a)) ≡ k))
      → ((j : Kind) → k ≢ j → SameOn (v.slabs j) m.links links)
      → ((j : Kind) → Lists m c v.free j (v.slabs j))
      → (j : Kind)
      → Lists (set_list m c k head count links) c v.free j ((with_slabs v k ss).slabs j)
  Lists-written v before ss is n each same old j = elim (Kind-cases k j) [
    | inl (e, d) ↦ rw (e, sym d) (Lists-here v.free before ss is n each)
    | inr (e, d) ↦ rw e (Lists-other v.free j (v.slabs j) d (same j d) (old j))
  ]

-- The lists of a view with one list replaced.
pub with_slabs-here : (v : View) (k : Kind) (ss : List ℕ) → (with_slabs v k ss).slabs k ≡ ss
with_slabs-here v k ss = elim (Kind-cases k k) [
  | inl (e, d) ↦ rw e refl
  | inr (e, d) ↦ absurd (d refl)
]

-- What is in a list was in it before the list became `ss`.
pub in_fewer :
    (v : View) (k : Kind) (ss : List ℕ)
    → ((b : ℕ) → has b ss ≡ true → has b (v.slabs k) ≡ true)
    → (j : Kind) (b : ℕ) → has b ((with_slabs v k ss).slabs j) ≡ true
    → has b (v.slabs j) ≡ true
in_fewer v k ss sub j b = elim (Kind-cases k j) [
  | inl (e, d) ↦ rw (e, sym d) (sub b)
  | inr (e, d) ↦ rw e (λ h. h)
]

-- The slab `a` leaves the list `k`, which becomes `ss`.
module _ {m : Memory} {c : ℕ} {v : View} (o : IsCache m c v) (k : Kind) (head count : ℕ)
    (links : Links) (a before : ℕ) (ss : List ℕ) (is : IsList links head before ss)
    (n : count ≡ length ss) (mine : has a (v.slabs k) ≡ true) (gone : has a ss ≡ false)
    (sub : (b : ℕ) → has b ss ≡ true → has b (v.slabs k) ≡ true)
    (same : (j : Kind) → k ≢ j → SameOn (v.slabs j) m.links links) where
  left : (j : Kind) → has a ((with_slabs v k ss).slabs j) ≡ false
  left j = elim (Kind-cases k j) [
    | inl (e, d) ↦ rw e gone
    | inr (e, d) ↦ rw e (elsewhere d (has a (v.slabs j)) refl)
  ]
    where
      elsewhere : k ≢ j → (b : Bool) → has a (v.slabs j) ≡ b → b ≡ false
      elsewhere d false e = refl
      elsewhere d true e = absurd (d (o.apart k j a mine e))

  pub shrunk-IsCache : IsCache (set_list m c k head count links) c (with_slabs v k ss)
  shrunk-IsCache = record {
    lists =
        Lists-written m c k head count links v before ss is n (λ b h. (o.lists k).each b (sub b h))
          same o.lists;
    apart = λ i j b h g. o.apart i j b (in_fewer v k ss sub i b h) (in_fewer v k ss sub j b g);
    free_apart = λ i j a b x h g.
        o.free_apart i j a b x (in_fewer v k ss sub i a h) (in_fewer v k ss sub j b g);
  }

  pub shrunk-Loose : a ≢ null → Loose (set_list m c k head count links) c (with_slabs v k ss) a
  shrunk-Loose ne = record {
    ne = ne;
    out = left;
    chunks = ((o.lists k).each a mine).0;
    apart = λ j b x h g. theirs j b x h g (has x (v.free b)) refl;
  }
    where
      theirs :
          (j : Kind) (b x : ℕ)
          → has b ((with_slabs v k ss).slabs j) ≡ true
          → has x (v.free a) ≡ true
          → (t : Bool) → has x (v.free b) ≡ t
          → t ≡ false
      theirs j b x h g false e = refl
      theirs j b x h g true e =
          let q = o.free_apart k j a b x mine (in_fewer v k ss sub j b h) g e in
          let r = left j in cc

-- The slab `a` enters the front of the list `k`.
module _ {m : Memory} {c : ℕ} {v : View} {a : ℕ} (o : IsCache m c v) (l : Loose m c v a) where
  -- The slabs of the other lists are not written.
  push-SameOn :
      (k j : Kind)
      → k ≢ j
      → SameOn (v.slabs j) m.links (list_push_front m.links ((m.cache c).head k) a).1
  push-SameOn k j d b h = (list_push_front_lem a (o.lists k).list l.ne (l.out k)).1 b (
      two_apart b a ((m.cache c).head k) not_a (elim (has-first (v.slabs k)) [
        | inl e ↦ λ q.
            ne_null_of_has m.links _ null b (v.slabs j) (o.lists j).list.chain h
              (q ∙ (o.lists k).list.start ∙ e)
        | inr e ↦ λ q. d (o.apart k j b (rw (q ∙ (o.lists k).list.start) e) h)
      ]))
    where
      two_apart : (b a head : ℕ) → b ≢ a → b ≢ head → has b (a ∷ head ∷ []) ≡ false
      two_apart b a head p q = ground arith

      not_a : b ≢ a
      not_a q = let r = l.out j in cc

  abbrev Entered : Kind → Kind → ℕ → Type 0
  Entered k j b = ((b ≡ a) × (j ≡ k)) ⊎ (has b (v.slabs j) ≡ true)

  entered :
      (k j : Kind) (b : ℕ) → has b ((with_slabs v k (a ∷ v.slabs k)).slabs j) ≡ true → Entered k j b
  entered k j b = elim (Kind-cases k j) [
    | inl (e, d) ↦
        rw (e, sym d)
          (λ h. elim (Bool-cases (b == a)) [
            | inl p ↦ inl (==→eq b a p, refl)
            | inr p ↦ inr (rw p at h)
          ])
    | inr (e, d) ↦ rw e (λ h. inr h)
  ]

  one_list : (k i j : Kind) (b : ℕ) → Entered k i b → Entered k j b → i ≡ j
  one_list k i j b (inl (p, e)) (inl (q, f)) = e ∙ sym f
  one_list k i j b (inl (p, e)) (inr g) = let r = l.out j in absurd (false≢true (sym r ∙ rw p at g))
  one_list k i j b (inr h) (inl (q, f)) = let r = l.out i in absurd (false≢true (sym r ∙ rw q at h))
  one_list k i j b (inr h) (inr g) = o.apart i j b h g

  one_owner :
      (k i j : Kind) (b d x : ℕ)
      → Entered k i b
      → Entered k j d
      → has x (v.free b) ≡ true
      → has x (v.free d) ≡ true
      → b ≡ d
  one_owner k i j b d x (inl (p, e)) (inl (q, f)) s t = p ∙ sym q
  one_owner k i j b d x (inl (p, e)) (inr g) s t =
      absurd (false≢true (sym (l.apart j d x g (rw p at s)) ∙ t))
  one_owner k i j b d x (inr h) (inl (q, f)) s t =
      absurd (false≢true (sym (l.apart i b x h (rw q at t)) ∙ s))
  one_owner k i j b d x (inr h) (inr g) s t = o.free_apart i j b d x h g s t

  pub insert_in-IsCache :
      (k : Kind)
      → kind_of (n_objects (m.cache c)) (length (v.free a)) ≡ k
      → IsCache (insert_in k a m) c (with_slabs v k (a ∷ v.slabs k))
  insert_in-IsCache k kind =
      let r = list_push_front_lem a (o.lists k).list l.ne (l.out k) in
      rw l.chunks.owner (record {
        lists =
            Lists-written m c k _ _ _ v (m.links.prev a) (a ∷ v.slabs k) r.0
              (ap suc (o.lists k).counted) inside (push-SameOn k) o.lists;
        apart = λ i j b h g. one_list k i j b (entered k i b h) (entered k j b g);
        free_apart = λ i j b d x h g. one_owner k i j b d x (entered k i b h) (entered k j d g);
      })
    where
      inside :
          (b : ℕ)
          → has b (a ∷ v.slabs k) ≡ true
          → HasChunks m.next c (m.slab b) (v.free b)
            × (kind_of (n_objects (m.cache c)) (length (v.free b)) ≡ k)
      inside b h = elim (Bool-cases (b == a)) [
        | inl e ↦ let here = ==→eq b a e in rw here (l.chunks, kind)
        | inr e ↦ (o.lists k).each b (rw e at h)
      ]
