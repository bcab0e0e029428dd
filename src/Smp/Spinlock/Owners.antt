-- ===== src/Smp/Spinlock/Owners.antt =====
-- Who owns the spin locks of kernel/src/arch/x86-64/spinlock.c, in every reachable state.
use goofyos.Base.{
  ℕ, suc, ◌≡◌, ◌≢◌, ◌⊎◌, refl, sym, ◌∙◌, ap, Bool, true, false, List, [], ◌∷◌, ◌||◌, ◌==◌,
  if◌then◌else◌, length, arith, inl, inr, Bool-cases, ==→eq, ==_self,
}
use goofyos.Dsa.Links.Chain.{has, Distinct}
use goofyos.Smp.Spinlock.{set_lock, without}

-- A lock that is held is 1 and has one holder, who holds it once; a lock that is not 0 is held.
pub record Owners (locked : ℕ → ℕ) (held : ℕ → List ℕ) : Type 0 where
  pub locked_one : (i l : ℕ) → has l (held i) ≡ true → locked l ≡ 1
  pub unique : (i j l : ℕ) → has l (held i) ≡ true → has l (held j) ≡ true → i ≡ j
  pub owned : (l : ℕ) → locked l ≢ 0 → (i : ℕ) × (has l (held i) ≡ true)
  pub once : (i : ℕ) → Distinct (held i)

has-without : (l k : ℕ) (ks : List ℕ) → has k (without l ks) ≡ true → has k ks ≡ true
unfolding without
has-without l k [] h = h
has-without l k (x ∷ ks) h = elim (Bool-cases (l == x)) [
  | inl e ↦ ground (arith, rw e at h)
  | inr e ↦ ground (arith, has-without l k ks, rw e at h)
]

has_gone : (l : ℕ) (ks : List ℕ) → Distinct ks → has l (without l ks) ≡ false
unfolding without
has_gone l [] d = refl
has_gone l (x ∷ ks) d = elim (Bool-cases (l == x)) [
  | inl e ↦ let same = ==→eq l x e in rw (e, same) d.0
  | inr e ↦ rw e (rw e (has_gone l ks d.1))
]

has_left : (l k : ℕ) (ks : List ℕ) → l ≢ k → has k (without l ks) ≡ has k ks
unfolding without
has_left l k [] d = refl
has_left l k (x ∷ ks) d = elim (Bool-cases (l == x)) [
  | inl e ↦ let same = ==→eq l x e in rw (e, sym same) (ground arith)
  | inr e ↦ rw (e, has_left l k ks d) refl
]

Distinct-without : (l : ℕ) (ks : List ℕ) → Distinct ks → Distinct (without l ks)
unfolding without
Distinct-without l [] d = d
Distinct-without l (x ∷ ks) d = elim (Bool-cases (l == x)) [
  | inl e ↦ rw e d.1
  | inr e ↦
      rw e (not_back (has x (without l ks)) (has-without l x ks) d.0, Distinct-without l ks d.1)
]
  where
    not_back : (b : Bool) → (b ≡ true → has x ks ≡ true) → has x ks ≡ false → b ≡ false
    not_back true h e = cc (h refl)
    not_back false h e = refl

pub length-without :
    (l : ℕ) (ks : List ℕ) → has l ks ≡ true → suc (length (without l ks)) ≡ length ks
unfolding without
length-without l [] h = cc
length-without l (x ∷ ks) h = elim (Bool-cases (l == x)) [
  | inl e ↦ rw e refl
  | inr e ↦ rw e (ap suc (length-without l ks (rw e at h)))
]

-- Nobody holds a free lock.
unheld :
    {locked : ℕ → ℕ} {held : ℕ → List ℕ}
    → Owners locked held
    → (j l : ℕ) → locked l ≡ 0
    → has l (held j) ≡ false
unheld {held = held} o j l free = elim (Bool-cases (has l (held j))) [
  | inl h ↦ let one = o.locked_one j l h in cc
  | inr h ↦ h
]

module _ {locked locked' : ℕ → ℕ} {held held' : ℕ → List ℕ} (o : Owners locked held) where
  -- The same holders, and a write at most to a lock that is held.
  pub Owners-same :
      ((j : ℕ) → held' j ≡ held j)
      → ((l : ℕ) → (locked' l ≡ locked l) ⊎ ((locked l ≢ 0) × (locked' l ≡ 1)))
      → Owners locked' held'
  Owners-same same kept = record {
    locked_one =
        λ i l h. elim (kept l) [ inl e ↦ e ∙ o.locked_one i l (rw (same i) at h) | inr (n, e) ↦ e ];
    unique = λ i j l h k. o.unique i j l (rw (same i) at h) (rw (same j) at k);
    owned = λ l n. elim (kept l) [
      | inl e ↦ let (i, h) = o.owned l (rw e at n) in (i, rw (same i) h)
      | inr (m, e) ↦ let (i, h) = o.owned l m in (i, rw (same i) h)
    ];
    once = λ i. rw (same i) (o.once i);
  }

  -- Core `i` takes the free lock `l`.
  module _ (i l : ℕ) (free : locked l ≡ 0) (write : (k : ℕ) → locked' k ≡ set_lock l 1 locked k)
      (mine : held' i ≡ l ∷ held i) (others : (j : ℕ) → i ≢ j → held' j ≡ held j) where
    take_holds :
        (j k : ℕ)
        → has k (held' j) ≡ (if i == j then (k == l) || has k (held j) else has k (held j))
    take_holds j k = elim (Bool-cases (i == j)) [
      | inl e ↦ let here = ==→eq i j e in rw (sym here, ==_self i, mine) refl
      | inr e ↦ rw (e, others j (ground arith)) refl
    ]

    take-owned : (k : ℕ) → locked' k ≢ 0 → (j : ℕ) × (has k (held' j) ≡ true)
    take-owned k n = elim (Bool-cases (k == l)) [
      | inl e ↦ (i, take_holds i k ∙ rw (==_self i, e) refl)
      | inr e ↦
          let (j, h) = o.owned k (ground (arith, write k)) in (j, ground (arith, take_holds j k))
    ]

    take-once : (j : ℕ) → Distinct (held' j)
    take-once j = elim (Bool-cases (i == j)) [
      | inl e ↦ let here = ==→eq i j e in rw (sym here, mine) (unheld o i l free, o.once i)
      | inr e ↦ rw (others j (ground arith)) (o.once j)
    ]

    pub Owners-take : Owners locked' held'
    Owners-take = record {
      locked_one = λ j k h. ground (arith, take_holds j k, write k, o.locked_one j k);
      unique = λ a b k h g. ground (
        arith,
        take_holds a k,
        take_holds b k,
        o.unique a b k,
        unheld o a l free,
        unheld o b l free,
      );
      owned = take-owned;
      once = take-once;
    }

  -- Core `i` gives up the lock `l`.
  module _ (i l : ℕ) (had : has l (held i) ≡ true)
      (write : (k : ℕ) → locked' k ≡ set_lock l 0 locked k) (dropped : held' i ≡ without l (held i))
      (others : (j : ℕ) → i ≢ j → held' j ≡ held j) where
    not_theirs : (j k : ℕ) → i ≢ j → k ≡ l → has k (held j) ≡ false
    not_theirs j k d same = elim (Bool-cases (has k (held j))) [
      | inl h ↦ absurd (d (o.unique i j l had (rw same at h)))
      | inr h ↦ h
    ]

    drop_holds : (j k : ℕ) → has k (held' j) ≡ (if k == l then false else has k (held j))
    drop_holds j k = elim (Bool-cases (i == j)) [
      | inl e ↦
          let here = ==→eq i j e in
          rw (sym here, dropped)
            (elim (Bool-cases (k == l)) [
              | inl g ↦
                  let same = ==→eq k l g in rw (same, ==_self l) (has_gone l (held i) (o.once i))
              | inr g ↦ rw g (has_left l k (held i) (ground arith))
            ])
      | inr e ↦ others_hold (ground arith)
    ]
      where
        others_hold : i ≢ j → has k (held' j) ≡ (if k == l then false else has k (held j))
        others_hold d = rw (others j d) (elim (Bool-cases (k == l)) [
          | inl g ↦ rw g (not_theirs j k d (==→eq k l g))
          | inr g ↦ rw g refl
        ])

    drop-once : (j : ℕ) → Distinct (held' j)
    drop-once j = elim (Bool-cases (i == j)) [
      | inl e ↦
          let here = ==→eq i j e in rw (sym here, dropped) (Distinct-without l (held i) (o.once i))
      | inr e ↦ rw (others j (ground arith)) (o.once j)
    ]

    drop-owned : (k : ℕ) → locked' k ≢ 0 → (j : ℕ) × (has k (held' j) ≡ true)
    drop-owned k n =
        let (j, h) = o.owned k (ground (arith, write k)) in
        (j, ground (arith, drop_holds j k, write k))

    pub Owners-drop : Owners locked' held'
    Owners-drop = record {
      locked_one = λ j k h. ground (arith, drop_holds j k, write k, o.locked_one j k);
      unique = λ a b k h g. ground (arith, drop_holds a k, drop_holds b k, o.unique a b k);
      owned = drop-owned;
      once = drop-once;
    }
