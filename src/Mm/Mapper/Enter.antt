-- ===== src/Mm/Mapper/Enter.antt =====
-- One round of the loop of map_page of kernel/src/mm/mapper.c keeps the tables a tree and what they
-- map.
use Prim.Native.Nat.{bit_or}
use mathlib.Core.Path.{subst}
use goofyos.Base.{
  ℕ, suc, ◌≡◌, ◌≢◌, ◌≤◌, ◌<◌, ◌∙◌, refl, sym, ap, true, false, ◌&&◌, List, [], ◌∷◌, arith, inl, inr,
  Bool-cases, ◌==◌, if◌then◌else◌, All, ==→eq, ==_self, length,
}
use goofyos.Dsa.Links.Chain.{has, Distinct}
use goofyos.Mm.Mapper.{
  Tables, Mapped, ok, halted, no_page, spinning, present, is_large, frame, add_table, enter,
}
use goofyos.Mm.Mapper.Bits.{IsFrame, table_entry-present, table_entry-is_large, table_entry-frame}
use goofyos.Mm.Mapper.Tree.{
  Labels, IsTree, lookup, added, added_other, added_here, added_new, same_place, lookup-added,
}

-- The tables have only grown: what is a table stays one in its place, its entries stay, and what the
-- tables map is the same.
pub record Extends (l : Labels) (s : Tables) (l' : Labels) (s' : Tables) : Type 0 where
  pub keeps : (q j : ℕ) → l.level q ≢ 4 → present (s.entry q j) ≡ true → s'.entry q j ≡ s.entry q j
  pub labels : (q : ℕ) → l.level q ≢ 4 → (l'.level q ≡ l.level q) × (l'.path q ≡ l.path q)
  pub maps :
      (n virt q : ℕ) → l.level q ≡ n → n ≤ 3 → lookup n virt q s'.entry ≡ lookup n virt q s.entry
  pub locked : s'.locked ≡ s.locked

pub Extends-refl : (l : Labels) (s : Tables) → Extends l s l s
Extends-refl l s = record {
  keeps = λ q j h e. refl;
  labels = λ q h. (refl, refl);
  maps = λ n virt q at h. refl;
  locked = refl;
}

pub Extends-trans :
    {l : Labels} {s : Tables} {l' : Labels} {s' : Tables} {l'' : Labels} {s'' : Tables}
    → Extends l s l' s'
    → Extends l' s' l'' s''
    → Extends l s l'' s''
Extends-trans {l} {s} {l'} {s'} a b = record {
  keeps = λ q j h e.
      b.keeps q j (λ x. h (sym (a.labels q h).0 ∙ x)) (rw (a.keeps q j h e) e) ∙ a.keeps q j h e;
  labels = λ q h.
      let (lev, pa) = a.labels q h in
      let (lev', pa') = b.labels q (λ x. h (sym lev ∙ x)) in (lev' ∙ lev, pa' ∙ pa);
  maps = λ n virt q at h.
      b.maps n virt q ((a.labels q (λ x. absurd (omega arith))).0 ∙ at) h ∙ a.maps n virt q at h;
  locked = b.locked ∙ a.locked;
}

-- The page `p` becomes the table at `i` below `t`.
abbrev relabel : Labels → ℕ → ℕ → ℕ → ℕ → Labels
relabel l p t i k = record {
  level = λ q. if p == q then k else l.level q;
  path = λ q. if p == q then i ∷ l.path t else l.path q;
}

relabel_other :
    (l : Labels) (p t i k q : ℕ)
    → p ≢ q
    → ((relabel l p t i k).level q ≡ l.level q) × ((relabel l p t i k).path q ≡ l.path q)
relabel_other l p t i k q n = (ground (arith, n), ground (arith, n))

relabel_self :
    (l : Labels) (p t i k : ℕ)
    → ((relabel l p t i k).level p ≡ k) × ((relabel l p t i k).path p ≡ i ∷ l.path t)
relabel_self l p t i k = (rw (==_self p) refl, rw (==_self p) refl)

relabel_spare :
    (l : Labels) (p t i k : ℕ) (rest : List ℕ)
    → has p rest ≡ false
    → All (λ q. (l.level q ≡ 4) × IsFrame q) rest
    → All (λ q. ((relabel l p t i k).level q ≡ 4) × IsFrame q) rest
relabel_spare l p t i k [] h a = tt
relabel_spare l p t i k (q ∷ rest) h a =
    ((ground (arith, h, a.0), a.0.1), relabel_spare l p t i k rest (ground (arith, h)) a.1)

tests_differ : (a b : ℕ) → (a == b) ≡ false → a ≢ b
tests_differ a b x = ground arith

-- What a round gives: the table below, with the way to it.
pub record Entered (root : ℕ) (l : Labels) (s : Tables) (t i k t' : ℕ) (s' : Tables) (l' : Labels)
    : Type 0 where
  pub tree : IsTree root l' s'
  pub level : l'.level t' ≡ k
  pub path : l'.path t' ≡ i ∷ l.path t
  pub linked : present (s'.entry t i) ≡ true
  pub names : frame (s'.entry t i) ≡ t'
  pub extends : Extends l s l' s'
  pub spent : length s.fresh ≤ suc (length s'.fresh)

module _ {root : ℕ} {l : Labels} {s : Tables} (tree : IsTree root l s) (t i k : ℕ)
    (above : l.level t ≡ suc k) (bound : k < 3) where
  -- A table that is there is entered as it is.
  Entered-old : present (s.entry t i) ≡ true → Entered root l s t i k (frame (s.entry t i)) s l
  Entered-old e =
      let (level, path) = tree.child t i k above bound e in
      record {
        tree = tree;
        level = level;
        path = path;
        linked = e;
        names = refl;
        extends = Extends-refl l s;
        spent = omega arith;
      }

  module _ (p : ℕ) (rest : List ℕ) (spare : All (λ q. (l.level q ≡ 4) × IsFrame q) (p ∷ rest))
      (distinct : Distinct (p ∷ rest)) (absent : present (s.entry t i) ≡ false) where
    abbrev value : ℕ
    value = bit_or (bit_or p 1) 2

    abbrev labels' : Labels
    labels' = relabel l p t i k

    abbrev entry' : ℕ → ℕ → ℕ
    entry' = added s.entry p t i value

    new_from : (q : ℕ) → l.level q ≢ 4 → p ≢ q
    new_from q h e = h (sym (ap l.level e) ∙ spare.0.0)

    t_known : l.level t ≢ 4
    t_known e = absurd (omega arith)

    keeps' : (q j : ℕ) → l.level q ≢ 4 → present (s.entry q j) ≡ true → entry' q j ≡ s.entry q j
    keeps' q j h e = elim (Bool-cases (t == q && (i == j))) [
      | inl same ↦
          let (st, si) = same_place t q i j same in
          absurd (distinct_tests (sym absent ∙ rw (st, si) e))
      | inr other ↦ added_other s.entry p t i value q j (new_from q h) other
    ]
      where
        distinct_tests : false ≡ true → ⊥
        distinct_tests x = cc

    child' :
        (q j n : ℕ)
        → labels'.level q ≡ suc n
        → n < 3
        → present (entry' q j) ≡ true
        → (labels'.level (frame (entry' q j)) ≡ n)
          × (labels'.path (frame (entry' q j)) ≡ j ∷ labels'.path q)
    child' q j n at h e = elim (Bool-cases (p == q)) [
      | inl new ↦
          let blank : entry' q j ≡ 0 =
            rw (sym (==→eq p q new))
              (added_new s.entry p t i value j (λ x. new_from t t_known (sym x))) in
          absurd (blank_absent (rw blank at e))
      | inr known ↦
          let np = tests_differ p q known in
          let (lev, pa) = relabel_other l p t i k q np in
          elim (Bool-cases (t == q && (i == j))) [
            | inl same ↦
                let (st, si) = same_place t q i j same in
                let here : frame (entry' q j) ≡ p =
                  rw (sym st, sym si, added_here s.entry p t i value)
                    (table_entry-frame p spare.0.1) in
                let (lp, pp) = relabel_self l p t i k in
                let kn : k ≡ n = omega (arith, above, lev, ap l.level st) in
                (
                  ap labels'.level here ∙ (lp ∙ kn),
                  ap labels'.path here
                      ∙ (pp ∙ ap (λ x. x ∷ l.path t) si ∙ ap (λ x. j ∷ x) (ap l.path st ∙ sym pa)),
                )
            | inr other ↦
                let kept : entry' q j ≡ s.entry q j =
                  added_other s.entry p t i value q j np other in
                let (lc, pc) = tree.child q j n (sym lev ∙ at) h (rw kept at e) in
                let (lf, pf) =
                  relabel_other l p t i k (frame (s.entry q j))
                    (new_from (frame (s.entry q j)) (λ x. absurd (omega arith))) in
                (
                  ap labels'.level (ap frame' kept) ∙ (lf ∙ lc),
                  ap labels'.path (ap frame' kept) ∙ (pf ∙ pc ∙ ap (λ x. j ∷ x) (sym pa)),
                )
          ]
    ]
      where
        frame' : ℕ → ℕ
        frame' v = frame v

        blank_absent : present 0 ≡ true → ⊥
        blank_absent x = cc

    small' : (q j n : ℕ) → labels'.level q ≡ suc n → is_large (entry' q j) ≡ false
    small' q j n at = elim (Bool-cases (p == q)) [
      | inl new ↦
          rw
            (sym (==→eq p q new), added_new s.entry p t i value j (λ x. new_from t t_known (sym x)))
            refl
      | inr known ↦
          let np = tests_differ p q known in
          let (lev, pa) = relabel_other l p t i k q np in
          elim (Bool-cases (t == q && (i == j))) [
            | inl same ↦
                let (st, si) = same_place t q i j same in
                rw (sym st, sym si, added_here s.entry p t i value)
                  (table_entry-is_large p spare.0.1)
            | inr other ↦
                rw (added_other s.entry p t i value q j np other) (tree.small q j n (sym lev ∙ at))
          ]
    ]

  Entered-new :
      (p : ℕ) (rest : List ℕ)
      → All (λ q. (l.level q ≡ 4) × IsFrame q) (p ∷ rest)
      → Distinct (p ∷ rest)
      → present (s.entry t i) ≡ false
      → length s.fresh ≡ suc (length rest)
      → Entered root l s t i k p
          (record s { entry = added s.entry p t i (bit_or (bit_or p 1) 2); fresh = rest })
          (relabel l p t i k)
  Entered-new p rest spare distinct absent supply = record {
    tree = record {
      root_level =
          (relabel_other l p t i k root (
            new_from p rest spare distinct absent root
              (λ x. absurd (omega (arith, tree.root_level))))).0
          ∙ tree.root_level;
      root_path =
          (relabel_other l p t i k root (
            new_from p rest spare distinct absent root
              (λ x. absurd (omega (arith, tree.root_level))))).1
          ∙ tree.root_path;
      child = child' p rest spare distinct absent;
      small = small' p rest spare distinct absent;
      spare = relabel_spare l p t i k rest distinct.0 spare.1;
      distinct = distinct.1;
    };
    level = (relabel_self l p t i k).0;
    path = (relabel_self l p t i k).1;
    linked =
        rw (added_here s.entry p t i (bit_or (bit_or p 1) 2)) (table_entry-present p spare.0.1);
    names = rw (added_here s.entry p t i (bit_or (bit_or p 1) 2)) (table_entry-frame p spare.0.1);
    extends = record {
      keeps = keeps' p rest spare distinct absent;
      labels = λ q h. relabel_other l p t i k q (new_from p rest spare distinct absent q h);
      maps = λ n virt q at h.
          lookup-added tree p t i (bit_or (bit_or p 1) 2) k spare.0.0 above bound absent
            (table_entry-frame p spare.0.1) n virt q at h;
      locked = refl;
    };
    spent = omega (arith, supply);
  }

-- A round either enters a table or finds no page left.
abbrev pub Enters : ℕ → Labels → Tables → ℕ → ℕ → ℕ → Mapped (ℕ × Tables) → Type 0
Enters root l s t i k (ok (t', s')) = (l' : Labels) × Entered root l s t i k t' s' l'
Enters root l s t i k no_page = length s.fresh ≡ 0
Enters root l s t i k halted = ⊥
Enters root l s t i k spinning = ⊥

add_table-Enters :
    (root : ℕ) (l : Labels) (s : Tables) (t i k : ℕ) (fresh : List ℕ)
    → IsTree root l s
    → l.level t ≡ suc k
    → k < 3
    → present (s.entry t i) ≡ false
    → s.fresh ≡ fresh
    → Enters root l s t i k (add_table t i fresh s)
unfolding add_table
add_table-Enters root l s t i k [] tree above bound absent e = ap length e
add_table-Enters root l s t i k (p ∷ rest) tree above bound absent e = (
  relabel l p t i k,
  Entered-new tree t i k above bound p rest
      (subst (All (λ q. (l.level q ≡ 4) × IsFrame q)) e tree.spare) (subst Distinct e tree.distinct)
      absent (ap length e),
)

pub enter-Enters :
    (root : ℕ) (l : Labels) (s : Tables) (t i k : ℕ)
    → IsTree root l s
    → l.level t ≡ suc k
    → k < 3
    → Enters root l s t i k (enter t i s)
unfolding enter
enter-Enters root l s t i k tree above bound = elim (Bool-cases (present (s.entry t i))) [
  | inl e ↦ rw (e, Enters) (l, Entered-old tree t i k above bound e)
  | inr e ↦ rw (e, Enters) (add_table-Enters root l s t i k s.fresh tree above bound e refl)
]
