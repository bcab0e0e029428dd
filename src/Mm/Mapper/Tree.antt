-- ===== src/Mm/Mapper/Tree.antt =====
-- What the page tables of kernel/src/mm/mapper.c map, and that they form a tree.
use goofyos.Base.{
  ℕ, zero, suc, ◌≡◌, ◌≢◌, ◌≤◌, ◌<◌, ◌∙◌, refl, sym, ap, true, false, ◌&&◌, List, [], ◌∷◌, Option,
  none, some, arith, inl, inr, Bool-cases, ◌==◌, if◌then◌else◌, All,
}
use goofyos.Dsa.Links.Chain.{Distinct}
use goofyos.Mm.Mapper.{Tables, get_index, present, is_large, frame, set_entry, zero_page}
use goofyos.Mm.Mapper.Bits.{IsFrame}

-- Where a table stands: its level, and the indices on the way from the root, the last one first.
-- The level 4 is that of a page that is no table.
pub record Labels : Type 0 where
  pub level : ℕ → ℕ
  pub path : ℕ → List ℕ

-- Every entry of a table above level 0 that is present names a table one level below, in one place;
-- the fresh pages are no tables. No entry there is a large page.
pub record IsTree (root : ℕ) (l : Labels) (s : Tables) : Type 0 where
  pub root_level : l.level root ≡ 3
  pub root_path : l.path root ≡ []
  pub child :
      (t i k : ℕ)
      → l.level t ≡ suc k
      → k < 3
      → present (s.entry t i) ≡ true
      → (l.level (frame (s.entry t i)) ≡ k) × (l.path (frame (s.entry t i)) ≡ i ∷ l.path t)
  pub small : (t i k : ℕ) → l.level t ≡ suc k → is_large (s.entry t i) ≡ false
  pub spare : All (λ p. (l.level p ≡ 4) × IsFrame p) s.fresh
  pub distinct : Distinct s.fresh

abbrev pub leaf : ℕ → Option ℕ
leaf value = if present value then some value else none

-- The entry that maps an address, if there is one.
unfoldable pub lookup : ℕ → ℕ → ℕ → (ℕ → ℕ → ℕ) → Option ℕ
lookup zero virt t entry = leaf (entry t (get_index 0 virt))
lookup (suc k) virt t entry =
    let value : ℕ = entry t (get_index (suc k) virt) in
    let rest : Option ℕ = lookup k virt (frame value) entry in if present value then rest else none

pub lookup-absent :
    (k virt t : ℕ) (entry : ℕ → ℕ → ℕ)
    → present (entry t (get_index k virt)) ≡ false
    → lookup k virt t entry ≡ none
unfolding lookup
lookup-absent zero virt t entry e = rw e refl
lookup-absent (suc k) virt t entry e = rw e refl

pub lookup-through :
    (k virt t : ℕ) (entry : ℕ → ℕ → ℕ)
    → present (entry t (get_index (suc k) virt)) ≡ true
    → lookup (suc k) virt t entry ≡ lookup k virt (frame (entry t (get_index (suc k) virt))) entry
unfolding lookup
lookup-through k virt t entry e = rw e refl

-- The entries after a new table `p` has been entered at `i` in `t`.
abbrev pub added : (ℕ → ℕ → ℕ) → ℕ → ℕ → ℕ → ℕ → ℕ → ℕ → ℕ
added entry p t i value = set_entry (zero_page entry p) t i value

pub added_other :
    (entry : ℕ → ℕ → ℕ) (p t i value q j : ℕ)
    → p ≢ q
    → (t == q && (i == j)) ≡ false
    → added entry p t i value q j ≡ entry q j
added_other entry p t i value q j n e = rw e (ground (arith, n))

pub added_here : (entry : ℕ → ℕ → ℕ) (p t i value : ℕ) → added entry p t i value t i ≡ value
added_here entry p t i value = ground arith

pub added_new : (entry : ℕ → ℕ → ℕ) (p t i value j : ℕ) → t ≢ p → added entry p t i value p j ≡ 0
added_new entry p t i value j n = ground arith

pub same_place : (t q i j : ℕ) → (t == q && (i == j)) ≡ true → (t ≡ q) × (i ≡ j)
same_place t q i j e = (ground arith, ground arith)

pub other_place : (t q i j : ℕ) → t ≢ q → (t == q && (i == j)) ≡ false
other_place t q i j n = ground arith

-- Tables with different levels are different.
pub apart_levels : (l : Labels) (t q : ℕ) → l.level t ≢ l.level q → t ≢ q
apart_levels l t q n e = n (ap l.level e)

-- A table whose entry names an empty one maps nothing there.
lookup_blank :
    (k virt t p : ℕ) (entry : ℕ → ℕ → ℕ)
    → frame (entry t (get_index (suc k) virt)) ≡ p
    → ((x : ℕ) → entry p x ≡ 0)
    → lookup (suc k) virt t entry ≡ none
lookup_blank k virt t p entry names empty =
    elim (Bool-cases (present (entry t (get_index (suc k) virt)))) [
      | inr e ↦ lookup-absent (suc k) virt t entry e
      | inl e ↦
          lookup-through k virt t entry e
          ∙ rw names (lookup-absent k virt p entry (rw (empty (get_index k virt)) refl))
    ]

module _ {root : ℕ} {l : Labels} {s : Tables} (tree : IsTree root l s) (p t i value k : ℕ)
    (unlabelled : l.level p ≡ 4) (above : l.level t ≡ suc k) (bound : k < 3)
    (absent : present (s.entry t i) ≡ false) (names : frame value ≡ p) where
  apart : t ≢ p
  apart e = absurd (omega (arith, ap l.level e))

  -- A new table maps nothing yet, so what is mapped stays the same.
  pub lookup-added :
      (n virt q : ℕ)
      → l.level q ≡ n
      → n ≤ 3
      → lookup n virt q (added s.entry p t i value) ≡ lookup n virt q s.entry
  lookup-added zero virt q at h =
      let j : ℕ = get_index 0 virt in
      let np = apart_levels l p q (λ e. absurd (omega arith)) in
      let nt = apart_levels l t q (λ e. absurd (omega arith)) in
      unfold lookup in ap leaf (added_other s.entry p t i value q j np (other_place t q i j nt))
  lookup-added (suc n) virt q at h =
      let j : ℕ = get_index (suc n) virt in
      let np = apart_levels l p q (λ e. absurd (omega arith)) in
      elim (Bool-cases (t == q && (i == j))) [
        | inl e ↦
            let (same, index) = same_place t q i j e in
            let new : added s.entry p t i value q j ≡ value =
              rw (sym same, sym index) (added_here s.entry p t i value) in
            let old : present (s.entry q j) ≡ false = rw (sym same, sym index) absent in
            lookup_blank n virt q p (added s.entry p t i value) (rw new names)
              (λ x. added_new s.entry p t i value x apart)
            ∙ sym (lookup-absent (suc n) virt q s.entry old)
        | inr e ↦
            let same : added s.entry p t i value q j ≡ s.entry q j =
              added_other s.entry p t i value q j np e in
            elim (Bool-cases (present (s.entry q j))) [
              | inr no_table ↦
                  lookup-absent (suc n) virt q (added s.entry p t i value) (rw same no_table)
                  ∙ sym (lookup-absent (suc n) virt q s.entry no_table)
              | inl table ↦
                  let (below, _) = tree.child q j n at (omega arith) table in
                  lookup-through n virt q (added s.entry p t i value) (rw same table)
                  ∙ rw same (lookup-added n virt (frame (s.entry q j)) below (omega arith))
                  ∙ sym (lookup-through n virt q s.entry table)
            ]
      ]
