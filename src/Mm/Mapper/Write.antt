-- ===== src/Mm/Mapper/Write.antt =====
-- A write to an entry of a table at level 0, as at the end of map_page and unmap_page of
-- kernel/src/mm/mapper.c.
use goofyos.Base.{
  ℕ, zero, suc, ◌≡◌, ◌≢◌, ◌≤◌, ◌∙◌, refl, sym, ap, Bool, true, false, ◌&&◌, List, ◌∷◌, Option, none,
  some, arith, inl, inr, Bool-cases, ◌==◌,
}
use goofyos.Mm.Mapper.{Tables, present, is_large, frame, get_index, set_entry, find_table}
use goofyos.Mm.Mapper.Tree.{
  Labels, IsTree, lookup, leaf, lookup-absent, lookup-through, same_place, apart_levels,
}

-- The indices of the levels from `k` down to 1, pushed on a path.
abbrev pub steps : ℕ → ℕ → List ℕ → List ℕ
steps zero virt path = path
steps (suc k) virt path = steps k virt (get_index (suc k) virt ∷ path)

set_other :
    (entry : ℕ → ℕ → ℕ) (t i value q j : ℕ)
    → (t == q && (i == j)) ≡ false
    → set_entry entry t i value q j ≡ entry q j
set_other entry t i value q j e = rw e refl

set_apart :
    (entry : ℕ → ℕ → ℕ) (t i value q j : ℕ) → t ≢ q → set_entry entry t i value q j ≡ entry q j
set_apart entry t i value q j n = ground (arith, n)

pub find-through :
    (k virt t t' : ℕ) (entry : ℕ → ℕ → ℕ)
    → present (entry t (get_index (suc k) virt)) ≡ true
    → frame (entry t (get_index (suc k) virt)) ≡ t'
    → find_table (suc k) virt t entry ≡ find_table k virt t' entry
unfolding find_table
find-through k virt t t' entry e f = rw (e, f) refl

find-absent :
    (k virt t : ℕ) (entry : ℕ → ℕ → ℕ)
    → present (entry t (get_index (suc k) virt)) ≡ false
    → find_table (suc k) virt t entry ≡ none
unfolding find_table
find-absent k virt t entry e = rw e refl

-- The table that a walk ends at stands at level 0, at the end of the way.
pub found_place :
    {root : ℕ} (l : Labels) (s : Tables)
    → IsTree root l s
    → (n virt q t : ℕ) → l.level q ≡ n
    → n ≤ 3
    → find_table n virt q s.entry ≡ some t
    → (l.level t ≡ 0) × (l.path t ≡ steps n virt (l.path q))
found_place l s tree zero virt q t at h e =
    let same : q ≡ t = some_same (unfold find_table in e) in
    (ap l.level (sym same) ∙ at, ap l.path (sym same))
  where
    some_same : {a b : ℕ} → some a ≡ some b → a ≡ b
    some_same x = cc
found_place l s tree (suc n) virt q t at h e =
    let value : ℕ = s.entry q (get_index (suc n) virt) in
    elim (Bool-cases (present value)) [
      | inl p ↦
          let (lev, pa) = tree.child q (get_index (suc n) virt) n at (omega arith) p in
          let (level, path) =
            found_place l s tree n virt (frame value) t lev (omega arith)
              (sym (find-through n virt q (frame value) s.entry p refl) ∙ e) in
          (level, path ∙ ap (steps n virt) pa)
      | inr p ↦ absurd (none_some (sym (find-absent n virt q s.entry p) ∙ e))
    ]
  where
    none_some : {b : ℕ} → none ≡ some b → ⊥
    none_some x = cc

-- The table that the walk ends at holds the entry that maps the address, if there is one.
abbrev leaf_of : ℕ → (ℕ → ℕ → ℕ) → Option ℕ → Option ℕ
leaf_of virt entry none = none
leaf_of virt entry (some t) = leaf (entry t (get_index 0 virt))

pub lookup-find :
    (k virt t : ℕ) (entry : ℕ → ℕ → ℕ)
    → lookup k virt t entry ≡ leaf_of virt entry (find_table k virt t entry)
lookup-find zero virt t entry = unfold lookup find_table in refl
lookup-find (suc k) virt t entry =
    let value : ℕ = entry t (get_index (suc k) virt) in
    elim (Bool-cases (present value)) [
      | inl e ↦
          lookup-through k virt t entry e
          ∙ lookup-find k virt (frame value) entry
          ∙ ap (leaf_of virt entry) (sym (find-through k virt t (frame value) entry e refl))
      | inr e ↦
          lookup-absent (suc k) virt t entry e
          ∙ ap (leaf_of virt entry) (sym (find-absent k virt t entry e))
    ]

module _ {root : ℕ} {l : Labels} {s : Tables} (tree : IsTree root l s) (t i value : ℕ)
    (bottom : l.level t ≡ 0) where
  abbrev written : ℕ → ℕ → ℕ
  written = set_entry s.entry t i value

  above : (q j k : ℕ) → l.level q ≡ suc k → written q j ≡ s.entry q j
  above q j k at = set_apart s.entry t i value q j (apart_levels l t q (λ e. absurd (omega arith)))

  pub find-written :
      (n virt q : ℕ)
      → l.level q ≡ n
      → n ≤ 3
      → find_table n virt q written ≡ find_table n virt q s.entry
  find-written zero virt q at h = unfold find_table in refl
  find-written (suc n) virt q at h =
      let j : ℕ = get_index (suc n) virt in
      let same = above q j n at in
      elim (Bool-cases (present (s.entry q j))) [
        | inl e ↦
            let (lev, _) = tree.child q j n at (omega arith) e in
            find-through n virt q (frame (s.entry q j)) written (rw same e) (ap (λ x. frame x) same)
            ∙ find-written n virt (frame (s.entry q j)) lev (omega arith)
            ∙ sym (find-through n virt q (frame (s.entry q j)) s.entry e refl)
        | inr e ↦ find-absent n virt q written (rw same e) ∙ sym (find-absent n virt q s.entry e)
      ]

  -- An address whose way does not end at the written entry is mapped as before.
  pub lookup-written :
      (n virt q : ℕ)
      → l.level q ≡ n
      → n ≤ 3
      → ((steps n virt (l.path q) ≡ l.path t) → get_index 0 virt ≢ i)
      → lookup n virt q written ≡ lookup n virt q s.entry
  lookup-written zero virt q at h no_hit = elim (Bool-cases (t == q && (i == get_index 0 virt))) [
    | inl e ↦
        let (same, index) = same_place t q i (get_index 0 virt) e in
        absurd (no_hit (ap l.path (sym same)) (sym index))
    | inr e ↦ unfold lookup in ap leaf (set_other s.entry t i value q (get_index 0 virt) e)
  ]
  lookup-written (suc n) virt q at h no_hit =
      let j : ℕ = get_index (suc n) virt in
      let same = above q j n at in
      elim (Bool-cases (present (s.entry q j))) [
        | inl e ↦
            let (lev, pa) = tree.child q j n at (omega arith) e in
            lookup-through n virt q written (rw same e)
            ∙ ap (λ x. lookup n virt (frame x) written) same
            ∙ lookup-written n virt (frame (s.entry q j)) lev (omega arith)
                (λ x. no_hit (ap (steps n virt) (sym pa) ∙ x))
            ∙ sym (lookup-through n virt q s.entry e)
        | inr e ↦
            lookup-absent (suc n) virt q written (rw same e)
            ∙ sym (lookup-absent (suc n) virt q s.entry e)
      ]

  pub written-IsTree : (free : Bool) → IsTree root l (record s { entry = written; locked = free })
  written-IsTree free = record {
    root_level = tree.root_level;
    root_path = tree.root_path;
    child = λ q j k at h e.
        let same = above q j k at in
        let (lev, pa) = tree.child q j k at h (rw same at e) in
        (ap (λ x. l.level (frame x)) same ∙ lev, ap (λ x. l.path (frame x)) same ∙ pa);
    small = λ q j k at. ap (λ x. is_large x) (above q j k at) ∙ tree.small q j k at;
    spare = tree.spare;
    distinct = tree.distinct;
  }
