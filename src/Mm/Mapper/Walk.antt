-- ===== src/Mm/Mapper/Walk.antt =====
-- The reading walks of kernel/src/mm/mapper.c: is_mapped and virt_to_pfn.
use Prim.Native.Nat.{bit_or}
use mathlib.Core.Path.{subst}
use goofyos.Base.{
  ℕ, zero, suc, ◌/◌, ◌%◌, ◌^◌, ◌≡◌, ◌≢◌, ◌≤◌, ◌<◌, ◌∙◌, refl, sym, ap, Bool, true, false, Option,
  none, some, arith, ltb, ◌-◌, if◌then◌else◌, inl, inr, Bool-cases,
}
use goofyos.Base.Int.{pos, negsuc, signed32}
use goofyos.Mm.Mapper.{
  Tables, ok, present, is_large, frame, get_index, mapped_from, is_mapped, virt_offset,
  page_size_at, pfn_from, virt_to_pfn, map_page, bad_flags,
}
use goofyos.Mm.Mapper.Bits.{or_frame}
use goofyos.Mm.Mapper.Tree.{Labels, IsTree, lookup, leaf, lookup-absent, lookup-through}
use goofyos.Mm.Mapper.Map.{Maps, page_of, map_page-Maps}

abbrev pub is_some : Option ℕ → Bool
is_some none = false
is_some (some value) = true

-- The page number that an entry names.
abbrev pub pfn_of : ℕ → ℕ
pfn_of value = value / 4096 % 2 ^ 51

leaf-is_some : (value : ℕ) → present value ≡ is_some (leaf value)
leaf-is_some value = elim (Bool-cases (present value)) [ inl e ↦ rw e refl | inr e ↦ rw e refl ]

leaf-some : (value e : ℕ) → leaf value ≡ some e → value ≡ e
leaf-some value e h = elim (Bool-cases (present value)) [
  | inl p ↦ some_same (rw p at h)
  | inr p ↦ absurd (none_some (rw p at h))
]
  where
    some_same : {a b : ℕ} → some a ≡ some b → a ≡ b
    some_same x = cc

    none_some : {b : ℕ} → none ≡ some b → ⊥
    none_some x = cc

mapped_step :
    (n virt q : ℕ) (entry : ℕ → ℕ → ℕ)
    → let value = entry q (get_index (suc n) virt) in
      is_large value ≡ false
      → (present value ≡ true
          → mapped_from (suc n) virt q entry ≡ mapped_from n virt (frame value) entry)
        × (present value ≡ false → mapped_from (suc n) virt q entry ≡ false)
unfolding mapped_from
mapped_step n virt q entry one = (λ e. rw (one, e) refl, λ e. rw (one, e) refl)

pfn_step :
    (n virt q : ℕ) (entry : ℕ → ℕ → ℕ)
    → let value = entry q (get_index (suc n) virt) in
      is_large value ≡ false
      → present value ≡ true
      → pfn_from (suc n) virt q entry ≡ pfn_from n virt (frame value) entry
unfolding pfn_from
pfn_step n virt q entry one e = rw (one, e) refl

module _ {root : ℕ} (l : Labels) (s : Tables) (tree : IsTree root l s) where
  mapped_from_lem :
      (n virt q : ℕ)
      → l.level q ≡ n
      → n ≤ 3
      → mapped_from n virt q s.entry ≡ is_some (lookup n virt q s.entry)
  mapped_from_lem zero virt q at h =
      unfold mapped_from lookup in leaf-is_some (s.entry q (get_index 0 virt))
  mapped_from_lem (suc n) virt q at h =
      let i : ℕ = get_index (suc n) virt in
      let (through, absent) = mapped_step n virt q s.entry (tree.small q i n at) in
      elim (Bool-cases (present (s.entry q i))) [
        | inl e ↦
            let (lev, _) = tree.child q i n at (omega arith) e in
            through e
            ∙ mapped_from_lem n virt (frame (s.entry q i)) lev (omega arith)
            ∙ ap is_some (sym (lookup-through n virt q s.entry e))
        | inr e ↦ absent e ∙ ap is_some (sym (lookup-absent (suc n) virt q s.entry e))
      ]

  pfn_from_lem :
      (n virt q value : ℕ)
      → l.level q ≡ n
      → n ≤ 3
      → lookup n virt q s.entry ≡ some value
      → pfn_from n virt q s.entry ≡ pfn_of value
  pfn_from_lem zero virt q value at h e =
      let same = leaf-some (s.entry q (get_index 0 virt)) value (unfold lookup in e) in
      unfold pfn_from virt_offset page_size_at in (rw same (omega arith))
  pfn_from_lem (suc n) virt q value at h e =
      let i : ℕ = get_index (suc n) virt in
      elim (Bool-cases (present (s.entry q i))) [
        | inl p ↦
            let (lev, _) = tree.child q i n at (omega arith) p in
            pfn_step n virt q s.entry (tree.small q i n at) p
            ∙ pfn_from_lem n virt (frame (s.entry q i)) value lev (omega arith)
                (sym (lookup-through n virt q s.entry p) ∙ e)
        | inr p ↦ absurd (none_some (sym (lookup-absent (suc n) virt q s.entry p) ∙ e))
      ]
    where
      none_some : {b : ℕ} → none ≡ some b → ⊥
      none_some x = cc

page_number :
    (phys : ℕ)
    → phys < 2 ^ 44
    → signed32 (phys / 4096 % 2 ^ 32)
      ≡ (if ltb phys (2 ^ 43) then pos (phys / 4096) else negsuc (2 ^ 32 - phys / 4096 - 1))
page_number phys small =
    let fits : phys / 4096 % 2 ^ 32 ≡ phys / 4096 = omega arith in rw fits (ground arith)

-- On page tables that form a tree, with the lock free, when map_page of an aligned physical address
-- below 2 ^ 44 with flags below bit 7 that the mask allows succeeds, is_mapped then finds the page
-- mapped, and virt_to_pfn gives the number of the physical page if the address is below 2 ^ 43, and that
-- number less 2 ^ 32, which is negative, from there on; is_mapped finds any other page mapped exactly if
-- it was before.
pub walk-map_page :
    (root : ℕ) (l : Labels) (s s' : Tables) (phys virt flags : ℕ)
    → IsTree root l s
    → s.locked ≡ false
    → bad_flags flags ≡ false
    → flags < 128
    → phys % 4096 ≡ 0
    → phys < 2 ^ 44
    → map_page root phys virt flags s ≡ ok s'
    → (is_mapped root virt s' ≡ ok true)
      × (virt_to_pfn root virt s'
          ≡ (if ltb phys (2 ^ 43) then pos (phys / 4096) else negsuc (2 ^ 32 - phys / 4096 - 1)))
      × ((v : ℕ) → page_of v ≢ page_of virt → is_mapped root v s' ≡ is_mapped root v s)
unfolding is_mapped virt_to_pfn
walk-map_page root l s s' phys virt flags tree free good low aligned small run =
    let (unlocked, (l', m)) =
      subst (Maps root s virt (bit_or (bit_or phys flags) 1)) run
        (map_page-Maps root l s phys virt flags tree free good) in
    let at = m.tree.root_level in
    let pfn =
      pfn_from_lem l' s' m.tree 3 virt root (bit_or (bit_or phys flags) 1) at (omega arith)
        m.here in
    (
      simp unlocked
          (ap ok (mapped_from_lem l' s' m.tree 3 virt root at (omega arith) ∙ ap is_some m.here)),
      ap (λ x. signed32 (x % 2 ^ 32)) (pfn ∙ or_frame phys flags (aligned, omega arith) low)
          ∙ page_number phys small,
      λ v other.
          simp (unlocked, free)
            (ap ok (
              mapped_from_lem l' s' m.tree 3 v root at (omega arith)
              ∙ ap is_some (m.there v other)
              ∙ sym (mapped_from_lem l s tree 3 v root tree.root_level (omega arith)))),
    )
