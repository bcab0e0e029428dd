-- ===== src/Mm/Vmalloc/Release.antt =====
-- The three ways in which kernel/src/mm/vmalloc.c gives a range back.
use goofyos.Base.{
  ℕ, ◌+◌, ◌/◌, ◌≡◌, ◌<◌, refl, true, false, List, [], ◌∷◌, some, ◌==◌, arith, Bool-cases, inl, inr,
}
use goofyos.Mm.Vmalloc.{Range, Vmalloc, vmalloc_unmap_range, vfree, has_range, vunmap_contiguous}
use goofyos.Mm.Vmalloc.Reserve.{Tiles, Reserved, is_used}

unmap_past :
    (start end range : ℕ) (rs : List Range)
    → Tiles start end rs
    → range < start
    → vmalloc_unmap_range range rs ≡ rs
unfolding vmalloc_unmap_range
unmap_past start end range [] t h = refl
unmap_past start end range (r ∷ rs) t h =
    let far : (r.addr == range) ≡ false = ground (arith, t.0) in
    rw (far, unmap_past (start + r.size) end range rs t.2 (omega arith)) refl

-- On ranges that tile the addresses, vmalloc_unmap_range, which goes through the whole list, and
-- vfree, which stops at the first range with the address, leave the same list.
pub vmalloc_unmap_range-vfree :
    (start end range : ℕ) (rs : List Range)
    → Tiles start end rs
    → vmalloc_unmap_range range rs ≡ (vfree range rs).1
unfolding vmalloc_unmap_range vfree
vmalloc_unmap_range-vfree start end range [] t = refl
vmalloc_unmap_range-vfree start end range (r ∷ rs) t = elim (Bool-cases (r.addr == range)) [
  | inl e ↦ rw (e, unmap_past (start + r.size) end range rs t.2 (ground (arith, t.0, t.1, e))) refl
  | inr n ↦ rw (n, vmalloc_unmap_range-vfree (start + r.size) end range rs t.2) refl
]

has_range_of_vfree :
    (range : ℕ) (p : ℕ × ℕ) (rs : List Range)
    → (vfree range rs).0 ≡ some p
    → has_range range rs ≡ true
unfolding vfree has_range
has_range_of_vfree range p [] h = absurd (ground arith)
has_range_of_vfree range p (r ∷ rs) h = elim (Bool-cases (r.addr == range)) [
  | inl e ↦ rw e refl
  | inr n ↦ rw n (has_range_of_vfree range p rs (rw n at h))
]

-- vunmap_contiguous of a range that a request has returned gives the range back, so that the same
-- addresses are in use as before the request, and returns with the lock held.
pub vunmap_contiguous_lem :
    (start end size addr : ℕ) (rs : List Range) (s : Vmalloc)
    → Reserved start end size rs addr s.ranges
    → ((a : ℕ) → is_used (vunmap_contiguous addr s).ranges a ≡ is_used rs a)
      × ((vunmap_contiguous addr s).locked ≡ true)
unfolding vunmap_contiguous
vunmap_contiguous_lem start end size addr rs s h =
    (h.restored, has_range_of_vfree addr (size / 4096, addr) s.ranges h.given_back)
