-- ===== src/Mm/Vmalloc/Reserve.antt =====
-- What kernel/src/mm/vmalloc.c hands out: ranges that were free, and that a free gives back.
use mathlib.Core.Path.{subst}
use goofyos.Base.{
  ℕ, ◌+◌, ◌-◌, ◌/◌, ◌%◌, ◌≡◌, ◌≤◌, ◌<◌, refl, sym, Bool, true, false, ◌||◌, ◌&&◌, List, [], ◌∷◌,
  Option, none, some, ltb, ◌==◌, arith, Bool-cases, inl, inr, All, ◌⊎◌, ltb→lt, ==→eq,
}
use goofyos.Libk.Memory.{within}
use goofyos.Mm.Vmalloc.{Range, behind, reserve, vmalloc_map_range, vfree}

-- The ranges are not empty and cover the addresses from `start` up to `end` one after the other.
abbrev pub Tiles : ℕ → ℕ → List Range → Type 0
Tiles start end [] = start ≡ end
Tiles start end (r ∷ rs) = (r.addr ≡ start) × (0 < r.size) × Tiles (start + r.size) end rs

-- Whether an address lies in a range that is in use.
unfoldable pub is_used : List Range → ℕ → Bool
is_used [] a = false
is_used (r ∷ rs) a = (r.used && within r.addr r.size a) || is_used rs a

Tiles-below :
    (start end a : ℕ) (rs : List Range) → Tiles start end rs → a < start → is_used rs a ≡ false
unfolding is_used
Tiles-below start end a [] t h = refl
Tiles-below start end a (r ∷ rs) t h =
    ground (arith, t.0, Tiles-below (start + r.size) end a rs t.2)

-- What the reservation of `size` bytes at `addr` does to the ranges `rs` from `start` to `end`.
pub record Reserved (start end size : ℕ) (rs : List Range) (addr : ℕ) (rs' : List Range)
    : Type 0 where
  pub low : start ≤ addr
  pub high : addr + size ≤ end
  pub tiles : Tiles start end rs'
  pub was_free : (a : ℕ) → within addr size a ≡ true → is_used rs a ≡ false
  pub now_used : (a : ℕ) → is_used rs' a ≡ (within addr size a || is_used rs a)
  pub given_back : (vfree addr rs').0 ≡ some (size / 4096, addr)
  pub restored : (a : ℕ) → is_used (vfree addr rs').1 a ≡ is_used rs a

Tiles-end : (start end : ℕ) (rs : List Range) → Tiles start end rs → start ≤ end
Tiles-end start end [] t = omega arith
Tiles-end start end (r ∷ rs) t = let h = Tiles-end (start + r.size) end rs t.2 in omega arith

reserve_whole :
    (start end : ℕ) (r : Range) (rs : List Range)
    → Tiles start end (r ∷ rs)
    → r.used ≡ false
    → Reserved start end r.size (r ∷ rs) r.addr (record r { used = true } ∷ rs)
unfolding is_used vfree
reserve_whole start end r rs t free =
    let top = Tiles-end (start + r.size) end rs t.2 in
    record {
      low = omega (arith, t.0);
      high = omega (arith, t.0);
      tiles = t;
      was_free = λ a h. ground (arith, t.0, Tiles-below (start + r.size) end a rs t.2);
      now_used = λ a. ground (arith, free);
      given_back = ground arith;
      restored = λ a. ground (arith, free);
    }

pub reserve_split :
    (start end size : ℕ) (r : Range) (rs : List Range)
    → Tiles start end (r ∷ rs)
    → r.used ≡ false
    → 0 < size
    → size < r.size
    → let new : ℕ = r.addr + r.size - size in
      Reserved start end size
        (r ∷ rs)
        new
        (record r { size = r.size - size } ∷ record { addr = new; size = size; used = true } ∷ rs)
unfolding is_used vfree
reserve_split start end size r rs t free pos fits =
    let top = Tiles-end (start + r.size) end rs t.2 in
    let sums : start + (r.size - size) + size ≡ start + r.size = omega arith in
    record {
      low = omega (arith, t.0);
      high = omega (arith, t.0);
      tiles = (t.0, omega arith, (omega (arith, t.0), pos, rw sums (t.2)));
      was_free = λ a h. ground (arith, t.0, free, Tiles-below (start + r.size) end a rs t.2);
      now_used = λ a. ground (arith, free);
      given_back = ground (arith, t.0);
      restored = λ a. ground (arith, free);
    }

reserve_behind :
    (start end size : ℕ) (r : Range) (rs : List Range) (addr : ℕ) (rs' : List Range)
    → Tiles start end (r ∷ rs)
    → Reserved (start + r.size) end size rs addr rs'
    → Reserved start end size (r ∷ rs) addr (r ∷ rs')
unfolding is_used vfree
reserve_behind start end size r rs addr rs' t h =
    let far : (r.addr == addr) ≡ false = ground (arith, t.0, t.1, h.low) in
    record {
      low = omega (arith, h.low);
      high = h.high;
      tiles = (t.0, t.1, h.tiles);
      was_free = λ a w. ground (arith, t.0, h.low, h.was_free a w);
      now_used = λ a. ground (arith, h.now_used a);
      given_back = rw far (h.given_back);
      restored = λ a. rw far (ground (arith, h.restored a));
    }

-- No range is free and large enough.
abbrev pub AllTooSmall : ℕ → List Range → Type 0
AllTooSmall size rs = All (λ r. (r.used ≡ true) ⊎ (r.size < size)) rs

-- A walk that finds nothing has seen no range that would do, and one that finds a range reserves it.
abbrev pub Outcome : ℕ → ℕ → ℕ → List Range → Option (ℕ × List Range) → Type 0
Outcome start end size rs none = AllTooSmall size rs
Outcome start end size rs (some (addr, rs')) = Reserved start end size rs addr rs'

Outcome-behind :
    (start end size : ℕ) (r : Range) (rs : List Range) (o : Option (ℕ × List Range))
    → Tiles start end (r ∷ rs)
    → (r.used ≡ true) ⊎ (r.size < size)
    → Outcome (start + r.size) end size rs o
    → Outcome start end size (r ∷ rs) (behind r o)
Outcome-behind start end size r rs none t small h = (small, h)
Outcome-behind start end size r rs (some (addr, rs')) t small h =
    reserve_behind start end size r rs addr rs' t h

smaller : (a b : ℕ) → (a == b) ≡ false → ltb b a ≡ false → a < b
smaller a b n g = ground arith

not_zero : (n : ℕ) → 0 < n → (n == 0) ≡ false
not_zero n h = ground arith

module _ (size : ℕ) (r : Range) (rs : List Range) where
  reserve-used : r.used ≡ true → reserve size (r ∷ rs) ≡ behind r (reserve size rs)
  unfolding reserve
  reserve-used u = simp u refl

  reserve-equal :
      r.used ≡ false
      → (r.size == size) ≡ true
      → reserve size (r ∷ rs) ≡ some (r.addr, record r { used = true } ∷ rs)
  unfolding reserve
  reserve-equal u e = simp (u, e) refl

  reserve-larger :
      r.used ≡ false
      → (r.size == size) ≡ false
      → ltb size r.size ≡ true
      → let new : ℕ = r.addr + r.size - size in
        reserve size (r ∷ rs)
        ≡ some (
          new,
          record r { size = r.size - size } ∷ record { addr = new; size = size; used = true } ∷ rs,
        )
  unfolding reserve
  reserve-larger u e l = simp (u, e, l) refl

  reserve-smaller :
      r.used ≡ false
      → (r.size == size) ≡ false
      → ltb size r.size ≡ false
      → reserve size (r ∷ rs) ≡ behind r (reserve size rs)
  unfolding reserve
  reserve-smaller u e l = simp (u, e, l) refl

reserve-Outcome :
    (start end size : ℕ) (rs : List Range)
    → 0 < size
    → Tiles start end rs
    → Outcome start end size rs (reserve size rs)
unfolding reserve
reserve-Outcome start end size [] pos t = tt
reserve-Outcome start end size (r ∷ rs) pos t =
    let rest = reserve-Outcome (start + r.size) end size rs pos t.2 in
    let go = λ (small : (r.used ≡ true) ⊎ (r.size < size)).
      Outcome-behind start end size r rs (reserve size rs) t small rest in
    elim (Bool-cases r.used) [
      | inl u ↦
          subst (Outcome start end size (r ∷ rs)) (sym (reserve-used size r rs u)) (go (inl u))
      | inr f ↦ elim (Bool-cases (r.size == size)) [
        | inl e ↦ subst (Outcome start end size (r ∷ rs)) (sym (reserve-equal size r rs f e)) (
            subst (λ n. Reserved start end n (r ∷ rs) r.addr (record r { used = true } ∷ rs))
              (==→eq r.size size e) (reserve_whole start end r rs t f))
        | inr n ↦ elim (Bool-cases (ltb size r.size)) [
          | inl l ↦
              subst (Outcome start end size (r ∷ rs)) (sym (reserve-larger size r rs f n l))
                (reserve_split start end size r rs t f pos (ltb→lt size r.size l))
          | inr g ↦
              subst (Outcome start end size (r ∷ rs)) (sym (reserve-smaller size r rs f n g))
                (go (inr (smaller r.size size n g)))
        ]
      ]
    ]

-- A request for a positive number of whole pages, over ranges that tile the addresses from `start`
-- to `end`, either fails, and then every range is in use or smaller than the request; or it returns
-- a range between `start` and `end` that was free, after which exactly that range is in use besides
-- those before, the ranges still tile the same addresses, and vfree of the address releases the
-- range's number of pages and restores which addresses are in use.
pub vmalloc_map_range-Outcome :
    (start end size : ℕ) (rs : List Range)
    → 0 < size
    → size % 4096 ≡ 0
    → Tiles start end rs
    → Outcome start end size rs (vmalloc_map_range size rs)
unfolding vmalloc_map_range
vmalloc_map_range-Outcome start end size rs pos whole t =
    rw (not_zero size pos, whole) (reserve-Outcome start end size rs pos t)
