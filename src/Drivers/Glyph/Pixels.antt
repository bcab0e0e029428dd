-- ===== src/Drivers/Glyph/Pixels.antt =====
-- Which pixels put_glyph of kernel/src/drivers/fbconsole.c writes.
use goofyos.Base.{
  ℕ, zero, suc, ◌+◌, ◌-◌, ◌*◌, ◌/◌, ◌%◌, ◌≡◌, ◌<◌, ◌≤◌, refl, sym, ap, ◌∙◌, Bool, true, false, ◌&&◌,
  ◌==◌, ltb, leb, if◌then◌else◌, inl, inr, arith, Bool-cases, ==→eq,
}
use native.Mathlib.Nat.{mul-le-mul_left}
use goofyos.Drivers.Console.{Item}
use goofyos.Drivers.Glyph.{glyph_color, put_pixel, put_row, put_rows, put_glyph}

row_before : (p v u w t : ℕ) → u < p → v < w → v * p + u ≡ w * p + t → ⊥
row_before p v u w t a lt e = let m = mul-le-mul_left p lt in absurd (omega arith)

-- A word has one place: its row and, below the stride, its column.
place_unique : (p v u w t : ℕ) → u < p → t < p → v * p + u ≡ w * p + t → v ≡ w
place_unique p v u w t a b e = elim (Bool-cases (ltb v w)) [
  | inl q ↦ absurd (row_before p v u w t a (ground arith) e)
  | inr q ↦ elim (Bool-cases (ltb w v)) [
    | inl r ↦ absurd (row_before p w t v u b (ground arith) (sym e))
    | inr r ↦ ground arith
  ]
]

same_place : (p v u w t : ℕ) → u < p → t < p → (w * p + t == v * p + u) ≡ (v == w && (u == t))
same_place p v u w t a b = elim (Bool-cases (w * p + t == v * p + u)) [
  | inl e ↦
      let sum = ==→eq (w * p + t) (v * p + u) e in
      let row = place_unique p v u w t a b (sym sum) in rw (e, row) (hit u t (rw row at sum))
  | inr e ↦ rw e (miss e (v == w) refl)
]
  where
    hit : (u t : ℕ) → w * p + t ≡ w * p + u → true ≡ (w == w && (u == t))
    hit u t s = let same : u ≡ t = omega arith in rw same (ground arith)

    miss : (w * p + t == v * p + u) ≡ false → (r : Bool) → (v == w) ≡ r → false ≡ (r && (u == t))
    miss e false q = refl
    miss e true q = elim (Bool-cases (u == t)) [
      | inl s ↦
          let row : w * p ≡ v * p = ap (λ k. k * p) (sym (==→eq v w q)) in
          let column = ==→eq u t s in absurd (ground arith)
      | inr s ↦ sym s
    ]

in_row : (y v : ℕ) → (leb (y * 16 + 0) v && ltb v (y * 16 + 16)) ≡ (v / 16 == y)
in_row y v = ground arith

in_column : (x u : ℕ) → (leb (x * 8) u && ltb u (x * 8 + 8)) ≡ (u / 8 == x)
in_column x u = ground arith

module _ (font : ℕ → ℕ) (p : ℕ) (todo : Item) (fits : todo.x * 8 + 8 ≤ p) where
  -- A row of the glyph.
  put_row_lem :
      (y left x : ℕ) (fb : ℕ → ℕ) (v u : ℕ)
      → x + left ≡ 8
      → u < p
      → put_row font p todo y left x fb (v * p + u) ≡ (
          if v == todo.y * 16 + y && (leb (todo.x * 8 + x) u && ltb u (todo.x * 8 + 8))
          then glyph_color font todo y (u - todo.x * 8)
          else fb (v * p + u))
  unfolding put_row
  put_row_lem y zero x fb v u e lt = ground arith
  put_row_lem y (suc left) x fb v u e lt =
      let t : ℕ = todo.x * 8 + x in
      let rest =
        put_row_lem y left (suc x)
          (put_pixel ((todo.y * 16 + y) * p + t) (glyph_color font todo y x) fb) v u (omega arith)
          lt in
      let place = same_place p v u (todo.y * 16 + y) t lt (omega arith) in
      rest
      ∙ rw place (elim (Bool-cases (u == t)) [
        | inl q ↦
            let same = ==→eq u t q in
            let column : u - todo.x * 8 ≡ x = omega arith in rw column (ground arith)
        | inr q ↦ ground arith
      ])

  put_rows_lem :
      (left y : ℕ) (fb : ℕ → ℕ) (v u : ℕ)
      → y + left ≡ 16
      → u < p
      → put_rows font p todo left y fb (v * p + u) ≡ (
          if (leb (todo.y * 16 + y) v && ltb v (todo.y * 16 + 16))
            && (leb (todo.x * 8) u && ltb u (todo.x * 8 + 8))
          then glyph_color font todo (v - todo.y * 16) (u - todo.x * 8)
          else fb (v * p + u))
  unfolding put_rows
  put_rows_lem zero y fb v u e lt = ground arith
  put_rows_lem (suc left) y fb v u e lt =
      let rest = put_rows_lem left (suc y) (put_row font p todo y 8 0 fb) v u (omega arith) lt in
      let row = put_row_lem y 8 0 fb v u (omega arith) lt in
      rest
      ∙ rw row (elim (Bool-cases (v == todo.y * 16 + y)) [
        | inl q ↦
            let same = ==→eq v (todo.y * 16 + y) q in
            let there : v - todo.y * 16 ≡ y = omega arith in rw there (ground arith)
        | inr q ↦ ground arith
      ])

  pub put_glyph_lem :
      (fb : ℕ → ℕ) (v u : ℕ)
      → u < p
      → put_glyph font p todo fb (v * p + u) ≡ (
          if v / 16 == todo.y && (u / 8 == todo.x)
          then glyph_color font todo (v % 16) (u % 8)
          else fb (v * p + u))
  unfolding put_glyph
  put_glyph_lem fb v u lt =
      put_rows_lem 16 0 fb v u (omega arith) lt
      ∙ rw (in_row todo.y v, in_column todo.x u)
          (elim (Bool-cases (v / 16 == todo.y)) [
            | inr q ↦ rw q refl
            | inl q ↦ elim (Bool-cases (u / 8 == todo.x)) [
              | inr r ↦ rw (q, r) refl
              | inl r ↦
                  let row : v - todo.y * 16 ≡ v % 16 = ground arith in
                  let column : u - todo.x * 8 ≡ u % 8 = ground arith in rw (q, r, row, column) refl
            ]
          ])
