-- ===== src/Drivers/Glyph/Cleared.antt =====
-- What console_init of kernel/src/drivers/fbconsole.c leaves on the screen and in the console.
use goofyos.Base.{
  ℕ, zero, suc, ◌+◌, ◌-◌, ◌*◌, ◌/◌, ◌%◌, ◌^◌, ◌≡◌, ◌<◌, ◌≤◌, refl, ◌∙◌, false, ◌&&◌, ◌==◌, ltb, leb,
  if◌then◌else◌, arith,
}
use native.Mathlib.Nat.{zero-div}
use goofyos.Drivers.Console.{Item, Console}
use goofyos.Drivers.Console.Bounds.{InBounds, IsReady}
use goofyos.Drivers.Glyph.{
  glyph_color, put_glyph, clear_column, clear_columns, console_init, nth_color, ansi_colors,
}
use goofyos.Drivers.Glyph.Pixels.{put_glyph_lem}

module _ (font : ℕ → ℕ) (p color : ℕ) (blank : (y : ℕ) → y < 16 → font (32 * 16 + y) ≡ 0) where
  abbrev paper : ℕ
  paper = nth_color ansi_colors (color / 16)

  abbrev space : ℕ → ℕ → Item
  space i j = record { x = i; y = j; c = 32; col = color }

  -- A space is all background.
  space_color : (i j y x : ℕ) → y < 16 → glyph_color font (space i j) y x ≡ paper
  unfolding glyph_color
  space_color i j y x lt = rw (blank y lt, unset x) refl
    where
      unset : (x : ℕ) → (0 / 2 ^ (7 - x) % 2 == 1) ≡ false
      unset x = rw (zero-div (2 ^ (7 - x))) refl

  clear_column_lem :
      (i left j : ℕ) (fb : ℕ → ℕ) (v u : ℕ)
      → i * 8 + 8 ≤ p
      → u < p
      → clear_column font p color i left j fb (v * p + u) ≡ (
          if u / 8 == i && (leb j (v / 16) && ltb (v / 16) (j + left))
          then paper
          else fb (v * p + u))
  unfolding clear_column
  clear_column_lem i zero j fb v u fits lt = ground arith
  clear_column_lem i (suc left) j fb v u fits lt =
      let rest = clear_column_lem i left (suc j) (put_glyph font p (space i j) fb) v u fits lt in
      let here = put_glyph_lem font p (space i j) fits fb v u lt in
      let plain = space_color i j (v % 16) (u % 8) (omega arith) in
      rest ∙ rw (here, plain) (ground arith)

  clear_columns_lem :
      (rows left i : ℕ) (fb : ℕ → ℕ) (v u : ℕ)
      → (i + left) * 8 ≤ p
      → u < p
      → clear_columns font p color rows left i fb (v * p + u) ≡ (
          if ltb (v / 16) rows && (leb i (u / 8) && ltb (u / 8) (i + left))
          then paper
          else fb (v * p + u))
  unfolding clear_columns
  clear_columns_lem rows zero i fb v u fits lt = ground arith
  clear_columns_lem rows (suc left) i fb v u fits lt =
      let rest =
        clear_columns_lem rows left (suc i) (clear_column font p color i rows 0 fb) v u
          (omega arith) lt in
      let here = clear_column_lem i rows 0 fb v u (omega arith) lt in rest ∙ rw here (ground arith)

-- With a framebuffer, where the space of the font has no pixel, the framebuffer has room for a cell
-- and its pixels lie within its rows, and the pitch and the numbers of cells fit into 16 bits,
-- console_init makes every pixel of a cell black and leaves the others in the rows. The console it
-- leaves is within its bounds, with as many cells as the framebuffer has room for.
pub console_init_lem :
    (font : ℕ → ℕ) (pitch width height : ℕ) (old : Console) (fresh fb : ℕ → ℕ) (v u : ℕ)
    → ((y : ℕ) → y < 16 → font (32 * 16 + y) ≡ 0)
    → pitch < 2 ^ 16
    → width / 8 < 2 ^ 16
    → height / 16 < 2 ^ 16
    → 8 ≤ width
    → 16 ≤ height
    → width ≤ pitch / 4
    → u < pitch / 4
    → let r = console_init false font pitch width height old fresh fb in
      (r.1 (v * (pitch / 4) + u) ≡ (
        if ltb (v / 16) (height / 16) && ltb (u / 8) (width / 8)
        then 0
        else fb (v * (pitch / 4) + u)))
      × IsReady (width / 8) (height / 16) r.0
unfolding console_init
console_init_lem font pitch width height old fresh fb v u blank small w h wide high fits lt =
    let sp : pitch % 2 ^ 16 ≡ pitch = omega arith in
    let sw : width / 8 % 2 ^ 16 ≡ width / 8 = omega arith in
    let sh : height / 16 % 2 ^ 16 ≡ height / 16 = omega arith in
    let all =
      clear_columns_lem font (pitch / 4) 15 blank (height / 16) (width / 8) 0 fb v u (omega arith)
        lt in
    let s : Console = (console_init false font pitch width height old fresh fb).0 in
    let bounds : InBounds (width / 8) (height / 16) s = record {
      width = sw;
      height = sh;
      wide = omega arith;
      high = omega arith;
      room = omega arith;
      queued = tt;
      shown = tt;
      row = omega arith;
    } in
    (rw (sp, sw, sh) (all ∙ ground arith), record { inside = bounds; column = omega arith })
