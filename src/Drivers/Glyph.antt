-- ===== src/Drivers/Glyph.antt =====
-- The drawing of kernel/src/drivers/fbconsole.c: put_glyph and console_init over the 32-bit words of the
-- framebuffer. `font` are the bytes of vga_font, 16 to a glyph, and `stride` is `pitch / 4`; the index of
-- a word stays below 2 ^ 31.
pub mod Pixels
pub mod Cleared
use goofyos.Base.{
  ℕ, zero, suc, ◌+◌, ◌-◌, ◌*◌, ◌/◌, ◌%◌, ◌^◌, Bool, true, false, List, [], ◌∷◌, ◌==◌, ltb,
  if◌then◌else◌,
}
use goofyos.Drivers.Console.{Item, Console}

abbrev pub nth_color : List ℕ → ℕ → ℕ
nth_color [] i = 0
nth_color (c ∷ cs) zero = c
nth_color (c ∷ cs) (suc i) = nth_color cs i

abbrev pub ansi_colors : List ℕ
ansi_colors =
    0x000000 ∷ 0xaa0000 ∷ 0x00aa00 ∷ 0xaa5500 ∷ 0x0000aa ∷ 0xaa00aa ∷ 0x00aaaa ∷ 0xaaaaaa ∷ 0x555555
    ∷ 0xff5555 ∷ 0x55ff55 ∷ 0xffff55 ∷ 0x5555ff ∷ 0xff55ff ∷ 0x55ffff ∷ 0xffffff ∷ []

-- The color of the pixel `x` in the row `y` of a glyph: `row & (0x80 >> x)` is a bit of the byte.
unfoldable pub glyph_color : (ℕ → ℕ) → Item → ℕ → ℕ → ℕ
glyph_color font todo y x =
    if font (todo.c * 16 + y) / 2 ^ (7 - x) % 2 == 1
    then nth_color ansi_colors (todo.col % 16)
    else nth_color ansi_colors (todo.col / 16)

abbrev pub put_pixel : ℕ → ℕ → (ℕ → ℕ) → ℕ → ℕ
put_pixel i color fb j = if i == j then color else fb j

-- The inner loop from `x` on, with `left` rounds left.
unfoldable pub put_row : (ℕ → ℕ) → ℕ → Item → ℕ → ℕ → ℕ → (ℕ → ℕ) → ℕ → ℕ
put_row font stride todo y zero x fb = fb
put_row font stride todo y (suc left) x fb =
    put_row font stride todo y left (suc x)
      (put_pixel ((todo.y * 16 + y) * stride + (todo.x * 8 + x)) (glyph_color font todo y x) fb)

-- The outer loop from `y` on.
unfoldable pub put_rows : (ℕ → ℕ) → ℕ → Item → ℕ → ℕ → (ℕ → ℕ) → ℕ → ℕ
put_rows font stride todo zero y fb = fb
put_rows font stride todo (suc left) y fb =
    put_rows font stride todo left (suc y) (put_row font stride todo y 8 0 fb)

unfoldable pub put_glyph : (ℕ → ℕ) → ℕ → Item → (ℕ → ℕ) → ℕ → ℕ
put_glyph font stride todo fb = put_rows font stride todo 16 0 fb

-- The loops of console_init over the rows `j` of the column `i`, and over the columns.
unfoldable pub clear_column : (ℕ → ℕ) → ℕ → ℕ → ℕ → ℕ → ℕ → (ℕ → ℕ) → ℕ → ℕ
clear_column font stride color i zero j fb = fb
clear_column font stride color i (suc left) j fb =
    clear_column font stride color i left (suc j)
      (put_glyph font stride (record { x = i; y = j; c = 32; col = color }) fb)

unfoldable pub clear_columns : (ℕ → ℕ) → ℕ → ℕ → ℕ → ℕ → ℕ → (ℕ → ℕ) → ℕ → ℕ
clear_columns font stride color rows zero i fb = fb
clear_columns font stride color rows (suc left) i fb =
    clear_columns font stride color rows left (suc i) (clear_column font stride color i rows 0 fb)

-- console_init for a framebuffer of `width` by `height` pixels, with the console and the words that it
-- leaves. On NO_FRAMEBUFFER it returns at once. The color is white on black. vzalloc's memset clears the
-- cells by whole words of 8 bytes; what its pages held, `fresh`, stays in the cells behind.
unfoldable pub console_init :
    Bool → (ℕ → ℕ) → ℕ → ℕ → ℕ → Console → (ℕ → ℕ) → (ℕ → ℕ) → Console × (ℕ → ℕ)
console_init no_framebuffer font pitch width height old fresh fb =
    let columns : ℕ = width / 8 % 2 ^ 16 in
    let rows : ℕ = height / 16 % 2 ^ 16 in
    let s : Console = record {
      cursor_x = 0;
      cursor_y = 0;
      width_char = columns;
      height_char = rows;
      color = 15;
      term_buffer = λ a. if ltb a (columns * rows * 2 / 8 * 4) then 0 else fresh a;
      queue = [];
      drawn = [];
    } in
    if no_framebuffer
    then (old, fb)
    else (s, clear_columns font (pitch % 2 ^ 16 / 4) 15 s.height_char s.width_char 0 fb)
