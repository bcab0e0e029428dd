-- ===== src/Tests/Glyph.antt =====
-- Runs of the theorems on the drawing of kernel/src/drivers/fbconsole.c: a framebuffer of 16 by 32
-- pixels, and a font whose glyphs but the space are full blocks.
use goofyos.Base.{ℕ, ◌≡◌, ◌+◌, ◌*◌, ◌&&◌, false, [], arith, ltb, leb, if◌then◌else◌}
use goofyos.Drivers.Console.{Item, Console}
use goofyos.Drivers.Console.Bounds.{IsReady}
use goofyos.Drivers.Glyph.{console_init}
use goofyos.Drivers.Glyph.Cleared.{console_init_lem}

abbrev block_font : ℕ → ℕ
block_font i = if leb 512 i && ltb i 528 then 0 else 255

abbrev a_cell : Item
a_cell = record { x = 1; y = 1; c = 65; col = 15 }

abbrev noise : ℕ → ℕ
noise i = 1234

abbrev old_console : Console
old_console = record {
  cursor_x = 0;
  cursor_y = 0;
  width_char = 0;
  height_char = 0;
  color = 0;
  term_buffer = λ a. 0;
  queue = [];
  drawn = [];
}

console_init_example :
    let r = console_init false block_font 64 16 32 old_console noise noise in
    (r.1 (5 * 16 + 9) ≡ 0) × IsReady 2 2 r.0
console_init_example =
    console_init_lem block_font 64 16 32 old_console noise noise 5 9 (λ y lt. ground arith)
      (omega arith) (omega arith) (omega arith) (omega arith) (omega arith) (omega arith)
      (omega arith)
