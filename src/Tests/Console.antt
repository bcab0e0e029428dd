-- ===== src/Tests/Console.antt =====
-- Runs of the theorems on kernel/src/drivers/fbconsole.c.
use goofyos.Base.{◌≡◌, refl, arith, [], ◌∷◌, length}
use goofyos.Drivers.Console.{Console, console_write}
use goofyos.Drivers.Console.Bounds.{IsReady, console_write-IsReady}

-- Two columns and two rows.
abbrev blank : Console
blank = record {
  cursor_x = 0;
  cursor_y = 0;
  width_char = 2;
  height_char = 2;
  color = 7;
  term_buffer = λ a. 0;
  queue = [];
  drawn = [];
}

blank-IsReady : IsReady 2 2 blank
blank-IsReady = record {
  inside = record {
    width = refl;
    height = refl;
    wide = omega arith;
    high = omega arith;
    room = omega arith;
    queued = tt;
    shown = tt;
    row = omega arith;
  };
  column = omega arith;
}

console_write_example :
    IsReady 2 2 (console_write (b'a' ∷ b'b' ∷ b'c' ∷ 10 ∷ b'd' ∷ []) blank)
    × (length (console_write (b'a' ∷ b'b' ∷ b'c' ∷ 10 ∷ b'd' ∷ []) blank).queue ≡ 0)
console_write_example =
    console_write-IsReady 2 2 (b'a' ∷ b'b' ∷ b'c' ∷ 10 ∷ b'd' ∷ []) blank blank-IsReady
