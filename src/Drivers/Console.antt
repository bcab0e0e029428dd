-- ===== src/Drivers/Console.antt =====
-- The text console of kernel/src/drivers/fbconsole.c: the cell buffer, the queue of glyphs to draw
-- and the cursor. Drawing is the list of the items that put_glyph is called with.
pub mod Bounds
pub mod Redraw
use Prim.Native.Nat.{bit_and}
use goofyos.Base.{
  ℕ, zero, suc, ◌+◌, ◌-◌, ◌*◌, ◌/◌, ◌%◌, ◌^◌, Bool, true, false, ◌&&◌, ◌||◌, List, [], ◌∷◌, ◌++◌,
  ◌==◌, ltb, leb, if◌then◌else◌, length,
}

-- `struct fbconsole_queue_item`
pub record Item : Type 0 where
  pub x : ℕ
  pub y : ℕ
  pub c : ℕ
  pub col : ℕ

-- `term_buffer` by index; `queue` holds the first `queue_items` entries; `drawn` is what has been
-- passed to put_glyph, the latest last.
pub record Console : Type 0 where
  pub cursor_x : ℕ
  pub cursor_y : ℕ
  pub width_char : ℕ
  pub height_char : ℕ
  pub color : ℕ
  pub term_buffer : ℕ → ℕ
  pub queue : List Item
  pub drawn : List Item

unfoldable pub console_flush : Console → Console
console_flush s = record s { queue = []; drawn = s.drawn ++ s.queue }

abbrev pub to_ℕ : Bool → ℕ
to_ℕ true = 1
to_ℕ false = 0

abbrev pub cell : Console → Item → ℕ
cell s i = i.y * s.width_char + i.x

-- `*target & 0xff == c && *target >> 8 == col`, where `==` binds tighter than `&`.
unfoldable pub is_drawn : ℕ → Item → Bool
is_drawn target i =
    (if bit_and target (to_ℕ (0xff == i.c)) == 0 then false else true) && (target / 2 ^ 8 == i.col)

-- `c | (col << 8)` is a sum for bytes.
-- The queue is flushed when it is full.
unfoldable pub make_room : Console → Console
make_room s = if leb (s.width_char * s.height_char) (length s.queue) then console_flush s else s

-- `c | (col << 8)` is a sum for bytes.
unfoldable pub enqueue : Item → Console → Console
enqueue i s = record s {
  term_buffer = λ a. if cell s i == a then i.c + i.col * 2 ^ 8 else s.term_buffer a;
  queue = s.queue ++ i ∷ [];
}

unfoldable pub queue_push : Item → Console → Console
queue_push i s = if is_drawn (s.term_buffer (cell s i)) i then s else enqueue i (make_room s)

-- The inner loop of scroll over the columns from `j` on, with `left` rounds left.
unfoldable pub scroll_row : ℕ → ℕ → ℕ → Console → Console
scroll_row zero i j s = s
scroll_row (suc left) i j s =
    let tar : ℕ = s.term_buffer (i * s.width_char + j) in
    scroll_row left i (j + 1)
      (queue_push (record { c = tar % 2 ^ 8; col = tar / 2 ^ 8; x = j; y = i - 1 }) s)

-- The outer loop over the rows from `i` on.
unfoldable pub scroll_rows : ℕ → ℕ → Console → Console
scroll_rows zero i s = s
scroll_rows (suc left) i s = scroll_rows left (i + 1) (scroll_row s.width_char i 0 s)

unfoldable pub clear_row : ℕ → ℕ → Console → Console
clear_row zero j s = s
clear_row (suc left) j s =
    clear_row left (j + 1)
      (queue_push (record { c = b' '; col = s.color; x = j; y = s.height_char - 1 }) s)

unfoldable pub scroll : Console → Console
scroll s =
    let t : Console = scroll_rows (s.height_char - 1) 1 s in
    record (clear_row s.width_char 0 t) { cursor_x = 0 }

unfoldable pub console_carriage_return : Console → Console
console_carriage_return s =
    if leb s.height_char (s.cursor_y + 1)
    then scroll s
    else record s { cursor_x = 0; cursor_y = s.cursor_y + 1 }

unfoldable pub console_write_glyph : ℕ → Console → Console
console_write_glyph c s =
    queue_push (record { c = c; x = s.cursor_x; y = s.cursor_y; col = s.color }) s

-- `fbcon.cursor_x++`
unfoldable pub step_right : Console → Console
step_right s = record s { cursor_x = s.cursor_x + 1 }

-- The second test of the loop of console_write.
unfoldable pub wrap_line : ℕ → Console → Console
wrap_line cur s =
    if leb s.width_char s.cursor_x || (cur == 0x0a) then console_carriage_return s else s

-- The body of the loop of console_write for the byte `cur`.
unfoldable pub write_byte : ℕ → Console → Console
write_byte cur s =
    wrap_line cur
      (if leb 0x20 cur && ltb cur 0x80 then step_right (console_write_glyph cur s) else s)

-- The loop over the bytes of the string.
unfoldable pub write_bytes : List ℕ → Console → Console
write_bytes [] s = s
write_bytes (c ∷ str) s = write_bytes str (write_byte c s)

unfoldable pub console_write : List ℕ → Console → Console
console_write str s = console_flush (write_bytes str s)
