-- ===== src/Drivers/Console/Bounds.antt =====
-- The console of kernel/src/drivers/fbconsole.c stays within its buffers.
use goofyos.Base.{
  ℕ, zero, suc, ◌+◌, ◌-◌, ◌*◌, ◌/◌, ◌%◌, ◌^◌, ◌≤◌, ◌<◌, ◌≡◌, refl, Bool, true, false, ◌&&◌, ◌||◌,
  List, [], ◌∷◌, ◌++◌, arith, inl, inr, Bool-cases, ◌==◌, ltb, leb, length, length-append, All,
  leb→gt, sym,
}
use goofyos.Drivers.Console.{
  Item, Console, console_flush, cell, is_drawn, make_room, enqueue, queue_push, scroll_row,
  scroll_rows, clear_row, scroll, console_carriage_return, console_write_glyph, step_right,
  wrap_line, write_byte, write_bytes, console_write,
}

-- An item lies on a screen of `w` by `h` characters.
abbrev pub Fits : ℕ → ℕ → Item → Type 0
Fits w h i = (i.x < w) × (i.y < h)

-- The screen is not empty, the queue fits its buffer, and what is queued or drawn lies on the screen.
pub record InBounds (w h : ℕ) (s : Console) : Type 0 where
  pub width : s.width_char ≡ w
  pub height : s.height_char ≡ h
  pub wide : 0 < w
  pub high : 0 < h
  pub room : length s.queue ≤ w * h
  pub queued : All (Fits w h) s.queue
  pub shown : All (Fits w h) s.drawn
  pub row : s.cursor_y < h

-- The cursor is on the screen too.
pub record IsReady (w h : ℕ) (s : Console) : Type 0 where
  pub inside : InBounds w h s
  pub column : s.cursor_x < w

All-append : (P : Item → Type 0) (xs ys : List Item) → All P xs → All P ys → All P (xs ++ ys)
All-append P [] ys a b = b
All-append P (x ∷ xs) ys a b = (a.0, All-append P xs ys a.1 b)

pub console_flush-InBounds :
    (w h : ℕ) (s : Console) → InBounds w h s → InBounds w h (console_flush s)
unfolding console_flush
console_flush-InBounds w h s b = record {
  width = b.width;
  height = b.height;
  wide = b.wide;
  high = b.high;
  room = omega arith;
  queued = tt;
  shown = All-append (Fits w h) s.drawn s.queue b.shown b.queued;
  row = b.row;
}

positive : (w h : ℕ) → 0 < w → 0 < h → 0 < w * h
positive w h p q = grind arith

make_room-InBounds : (w h : ℕ) (s : Console) → InBounds w h s → InBounds w h (make_room s)
unfolding make_room
make_room-InBounds w h s b =
    elim (Bool-cases (leb (s.width_char * s.height_char) (length s.queue))) [
      | inl e ↦ rw e (console_flush-InBounds w h s b)
      | inr e ↦ rw e b
    ]

flush_empty : (s : Console) → length (console_flush s).queue ≡ 0
unfolding console_flush
flush_empty s = refl

make_room-free : (w h : ℕ) (s : Console) → InBounds w h s → length (make_room s).queue < w * h
unfolding make_room
make_room-free w h s b =
    let p = positive w h b.wide b.high in
    elim (Bool-cases (leb (s.width_char * s.height_char) (length s.queue))) [
      | inl e ↦ rw (e, flush_empty s) p
      | inr e ↦
          rw (e, sym b.width, sym b.height)
            (leb→gt (s.width_char * s.height_char) (length s.queue) e)
    ]

enqueue-InBounds :
    (w h : ℕ) (i : Item) (s : Console)
    → InBounds w h s
    → length s.queue < w * h
    → Fits w h i
    → InBounds w h (enqueue i s)
unfolding enqueue
enqueue-InBounds w h i s b r f =
    let l = length-append s.queue (i ∷ []) in
    record {
      width = b.width;
      height = b.height;
      wide = b.wide;
      high = b.high;
      room = rw l (omega arith);
      queued = All-append (Fits w h) s.queue (i ∷ []) b.queued (f, tt);
      shown = b.shown;
      row = b.row;
    }

pub queue_push-InBounds :
    (w h : ℕ) (i : Item) (s : Console) → InBounds w h s → Fits w h i → InBounds w h (queue_push i s)
unfolding queue_push
queue_push-InBounds w h i s b f = elim (Bool-cases (is_drawn (s.term_buffer (cell s i)) i)) [
  | inl e ↦ rw e b
  | inr e ↦
      rw e (
        enqueue-InBounds w h i (make_room s) (make_room-InBounds w h s b) (make_room-free w h s b)
          f)
]

-- A push leaves the cursor alone.
queue_push-cursor_x : (i : Item) (s : Console) → (queue_push i s).cursor_x ≡ s.cursor_x
unfolding queue_push enqueue make_room console_flush
queue_push-cursor_x i s = ground arith

scroll_row-InBounds :
    (left w h i j : ℕ) (s : Console)
    → InBounds w h s
    → i - 1 < h
    → j + left ≤ w
    → InBounds w h (scroll_row left i j s)
unfolding scroll_row
scroll_row-InBounds zero w h i j s b p q = b
scroll_row-InBounds (suc left) w h i j s b p q =
    let tar : ℕ = s.term_buffer (i * s.width_char + j) in
    scroll_row-InBounds left w h i (j + 1)
      (queue_push (record { c = tar % 2 ^ 8; col = tar / 2 ^ 8; x = j; y = i - 1 }) s)
      (queue_push-InBounds w h (record { c = tar % 2 ^ 8; col = tar / 2 ^ 8; x = j; y = i - 1 }) s b
        (omega arith, p))
      p (omega arith)

scroll_rows-InBounds :
    (left w h i : ℕ) (s : Console)
    → InBounds w h s
    → i + left ≤ h
    → InBounds w h (scroll_rows left i s)
unfolding scroll_rows
scroll_rows-InBounds zero w h i s b p = b
scroll_rows-InBounds (suc left) w h i s b p =
    scroll_rows-InBounds left w h (i + 1) (scroll_row s.width_char i 0 s)
      (scroll_row-InBounds s.width_char w h i 0 s b (omega arith) (let q = b.width in omega arith))
      (omega arith)

clear_row-InBounds :
    (left w h j : ℕ) (s : Console)
    → InBounds w h s
    → j + left ≤ w
    → InBounds w h (clear_row left j s)
unfolding clear_row
clear_row-InBounds zero w h j s b q = b
clear_row-InBounds (suc left) w h j s b q =
    let i : Item = record { c = b' '; col = s.color; x = j; y = s.height_char - 1 } in
    let e = b.height in
    let n = b.high in
    clear_row-InBounds left w h (j + 1) (queue_push i s)
      (queue_push-InBounds w h i s b (omega arith, omega arith)) (omega arith)

move_x-InBounds :
    (w h x : ℕ) (s : Console) → InBounds w h s → InBounds w h (record s { cursor_x = x })
move_x-InBounds w h x s b = record {
  width = b.width;
  height = b.height;
  wide = b.wide;
  high = b.high;
  room = b.room;
  queued = b.queued;
  shown = b.shown;
  row = b.row;
}

pub scroll-IsReady : (w h : ℕ) (s : Console) → InBounds w h s → IsReady w h (scroll s)
unfolding scroll
scroll-IsReady w h s b =
    let e = b.height in
    let n = b.high in
    let t : Console = scroll_rows (s.height_char - 1) 1 s in
    record {
      inside = move_x-InBounds w h 0 (clear_row s.width_char 0 t) (
          clear_row-InBounds s.width_char w h 0 t
            (scroll_rows-InBounds (s.height_char - 1) w h 1 s b (omega arith))
            (let q = b.width in omega arith));
      column = b.wide;
    }

next_row :
    (w h : ℕ) (s : Console)
    → InBounds w h s
    → s.cursor_y + 1 < h
    → InBounds w h (record s { cursor_x = 0; cursor_y = s.cursor_y + 1 })
next_row w h s b p = record {
  width = b.width;
  height = b.height;
  wide = b.wide;
  high = b.high;
  room = b.room;
  queued = b.queued;
  shown = b.shown;
  row = p;
}

pub console_carriage_return-IsReady :
    (w h : ℕ) (s : Console) → InBounds w h s → IsReady w h (console_carriage_return s)
unfolding console_carriage_return
console_carriage_return-IsReady w h s b = elim (Bool-cases (leb s.height_char (s.cursor_y + 1))) [
  | inl e ↦ rw e (scroll-IsReady w h s b)
  | inr e ↦ rw e (record {
    inside = next_row w h s b (rw (sym b.height) (leb→gt s.height_char (s.cursor_y + 1) e));
    column = b.wide;
  })
]

console_write_glyph-InBounds :
    (w h c : ℕ) (s : Console) → IsReady w h s → InBounds w h (step_right (console_write_glyph c s))
unfolding console_write_glyph step_right
console_write_glyph-InBounds w h c s r =
    let i : Item = record { c = c; x = s.cursor_x; y = s.cursor_y; col = s.color } in
    move_x-InBounds w h ((queue_push i s).cursor_x + 1) (queue_push i s)
      (queue_push-InBounds w h i s r.inside (r.column, r.inside.row))

or_left : (a b : Bool) → (a || b) ≡ false → a ≡ false
or_left false b e = refl
or_left true b e = e

wrap_line-IsReady : (w h cur : ℕ) (s : Console) → InBounds w h s → IsReady w h (wrap_line cur s)
unfolding wrap_line
wrap_line-IsReady w h cur s b = elim (Bool-cases (leb s.width_char s.cursor_x || (cur == 0x0a))) [
  | inl e ↦ rw e (console_carriage_return-IsReady w h s b)
  | inr e ↦ rw e (record {
    inside = b;
    column =
        rw (sym b.width)
          (leb→gt s.width_char s.cursor_x (or_left (leb s.width_char s.cursor_x) (cur == 0x0a) e));
  })
]

write_byte-IsReady : (w h cur : ℕ) (s : Console) → IsReady w h s → IsReady w h (write_byte cur s)
unfolding write_byte
write_byte-IsReady w h cur s r = elim (Bool-cases (leb 0x20 cur && ltb cur 0x80)) [
  | inl e ↦ rw e (
      wrap_line-IsReady w h cur (step_right (console_write_glyph cur s))
        (console_write_glyph-InBounds w h cur s r))
  | inr e ↦ rw e (wrap_line-IsReady w h cur s r.inside)
]

write_bytes-IsReady :
    (w h : ℕ) (str : List ℕ) (s : Console) → IsReady w h s → IsReady w h (write_bytes str s)
unfolding write_bytes
write_bytes-IsReady w h [] s r = r
write_bytes-IsReady w h (c ∷ str) s r =
    write_bytes-IsReady w h str (write_byte c s) (write_byte-IsReady w h c s r)

flush-IsReady : (w h : ℕ) (s : Console) → IsReady w h s → IsReady w h (console_flush s)
unfolding console_flush
flush-IsReady w h s r = record { inside = console_flush-InBounds w h s r.inside; column = r.column }

-- On a console whose cursor and whose queued and drawn items lie on its screen and whose queue fits
-- its buffer, console_write leaves these true for any string, and leaves the queue empty.
pub console_write-IsReady :
    (w h : ℕ) (str : List ℕ) (s : Console)
    → IsReady w h s
    → IsReady w h (console_write str s) × (length (console_write str s).queue ≡ 0)
unfolding console_write
console_write-IsReady w h str s r = (
  flush-IsReady w h (write_bytes str s) (write_bytes-IsReady w h str s r),
  flush_empty (write_bytes str s),
)
