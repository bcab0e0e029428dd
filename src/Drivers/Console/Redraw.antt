-- ===== src/Drivers/Console/Redraw.antt =====
-- The test in queue_push of kernel/src/drivers/fbconsole.c that is meant to skip a cell which already
-- shows the glyph.
use goofyos.Base.{ℕ, ◌<◌, ◌≡◌, refl, false, ◌==◌, arith}
use goofyos.Drivers.Console.{Item, Console, cell, is_drawn, make_room, enqueue, queue_push}
use goofyos.Base.Bits.{bit_and-zero}

not_eof : (c : ℕ) → c < 0xff → (0xff == c) ≡ false
not_eof c p = ground arith

is_drawn-false : (target : ℕ) (i : Item) → i.c < 0xff → is_drawn target i ≡ false
unfolding is_drawn
is_drawn-false target i p = rw (not_eof i.c p) rw (bit_and-zero target) refl

-- For a glyph below 0xff, queue_push queues it and writes its cell whatever the cell held: the test
-- never finds that the glyph is on the screen already.
pub queue_push-redraws :
    (i : Item) (s : Console) → i.c < 0xff → queue_push i s ≡ enqueue i (make_room s)
unfolding queue_push
queue_push-redraws i s p = rw (is_drawn-false (s.term_buffer (cell s i)) i p) refl
