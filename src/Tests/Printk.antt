-- ===== src/Tests/Printk.antt =====
-- Runs of the theorems on kernel/src/libk/printk.c.
use goofyos.Base.{◌≡◌, refl, arith, [], ◌∷◌, false}
use goofyos.Base.Int.{negsuc}
use goofyos.Libk.Printk.Text.{integer_text}
use goofyos.Libk.Printk.Format.{Arg, integer, emit, _vsprintf}
use goofyos.Libk.Printk.Format.Laws.{right_aligned, as_decimal, _vsprintf_directive}

abbrev forty_two : Arg
forty_two = integer (negsuc 41)

-- `a%10d.`
directive_example :
    _vsprintf 9 (b'a' ∷ b'%' ∷ b'1' ∷ b'0' ∷ b'd' ∷ b'.' ∷ []) (forty_two ∷ [])
    ≡ emit
        (b'a' ∷ right_aligned 11 (integer_text 10 false (negsuc 41)))
        (_vsprintf 7 (b'.' ∷ []) [])
directive_example =
    _vsprintf_directive (b'a' ∷ []) (b'1' ∷ b'0' ∷ []) (b'.' ∷ []) b'd' 7 forty_two
      (integer_text 10 false (negsuc 41)) [] (refl, tt) (refl, (refl, tt)) (omega arith)
      (as_decimal (negsuc 41) (omega arith))
