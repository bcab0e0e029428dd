-- ===== src/Tests/Data.antt =====
-- A small memory for the tests of kernel/src/libk.
use goofyos.Base.{ℕ, ◌+◌, List, [], ◌∷◌, arith, ◌==◌, if◌then◌else◌}
use goofyos.Libk.Memory.{Mem}
use goofyos.Libk.Memory.Copy.{IsBytes}

-- The bytes `xs` from `a` on, and 0 elsewhere.
abbrev pub text_at : ℕ → List ℕ → Mem
text_at a [] b = 0
text_at a (x ∷ xs) b = if a == b then x else text_at (a + 1) xs b

-- `abc` at 100
abbrev pub abc : Mem
abc = text_at 100 (b'a' ∷ b'b' ∷ b'c' ∷ [])

pub abc-IsBytes : IsBytes abc
abc-IsBytes a = ground arith
