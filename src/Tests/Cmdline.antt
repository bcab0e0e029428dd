-- ===== src/Tests/Cmdline.antt =====
-- Runs of the theorems on kernel/src/boot/cmdline.c.
use goofyos.Base.{ℕ, ◌≡◌, refl, arith, List, [], ◌∷◌, ◌++◌, some}
use goofyos.Boot.Cmdline.{build_args}
use goofyos.Boot.Cmdline.Laws.{joined, IsWord, build_args-joined}

-- `ro` and `id=7`
abbrev ro : List ℕ
ro = b'r' ∷ b'o' ∷ []

abbrev id : List ℕ
id = b'i' ∷ b'd' ∷ []

abbrev id_7 : List ℕ
id_7 = id ++ b'=' ∷ b'7' ∷ []

ro-IsWord : IsWord ro
ro-IsWord = ((refl, (refl, tt)), omega arith)

id_7-IsWord : IsWord id_7
id_7-IsWord = ((refl, (refl, (refl, (refl, tt)))), omega arith)

build_args_example : build_args (joined ro (id_7 ∷ [])) ≡ some (ro ∷ id_7 ∷ [])
build_args_example = build_args-joined ro (id_7 ∷ []) ro-IsWord (id_7-IsWord, tt)
