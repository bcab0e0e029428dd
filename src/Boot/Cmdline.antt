-- ===== src/Boot/Cmdline.antt =====
-- The kernel command line of kernel/src/boot/cmdline.c. A string is the list of its bytes up to the
-- NUL, and `kernel_cmdline` the list of its words. kzalloc does not fail.
pub mod Laws
use goofyos.Base.{
  ℕ, zero, suc, Bool, true, false, List, [], ◌∷◌, ◌++◌, Option, none, some, leb, ltb, ◌==◌,
  if◌then◌else◌, length,
}

abbrev pub max_cmdline_command : ℕ
max_cmdline_command = 512

abbrev pub and_then : List ℕ → Option (List (List ℕ)) → Option (List (List ℕ))
and_then word none = none
and_then word (some args) = some (word ∷ args)

-- The loop of build_args with `word` in `curr_word`; `none` is a write behind its end.
unfoldable pub build_from : List ℕ → List ℕ → Option (List (List ℕ))
build_from word [] = if leb max_cmdline_command (length word) then none else some (word ∷ [])
build_from word (c ∷ cmd) =
    let next : Option (List (List ℕ)) = and_then word (build_from [] cmd) in
    let longer : Option (List (List ℕ)) = build_from (word ++ c ∷ []) cmd in
    if leb max_cmdline_command (length word) then none else if c == b' ' then next else longer

unfoldable pub build_args : List ℕ → Option (List (List ℕ))
build_args cmd = build_from [] cmd

-- What stands in front of the first `=`.
unfoldable pub make_key : List ℕ → List ℕ
make_key [] = []
make_key (c ∷ current) = if c == b'=' then [] else c ∷ make_key current

-- What stands behind the first `=`.
unfoldable pub make_val : List ℕ → List ℕ
make_val [] = []
make_val (c ∷ current) = if c == b'=' then current else make_val current

-- `!strncmp(key, query, n)`
unfoldable pub same_start : ℕ → List ℕ → List ℕ → Bool
same_start zero key query = true
same_start (suc n) [] [] = true
same_start (suc n) [] (d ∷ query) = false
same_start (suc n) (c ∷ key) [] = false
same_start (suc n) (c ∷ key) (d ∷ query) = if c == d then same_start n key query else false

-- `curr->arg + keylen`
abbrev pub behind_key : ℕ → List ℕ → List ℕ
behind_key zero arg = arg
behind_key (suc n) [] = []
behind_key (suc n) (c ∷ arg) = behind_key n arg

-- `none` is NULL.
unfoldable pub find_cmdline : List ℕ → List (List ℕ) → Option (List ℕ)
find_cmdline query [] = none
find_cmdline query (arg ∷ args) =
    if same_start max_cmdline_command (make_key arg) query
    then some (make_val (behind_key (length (make_key arg)) arg))
    else find_cmdline query args

unfoldable pub cmdline_contains : List ℕ → List (List ℕ) → Bool
cmdline_contains query args = is_found (find_cmdline query args)
  where
    is_found : Option (List ℕ) → Bool
    is_found none = false
    is_found (some _) = true
