-- ===== src/Boot/Cmdline/Laws.antt =====
-- The words of a command line of kernel/src/boot/cmdline.c and the value of a key.
use goofyos.Base.{
  ℕ, zero, suc, ◌+◌, ◌≡◌, ◌≢◌, ◌<◌, refl, sym, ◌∙◌, ap, true, false, List, [], ◌∷◌, ◌++◌, some, leb,
  ◌==◌, length, All, arith, Bool-cases, inl, inr, length-append, ==→eq, ==_self,
}
use goofyos.Boot.Cmdline.{
  max_cmdline_command, and_then, build_from, build_args, make_key, make_val, same_start, behind_key,
  find_cmdline,
}

-- The words with one space between them.
unfoldable pub joined : List ℕ → List (List ℕ) → List ℕ
joined word [] = word
joined word (next ∷ words) = word ++ b' ' ∷ joined next words

-- A word has no space in it and fits the buffer.
abbrev pub IsWord : List ℕ → Type 0
IsWord word = All (λ c. (c == b' ') ≡ false) word × (length word < max_cmdline_command)

fits : (n : ℕ) → n < max_cmdline_command → leb max_cmdline_command n ≡ false
fits n h = ground arith

append-nil : (xs : List ℕ) → xs ++ [] ≡ xs
append-nil [] = refl
append-nil (x ∷ xs) = ap (λ t. x ∷ t) (append-nil xs)

append_letter : (xs : List ℕ) (c : ℕ) (ys : List ℕ) → (xs ++ c ∷ []) ++ ys ≡ xs ++ c ∷ ys
append_letter [] c ys = refl
append_letter (x ∷ xs) c ys = ap (λ t. x ∷ t) (append_letter xs c ys)

-- The letters of a word go behind those that are in the buffer.
build_word :
    (front word rest : List ℕ)
    → All (λ c. (c == b' ') ≡ false) word
    → length front + length word < max_cmdline_command
    → build_from front (word ++ rest) ≡ build_from (front ++ word) rest
unfolding build_from
build_word front [] rest w h = ap (λ d. build_from d rest) (sym (append-nil front))
build_word front (c ∷ word) rest w h =
    rw (fits (length front) (omega arith), w.0)
      (build_word (front ++ c ∷ []) word rest w.1 (omega (arith, length-append front (c ∷ [])))
        ∙ ap (λ d. build_from d rest) (append_letter front c word))

build_end :
    (word : List ℕ) → length word < max_cmdline_command → build_from word [] ≡ some (word ∷ [])
unfolding build_from
build_end word h = rw (fits (length word) h) refl

build_space :
    (word cmd : List ℕ)
    → length word < max_cmdline_command
    → build_from word (b' ' ∷ cmd) ≡ and_then word (build_from [] cmd)
unfolding build_from
build_space word cmd h = rw (fits (length word) h) refl

build_from-joined :
    (word : List ℕ) (words : List (List ℕ))
    → IsWord word
    → All IsWord words
    → build_from [] (joined word words) ≡ some (word ∷ words)
unfolding joined
build_from-joined word [] w ws =
    ap (build_from []) (sym (append-nil word))
    ∙ build_word [] word [] w.0 (omega (arith, w.1))
    ∙ build_end word w.1
build_from-joined word (next ∷ words) w ws =
    build_word [] word (b' ' ∷ joined next words) w.0 (omega (arith, w.1))
    ∙ build_space word (joined next words) w.1
    ∙ ap (and_then word) (build_from-joined next words ws.0 ws.1)

-- build_args splits words that are joined by single spaces into these words, empty ones included,
-- if each of them is shorter than the buffer.
pub build_args-joined :
    (word : List ℕ) (words : List (List ℕ))
    → IsWord word
    → All IsWord words
    → build_args (joined word words) ≡ some (word ∷ words)
unfolding build_args
build_args-joined word words w ws = build_from-joined word words w ws

make_key-append :
    (key val : List ℕ) → All (λ c. (c == b'=') ≡ false) key → make_key (key ++ b'=' ∷ val) ≡ key
unfolding make_key
make_key-append [] val k = refl
make_key-append (c ∷ key) val k = rw (k.0, make_key-append key val k.1) refl

behind_key-append : (key rest : List ℕ) → behind_key (length key) (key ++ rest) ≡ rest
behind_key-append [] rest = refl
behind_key-append (c ∷ key) rest = behind_key-append key rest

make_val_lem : (val : List ℕ) → make_val (b'=' ∷ val) ≡ val
unfolding make_val
make_val_lem val = refl

same_start_self : (n : ℕ) (key : List ℕ) → same_start n key key ≡ true
unfolding same_start
same_start_self zero key = refl
same_start_self (suc n) [] = refl
same_start_self (suc n) (c ∷ key) = rw (==_self c) (same_start_self n key)

same_start_sound :
    (n : ℕ) (key query : List ℕ) → length key < n → same_start n key query ≡ true → key ≡ query
unfolding same_start
same_start_sound zero key query h e = absurd (omega arith)
same_start_sound (suc n) [] [] h e = refl
same_start_sound (suc n) [] (d ∷ query) h e = absurd (ground arith)
same_start_sound (suc n) (c ∷ key) [] h e = absurd (ground arith)
same_start_sound (suc n) (c ∷ key) (d ∷ query) h e = elim (Bool-cases (c == d)) [
  | inl same ↦
      let tails = same_start_sound n key query (omega arith) (rw same at e) in
      let heads = ==→eq c d same in rw (heads, tails) refl
  | inr other ↦ absurd (ground (arith, rw other at e))
]

-- An argument whose key is another one.
abbrev pub IsOther : List ℕ → List ℕ → Type 0
IsOther query arg = (make_key arg ≢ query) × (length (make_key arg) < max_cmdline_command)

other_start :
    (query arg : List ℕ)
    → IsOther query arg
    → same_start max_cmdline_command (make_key arg) query ≡ false
other_start query arg o = elim (Bool-cases (same_start max_cmdline_command (make_key arg) query)) [
  | inl e ↦ absurd (o.0 (same_start_sound max_cmdline_command (make_key arg) query o.1 e))
  | inr f ↦ f
]

-- find_cmdline finds the value of the first argument that has the key it is asked for: what stands
-- behind that argument's first `=`, if the keys in front are others and fit the buffer.
pub find_cmdline_lem :
    (query val : List ℕ) (args rest : List (List ℕ))
    → All (λ c. (c == b'=') ≡ false) query
    → All (IsOther query) args
    → find_cmdline query (args ++ (query ++ b'=' ∷ val) ∷ rest) ≡ some val
unfolding find_cmdline
find_cmdline_lem query val [] rest k o =
    rw
      (
        make_key-append query val k,
        same_start_self max_cmdline_command query,
        behind_key-append query (b'=' ∷ val),
        make_val_lem val,
      )
      refl
find_cmdline_lem query val (arg ∷ args) rest k o =
    rw (other_start query arg o.0) (find_cmdline_lem query val args rest k o.1)
