-- ===== src/Dsa/Hashmap/Lookup.antt =====
-- The hash map of kernel/src/dsa/hashmap.c as a finite map.
use goofyos.Base.{
  ℕ, ◌%◌, ◌≡◌, ◌∙◌, ◌<◌, refl, sym, ap, true, false, List, [], ◌∷◌, ◌++◌, Option, none, some, leb,
  ◌==◌, if◌then◌else◌, arith, Bool-cases, inl, inr, ==→eq, ==_self, leb→le,
}
use goofyos.Dsa.Hashmap.{
  Entry, Hashmap, same_key, hmap_init, insert_entry, hmap_add, find_entry, hmap_lookup, drop_entry,
  hmap_remove,
}

pub same_key_self : (key : List ℕ) → same_key key key ≡ true
unfolding same_key
same_key_self [] = refl
same_key_self (c ∷ key) = rw (==_self c) (same_key_self key)

pub same_key_sound : (key key' : List ℕ) → same_key key key' ≡ true → key ≡ key'
unfolding same_key
same_key_sound [] [] e = refl
same_key_sound [] (d ∷ key') e = absurd (false-true e)
  where
    false-true : false ≡ true → ⊥
    false-true x = cc
same_key_sound (c ∷ key) [] e = absurd (false-true e)
  where
    false-true : false ≡ true → ⊥
    false-true x = cc
same_key_sound (c ∷ key) (d ∷ key') e = elim (Bool-cases (c == d)) [
  | inl same ↦
      let heads = ==→eq c d same in
      let tails = same_key_sound key key' (rw same at e) in rw (heads, tails) refl
  | inr other ↦ absurd (false-true (rw other at e))
]
  where
    false-true : false ≡ true → ⊥
    false-true x = cc

-- The value that stands, or another where there is none.
abbrev pub or_else {ℓ} : {A : Type ℓ} → Option A → Option A → Option A
or_else none other = other
or_else (some a) other = some a

module _ {ℓ} {V : Type ℓ} where
  -- Every operation of a map that starts empty finds count below the size.
  pub record IsInitial (m : Hashmap V) : Type ℓ where
    pub count : m.count ≡ 0
    pub room : 0 < m.size

  pub hmap_init-IsInitial : IsInitial hmap_init
  unfolding hmap_init
  hmap_init-IsInitial = record { count = refl; room = omega arith }

  pub hmap_lookup-init : (key : List ℕ) → hmap_lookup {V = V} key hmap_init ≡ none
  unfolding hmap_lookup hmap_init find_entry
  hmap_lookup-init key = refl

  find_entry-append :
      (key : List ℕ) (es : List (Entry V)) (e : Entry V)
      → find_entry key (es ++ e ∷ [])
        ≡ or_else (find_entry key es) (if same_key key e.key then some e.value else none)
  unfolding find_entry
  find_entry-append key [] e = refl
  find_entry-append key (d ∷ es) e = elim (Bool-cases (same_key key d.key)) [
    | inl h ↦ rw h refl
    | inr h ↦ rw h (find_entry-append key es e)
  ]

  pub or_else-none : (a : Option V) → or_else a none ≡ a
  or_else-none none = refl
  or_else-none (some v) = refl

  in_bucket :
      (key key' : List ℕ) (m : Hashmap V)
      → m.hash_func key' % m.size == m.hash_func key % m.size ≡ false
      → same_key key key' ≡ false
  in_bucket key key' m h = elim (Bool-cases (same_key key key')) [
    | inl same ↦ absurd (differ (same_key_sound key key' same))
    | inr other ↦ other
  ]
    where
      false-true : false ≡ true → ⊥
      false-true x = cc

      differ : key ≡ key' → ⊥
      differ e = false-true (sym h ∙ rw e (==_self (m.hash_func key' % m.size)))

  hmap_lookup-insert :
      (key key' : List ℕ) (v : V) (m : Hashmap V)
      → hmap_lookup key (insert_entry key' v m)
        ≡ or_else (hmap_lookup key m) (if same_key key key' then some v else none)
  unfolding hmap_lookup insert_entry
  hmap_lookup-insert key key' v m =
      elim (Bool-cases (m.hash_func key' % m.size == m.hash_func key % m.size)) [
        | inl h ↦ rw h (find_entry-append key (m.buf (m.hash_func key % m.size)) _)
        | inr h ↦
            rw (h, in_bucket key key' m h)
              (sym (or_else-none (find_entry key (m.buf (m.hash_func key % m.size)))))
      ]

  find_entry-drop :
      (key key' : List ℕ) (es : List (Entry V))
      → same_key key key' ≡ false
      → find_entry key (drop_entry key' es) ≡ find_entry key es
  unfolding find_entry drop_entry
  find_entry-drop key key' [] d = refl
  find_entry-drop key key' (e ∷ es) d = elim (Bool-cases (same_key key' e.key)) [
    | inl h ↦
        let other : same_key key e.key ≡ false = rw (sym (same_key_sound key' e.key h)) d in
        rw (h, other) refl
    | inr h ↦ rw h (elim (Bool-cases (same_key key e.key)) [
      | inl g ↦ rw g refl
      | inr g ↦ rw g (find_entry-drop key key' es d)
    ])
  ]

  -- Dropping the key that was appended last gives the bucket back.
  drop_entry-append :
      (key : List ℕ) (es : List (Entry V)) (e : Entry V)
      → same_key key e.key ≡ true
      → find_entry key es ≡ none
      → drop_entry key (es ++ e ∷ []) ≡ es
  unfolding find_entry drop_entry
  drop_entry-append key [] e s f = rw s refl
  drop_entry-append key (d ∷ es) e s f = elim (Bool-cases (same_key key d.key)) [
    | inl h ↦ absurd (none_some (rw h at f))
    | inr h ↦ rw h (ap (λ l. d ∷ l) (drop_entry-append key es e s (rw h at f)))
  ]
    where
      none_some : some d.value ≡ none → ⊥
      none_some x = cc

  -- The resizing branch is not taken.
  hmap_add-insert :
      (key : List ℕ) (v : V) (m : Hashmap V)
      → IsInitial m
      → hmap_add key v m ≡ some (insert_entry key v m)
  unfolding hmap_add
  hmap_add-insert key v m i =
      let fits : leb m.size m.count ≡ false = elim (Bool-cases (leb m.size m.count)) [
        | inl h ↦
            let small = leb→le m.size m.count h in
            let none_yet = i.count in let room = i.room in absurd (omega arith)
        | inr h ↦ h
      ] in
      rw fits refl

  hmap_lookup-remove :
      (key key' : List ℕ) (m : Hashmap V)
      → same_key key key' ≡ false
      → hmap_lookup key (hmap_remove key' m) ≡ hmap_lookup key m
  unfolding hmap_lookup hmap_remove
  hmap_lookup-remove key key' m d =
      elim (Bool-cases (m.hash_func key' % m.size == m.hash_func key % m.size)) [
        | inl h ↦ rw h (find_entry-drop key key' (m.buf (m.hash_func key % m.size)) d)
        | inr h ↦ rw h refl
      ]

  -- What an insertion leaves, and what later operations need.
  pub record Adds (key : List ℕ) (v : V) (m m' : Hashmap V) : Type ℓ where
    pub added : hmap_add key v m ≡ some m'
    pub initial : IsInitial m'
    pub found :
        (other : List ℕ)
        → hmap_lookup other m'
          ≡ or_else (hmap_lookup other m) (if same_key other key then some v else none)
    pub removed :
        hmap_lookup key m ≡ none
        → (other : List ℕ) → hmap_lookup other (hmap_remove key m') ≡ hmap_lookup other m

  remove-insert :
      (key : List ℕ) (v : V) (m : Hashmap V)
      → hmap_lookup key m ≡ none
      → (other : List ℕ)
      → hmap_lookup other (hmap_remove key (insert_entry key v m)) ≡ hmap_lookup other m
  unfolding hmap_lookup insert_entry hmap_remove
  remove-insert key v m f other =
      elim (Bool-cases (m.hash_func key % m.size == m.hash_func other % m.size)) [
        | inl h ↦
            let b : ℕ = m.hash_func other % m.size in
            let absent : find_entry key (m.buf b) ≡ none =
              rw (sym (==→eq (m.hash_func key % m.size) b h)) f in
            rw h
              (ap (find_entry other) (drop_entry-append key (m.buf b) _ (same_key_self key) absent))
        | inr h ↦ rw h refl
      ]

  insert-IsInitial :
      (key : List ℕ) (v : V) (m : Hashmap V) → IsInitial m → IsInitial (insert_entry key v m)
  unfolding insert_entry
  insert-IsInitial key v m i = record { count = i.count; room = i.room }

  -- In a map whose count is 0 and below the size, as a new one's is and stays, hmap_add succeeds: then
  -- hmap_lookup of any key finds what it found before, or else the new value under the new key, so the
  -- old value where the key was there; and if it was not, hmap_remove brings every lookup back.
  pub hmap_add-Adds :
      (key : List ℕ) (v : V) (m : Hashmap V) → IsInitial m → Adds key v m (insert_entry key v m)
  hmap_add-Adds key v m i = record {
    added = hmap_add-insert key v m i;
    initial = insert-IsInitial key v m i;
    found = λ other. hmap_lookup-insert other key v m;
    removed = remove-insert key v m;
  }
