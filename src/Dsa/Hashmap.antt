-- ===== src/Dsa/Hashmap.antt =====
-- The hash map of kernel/src/dsa/hashmap.c. A key is the list of its bytes, so its length is key_size,
-- and memcmp of two keys of one length is 0 exactly when they are the same bytes. A bucket is the list
-- of the entries of its dlist. The allocations do not fail.
pub mod Lookup
use Prim.Native.Nat.{bit_xor}
use goofyos.Base.{
  ℕ, zero, suc, ◌+◌, ◌*◌, ◌/◌, ◌%◌, ◌^◌, Bool, true, false, List, [], ◌∷◌, ◌++◌, Option, none, some,
  ltb, leb, ◌==◌, if◌then◌else◌,
}

abbrev pub fnv_prime : ℕ
fnv_prime = 0x00000100000001b3

abbrev pub fnv_offset : ℕ
fnv_offset = 0xcbf29ce484222325

-- A `char` is signed, and widened to 64 bits.
abbrev pub widened : ℕ → ℕ
widened c = if ltb c 128 then c else c + 0xffffffffffffff00

-- The loop of fnva_hash.
unfoldable pub fnva_from : ℕ → List ℕ → ℕ
fnva_from hash [] = hash
fnva_from hash (c ∷ cdata) = fnva_from (bit_xor hash (widened c) * fnv_prime % 2 ^ 64) cdata

unfoldable pub fnva_hash : List ℕ → ℕ
fnva_hash cdata = fnva_from fnv_offset cdata

-- The test of the two key sizes and of memcmp.
unfoldable pub same_key : List ℕ → List ℕ → Bool
same_key [] [] = true
same_key [] (d ∷ key) = false
same_key (c ∷ key) [] = false
same_key (c ∷ key) (d ∷ key') = if c == d then same_key key key' else false

module _ {ℓ} (V : Type ℓ) where
  -- `struct hashmap_entry`
  pub record Entry : Type ℓ where
    pub hash : ℕ
    pub key : List ℕ
    pub value : V

  -- `struct hashmap`; the hash function is a field.
  pub record Hashmap : Type ℓ where
    pub size : ℕ
    pub count : ℕ
    pub buf : ℕ → List (Entry)
    pub hash_func : List ℕ → ℕ

module _ {ℓ} {V : Type ℓ} where
  -- One page holds 170 buckets of 24 bytes.
  unfoldable pub hmap_init : Hashmap V
  hmap_init = record { size = 4096 / 24; count = 0; buf = λ b. []; hash_func = fnva_hash }

  abbrev pub if_empty : List (Entry V) → Bool → Bool
  if_empty [] rest = rest
  if_empty (e ∷ es) rest = false

  -- Whether the buckets below `n` are empty.
  unfoldable pub all_empty : ℕ → (ℕ → List (Entry V)) → Bool
  all_empty zero buf = true
  all_empty (suc n) buf = if_empty (buf n) (all_empty n buf)

  -- dlist_back_pop returns the entry, whose first field, the hash, is then taken for a pointer to an
  -- entry: `none` is that wild read. Without entries there is only the larger empty buffer.
  unfoldable pub hmap_resize : Hashmap V → Option (Hashmap V)
  hmap_resize m =
      if all_empty m.size m.buf then some (record m { size = m.size * 2; buf = λ b. [] }) else none

  -- `dlist_back_push` to one bucket.
  abbrev pub pushed : (ℕ → List (Entry V)) → ℕ → Entry V → ℕ → List (Entry V)
  pushed buf b e b' = if b == b' then buf b' ++ e ∷ [] else buf b'

  unfoldable pub insert_entry : List ℕ → V → Hashmap V → Hashmap V
  insert_entry key value m =
      let hash : ℕ = m.hash_func key in
      record m {
        buf = pushed m.buf (hash % m.size) (record { hash = hash; key = key; value = value });
      }

  abbrev pub insert_resized : List ℕ → V → Option (Hashmap V) → Option (Hashmap V)
  insert_resized key value none = none
  insert_resized key value (some m) = some (insert_entry key value m)

  -- `count` is not increased.
  unfoldable pub hmap_add : List ℕ → V → Hashmap V → Option (Hashmap V)
  hmap_add key value m =
      insert_resized key value (if leb m.size m.count then hmap_resize m else some m)

  -- The loop of hmap_lookup.
  unfoldable pub find_entry : List ℕ → List (Entry V) → Option V
  find_entry key [] = none
  find_entry key (e ∷ es) = if same_key key e.key then some e.value else find_entry key es

  -- `none` is NULL.
  unfoldable pub hmap_lookup : List ℕ → Hashmap V → Option V
  hmap_lookup key m = find_entry key (m.buf (m.hash_func key % m.size))

  -- The loop of hmap_remove: the first entry with the key leaves its list.
  unfoldable pub drop_entry : List ℕ → List (Entry V) → List (Entry V)
  drop_entry key [] = []
  drop_entry key (e ∷ es) = if same_key key e.key then es else e ∷ drop_entry key es

  unfoldable pub hmap_remove : List ℕ → Hashmap V → Hashmap V
  hmap_remove key m =
      let b : ℕ = m.hash_func key % m.size in
      record m { buf = λ b'. if b == b' then drop_entry key (m.buf b') else m.buf b' }
