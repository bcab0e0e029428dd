-- ===== src/Mm/Slab/View.antt =====
-- When the caches of kernel/src/mm/slab.c are well formed: the slabs in each list and the free chunks in
-- each slab.
use goofyos.Base.{ℕ, ◌≡◌, ◌≢◌, true, false, List, [], ◌∷◌, ◌==◌, if◌then◌else◌, length}
use goofyos.Dsa.Links.{null}
use goofyos.Dsa.Links.Chain.{has, Distinct}
use goofyos.Dsa.ListHead.Laws.{IsList}
use goofyos.Mm.Slab.{Kind, same_kind, Slab, Memory, n_objects, kind_of}

-- The slabs of each list and the free chunks of each slab, in order.
pub record View : Type 0 where
  pub slabs : Kind → List ℕ
  pub free : ℕ → List ℕ

abbrev pub with_slabs : View → Kind → List ℕ → View
with_slabs v k ss = record v { slabs = λ j. if same_kind k j then ss else v.slabs j }

abbrev pub with_free : View → ℕ → List ℕ → View
with_free v a xs = record v { free = λ b. if a == b then xs else v.free b }

-- The chunks `xs` from `head` on.
abbrev pub Chunks : (ℕ → ℕ) → ℕ → List ℕ → Type 0
Chunks next head [] = head ≡ null
Chunks next head (x ∷ xs) = (head ≡ x) × (x ≢ null) × Chunks next (next x) xs

-- The slab `s` of the cache `c` has the free chunks `xs`.
pub record HasChunks (next : ℕ → ℕ) (c : ℕ) (s : Slab) (xs : List ℕ) : Type 0 where
  pub owner : s.cache ≡ c
  pub chunks : Chunks next s.freelist xs
  pub distinct : Distinct xs
  pub counted : s.free_objects ≡ length xs

-- One list of the cache `c`: it holds `ss`, which have their chunks, as many as slabs of the list have.
pub record Lists (m : Memory) (c : ℕ) (free : ℕ → List ℕ) (k : Kind) (ss : List ℕ) : Type 0 where
  pub before : ℕ
  pub list : IsList m.links ((m.cache c).head k) before ss
  pub counted : (m.cache c).count k ≡ length ss
  pub each :
      (a : ℕ)
      → has a ss ≡ true
      → HasChunks m.next c (m.slab a) (free a)
        × (kind_of (n_objects (m.cache c)) (length (free a)) ≡ k)

-- The slabs of two lists, and the chunks of two slabs, differ. An `int` counts the slabs and the chunks.
pub record IsCache (m : Memory) (c : ℕ) (v : View) : Type 0 where
  pub lists : (k : Kind) → Lists m c v.free k (v.slabs k)
  pub apart : (j k : Kind) (a : ℕ) → has a (v.slabs j) ≡ true → has a (v.slabs k) ≡ true → j ≡ k
  pub free_apart :
      (j k : Kind) (a b x : ℕ)
      → has a (v.slabs j) ≡ true
      → has b (v.slabs k) ≡ true
      → has x (v.free a) ≡ true
      → has x (v.free b) ≡ true
      → a ≡ b

-- A slab in no list.
pub record Loose (m : Memory) (c : ℕ) (v : View) (a : ℕ) : Type 0 where
  pub ne : a ≢ null
  pub out : (k : Kind) → has a (v.slabs k) ≡ false
  pub chunks : HasChunks m.next c (m.slab a) (v.free a)
  pub apart :
      (k : Kind) (b x : ℕ)
      → has b (v.slabs k) ≡ true
      → has x (v.free a) ≡ true
      → has x (v.free b) ≡ false
