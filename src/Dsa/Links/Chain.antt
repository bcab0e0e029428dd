-- ===== src/Dsa/Links/Chain.antt =====
-- What a chain of linked nodes is, and how it is taken apart and kept.
use goofyos.Base.{
  ℕ, ◌≡◌, ◌≢◌, Bool, true, false, List, [], ◌∷◌, ◌++◌, ◌||◌, ◌==◌, arith, refl, sym, ◌∙◌, ◌⊎◌, inl,
  inr,
}
use mathlib.Core.Bool.{false≢true}
use goofyos.Dsa.Links.{Links, null}

abbrev pub has : ℕ → List ℕ → Bool
has a [] = false
has a (x ∷ xs) = (a == x) || has a xs

abbrev pub Distinct : List ℕ → Type 0
Distinct [] = Unit
Distinct (x ∷ xs) = (has x xs ≡ false) × Distinct xs

-- The first node, or what follows the chain.
abbrev pub first : List ℕ → ℕ → ℕ
first [] after = after
first (x ∷ xs) after = x

-- The last node, or what stands before the chain.
abbrev pub last : ℕ → List ℕ → ℕ
last before [] = before
last before (x ∷ xs) = last x xs

-- The nodes `xs` are linked both ways; the first points back to `before`, the last on to `after`.
abbrev pub Chain : Links → ℕ → List ℕ → ℕ → Type 0
Chain l before [] after = Unit
Chain l before (x ∷ xs) after =
    (x ≢ null) × (l.prev x ≡ before) × (l.next x ≡ first xs after) × Chain l x xs after

-- Two heaps agree on the nodes `xs`.
abbrev pub SameOn : List ℕ → Links → Links → Type 0
SameOn xs l k = (a : ℕ) → has a xs ≡ true → (k.next a ≡ l.next a) × (k.prev a ≡ l.prev a)

-- Two heaps agree everywhere but on the nodes `xs`.
abbrev pub SameOutside : List ℕ → Links → Links → Type 0
SameOutside xs l k = (a : ℕ) → has a xs ≡ false → (k.next a ≡ l.next a) × (k.prev a ≡ l.prev a)

pub Chain-frame :
    (l k : Links) (before after : ℕ) (xs : List ℕ)
    → SameOn xs l k
    → Chain l before xs after
    → Chain k before xs after
Chain-frame l k before after [] same c = tt
Chain-frame l k before after (x ∷ xs) same c = (
  c.0,
  ground (arith, same x, c.1),
  ground (arith, same x, c.2),
  Chain-frame l k x after xs (λ a h. same a (ground arith)) c.3,
)

pub has-append : (a : ℕ) (xs ys : List ℕ) → has a (xs ++ ys) ≡ (has a xs || has a ys)
has-append a [] ys = refl
has-append a (x ∷ xs) ys = ground (arith, has-append a xs ys)

pub first-append : (xs ys : List ℕ) (after : ℕ) → first (xs ++ ys) after ≡ first xs (first ys after)
first-append [] ys after = refl
first-append (x ∷ xs) ys after = refl

pub last-append : (before : ℕ) (xs ys : List ℕ) → last before (xs ++ ys) ≡ last (last before xs) ys
last-append before [] ys = refl
last-append before (x ∷ xs) ys = last-append x xs ys

pub Chain-split :
    (l : Links) (before after : ℕ) (xs ys : List ℕ)
    → Chain l before (xs ++ ys) after
    → Chain l before xs (first ys after) × Chain l (last before xs) ys after
Chain-split l before after [] ys c = (tt, c)
Chain-split l before after (x ∷ xs) ys c =
    let (a, b) = Chain-split l x after xs ys c.3 in
    ((c.0, c.1, ground (arith, c.2, first-append xs ys after), a), b)

pub Chain-join :
    (l : Links) (before after : ℕ) (xs ys : List ℕ)
    → Chain l before xs (first ys after)
    → Chain l (last before xs) ys after
    → Chain l before (xs ++ ys) after
Chain-join l before after [] ys c d = d
Chain-join l before after (x ∷ xs) ys c d =
    (c.0, c.1, ground (arith, c.2, first-append xs ys after), Chain-join l x after xs ys c.3 d)

pub Distinct-split :
    (xs ys : List ℕ)
    → Distinct (xs ++ ys)
    → Distinct xs × Distinct ys × ((a : ℕ) → has a xs ≡ true → has a ys ≡ false)
Distinct-split [] ys d = (tt, d, λ a h. absurd (ground arith))
Distinct-split (x ∷ xs) ys d =
    let (p, q, r) = Distinct-split xs ys d.1 in
    (
      (ground (arith, d.0, has-append x xs ys), p),
      q,
      λ a h. ground (arith, r a, d.0, has-append x xs ys),
    )

-- Every node of a chain is a node.
pub ne_null_of_has :
    (l : Links) (before after a : ℕ) (xs : List ℕ)
    → Chain l before xs after
    → has a xs ≡ true
    → a ≢ null
ne_null_of_has l before after a [] c h = absurd (ground arith)
ne_null_of_has l before after a (x ∷ xs) c h =
    ground (arith, c.0, ne_null_of_has l x after a xs c.3)

pub has-last : (x : ℕ) (xs : List ℕ) → has (last x xs) (x ∷ xs) ≡ true
has-last x [] = ground arith
has-last x (y ∷ xs) = ground (arith, has-last y xs)

-- The chain with another node behind its last one.
pub Chain-retarget :
    (l k : Links) (before after after' x : ℕ) (xs : List ℕ)
    → Distinct (x ∷ xs)
    → ((a : ℕ) → has a (x ∷ xs) ≡ true → k.prev a ≡ l.prev a)
    → ((a : ℕ) → has a (x ∷ xs) ≡ true → a ≢ last x xs → k.next a ≡ l.next a)
    → k.next (last x xs) ≡ after'
    → Chain l before (x ∷ xs) after
    → Chain k before (x ∷ xs) after'
Chain-retarget l k before after after' x [] d p n e c = (c.0, ground (arith, p x, c.1), e, tt)
Chain-retarget l k before after after' x (y ∷ xs) d p n e c = (
  c.0,
  ground (arith, p x, c.1),
  ground (arith, n x, c.2, has-last y xs, d.0),
  Chain-retarget l k x after after' y xs d.1 (λ a h. p a (ground arith)) (λ a h. n a (ground arith))
      e c.3,
)

-- The chain with another node before its first one.
pub Chain-reback :
    (l k : Links) (before before' after : ℕ) (xs : List ℕ)
    → Distinct xs
    → ((a : ℕ) → has a xs ≡ true → k.next a ≡ l.next a)
    → ((a : ℕ) → has a xs ≡ true → a ≢ first xs after → k.prev a ≡ l.prev a)
    → (has (first xs after) xs ≡ true → k.prev (first xs after) ≡ before')
    → Chain l before xs after
    → Chain k before' xs after
Chain-reback l k before before' after [] d n p e c = tt
Chain-reback l k before before' after (x ∷ xs) d n p e c = (
  c.0,
  e (ground arith),
  ground (arith, n x, c.2),
  Chain-frame l k x after xs (λ a h. ground (arith, n a, p a, d.0)) c.3,
)

pub Distinct-remove : (xs ys : List ℕ) (n : ℕ) → Distinct (xs ++ n ∷ ys) → Distinct (xs ++ ys)
Distinct-remove [] ys n d = d.1
Distinct-remove (x ∷ xs) ys n d =
    (ground (arith, d.0, has-append x xs (n ∷ ys), has-append x xs ys), Distinct-remove xs ys n d.1)

pub ne_of_has : (x a : ℕ) (xs : List ℕ) → has x xs ≡ false → has a xs ≡ true → x ≢ a
ne_of_has x a xs h k e = absurd (false≢true (sym h ∙ (rw e k)))

pub has_ne : (a x : ℕ) (xs : List ℕ) → has a (x ∷ xs) ≡ false → x ≢ a
has_ne a x xs h e = ground arith

pub has-first : (xs : List ℕ) → (first xs null ≡ null) ⊎ (has (first xs null) xs ≡ true)
has-first [] = inl refl
has-first (x ∷ xs) = inr (ground arith)

pub has_tail : (a x : ℕ) (xs : List ℕ) → has a (x ∷ xs) ≡ false → has a xs ≡ false
has_tail a x xs h = ground arith

pub has_self : (x : ℕ) (xs : List ℕ) → has x (x ∷ xs) ≡ true
has_self x xs = ground arith

pub has_cons : (a x : ℕ) (xs : List ℕ) → has a xs ≡ true → has a (x ∷ xs) ≡ true
has_cons a x xs h = ground arith

pub has_append_false :
    (a : ℕ) (xs ys : List ℕ) → has a (xs ++ ys) ≡ false → (has a xs ≡ false) × (has a ys ≡ false)
has_append_false a xs ys h = ground (arith, has-append a xs ys)

pub apart_sym :
    (xs ys : List ℕ) (b : ℕ)
    → ((a : ℕ) → has a xs ≡ true → has a ys ≡ false)
    → has b ys ≡ true
    → has b xs ≡ false
apart_sym xs ys b apart h = ground (arith, apart b)
