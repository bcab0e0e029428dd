-- ===== src/Dsa/ListHead/Remove.antt =====
-- list_remove_node of kernel/src/dsa/list.c on a chain: a clean removal, and the write through a
-- stale back pointer.
use goofyos.Base.{
  ℕ, ◌≡◌, ◌≢◌, refl, true, false, List, [], ◌∷◌, ◌++◌, arith, ◌==◌, if◌then◌else◌, sym, ◌∙◌, ◌⊎◌,
  inl, inr,
}
use goofyos.Dsa.Links.{Links, null}
use goofyos.Dsa.Links.Chain.{
  has, Distinct, first, last, Chain, SameOn, Chain-split, Chain-join, Distinct-split,
  ne_null_of_has, Chain-reback, Chain-retarget, Distinct-remove, has-last, ne_of_has, has_ne,
  has-first, has_tail, has_self, has_cons, has_append_false, apart_sym,
}
use goofyos.Dsa.ListHead.{list_remove_node}
use goofyos.Dsa.ListHead.Laws.{IsList}

-- What removal of `needle` from `xs ++ needle ∷ ys` gives: the list without that node, whose two
-- pointers are NULL, and every node outside the list as it was.
pub record Removed (l : Links) (needle before : ℕ) (xs ys : List ℕ) (r : ℕ × Links) : Type 0 where
  pub list : IsList r.1 r.0 before (xs ++ ys)
  pub next_null : r.1.next needle ≡ null
  pub prev_null : r.1.prev needle ≡ null
  pub same :
      (a : ℕ)
      → has a (xs ++ needle ∷ ys) ≡ false
      → a ≢ null
      → (r.1.next a ≡ l.next a) × (r.1.prev a ≡ l.prev a)

-- The two pointers of every node after a removal.
remove_links :
    (l : Links) (head needle a : ℕ)
    → let r = list_remove_node l head needle in
      (r.1.next a ≡ (
        if needle == a
        then null
        else if l.prev needle == null
        then l.next a
        else if l.prev needle == a
        then l.next needle
        else l.next a))
      × (r.1.prev a ≡ (
          if needle == a
          then null
          else if l.next needle == null
          then l.prev a
          else if l.next needle == a
          then l.prev needle
          else l.prev a))
unfolding list_remove_node
remove_links l head needle a = (ground arith, ground arith)

remove_head :
    (l : Links) (head needle : ℕ)
    → (list_remove_node l head needle).0 ≡ (if head == needle then l.next head else head)
unfolding list_remove_node
remove_head l head needle = refl

module _ (l : Links) (head needle a : ℕ) where
  remove_keep_next :
      needle ≢ a
      → (l.prev needle ≡ null) ⊎ (l.prev needle ≢ a)
      → (list_remove_node l head needle).1.next a ≡ l.next a
  remove_keep_next h k = ground (arith, remove_links l head needle a)

  remove_keep_prev :
      needle ≢ a
      → (l.next needle ≡ null) ⊎ (l.next needle ≢ a)
      → (list_remove_node l head needle).1.prev a ≡ l.prev a
  remove_keep_prev h k = ground (arith, remove_links l head needle a)

  remove_hit_next :
      needle ≢ a
      → a ≢ null
      → l.prev needle ≡ a
      → (list_remove_node l head needle).1.next a ≡ l.next needle
  remove_hit_next h n k = ground (arith, remove_links l head needle a)

  remove_hit_prev :
      needle ≢ a
      → a ≢ null
      → l.next needle ≡ a
      → (list_remove_node l head needle).1.prev a ≡ l.prev needle
  remove_hit_prev h n k = ground (arith, remove_links l head needle a)

remove_cleared :
    (l : Links) (head needle : ℕ)
    → let r = list_remove_node l head needle in (r.1.next needle ≡ null) × (r.1.prev needle ≡ null)
remove_cleared l head needle = (
  ground (arith, remove_links l head needle needle),
  ground (arith, remove_links l head needle needle),
)

first_stays :
    (l : Links) (head needle x : ℕ)
    → head ≡ x
    → x ≢ needle
    → (if head == needle then l.next head else head) ≡ x
first_stays l head needle x h k = ground arith

first_goes :
    (l : Links) (head needle y : ℕ)
    → head ≡ needle
    → l.next needle ≡ y
    → (if head == needle then l.next head else head) ≡ y
first_goes l head needle y h k = ground arith

has-null :
    (l : Links) (before after : ℕ) (xs : List ℕ) → Chain l before xs after → has null xs ≡ false
has-null l before after [] c = refl
has-null l before after (x ∷ xs) c = ground (arith, has-null l x after xs c.3, c.0)

-- The part of the list behind the removed node.
remove_behind :
    (l : Links) (head needle before : ℕ) (ys : List ℕ)
    → has needle ys ≡ false
    → Distinct ys
    → l.next needle ≡ first ys null
    → l.prev needle ≡ before
    → has before ys ≡ false
    → Chain l needle ys null
    → Chain (list_remove_node l head needle).1 before ys null
remove_behind l head needle before ys out d nx pv off c =
    Chain-reback l _ needle before null ys d
      (λ a h.
        remove_keep_next l head needle a (ne_of_has needle a ys out h)
          (inr (λ q. ne_of_has before a ys off h (sym pv ∙ q))))
      (λ a h k.
        remove_keep_prev l head needle a (ne_of_has needle a ys out h) (inr (λ q. k (sym q ∙ nx))))
      (λ h.
        remove_hit_prev l head needle (first ys null) (ne_of_has needle (first ys null) ys out h)
          (ne_null_of_has l needle null (first ys null) ys c h) nx
        ∙ pv)
      c

-- The part of the list before the removed node, if there is one.
remove_before :
    (l : Links) (head needle before x : ℕ) (xs ys : List ℕ)
    → has needle (x ∷ xs) ≡ false
    → Distinct (x ∷ xs)
    → l.next needle ≡ first ys null
    → l.prev needle ≡ last x xs
    → (first ys null ≡ null) ⊎ (has (first ys null) (x ∷ xs) ≡ false)
    → Chain l before (x ∷ xs) needle
    → Chain (list_remove_node l head needle).1 before (x ∷ xs) (first ys null)
remove_before l head needle before x xs ys out d nx pv off c =
    let end : ℕ = last x xs in
    let far : (a : ℕ) → has a (x ∷ xs) ≡ true → needle ≢ a =
      λ a h. ne_of_has needle a (x ∷ xs) out h in
    let inside : has end (x ∷ xs) ≡ true = has-last x xs in
    Chain-retarget l _ before needle (first ys null) x xs d
      (λ a h. remove_keep_prev l head needle a (far a h) (elim off [
        | inl e ↦ inl (nx ∙ e)
        | inr f ↦ inr (λ q. ne_of_has (first ys null) a (x ∷ xs) f h (sym nx ∙ q))
      ]))
      (λ a h k. remove_keep_next l head needle a (far a h) (inr (λ q. k (sym q ∙ pv))))
      (remove_hit_next l head needle end (far end inside)
          (ne_null_of_has l before needle end (x ∷ xs) c inside) pv
        ∙ nx)
      c

-- The back pointer of the first node behind the removed one is all that a removal writes there.
next_inside :
    (l : Links) (needle a : ℕ) (ys : List ℕ)
    → l.next needle ≡ first ys null
    → has a ys ≡ false
    → (l.next needle ≡ null) ⊎ (l.next needle ≢ a)
next_inside l needle a ys nx h = elim (has-first ys) [
  | inl e ↦ inl (nx ∙ e)
  | inr f ↦ inr (λ q. ne_of_has a (first ys null) ys h f (sym q ∙ nx))
]

-- Removing a node that is not the first from a list takes out that node alone, clears its two
-- pointers, and writes to no node outside the list, wherever the first node points back to.
pub remove_later :
    {l : Links} {head before needle x : ℕ} (xs ys : List ℕ)
    → IsList l head before (x ∷ xs ++ needle ∷ ys)
    → Removed l needle before (x ∷ xs) ys (list_remove_node l head needle)
remove_later {l} {head} {before} {needle} {x} xs ys is =
    let (left, right) = Chain-split l before null (x ∷ xs) (needle ∷ ys) is.chain in
    let (dx, dy, apart) = Distinct-split (x ∷ xs) (needle ∷ ys) is.distinct in
    let out : has needle (x ∷ xs) ≡ false =
      apart_sym (x ∷ xs) (needle ∷ ys) needle apart (has_self needle ys) in
    let off : (first ys null ≡ null) ⊎ (has (first ys null) (x ∷ xs) ≡ false) =
      elim (has-first ys) [
        | inl e ↦ inl e
        | inr f ↦
            inr (apart_sym (x ∷ xs) (needle ∷ ys) (first ys null) apart (has_cons _ needle ys f))
      ] in
    let end : has (last x xs) ys ≡ false =
      has_tail (last x xs) needle ys (apart (last x xs) (has-last x xs)) in
    let away = λ (a : ℕ) (h : has a (x ∷ xs ++ needle ∷ ys) ≡ false).
      has_append_false a (x ∷ xs) (needle ∷ ys) h in
    record {
      list = record {
        start =
            remove_head l head needle
            ∙ first_stays l head needle x is.start (has_ne needle x xs out);
        chain =
            Chain-join _ before null (x ∷ xs) ys
              (remove_before l head needle before x xs ys out dx right.2 right.1 off left)
              (remove_behind l head needle (last x xs) ys dy.0 dy.1 right.2 right.1 end right.3);
        distinct = Distinct-remove (x ∷ xs) ys needle is.distinct;
      };
      next_null = (remove_cleared l head needle).0;
      prev_null = (remove_cleared l head needle).1;
      same = λ a h k. (
        remove_keep_next l head needle a (has_ne a needle ys (away a h).1) (
            inr (λ q.
              ne_of_has a (last x xs) (x ∷ xs) (away a h).0 (has-last x xs) (sym q ∙ right.1))),
        remove_keep_prev l head needle a (has_ne a needle ys (away a h).1)
            (next_inside l needle a ys right.2 (has_tail a needle ys (away a h).1)),
      );
    }

-- Removing the first node of a list whose first node points back to NULL leaves the rest of the
-- list, clears the node's two pointers, and writes to no node outside the list.
pub remove_first :
    {l : Links} {head needle : ℕ} (ys : List ℕ)
    → IsList l head null (needle ∷ ys)
    → Removed l needle null [] ys (list_remove_node l head needle)
remove_first {l} {head} {needle} ys is =
    let c = is.chain in
    let off : has null ys ≡ false = has-null l needle null ys c.3 in
    record {
      list = record {
        start = remove_head l head needle ∙ first_goes l head needle (first ys null) is.start c.2;
        chain = remove_behind l head needle null ys is.distinct.0 is.distinct.1 c.2 c.1 off c.3;
        distinct = is.distinct.1;
      };
      next_null = (remove_cleared l head needle).0;
      prev_null = (remove_cleared l head needle).1;
      same = λ a h k. (
        remove_keep_next l head needle a (has_ne a needle ys h) (inl c.1),
        remove_keep_prev l head needle a (has_ne a needle ys h)
            (next_inside l needle a ys c.2 (has_tail a needle ys h)),
      );
    }

-- After a pop, removing the node that has become the first one writes to the popped node, whatever
-- the popped node's own pointers have been set to since: its `next` pointer becomes the first of
-- the nodes that are left.
pub remove_after_pop :
    {l k : Links} {head before x y : ℕ} {ys : List ℕ}
    → IsList l head before (x ∷ y ∷ ys)
    → SameOn (y ∷ ys) l k
    → (list_remove_node k y y).1.next x ≡ first ys null
remove_after_pop {l} {k} {x} {y} {ys} is same =
    let c = is.chain in
    let (n, p) = same y (has_self y ys) in
    remove_hit_next k y y x (λ q. has_ne x y ys is.distinct.0 q) c.0 (p ∙ c.3.1) ∙ (n ∙ c.3.2)
