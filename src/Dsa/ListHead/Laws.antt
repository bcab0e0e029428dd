-- ===== src/Dsa/ListHead/Laws.antt =====
-- The list_head operations on a chain, and what a pop leaves behind.
use goofyos.Base.{
  ℕ, ◌≡◌, ◌≢◌, refl, some, false, List, [], ◌∷◌, arith, ◌==◌, if◌then◌else◌, sym, ◌∙◌, inl, inr,
}
use goofyos.Dsa.Links.{Links, null}
use goofyos.Dsa.Links.Chain.{
  has, Distinct, first, Chain, SameOutside, ne_null_of_has, Chain-reback, ne_of_has, has_ne,
  has-first,
}
use goofyos.Dsa.ListHead.{list_pop_front, list_push_front}

-- `head` starts the chain of the distinct nodes `xs`, whose first node points back to `before`.
pub record IsList (l : Links) (head before : ℕ) (xs : List ℕ) : Type 0 where
  pub start : head ≡ first xs null
  pub chain : Chain l before xs null
  pub distinct : Distinct xs

push_links :
    (l : Links) (head needle a : ℕ)
    → let r = list_push_front l head needle in
      (r.0 ≡ needle)
      × (r.1.next a ≡ (if needle == a then head else l.next a))
      × (r.1.prev a ≡ (if head == null then l.prev a else if head == a then needle else l.prev a))
unfolding list_push_front
push_links l head needle a = (refl, ground arith, ground arith)

push_keep_next :
    (l : Links) (head needle a : ℕ)
    → needle ≢ a
    → (list_push_front l head needle).1.next a ≡ l.next a
push_keep_next l head needle a h = ground (arith, push_links l head needle a)

push_keep_prev :
    (l : Links) (head needle a : ℕ) → head ≢ a → (list_push_front l head needle).1.prev a ≡ l.prev a
push_keep_prev l head needle a h = ground (arith, push_links l head needle a)

push_hit_prev :
    (l : Links) (head needle : ℕ)
    → head ≢ null
    → (list_push_front l head needle).1.prev head ≡ needle
push_hit_prev l head needle h = ground (arith, push_links l head needle head)

push_hit_next : (l : Links) (head needle : ℕ) → (list_push_front l head needle).1.next needle ≡ head
push_hit_next l head needle = ground (arith, push_links l head needle needle)

push_IsList :
    (l : Links) (needle before : ℕ) (xs : List ℕ)
    → Chain l before xs null
    → Distinct xs
    → needle ≢ null
    → has needle xs ≡ false
    → let r = list_push_front l (first xs null) needle in
      IsList r.1 r.0 (l.prev needle) (needle ∷ xs)
push_IsList l needle before xs c d ne out =
    let head = first xs null in
    let r = list_push_front l head needle in
    let far : head ≢ needle = elim (has-first xs) [
      | inl e ↦ λ q. ne (sym q ∙ e)
      | inr h ↦ λ q. ne_of_has needle head xs out h (sym q)
    ] in
    record {
      start = (push_links l head needle head).0;
      chain = (
        ne,
        push_keep_prev l head needle needle far,
        push_hit_next l head needle,
        Chain-reback l r.1 before needle null xs d
            (λ a h. push_keep_next l head needle a (ne_of_has needle a xs out h))
            (λ a h k. push_keep_prev l head needle a (λ q. k (sym q)))
            (λ h. push_hit_prev l head needle (ne_null_of_has l before null head xs c h)) c,
      );
      distinct = (out, d);
    }

-- Pushing a node that is not in the list puts it in front; its own back pointer stays what it
-- was, and only it and the old first node are written.
pub list_push_front_lem :
    {l : Links} {head before : ℕ} {xs : List ℕ} (needle : ℕ)
    → IsList l head before xs
    → needle ≢ null
    → has needle xs ≡ false
    → let r = list_push_front l head needle in
      IsList r.1 r.0 (l.prev needle) (needle ∷ xs) × SameOutside (needle ∷ head ∷ []) l r.1
list_push_front_lem {l} {head} {before} {xs} needle is ne out = (
  rw (is.start) (push_IsList l needle before xs is.chain is.distinct ne out),
  λ a h. (
    push_keep_next l head needle a (has_ne a needle (head ∷ []) h),
    push_keep_prev l head needle a (ground arith),
  ),
)

-- Popping returns the first node and leaves the rest of the list, whose first node still points
-- back to the node that was returned.
pub list_pop_front_lem :
    {l : Links} {head before x : ℕ} {xs : List ℕ}
    → IsList l head before (x ∷ xs)
    → (list_pop_front l head ≡ some (x, first xs null)) × IsList l (first xs null) x xs
unfolding list_pop_front
list_pop_front_lem is = (
  ground (arith, is.start, is.chain.0, is.chain.2),
  record { start = refl; chain = is.chain.3; distinct = is.distinct.1 },
)
