-- ===== src/Dsa/Dlist/Remove.antt =====
-- The removal of an item and of all items from the dlist of kernel/src/dsa/list.c.
use mathlib.Core.Path.{subst}
use mathlib.Core.List.{append-nil}
use goofyos.Base.{
  ℕ, zero, suc, ◌+◌, ◌-◌, ◌%◌, ◌^◌, ◌≡◌, ◌≢◌, ◌<◌, ◌∙◌, refl, sym, ap, true, false, List, [], ◌∷◌,
  ◌++◌, some, ◌==◌, arith, length, ==_self, length-append, map,
}
use goofyos.Dsa.Links.{null, update}
use goofyos.Dsa.Links.Chain.{
  has, Distinct, Distinct-remove, last, Chain-split, Chain-join, Chain-retarget, Chain-reback,
  ne_of_has, has_self, Distinct-split, has-last, ne_null_of_has, has_ne, has_cons, last-append,
  apart_sym, has-append, has_tail,
}
use goofyos.Dsa.Dlist.{
  Dlist, dlist_front_pop, dlist_back_pop, without_last, unlink_item, dropped, dlist_remove_item,
  freed_first, dlist_kfree_values,
}
use goofyos.Dsa.Dlist.Ends.{Represents, hit, miss}
use goofyos.Dsa.Dlist.Pops.{dlist_front_pop-Represents, dlist_back_pop-Represents}

-- The dlist without the node `x` between `p` and `z`.
abbrev between : ℕ → ℕ → ℕ → Dlist → Dlist
between p x z s = record s {
  links = record { next = update s.links.next p z; prev = update s.links.prev z p };
  count = (s.count + 2 ^ 64 - 1) % 2 ^ 64;
}

unlinked :
    (p x z : ℕ) (s : Dlist)
    → s.links.next x ≡ z
    → s.links.prev x ≡ p
    → z ≢ null
    → p ≢ null
    → z ≢ x
    → unlink_item x s ≡ some (between p x z s)
unfolding unlink_item
unlinked p x z s n q nz np apart = ground arith

remove_middle :
    {s : Dlist} (w : ℕ) (ws : List ℕ) (x z : ℕ) (zs : List ℕ)
    → Represents s ((w ∷ ws) ++ x ∷ z ∷ zs)
    → length ((w ∷ ws) ++ x ∷ z ∷ zs) < 2 ^ 63
    → (unlink_item x s ≡ some (between (last w ws) x z s))
      × Represents (between (last w ws) x z s) ((w ∷ ws) ++ z ∷ zs)
remove_middle {s} w ws x z zs r room =
    let p : ℕ = last w ws in
    let t : Dlist = between p x z s in
    let (left, right) = Chain-split s.links null null (w ∷ ws) (x ∷ z ∷ zs) r.chain in
    let (dw, dx, apart) = Distinct-split (w ∷ ws) (x ∷ z ∷ zs) r.distinct in
    let np = ne_null_of_has s.links null x p (w ∷ ws) left (has-last w ws) in
    let rest = right.3 in
    let no_p : has p (z ∷ zs) ≡ false = has_tail p x (z ∷ zs) (apart p (has-last w ws)) in
    let no_z : has z (w ∷ ws) ≡ false =
      apart_sym (w ∷ ws) (x ∷ z ∷ zs) z apart (has_cons z x (z ∷ zs) (has_self z zs)) in
    (
      unlinked p x z s right.2 right.1 rest.0 np (has_ne x z zs dx.0),
      record {
        chain =
            Chain-join t.links null null (w ∷ ws) (z ∷ zs)
              (Chain-retarget s.links t.links null x z w ws dw
                (λ a k. miss z a p (s.links.prev a) (ne_of_has z a (w ∷ ws) no_z k))
                (λ a k n. miss p a z (s.links.next a) (λ q. n (sym q))) (hit p z _) left)
              (Chain-reback s.links t.links x p null (z ∷ zs) dx.1
                (λ a k. miss p a z (s.links.next a) (ne_of_has p a (z ∷ zs) no_p k))
                (λ a k n. miss z a p (s.links.prev a) (λ q. n (sym q))) (λ k. hit z p _) rest);
        distinct = Distinct-remove (w ∷ ws) (z ∷ zs) x r.distinct;
        head = r.head;
        tail =
            r.tail
            ∙ (last-append null (w ∷ ws) (x ∷ z ∷ zs) ∙ sym (last-append null (w ∷ ws) (z ∷ zs)));
        count =
            omega (
              arith,
              r.count,
              length-append (w ∷ ws) (x ∷ z ∷ zs),
              length-append (w ∷ ws) (z ∷ zs),
            );
      },
    )

not_first : (x w : ℕ) (ws ys : List ℕ) → Distinct ((w ∷ ws) ++ x ∷ ys) → (x == w) ≡ false
not_first x w ws ys d = ground (arith, d.0, has-append w ws (x ∷ ys))

not_last : (x z w : ℕ) (ws zs : List ℕ) → has x (z ∷ zs) ≡ false → (x == last z zs) ≡ false
not_last x z w ws zs out = tests_apart (ne_of_has x (last z zs) (z ∷ zs) out (has-last z zs))
  where
    tests_apart : {a b : ℕ} → a ≢ b → (a == b) ≡ false
    tests_apart h = ground arith

module _ (x : ℕ) (s : Dlist) where
  take_head : (x == s.head) ≡ true → dlist_remove_item x s ≡ some (dlist_front_pop s).1
  unfolding dlist_remove_item
  take_head e = simp e refl

  take_tail :
      (x == s.head) ≡ false
      → (x == s.tail) ≡ true
      → dlist_remove_item x s ≡ dropped (dlist_back_pop s)
  unfolding dlist_remove_item
  take_tail e f = simp (e, f) refl

  take_inner :
      (x == s.head) ≡ false → (x == s.tail) ≡ false → dlist_remove_item x s ≡ unlink_item x s
  unfolding dlist_remove_item
  take_inner e f = simp (e, f) refl

  front_pop_value : (dlist_front_pop s).1.value ≡ s.value
  unfolding dlist_front_pop
  front_pop_value = ground arith

  without_last_value : (without_last x s).value ≡ s.value
  unfolding without_last
  without_last_value = refl

-- dlist_remove_item takes its item out of a dlist that represents fewer than 2 ^ 63 nodes, wherever it
-- stands, and leaves the other nodes in order, with their values.
pub dlist_remove_item-Represents :
    {s : Dlist} (xs : List ℕ) (x : ℕ) (ys : List ℕ)
    → Represents s (xs ++ x ∷ ys)
    → length (xs ++ x ∷ ys) < 2 ^ 63
    → (t : Dlist) × (dlist_remove_item x s ≡ some t) × Represents t (xs ++ ys) × (t.value ≡ s.value)
dlist_remove_item-Represents {s} [] x ys r room =
    let (v, kept) = dlist_front_pop-Represents x ys r (omega arith) in
    ((dlist_front_pop s).1, take_head x s (rw r.head (==_self x)), kept, front_pop_value x s)
dlist_remove_item-Represents {s} (w ∷ ws) x [] r room =
    let (run, kept) =
      dlist_back_pop-Represents (w ∷ ws) x r (omega (arith, length-append (w ∷ ws) (x ∷ []))) in
    let tail : s.tail ≡ x = r.tail ∙ last-append null (w ∷ ws) (x ∷ []) in
    (
      without_last x s,
      take_tail x s (rw r.head (not_first x w ws [] r.distinct)) (rw tail (==_self x))
          ∙ ap dropped run,
      subst (Represents (without_last x s)) (sym (append-nil (w ∷ ws))) kept,
      without_last_value x s,
    )
dlist_remove_item-Represents {s} (w ∷ ws) x (z ∷ zs) r room =
    let (run, kept) = remove_middle w ws x z zs r room in
    let (dw, dx, apart) = Distinct-split (w ∷ ws) (x ∷ z ∷ zs) r.distinct in
    let tail : s.tail ≡ last z zs = r.tail ∙ last-append null (w ∷ ws) (x ∷ z ∷ zs) in
    (
      between (last w ws) x z s,
      take_inner x s (rw r.head (not_first x w ws (z ∷ zs) r.distinct))
            (rw tail (not_last x z w ws zs dx.0))
          ∙ run,
      kept,
      refl,
    )

kfree_step :
    (fuel x : ℕ) (s : Dlist)
    → s.head ≡ x
    → x ≢ null
    → dlist_kfree_values (suc fuel) s
      ≡ freed_first (dlist_front_pop s).0 (dlist_kfree_values fuel (dlist_front_pop s).1)
unfolding dlist_kfree_values
kfree_step fuel x s h n = simp (not_null s.head (λ e. n (sym h ∙ e))) refl
  where
    not_null : (a : ℕ) → a ≢ null → (a == null) ≡ false
    not_null a k = ground arith

kfree_end : (fuel : ℕ) (s : Dlist) → s.head ≡ null → dlist_kfree_values (suc fuel) s ≡ some ([], s)
unfolding dlist_kfree_values
kfree_end fuel s h = simp (is_null s.head h) refl
  where
    is_null : (a : ℕ) → a ≡ null → (a == null) ≡ true
    is_null a k = ground arith

-- With more fuel than nodes, below 2 ^ 63, dlist_kfree_values of a dlist that represents its nodes
-- ends, frees every value once, from the head on, and leaves the dlist empty.
pub dlist_kfree_values-Represents :
    (fuel : ℕ) {s : Dlist} (ns : List ℕ)
    → Represents s ns
    → length ns < fuel
    → fuel < 2 ^ 63
    → (t : Dlist) × (dlist_kfree_values fuel s ≡ some (map s.value ns, t)) × Represents t []
dlist_kfree_values-Represents zero ns r h b = absurd (omega arith)
dlist_kfree_values-Represents (suc fuel) {s} [] r h b = (s, kfree_end fuel s r.head, r)
dlist_kfree_values-Represents (suc fuel) {s} (x ∷ xs) r h b =
    let (v, kept) = dlist_front_pop-Represents x xs r (omega arith) in
    let (t, run, empty) = dlist_kfree_values-Represents fuel xs kept (omega arith) (omega arith) in
    (
      t,
      kfree_step fuel x s r.head r.chain.0
          ∙ ap (λ o. freed_first o (dlist_kfree_values fuel (dlist_front_pop s).1)) v
          ∙ ap (freed_first (some (s.value x))) run
          ∙ ap (λ (f : ℕ → ℕ). some (s.value x ∷ map f xs, t)) (front_pop_value x s),
      empty,
    )
