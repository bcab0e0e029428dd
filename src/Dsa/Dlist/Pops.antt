-- ===== src/Dsa/Dlist/Pops.antt =====
-- The pops of kernel/src/dsa/list.c's dlist on the list of nodes that it represents.
use goofyos.Base.{
  ℕ, ◌+◌, ◌-◌, ◌%◌, ◌^◌, ◌≡◌, ◌≢◌, ◌<◌, ◌∙◌, refl, sym, false, List, [], ◌∷◌, ◌++◌, none, some,
  ◌==◌, if◌then◌else◌, arith, length, length-append,
}
use goofyos.Dsa.Links.{null}
use goofyos.Dsa.Links.Chain.{
  has, last, Chain-split, Chain-retarget, Chain-reback, ne_of_has, has_self, Distinct-split,
  has-last, ne_null_of_has, has_ne, last-append, apart_sym,
}
use goofyos.Dsa.Dlist.{Dlist, dlist_front_pop, without_last, dlist_back_pop}
use goofyos.Dsa.Dlist.Ends.{Represents, Fields, hit, miss}

front_popped :
    (x y : ℕ) (s : Dlist)
    → s.head ≡ x
    → x ≢ null
    → s.links.next x ≡ y
    → ((dlist_front_pop s).0 ≡ some (s.value x))
      × Fields
          (dlist_front_pop s).1
          (λ a. if x == a then null else s.links.next a)
          (λ a. if y == null then s.links.prev a else if y == a then null else s.links.prev a)
          y
          (if y == null then null else s.tail)
          ((s.count + 2 ^ 64 - 1) % 2 ^ 64)
unfolding dlist_front_pop
front_popped x y s h nx n = (
  ground arith,
  record {
    at_next = λ a. ground arith;
    at_prev = λ a. ground arith;
    at_head = ground arith;
    at_tail = ground arith;
    at_count = ground arith;
  },
)

-- The `tail` is cleared with the last node.
next_tail : (y t : ℕ) → y ≢ null → (if y == null then null else t) ≡ t
next_tail y t h = ground arith

keep_prev : (y v w : ℕ) → y ≢ null → (if y == null then v else w) ≡ w
keep_prev y v w h = ground arith

dlist_front_pop-empty : (s : Dlist) → Represents s [] → dlist_front_pop s ≡ (none, s)
unfolding dlist_front_pop
dlist_front_pop-empty s r = rw (r.head) refl

-- The first node's value is returned and the others stay, in order.
pub dlist_front_pop-Represents :
    {s : Dlist} (x : ℕ) (xs : List ℕ)
    → Represents s (x ∷ xs)
    → length (x ∷ xs) < 2 ^ 64
    → ((dlist_front_pop s).0 ≡ some (s.value x)) × Represents (dlist_front_pop s).1 xs
dlist_front_pop-Represents {s} x [] r room =
    let (v, e) = front_popped x null s r.head r.chain.0 r.chain.2 in
    (
      v,
      record {
        chain = tt;
        distinct = tt;
        head = e.at_head;
        tail = e.at_tail;
        count = omega (arith, e.at_count, r.count);
      },
    )
dlist_front_pop-Represents {s} x (y ∷ ys) r room =
    let t : Dlist = (dlist_front_pop s).1 in
    let (v, e) = front_popped x y s r.head r.chain.0 r.chain.2 in
    let out = r.distinct.0 in
    let far : x ≢ y = λ q. has_ne x y ys out (sym q) in
    (
      v,
      record {
        chain =
            Chain-reback s.links t.links x null null (y ∷ ys) r.distinct.1
              (λ a k. e.at_next a ∙ miss x a null (s.links.next a) (ne_of_has x a (y ∷ ys) out k))
              (λ a k n.
                e.at_prev a
                ∙ (keep_prev y _ _ r.chain.3.0 ∙ miss y a null (s.links.prev a) (λ q. n (sym q))))
              (λ k. e.at_prev y ∙ (keep_prev y _ _ r.chain.3.0 ∙ hit y null _)) r.chain.3;
        distinct = r.distinct.1;
        head = e.at_head;
        tail = e.at_tail ∙ (next_tail y s.tail r.chain.3.0 ∙ r.tail);
        count = omega (arith, e.at_count, r.count);
      },
    )

back_popped :
    (x y : ℕ) (s : Dlist)
    → s.links.prev x ≡ y
    → Fields
        (without_last x s)
        (λ a. if y == null then s.links.next a else if y == a then null else s.links.next a)
        (λ a. if x == a then null else s.links.prev a)
        (if y == null then null else s.head)
        y
        ((s.count + 2 ^ 64 - 1) % 2 ^ 64)
unfolding without_last
back_popped x y s n = record {
  at_next = λ a. ground arith;
  at_prev = λ a. ground arith;
  at_head = ground arith;
  at_tail = ground arith;
  at_count = refl;
}

-- Without its last node a dlist represents the other nodes, in order.
pub without_last-Represents :
    {s : Dlist} (ns : List ℕ) (x : ℕ)
    → Represents s (ns ++ x ∷ [])
    → length ns < 2 ^ 63
    → Represents (without_last x s) ns
without_last-Represents {s} [] x r room =
    let e = back_popped x null s r.chain.1 in
    record {
      chain = tt;
      distinct = tt;
      head = e.at_head;
      tail = e.at_tail;
      count = omega (arith, e.at_count, r.count);
    }
without_last-Represents {s} (y ∷ ys) x r room =
    let t : Dlist = without_last x s in
    let p : ℕ = last y ys in
    let (left, right) = Chain-split s.links null null (y ∷ ys) (x ∷ []) r.chain in
    let (dy, dx, apart) = Distinct-split (y ∷ ys) (x ∷ []) r.distinct in
    let out : has x (y ∷ ys) ≡ false = apart_sym (y ∷ ys) (x ∷ []) x apart (has_self x []) in
    let np = ne_null_of_has s.links null x p (y ∷ ys) left (has-last y ys) in
    let e = back_popped x p s right.1 in
    record {
      chain =
          Chain-retarget s.links t.links null x null y ys dy
            (λ a k. e.at_prev a ∙ miss x a null (s.links.prev a) (ne_of_has x a (y ∷ ys) out k))
            (λ a k n.
              e.at_next a ∙ (keep_prev p _ _ np ∙ miss p a null (s.links.next a) (λ q. n (sym q))))
            (e.at_next p ∙ (keep_prev p _ _ np ∙ hit p null _)) left;
      distinct = dy;
      head = e.at_head ∙ (next_tail p s.head np ∙ r.head);
      tail = e.at_tail;
      count = omega (arith, e.at_count, r.count, length-append (y ∷ ys) (x ∷ []));
    }

-- dlist_back_pop of a dlist that represents its nodes, a last one and fewer than 2 ^ 63 before it,
-- returns the last node's value and leaves the others, in order.
pub dlist_back_pop-Represents :
    {s : Dlist} (ns : List ℕ) (x : ℕ)
    → Represents s (ns ++ x ∷ [])
    → length ns < 2 ^ 63
    → (dlist_back_pop s ≡ some (s.value x, without_last x s)) × Represents (without_last x s) ns
unfolding dlist_back_pop
dlist_back_pop-Represents {s} ns x r room =
    let at : s.tail ≡ x = r.tail ∙ last-append null ns (x ∷ []) in
    let (left, right) = Chain-split s.links null null ns (x ∷ []) r.chain in
    (rw (at, not_null x right.0) refl, without_last-Represents ns x r room)
  where
    not_null : (a : ℕ) → a ≢ null → (a == null) ≡ false
    not_null a h = ground arith
