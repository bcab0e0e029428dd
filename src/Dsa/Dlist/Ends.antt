-- ===== src/Dsa/Dlist/Ends.antt =====
-- The pushes and pops of kernel/src/dsa/list.c's dlist on the list of nodes that it represents.
use goofyos.Base.{
  ℕ, ◌+◌, ◌%◌, ◌^◌, ◌≡◌, ◌≢◌, ◌<◌, ◌∙◌, refl, sym, false, List, [], ◌∷◌, ◌++◌, ◌==◌, if◌then◌else◌,
  arith, length, length-append, map,
}
use goofyos.Dsa.Links.{Links, null, update}
use goofyos.Dsa.Links.Chain.{
  has, Distinct, first, last, Chain, Chain-join, Chain-retarget, Chain-reback, ne_of_has, has-last,
  ne_null_of_has, has_ne, last-append, has-append, has_tail,
}
use goofyos.Dsa.Dlist.{Dlist, dlist_front_push, dlist_back_push}

-- The dlist holds the distinct nodes `ns`, from head to tail, and counts them.
pub record Represents (s : Dlist) (ns : List ℕ) : Type 0 where
  pub chain : Chain s.links null ns null
  pub distinct : Distinct ns
  pub head : s.head ≡ first ns null
  pub tail : s.tail ≡ last null ns
  pub count : s.count ≡ length ns

pub map-update :
    (f : ℕ → ℕ) (new v : ℕ) (ns : List ℕ) → has new ns ≡ false → map (update f new v) ns ≡ map f ns
map-update f new v [] h = refl
map-update f new v (n ∷ ns) h = ground (arith, map-update f new v ns)

pub miss : (a b v w : ℕ) → a ≢ b → (if a == b then v else w) ≡ w
miss a b v w h = ground arith

pub hit : (b v w : ℕ) → (if b == b then v else w) ≡ v
hit b v w = ground arith

second : (a b v w z : ℕ) → a ≢ b → (if a == b then v else if b == b then w else z) ≡ w
second a b v w z h = ground arith

-- The two pointers of every node behind an operation, and the other fields.
pub record Fields (s : Dlist) (next prev : ℕ → ℕ) (head tail count : ℕ) : Type 0 where
  pub at_next : (a : ℕ) → s.links.next a ≡ next a
  pub at_prev : (a : ℕ) → s.links.prev a ≡ prev a
  pub at_head : s.head ≡ head
  pub at_tail : s.tail ≡ tail
  pub at_count : s.count ≡ count

pub last-ne_null : (s : Dlist) (x : ℕ) (xs : List ℕ) → Represents s (x ∷ xs) → last x xs ≢ null
last-ne_null s x xs r =
    ne_null_of_has s.links null null (last x xs) (x ∷ xs) r.chain (has-last x xs)

front_pushed :
    (new v x : ℕ) (s : Dlist)
    → s.head ≡ x
    → x ≢ null
    → s.tail ≢ null
    → Fields
        (dlist_front_push new v s)
        (λ a. if new == a then x else s.links.next a)
        (λ a. if x == a then new else if new == a then null else s.links.prev a)
        new
        s.tail
        ((s.count + 1) % 2 ^ 64)
unfolding dlist_front_push
front_pushed new v x s h nx nt = record {
  at_next = λ a. ground arith;
  at_prev = λ a. ground arith;
  at_head = refl;
  at_tail = ground arith;
  at_count = refl;
}

back_pushed :
    (new v x : ℕ) (s : Dlist)
    → s.tail ≡ x
    → x ≢ null
    → s.head ≢ null
    → Fields
        (dlist_back_push new v s)
        (λ a. if x == a then new else if new == a then null else s.links.next a)
        (λ a. if new == a then x else s.links.prev a)
        s.head
        new
        ((s.count + 1) % 2 ^ 64)
unfolding dlist_back_push
back_pushed new v x s h nx nh = record {
  at_next = λ a. ground arith;
  at_prev = λ a. ground arith;
  at_head = ground arith;
  at_tail = refl;
  at_count = refl;
}

-- A node that is not in the dlist becomes its first one.
pub dlist_front_push-Represents :
    (new v : ℕ) {s : Dlist} (ns : List ℕ)
    → Represents s ns
    → new ≢ null
    → has new ns ≡ false
    → length ns + 1 < 2 ^ 64
    → Represents (dlist_front_push new v s) (new ∷ ns)
dlist_front_push-Represents new v {s} [] r ne out room =
    unfold dlist_front_push in
    record {
      chain = ground (arith, r.head);
      distinct = ground arith;
      head = refl;
      tail = ground (arith, r.tail);
      count = omega (arith, r.count);
    }
dlist_front_push-Represents new v {s} (x ∷ xs) r ne out room =
    let t : Dlist = dlist_front_push new v s in
    let far : x ≢ new = λ q. has_ne new x xs out q in
    let e = front_pushed new v x s r.head r.chain.0 (λ q. last-ne_null s x xs r (sym r.tail ∙ q)) in
    record {
      chain = (
        ne,
        e.at_prev new ∙ ground (arith, far),
        e.at_next new ∙ ground arith,
        Chain-reback s.links t.links null new null (x ∷ xs) r.distinct
            (λ a k. e.at_next a ∙ miss new a x (s.links.next a) (ne_of_has new a (x ∷ xs) out k))
            (λ a k n.
              e.at_prev a
              ∙ (miss x a new _ (λ q. n (sym q))
                  ∙ miss new a null (s.links.prev a) (ne_of_has new a (x ∷ xs) out k)))
            (λ k. e.at_prev x ∙ ground arith) r.chain,
      );
      distinct = (out, r.distinct);
      head = e.at_head;
      tail = e.at_tail ∙ r.tail;
      count = omega (arith, e.at_count, r.count);
    }

singleton-Chain :
    (l : Links) (new before : ℕ)
    → new ≢ null
    → l.prev new ≡ before
    → l.next new ≡ null
    → Chain l before (new ∷ []) null
singleton-Chain l new before ne p n = (ne, p, n, tt)

snoc-Distinct :
    (xs : List ℕ) (new : ℕ) → Distinct xs → has new xs ≡ false → Distinct (xs ++ new ∷ [])
snoc-Distinct [] new d out = (refl, tt)
snoc-Distinct (x ∷ xs) new d out = (
  ground (arith, has-append x xs (new ∷ []), d.0),
  snoc-Distinct xs new d.1 (has_tail new x xs out),
)

-- A node that is not in the dlist becomes its last one.
pub dlist_back_push-Represents :
    (new v : ℕ) {s : Dlist} (ns : List ℕ)
    → Represents s ns
    → new ≢ null
    → has new ns ≡ false
    → length ns + 1 < 2 ^ 64
    → Represents (dlist_back_push new v s) (ns ++ new ∷ [])
dlist_back_push-Represents new v {s} [] r ne out room =
    unfold dlist_back_push in
    record {
      chain = ground (arith, r.tail);
      distinct = ground arith;
      head = ground (arith, r.head);
      tail = refl;
      count = omega (arith, r.count);
    }
dlist_back_push-Represents new v {s} (x ∷ xs) r ne out room =
    let t : Dlist = dlist_back_push new v s in
    let p : ℕ = last x xs in
    let np = last-ne_null s x xs r in
    let far : p ≢ new = λ q. ne_of_has new p (x ∷ xs) out (has-last x xs) (sym q) in
    let e = back_pushed new v p s r.tail np (λ q. r.chain.0 (sym r.head ∙ q)) in
    record {
      chain =
          Chain-join t.links null null (x ∷ xs) (new ∷ [])
            (Chain-retarget s.links t.links null null new x xs r.distinct
              (λ a k. e.at_prev a ∙ miss new a p (s.links.prev a) (ne_of_has new a (x ∷ xs) out k))
              (λ a k n.
                e.at_next a
                ∙ (miss p a new _ (λ q. n (sym q))
                    ∙ miss new a null (s.links.next a) (ne_of_has new a (x ∷ xs) out k)))
              (e.at_next p ∙ hit p new _) r.chain)
            (singleton-Chain t.links new p ne (e.at_prev new ∙ hit new p (s.links.prev new))
              (e.at_next new ∙ second p new new null (s.links.next new) far));
      distinct = snoc-Distinct (x ∷ xs) new r.distinct out;
      head = e.at_head ∙ r.head;
      tail = e.at_tail ∙ sym (last-append null (x ∷ xs) (new ∷ []));
      count = omega (arith, e.at_count, r.count, length-append (x ∷ xs) (new ∷ []));
    }
