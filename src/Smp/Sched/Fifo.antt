-- ===== src/Smp/Sched/Fifo.antt =====
-- The run queue of kernel/src/smp/sched.c hands its tasks out in the order in which they entered,
-- as long as it keeps one.
use goofyos.Base.{
  ℕ, ◌≡◌, ◌≢◌, List, [], ◌∷◌, ◌++◌, true, false, arith, ◌∙◌, sym, ◌==◌, if◌then◌else◌,
}
use goofyos.Dsa.Links.{null}
use goofyos.Dsa.Links.Chain.{
  has, Distinct, last, Chain, Chain-split, Chain-retarget, Chain-reback, ne_of_has, has_self,
  Distinct-split, has-last, ne_null_of_has, has_ne, last-append, apart_sym, has_append_false,
}
use goofyos.Smp.Sched.{Scheduler, sched_task, pop_task}
use goofyos.Smp.Sched.Drained.{IsDrained}

-- The queue holds the distinct tasks `x ∷ xs`, the youngest first; none is the idle task.
pub record Holds (idle : ℕ) (s : Scheduler) (x : ℕ) (xs : List ℕ) : Type 0 where
  pub chain : Chain s.links null (x ∷ xs) null
  pub distinct : Distinct (x ∷ xs)
  pub head : s.head ≡ x
  pub tail : s.tail ≡ last x xs
  pub busy : has idle (x ∷ xs) ≡ false

-- The queue before any task has entered.
pub record IsEmpty (s : Scheduler) : Type 0 where
  pub head : s.head ≡ null
  pub tail : s.tail ≡ null

pub sched_task-empty :
    (idle task : ℕ) {s : Scheduler}
    → IsEmpty s
    → task ≢ null
    → idle ≢ task
    → Holds idle (sched_task idle task s) task []
unfolding sched_task
sched_task-empty idle task e ne busy = ground arith

miss : (a b v w : ℕ) → a ≢ b → (if a == b then v else w) ≡ w
miss a b v w h = ground arith

hit : (a b v : ℕ) → (if a == b then null else if b == b then null else v) ≡ null
hit a b v = ground arith

-- The new state, field by field, when a task enters before `x`.
record Entered (s : Scheduler) (task x : ℕ) (r : Scheduler) : Type 0 where
  head : r.head ≡ task
  tail : r.tail ≡ s.tail
  next : (a : ℕ) → r.links.next a ≡ (if task == a then x else s.links.next a)
  prev :
      (a : ℕ)
      → r.links.prev a ≡ (if x == a then task else if task == a then null else s.links.prev a)

sched_task-Entered :
    (idle task x : ℕ) (s : Scheduler)
    → s.head ≡ x
    → x ≢ null
    → task ≢ null
    → idle ≢ task
    → Entered s task x (sched_task idle task s)
unfolding sched_task
sched_task-Entered idle task x s h nx ne busy = record {
  head = ground arith;
  tail = ground arith;
  next = λ a. ground arith;
  prev = λ a. ground arith;
}

-- A task that is not queued, not NULL and not the idle task enters in front of the queued tasks, which
-- keep their order.
pub sched_task-Holds :
    (idle task : ℕ) {s : Scheduler} {x : ℕ} {xs : List ℕ}
    → Holds idle s x xs
    → task ≢ null
    → has task (x ∷ xs) ≡ false
    → idle ≢ task
    → Holds idle (sched_task idle task s) task (x ∷ xs)
sched_task-Holds idle task {s} {x} {xs} h ne out busy =
    let r = sched_task idle task s in
    let e = sched_task-Entered idle task x s h.head h.chain.0 ne busy in
    let far : x ≢ task = λ q. has_ne task x xs out q in
    record {
      chain = (
        ne,
        e.prev task ∙ ground (arith, far),
        e.next task ∙ ground arith,
        Chain-reback s.links r.links null task null (x ∷ xs) h.distinct
            (λ a k. e.next a ∙ miss task a x (s.links.next a) (ne_of_has task a (x ∷ xs) out k))
            (λ a k n.
              e.prev a
              ∙ (miss x a task _ (λ q. n (sym q))
                  ∙ miss task a null (s.links.prev a) (ne_of_has task a (x ∷ xs) out k)))
            (λ k. e.prev x ∙ ground arith) h.chain,
      );
      distinct = (out, h.distinct);
      head = e.head;
      tail = e.tail ∙ h.tail;
      busy = ground (arith, h.busy);
    }

-- The new state, field by field, when `t` leaves behind `p`.
record Left (s : Scheduler) (t p : ℕ) (r : ℕ × Scheduler) : Type 0 where
  returned : r.0 ≡ t
  head : r.1.head ≡ s.head
  tail : r.1.tail ≡ p
  next :
      (a : ℕ)
      → r.1.links.next a ≡ (if t == a then null else if p == a then null else s.links.next a)
  prev : (a : ℕ) → r.1.links.prev a ≡ (if t == a then null else s.links.prev a)

pop_task-Left :
    (idle t p : ℕ) (s : Scheduler)
    → s.tail ≡ t
    → t ≢ null
    → s.links.prev t ≡ p
    → p ≢ null
    → Left s t p (pop_task idle s)
unfolding pop_task
pop_task-Left idle t p s h nt e np = record {
  returned = ground arith;
  head = ground arith;
  tail = ground arith;
  next = λ a. ground arith;
  prev = λ a. ground arith;
}

-- A pop from two or more tasks returns the oldest and leaves the others in order.
pub pop_task-Holds :
    (idle : ℕ) {s : Scheduler} {x t : ℕ} (xs : List ℕ)
    → Holds idle s x (xs ++ t ∷ [])
    → ((pop_task idle s).0 ≡ t) × Holds idle (pop_task idle s).1 x xs
pop_task-Holds idle {s} {x} {t} xs h =
    let r = pop_task idle s in
    let (left, right) = Chain-split s.links null null (x ∷ xs) (t ∷ []) h.chain in
    let (dx, dt, apart) = Distinct-split (x ∷ xs) (t ∷ []) h.distinct in
    let out : has t (x ∷ xs) ≡ false = apart_sym (x ∷ xs) (t ∷ []) t apart (has_self t []) in
    let p : ℕ = last x xs in
    let np = ne_null_of_has s.links null t p (x ∷ xs) left (has-last x xs) in
    let e = pop_task-Left idle t p s (h.tail ∙ last-append x xs (t ∷ [])) right.0 right.1 np in
    let far : (a : ℕ) → has a (x ∷ xs) ≡ true → t ≢ a = λ a k. ne_of_has t a (x ∷ xs) out k in
    (
      e.returned,
      record {
        chain =
            Chain-retarget s.links r.1.links null t null x xs dx
              (λ a k. e.prev a ∙ miss t a null (s.links.prev a) (far a k))
              (λ a k n.
                e.next a
                ∙ (miss t a null _ (far a k) ∙ miss p a null (s.links.next a) (λ q. n (sym q))))
              (e.next p ∙ hit t p (s.links.next p)) left;
        distinct = dx;
        head = e.head ∙ h.head;
        tail = e.tail;
        busy = (has_append_false idle (x ∷ xs) (t ∷ []) h.busy).0;
      },
    )

-- A pop of the only task returns it and leaves the queue drained, its head still naming the task.
pub pop_task-last :
    (idle : ℕ) {s : Scheduler} {x : ℕ}
    → Holds idle s x []
    → ((pop_task idle s).0 ≡ x) × IsDrained (pop_task idle s).1
unfolding pop_task
pop_task-last idle h = ground (arith, h.tail, h.head, h.chain.0, h.chain.1)
