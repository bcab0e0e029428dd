-- ===== src/Smp/Spinlock/Waiting.antt =====
-- What the callers of kernel/src/arch/x86-64/spinlock.c rely on: mutual exclusion, interrupts off in a
-- critical section, and which waits end.
use goofyos.Base.{
  ℕ, suc, ◌-◌, ◌≡◌, ◌≢◌, refl, sym, ◌∙◌, ap, Bool, true, false, List, [], ◌∷◌, ◌==◌, if◌then◌else◌,
  length, arith, inl, inr, Bool-cases, ==→eq, ==_self,
}
use goofyos.Dsa.Links.Chain.{has, has_self}
use goofyos.Smp.Spinlock.{
  Pc, outside, popping, restoring, counting, spinning, Core, System, set_lock, without,
  begin_release, exchange, advance_from, advance, Step, acquire, release, go, Reach, here, later,
  start, acquired, released,
}
use goofyos.Smp.Spinlock.Sound.{
  IsSound, Sound, holds, Reach-Sound, start-Sound, set_core_other, pending, no_lock, none_left,
}

-- In every state that the cores reach from the start, two cores that both hold a lock are the same core.
pub holder_unique :
    (enabled : ℕ → Bool) (s : System)
    → Reach (start enabled) s
    → (i j l : ℕ) → has l (holds s i) ≡ true
    → has l (holds s j) ≡ true
    → i ≡ j
holder_unique enabled s r = (Reach-Sound (start-Sound enabled) r).owners.unique

-- In every state that the cores reach from the start, a core that holds a lock has its interrupts off and
-- its `cli_count` is not 0; a core outside the calls counts exactly the locks it holds.
pub held-interrupts_off :
    (enabled : ℕ → Bool) (s : System)
    → Reach (start enabled) s
    → (i l : ℕ)
    → (has l (holds s i) ≡ true → ((s.core i).enabled ≡ false) × ((s.core i).cli_count ≢ 0))
      × ((s.core i).pc ≡ outside → (s.core i).cli_count ≡ length (holds s i))
unfolding pending
held-interrupts_off enabled s r i l =
    let o = (Reach-Sound (start-Sound enabled) r).each i in
    (
      λ h. (off o h (s.core i).enabled refl, λ e. no_lock l (holds s i) h (none o e)),
      λ out. counted o out,
    )
  where
    off :
        IsSound (s.core i)
        → has l (holds s i) ≡ true
        → (b : Bool) → (s.core i).enabled ≡ b
        → b ≡ false
    off o h false e = refl
    off o h true e = absurd (no_lock l (holds s i) h (o.off e).0)

    none : IsSound (s.core i) → (s.core i).cli_count ≡ 0 → holds s i ≡ []
    none o e = let k = o.counted in none_left (holds s i) (ground (arith, e, k))

    counted :
        IsSound (s.core i) → (s.core i).pc ≡ outside → (s.core i).cli_count ≡ length (holds s i)
    counted o out = let k = o.counted in ground (arith, rw out at k)

without_head : (l : ℕ) (ks : List ℕ) → without l (l ∷ ks) ≡ ks
unfolding without
without_head l ks = rw (==_self l) refl

acquired-core :
    (i l : ℕ) (s : System)
    → s.locked l ≡ 0
    → let c : Core = s.core i in
      (acquired i l s).core i
      ≡ record c { pc = outside; cli_count = suc c.cli_count; enabled = false; held = l ∷ c.held }
unfolding acquired
acquired-core i l s free = rw (==_self i, ==_self i, free, ==_self i) refl

acquired-locked :
    (i l : ℕ) (s : System) (k : ℕ) → (acquired i l s).locked k ≡ set_lock l 1 s.locked k
unfolding acquired
acquired-locked i l s k = rw (==_self i, ==_self i) refl

acquired-Reach : (i l : ℕ) (s : System) → (s.core i).pc ≡ outside → Reach s (acquired i l s)
unfolding acquired
acquired-Reach i l s out = later (later (later here (acquire i l out)) (go i)) (go i)

released-Reach :
    (i l : ℕ) (s : System)
    → (s.core i).pc ≡ outside
    → has l (holds s i) ≡ true
    → Reach s (released i l s)
unfolding released
released-Reach i l s out h = later (later (later here (release i l out h)) (go i)) (go i)

released-locked :
    (i l : ℕ) (s : System) (k : ℕ) → (released i l s).locked k ≡ set_lock l 0 s.locked k
unfolding released
released-locked i l s k = elim (Bool-cases ((s.core i).cli_count - 1 == 0)) [
  | inl e ↦ rw (==_self i, ==_self i, e) refl
  | inr e ↦ rw (==_self i, ==_self i, e) refl
]

Reach-trans : {s t u : System} → Reach s t → Reach t u → Reach s u
Reach-trans r here = r
Reach-trans r (later q st) = later (Reach-trans r q) st

released-core :
    (i l : ℕ) (s : System)
    → let c : Core = s.core i in
      let n : ℕ = c.cli_count - 1 in
      (released i l s).core i ≡ record c {
        pc = outside;
        cli_count = n;
        enabled = if n == 0 then true else c.enabled;
        held = without l c.held;
      }
unfolding released
released-core i l s = elim (Bool-cases ((s.core i).cli_count - 1 == 0)) [
  | inl e ↦ rw (==_self i, ==_self i, e, ==_self i) refl
  | inr e ↦ rw (==_self i, ==_self i, e, ==_self i) refl
]

pc_apart : (s : System) (i j l : ℕ) → (s.core i).pc ≡ outside → (s.core j).pc ≡ spinning l → i ≢ j
pc_apart s i j l a b same = not_both (sym a ∙ ap (λ k. (s.core k).pc) same ∙ b)
  where
    not_both : outside ≡ spinning l → ⊥
    not_both e = cc

advance_other : (s : System) (i j : ℕ) → i ≢ j → (advance i s).core j ≡ s.core j
advance_other s i j d = from (s.core i).pc
  where
    from : (p : Pc) → (advance_from p i s).core j ≡ s.core j
    from outside = refl
    from (counting l) = set_core_other i j _ s.core d
    from (spinning l) = set_core_other i j _ s.core d
    from popping = set_core_other i j _ s.core d
    from restoring = set_core_other i j _ s.core d

-- A core outside the calls that acquires a free lock and releases it, without a step of another core in
-- between, passes only through states that its callers' steps allow. Behind it every lock is as before,
-- and so is the core but for its interrupt flag: the interrupts are on where its `cli_count` was 0, also
-- if they were off before, and off where it was not.
pub acquire-release :
    (s : System) (i l : ℕ)
    → (s.core i).pc ≡ outside
    → s.locked l ≡ 0
    → let t : System = released i l (acquired i l s) in
      let c : Core = s.core i in
      Reach s t
      × (t.core i ≡ record c { enabled = c.cli_count == 0 })
      × ((k : ℕ) → t.locked k ≡ s.locked k)
acquire-release s i l out free =
    let t : System = acquired i l s in
    let e = acquired-core i l s free in
    (
      Reach-trans (acquired-Reach i l s out) (
          released-Reach i l t (ap (λ c. c.pc) e)
            (ap (λ c. has l c.held) e ∙ has_self l (holds s i))),
      released-core i l t ∙ rw e (back (s.core i) out),
      λ k. released-locked i l t k ∙ locks k,
    )
  where
    minus : (n : ℕ) → suc n - 1 ≡ n
    minus n = omega arith

    if_self : (b : Bool) → (if b then true else false) ≡ b
    if_self true = refl
    if_self false = refl

    back :
        (c : Core)
        → c.pc ≡ outside
        → record c {
          pc = outside;
          cli_count = suc c.cli_count - 1;
          enabled = if suc c.cli_count - 1 == 0 then true else false;
          held = without l (l ∷ c.held);
        }
          ≡ record c { enabled = c.cli_count == 0 }
    back c is =
        rw (minus c.cli_count, without_head l c.held, if_self (c.cli_count == 0)) (rw⁻¹ is refl)

    locks : (k : ℕ) → set_lock l 0 (acquired i l s).locked k ≡ s.locked k
    locks k = elim (Bool-cases (l == k)) [
      | inl e ↦ rw (e, sym (==→eq l k e), free) refl
      | inr e ↦ rw (e, acquired-locked i l s k, e) refl
    ]

-- In a state that the cores reach from the start, a core spins on a lock that no core is in the middle of
-- a call with: the lock is free, or its holder is outside the calls. Then some steps lead to a state in
-- which the core holds the lock and has left the loop.
pub waiter-gets :
    (enabled : ℕ → Bool) (s : System)
    → Reach (start enabled) s
    → (i l : ℕ) → (s.core i).pc ≡ spinning l
    → ((j : ℕ) → has l (holds s j) ≡ true → (s.core j).pc ≡ outside)
    → (t : System) × (Reach s t × (has l (holds t i) ≡ true) × ((t.core i).pc ≡ outside))
waiter-gets enabled s r i l w idle = elim (Bool-cases (s.locked l == 0)) [
  | inl e ↦
      let (h, p) = exchanged s w (ground (arith, e)) in (advance i s, (later here (go i), h, p))
  | inr e ↦
      let (j, g) = (Reach-Sound (start-Sound enabled) r).owners.owned l (ground (arith, e)) in
      let t : System = begin_release j l s in
      let same = set_core_other j i _ s.core (pc_apart s j i l (idle j g) w) in
      let (h, p) = exchanged t (ap (λ c. c.pc) same ∙ w) (rw (==_self l) refl) in
      (advance i t, (later (later here (release j l (idle j g) g)) (go i), h, p))
]
  where
    got :
        (t : System)
        → t.locked l ≡ 0
        → (exchange i l t).core i ≡ record (t.core i) { pc = outside; held = l ∷ holds t i }
    got t free = rw (free, ==_self i) refl

    exchanged :
        (t : System)
        → (t.core i).pc ≡ spinning l
        → t.locked l ≡ 0
        → (has l (holds (advance i t) i) ≡ true) × (((advance i t).core i).pc ≡ outside)
    exchanged t w free =
        let e = ap (λ p. (advance_from p i t).core i) w ∙ got t free in
        (ap (λ c. has l c.held) e ∙ has_self l (holds t i), ap (λ c. c.pc) e)

spins :
    (i l : ℕ) (s : System)
    → (s.core i).pc ≡ spinning l
    → s.locked l ≡ 1
    → (advance i s).core i ≡ s.core i
spins i l s w one = ap (λ p. (advance_from p i s).core i) w ∙ exchange_taken
  where
    exchange_taken : (exchange i l s).core i ≡ s.core i
    exchange_taken = rw (one, ==_self i) refl

Stuck : ℕ → Core → Type 0
Stuck l c = (c.pc ≡ spinning l) × (has l c.held ≡ true)

Step-Stuck : (i l : ℕ) {s t : System} → Sound s → Step s t → Stuck l (s.core i) → Stuck l (t.core i)
unfolding Stuck
Step-Stuck i l {s} o (acquire j k out) (w, h) =
    rw (set_core_other j i _ s.core (pc_apart s j i l out w), Stuck) (w, h)
Step-Stuck i l {s} o (release j k out g) (w, h) =
    rw (set_core_other j i _ s.core (pc_apart s j i l out w), Stuck) (w, h)
Step-Stuck i l {s} o (go j) (w, h) = elim (Bool-cases (j == i)) [
  | inl e ↦ let same = ==→eq j i e in rw (same, spins i l s w (o.owners.locked_one i l h)) (w, h)
  | inr e ↦ rw (advance_other s j i (ground arith), Stuck) (w, h)
]

-- In a state that the cores reach from the start, a core spins on a lock that it holds itself. It does so
-- in every state that any steps of all cores lead to.
pub reacquire-spins :
    (enabled : ℕ → Bool) (s t : System)
    → Reach (start enabled) s
    → (i l : ℕ) → (s.core i).pc ≡ spinning l
    → has l (holds s i) ≡ true
    → Reach s t
    → ((t.core i).pc ≡ spinning l) × (has l (holds t i) ≡ true)
unfolding Stuck
reacquire-spins enabled s t r i l w h here = (w, h)
reacquire-spins enabled s t r i l w h (later {t = u} q st) =
    Step-Stuck i l (Reach-Sound (Reach-Sound (start-Sound enabled) r) q) st
      (reacquire-spins enabled s u r i l w h q)
