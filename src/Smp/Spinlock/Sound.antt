-- ===== src/Smp/Spinlock/Sound.antt =====
-- What holds in every reachable state of the spin locks of kernel/src/arch/x86-64/spinlock.c: the owners
-- of the locks, and each core's count and interrupt flag.
use goofyos.Base.{
  ℕ, suc, ◌+◌, ◌-◌, ◌≡◌, ◌≢◌, ◌⊎◌, refl, sym, ap, Bool, true, false, List, [], ◌∷◌, ◌==◌,
  if◌then◌else◌, length, arith, inl, inr, Bool-cases, ==→eq, ==_self,
}
use goofyos.Dsa.Links.Chain.{has}
use goofyos.Smp.Spinlock.{
  Pc, outside, popping, restoring, counting, spinning, Core, System, set_core, set_lock, without,
  begin_acquire, begin_release, exchange, advance_from, advance, Step, acquire, release, go, Reach,
  here, later, start,
}
use goofyos.Smp.Spinlock.Owners.{Owners, Owners-same, Owners-take, Owners-drop, length-without}

-- A pushcli without its popcli, or the reverse.
unfoldable pub pending : Pc → ℕ
pending outside = 0
pending restoring = 0
pending popping = 1
pending (counting l) = 1
pending (spinning l) = 1

-- Whether the interrupts may be on.
unfoldable pub quiet : Pc → Bool
quiet outside = true
quiet (counting l) = true
quiet restoring = false
quiet popping = false
quiet (spinning l) = false

-- The count is that of the locks held and of the call in progress. The interrupts are off while a lock
-- is held.
pub record IsSound (c : Core) : Type 0 where
  pub counted : c.cli_count ≡ length c.held + pending c.pc
  pub off : c.enabled ≡ true → (c.held ≡ []) × (quiet c.pc ≡ true)
  pub last : c.pc ≡ restoring → c.held ≡ []

abbrev pub holds : System → ℕ → List ℕ
holds s i = let c : Core = s.core i in c.held

pub record Sound (s : System) : Type 0 where
  pub owners : Owners s.locked (holds s)
  pub each : (i : ℕ) → IsSound (s.core i)

pub set_core_self : (i : ℕ) (c : Core) (cores : ℕ → Core) → set_core i c cores i ≡ c
set_core_self i c cores = rw (==_self i) refl

pub set_core_other :
    (i j : ℕ) (c : Core) (cores : ℕ → Core) → i ≢ j → set_core i c cores j ≡ cores j
set_core_other i j c cores d = ground arith

each-set :
    (i : ℕ) (c : Core) (cores : ℕ → Core)
    → IsSound c
    → ((j : ℕ) → IsSound (cores j))
    → (j : ℕ) → IsSound (set_core i c cores j)
each-set i c cores one all j = elim (Bool-cases (i == j)) [
  | inl e ↦ rw e one
  | inr e ↦ rw e (all j)
]

held_set :
    (i : ℕ) (c : Core) (cores : ℕ → Core)
    → c.held ≡ (cores i).held
    → (j : ℕ) → (set_core i c cores j).held ≡ (cores j).held
held_set i c cores same j = elim (Bool-cases (i == j)) [
  | inl e ↦ let here = ==→eq i j e in rw (e, same, here) refl
  | inr e ↦ rw e refl
]

pub false-true : false ≡ true → ⊥
false-true x = cc

pub no_lock : (l : ℕ) (ks : List ℕ) → has l ks ≡ true → ks ≢ []
no_lock l ks h e = false-true (rw e at h)

acquire-IsSound :
    (l : ℕ) (c : Core)
    → IsSound c
    → c.pc ≡ outside
    → IsSound (record c { pc = counting l; cli_count = suc c.cli_count })
unfolding pending quiet
acquire-IsSound l c o out = record {
  counted = ground (arith, o.counted);
  off = λ on. ((o.off on).0, refl);
  last = λ e. cc;
}

release-IsSound :
    (l : ℕ) (c : Core)
    → IsSound c
    → c.pc ≡ outside
    → has l c.held ≡ true
    → IsSound (record c { pc = popping; held = without l c.held })
unfolding pending quiet
release-IsSound l c o out h = record {
  counted =
      let n = length-without l c.held h in let k = o.counted in ground (arith, rw out at k, n);
  off = λ on. absurd (no_lock l c.held h (o.off on).0);
  last = λ e. cc;
}

cli-IsSound :
    (l : ℕ) (c : Core)
    → IsSound c
    → c.pc ≡ counting l
    → IsSound (record c { pc = spinning l; enabled = false })
unfolding pending quiet
cli-IsSound l c o w = record {
  counted = let k = o.counted in rw w at k;
  off = λ on. cc;
  last = λ e. cc;
}

got-IsSound :
    (l : ℕ) (c : Core)
    → IsSound c
    → c.pc ≡ spinning l
    → IsSound (record c { pc = outside; held = l ∷ c.held })
unfolding pending quiet
got-IsSound l c o w = record {
  counted = let k = o.counted in ground (arith, rw w at k);
  off = λ on. let q = (o.off on).1 in absurd (false-true (rw w at q));
  last = λ e. cc;
}

pub none_left : (ks : List ℕ) → length ks ≡ 0 → ks ≡ []
none_left [] e = refl
none_left (k ∷ ks) e = cc

popcli-IsSound :
    (c : Core)
    → IsSound c
    → c.pc ≡ popping
    → let n : ℕ = c.cli_count - 1 in
      IsSound (record c { pc = if n == 0 then restoring else outside; cli_count = n })
unfolding pending quiet
popcli-IsSound c o w =
    let k = o.counted in
    elim (Bool-cases (c.cli_count - 1 == 0)) [
      | inl e ↦ rw e (record {
        counted = ground (arith, rw w at k);
        off = λ on. let q = (o.off on).1 in absurd (false-true (rw w at q));
        last = λ r. none_left c.held (ground (arith, rw w at k));
      })
      | inr e ↦ rw e (record {
        counted = ground (arith, rw w at k);
        off = λ on. let q = (o.off on).1 in absurd (false-true (rw w at q));
        last = λ r. cc;
      })
    ]

sti-IsSound :
    (c : Core) → IsSound c → c.pc ≡ restoring → IsSound (record c { pc = outside; enabled = true })
unfolding pending quiet
sti-IsSound c o w = record {
  counted = let k = o.counted in rw w at k;
  off = λ on. (o.last w, refl);
  last = λ e. cc;
}

acquire-Sound :
    (i l : ℕ) (s : System) → Sound s → (s.core i).pc ≡ outside → Sound (begin_acquire i l s)
acquire-Sound i l s o out = record {
  owners = Owners-same o.owners (held_set i _ s.core refl) (λ k. inl refl);
  each = each-set i _ s.core (acquire-IsSound l (s.core i) (o.each i) out) o.each;
}

release-Sound :
    (i l : ℕ) (s : System)
    → Sound s
    → (s.core i).pc ≡ outside
    → has l (holds s i) ≡ true
    → Sound (begin_release i l s)
release-Sound i l s o out h =
    let c : Core = s.core i in
    let after : Core = record c { pc = popping; held = without l c.held } in
    record {
      owners =
          Owners-drop o.owners i l h (λ k. refl) (ap (λ x. x.held) (set_core_self i after s.core))
            (λ j d. ap (λ x. x.held) (set_core_other i j after s.core d));
      each = each-set i after s.core (release-IsSound l c (o.each i) out h) o.each;
    }

exchange-Sound :
    (i l : ℕ) (s : System) → Sound s → (s.core i).pc ≡ spinning l → Sound (exchange i l s)
exchange-Sound i l s o w =
    let c : Core = s.core i in
    let got : Core = record c { pc = outside; held = l ∷ c.held } in
    elim (Bool-cases (s.locked l == 0)) [
      | inl e ↦ rw e (record {
        owners =
            Owners-take o.owners i l (ground (arith, e)) (λ k. refl)
              (ap (λ x. x.held) (set_core_self i got s.core))
              (λ j d. ap (λ x. x.held) (set_core_other i j got s.core d));
        each = each-set i got s.core (got-IsSound l c (o.each i) w) o.each;
      })
      | inr e ↦ rw e (record {
        owners = Owners-same o.owners (held_set i c s.core refl) (still l (ground (arith, e)));
        each = each-set i c s.core (o.each i) o.each;
      })
    ]
  where
    still :
        (l : ℕ)
        → s.locked l ≢ 0
        → (k : ℕ)
        → (set_lock l 1 s.locked k ≡ s.locked k)
          ⊎ ((s.locked k ≢ 0) × (set_lock l 1 s.locked k ≡ 1))
    still l n k = elim (Bool-cases (l == k)) [
      | inl e ↦ let same = ==→eq l k e in inr (rw (sym same) n, rw e refl)
      | inr e ↦ inl (rw e refl)
    ]

advance-Sound : (i : ℕ) (s : System) → Sound s → Sound (advance i s)
advance-Sound i s o = from (s.core i).pc refl
  where
    from : (p : Pc) → (s.core i).pc ≡ p → Sound (advance_from p i s)
    from outside w = o
    from (counting l) w = record {
      owners = Owners-same o.owners (held_set i _ s.core refl) (λ k. inl refl);
      each = each-set i _ s.core (cli-IsSound l (s.core i) (o.each i) w) o.each;
    }
    from (spinning l) w = exchange-Sound i l s o w
    from popping w = record {
      owners = Owners-same o.owners (held_set i _ s.core refl) (λ k. inl refl);
      each = each-set i _ s.core (popcli-IsSound (s.core i) (o.each i) w) o.each;
    }
    from restoring w = record {
      owners = Owners-same o.owners (held_set i _ s.core refl) (λ k. inl refl);
      each = each-set i _ s.core (sti-IsSound (s.core i) (o.each i) w) o.each;
    }

-- A step of any core keeps the invariant: a lock that is held is 1 and has one holder, a lock that is not
-- 0 is held, each core's `cli_count` is the number of its locks and calls in progress, and its interrupts
-- are off while it holds a lock.
pub Step-Sound : {s t : System} → Step s t → Sound s → Sound t
Step-Sound (acquire i l out) o = acquire-Sound i l _ o out
Step-Sound (release i l out h) o = release-Sound i l _ o out h
Step-Sound (go i) o = advance-Sound i _ o

pub start-Sound : (enabled : ℕ → Bool) → Sound (start enabled)
unfolding pending quiet
start-Sound enabled = record {
  owners = record {
    locked_one = λ i l h. absurd (false-true h);
    unique = λ i j l h k. absurd (false-true h);
    owned = λ l n. absurd (n refl);
    once = λ i. _;
  };
  each = λ i. record { counted = refl; off = λ on. (refl, refl); last = λ e. refl };
}

pub Reach-Sound : {s t : System} → Sound s → Reach s t → Sound t
Reach-Sound o here = o
Reach-Sound o (later r st) = Step-Sound st (Reach-Sound o r)
