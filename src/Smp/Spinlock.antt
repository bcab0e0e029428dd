-- ===== src/Smp/Spinlock.antt =====
-- The spin locks of kernel/src/arch/x86-64/spinlock.c and spinlock.asm, used by any number of cores. A
-- step is one access to memory or to the interrupt flag of one core, so the cores interleave freely.
-- Interrupt handlers take part only through the flag.
pub mod Owners
pub mod Sound
pub mod Waiting
use goofyos.Base.{
  ℕ, zero, suc, ◌+◌, ◌-◌, ◌≡◌, Bool, true, false, List, [], ◌∷◌, ◌==◌, if◌then◌else◌,
}
use goofyos.Dsa.Links.Chain.{has}

-- Where a core stands: outside the two functions, in pushcli behind the count, in the loop of
-- raw_acquire, in popcli before the count, or in popcli before `sti`.
pub data Pc : Type 0 where
  outside popping restoring : Pc
  counting spinning : ℕ → Pc

-- `enabled` is the interrupt flag. `cli_count` is not 0 where popcli decrements it. `held` are the locks
-- that the core's callers have acquired and not released.
pub record Core : Type 0 where
  pub pc : Pc
  pub cli_count : ℕ
  pub enabled : Bool
  pub held : List ℕ

-- `locked` is the field of each `struct spinlock`, by the address of the lock.
pub record System : Type 0 where
  pub locked : ℕ → ℕ
  pub core : ℕ → Core

abbrev pub set_core : ℕ → Core → (ℕ → Core) → ℕ → Core
set_core i c cores j = if i == j then c else cores j

abbrev pub set_lock : ℕ → ℕ → (ℕ → ℕ) → ℕ → ℕ
set_lock l v locked k = if l == k then v else locked k

unfoldable pub without : ℕ → List ℕ → List ℕ
without l [] = []
without l (k ∷ ks) = if l == k then ks else k ∷ without l ks

-- The call of acquire, and the increment in pushcli.
abbrev pub begin_acquire : ℕ → ℕ → System → System
begin_acquire i l s =
    let c : Core = s.core i in
    record s {
      core = set_core i (record c { pc = counting l; cli_count = suc c.cli_count }) s.core;
    }

-- The call of release, and its write.
abbrev pub begin_release : ℕ → ℕ → System → System
begin_release i l s =
    let c : Core = s.core i in
    record s {
      locked = set_lock l 0 s.locked;
      core = set_core i (record c { pc = popping; held = without l c.held }) s.core;
    }

-- The `xchg` of raw_acquire: the lock is 1 behind it, and the loop ends where it was 0.
abbrev pub exchange : ℕ → ℕ → System → System
exchange i l s =
    let c : Core = s.core i in
    let got : Core = record c { pc = outside; held = l ∷ c.held } in
    record s {
      locked = set_lock l 1 s.locked;
      core = set_core i (if s.locked l == 0 then got else c) s.core;
    }

-- The step that a core takes by itself.
abbrev pub advance_from : Pc → ℕ → System → System
advance_from outside i s = s
advance_from (counting l) i s =
    let c : Core = s.core i in
    record s { core = set_core i (record c { pc = spinning l; enabled = false }) s.core }
advance_from (spinning l) i s = exchange i l s
advance_from popping i s =
    let c : Core = s.core i in
    let n : ℕ = c.cli_count - 1 in
    record s {
      core =
          set_core i (record c { pc = if n == 0 then restoring else outside; cli_count = n })
            s.core;
    }
advance_from restoring i s =
    let c : Core = s.core i in
    record s { core = set_core i (record c { pc = outside; enabled = true }) s.core }

abbrev pub advance : ℕ → System → System
advance i s = let c : Core = s.core i in advance_from c.pc i s

-- Callers acquire any lock at any time, and release those that they hold.
pub data Step (s : System) : System → Type 0 where
  acquire : (i l : ℕ) → (s.core i).pc ≡ outside → Step s (begin_acquire i l s)
  release :
      (i l : ℕ)
      → (s.core i).pc ≡ outside
      → has l (s.core i).held ≡ true
      → Step s (begin_release i l s)
  go : (i : ℕ) → Step s (advance i s)

pub data Reach (s : System) : System → Type 0 where
  here : Reach s s
  later : {t u : System} → Reach s t → Step t u → Reach s u

-- Before the first call, with the interrupts on or off.
abbrev pub start : (ℕ → Bool) → System
start enabled = record {
  locked = λ l. 0;
  core = λ i. record { pc = outside; cli_count = 0; enabled = enabled i; held = [] };
}

-- The two calls of a core without a step of another in between; the loop runs once.
unfoldable pub acquired : ℕ → ℕ → System → System
acquired i l s = advance i (advance i (begin_acquire i l s))

unfoldable pub released : ℕ → ℕ → System → System
released i l s = advance i (advance i (begin_release i l s))
