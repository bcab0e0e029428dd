-- ===== src/Tests/Spinlock.antt =====
-- Runs of the theorems on kernel/src/arch/x86-64/spinlock.c: the cores 0 and 1 and the lock at 7.
use goofyos.Base.{ℕ, ◌≡◌, ◌≢◌, refl, sym, Bool, true, false, length}
use goofyos.Dsa.Links.Chain.{has}
use goofyos.Smp.Spinlock.{
  outside, spinning, Core, System, begin_acquire, advance, acquire, go, Reach, here, later, start,
  acquired, released,
}
use goofyos.Smp.Spinlock.Sound.{holds}
use goofyos.Smp.Spinlock.Waiting.{
  holder_unique, held-interrupts_off, acquire-release, waiter-gets, reacquire-spins,
}

abbrev all_on : ℕ → Bool
all_on i = true

-- The core 0 has the lock.
abbrev taken_state : System
taken_state = advance 0 (advance 0 (begin_acquire 0 7 (start all_on)))

taken-Reach : Reach (start all_on) taken_state
taken-Reach = later (later (later here (acquire 0 7 refl)) (go 0)) (go 0)

-- The core 1 waits for it.
abbrev contested : System
contested = advance 1 (begin_acquire 1 7 taken_state)

contested-Reach : Reach (start all_on) contested
contested-Reach = later (later taken-Reach (acquire 1 7 refl)) (go 1)

-- The core 0 calls acquire again.
abbrev locked_up : System
locked_up = advance 0 (begin_acquire 0 7 taken_state)

locked_up-Reach : Reach (start all_on) locked_up
locked_up-Reach = later (later taken-Reach (acquire 0 7 refl)) (go 0)

abbrev first_core : ℕ
first_core = 0

holder_unique_example : first_core ≡ 0
holder_unique_example = holder_unique all_on contested contested-Reach first_core 0 7 refl refl

held-interrupts_off_example :
    (has 7 (holds contested 0) ≡ true
      → ((contested.core 0).enabled ≡ false) × ((contested.core 0).cli_count ≢ 0))
    × ((contested.core 0).pc ≡ outside → (contested.core 0).cli_count ≡ length (holds contested 0))
held-interrupts_off_example = held-interrupts_off all_on contested contested-Reach 0 7

acquire-release_example :
    let s : System = start (λ i. false) in
    let t : System = released 0 7 (acquired 0 7 s) in
    let c : Core = s.core 0 in
    Reach s t × (t.core 0 ≡ record c { enabled = true }) × ((k : ℕ) → t.locked k ≡ 0)
acquire-release_example = acquire-release (start (λ i. false)) 0 7 refl refl

waiter-gets_example :
    (t : System) × (Reach contested t × (has 7 (holds t 1) ≡ true) × ((t.core 1).pc ≡ outside))
waiter-gets_example = waiter-gets all_on contested contested-Reach 1 7 refl idle
  where
    idle : (j : ℕ) → has 7 (holds contested j) ≡ true → (contested.core j).pc ≡ outside
    idle j h = rw (sym (holder_unique all_on contested contested-Reach 0 j 7 refl h)) refl

reacquire-spins_example :
    let t : System = advance 0 locked_up in
    ((t.core 0).pc ≡ spinning 7) × (has 7 (holds t 0) ≡ true)
reacquire-spins_example =
    reacquire-spins all_on locked_up (advance 0 locked_up) locked_up-Reach 0 7 refl refl
      (later here (go 0))
