-- ===== src/Smp/Sched.antt =====
-- The run queue and the context switch of kernel/src/smp/sched.c, with the timer interrupt of
-- kernel/src/arch/x86-64/interrupt-handlers/generic-handler.c. A task is named by its address;
-- `idle` is `&idle_task`. Each function is one critical section of the scheduler's lock.
pub mod Fifo
pub mod Drained
pub mod Switch
use goofyos.Base.{ℕ, ◌+◌, ◌-◌, ◌%◌, ◌^◌, ◌||◌, ◌==◌, if◌then◌else◌, Option, none, some}
use goofyos.Dsa.Links.{Links, null, update, set_next, set_prev}

pub record Scheduler : Type 0 where
  pub links : Links
  pub head : ℕ
  pub tail : ℕ

-- `_sched_task`: a task enters at the head.
unfoldable pub sched_task : ℕ → ℕ → Scheduler → Scheduler
sched_task idle task s =
    if task == idle || task == null
    then s
    else let l : Links = set_prev (set_next s.links task s.head) task null in
      if l.next task == null
      then record { links = l; head = task; tail = task }
      else record { links = set_prev l (l.next task) task; head = task; tail = s.tail }

-- A task leaves at the tail. `head` is not written.
unfoldable pub pop_task : ℕ → Scheduler → ℕ × Scheduler
pop_task idle s =
    if s.tail == null
    then (idle, s)
    else let ret : ℕ = s.tail in
      let tail : ℕ = s.links.prev ret in
      let l : Links = if tail == null then s.links else set_next s.links tail null in
      (ret, record { links = set_next (set_prev l ret null) ret null; head = s.head; tail = tail })

-- What the context switch reads and writes; `R` is `struct registers`.
pub record Machine (R : Type 0) : Type 0 where
  pub scheduler : Scheduler
  pub regs : ℕ → R
  pub cr3 : ℕ → ℕ
  pub current_task : ℕ → ℕ
  pub preempt_count : ℕ → ℕ

module _ {R : Type 0} where
  -- `memcpy(cpu_cores[cpu].current_task->regs, regs, sizeof(struct registers))`
  unfoldable pub save_task : ℕ → R → Machine R → Machine R
  save_task cpu r m =
      let t : ℕ = m.current_task cpu in
      if t == null then m else record m { regs = λ a. if t == a then r else m.regs a }

  -- The registers and the page table that the CPU goes on with, and the new state.
  unfoldable pub go_to_task : ℕ → ℕ → ℕ → Machine R → (R × ℕ) × Machine R
  go_to_task hhdm cpu task m = (
    (m.regs task, (m.cr3 task + 2 ^ 64 - hhdm) % 2 ^ 64),
    record m { current_task = update m.current_task cpu task },
  )

  unfoldable pub schedule : ℕ → ℕ → ℕ → R → Machine R → (R × ℕ) × Machine R
  schedule idle hhdm cpu r m =
      let m₁ : Machine R = save_task cpu r m in
      let s : Scheduler = sched_task idle (m₁.current_task cpu) m₁.scheduler in
      let (target, s') = pop_task idle s in
      go_to_task hhdm cpu target (record m₁ { scheduler = s' })

  unfoldable pub preempt_disable : ℕ → Machine R → Machine R
  preempt_disable cpu m = record m {
    preempt_count = update m.preempt_count cpu ((m.preempt_count cpu + 1) % 2 ^ 64);
  }

  unfoldable pub preempt_enable : ℕ → Machine R → Machine R
  preempt_enable cpu m =
      if m.preempt_count cpu == 0
      then m
      else record m { preempt_count = update m.preempt_count cpu (m.preempt_count cpu - 1) }

  -- `none` is the return to the interrupted context.
  unfoldable pub timer_handler : ℕ → ℕ → ℕ → R → Machine R → Option (R × ℕ) × Machine R
  timer_handler idle hhdm cpu r m =
      if m.preempt_count cpu == 0
      then (let (ctx, m') = schedule idle hhdm cpu r m in (some ctx, m'))
      else (none, m)
