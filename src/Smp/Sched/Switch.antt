-- ===== src/Smp/Sched/Switch.antt =====
-- The context switch of kernel/src/smp/sched.c over the run queue.
use goofyos.Base.{
  ℕ, ◌+◌, ◌-◌, ◌%◌, ◌^◌, ◌≡◌, ◌≢◌, refl, List, [], ◌∷◌, ◌++◌, none, some, false, arith, ◌∙◌, ap,
  ◌==◌, if◌then◌else◌,
}
use goofyos.Dsa.Links.{null, update}
use goofyos.Dsa.Links.Chain.{has}
use goofyos.Smp.Sched.{
  Machine, sched_task, pop_task, save_task, go_to_task, schedule, timer_handler, preempt_disable,
  preempt_enable,
}
use goofyos.Smp.Sched.Drained.{IsDrained, sched_task-IsDrained, pop_task_drained}
use goofyos.Smp.Sched.Fifo.{Holds, sched_task-Holds, pop_task-Holds}

null_test : (c : ℕ) → c ≢ null → (c == null) ≡ false
null_test c h = ground arith

update_self : (f : ℕ → ℕ) (p v : ℕ) → update f p v p ≡ v
update_self f p v = ground arith

preempt_counts :
    {R : Type 0} (cpu : ℕ) (m : Machine R)
    → m.preempt_count cpu ≡ 0
    → ((preempt_disable cpu m).preempt_count cpu ≢ 0)
      × ((preempt_enable cpu (preempt_disable cpu m)).preempt_count cpu ≡ 0)
unfolding preempt_disable preempt_enable
preempt_counts cpu m z = (ground (arith, z), ground (arith, z))

-- What a switch from the task `c` to the task `t` does: the CPU goes on with `t`, the registers
-- `r` are saved for `c` and no other task's are changed.
pub record Switched {R : Type 0} (hhdm cpu : ℕ) (r : R) (m : Machine R) (c t : ℕ)
    (out : (R × ℕ) × Machine R) : Type 0 where
  pub resumed : out.0 ≡ ((if c == t then r else m.regs t), (m.cr3 t + 2 ^ 64 - hhdm) % 2 ^ 64)
  pub current : out.1.current_task cpu ≡ t
  pub saved : (a : ℕ) → out.1.regs a ≡ (if c == a then r else m.regs a)

module _ {R : Type 0} (idle hhdm cpu : ℕ) (r : R) (m : Machine R) where
  save_task_lem :
      (c : ℕ)
      → m.current_task cpu ≡ c
      → c ≢ null
      → save_task cpu r m ≡ record m { regs = λ a. if c == a then r else m.regs a }
  unfolding save_task
  save_task_lem c cur nc = rw (cur, null_test c nc)

  schedule_lem :
      (c : ℕ)
      → m.current_task cpu ≡ c
      → c ≢ null
      → let p = pop_task idle (sched_task idle c m.scheduler) in
        let out = schedule idle hhdm cpu r m in
        Switched hhdm cpu r m c p.0 out × (out.1.scheduler ≡ p.1)
  unfolding schedule go_to_task
  schedule_lem c cur nc =
      rw (save_task_lem c cur nc, cur)
        (
          record { resumed = refl; current = update_self m.current_task cpu _; saved = λ a. refl },
          refl,
        )

  timer_off :
      (k : Machine R) → k.preempt_count cpu ≢ 0 → timer_handler idle hhdm cpu r k ≡ (none, k)
  unfolding timer_handler
  timer_off k h = rw (null_test _ h)

  timer_on :
      (k : Machine R)
      → k.preempt_count cpu ≡ 0
      → (timer_handler idle hhdm cpu r k).0 ≡ some (schedule idle hhdm cpu r k).0
  unfolding timer_handler
  timer_on k h = rw h

  -- With tasks queued, a switch away from a task that is not queued and not the idle task resumes
  -- the oldest queued task and queues the current one as the youngest; the others keep their order.
  pub schedule_round :
      {c t x : ℕ} {xs : List ℕ} (ys : List ℕ)
      → Holds idle m.scheduler x xs
      → x ∷ xs ≡ ys ++ t ∷ []
      → m.current_task cpu ≡ c
      → c ≢ null
      → idle ≢ c
      → has c (x ∷ xs) ≡ false
      → let out = schedule idle hhdm cpu r m in
        Switched hhdm cpu r m c t out × Holds idle out.1.scheduler c ys
  schedule_round {c} {t} {x} {xs} ys h e cur nc busy out =
      let q = sched_task-Holds idle c h nc out busy in
      let p = pop_task-Holds idle ys (rw e at q) in
      let w = schedule_lem c cur nc in (rw p.0 at w.0, rw w.1 (p.1))

  -- Once the queue is drained, a switch away from any task resumes the idle task, and the queue
  -- stays drained.
  pub schedule-IsDrained :
      {c : ℕ}
      → IsDrained m.scheduler
      → m.current_task cpu ≡ c
      → c ≢ null
      → let out = schedule idle hhdm cpu r m in
        Switched hhdm cpu r m c idle out × IsDrained out.1.scheduler
  schedule-IsDrained {c} d cur nc =
      let kept = sched_task-IsDrained idle c m.scheduler d in
      let e = pop_task_drained idle (sched_task idle c m.scheduler) kept in
      let w = schedule_lem c cur nc in (rw e at w.0, rw (w.1 ∙ ap (λ p. p.1) e) kept)

  -- While preemption is disabled, a timer interrupt changes nothing and returns to the interrupted
  -- context; once the same number of calls has enabled it again, the interrupt switches.
  pub timer_preempt :
      m.preempt_count cpu ≡ 0
      → let off = preempt_disable cpu m in
        let on = preempt_enable cpu off in
        (timer_handler idle hhdm cpu r off ≡ (none, off))
        × (on.preempt_count cpu ≡ 0)
        × ((timer_handler idle hhdm cpu r on).0 ≡ some (schedule idle hhdm cpu r on).0)
  timer_preempt z =
      let c = preempt_counts cpu m z in
      (timer_off (preempt_disable cpu m) (λ q. c.0 q), c.1, timer_on _ c.1)
