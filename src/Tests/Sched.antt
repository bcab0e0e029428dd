-- ===== src/Tests/Sched.antt =====
-- Runs of the theorems on kernel/src/smp/sched.c. The idle task is at 1.
use goofyos.Base.{ℕ, ◌≡◌, refl, arith, [], ◌∷◌, if◌then◌else◌, ◌==◌, All}
use goofyos.Smp.Sched.{Scheduler, Machine, schedule}
use goofyos.Smp.Sched.Fifo.{Holds}
use goofyos.Smp.Sched.Drained.{IsDrained, enqueue, dequeue, handed_out, handed_out_drained}
use goofyos.Smp.Sched.Switch.{Switched, schedule_round}

-- The task 20 entered after the task 10.
abbrev two_tasks : Scheduler
two_tasks = record {
  links = record { next = λ a. if a == 20 then 10 else 0; prev = λ a. if a == 10 then 20 else 0 };
  head = 20;
  tail = 10;
}

two_tasks-Holds : Holds 1 two_tasks 20 (10 ∷ [])
two_tasks-Holds = record {
  chain = (omega arith, refl, refl, (omega arith, refl, refl, tt));
  distinct = (refl, (refl, tt));
  head = refl;
  tail = refl;
  busy = refl;
}

abbrev drained : Scheduler
drained = record { links = record { next = λ a. 0; prev = λ a. 0 }; head = 10; tail = 0 }

drained-IsDrained : IsDrained drained
drained-IsDrained = record { tail = refl; head = omega arith }

-- The CPU 0 runs the task 30; registers are a number.
abbrev machine : Scheduler → Machine ℕ
machine s = record {
  scheduler = s;
  regs = λ a. a;
  cr3 = λ a. 4096;
  current_task = λ cpu. 30;
  preempt_count = λ cpu. 0;
}

handed_out_drained_example :
    All (λ t. t ≡ 1) (handed_out 1 (enqueue 20 ∷ dequeue ∷ enqueue 30 ∷ dequeue ∷ []) drained)
handed_out_drained_example =
    handed_out_drained 1 (enqueue 20 ∷ dequeue ∷ enqueue 30 ∷ dequeue ∷ []) drained
      drained-IsDrained

schedule_round_example :
    let out = schedule 1 0 0 77 (machine two_tasks) in
    Switched 0 0 77 (machine two_tasks) 30 10 out × Holds 1 out.1.scheduler 30 (20 ∷ [])
schedule_round_example =
    schedule_round 1 0 0 77 (machine two_tasks) (20 ∷ []) two_tasks-Holds refl refl (omega arith)
      (omega arith) refl
