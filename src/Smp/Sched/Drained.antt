-- ===== src/Smp/Sched/Drained.antt =====
-- The run queue of kernel/src/smp/sched.c once its last task has been popped.
use goofyos.Base.{ℕ, ◌≡◌, ◌≢◌, refl, List, [], ◌∷◌, All, arith}
use goofyos.Dsa.Links.{null}
use goofyos.Smp.Sched.{Scheduler, sched_task, pop_task}

-- No task is at the tail, and yet the head names one.
pub record IsDrained (s : Scheduler) : Type 0 where
  pub tail : s.tail ≡ null
  pub head : s.head ≢ null

pub sched_task-IsDrained :
    (idle task : ℕ) (s : Scheduler) → IsDrained s → IsDrained (sched_task idle task s)
unfolding sched_task
sched_task-IsDrained idle task s d = ground arith

pub pop_task_drained : (idle : ℕ) (s : Scheduler) → IsDrained s → pop_task idle s ≡ (idle, s)
unfolding pop_task
pop_task_drained idle s d = ground (arith, d.tail)

pub data Request : Type 0 where
  enqueue : ℕ → Request
  dequeue : Request

-- The tasks that a sequence of requests hands out.
abbrev pub handed_out : ℕ → List Request → Scheduler → List ℕ
handed_out idle [] s = []
handed_out idle (enqueue t ∷ rs) s = handed_out idle rs (sched_task idle t s)
handed_out idle (dequeue ∷ rs) s = (pop_task idle s).0 ∷ handed_out idle rs (pop_task idle s).1

-- Once the queue is drained, every later pop hands out the idle task, whatever tasks are scheduled
-- in between.
pub handed_out_drained :
    (idle : ℕ) (rs : List Request) (s : Scheduler)
    → IsDrained s
    → All (λ t. t ≡ idle) (handed_out idle rs s)
handed_out_drained idle [] s d = tt
handed_out_drained idle (enqueue t ∷ rs) s d =
    handed_out_drained idle rs (sched_task idle t s) (sched_task-IsDrained idle t s d)
handed_out_drained idle (dequeue ∷ rs) s d =
    rw (pop_task_drained idle s d) (refl, handed_out_drained idle rs s d)
