-- ===== src/Dsa/Links.antt =====
-- Nodes with a next and a prev pointer, as in kernel/src/include/goofy-os/list.h and sched.h. A
-- node is named by its address, and NULL is 0.
pub mod Chain
use goofyos.Base.{ℕ, Bool, true, false, List, [], ◌∷◌, ◌||◌, ◌==◌, if◌then◌else◌}

pub record Links : Type 0 where
  pub next : ℕ → ℕ
  pub prev : ℕ → ℕ

abbrev pub null : ℕ
null = 0

-- `p->f = v` for one field.
abbrev pub update : (ℕ → ℕ) → ℕ → ℕ → ℕ → ℕ
update f p v q = if p == q then v else f q

abbrev pub set_next : Links → ℕ → ℕ → Links
set_next l p v = record l { next = update l.next p v }

abbrev pub set_prev : Links → ℕ → ℕ → Links
set_prev l p v = record l { prev = update l.prev p v }
