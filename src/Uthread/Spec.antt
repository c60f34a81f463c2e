-- ===== src/Uthread/Spec.antt =====
-- What uthread.h promises of the scheduler: a running thread, a queue of ready threads, a count.
use so_2021v_li42d.Base.{ℕ, ◌+◌, ◌-◌, List, [], ◌∷◌, ◌++◌}

pub record Sched : Type 0 where
  pub running : ℕ
  pub main : ℕ
  pub ready : List ℕ
  pub count : ℕ

-- The first ready thread runs next, and the main thread if there is none.
unfoldable pub dispatch : Sched → Sched
dispatch s = elim s.ready [
  | [] ↦ record s { running = s.main }
  | t ∷ ts ↦ record s { running = t; ready = ts }
]

unfoldable pub activate : ℕ → Sched → Sched
activate t s = record s { ready = s.ready ++ t ∷ [] }

unfoldable pub create : ℕ → Sched → Sched
unfolding activate
create t s = activate t (record s { count = s.count + 1 })

unfoldable pub yield : Sched → Sched
unfolding dispatch activate
yield s = elim s.ready [ [] ↦ s | t ∷ ts ↦ dispatch (activate s.running s) ]

unfoldable pub exit : Sched → Sched
unfolding dispatch
exit s = dispatch (record s { count = s.count - 1 })
