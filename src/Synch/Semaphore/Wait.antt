-- ===== src/Synch/Semaphore/Wait.antt =====
-- `sem_wait`: taking units at once, or waiting in order of arrival.
use so_2021v_li42d.Base.{ℕ, ◌-◌, ◌^◌, ◌≤◌, ◌<◌, ◌≡◌, List, [], ◌∷◌, arith, update}
use so_2021v_li42d.Base.Int.{pos, wrap_int-sub}
use so_2021v_li42d.EntryList.Insert.{is_list_empty-nil}
use so_2021v_li42d.Uthread.Spec.{Sched}
use so_2021v_li42d.Synch.{World}
use so_2021v_li42d.Synch.Parked.{Parked}
use so_2021v_li42d.Synch.Semaphore.{sem_wait}

-- With enough units and nobody waiting, `sem_wait` takes the units and does nothing else: the thread
-- goes on.
pub sem_wait-taken :
    (w : World) (sem n u wb ret_addr : ℕ) (s : Sched)
    → Parked w s sem []
    → w.units sem ≡ pos n
    → n < 2 ^ 31
    → u ≤ n
    → sem_wait wb ret_addr sem (pos u) w ≡ record w { units = update w.units sem (pos (n - u)) }
unfolding sem_wait
sem_wait-taken w sem n u wb ret_addr s k has_n small enough =
    rw (is_list_empty-nil w.kernel.links sem k.ring, has_n, wrap_int-sub n u small enough)
      (ground arith)

-- What a thread finds when it has to wait: others before it, or too few units.
abbrev pub Blocks : ℕ → ℕ → List ℕ → Type 0
Blocks n u [] = n < u
Blocks n u (x ∷ xs) = Unit
