-- ===== src/Synch/Semaphore/Laws.antt =====
-- `sem_post`: which requests are granted, in which order, and what becomes of the units.
use so_2021v_li42d.Base.{ℕ, ◌+◌, ◌<◌, ◌≡◌, true, List, [], ◌∷◌, ◌++◌, map, has, ◌⊎◌}
use so_2021v_li42d.Base.Int.{pos}
use so_2021v_li42d.Uthread.Spec.{Sched}
use so_2021v_li42d.Uthread.Refine.{Refines}
use so_2021v_li42d.Synch.{World}
use so_2021v_li42d.Synch.Parked.{Parked}

-- The units that the wait blocks `ws` ask for, as numbers.
abbrev pub Requests : World → (ℕ → ℕ) → List ℕ → Type 0
Requests w req ws = (x : ℕ) → has x ws ≡ true → w.block_units x ≡ pos (req x)

unfoldable pub total : (ℕ → ℕ) → List ℕ → ℕ
total req [] = 0
total req (x ∷ xs) = req x + total req xs

-- The loop stops at `n` units: no thread waits, no unit is left, or the first request is for more. At 0
-- units it also stops at a request for 0 units.
unfoldable pub Settled : ℕ → (ℕ → ℕ) → List ℕ → Type 0
Settled n req [] = Unit
Settled n req (x ∷ xs) = (n ≡ 0) ⊎ (n < req x)

-- The outcome of the loop: the requests `gs` at the front are granted, `rest` go on waiting.
pub record Granted (w : World) (s : Sched) (sem n : ℕ) (req : ℕ → ℕ) (ws : List ℕ) (w' : World)
    : Type 0 where
  pub gs : List ℕ
  pub rest : List ℕ
  pub left : ℕ
  pub parts : ws ≡ gs ++ rest
  pub kernel : Refines w'.kernel (record s { ready = s.ready ++ map w.thread gs })
  pub waiting : Parked w' (record s { ready = s.ready ++ map w.thread gs }) sem rest
  pub units : w'.units sem ≡ pos left
  pub conserved : left + total req gs ≡ n
  pub settled : Settled left req rest
