-- ===== src/ThreadPool/System.antt =====
-- Work submitted to the pool is executed, and the workers end after `thread_pool_stop`. One client
-- thread at a time calls `thread_pool_submit` and `thread_pool_stop`, as in every program of the
-- repository; the workers run in any order.
use mathlib.Core.List.{append_assoc, append-nil}
use so_2021v_li42d.Base.{
  ℕ, zero, suc, ◌-◌, ◌<◌, ◌≡◌, ◌≢◌, sym, ap, ◌∙◌, ◌⊎◌, Bool, true, false, List, [], ◌∷◌, ◌++◌,
  if◌then◌else◌,
}
use so_2021v_li42d.ThreadPool.{
  WorkItem, ThreadPool, ends, calls, thread_pool_worker, thread_pool_init,
  thread_pool_internal_submit, thread_pool_submit, submit_pills, thread_pool_stop,
}

-- The pool, the workers that have not ended, the work accepted and the actions called, in order.
pub record System : Type 0 where
  pub pool : ThreadPool
  pub workers : ℕ
  pub accepted : List WorkItem
  pub called : List WorkItem

pub data Step (s : System) : System → Type 0 where
  -- a client calls `thread_pool_submit` with an action of its own
  submit :
      (action arg : ℕ) {tp : ThreadPool} {done : Bool}
      → action ≢ s.pool.death_pill
      → thread_pool_submit s.pool action arg ≡ (tp, done)
      → Step s (record s {
        pool = tp;
        accepted =
            if done then s.accepted ++ record { action = action; arg = arg } ∷ [] else s.accepted;
      })
  stop : Step s (record s { pool = thread_pool_stop s.pool })
  work :
      {tp : ThreadPool} {wi : WorkItem}
      → 0 < s.workers
      → thread_pool_worker s.pool ≡ calls tp wi
      → Step s (record s { pool = tp; called = s.called ++ wi ∷ [] })
  finish :
      {tp : ThreadPool}
      → 0 < s.workers
      → thread_pool_worker s.pool ≡ ends tp
      → Step s (record s { pool = tp; workers = s.workers - 1 })

abbrev pub start : (death_pill nthreads : ℕ) → System
start death_pill nthreads = record {
  pool = thread_pool_init death_pill nthreads;
  workers = nthreads;
  accepted = [];
  called = [];
}

pub data Reach (pill n : ℕ) : System → Type 0 where
  started : Reach pill n (start pill n)
  later : {s t : System} → Reach pill n s → Step s t → Reach pill n t

-- The death pills that a stopped pool has for `k` workers.
unfoldable pub pills : ℕ → ℕ → List WorkItem
pills pill zero = []
pills pill (suc k) = record { action = pill; arg = 0 } ∷ pills pill k

-- No work item of a client is a death pill.
abbrev pub Tasks : ℕ → List WorkItem → Type 0
Tasks pill [] = Unit
Tasks pill (wi ∷ rest) = (wi.action ≢ pill) × Tasks pill rest

-- Behind the work that is left there is a death pill for each worker once the pool is stopped, and no
-- worker has ended as long as there is work.
pub record Inv (pill n : ℕ) (s : System) : Type 0 where
  pub todo : List WorkItem
  pub left : List WorkItem
  pub pill_is : s.pool.death_pill ≡ pill
  pub size : s.pool.nthreads ≡ n
  pub queue : s.pool.work_queue ≡ todo ++ left
  pub tasks : Tasks pill todo
  pub order : s.accepted ≡ s.called ++ todo
  pub manned : (todo ≡ []) ⊎ (s.workers ≡ n)
  pub ending :
      ((s.pool.stopped ≡ false) × (left ≡ []) × (s.workers ≡ n))
      ⊎ ((s.pool.stopped ≡ true) × (left ≡ pills pill s.workers))

pub submit_pills-pills :
    (k : ℕ) (tp : ThreadPool)
    → submit_pills k tp ≡ record tp { work_queue = tp.work_queue ++ pills tp.death_pill k }
unfolding submit_pills pills thread_pool_internal_submit
submit_pills-pills zero tp = ap (λ l. record tp { work_queue = l }) (sym (append-nil tp.work_queue))
submit_pills-pills (suc k) tp =
    submit_pills-pills k (thread_pool_internal_submit tp tp.death_pill 0)
    ∙ ap (λ l. record tp { work_queue = l }) (append_assoc tp.work_queue _ (pills tp.death_pill k))

pub Tasks-snoc :
    (pill : ℕ) (ts : List WorkItem) (wi : WorkItem)
    → Tasks pill ts
    → wi.action ≢ pill
    → Tasks pill (ts ++ wi ∷ [])
Tasks-snoc pill [] wi t ne = (ne, tt)
Tasks-snoc pill (x ∷ ts) wi t ne = (t.0, Tasks-snoc pill ts wi t.1 ne)
