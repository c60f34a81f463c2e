-- ===== src/ThreadPool.antt =====
-- The pool of 18-thread-pool/thread_pool.c (20-net-sockets/03-thread-pool/thread_pool.c has the same
-- functions). The work queue is the list of its work items, as `Monitor.Queue` shows of queue.c; an
-- action is the address of a function, and `death_pill` that of the static `DEATH_PILL`.
pub mod Invariant
pub mod Shutdown
pub mod System
pub mod Worker
use so_2021v_li42d.Base.{
  ℕ, zero, suc, ◌+◌, Bool, true, false, Option, none, some, List, [], ◌∷◌, ◌++◌, if◌then◌else◌,
  ◌==◌,
}

pub record WorkItem : Type 0 where
  pub action : ℕ
  pub arg : ℕ

pub record ThreadPool : Type 0 where
  pub death_pill : ℕ
  pub stopped : Bool
  pub nthreads : ℕ
  pub work_queue : List WorkItem

-- What one round of `thread_pool_worker` comes to: the worker waits in `queue_get`, ends its loop, or
-- calls an action.
pub data Round : Type 0 where
  waits : Round
  ends : ThreadPool → Round
  calls : ThreadPool → WorkItem → Round

unfoldable pub thread_pool_worker : ThreadPool → Round
thread_pool_worker tp = elim tp.work_queue [
  | [] ↦ waits
  | wi ∷ rest ↦
      let tp' = record tp { work_queue = rest } in
      if wi.action == tp.death_pill then ends tp' else calls tp' wi
]

-- The threads are created with the loop above; `nthreads` of them run from then on.
unfoldable pub thread_pool_init : (death_pill nthreads : ℕ) → ThreadPool
thread_pool_init death_pill nthreads = record {
  death_pill = death_pill;
  stopped = false;
  nthreads = nthreads;
  work_queue = [];
}

unfoldable pub thread_pool_internal_submit : ThreadPool → (action arg : ℕ) → ThreadPool
thread_pool_internal_submit tp action arg = record tp {
  work_queue = tp.work_queue ++ record { action = action; arg = arg } ∷ [];
}

unfoldable pub thread_pool_submit : ThreadPool → (action arg : ℕ) → ThreadPool × Bool
thread_pool_submit tp action arg =
    if tp.stopped then (tp, false) else (thread_pool_internal_submit tp action arg, true)

-- The loop of `thread_pool_stop`, with the rounds that are left.
unfoldable pub submit_pills : ℕ → ThreadPool → ThreadPool
submit_pills zero tp = tp
submit_pills (suc n) tp = submit_pills n (thread_pool_internal_submit tp tp.death_pill 0)

unfoldable pub thread_pool_stop : ThreadPool → ThreadPool
thread_pool_stop tp =
    if tp.stopped then tp else submit_pills tp.nthreads (record tp { stopped = true })
