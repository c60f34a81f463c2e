-- ===== src/Examples/Pools.antt =====
-- A pool of two workers and one work item.
use so_2021v_li42d.Base.{ℕ, ◌+◌, ◌≤◌, refl, false, [], ◌∷◌, arith, length}
use so_2021v_li42d.ThreadPool.{
  WorkItem, thread_pool_init, thread_pool_submit, thread_pool_internal_submit,
}
use so_2021v_li42d.ThreadPool.System.{System, Reach, started, later, submit}
use so_2021v_li42d.ThreadPool.Shutdown.{Over, thread_pool_cleanup, thread_pool_cleanup-Over}

abbrev item : WorkItem
item = record { action = 500; arg = 3 }

-- The pill is at 900, and the item is submitted.
abbrev submitted : System
submitted = record {
  pool = record { death_pill = 900; stopped = false; nthreads = 2; work_queue = item ∷ [] };
  workers = 2;
  accepted = item ∷ [];
  called = [];
}

submitted-Reach : Reach 900 2 submitted
unfolding thread_pool_init thread_pool_submit thread_pool_internal_submit
submitted-Reach = later started (submit 500 3 (omega arith) refl)

thread_pool_cleanup-Over_example :
    (k : ℕ) × Over submitted (thread_pool_cleanup k submitted)
    × (k ≤ length submitted.pool.work_queue + 2)
thread_pool_cleanup-Over_example = thread_pool_cleanup-Over (omega arith) submitted-Reach
