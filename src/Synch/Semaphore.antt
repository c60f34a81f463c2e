-- ===== src/Synch/Semaphore.antt =====
-- The counting semaphore of uthread/semaphore.c. The address of a semaphore is that of its first
-- field, the list of waiters; `int` arithmetic wraps around at 32 bits.
pub mod Laws
pub mod Wait
use so_2021v_li42d.Base.{
  ℕ, zero, suc, ◌-◌, Bool, true, false, ◌&&◌, not, Option, none, some, if◌then◌else◌, ◌==◌, update,
}
use so_2021v_li42d.Base.Int.{ℤ, pos, ◌+ℤ◌, ◌-ℤ◌, ltb_ℤ, wrap_int}
use so_2021v_li42d.EntryList.{init_list_head, is_list_empty, insert_list_last, remove_list_first}
use so_2021v_li42d.Uthread.{container_of, ut_activate, ut_deactivate}
use so_2021v_li42d.Synch.{World, with_links, init_waitblock}

unfoldable pub sem_init : (sem : ℕ) (units limit : ℤ) → World → World
sem_init sem units limit w =
    with_links (record w { units = update w.units sem units; limit = update w.limit sem limit })
      (init_list_head w.kernel.links sem)

unfoldable pub init_sem_waitblock : (sem_wblock : ℕ) (units : ℤ) → World → World
unfolding init_waitblock
init_sem_waitblock sem_wblock units w =
    let w1 = init_waitblock sem_wblock w in
    record w1 { block_units = update w1.block_units sem_wblock units }

unfoldable pub sem_wait : (waitblock ret_addr sem : ℕ) (units : ℤ) → World → World
unfolding init_sem_waitblock
sem_wait waitblock ret_addr sem units w =
    if is_list_empty w.kernel.links sem && not (ltb_ℤ (w.units sem) units)
    then record w { units = update w.units sem (wrap_int (w.units sem -ℤ units)) }
    else let w1 = init_sem_waitblock waitblock units w in
      let w2 = with_links w1 (insert_list_last w1.kernel.links sem waitblock) in
      record w2 { kernel = ut_deactivate ret_addr w2.kernel }

-- The addition of units, cut off at the limit.
unfoldable pub sem_add : ℕ → ℤ → World → World
sem_add sem units w =
    let sum = wrap_int (w.units sem +ℤ units) in
    record w { units = update w.units sem (if ltb_ℤ (w.limit sem) sum then w.limit sem else sum) }

-- The last part of a round of the loop in `sem_post`: the first request is granted.
unfoldable pub sem_grant : ℕ → World → World
sem_grant sem w =
    let waitblock = container_of (w.kernel.links.next sem) 0 in
    let w1 = record w {
      units = update w.units sem (wrap_int (w.units sem -ℤ w.block_units waitblock));
    } in
    let w2 = with_links w1 (remove_list_first w1.kernel.links sem).0 in
    record w2 { kernel = ut_activate (w2.thread waitblock) w2.kernel }

-- The loop, with fuel.
unfoldable pub sem_post_loop : ℕ → ℕ → World → Option World
sem_post_loop zero sem w = none
sem_post_loop (suc fuel) sem w =
    let rest = sem_post_loop fuel sem (sem_grant sem w) in
    if ltb_ℤ (pos 0) (w.units sem) && not (w.kernel.links.next sem == sem)
    then (if ltb_ℤ (w.units sem) (w.block_units (container_of (w.kernel.links.next sem) 0))
        then some w
        else rest)
    else some w

unfoldable pub sem_post : (fuel sem : ℕ) (units : ℤ) → World → Option World
sem_post fuel sem units w = sem_post_loop fuel sem (sem_add sem units w)
