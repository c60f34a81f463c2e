-- ===== src/Synch.antt =====
-- The synchronizers of 15-uthread-synch/uthreads: uthread/waitblock.h, uthread/event.c,
-- uthread/semaphore.c and include/usynch.h. They share memory with the scheduler: a wait block lies
-- on the stack of the thread that waits, and its first field is the list entry.
pub mod Event
pub mod Parked
pub mod Semaphore
use so_2021v_li42d.Base.{ℕ, ◌+◌, Bool, false, if◌then◌else◌, update}
use so_2021v_li42d.Base.Int.{ℤ}
use so_2021v_li42d.EntryList.{Links, insert_list_last, remove_list_first}
use so_2021v_li42d.Uthread.{State, ut_self, ut_activate, container_of}

-- The memory of the scheduler and the fields of wait blocks, events and semaphores by address.
pub record World : Type 0 where
  pub kernel : State
  pub thread : ℕ → ℕ
  pub block_units : ℕ → ℤ
  pub signaled : ℕ → Bool
  pub units : ℕ → ℤ
  pub limit : ℕ → ℤ

abbrev pub with_links : World → Links → World
with_links w l = record w { kernel = record w.kernel { links = l } }

unfoldable pub init_waitblock : ℕ → World → World
init_waitblock waitblock w = record w { thread = update w.thread waitblock (ut_self w.kernel) }
