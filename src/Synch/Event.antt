-- ===== src/Synch/Event.antt =====
-- The broadcast event of uthread/event.c.
pub mod Laws
use so_2021v_li42d.Base.{
  ℕ, zero, suc, ◌+◌, ◌<◌, ◌≡◌, refl, Bool, true, false, not, Option, none, some, List, [], ◌∷◌,
  ◌++◌, arith, if◌then◌else◌, update, length, map,
}
use so_2021v_li42d.EntryList.{init_list_head, is_list_empty, insert_list_last, remove_list_first}
use so_2021v_li42d.Uthread.{State, container_of, ut_activate, ut_deactivate}
use so_2021v_li42d.Synch.{World, with_links, init_waitblock}

-- The field `waiters` follows the flag, at the alignment of a pointer.
abbrev pub waiters_of : ℕ → ℕ
waiters_of event = event + 8

unfoldable pub event_init : ℕ → World → World
event_init event w =
    with_links (record w { signaled = update w.signaled event false })
      (init_list_head w.kernel.links (waiters_of event))

unfoldable pub event_value : ℕ → World → Bool
event_value event w = w.signaled event

-- `wblock` is the address of the local wait block.
unfoldable pub event_wait : (wblock ret_addr event : ℕ) → World → World
event_wait wblock ret_addr event w =
    if w.signaled event
    then w
    else let w1 = init_waitblock wblock w in
      let w2 = with_links w1 (insert_list_last w1.kernel.links (waiters_of event) wblock) in
      record w2 { kernel = ut_deactivate ret_addr w2.kernel }

-- One round of the loop in `event_set`.
unfoldable pub event_wake : ℕ → World → World
event_wake event w =
    let (l, curr) = remove_list_first w.kernel.links (waiters_of event) in
    let pwblock = container_of curr 0 in
    let w1 = with_links w l in record w1 { kernel = ut_activate (w1.thread pwblock) w1.kernel }

-- The loop, with fuel.
unfoldable pub event_set_loop : ℕ → ℕ → World → Option World
event_set_loop zero event w = none
event_set_loop (suc fuel) event w =
    let rest = event_set_loop fuel event (event_wake event w) in
    if is_list_empty w.kernel.links (waiters_of event) then some w else rest

unfoldable pub event_set : ℕ → ℕ → World → Option World
event_set fuel event w =
    event_set_loop fuel event (record w { signaled = update w.signaled event true })
