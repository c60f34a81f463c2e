-- ===== src/Synch/Event/Laws.antt =====
-- `event_wait` and `event_set` of uthread/event.c.
use mathlib.Core.Path.{subst}
use mathlib.Core.List.{append_assoc, append-nil}
use so_2021v_li42d.Base.{
  ℕ, zero, suc, ◌-◌, ◌<◌, ◌≡◌, refl, true, false, some, List, [], ◌∷◌, ◌++◌, arith, update,
  update_self, ◌∙◌, length, map,
}
use so_2021v_li42d.EntryList.{remove_list_first}
use so_2021v_li42d.EntryList.Ring.{IsRing}
use so_2021v_li42d.EntryList.Insert.{is_list_empty-nil, is_list_empty-cons}
use so_2021v_li42d.EntryList.Remove.{remove_list_first-IsRing}
use so_2021v_li42d.Uthread.{ut_self}
use so_2021v_li42d.Uthread.Spec.{Sched, dispatch, activate}
use so_2021v_li42d.Uthread.Refine.{Refines}
use so_2021v_li42d.Synch.{World, init_waitblock}
use so_2021v_li42d.Synch.Parked.{
  Parked, FreshBlock, wake_first, wake_first-Refines, wake_first-Parked, park-Refines, park-Parked,
  own_block, own_block-Parked, own_block-FreshBlock, Parked-fields,
}
use so_2021v_li42d.Synch.Event.{waiters_of, event_wait, event_wake, event_set_loop, event_set}

-- A round of the loop wakes the first of the waiting threads.
event_wake-first :
    (w : World) (event x : ℕ) (xs : List ℕ)
    → IsRing w.kernel.links (waiters_of event) (x ∷ xs)
    → event_wake event w ≡ wake_first (waiters_of event) x w
unfolding event_wake
event_wake-first w event x xs ring =
    let first = (remove_list_first-IsRing w.kernel.links (waiters_of event) x xs ring).0 in
    let is : (remove_list_first w.kernel.links (waiters_of event)).1 - 0 ≡ x =
      omega (arith, first) in
    rw is

-- All that `event_set` promises of its result `w'`.
pub record AllWoken (w : World) (s : Sched) (event : ℕ) (ws : List ℕ) (w' : World) : Type 0 where
  pub kernel : Refines w'.kernel (record s { ready = s.ready ++ map w.thread ws })
  pub waiters : IsRing w'.kernel.links (waiters_of event) []
  pub signaled : w'.signaled event ≡ w.signaled event

event_set_loop-AllWoken :
    (fuel : ℕ) (w : World) (s : Sched) (event : ℕ) (ws : List ℕ)
    → Refines w.kernel s
    → Parked w s (waiters_of event) ws
    → length ws < fuel
    → (w' : World) × (event_set_loop fuel event w ≡ some w') × AllWoken w s event ws w'
unfolding event_set_loop activate
event_set_loop-AllWoken zero w s event ws r k enough = absurd (omega arith)
event_set_loop-AllWoken (suc fuel) w s event [] r k enough = (
  w,
  rw (is_list_empty-nil w.kernel.links (waiters_of event) k.ring),
  record { kernel = rw (append-nil s.ready) r; waiters = k.ring; signaled = refl },
)
event_set_loop-AllWoken (suc fuel) w s event (x ∷ xs) r k enough =
    let head = waiters_of event in
    let next = wake_first head x w in
    let (w', run, all) =
      event_set_loop-AllWoken fuel next (activate (w.thread x) s) event xs
        (wake_first-Refines w s head x xs r k) (wake_first-Parked w s head x xs r k)
        (omega arith) in
    (
      w',
      rw (is_list_empty-cons w.kernel.links head x xs k.ring, event_wake-first w event x xs k.ring)
          run,
      record {
        kernel =
            subst (λ l. Refines w'.kernel (record s { ready = l }))
              (append_assoc s.ready (w.thread x ∷ []) (map w.thread xs)) all.kernel;
        waiters = all.waiters;
        signaled = all.signaled;
      },
    )

-- `event_set`, with fuel for one round more than there are waiting threads, ends; it leaves the event
-- signaled and without waiters, and all threads that waited are ready, in the order in which they
-- came, behind those that were ready before.
pub event_set-AllWoken :
    (fuel : ℕ) (w : World) (s : Sched) (event : ℕ) (ws : List ℕ)
    → Refines w.kernel s
    → Parked w s (waiters_of event) ws
    → length ws < fuel
    → (w' : World) × (event_set fuel event w ≡ some w')
      × Refines w'.kernel (record s { ready = s.ready ++ map w.thread ws })
      × IsRing w'.kernel.links (waiters_of event) []
      × (w'.signaled event ≡ true)
unfolding event_set
event_set-AllWoken fuel w s event ws r k enough =
    let w1 = record w { signaled = update w.signaled event true } in
    let k1 = Parked-fields w s (waiters_of event) ws w1.signaled w.units k in
    let (w', run, all) = event_set_loop-AllWoken fuel w1 s event ws r k1 enough in
    (w', run, all.kernel, all.waiters, all.signaled ∙ update_self w.signaled event true)

-- `event_wait` on an event that is not signaled puts the caller at the end of the waiting threads and
-- lets the next thread run; on a signaled event it changes nothing.
pub event_wait-Parked :
    (w : World) (s : Sched) (event wblock ret_addr : ℕ) (ws : List ℕ)
    → Refines w.kernel s
    → Parked w s (waiters_of event) ws
    → FreshBlock w s (waiters_of event) wblock ws
    → (w.signaled event ≡ true → event_wait wblock ret_addr event w ≡ w)
      × (w.signaled event ≡ false
          → Refines (event_wait wblock ret_addr event w).kernel (dispatch s)
            × Parked
                (event_wait wblock ret_addr event w)
                (dispatch s)
                (waiters_of event)
                (ws ++ wblock ∷ [])
            × ((event_wait wblock ret_addr event w).thread wblock ≡ s.running))
unfolding event_wait init_waitblock ut_self
event_wait-Parked w s event wblock ret_addr ws r k f =
    let head = waiters_of event in
    let w1 = own_block wblock w.block_units w in
    let k1 = own_block-Parked w s head wblock w.block_units ws k (ground (arith, f.elsewhere)) in
    let f1 =
      own_block-FreshBlock w s head wblock w.block_units ws k (ground (arith, f.elsewhere)) f in
    let mine : w1.thread wblock ≡ s.running = ground (arith, r.running) in
    (
      λ on. rw on,
      λ off. rw off (
        park-Refines w1 s head wblock ret_addr ws r k1 f1 mine,
        park-Parked w1 s head wblock ret_addr ws r k1 f1 mine,
        mine,
      ),
    )
