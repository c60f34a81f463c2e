-- ===== src/Examples/Schedulers.antt =====
-- The scheduler with threads at the addresses 16, 32 and 64, and the main thread at 2000.
use so_2021v_li42d.Base.{ℕ, refl, false, [], ◌∷◌, arith}
use so_2021v_li42d.EntryList.{Links, init_list_head, insert_list_last, insert_list_after}
use so_2021v_li42d.EntryList.Ring.{IsRing}
use so_2021v_li42d.Uthread.{State, ut_deactivate}
use so_2021v_li42d.Uthread.Spec.{Sched, dispatch}
use so_2021v_li42d.Uthread.Refine.{Refines, entries, ut_deactivate-Refines}
use so_2021v_li42d.Examples.Contexts.{cpu}

-- The memory of uthread.c with the ready queue at 1000 and the given links.
abbrev pub state : Links → (running main count : ℕ) → State
state l running main count = record {
  links = l;
  cpu = cpu;
  function = λ p. 0;
  argument = λ p. 0;
  stack = λ p. 0;
  allocated = λ p. false;
  ready_queue = 1000;
  number_of_threads = count;
  running_thread = running;
  main_thread = main;
}

abbrev pub empty_queue : Links
empty_queue = init_list_head (record { next = λ p. 0; prev = λ p. 0 }) 1000

abbrev pub two_ready : Links
two_ready = insert_list_last (insert_list_last empty_queue 1000 40) 1000 72

-- Thread 16 runs, 32 and 64 are ready.
abbrev running : State
running = state two_ready 16 2000 3

abbrev running_sched : Sched
running_sched = record { running = 16; main = 2000; ready = 32 ∷ 64 ∷ []; count = 3 }

running-Refines : Refines running running_sched
unfolding init_list_head insert_list_last insert_list_after
running-Refines = record {
  running = refl;
  main = refl;
  count = refl;
  queue = record { linked = ground arith; distinct = ground arith };
  running_unqueued = refl;
  main_unqueued = refl;
}

-- All threads have ended, and the main thread runs again.
ended-Refines :
    Refines
      (state empty_queue 2000 2000 0)
      (record { running = 2000; main = 2000; ready = []; count = 0 })
unfolding init_list_head
ended-Refines = record {
  running = refl;
  main = refl;
  count = refl;
  queue = record { linked = ground arith; distinct = ground arith };
  running_unqueued = refl;
  main_unqueued = refl;
}

idle-IsRing : IsRing two_ready 1000 (entries (32 ∷ 64 ∷ []))
unfolding init_list_head insert_list_last insert_list_after
idle-IsRing = record { linked = ground arith; distinct = ground arith }

ut_deactivate-Refines_example : Refines (ut_deactivate 55 running) (dispatch running_sched)
ut_deactivate-Refines_example = ut_deactivate-Refines running running_sched 55 running-Refines
