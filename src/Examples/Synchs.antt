-- ===== src/Examples/Synchs.antt =====
-- An event at 3000 and a semaphore at 4000, each with two waiting threads: the threads 96 and 112
-- wait with blocks at 5000 and 6000. Thread 16 runs and thread 32 is ready.
use so_2021v_li42d.Base.{
  ℕ, ◌≡◌, refl, true, false, some, List, [], ◌∷◌, arith, has, ◌==◌, if◌then◌else◌,
}
use so_2021v_li42d.Base.Int.{pos}
use so_2021v_li42d.EntryList.{Links, init_list_head, insert_list_last, insert_list_after}
use so_2021v_li42d.EntryList.Ring.{IsRing}
use so_2021v_li42d.Uthread.Spec.{Sched}
use so_2021v_li42d.Uthread.Refine.{Refines}
use so_2021v_li42d.Synch.{World}
use so_2021v_li42d.Synch.Parked.{Parked, Sleeper, FreshBlock}
use so_2021v_li42d.Synch.Event.{waiters_of, event_set}
use so_2021v_li42d.Synch.Event.Laws.{event_set-AllWoken}
use so_2021v_li42d.Examples.Schedulers.{state, empty_queue}

abbrev sched : Sched
sched = record { running = 16; main = 2000; ready = 32 ∷ []; count = 4 }

-- The memory with a list at `head` behind the ready queue with one thread.
abbrev links : ℕ → Links
links head = init_list_head (insert_list_last empty_queue 1000 40) head

abbrev world : Links → World
world l = record {
  kernel = state l 16 2000 4;
  thread = λ p. if p == 5000 then 96 else 112;
  block_units = λ p. if p == 5000 then pos 2 else pos 3;
  signaled = λ p. false;
  units = λ p. pos 1;
  limit = λ p. pos 10;
}

abbrev event_world : World
event_world = world (insert_list_last (insert_list_last (links 3008) 3008 5000) 3008 6000)

abbrev sem_world : World
sem_world = world (insert_list_last (insert_list_last (links 4000) 4000 5000) 4000 6000)

abbrev free_world : World
free_world = world (links 4000)

event-Refines : Refines event_world.kernel sched
unfolding init_list_head insert_list_last insert_list_after
event-Refines = record {
  running = refl;
  main = refl;
  count = refl;
  queue = record { linked = ground arith; distinct = ground arith };
  running_unqueued = refl;
  main_unqueued = refl;
}

-- The threads 96 and 112 sleep, whichever of the two lists holds their blocks.
sleeper :
    (l : Links) (head x : ℕ)
    → has 104 (head ∷ 5000 ∷ 6000 ∷ []) ≡ false
    → has 120 (head ∷ 5000 ∷ 6000 ∷ []) ≡ false
    → Sleeper (world l) sched head (5000 ∷ 6000 ∷ []) x
sleeper l head x h1 h2 = record {
  unqueued = ground arith;
  ne_running = ground arith;
  ne_main = ground arith;
  entry = ground arith;
}

event-Parked : Parked event_world sched (waiters_of 3000) (5000 ∷ 6000 ∷ [])
unfolding init_list_head insert_list_last insert_list_after
event-Parked = record {
  ring = record { linked = ground arith; distinct = ground arith };
  apart = λ p i. ground arith;
  each = λ x i. sleeper event_world.kernel.links 3008 x refl refl;
  threads = ground arith;
}

free-Parked : Parked free_world sched 4000 []
unfolding init_list_head insert_list_last insert_list_after
free-Parked = record {
  ring = record { linked = ground arith; distinct = ground arith };
  apart = λ p i. ground arith;
  each = λ x i. absurd (cc i);
  threads = tt;
}

-- A wait block at 7000 on the stack of the running thread.
abbrev Fresh : World → ℕ → List ℕ → Type 0
Fresh w head ws = FreshBlock w sched head 7000 ws

event-FreshBlock : Fresh event_world (waiters_of 3000) (5000 ∷ 6000 ∷ [])
event-FreshBlock = record {
  elsewhere = refl;
  unqueued = refl;
  own_entry = refl;
  entries_apart = λ x i. ground arith;
  ne_main = omega arith;
}

event_set-AllWoken_example :
    (w' : World) × (event_set 3 3000 event_world ≡ some w')
    × Refines w'.kernel (record sched { ready = 32 ∷ 96 ∷ 112 ∷ [] })
    × IsRing w'.kernel.links (waiters_of 3000) []
    × (w'.signaled 3000 ≡ true)
event_set-AllWoken_example =
    event_set-AllWoken 3 event_world sched 3000 (5000 ∷ 6000 ∷ []) event-Refines event-Parked
      (omega arith)

-- The requests of the two waiting threads.
abbrev requests : ℕ → ℕ
requests p = if p == 5000 then 2 else 3
