-- ===== src/Uthread/Refine.antt =====
-- The operations of uthread.c do to the ready queue in memory what `Spec` says.
use mathlib.Core.Path.{subst}
use mathlib.Core.List.{map-append}
use so_2021v_li42d.Base.{
  ℕ, ◌+◌, ◌-◌, ◌%◌, ◌^◌, ◌<◌, ◌≡◌, refl, sym, ◌≢◌, false, List, [], ◌∷◌, ◌++◌, map, arith, has,
}
use so_2021v_li42d.EntryList.{remove_list_first, insert_list_last}
use so_2021v_li42d.EntryList.Ring.{IsRing, SameOutside}
use so_2021v_li42d.EntryList.Insert.{insert_list_last-IsRing, is_list_empty-nil, is_list_empty-cons}
use so_2021v_li42d.EntryList.Remove.{remove_list_first-IsRing, remove_list_first-SameOutside}
use so_2021v_li42d.Uthread.{
  State, entry_of, container_of, context_switch, internal_exit, internal_cleanup, ut_deactivate,
  extract_next_thread, schedule, ut_yield, ut_activate, ut_exit,
}
use so_2021v_li42d.Uthread.Spec.{Sched, dispatch, activate, yield, exit}

abbrev pub entries : List ℕ → List ℕ
entries ts = map entry_of ts

-- A thread that is not linked in the ready queue.
abbrev pub Unqueued : State → List ℕ → ℕ → Type 0
Unqueued m ts t = has (entry_of t) (m.ready_queue ∷ entries ts) ≡ false

pub record Refines (m : State) (s : Sched) : Type 0 where
  pub running : m.running_thread ≡ s.running
  pub main : m.main_thread ≡ s.main
  pub count : m.number_of_threads ≡ s.count
  pub queue : IsRing m.links m.ready_queue (entries s.ready)
  pub running_unqueued : Unqueued m s.ready s.running
  pub main_unqueued : Unqueued m s.ready s.main

-- The queue and the main thread of `Refines`, which is all that a dispatch reads.
record HoldsQueue (m : State) (main_addr : ℕ) (ts : List ℕ) : Type 0 where
  main : m.main_thread ≡ main_addr
  queue : IsRing m.links m.ready_queue (entries ts)
  main_unqueued : Unqueued m ts main_addr

abbrev pub sched : (running main : ℕ) (ts : List ℕ) (count : ℕ) → Sched
sched running main ts count = record { running = running; main = main; ready = ts; count = count }

pub extract_next_thread-nil :
    (m : State) → IsRing m.links m.ready_queue [] → extract_next_thread m ≡ (m, m.main_thread)
unfolding extract_next_thread
extract_next_thread-nil m ring = rw (is_list_empty-nil m.links m.ready_queue ring)

pub extract_next_thread-cons :
    (m : State) (t : ℕ) (ts : List ℕ)
    → IsRing m.links m.ready_queue (entries (t ∷ ts))
    → extract_next_thread m ≡ (record m { links = (remove_list_first m.links m.ready_queue).0 }, t)
unfolding extract_next_thread
extract_next_thread-cons m t ts ring =
    let first = remove_list_first-IsRing m.links m.ready_queue (entry_of t) (entries ts) ring in
    let is : container_of (remove_list_first m.links m.ready_queue).1 8 ≡ t =
      omega (arith, first.0) in
    rw (is_list_empty-cons m.links m.ready_queue _ _ ring, is)

abbrev fewer : State → State
fewer m = record m { number_of_threads = (m.number_of_threads + 2 ^ 32 - 1) % 2 ^ 32 }

module _ (running : ℕ) {main count : ℕ} (m : State) where
  schedule-sched :
      (ret_addr : ℕ) (ts : List ℕ)
      → HoldsQueue m main ts
      → m.number_of_threads ≡ count
      → Refines (schedule ret_addr m) (dispatch (sched running main ts count))
  unfolding schedule context_switch dispatch
  schedule-sched ret_addr [] h e = rw (extract_next_thread-nil m h.queue) (record {
    running = h.main;
    main = h.main;
    count = e;
    queue = h.queue;
    running_unqueued = h.main_unqueued;
    main_unqueued = h.main_unqueued;
  })
  schedule-sched ret_addr (t ∷ ts) h e =
      let first =
        remove_list_first-IsRing m.links m.ready_queue (entry_of t) (entries ts) h.queue in
      rw (extract_next_thread-cons m t ts h.queue) (record {
        running = refl;
        main = h.main;
        count = e;
        queue = first.1;
        running_unqueued = ground (arith, h.queue.distinct);
        main_unqueued = ground (arith, h.main_unqueued);
      })

  -- Apart from the contexts, `internal_exit` after the choice of a thread leaves what a dispatch does.
  ut_exit-sched :
      (ts : List ℕ)
      → HoldsQueue m main ts
      → (m.number_of_threads + 2 ^ 32 - 1) % 2 ^ 32 ≡ count
      → Refines (ut_exit m) (dispatch (sched running main ts count))
  unfolding ut_exit internal_exit internal_cleanup dispatch
  ut_exit-sched [] h e = rw (extract_next_thread-nil (fewer m) h.queue) (record {
    running = h.main;
    main = h.main;
    count = e;
    queue = h.queue;
    running_unqueued = h.main_unqueued;
    main_unqueued = h.main_unqueued;
  })
  ut_exit-sched (t ∷ ts) h e =
      let first =
        remove_list_first-IsRing m.links m.ready_queue (entry_of t) (entries ts) h.queue in
      rw (extract_next_thread-cons (fewer m) t ts h.queue) (record {
        running = refl;
        main = h.main;
        count = e;
        queue = first.1;
        running_unqueued = ground (arith, h.queue.distinct);
        main_unqueued = ground (arith, h.main_unqueued);
      })

-- A dispatch by whoever is recorded as running, in terms of the memory alone.
pub schedule-Refines :
    (running : ℕ) {main count : ℕ} (m : State) (ret_addr : ℕ) (ts : List ℕ)
    → m.main_thread ≡ main
    → m.number_of_threads ≡ count
    → IsRing m.links m.ready_queue (entries ts)
    → Unqueued m ts main
    → Refines (schedule ret_addr m) (dispatch (sched running main ts count))
schedule-Refines running m ret_addr ts at counted ring free =
    schedule-sched running m ret_addr ts (record { main = at; queue = ring; main_unqueued = free })
      counted

holds : {m : State} {s : Sched} → Refines m s → HoldsQueue m s.main s.ready
holds r = record { main = r.main; queue = r.queue; main_unqueued = r.main_unqueued }

-- `ut_deactivate` gives the processor to the first ready thread, or to the main thread.
pub ut_deactivate-Refines :
    (m : State) (s : Sched) (ret_addr : ℕ)
    → Refines m s
    → Refines (ut_deactivate ret_addr m) (dispatch s)
unfolding ut_deactivate
ut_deactivate-Refines m s ret_addr r = schedule-sched s.running m ret_addr s.ready (holds r) r.count

-- `ut_exit` ends the running thread: one thread less, and the next one runs.
pub ut_exit-Refines :
    (m : State) (s : Sched)
    → Refines m s
    → 0 < s.count
    → s.count < 2 ^ 32
    → Refines (ut_exit m) (exit s)
unfolding exit
ut_exit-Refines m s r some_thread small =
    ut_exit-sched s.running m s.ready (holds r) (omega (arith, r.count))

pub Unqueued-snoc :
    (m : State) (ts : List ℕ) (t u : ℕ) → Unqueued m ts u → u ≢ t → Unqueued m (ts ++ t ∷ []) u
Unqueued-snoc m [] t u free ne = ground arith
Unqueued-snoc m (v ∷ ts) t u free ne = ground (arith, Unqueued-snoc m ts t u (ground arith) ne)

activate-queue :
    (m : State) (ts : List ℕ) (t : ℕ)
    → IsRing m.links m.ready_queue (entries ts)
    → Unqueued m ts t
    → IsRing
        (insert_list_last m.links m.ready_queue (entry_of t))
        m.ready_queue
        (entries (ts ++ t ∷ []))
activate-queue m ts t ring fresh =
    rw map-append
      (insert_list_last-IsRing m.links m.ready_queue (entry_of t) (entries ts) ring fresh)

-- `ut_activate` puts a thread that is neither running nor ready at the end of the ready queue.
pub ut_activate-Refines :
    (m : State) (s : Sched) (t : ℕ)
    → Refines m s
    → Unqueued m s.ready t
    → t ≢ s.running
    → t ≢ s.main
    → Refines (ut_activate t m) (activate t s)
unfolding ut_activate activate
ut_activate-Refines m s t r fresh nr nm = record {
  running = r.running;
  main = r.main;
  count = r.count;
  queue = activate-queue m s.ready t r.queue fresh;
  running_unqueued = Unqueued-snoc m s.ready t s.running r.running_unqueued (ground arith);
  main_unqueued = Unqueued-snoc m s.ready t s.main r.main_unqueued (ground arith);
}

yield-sched :
    (m : State) (running main count ret_addr : ℕ) (ts : List ℕ)
    → Refines m (sched running main ts count)
    → running ≢ main
    → Refines (ut_yield ret_addr m) (yield (sched running main ts count))
unfolding ut_yield yield activate
yield-sched m running main count ret_addr [] r ne =
    rw (is_list_empty-nil m.links m.ready_queue r.queue) r
yield-sched m running main count ret_addr (t ∷ ts) r ne =
    rw (is_list_empty-cons m.links m.ready_queue _ _ r.queue) (
      schedule-sched running
        (record m { links = insert_list_last m.links m.ready_queue (entry_of m.running_thread) })
        ret_addr ((t ∷ ts) ++ running ∷ [])
        (record {
          main = r.main;
          queue =
              subst
                (λ u.
                  IsRing (insert_list_last m.links m.ready_queue (entry_of u)) m.ready_queue
                    (entries ((t ∷ ts) ++ running ∷ [])))
                (sym r.running) (activate-queue m (t ∷ ts) running r.queue r.running_unqueued);
          main_unqueued = Unqueued-snoc m (t ∷ ts) running main r.main_unqueued (λ e. ne (sym e));
        })
        r.count)

-- `ut_yield` lets the first ready thread run and puts the caller at the end of the ready queue; with
-- no thread ready it changes nothing.
pub ut_yield-Refines :
    (m : State) (s : Sched) (ret_addr : ℕ)
    → Refines m s
    → s.running ≢ s.main
    → Refines (ut_yield ret_addr m) (yield s)
ut_yield-Refines m s ret_addr r ne = yield-sched m s.running s.main s.count ret_addr s.ready r ne

-- A thread that is neither queued nor the main thread is still not queued after a dispatch, and is
-- not the one that runs.
pub dispatch-Unqueued :
    (m : State) (running main count u : ℕ) (ts : List ℕ)
    → Unqueued m ts u
    → u ≢ main
    → Unqueued m (dispatch (sched running main ts count)).ready u
      × (u ≢ (dispatch (sched running main ts count)).running)
unfolding dispatch
dispatch-Unqueued m running main count u [] free ne = (free, ne)
dispatch-Unqueued m running main count u (t ∷ ts) free ne =
    (ground (arith, free), ground (arith, free))

pub dispatch-has :
    (p running main count : ℕ) (ts : List ℕ)
    → has p (entries ts) ≡ false
    → has p (entries (dispatch (sched running main ts count)).ready) ≡ false
unfolding dispatch
dispatch-has p running main count [] free = free
dispatch-has p running main count (t ∷ ts) free = ground (arith, free)

-- A dispatch writes no list entry but those of the ready queue.
pub schedule-SameOutside :
    (m : State) (ret_addr : ℕ) (ts : List ℕ)
    → IsRing m.links m.ready_queue (entries ts)
    → SameOutside m.links (schedule ret_addr m).links (m.ready_queue ∷ entries ts)
      × ((schedule ret_addr m).ready_queue ≡ m.ready_queue)
unfolding schedule context_switch
schedule-SameOutside m ret_addr [] ring =
    rw (extract_next_thread-nil m ring) ((λ p o. (refl, refl)), refl)
schedule-SameOutside m ret_addr (t ∷ ts) ring =
    let same = remove_list_first-SameOutside m.links m.ready_queue (entry_of t) (entries ts) ring in
    rw (extract_next_thread-cons m t ts ring) (same, refl)

pub dispatch-main :
    (running main count : ℕ) (ts : List ℕ) → (dispatch (sched running main ts count)).main ≡ main
unfolding dispatch
dispatch-main running main count [] = refl
dispatch-main running main count (t ∷ ts) = refl
