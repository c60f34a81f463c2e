-- ===== src/Uthread/Lifecycle.antt =====
-- Creation of threads and `ut_run` of uthread.c, from the first switch to the return.
use so_2021v_li42d.Base.{
  ℕ, ◌+◌, ◌%◌, ◌^◌, ◌<◌, ◌≡◌, ◌↔◌, refl, ◌≢◌, true, false, List, [], ◌∷◌, arith, ◌==◌, update,
}
use so_2021v_li42d.EntryList.Ring.{IsRing}
use so_2021v_li42d.EntryList.Insert.{is_list_empty-nil, is_list_empty-cons}
use so_2021v_li42d.Uthread.{State, ok, null, ut_run, ut_run_resume, ut_create, ut_activate}
use so_2021v_li42d.Uthread.Context.{build_context}
use so_2021v_li42d.Uthread.Spec.{Sched, dispatch, create}
use so_2021v_li42d.Uthread.Refine.{
  Refines, Unqueued, entries, sched, schedule-Refines, ut_activate-Refines,
}

-- The state in which `ut_create` calls `ut_activate`.
abbrev prepared : (thread stack start routine arg : ℕ) → State → State
prepared thread stack start routine arg m = record m {
  allocated = update (update m.allocated thread true) stack true;
  stack = update m.stack thread stack;
  function = update m.function thread routine;
  argument = update m.argument thread arg;
  cpu = build_context thread stack start m.cpu;
  number_of_threads = (m.number_of_threads + 1) % 2 ^ 32;
}

-- `ut_create` with memory for the descriptor and the stack puts the new thread at the end of the
-- ready queue and counts it.
pub ut_create-Refines :
    (m : State) (s : Sched) (thread stack start routine arg : ℕ)
    → Refines m s
    → thread ≢ null
    → stack ≢ null
    → Unqueued m s.ready thread
    → thread ≢ s.running
    → thread ≢ s.main
    → s.count + 1 < 2 ^ 32
    → (m' : State) × (ut_create thread stack start routine arg m ≡ ok (m', thread))
      × Refines m' (create thread s)
      × (m'.function thread ≡ routine)
      × (m'.argument thread ≡ arg)
unfolding ut_create create ut_activate
ut_create-Refines m s thread stack start routine arg r nt ns fresh nr nm small =
    let m1 = prepared thread stack start routine arg m in
    let t0 : (thread == null) ≡ false = ground arith in
    let s0 : (stack == null) ≡ false = ground arith in
    let counted : Refines m1 (record s { count = s.count + 1 }) = record {
      running = r.running;
      main = r.main;
      count = omega (arith, r.count);
      queue = r.queue;
      running_unqueued = r.running_unqueued;
      main_unqueued = r.main_unqueued;
    } in
    (
      ut_activate thread m1,
      rw (t0, s0),
      ut_activate-Refines m1 _ thread counted fresh nr nm,
      ground arith,
      ground arith,
    )

-- `ut_run` with ready threads switches to the first of them, and the caller becomes the main thread.
pub ut_run-Refines :
    (m : State) (addr ret_addr t : ℕ) (ts : List ℕ)
    → m.running_thread ≡ null
    → IsRing m.links m.ready_queue (entries (t ∷ ts))
    → Unqueued m (t ∷ ts) addr
    → (m' : State) × (ut_run addr ret_addr m ≡ ok m')
      × Refines m' (record { running = t; main = addr; ready = ts; count = m.number_of_threads })
unfolding ut_run dispatch
ut_run-Refines m addr ret_addr t ts idle ring fresh = (
  _,
  rw (idle, is_list_empty-cons m.links m.ready_queue _ _ ring),
  schedule-Refines addr (record m { main_thread = addr; running_thread = addr }) ret_addr (t ∷ ts)
      refl refl ring fresh,
)

resume_iff :
    (m : State) (running main count : ℕ) (ts : List ℕ)
    → Refines m (sched running main ts count)
    → ((m' : State) × (ut_run_resume m ≡ ok m')) ↔ ((ts ≡ []) × (count ≡ 0))
unfolding ut_run_resume
resume_iff m running main count [] r =
    let e = is_list_empty-nil m.links m.ready_queue r.queue in
    (
      λ (m', q). (refl, ground (arith, q, e, r.count)),
      λ (_, z).
          (record m { running_thread = null; main_thread = null }, ground (arith, e, z, r.count)),
    )
resume_iff m running main count (t ∷ ts) r =
    let e = is_list_empty-cons m.links m.ready_queue _ _ r.queue in
    (λ (m', q). absurd (ground (arith, q, e)), λ (q, _). absurd (cc q))

-- When the main thread runs again, `ut_run` returns normally exactly when no thread is left; a thread
-- that is blocked for ever is counted and makes an assertion fail.
pub ut_run_resume_iff :
    (m : State) (s : Sched)
    → Refines m s
    → ((m' : State) × (ut_run_resume m ≡ ok m')) ↔ ((s.ready ≡ []) × (s.count ≡ 0))
ut_run_resume_iff m s r = resume_iff m s.running s.main s.count s.ready r
