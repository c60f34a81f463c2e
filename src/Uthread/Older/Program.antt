-- ===== src/Uthread/Older/Program.antt =====
-- Programs on the scheduler of 14-uthread-scheduling, compared with the abstract scheduler.
use mathlib.Core.Path.{subst}
use mathlib.Core.List.{map-append}
use so_2021v_li42d.Base.{ℕ, ◌-◌, ◌≡◌, ◌≢◌, refl, sym, false, List, [], ◌∷◌, ◌++◌, map, arith, has}
use so_2021v_li42d.EntryList.{Links, remove_list_first, insert_list_last, init_list_head}
use so_2021v_li42d.EntryList.Flink.{
  FlinkLinks, as_links, init_list_head14, is_list_empty14, remove_head_list, insert_tail_list,
  removals_agree, insertions_agree,
}
use so_2021v_li42d.EntryList.Ring.{IsRing}
use so_2021v_li42d.EntryList.Insert.{insert_list_last-IsRing, is_list_empty-nil, is_list_empty-cons}
use so_2021v_li42d.EntryList.Remove.{remove_list_first-IsRing}
use so_2021v_li42d.Uthread.{container_of}
use so_2021v_li42d.Uthread.Older.{
  State14, entry_of14, context_switch14, cleanup_thread, internal_exit14, extract_next_ready_thread,
  schedule14, ut_init14, ut_run14, ut_create14, ut_yield14, ut_exit14, Call, creates, runs, yields,
  exits, perform, program,
}
use so_2021v_li42d.Uthread.Refine.{sched}
use so_2021v_li42d.Uthread.Spec.{Sched, dispatch, activate, create, yield, exit}

abbrev pub entries14 : List ℕ → List ℕ
entries14 ts = map entry_of14 ts

-- A thread that is not linked in the ready queue, whose head is at `h`.
abbrev pub Unqueued14 : (h : ℕ) → List ℕ → ℕ → Type 0
Unqueued14 h ts t = has (entry_of14 t) (h ∷ entries14 ts) ≡ false

pub record Refines14 (m : State14) (s : Sched) : Type 0 where
  pub running : m.running_thread ≡ s.running
  pub main : m.main_thread ≡ s.main
  pub queue : IsRing (as_links m.links) m.ready_queue (entries14 s.ready)
  pub running_unqueued : Unqueued14 m.ready_queue s.ready s.running
  pub main_unqueued : Unqueued14 m.ready_queue s.ready s.main

-- The abstract scheduler under the calls of a program; `ut_run` makes the caller the main thread.
abbrev pub perform_spec : Call → Sched → Sched
perform_spec (creates puthread start start_routine arg) s = create puthread s
perform_spec (runs thread ret_addr) s = dispatch (record s { running = thread; main = thread })
perform_spec (yields ret_addr) s = yield s
perform_spec exits s = exit s

unfoldable pub program_spec : List Call → Sched → Sched
program_spec [] s = s
program_spec (c ∷ cs) s = program_spec cs (perform_spec c s)

-- A call that a program may make: threads are created, and `ut_run` called, with an address that no
-- other thread has, and only a thread other than the main one yields or exits.
abbrev pub Allowed : (h : ℕ) → Call → Sched → Type 0
Allowed h (creates puthread start start_routine arg) s =
    Unqueued14 h s.ready puthread × (puthread ≢ s.running) × (puthread ≢ s.main)
Allowed h (runs thread ret_addr) s = Unqueued14 h s.ready thread
Allowed h (yields ret_addr) s = s.running ≢ s.main
Allowed h exits s = s.running ≢ s.main

abbrev pub AllAllowed : (h : ℕ) → List Call → Sched → Type 0
AllAllowed h [] s = Unit
AllAllowed h (c ∷ cs) s = Allowed h c s × AllAllowed h cs (perform_spec c s)

extract-nil :
    (m : State14)
    → IsRing (as_links m.links) m.ready_queue []
    → extract_next_ready_thread m ≡ (m, m.main_thread)
unfolding extract_next_ready_thread is_list_empty14 so_2021v_li42d.EntryList.is_list_empty
extract-nil m ring = rw (is_list_empty-nil (as_links m.links) m.ready_queue ring)

-- What `remove_head_list` leaves of a queue with a first thread.
head-removed :
    (l : FlinkLinks) (h t : ℕ) (ts : List ℕ)
    → IsRing (as_links l) h (entries14 (t ∷ ts))
    → (container_of (remove_head_list l h).1 24 ≡ t)
      × IsRing (as_links (remove_head_list l h).0) h (entries14 ts)
head-removed l h t ts ring =
    let (same, taken) = (removals_agree l h (entries14 (t ∷ ts)) ring).0 in
    let first = remove_list_first-IsRing (as_links l) h (entry_of14 t) (entries14 ts) ring in
    (omega (arith, taken, first.0), subst (λ k. IsRing k h (entries14 ts)) (sym same) first.1)

extract-cons :
    (m : State14) (t : ℕ) (ts : List ℕ)
    → IsRing (as_links m.links) m.ready_queue (entries14 (t ∷ ts))
    → extract_next_ready_thread m
      ≡ (record m { links = (remove_head_list m.links m.ready_queue).0 }, t)
unfolding extract_next_ready_thread is_list_empty14 so_2021v_li42d.EntryList.is_list_empty
extract-cons m t ts ring = rw (
  is_list_empty-cons (as_links m.links) m.ready_queue _ _ ring,
  (head-removed m.links m.ready_queue t ts ring).0,
)

inserted-queue :
    (l : FlinkLinks) (h t : ℕ) (ts : List ℕ)
    → IsRing (as_links l) h (entries14 ts)
    → Unqueued14 h ts t
    → IsRing (as_links (insert_tail_list l h (entry_of14 t))) h (entries14 (ts ++ t ∷ []))
inserted-queue l h t ts ring fresh =
    let same = (insertions_agree l h (entry_of14 t) (entries14 ts) ring).0 in
    rw (map-append, same)
      (insert_list_last-IsRing (as_links l) h (entry_of14 t) (entries14 ts) ring fresh)

Unqueued14-snoc :
    (h : ℕ) (ts : List ℕ) (t u : ℕ) → Unqueued14 h ts u → u ≢ t → Unqueued14 h (ts ++ t ∷ []) u
Unqueued14-snoc h [] t u free ne = ground arith
Unqueued14-snoc h (v ∷ ts) t u free ne = ground (arith, Unqueued14-snoc h ts t u (ground arith) ne)

module _ (running count : ℕ) {main : ℕ} (m : State14) where
  schedule14-sched :
      (ret_addr : ℕ) (ts : List ℕ)
      → m.main_thread ≡ main
      → IsRing (as_links m.links) m.ready_queue (entries14 ts)
      → Unqueued14 m.ready_queue ts main
      → Refines14 (schedule14 ret_addr m) (dispatch (sched running main ts count))
        × ((schedule14 ret_addr m).ready_queue ≡ m.ready_queue)
  unfolding schedule14 context_switch14 dispatch
  schedule14-sched ret_addr [] at ring free = rw (extract-nil m ring) (
    record { running = at; main = at; queue = ring; running_unqueued = free; main_unqueued = free },
    refl,
  )
  schedule14-sched ret_addr (t ∷ ts) at ring free = rw (extract-cons m t ts ring) (
    record {
      running = refl;
      main = at;
      queue = (head-removed m.links m.ready_queue t ts ring).1;
      running_unqueued = ground (arith, ring.distinct);
      main_unqueued = ground (arith, free);
    },
    refl,
  )

  exit14-sched :
      (ts : List ℕ)
      → m.main_thread ≡ main
      → IsRing (as_links m.links) m.ready_queue (entries14 ts)
      → Unqueued14 m.ready_queue ts main
      → Refines14 (ut_exit14 m) (dispatch (sched running main ts count))
        × ((ut_exit14 m).ready_queue ≡ m.ready_queue)
  unfolding ut_exit14 internal_exit14 cleanup_thread dispatch
  exit14-sched [] at ring free = rw (extract-nil m ring) (
    record { running = at; main = at; queue = ring; running_unqueued = free; main_unqueued = free },
    refl,
  )
  exit14-sched (t ∷ ts) at ring free = rw (extract-cons m t ts ring) (
    record {
      running = refl;
      main = at;
      queue = (head-removed m.links m.ready_queue t ts ring).1;
      running_unqueued = ground (arith, ring.distinct);
      main_unqueued = ground (arith, free);
    },
    refl,
  )

yield14-sched :
    (m : State14) (running main count ret_addr : ℕ) (ts : List ℕ)
    → Refines14 m (sched running main ts count)
    → running ≢ main
    → Refines14 (ut_yield14 ret_addr m) (yield (sched running main ts count))
      × ((ut_yield14 ret_addr m).ready_queue ≡ m.ready_queue)
unfolding ut_yield14 yield activate is_list_empty14 so_2021v_li42d.EntryList.is_list_empty
yield14-sched m running main count ret_addr [] r ne =
    rw (is_list_empty-nil (as_links m.links) m.ready_queue r.queue) (r, refl)
yield14-sched m running main count ret_addr (t ∷ ts) r ne =
    rw (is_list_empty-cons (as_links m.links) m.ready_queue _ _ r.queue) (
      schedule14-sched running count
        (record m { links = insert_tail_list m.links m.ready_queue (entry_of14 m.running_thread) })
        ret_addr ((t ∷ ts) ++ running ∷ []) r.main
        (subst
          (λ u.
            IsRing (as_links (insert_tail_list m.links m.ready_queue (entry_of14 u))) m.ready_queue
              (entries14 ((t ∷ ts) ++ running ∷ [])))
          (sym r.running)
          (inserted-queue m.links m.ready_queue running (t ∷ ts) r.queue r.running_unqueued))
        (Unqueued14-snoc m.ready_queue (t ∷ ts) running main r.main_unqueued (λ e. ne (sym e))))

perform-Refines14 :
    (c : Call) (m : State14) (s : Sched)
    → Refines14 m s
    → Allowed m.ready_queue c s
    → Refines14 (perform c m) (perform_spec c s) × ((perform c m).ready_queue ≡ m.ready_queue)
unfolding ut_create14 ut_run14 create activate exit
perform-Refines14 (creates puthread start start_routine arg) m s r (fresh, nr, nm) = (
  record {
    running = r.running;
    main = r.main;
    queue = inserted-queue m.links m.ready_queue puthread s.ready r.queue fresh;
    running_unqueued =
        Unqueued14-snoc m.ready_queue s.ready puthread s.running r.running_unqueued
          (λ e. nr (sym e));
    main_unqueued =
        Unqueued14-snoc m.ready_queue s.ready puthread s.main r.main_unqueued (λ e. nm (sym e));
  },
  refl,
)
perform-Refines14 (runs thread ret_addr) m s r fresh =
    schedule14-sched thread s.count (record m { running_thread = thread; main_thread = thread })
      ret_addr s.ready refl r.queue fresh
perform-Refines14 (yields ret_addr) m s r ne =
    yield14-sched m s.running s.main s.count ret_addr s.ready r ne
perform-Refines14 exits m s r ne =
    exit14-sched s.running (s.count - 1) m s.ready r.main r.queue r.main_unqueued

calls-Refines14 :
    (cs : List Call) (m : State14) (s : Sched)
    → Refines14 m s
    → AllAllowed m.ready_queue cs s
    → Refines14 (program cs m) (program_spec cs s)
unfolding program program_spec
calls-Refines14 [] m s r allowed = r
calls-Refines14 (c ∷ cs) m s r (now, after) =
    let (r', same) = perform-Refines14 c m s r now in
    calls-Refines14 cs (perform c m) (perform_spec c s) r'
      (subst (λ h. AllAllowed h cs (perform_spec c s)) (sym same) after)

-- The scheduler before any call: the globals are 0.
abbrev pub idle : Sched
idle = sched 0 0 [] 0

-- After `ut_init`, any sequence of calls of `ut_create`, `ut_run`, `ut_yield` and `ut_exit` of
-- 14-uthread-scheduling leaves the running thread, the main thread and the queue of ready threads that
-- the abstract scheduler of the newer library has after it. Threads must be created, and `ut_run`
-- called, with addresses that no other thread has, only threads other than the main one yield and exit,
-- and the head of the queue does not stand where the entry of a thread at address 0 would.
pub program-Refines14 :
    (cs : List Call) (m : State14)
    → m.running_thread ≡ 0
    → m.main_thread ≡ 0
    → m.ready_queue ≢ 24
    → AllAllowed m.ready_queue cs idle
    → Refines14 (program cs (ut_init14 m)) (program_spec cs idle)
unfolding ut_init14 init_list_head14
program-Refines14 cs m running main ne allowed =
    calls-Refines14 cs (ut_init14 m) idle
      (record {
        running = running;
        main = main;
        queue = record { linked = ground arith; distinct = ground arith };
        running_unqueued = ground arith;
        main_unqueued = ground arith;
      })
      allowed
