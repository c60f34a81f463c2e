-- ===== src/Uthread/SimpleTest/Ends.antt =====
-- Test 1 of simpletest.c from the creation of its threads to its assertion.
use mathlib.Core.List.{append_assoc, append-nil}
use so_2021v_li42d.Base.{
  ℕ, zero, suc, ◌+◌, ◌*◌, ◌%◌, ◌^◌, ◌<◌, ◌≤◌, ◌≡◌, ◌≢◌, refl, ap, ◌∙◌, true, false, ◌&&◌, List, [],
  ◌∷◌, ◌++◌, map, if◌then◌else◌, ◌==◌, ltb, leb, update, update_self, length, length-append, has,
  arith,
}
use so_2021v_li42d.EntryList.Insert.{init_list_head-IsRing, is_list_empty-nil}
use so_2021v_li42d.Uthread.{
  State, ok, null, schedule, context_switch, extract_next_thread, entry_of, ut_create, ut_activate,
  ut_init, ut_run, ut_run_resume,
}
use so_2021v_li42d.Uthread.Lifecycle.{ut_create-Refines, ut_run-Refines}
use so_2021v_li42d.Uthread.Refine.{Refines, entries, sched}
use so_2021v_li42d.Uthread.SimpleTest.{
  Test, Blocks, begun, rounds, max_threads, create_threads, turns, end_of_test, test1,
}
use so_2021v_li42d.Uthread.SimpleTest.Turns.{
  due, owed, printed, turns_left, owed-append, Runs, turns-Runs,
}
use so_2021v_li42d.Uthread.Spec.{create, activate}

abbrev pub threads_of : List Blocks → List ℕ
threads_of bs = map (λ b. b.thread) bs

-- Blocks for threads that are not the one of a thread in `ts`.
abbrev pub AllFresh : (ready_queue : ℕ) → List ℕ → List Blocks → Type 0
AllFresh q ts [] = Unit
AllFresh q ts (b ∷ bs) =
    (b.thread ≢ null)
    × (b.stack ≢ null)
    × (has (entry_of b.thread) (q ∷ entries ts) ≡ false)
    × AllFresh q (ts ++ b.thread ∷ []) bs

-- How often `n` threads with the indices from `index` on are to print `d`.
abbrev pub digits_due : (d index n : ℕ) → ℕ
digits_due d index zero = 0
digits_due d index (suc n) = due ((48 + index) % 2 ^ 8) d rounds + digits_due d (index + 1) n

owed-update_argument :
    (argument left : ℕ → ℕ) (d r v : ℕ) (ts : List ℕ)
    → has (entry_of r) (entries ts) ≡ false
    → owed (update argument r v) left d ts ≡ owed argument left d ts
owed-update_argument argument left d r v [] e = refl
owed-update_argument argument left d r v (t ∷ ts) e =
    ground (arith, owed-update_argument argument left d r v ts)

ut_create-argument :
    (thread stack start routine arg : ℕ) (m m' : State)
    → thread ≢ null
    → stack ≢ null
    → ut_create thread stack start routine arg m ≡ ok (m', thread)
    → (m'.argument ≡ update m.argument thread arg) × (m'.ready_queue ≡ m.ready_queue)
unfolding ut_create ut_activate
ut_create-argument thread stack start routine arg m m' nt ns e = (ground arith, ground arith)

-- What `create_threads` leaves, at a state with the ready threads `ts`.
record Created (ts : List ℕ) (index : ℕ) (bs : List Blocks) (m m' : State) : Type 0 where
  refines : Refines m' (sched null null (ts ++ threads_of bs) (length ts + length bs))
  arguments :
      (d : ℕ)
      → owed m'.argument (λ t. rounds) d (ts ++ threads_of bs)
        ≡ owed m.argument (λ t. rounds) d ts + digits_due d index (length bs)
  queue : m'.ready_queue ≡ m.ready_queue

create_threads-Created :
    (start routine index : ℕ) (ts : List ℕ) (bs : List Blocks) (m : State)
    → Refines m (sched null null ts (length ts))
    → AllFresh m.ready_queue ts bs
    → length ts + length bs < 2 ^ 32
    → (m' : State) × (create_threads start routine index bs m ≡ ok m') × Created ts index bs m m'
unfolding create_threads create activate
create_threads-Created start routine index ts [] m r fresh small = (
  m,
  refl,
  record {
    refines = let same : length ts + 0 ≡ length ts = omega arith in rw (append-nil ts, same) r;
    arguments = λ d. rw (append-nil ts) (omega arith);
    queue = refl;
  },
)
create_threads-Created start routine index ts (b ∷ bs) m r (nt, ns, free, rest) small =
    let (m1, made, r1, _, _) =
      ut_create-Refines m (sched null null ts (length ts)) b.thread b.stack start routine
        (48 + index) r nt ns free nt nt (omega arith) in
    let (arg, queue) =
      ut_create-argument b.thread b.stack start routine (48 + index) m m1 nt ns made in
    let ts1 = ts ++ b.thread ∷ [] in
    let size : length ts + 1 ≡ length ts1 = omega (arith, length-append ts (b.thread ∷ [])) in
    let (m', all, h) =
      create_threads-Created start routine (index + 1) ts1 bs m1 (rw (← size) r1) (rw queue rest)
        (omega (arith, size)) in
    let apart : has (entry_of b.thread) (entries ts) ≡ false = ground (arith, free) in
    let split = append_assoc ts (b.thread ∷ []) (threads_of bs) in
    (
      m',
      rw made all,
      record {
        refines =
            let all_size : length ts1 + length bs ≡ length ts + suc (length bs) =
              omega (arith, size) in
            rw (← split, ← all_size) h.refines;
        arguments = λ d. rw (← split) (
            omega (
              arith,
              h.arguments d,
              owed-append m1.argument (λ t. rounds) d b.thread ts,
              ap (λ a. owed a (λ t. rounds) d ts) arg,
              ap (λ a. due (a b.thread % 2 ^ 8) d rounds) arg,
              ap (λ a. due (a % 2 ^ 8) d rounds) (update_self m.argument b.thread (48 + index)),
              owed-update_argument m.argument (λ t. rounds) d b.thread (48 + index) ts apart,
            ));
        queue = h.queue ∙ queue;
      },
    )

has-entries : (t : ℕ) (ts : List ℕ) → has (entry_of t) (entries ts) ≡ false → has t ts ≡ false
has-entries t [] e = refl
has-entries t (u ∷ us) e = ground (arith, has-entries t us (ground arith))

turns_left-rounds : (ts : List ℕ) → turns_left (λ t. rounds) ts ≡ 101 * length ts
turns_left-rounds [] = omega arith
turns_left-rounds (t ∷ ts) = omega (arith, turns_left-rounds ts)

-- What test 1 leaves: no thread, and every one of the ten digits printed 100 times, nothing else.
pub record Passed (t : Test) : Type 0 where
  pub no_thread : (t.kernel.running_thread ≡ null) × (t.kernel.number_of_threads ≡ 0)
  pub all_ended : t.test1_count ≡ max_threads
  pub shown : (d : ℕ) → printed d t.output ≡ (if leb 48 d && ltb d 58 then 100 else 0)

digits_ten : (d : ℕ) → digits_due d 0 10 ≡ (if leb 48 d && ltb d 58 then 100 else 0)
digits_ten d = ground arith

ended-Passed :
    (main : ℕ) (total : ℕ → ℕ) (t : Test)
    → Runs main max_threads total [] t
    → ((d : ℕ) → total d ≡ digits_due d 0 10)
    → (t' : Test) × (end_of_test t ≡ ok t') × Passed t'
unfolding ut_run_resume
ended-Passed main total t h same =
    let empty = is_list_empty-nil t.kernel.links t.kernel.ready_queue h.refines.queue in
    let gone : (t.kernel.number_of_threads == 0) ≡ true = ground (arith, h.refines.count) in
    let all : (t.test1_count == max_threads) ≡ true = ground (arith, h.counted) in
    (
      record t { kernel = record t.kernel { running_thread = null; main_thread = null } },
      rw (empty, gone, all),
      record {
        no_thread = (refl, h.refines.count);
        all_ended = omega (arith, h.counted);
        shown = λ d. omega (arith, h.shown d, same d) ∙ digits_ten d;
      },
    )

ut_run-argument :
    (thread ret_addr : ℕ) (m m' : State)
    → ut_run thread ret_addr m ≡ ok m'
    → m'.argument ≡ m.argument
unfolding ut_run schedule context_switch extract_next_thread
ut_run-argument thread ret_addr m m' e = ground arith

length-threads_of : (bs : List Blocks) → length (threads_of bs) ≡ length bs
length-threads_of [] = refl
length-threads_of (b ∷ bs) = omega (arith, length-threads_of bs)

digits_of : (d n : ℕ) {x : ℕ} → n ≡ max_threads → x ≡ 0 + digits_due d 0 n → x ≡ digits_due d 0 10
digits_of d n ten e = omega (arith, e, ap (digits_due d 0) ten)

-- The state in which the first thread begins to run.
started-Runs :
    (main ret_addr : ℕ) (b : Blocks) (bs : List Blocks) (m1 m2 : State)
    → ut_run main ret_addr m1 ≡ ok m2
    → Refines m2 (record {
      running = b.thread;
      main = main;
      ready = threads_of bs;
      count = m1.number_of_threads;
    })
    → suc (length bs) ≡ max_threads
    → m1.number_of_threads ≡ max_threads
    → ((d : ℕ) → owed m1.argument (λ t. rounds) d (b.thread ∷ threads_of bs) ≡ digits_due d 0 10)
    → has (entry_of main) (entries (b.thread ∷ threads_of bs)) ≡ false
    → Runs main max_threads (λ d. digits_due d 0 10) (b.thread ∷ threads_of bs) (begun m2)
started-Runs main ret_addr b bs m1 m2 runs r ten counted digits apart =
    let same = ut_run-argument main ret_addr m1 m2 runs in
    let size : m1.number_of_threads ≡ suc (length (threads_of bs)) =
      omega (arith, counted, ten, length-threads_of bs) in
    record {
      refines = rw size at r;
      apart = has-entries main (b.thread ∷ threads_of bs) apart;
      shown = λ d.
          omega (arith, digits d, ap (λ a. owed a (λ t. rounds) d (b.thread ∷ threads_of bs)) same);
      counted = omega (arith, ten, length-threads_of bs);
    }

-- With ten pairs of blocks that are not null and do not hold a thread already, a main thread whose
-- descriptor is none of them, and fuel for 101 turns of each thread, test 1 of simpletest.c ends
-- whatever `rand` gives: its assertion holds, no thread is left, and each digit is printed 100 times.
pub test1-Passed :
    (rand : ℕ → ℕ) (start test1_thread main_thread ret_addr fuel : ℕ) (blocks : List Blocks)
    (m : State)
    → m.running_thread ≡ null
    → m.main_thread ≡ null
    → m.number_of_threads ≡ 0
    → m.ready_queue ≢ 8
    → AllFresh m.ready_queue [] blocks
    → length blocks ≡ max_threads
    → has (entry_of main_thread) (m.ready_queue ∷ entries (threads_of blocks)) ≡ false
    → 1010 ≤ fuel
    → (t : Test) × (test1 rand start test1_thread main_thread ret_addr fuel blocks (ut_init m)
        ≡ ok t)
      × Passed t
unfolding test1 ut_init
test1-Passed rand start test1_thread main_thread ret_addr fuel [] m idle no_main none ne fresh ten
      apart enough =
    absurd (omega arith)
test1-Passed rand start test1_thread main_thread ret_addr fuel (b ∷ bs) m idle no_main none ne fresh
      ten apart enough =
    let m0 = ut_init m in
    let r0 : Refines m0 (sched null null [] 0) = record {
      running = idle;
      main = no_main;
      count = none;
      queue = init_list_head-IsRing m.links m.ready_queue;
      running_unqueued = ground arith;
      main_unqueued = ground arith;
    } in
    let (m1, made, created) =
      create_threads-Created start test1_thread 0 [] (b ∷ bs) m0 r0 fresh (omega arith) in
    let (m2, runs, r2) =
      ut_run-Refines m1 main_thread ret_addr b.thread (threads_of bs) created.refines.running
        created.refines.queue (rw created.queue apart) in
    let starts =
      started-Runs main_thread ret_addr b bs m1 m2 runs r2 (omega (arith, ten))
        (omega (arith, created.refines.count, ten))
        (λ d. digits_of d (length (b ∷ bs)) ten (created.arguments d)) (ground (arith, apart)) in
    let live = b.thread ∷ threads_of bs in
    let size : length live ≡ max_threads = omega (arith, length-threads_of bs, ten) in
    let over =
      turns-Runs rand ret_addr main_thread max_threads (λ d. digits_due d 0 10) (omega arith) fuel
        live (begun m2) starts (omega (arith, turns_left-rounds live, size, enough)) in
    let (t, ended, passed) =
      ended-Passed main_thread (λ d. digits_due d 0 10) (turns rand ret_addr fuel (begun m2)) over
        (λ d. refl) in
    (t, rw (made, runs) ended, passed)
