-- ===== src/Uthread/SimpleTest.antt =====
-- Test 1 of 15-uthread-synch/uthreads/tests/simpletest.c: threads that print their number and yield
-- now and then. A turn runs the running thread up to its next switch. `rand` is a parameter.
pub mod Ends
pub mod Turns
use so_2021v_li42d.Base.{
  ℕ, zero, suc, ◌+◌, ◌%◌, ◌^◌, Bool, true, false, Option, none, some, List, [], ◌∷◌, ◌++◌,
  if◌then◌else◌, ◌==◌, update,
}
use so_2021v_li42d.Uthread.{
  State, Outcome, ok, assert_failed, null_access, ut_create, ut_run, ut_run_resume, ut_yield,
  ut_exit,
}

-- The library's state, `test1_count`, what is left of the 100 rounds of each thread, the number of
-- calls of `rand` so far, and the characters printed.
pub record Test : Type 0 where
  pub kernel : State
  pub test1_count : ℕ
  pub left : ℕ → ℕ
  pub rands : ℕ
  pub output : List ℕ

abbrev pub rounds : ℕ
rounds = 100

abbrev pub max_threads : ℕ
max_threads = 10

-- What a thread comes to before it calls `ut_yield`, with `left` rounds, or has done all its rounds.
pub record Stretch : Type 0 where
  pub rands : ℕ
  pub output : List ℕ
  pub left : Option ℕ

module _ (rand : ℕ → ℕ) where
  -- The loop of `test1_thread` up to the next call of `ut_yield`.
  unfoldable pub stretch : (c left rands : ℕ) (output : List ℕ) → Stretch
  stretch c zero rands output = record { rands = rands; output = output; left = none }
  stretch c (suc left) rands output =
      let rest = stretch c left (rands + 1) (output ++ c ∷ []) in
      if rand rands % 4 == 0
      then record { rands = rands + 1; output = output ++ c ∷ []; left = some left }
      else rest

  abbrev pub stretched : (ret_addr : ℕ) → Stretch → Option ℕ → Test → Test
  stretched ret_addr r (some left) t = record {
    kernel = ut_yield ret_addr t.kernel;
    test1_count = t.test1_count;
    left = update t.left t.kernel.running_thread left;
    rands = r.rands;
    output = r.output;
  }
  stretched ret_addr r none t = record {
    kernel = ut_exit t.kernel;
    test1_count = (t.test1_count + 1) % 2 ^ 64;
    left = update t.left t.kernel.running_thread 0;
    rands = r.rands;
    output = r.output;
  }

  -- `test1_thread`, of which `internal_start` is the caller, in the running thread.
  unfoldable pub turn : (ret_addr : ℕ) → Test → Test
  turn ret_addr t =
      let c = t.kernel.argument t.kernel.running_thread % 2 ^ 8 in
      let r = stretch c (t.left t.kernel.running_thread) t.rands t.output in
      stretched ret_addr r r.left t

  -- Turns until the main thread runs, with fuel.
  unfoldable pub turns : (ret_addr fuel : ℕ) → Test → Test
  turns ret_addr zero t = t
  turns ret_addr (suc fuel) t =
      let rest = turns ret_addr fuel (turn ret_addr t) in
      if t.kernel.running_thread == t.kernel.main_thread then t else rest

-- The two blocks that `ut_create` gets from `malloc`.
pub record Blocks : Type 0 where
  pub thread : ℕ
  pub stack : ℕ

abbrev pub and_then {ℓ κ} : {A : Type ℓ} {B : Type κ} → Outcome A → (A → Outcome B) → Outcome B
and_then (ok a) f = f a
and_then assert_failed f = assert_failed
and_then null_access f = null_access

-- The loop that creates the threads; the argument is the character for the index.
unfoldable pub create_threads : (start test1_thread index : ℕ) → List Blocks → State → Outcome State
create_threads start test1_thread index [] m = ok m
create_threads start test1_thread index (b ∷ bs) m =
    and_then (ut_create b.thread b.stack start test1_thread (48 + index) m)
      (λ r. create_threads start test1_thread (index + 1) bs r.0)

abbrev pub begun : State → Test
begun m = record { kernel = m; test1_count = 0; left = λ t. rounds; rands = 0; output = [] }

-- The end of `ut_run`, and the assertion of the test.
abbrev pub end_of_test : Test → Outcome Test
end_of_test t =
    and_then (ut_run_resume t.kernel)
      (λ m. if t.test1_count == max_threads then ok (record t { kernel = m }) else assert_failed)

-- `main_thread` is the address of the local variable of `ut_run`. There is a thread, so `ut_run` does
-- switch.
unfoldable pub test1 :
    (rand : ℕ → ℕ) (start test1_thread main_thread ret_addr fuel : ℕ)
    → List Blocks
    → State
    → Outcome Test
test1 rand start test1_thread main_thread ret_addr fuel blocks m =
    and_then (create_threads start test1_thread 0 blocks m) (λ m1.
      and_then (ut_run main_thread ret_addr m1)
        (λ m2. end_of_test (turns rand ret_addr fuel (begun m2))))
