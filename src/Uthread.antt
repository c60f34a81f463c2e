-- ===== src/Uthread.antt =====
-- The cooperative scheduler of 15-uthread-synch/uthreads/uthread/uthread.c and include/uthread.h.
-- A thread is the address of its descriptor. An operation runs up to the context switch that it ends
-- in; what `ut_run` does once it is switched in again is `ut_run_resume`.
pub mod Context
pub mod Handover
pub mod Lifecycle
pub mod Older
pub mod Refine
pub mod Rotate
pub mod SimpleTest
pub mod Spec
use so_2021v_li42d.Base.{
  ℕ, ◌+◌, ◌-◌, ◌%◌, ◌^◌, Bool, true, false, ◌&&◌, not, if◌then◌else◌, ◌==◌, update,
}
use so_2021v_li42d.EntryList.{
  Links, init_list_head, is_list_empty, remove_list_first, insert_list_last,
}
use so_2021v_li42d.Uthread.Context.{Cpu, save, restore, build_context}

-- The fields of `struct uthread` by address, the globals of uthread.c, and the blocks in use.
pub record State : Type 0 where
  pub links : Links
  pub cpu : Cpu
  pub function : ℕ → ℕ
  pub argument : ℕ → ℕ
  pub stack : ℕ → ℕ
  pub allocated : ℕ → Bool
  pub ready_queue : ℕ
  pub number_of_threads : ℕ
  pub running_thread : ℕ
  pub main_thread : ℕ

abbrev pub null : ℕ
null = 0

-- The field `entry` follows the pointer `context`.
abbrev pub entry_of : ℕ → ℕ
entry_of thread = thread + 8

abbrev pub container_of : ℕ → ℕ → ℕ
container_of address offset = address - offset

-- How a call ends: normally, in a failed `assert`, or in an access through a null pointer.
pub data Outcome {ℓ} (A : Type ℓ) : Type ℓ where
  ok : A → Outcome A
  assert_failed : Outcome A
  null_access : Outcome A

-- `context_switch`: save the running context, make the next thread the running one, load its context.
unfoldable pub context_switch : (curr_thread next_thread ret_addr : ℕ) → State → State
context_switch curr_thread next_thread ret_addr m = record m {
  cpu = restore next_thread (save curr_thread ret_addr m.cpu);
  running_thread = next_thread;
}

unfoldable pub internal_cleanup : ℕ → State → State
internal_cleanup thread m = record m {
  allocated = update (update m.allocated (m.stack thread) false) thread false;
}

-- `internal_exit`: load the next context, then free what belongs to the thread that ends.
unfoldable pub internal_exit : (curr_thread next_thread : ℕ) → State → State
internal_exit curr_thread next_thread m =
    internal_cleanup curr_thread
      (record m { cpu = restore next_thread m.cpu; running_thread = next_thread })

unfoldable pub extract_next_thread : State → State × ℕ
extract_next_thread m = if is_list_empty m.links m.ready_queue then (m, m.main_thread) else (
  record m { links = (remove_list_first m.links m.ready_queue).0 },
  container_of (remove_list_first m.links m.ready_queue).1 8,
)

unfoldable pub schedule : ℕ → State → State
schedule ret_addr m =
    let (m', next_thread) = extract_next_thread m in
    context_switch m'.running_thread next_thread ret_addr m'

unfoldable pub ut_init : State → State
ut_init m = record m { links = init_list_head m.links m.ready_queue }

-- `thread` is the address of the local variable that stands for the thread of the operating system.
unfoldable pub ut_run : (thread ret_addr : ℕ) → State → Outcome State
ut_run thread ret_addr m =
    if m.running_thread == null
    then if is_list_empty m.links m.ready_queue
      then ok m
      else ok (schedule ret_addr (record m { main_thread = thread; running_thread = thread }))
    else assert_failed

-- The rest of `ut_run`, when the main thread is switched in again.
unfoldable pub ut_run_resume : State → Outcome State
ut_run_resume m =
    if is_list_empty m.links m.ready_queue && m.number_of_threads == 0
    then ok (record m { running_thread = null; main_thread = null })
    else assert_failed

unfoldable pub ut_exit : State → State
ut_exit m =
    let m1 = record m { number_of_threads = (m.number_of_threads + 2 ^ 32 - 1) % 2 ^ 32 } in
    let (m2, next_thread) = extract_next_thread m1 in internal_exit m2.running_thread next_thread m2

unfoldable pub ut_yield : ℕ → State → State
ut_yield ret_addr m =
    if is_list_empty m.links m.ready_queue
    then m
    else schedule ret_addr
        (record m { links = insert_list_last m.links m.ready_queue (entry_of m.running_thread) })

unfoldable pub ut_self : State → ℕ
ut_self m = m.running_thread

unfoldable pub ut_deactivate : ℕ → State → State
ut_deactivate ret_addr m = schedule ret_addr m

unfoldable pub ut_activate : ℕ → State → State
ut_activate thread m = record m { links = insert_list_last m.links m.ready_queue (entry_of thread) }

-- The trampoline: the client's function, then `ut_exit`. `call` is what calling it does.
unfoldable pub internal_start : (call : (function argument : ℕ) → State → State) → State → State
internal_start call m = ut_exit (call (m.function m.running_thread) (m.argument m.running_thread) m)

-- `thread` and `stack` are what the two calls of `malloc` return, `start` the address of
-- `internal_start`. The field `stack` is stored before the pointers are tested.
unfoldable pub ut_create : (thread stack start start_routine arg : ℕ) → State → Outcome (State × ℕ)
ut_create thread stack start start_routine arg m =
    if thread == null
    then null_access
    else if stack == null
    then assert_failed
    else ok (
      ut_activate thread (record m {
        allocated = update (update m.allocated thread true) stack true;
        stack = update m.stack thread stack;
        function = update m.function thread start_routine;
        argument = update m.argument thread arg;
        cpu = build_context thread stack start m.cpu;
        number_of_threads = (m.number_of_threads + 1) % 2 ^ 32;
      }),
      thread,
    )
