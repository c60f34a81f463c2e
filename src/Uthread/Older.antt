-- ===== src/Uthread/Older.antt =====
-- The first version of the scheduler, 14-uthread-scheduling/uthread.c with ctxsw.s, over the older list.
pub mod Program
use so_2021v_li42d.Base.{ℕ, ◌+◌, Bool, true, false, List, [], ◌∷◌, if◌then◌else◌, update}
use so_2021v_li42d.EntryList.Flink.{
  FlinkLinks, init_list_head14, is_list_empty14, remove_head_list, insert_tail_list,
}
use so_2021v_li42d.Uthread.{container_of}
use so_2021v_li42d.Uthread.Context.{Cpu, save, restore, build_context14}

-- The fields of `struct uthread` by address, the globals of uthread.c, and the blocks that are mapped.
pub record State14 : Type 0 where
  pub links : FlinkLinks
  pub cpu : Cpu
  pub start_routine : ℕ → ℕ
  pub arg : ℕ → ℕ
  pub mapped : ℕ → Bool
  pub ready_queue : ℕ
  pub running_thread : ℕ
  pub main_thread : ℕ

-- The field `entry` follows three words.
abbrev pub entry_of14 : ℕ → ℕ
entry_of14 puthread = puthread + 24

unfoldable pub context_switch14 : (curr_thread next_thread ret_addr : ℕ) → State14 → State14
context_switch14 curr_thread next_thread ret_addr m = record m {
  cpu = restore next_thread (save curr_thread ret_addr m.cpu);
  running_thread = next_thread;
}

unfoldable pub cleanup_thread : ℕ → State14 → State14
cleanup_thread puthread m = record m { mapped = update m.mapped puthread false }

unfoldable pub internal_exit14 : (curr_thread next_thread : ℕ) → State14 → State14
internal_exit14 curr_thread next_thread m =
    cleanup_thread curr_thread
      (record m { cpu = restore next_thread m.cpu; running_thread = next_thread })

unfoldable pub extract_next_ready_thread : State14 → State14 × ℕ
extract_next_ready_thread m =
    let (links, entry) = remove_head_list m.links m.ready_queue in
    if is_list_empty14 m.links m.ready_queue
    then (m, m.main_thread)
    else (record m { links = links }, container_of entry 24)

unfoldable pub schedule14 : ℕ → State14 → State14
schedule14 ret_addr m =
    let (m', next_thread) = extract_next_ready_thread m in
    context_switch14 m'.running_thread next_thread ret_addr m'

unfoldable pub ut_init14 : State14 → State14
ut_init14 m = record m { links = init_list_head14 m.links m.ready_queue }

-- `thread` is the address of the local variable `the_main_thread`.
unfoldable pub ut_run14 : (thread ret_addr : ℕ) → State14 → State14
ut_run14 thread ret_addr m =
    schedule14 ret_addr (record m { running_thread = thread; main_thread = thread })

-- `puthread` is what `mmap` returns, `start` the address of `internal_start`.
unfoldable pub ut_create14 : (puthread start start_routine arg : ℕ) → State14 → State14
ut_create14 puthread start start_routine arg m = record m {
  links = insert_tail_list m.links m.ready_queue (entry_of14 puthread);
  cpu = build_context14 puthread start m.cpu;
  start_routine = update m.start_routine puthread start_routine;
  arg = update m.arg puthread arg;
  mapped = update m.mapped puthread true;
}

unfoldable pub ut_yield14 : ℕ → State14 → State14
ut_yield14 ret_addr m =
    if is_list_empty14 m.links m.ready_queue
    then m
    else schedule14 ret_addr
        (record m { links = insert_tail_list m.links m.ready_queue (entry_of14 m.running_thread) })

unfoldable pub ut_exit14 : State14 → State14
ut_exit14 m =
    let (m', next_thread) = extract_next_ready_thread m in
    internal_exit14 m'.running_thread next_thread m'

-- The trampoline: the client's function, then `ut_exit`. `call` is what calling it does.
unfoldable pub internal_start14 :
    (call : (start_routine arg : ℕ) → State14 → State14) → State14 → State14
internal_start14 call m =
    ut_exit14 (call (m.start_routine m.running_thread) (m.arg m.running_thread) m)

-- The calls of a program on the library, one after the other, each by the thread that runs then.
pub data Call : Type 0 where
  creates : (puthread start start_routine arg : ℕ) → Call
  runs : (thread ret_addr : ℕ) → Call
  yields : (ret_addr : ℕ) → Call
  exits : Call

abbrev pub perform : Call → State14 → State14
perform (creates puthread start start_routine arg) m =
    ut_create14 puthread start start_routine arg m
perform (runs thread ret_addr) m = ut_run14 thread ret_addr m
perform (yields ret_addr) m = ut_yield14 ret_addr m
perform exits m = ut_exit14 m

unfoldable pub program : List Call → State14 → State14
program [] m = m
program (c ∷ cs) m = program cs (perform c m)
