-- ===== src/Examples/Programs.antt =====
-- A program on the scheduler of 14-uthread-scheduling: two threads, of which the first yields once.
use so_2021v_li42d.Base.{◌≡◌, refl, List, [], ◌∷◌, false, arith}
use so_2021v_li42d.Uthread.Context.{Cpu}
use so_2021v_li42d.Uthread.Older.{State14, ut_init14, Call, creates, runs, yields, exits, program}
use so_2021v_li42d.Uthread.Older.Program.{
  AllAllowed, Refines14, program_spec, idle, program-Refines14,
}
use so_2021v_li42d.Uthread.Refine.{sched}
use so_2021v_li42d.Uthread.Spec.{dispatch, activate, create, yield, exit}

abbrev calls : List Call
calls = creates 1000 7 70 1 ∷ creates 2000 7 70 2 ∷ runs 3000 9 ∷ yields 9 ∷ exits ∷ exits ∷ []

abbrev cpu : Cpu
cpu = record {
  rsp = 8000;
  rbp = 0;
  rbx = 1;
  r12 = 2;
  r13 = 3;
  r14 = 4;
  r15 = 5;
  rip = 6;
  words = λ a. 0;
}

abbrev booted : State14
booted = record {
  links = record { flink = λ p. 0; blink = λ p. 0 };
  cpu = cpu;
  start_routine = λ p. 0;
  arg = λ p. 0;
  mapped = λ p. false;
  ready_queue = 500;
  running_thread = 0;
  main_thread = 0;
}

abbrev last_calls : List Call
last_calls = runs 3000 9 ∷ yields 9 ∷ exits ∷ exits ∷ []

last_calls-AllAllowed : AllAllowed 500 last_calls (sched 0 0 (1000 ∷ 2000 ∷ []) 2)
unfolding dispatch activate yield exit
last_calls-AllAllowed = (refl, (ground arith, (ground arith, (ground arith, tt))))

calls-AllAllowed : AllAllowed 500 calls idle
unfolding activate create
calls-AllAllowed = (
  (refl, ground arith, ground arith),
  ((refl, ground arith, ground arith), last_calls-AllAllowed),
)

program-Refines14_example : Refines14 (program calls (ut_init14 booted)) (program_spec calls idle)
program-Refines14_example = program-Refines14 calls booted refl refl (ground arith) calls-AllAllowed

-- The second thread ends last, and the main thread runs again.
program_ends : (program_spec calls idle).running ≡ 3000
unfolding program_spec dispatch activate create yield exit
program_ends = refl
