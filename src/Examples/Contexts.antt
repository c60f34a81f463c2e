-- ===== src/Examples/Contexts.antt =====
-- Context switches at concrete stacks.
use so_2021v_li42d.Base.{refl, arith, inr}
use so_2021v_li42d.Uthread.Context.{Cpu, save, restore, Resumed, restore-save}

abbrev pub cpu : Cpu
cpu = record {
  rsp = 10_000;
  rbp = 1;
  rbx = 2;
  r12 = 3;
  r13 = 4;
  r14 = 5;
  r15 = 6;
  rip = 7;
  words = λ p. 0;
}

restore-save_example : Resumed cpu 55 (restore 64 (save 64 55 cpu))
restore-save_example =
    restore-save cpu (save 64 55 cpu) 64 55 (omega arith) (inr (omega arith))
      (record { slot = refl; frame = λ p lo hi. refl })
