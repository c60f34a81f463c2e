-- ===== src/Uthread/Handover.antt =====
-- The program of 13-uthread-ctxsw/uthread.c, on the processor of `Uthread.Context`: three functions that
-- hand the processor over to each other by name. A place is where a function starts or goes on after a
-- call of `context_switch`; `at` gives its address and `place_at` goes back. What the compiler keeps in
-- a function's own frame is left out.
pub mod Relay
pub mod Switch
use so_2021v_li42d.Base.{ℕ, zero, suc, Option, none, some, List, [], ◌∷◌, ◌++◌}
use so_2021v_li42d.Uthread.Context.{Cpu, prepare_thread, save, restore}

pub data Place : Type 0 where
  f1 : Place
  f1_2 : Place
  f1_3 : Place
  f1_end : Place
  f2 : Place
  f2_end : Place
  f3 : Place
  f3_2 : Place
  f3_3 : Place
  main_end : Place

-- The lines of output.
pub data Line : Type 0 where
  start : Line
  t1_step : ℕ → Line
  t2_hello_world : Line
  t3_step : ℕ → Line
  end : Line
  xx_error : Line

-- The addresses of `mainThread` and of `thread1`, `thread2` and `thread3`.
pub record Threads : Type 0 where
  pub main_thread : ℕ
  pub thread1 : ℕ
  pub thread2 : ℕ
  pub thread3 : ℕ

-- How a stretch of code ends: with `context_switch`, by `exit`, or by the end of its function.
pub data Ending : Type 0 where
  context_switch : (curr next : ℕ) (back : Place) → Ending
  exit : ℕ → Ending
  leaves : Ending

abbrev pub code : Threads → Place → List Line × Ending
code t f1 = (t1_step 1 ∷ [], context_switch t.thread1 t.thread2 f1_2)
code t f1_2 = (t1_step 2 ∷ [], context_switch t.thread1 t.thread3 f1_3)
code t f1_3 = (t1_step 3 ∷ [], context_switch t.thread1 t.thread3 f1_end)
code t f1_end = ([], leaves)
code t f2 = (t2_hello_world ∷ [], context_switch t.thread2 t.thread3 f2_end)
code t f2_end = ([], leaves)
code t f3 = (t3_step 1 ∷ [], context_switch t.thread3 t.thread1 f3_2)
code t f3_2 = (t3_step 2 ∷ [], context_switch t.thread3 t.thread1 f3_3)
code t f3_3 = (t3_step 3 ∷ end ∷ [], exit 0)
code t main_end = (xx_error ∷ [], exit 1)

-- How the program ends: with a status, with no code at the address where it should go on, at the end of
-- a thread's function, or not within the fuel.
pub data End : Type 0 where
  exited : ℕ → End
  lost : End
  left_function : End
  out_of_fuel : End

abbrev pub after_lines : List Line → List Line × End → List Line × End
after_lines lines r = (lines ++ r.0, r.1)

module _ (t : Threads) (at : Place → ℕ) (place_at : ℕ → Option Place) where
  -- The end of a stretch of code, with what runs after a switch.
  abbrev pub ended : (Cpu → List Line × End) → Ending → Cpu → List Line × End
  ended rest (context_switch curr next back) c = rest (restore next (save curr (at back) c))
  ended rest (exit status) c = ([], exited status)
  ended rest leaves c = ([], left_function)

  abbrev pub run_at : (Cpu → List Line × End) → Option Place → Cpu → List Line × End
  run_at rest none c = ([], lost)
  run_at rest (some p) c = after_lines (code t p).0 (ended rest (code t p).1 c)

  -- The processor goes on at its `rip`.
  unfoldable pub run : (fuel : ℕ) → Cpu → List Line × End
  run zero c = ([], out_of_fuel)
  run (suc fuel) c = run_at (run fuel) (place_at c.rip) c

  unfoldable pub main : (fuel : ℕ) → Cpu → List Line × End
  main fuel c =
      let c = prepare_thread t.thread1 (at f1) c in
      let c = prepare_thread t.thread2 (at f2) c in
      let c = prepare_thread t.thread3 (at f3) c in
      after_lines (start ∷ []) (run fuel (restore t.thread1 (save t.main_thread (at main_end) c)))
