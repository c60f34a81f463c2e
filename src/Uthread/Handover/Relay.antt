-- ===== src/Uthread/Handover/Relay.antt =====
-- What the program of 13-uthread-ctxsw/uthread.c prints.
use so_2021v_li42d.Base.{
  ℕ, suc, ◌+◌, ◌≡◌, inl, inr, refl, ap, ◌∙◌, Option, some, List, [], ◌∷◌, arith,
}
use so_2021v_li42d.Uthread.Context.{Cpu, prepare_thread, save, restore}
use so_2021v_li42d.Uthread.Handover.{
  Place, f1, f1_2, f1_3, f1_end, f2, f2_end, f3, f3_2, f3_3, main_end, Line, start, t1_step,
  t2_hello_world, t3_step, end, Threads, context_switch, exit, code, End, exited, ended, run_at,
  after_lines, run, main,
}
use so_2021v_li42d.Uthread.Handover.Switch.{
  thread_size, Apart, Clear, Parked, Runs, save-Parked, save_other, restore-Runs, restore_other,
  prepare_thread-Parked, prepare_thread_other,
}

Apart-sym : (a b : ℕ) → Apart a b → Apart b a
Apart-sym a b (inl l) = inr l
Apart-sym a b (inr l) = inl l

Apart-Clear : (a b rsp : ℕ) → Apart a b → rsp ≡ a + thread_size → Clear rsp b
Apart-Clear a b rsp (inl l) e = record { room = omega arith; apart = inl (omega arith) }
Apart-Clear a b rsp (inr l) e = record { room = omega arith; apart = inr (omega arith) }

module _ (t : Threads) (at : Place → ℕ) (place_at : ℕ → Option Place)
    (back_at : (p : Place) → place_at (at p) ≡ some p) where
  -- `a` runs from the place `p`, `b` and `d` are parked at `q` and `r`.
  record Stage (a : ℕ) (p : Place) (b : ℕ) (q : Place) (d : ℕ) (r : Place) (c : Cpu) : Type 0 where
    running : Runs at a p c
    first : Parked at b q c
    second : Parked at d r c

  Stage-swap : (a b d : ℕ) (p q r : Place) (c : Cpu) → Stage a p b q d r c → Stage a p d r b q c
  Stage-swap a b d p q r c s = record { running = s.running; first = s.second; second = s.first }

  switch-Stage :
      (a b d : ℕ) (p q r back : Place) (c : Cpu)
      → Apart a b
      → Apart a d
      → Stage a p b q d r c
      → Stage b q a back d r (restore b (save a (at back) c))
  switch-Stage a b d p q r back c ab ad s =
      let saved = save a (at back) c in
      let own = save-Parked at a back c s.running.rsp in
      let one =
        save_other at a (at back) b q c ab (Apart-Clear a b c.rsp ab s.running.rsp) s.first in
      let two =
        save_other at a (at back) d r c ad (Apart-Clear a d c.rsp ad s.running.rsp) s.second in
      record {
        running = restore-Runs at b q saved one;
        first = restore_other at b a back saved own;
        second = restore_other at b d r saved two;
      }

  -- A stretch of code that ends with a switch, and what comes after it.
  follow :
      (a b d : ℕ) (p q r back : Place) (lines : List Line) (rest : List Line × End) (fuel : ℕ)
      (c : Cpu)
      → Apart a b
      → Apart a d
      → code t p ≡ (lines, context_switch a b back)
      → ((c : Cpu) → Stage b q a back d r c → run t at place_at fuel c ≡ rest)
      → Stage a p b q d r c
      → run t at place_at (suc fuel) c ≡ after_lines lines rest
  unfolding run
  follow a b d p q r back lines rest fuel c ab ad is next s =
      let going = run t at place_at fuel in
      ap (λ x. run_at t at place_at going x c) (ap place_at s.running.rip ∙ back_at p)
      ∙ ap (λ x. after_lines x.0 (ended t at place_at going x.1 c)) is
      ∙ ap (after_lines lines) (next _ (switch-Stage a b d p q r back c ab ad s))

  -- A stretch of code that ends the program.
  last :
      (a b d : ℕ) (p q r : Place) (lines : List Line) (status fuel : ℕ) (c : Cpu)
      → code t p ≡ (lines, exit status)
      → Stage a p b q d r c
      → run t at place_at (suc fuel) c ≡ after_lines lines ([], exited status)
  unfolding run
  last a b d p q r lines status fuel c is s =
      let going = run t at place_at fuel in
      ap (λ x. run_at t at place_at going x c) (ap place_at s.running.rip ∙ back_at p)
      ∙ ap (λ x. after_lines x.0 (ended t at place_at going x.1 c)) is

  module _ (apart12 : Apart t.thread1 t.thread2) (apart13 : Apart t.thread1 t.thread3)
      (apart23 : Apart t.thread2 t.thread3) where
    -- From the start of `f1` to the end of the program.
    relay :
        (c : Cpu)
        → Stage t.thread1 f1 t.thread2 f2 t.thread3 f3 c
        → run t at place_at 7 c ≡ (
          t1_step 1
              ∷ t2_hello_world
              ∷ t3_step 1
              ∷ t1_step 2
              ∷ t3_step 2
              ∷ t1_step 3
              ∷ t3_step 3
              ∷ end
              ∷ [],
          exited 0,
        )
    relay c s =
        let one = t.thread1 in
        let two = t.thread2 in
        let three = t.thread3 in
        let apart31 = Apart-sym one three apart13 in
        let apart32 = Apart-sym two three apart23 in
        let apart21 = Apart-sym one two apart12 in
        follow one two three f1 f2 f3 f1_2 _ _ 6 c apart12 apart13 refl
          (λ c s.
            follow two three one f2 f3 f1_2 f2_end _ _ 5 c apart23 apart21 refl
              (λ c s.
                follow three one two f3 f1_2 f2_end f3_2 _ _ 4 c apart31 apart32 refl
                  (λ c s.
                    follow one three two f1_2 f3_2 f2_end f1_3 _ _ 3 c apart13 apart12 refl
                      (λ c s.
                        follow three one two f3_2 f1_3 f2_end f3_3 _ _ 2 c apart31 apart32 refl
                          (λ c s.
                            follow one three two f1_3 f3_3 f2_end f1_end _ _ 1 c apart13 apart12
                              refl (λ c s. last three one two f3_3 f1_end f2_end _ 0 0 c refl s) s)
                          s)
                      s)
                  (Stage-swap three two one f3 f2_end f1_2 c s))
              (Stage-swap two one three f2 f1_2 f3 c s))
          s

    -- Wherever the four threads and the stack of `main` lie in memory, if they do not overlap, the
    -- program ends with status 0 after the lines of the three functions in the order that the switches
    -- ask for; the line `xx ERROR xx` is not among them.
    pub main-relay :
        (c : Cpu)
        → Apart t.main_thread t.thread1
        → Apart t.main_thread t.thread2
        → Apart t.main_thread t.thread3
        → Clear c.rsp t.thread1
        → Clear c.rsp t.thread2
        → Clear c.rsp t.thread3
        → main t at place_at 7 c ≡ (
          start
              ∷ t1_step 1
              ∷ t2_hello_world
              ∷ t3_step 1
              ∷ t1_step 2
              ∷ t3_step 2
              ∷ t1_step 3
              ∷ t3_step 3
              ∷ end
              ∷ [],
          exited 0,
        )
    unfolding main prepare_thread
    main-relay c m1 m2 m3 clear1 clear2 clear3 =
        let c1 = prepare_thread t.thread1 (at f1) c in
        let c2 = prepare_thread t.thread2 (at f2) c1 in
        let c3 = prepare_thread t.thread3 (at f3) c2 in
        let saved = save t.main_thread (at main_end) c3 in
        let one =
          prepare_thread_other at t.thread3 (at f3) t.thread1 f1 c2
            (Apart-sym t.thread1 t.thread3 apart13)
            (prepare_thread_other at t.thread2 (at f2) t.thread1 f1 c1
              (Apart-sym t.thread1 t.thread2 apart12) (prepare_thread-Parked at t.thread1 f1 c)) in
        let two =
          prepare_thread_other at t.thread3 (at f3) t.thread2 f2 c2
            (Apart-sym t.thread2 t.thread3 apart23) (prepare_thread-Parked at t.thread2 f2 c1) in
        let three = prepare_thread-Parked at t.thread3 f3 c2 in
        let kept1 = save_other at t.main_thread (at main_end) t.thread1 f1 c3 m1 clear1 one in
        let kept2 = save_other at t.main_thread (at main_end) t.thread2 f2 c3 m2 clear2 two in
        let kept3 = save_other at t.main_thread (at main_end) t.thread3 f3 c3 m3 clear3 three in
        ap (after_lines (start ∷ [])) (
          relay (restore t.thread1 saved) (record {
            running = restore-Runs at t.thread1 f1 saved kept1;
            first = restore_other at t.thread1 t.thread2 f2 saved kept2;
            second = restore_other at t.thread1 t.thread3 f3 saved kept3;
          }))
