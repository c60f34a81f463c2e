-- ===== src/Examples/Threads.antt =====
-- The programs over the context switch and the scheduler, with their threads at concrete addresses.
use so_2021v_li42d.Base.{ℕ, ◌+◌, ◌≡◌, refl, inl, Option, some, List, [], ◌∷◌, arith, get_elem?, ◌*◌}
use so_2021v_li42d.Uthread.{State, ok, ut_init}
use so_2021v_li42d.Uthread.Handover.{
  Place, f1, f1_2, f1_3, f1_end, f2, f2_end, f3, f3_2, f3_3, main_end, start, t1_step,
  t2_hello_world, t3_step, end, Threads, exited, main,
}
use so_2021v_li42d.Uthread.Handover.Relay.{main-relay}
use so_2021v_li42d.Uthread.SimpleTest.{Blocks, Test, test1}
use so_2021v_li42d.Uthread.SimpleTest.Ends.{AllFresh, Passed, test1-Passed}
use so_2021v_li42d.Examples.Contexts.{cpu}
use so_2021v_li42d.Examples.Schedulers.{state}

abbrev at : Place → ℕ
at f1 = 0
at f1_2 = 1
at f1_3 = 2
at f1_end = 3
at f2 = 4
at f2_end = 5
at f3 = 6
at f3_2 = 7
at f3_3 = 8
at main_end = 9

abbrev place_at : ℕ → Option Place
place_at k =
    get_elem? (f1 ∷ f1_2 ∷ f1_3 ∷ f1_end ∷ f2 ∷ f2_end ∷ f3 ∷ f3_2 ∷ f3_3 ∷ main_end ∷ []) k

place_at-at : (p : Place) → place_at (at p) ≡ some p
place_at-at f1 = refl
place_at-at f1_2 = refl
place_at-at f1_3 = refl
place_at-at f1_end = refl
place_at-at f2 = refl
place_at-at f2_end = refl
place_at-at f3 = refl
place_at-at f3_2 = refl
place_at-at f3_3 = refl
place_at-at main_end = refl

abbrev threads : Threads
threads = record { main_thread = 100000; thread1 = 200000; thread2 = 300000; thread3 = 400000 }

main-relay_example : main threads at place_at 7 (record cpu { rsp = 8000 }) ≡ (
  start
      ∷ t1_step 1
      ∷ t2_hello_world
      ∷ t3_step 1
      ∷ t1_step 2
      ∷ t3_step 2
      ∷ t1_step 3
      ∷ t3_step 3
      ∷ end
      ∷ [],
  exited 0,
)
main-relay_example =
    main-relay threads at place_at place_at-at (inl (omega arith)) (inl (omega arith))
      (inl (omega arith)) (record cpu { rsp = 8000 }) (inl (omega arith)) (inl (omega arith))
      (inl (omega arith)) (record { room = omega arith; apart = inl (omega arith) })
      (record { room = omega arith; apart = inl (omega arith) })
      (record { room = omega arith; apart = inl (omega arith) })

abbrev blocks_at : ℕ → Blocks
blocks_at t = record { thread = t; stack = 1000000 + 100000 * t }

abbrev ten_blocks : List Blocks
ten_blocks =
    blocks_at 64
    ∷ blocks_at 128
    ∷ blocks_at 192
    ∷ blocks_at 256
    ∷ blocks_at 320
    ∷ blocks_at 384
    ∷ blocks_at 448
    ∷ blocks_at 512
    ∷ blocks_at 576
    ∷ blocks_at 640
    ∷ []

abbrev booted : State
booted = state (record { next = λ p. 0; prev = λ p. 0 }) 0 0 0

ten_blocks-AllFresh : AllFresh 1000 [] ten_blocks
ten_blocks-AllFresh = (
  ground arith,
  ground arith,
  refl,
  (
    ground arith,
    ground arith,
    refl,
    (
      ground arith,
      ground arith,
      refl,
      (
        ground arith,
        ground arith,
        refl,
        (
          ground arith,
          ground arith,
          refl,
          (
            ground arith,
            ground arith,
            refl,
            (
              ground arith,
              ground arith,
              refl,
              (
                ground arith,
                ground arith,
                refl,
                (ground arith, ground arith, refl, (ground arith, ground arith, refl, tt)),
              ),
            ),
          ),
        ),
      ),
    ),
  ),
)

test1-Passed_example :
    (t : Test) × (test1 (λ k. k) 7 70 2000 9 1010 ten_blocks (ut_init booted) ≡ ok t) × Passed t
test1-Passed_example =
    test1-Passed (λ k. k) 7 70 2000 9 1010 ten_blocks booted refl refl refl (ground arith)
      ten_blocks-AllFresh refl refl (omega arith)
