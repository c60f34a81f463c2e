-- ===== src/Examples/Counters.antt =====
-- The counters of 16-pthreads with two threads, the stopwatch, and the program of the parallel sum.
use so_2021v_li42d.Base.{
  ℕ, ◌+◌, ◌<◌, ◌*◌, ◌-◌, ◌^◌, ◌≤◌, ◌≡◌, refl, true, none, List, [], ◌∷◌, ◌++◌, has, arith,
}
use so_2021v_li42d.Counter.{count_all, count_start, replicate, race, race_start}
use so_2021v_li42d.Counter.Locked.Ends.{AllDone, count_all-AllDone, count_all-can_end}
use so_2021v_li42d.Counter.Racing.{colliding, apart, race-loses}
use so_2021v_li42d.Chrono.{Chrono, chrono_start, chrono_micros}
use so_2021v_li42d.Chrono.Elapsed.{chrono_micros-nearest}
use so_2021v_li42d.Adder.Program.{gives, adder_main}
use so_2021v_li42d.Adder.Program.Results.{least_micros, adder_main-gives}

-- Thread 1 waits once for the lock.
abbrev two_rounds : List ℕ
two_rounds = 0 ∷ 1 ∷ 0 ∷ 0 ∷ 0 ∷ 1 ∷ 1 ∷ 1 ∷ 1 ∷ []

two_rounds-AllDone : AllDone (count_all two_rounds (count_start 2 1)).threads
unfolding count_all count_start
two_rounds-AllDone = (refl, (refl, tt))

count_all-AllDone_example : (count_all two_rounds (count_start 2 1)).counter ≡ 2
count_all-AllDone_example = count_all-AllDone 2 1 two_rounds (omega arith) two_rounds-AllDone

-- Thread 1 has the lock and thread 0 waits for it.
count_all-can_end_example :
    (rest : List ℕ) × AllDone (count_all ((1 ∷ 0 ∷ 1 ∷ []) ++ rest) (count_start 2 3)).threads
    × ((count_all ((1 ∷ 0 ∷ 1 ∷ []) ++ rest) (count_start 2 3)).counter ≡ 6)
count_all-can_end_example = count_all-can_end 2 3 (1 ∷ 0 ∷ 1 ∷ []) (omega arith)

race-loses_example :
    race (colliding 2 ++ apart 1) (race_start 2 3)
    ≡ record { counter = 4; racers = replicate 2 (record { left = 0; loaded_value = none }) }
race-loses_example = race-loses 2 1 (omega arith)

abbrev first_stamp : Chrono
first_stamp = record { tv_sec = 4; tv_nsec = 999999000 }

-- 2501 nanoseconds later
abbrev later_stamp : Chrono
later_stamp = record { tv_sec = 5; tv_nsec = 1501 }

chrono_micros-nearest_example :
    (1000 * chrono_micros later_stamp (chrono_start first_stamp) ≤ 2501 + 500)
    × (2501 < 1000 * chrono_micros later_stamp (chrono_start first_stamp) + 500)
chrono_micros-nearest_example =
    chrono_micros-nearest first_stamp later_stamp (record { sec = omega arith; nsec = omega arith })
      (record { sec = omega arith; nsec = omega arith }) (omega arith) (omega arith)

abbrev clock : ℕ → Chrono
clock k = record { tv_sec = 1; tv_nsec = 1000 * k }

abbrev last_first : ℕ → List ℕ
last_first i = 3 ∷ 2 ∷ 1 ∷ 0 ∷ []

every_task : (i n : ℕ) → n < 4 → has n (last_first i) ≡ true
every_task i n l = ground arith

adder_main-gives_example :
    adder_main 7 clock (λ i n. 9) last_first 6
    ≡ gives 6 (least_micros clock 0 50 (2 ^ 64 - 1))
      ∷ gives 6 (least_micros (λ k. clock (100 + k)) 0 50 (2 ^ 64 - 1))
      ∷ []
adder_main-gives_example =
    adder_main-gives 7 clock (λ i n. 9) last_first 6 (omega arith) (λ i. refl) every_task
