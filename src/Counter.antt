-- ===== src/Counter.antt =====
-- The threads of 16-pthreads that count in the variable `counter`: pthreads03.c with a lock and
-- pthreads02.c without one. `++counter` is a load and a store; a turn runs one thread up to its next
-- access to what the threads share.
pub mod Locked
pub mod Racing
use so_2021v_li42d.Base.{
  ℕ, zero, suc, ◌+◌, ◌-◌, ◌%◌, ◌^◌, Bool, true, false, Option, none, some, List, [], ◌∷◌,
  if◌then◌else◌, ◌==◌, get_elem?, set,
}

abbrev pub nthreads : ℕ
nthreads = 8

-- `NITERATIONS` of pthreads03.c and of pthreads02.c
abbrev pub niterations : ℕ
niterations = 200000

abbrev pub racing_niterations : ℕ
racing_niterations = 10000

-- Where a thread of pthreads03.c stands: before the lock, before the load, before the store with what it
-- has loaded, or before the unlock.
pub data Phase : Type 0 where
  outside : Phase
  locked : Phase
  loaded : ℕ → Phase
  stored : Phase

-- `left` is how many rounds of its loop a thread has not ended.
pub record Thread : Type 0 where
  pub left : ℕ
  pub phase : Phase

pub record Counting : Type 0 where
  pub counter : ℕ
  pub cnt_lock : Bool
  pub threads : List Thread

abbrev pub with_thread : Counting → ℕ → Thread → Counting
with_thread s i t = record s { threads = set s.threads i t }

abbrev pub thread_func : (i left : ℕ) → Phase → Counting → Counting
thread_func i zero outside s = s
thread_func i (suc left) outside s =
    if s.cnt_lock
    then s
    else with_thread (record s { cnt_lock = true }) i (record { left = suc left; phase = locked })
thread_func i left locked s = with_thread s i (record { left = left; phase = loaded s.counter })
thread_func i left (loaded v) s =
    with_thread (record s { counter = (v + 1) % 2 ^ 32 }) i (record { left = left; phase = stored })
thread_func i left stored s =
    with_thread (record s { cnt_lock = false }) i (record { left = left - 1; phase = outside })

abbrev pub turn_of : ℕ → Option Thread → Counting → Counting
turn_of i none s = s
turn_of i (some t) s = thread_func i t.left t.phase s

-- The threads in the order of `turns`.
unfoldable pub count_all : List ℕ → Counting → Counting
count_all [] s = s
count_all (i ∷ turns) s = count_all turns (turn_of i (get_elem? s.threads i) s)

abbrev pub replicate {ℓ} : {A : Type ℓ} → ℕ → A → List A
replicate zero x = []
replicate (suc n) x = x ∷ replicate n x

unfoldable pub count_start : (nthreads niterations : ℕ) → Counting
count_start n rounds = record {
  counter = 0;
  cnt_lock = false;
  threads = replicate n (record { left = rounds; phase = outside });
}

-- pthreads02.c: a thread has loaded the counter or not.
pub record Racer : Type 0 where
  pub left : ℕ
  pub loaded_value : Option ℕ

pub record Race : Type 0 where
  pub counter : ℕ
  pub racers : List Racer

abbrev pub race_func : (i left : ℕ) → Option ℕ → Race → Race
race_func i zero v s = s
race_func i (suc left) none s = record s {
  racers = set s.racers i (record { left = suc left; loaded_value = some s.counter });
}
race_func i (suc left) (some v) s = record {
  counter = (v + 1) % 2 ^ 32;
  racers = set s.racers i (record { left = left; loaded_value = none });
}

abbrev pub race_turn : ℕ → Option Racer → Race → Race
race_turn i none s = s
race_turn i (some t) s = race_func i t.left t.loaded_value s

unfoldable pub race : List ℕ → Race → Race
race [] s = s
race (i ∷ turns) s = race turns (race_turn i (get_elem? s.racers i) s)

unfoldable pub race_start : (nthreads niterations : ℕ) → Race
race_start n rounds = record {
  counter = 0;
  racers = replicate n (record { left = rounds; loaded_value = none });
}
