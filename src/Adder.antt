-- ===== src/Adder.antt =====
-- The parallel sum of 18-thread-pool/adder.c. A `long` is its 64-bit word, and an element of `vals`
-- is the word that its `int` is converted to, so that negative numbers add up as they do in two's
-- complement. A pointer into the array is the index of its element.
pub mod Parallel
pub mod Partition
pub mod Program
use so_2021v_li42d.Base.{
  ℕ, zero, suc, ◌+◌, ◌-◌, ◌*◌, ◌/◌, ◌%◌, ◌^◌, Bool, Option, none, some, List, [], ◌∷◌,
  if◌then◌else◌, ltb, update,
}
use so_2021v_li42d.Base.Int.{pos}
use so_2021v_li42d.Monitor.Latch.{
  Latch, countdownlatch_init, countdownlatch_countdown, countdownlatch_await_test,
}

-- The loop of both functions: `n` more elements from index `i` on.
unfoldable pub add_up : (vals : ℕ → ℕ) (i n total : ℕ) → ℕ
add_up vals i zero total = total
add_up vals i (suc n) total = add_up vals (i + 1) n ((total + vals i) % 2 ^ 64)

unfoldable pub seq_adder : (vals : ℕ → ℕ) (nvals : ℕ) → ℕ
seq_adder vals nvals = add_up vals 0 nvals 0

pub record SumTask : Type 0 where
  pub begin : ℕ
  pub end : ℕ

-- The latch and the fields `total` of the tasks, which `par_func` writes.
pub record Shared : Type 0 where
  pub cdl : Latch
  pub totals : ℕ → ℕ

-- `par_func`, on the task with the number `n`. The loop runs while `p < end`.
unfoldable pub par_func : (vals : ℕ → ℕ) (n : ℕ) → SumTask → Shared → Shared
par_func vals n stask s = record {
  cdl = (countdownlatch_countdown s.cdl).0;
  totals = update s.totals n (add_up vals stask.begin (stask.end - stask.begin) 0);
}

abbrev pub nthreads : ℕ
nthreads = 4

-- The task that the loop of `par_adder` fills in round `n`.
unfoldable pub region : (nvals n : ℕ) → SumTask
region nvals n =
    let region_size = (nvals + (nthreads - 1)) % 2 ^ 64 / nthreads in
    let begin = n * region_size in
    record {
      begin = begin;
      end = if ltb nvals (begin + region_size) then nvals else begin + region_size;
    }

-- The workers of the pool end the tasks in the given order.
unfoldable pub run_tasks : (vals : ℕ → ℕ) (nvals : ℕ) → List ℕ → Shared → Shared
run_tasks vals nvals [] s = s
run_tasks vals nvals (n ∷ order) s = run_tasks vals nvals order (par_func vals n (region nvals n) s)

-- The loop that adds the totals of the tasks.
unfoldable pub add_totals : (totals : ℕ → ℕ) → ℕ
add_totals totals = add_up totals 0 nthreads 0

-- `order` has the tasks that have ended when the latch is looked at, and `garbage` the bytes of the
-- fields `total` before; `none` when the caller goes on to wait.
unfoldable pub par_adder : (garbage : ℕ → ℕ) (order : List ℕ) (vals : ℕ → ℕ) (nvals : ℕ) → Option ℕ
par_adder garbage order vals nvals =
    let s =
      run_tasks vals nvals order
        (record { cdl = countdownlatch_init (pos nthreads); totals = garbage }) in
    if countdownlatch_await_test s.cdl then none else some (add_totals s.totals)
