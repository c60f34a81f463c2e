-- ===== src/Adder/Parallel.antt =====
-- `par_adder` of 18-thread-pool/adder.c against `seq_adder`, whatever the order in which the workers
-- end the four tasks.
use so_2021v_li42d.Base.{
  ℕ, ◌+◌, ◌-◌, ◌*◌, ◌/◌, ◌%◌, ◌^◌, ◌<◌, ◌≡◌, inl, inr, refl, ap, ◌∙◌, arith, some, none, List, [],
  ◌∷◌, length, has, true, false, Bool-cases,
}
use so_2021v_li42d.Base.Int.{pos, ◌-ℤ◌}
use so_2021v_li42d.Monitor.Latch.{
  Latch, countdownlatch_init, countdownlatch_countdown, countdownlatch_await_test,
}
use so_2021v_li42d.Adder.{
  add_up, seq_adder, par_func, region, run_tasks, add_totals, par_adder, Shared,
}
use so_2021v_li42d.Adder.Partition.{sum, cut, add_up_zero, four_regions}

-- What `par_func` writes for the task `n`.
total : (vals : ℕ → ℕ) (nvals n : ℕ) → ℕ
total vals nvals n =
    add_up vals (region nvals n).begin ((region nvals n).end - (region nvals n).begin) 0

run_tasks-other :
    (vals : ℕ → ℕ) (nvals n : ℕ) (order : List ℕ) (s : Shared)
    → has n order ≡ false
    → (run_tasks vals nvals order s).totals n ≡ s.totals n
unfolding run_tasks par_func
run_tasks-other vals nvals n [] s o = refl
run_tasks-other vals nvals n (x ∷ order) s o =
    run_tasks-other vals nvals n order _ (ground (arith, o)) ∙ ground (arith, o)

run_tasks-total :
    (vals : ℕ → ℕ) (nvals n : ℕ) (order : List ℕ) (s : Shared)
    → has n order ≡ true
    → (run_tasks vals nvals order s).totals n ≡ total vals nvals n
unfolding run_tasks par_func total
run_tasks-total vals nvals n [] s i = absurd (ground (arith, i))
run_tasks-total vals nvals n (x ∷ order) s i = elim (Bool-cases (has n order)) [
  | inl later ↦ run_tasks-total vals nvals n order _ later
  | inr last ↦
      let this : x ≡ n = ground (arith, i, last) in
      run_tasks-other vals nvals n order _ last ∙ rw this (ground arith)
]

countdown_one :
    (cdl : Latch) (m : ℕ) → cdl.count ≡ pos (m + 1) → (countdownlatch_countdown cdl).0.count ≡ pos m
unfolding countdownlatch_countdown ◌-ℤ◌
countdown_one cdl m e = rw e (ground arith)

run_tasks-count :
    (vals : ℕ → ℕ) (nvals k : ℕ) (order : List ℕ) (s : Shared)
    → s.cdl.count ≡ pos (k + length order)
    → (run_tasks vals nvals order s).cdl.count ≡ pos k
unfolding run_tasks par_func countdownlatch_countdown
run_tasks-count vals nvals k [] s e = e ∙ ap pos (omega arith)
run_tasks-count vals nvals k (x ∷ order) s e =
    run_tasks-count vals nvals k order _
      (countdown_one s.cdl (k + length order) (e ∙ ap pos (omega arith)))

region-total :
    (vals : ℕ → ℕ) (nvals n : ℕ)
    → nvals + 3 < 2 ^ 64
    → total vals nvals n
      ≡ sum vals
          (n * ((nvals + 3) / 4))
          (cut nvals (n * ((nvals + 3) / 4) + (nvals + 3) / 4) - n * ((nvals + 3) / 4))
        % 2 ^ 64
unfolding total region
region-total vals nvals n room =
    let size : (nvals + 3) % 2 ^ 64 / 4 ≡ (nvals + 3) / 4 = omega arith in
    rw size (add_up_zero vals (n * ((nvals + 3) / 4)) _)

add_totals-sum : (t : ℕ → ℕ) → add_totals t ≡ (t 0 + t 1 + t 2 + t 3) % 2 ^ 64
unfolding add_totals add_up
add_totals-sum t = omega arith

-- When all four tasks have ended, in any order, the parallel sum is there and equals the sequential
-- one, wrap-around included; `nvals + 3` must not exceed a `size_t`.
pub par_adder-seq :
    (garbage : ℕ → ℕ) (order : List ℕ) (vals : ℕ → ℕ) (nvals : ℕ)
    → nvals + 3 < 2 ^ 64
    → length order ≡ 4
    → ((n : ℕ) → n < 4 → has n order ≡ true)
    → par_adder garbage order vals nvals ≡ some (seq_adder vals nvals)
unfolding par_adder seq_adder countdownlatch_init countdownlatch_await_test
par_adder-seq garbage order vals nvals room four every =
    let s : Shared = record { cdl = countdownlatch_init (pos 4); totals = garbage } in
    let count = run_tasks-count vals nvals 0 order s (ap pos (omega (arith, four))) in
    let at = λ (n : ℕ) (l : n < 4).
      run_tasks-total vals nvals n order s (every n l) ∙ region-total vals nvals n room in
    rw count (
      ap some (
        add_totals-sum (run_tasks vals nvals order s).totals
        ∙ omega (
          arith,
          at 0 (omega arith),
          at 1 (omega arith),
          at 2 (omega arith),
          at 3 (omega arith),
          four_regions vals nvals ((nvals + 3) / 4) (omega arith),
          add_up_zero vals 0 nvals,
        )))

-- As long as fewer than four tasks have ended, `par_adder` waits.
pub par_adder_waits :
    (garbage : ℕ → ℕ) (order : List ℕ) (vals : ℕ → ℕ) (nvals : ℕ)
    → length order < 4
    → par_adder garbage order vals nvals ≡ none
unfolding par_adder countdownlatch_init countdownlatch_await_test
par_adder_waits garbage order vals nvals few =
    let s : Shared = record { cdl = countdownlatch_init (pos 4); totals = garbage } in
    let count = run_tasks-count vals nvals (4 - length order) order s (ap pos (omega arith)) in
    rw count (ground arith)
