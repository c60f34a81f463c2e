-- ===== src/Adder/Program/Results.antt =====
-- What the program of 18-thread-pool/adder.c prints.
use so_2021v_li42d.Base.{
  ℕ, zero, suc, ◌+◌, ◌*◌, ◌-◌, ◌^◌, min, ◌≤◌, ◌<◌, ◌≡◌, ◌⊎◌, inl, inr, refl, ap, ◌∙◌, true, Option,
  some, List, [], ◌∷◌, ==_iff, update, length, has, arith,
}
use so_2021v_li42d.Chrono.{Chrono, chrono_start, chrono_micros}
use so_2021v_li42d.Adder.{seq_adder, par_adder}
use so_2021v_li42d.Adder.Partition.{sum, add_up_zero}
use so_2021v_li42d.Adder.Parallel.{par_adder-seq}
use so_2021v_li42d.Adder.Program.{
  niters, Outcome, gives, init_vals, less_of, asserted, test_loop, test, then_run, adder_main,
}

-- The least time of `n` rounds from round `i` on, and of `less`.
abbrev pub least_micros : (clock : ℕ → Chrono) (i n less : ℕ) → ℕ
least_micros clock i zero less = less
least_micros clock i (suc n) less =
    least_micros clock (i + 1) n
      (min (chrono_micros (clock (2 * i + 1)) (chrono_start (clock (2 * i)))) less)

init_vals-before : (i n j : ℕ) (vals : ℕ → ℕ) → j < i → init_vals i n vals j ≡ vals j
unfolding init_vals
init_vals-before i zero j vals l = refl
init_vals-before i (suc n) j vals l =
    init_vals-before (i + 1) n j (update vals i 1) (omega (arith, l)) ∙ ground arith

le-cases : (i j : ℕ) → i ≤ j → (i ≡ j) ⊎ (i < j)
le-cases i j le = omega arith

init_vals-ones : (i n j : ℕ) (vals : ℕ → ℕ) → i ≤ j → j < i + n → init_vals i n vals j ≡ 1
unfolding init_vals
init_vals-ones i zero j vals le l = absurd (omega arith)
init_vals-ones i (suc n) j vals le l = elim (le-cases i j le) [
  | inl here ↦
      init_vals-before (i + 1) n j (update vals i 1) (omega (arith, here)) ∙ ground (arith, here)
  | inr after ↦ init_vals-ones (i + 1) n j (update vals i 1) (omega arith) (omega arith)
]

sum-ones : (vals : ℕ → ℕ) (i n : ℕ) → ((j : ℕ) → i ≤ j → j < i + n → vals j ≡ 1) → sum vals i n ≡ n
sum-ones vals i zero ones = refl
sum-ones vals i (suc n) ones =
    let rest = sum-ones vals (i + 1) n (λ j le l. ones j (omega arith) (omega arith)) in
    omega (arith, rest, ones i (omega arith) (omega arith))

seq_adder-init_vals :
    (nvals : ℕ) → nvals < 2 ^ 64 → seq_adder (init_vals 0 nvals (λ i. 0)) nvals ≡ nvals
unfolding seq_adder
seq_adder-init_vals nvals fits =
    let vals = init_vals 0 nvals (λ i. 0) in
    let all = sum-ones vals 0 nvals (λ j le l. init_vals-ones 0 nvals j (λ i. 0) le l) in
    omega (arith, add_up_zero vals 0 nvals, all)

asserted-some :
    (expected : ℕ) (res : Option ℕ) (rest : ℕ → Outcome)
    → res ≡ some expected
    → asserted expected res rest ≡ rest expected
asserted-some expected res rest e = rw (e, (==_iff expected expected).1 refl) refl

less_of-min : (a b : ℕ) → less_of a b ≡ min a b
less_of-min a b = ground arith

-- A function that always returns what is expected passes.
test_loop-gives :
    (clock : ℕ → Chrono) (sum_func : ℕ → Option ℕ) (expected i n less : ℕ)
    → ((k : ℕ) → sum_func k ≡ some expected)
    → test_loop clock sum_func expected i n expected less
      ≡ gives expected (least_micros clock i n less)
unfolding test_loop
test_loop-gives clock sum_func expected i zero less returns = refl
test_loop-gives clock sum_func expected i (suc n) less returns =
    let micros = chrono_micros (clock (2 * i + 1)) (chrono_start (clock (2 * i))) in
    asserted-some expected (sum_func i) _ (returns i)
    ∙ test_loop-gives clock sum_func expected (i + 1) n (less_of micros less) returns
    ∙ ap (λ x. gives expected (least_micros clock (i + 1) n x)) (less_of-min micros less)

test-gives :
    (garbage : ℕ) (clock : ℕ → Chrono) (sum_func : ℕ → Option ℕ) (expected : ℕ)
    → ((k : ℕ) → sum_func k ≡ some expected)
    → test garbage clock sum_func expected
      ≡ gives expected (least_micros clock 0 niters (2 ^ 64 - 1))
unfolding test test_loop
test-gives garbage clock sum_func expected returns =
    let micros = chrono_micros (clock 1) (chrono_start (clock 0)) in
    asserted-some expected (sum_func 0) _ (returns 0)
    ∙ test_loop-gives clock sum_func expected 1 49 (less_of micros (2 ^ 64 - 1)) returns
    ∙ ap (λ x. gives expected (least_micros clock 1 49 x)) (less_of-min micros (2 ^ 64 - 1))

-- Whatever the clock shows, and in whatever order the workers end the four tasks of each round, both
-- tests of `main` pass all their assertions and print the number of the elements and the least time of
-- their rounds.
pub adder_main-gives :
    (res : ℕ) (clock : ℕ → Chrono) (garbage : ℕ → ℕ → ℕ) (orders : ℕ → List ℕ) (nvals : ℕ)
    → nvals + 3 < 2 ^ 64
    → ((i : ℕ) → length (orders i) ≡ 4)
    → ((i n : ℕ) → n < 4 → has n (orders i) ≡ true)
    → adder_main res clock garbage orders nvals
      ≡ gives nvals (least_micros clock 0 niters (2 ^ 64 - 1))
        ∷ gives nvals (least_micros (λ k. clock (2 * niters + k)) 0 niters (2 ^ 64 - 1))
        ∷ []
unfolding adder_main
adder_main-gives res clock garbage orders nvals room four every =
    let vals = init_vals 0 nvals (λ i. 0) in
    let seq = seq_adder-init_vals nvals (omega arith) in
    let first : Outcome = gives nvals (least_micros clock 0 niters (2 ^ 64 - 1)) in
    let next = λ (k : ℕ). clock (2 * niters + k) in
    let par = λ (i : ℕ). par_adder (garbage i) (orders i) vals nvals in
    let returns = λ (k : ℕ).
      par_adder-seq (garbage k) (orders k) vals nvals room (four k) (every k) ∙ ap some seq in
    ap (λ x. then_run x (then_run (test res next par nvals) []))
      (test-gives res clock (λ i. some (seq_adder vals nvals)) nvals (λ k. ap some seq))
    ∙ ap (λ x. then_run first (then_run x [])) (test-gives res next par nvals returns)
