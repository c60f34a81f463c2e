-- ===== src/Adder/Program.antt =====
-- `init_vals`, `test` and `main` of 18-thread-pool/adder.c. Reading `k` of the clock is `clock k`, and
-- round `i` of a test calls `sum_func i`, which is `none` where the call does not return.
pub mod Results
use so_2021v_li42d.Base.{
  ℕ, zero, suc, ◌+◌, ◌*◌, ◌-◌, ◌^◌, Option, none, some, List, [], ◌∷◌, if◌then◌else◌, ltb, ◌==◌,
  update,
}
use so_2021v_li42d.Chrono.{Chrono, chrono_start, chrono_micros}
use so_2021v_li42d.Adder.{seq_adder, par_adder}

abbrev pub niters : ℕ
niters = 50

-- The line that a test prints, or that it goes on to wait, or that its assertion fails.
pub data Outcome : Type 0 where
  gives : (res less_micros : ℕ) → Outcome
  waits : Outcome
  aborts : Outcome

-- The loop of `init_vals` with `n` rounds left.
unfoldable pub init_vals : (i n : ℕ) → (ℕ → ℕ) → ℕ → ℕ
init_vals i zero vals = vals
init_vals i (suc n) vals = init_vals (i + 1) n (update vals i 1)

abbrev pub less_of : (micros less_micros : ℕ) → ℕ
less_of micros less_micros = if ltb micros less_micros then micros else less_micros

-- The assertion on what a call returned, and the rounds after it.
abbrev pub asserted : (expected : ℕ) (res : Option ℕ) (rest : ℕ → Outcome) → Outcome
asserted expected none rest = waits
asserted expected (some res) rest = if expected == res then rest res else aborts

-- The loop of `test` from round `i` on, with `n` rounds left.
unfoldable pub test_loop :
    (clock : ℕ → Chrono) (sum_func : ℕ → Option ℕ) (expected i n res less_micros : ℕ) → Outcome
test_loop clock sum_func expected i zero res less = gives res less
test_loop clock sum_func expected i (suc n) res less =
    let micros = chrono_micros (clock (2 * i + 1)) (chrono_start (clock (2 * i))) in
    asserted expected (sum_func i)
      (λ sum. test_loop clock sum_func expected (i + 1) n sum (less_of micros less))

-- `garbage` is what is in `res` before.
unfoldable pub test :
    (garbage : ℕ) (clock : ℕ → Chrono) (sum_func : ℕ → Option ℕ) (expected : ℕ) → Outcome
test garbage clock sum_func expected =
    test_loop clock sum_func expected 0 niters garbage (2 ^ 64 - 1)

-- `next` runs if the test before it has ended.
abbrev pub then_run : Outcome → List Outcome → List Outcome
then_run (gives res less) next = gives res less ∷ next
then_run waits next = waits ∷ []
then_run aborts next = aborts ∷ []

-- What the tests of `main` come to, on `nvals` elements. In round `i` the fields `total` have the bytes
-- `garbage i` before, and the workers end the tasks in the order `orders i`.
unfoldable pub adder_main :
    (res : ℕ) (clock : ℕ → Chrono) (garbage : ℕ → ℕ → ℕ) (orders : ℕ → List ℕ) (nvals : ℕ)
    → List Outcome
adder_main res clock garbage orders nvals =
    let vals = init_vals 0 nvals (λ i. 0) in
    then_run (test res clock (λ i. some (seq_adder vals nvals)) nvals) (
      then_run
        (test res (λ k. clock (2 * niters + k)) (λ i. par_adder (garbage i) (orders i) vals nvals)
          nvals)
        [])
