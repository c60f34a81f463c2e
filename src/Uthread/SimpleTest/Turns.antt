-- ===== src/Uthread/SimpleTest/Turns.antt =====
-- The turns of the threads of simpletest.c: what they print, and what is left of their rounds.
use so_2021v_li42d.Base.{
  ℕ, zero, suc, ◌+◌, ◌%◌, ◌^◌, ◌<◌, ◌≤◌, ◌≡◌, refl, ap, true, false, Option, none, some, List, [],
  ◌∷◌, ◌++◌, if◌then◌else◌, ◌==◌, update, update_self, length, length-append, count, count-append,
  has-append, has, Bool-cases, inl, inr, arith,
}
use so_2021v_li42d.Uthread.{
  State, entry_of, ut_yield, ut_exit, context_switch, schedule, internal_exit, internal_cleanup,
  extract_next_thread,
}
use so_2021v_li42d.Uthread.Refine.{Refines, entries, sched, ut_yield-Refines, ut_exit-Refines}
use so_2021v_li42d.Uthread.Spec.{Sched, dispatch, activate, yield, exit}
use so_2021v_li42d.Uthread.SimpleTest.{Test, Stretch, stretch, stretched, turn, turns}

abbrev pub char_of : State → ℕ → ℕ
char_of m t = m.argument t % 2 ^ 8

-- How many characters `d` a thread with the character `c` and `left` rounds has yet to print.
abbrev pub due : (c d left : ℕ) → ℕ
due c d left = if c == d then left else 0

abbrev pub due_rest : (c d : ℕ) → Option ℕ → ℕ
due_rest c d none = 0
due_rest c d (some left) = due c d left

abbrev pub printed : ℕ → List ℕ → ℕ
printed d output = count (λ c. c == d) output

abbrev pub Shorter : Option ℕ → ℕ → Type 0
Shorter none left = Unit
Shorter (some l) left = l < left

Shorter-suc : (rest : Option ℕ) (left : ℕ) → Shorter rest left → Shorter rest (suc left)
Shorter-suc none left h = tt
Shorter-suc (some l) left h = omega arith

stretch_lem :
    (rand : ℕ → ℕ) (c d left rands : ℕ) (output : List ℕ)
    → let r = stretch rand c left rands output in
      (printed d r.output + due_rest c d r.left ≡ printed d output + due c d left)
      × Shorter r.left left
unfolding stretch
stretch_lem rand c d zero rands output = (ground arith, tt)
stretch_lem rand c d (suc left) rands output =
    let ih = stretch_lem rand c d left (rands + 1) (output ++ c ∷ []) in
    let more = count-append (λ x. x == d) output (c ∷ []) in
    elim (Bool-cases (rand rands % 4 == 0)) [
      | inl e ↦ rw e (ground (arith, more), omega arith)
      | inr e ↦
          let r = stretch rand c left (rands + 1) (output ++ c ∷ []) in
          rw e (ground (arith, ih.0, more), Shorter-suc r.left left ih.1)
    ]

-- The characters `d` that the threads `ts` have yet to print, and how many turns they may still take.
abbrev pub owed : (argument left : ℕ → ℕ) (d : ℕ) → List ℕ → ℕ
owed argument left d [] = 0
owed argument left d (t ∷ ts) = due (argument t % 2 ^ 8) d (left t) + owed argument left d ts

abbrev pub turns_left : (left : ℕ → ℕ) → List ℕ → ℕ
turns_left left [] = 0
turns_left left (t ∷ ts) = suc (left t) + turns_left left ts

pub owed-append :
    (argument left : ℕ → ℕ) (d r : ℕ) (ts : List ℕ)
    → owed argument left d (ts ++ r ∷ [])
      ≡ owed argument left d ts + due (argument r % 2 ^ 8) d (left r)
owed-append argument left d r [] = omega arith
owed-append argument left d r (t ∷ ts) = omega (arith, owed-append argument left d r ts)

turns_left-append :
    (left : ℕ → ℕ) (r : ℕ) (ts : List ℕ)
    → turns_left left (ts ++ r ∷ []) ≡ turns_left left ts + suc (left r)
turns_left-append left r [] = omega arith
turns_left-append left r (t ∷ ts) = omega (arith, turns_left-append left r ts)

owed-update :
    (argument left : ℕ → ℕ) (d r l : ℕ) (ts : List ℕ)
    → has (entry_of r) (entries ts) ≡ false
    → owed argument (update left r l) d ts ≡ owed argument left d ts
owed-update argument left d r l [] e = refl
owed-update argument left d r l (t ∷ ts) e = ground (arith, owed-update argument left d r l ts)

turns_left-update :
    (left : ℕ → ℕ) (r l : ℕ) (ts : List ℕ)
    → has (entry_of r) (entries ts) ≡ false
    → turns_left (update left r l) ts ≡ turns_left left ts
turns_left-update left r l [] e = refl
turns_left-update left r l (t ∷ ts) e = ground (arith, turns_left-update left r l ts)

due-update :
    (argument left : ℕ → ℕ) (d r l : ℕ)
    → due (argument r % 2 ^ 8) d (update left r l r) ≡ due (argument r % 2 ^ 8) d l
due-update argument left d r l = ap (due (argument r % 2 ^ 8) d) (update_self left r l)

-- The abstract scheduler with the threads `live`, of which the first one runs.
abbrev pub sched_of : (main : ℕ) → List ℕ → Sched
sched_of main [] = sched main main [] 0
sched_of main (r ∷ ts) = sched r main ts (suc (length ts))

yield_live :
    (main r : ℕ) (ts : List ℕ) → yield (sched_of main (r ∷ ts)) ≡ sched_of main (ts ++ r ∷ [])
unfolding yield dispatch activate
yield_live main r [] = refl
yield_live main r (u ∷ us) =
    ap (sched u main (us ++ r ∷ [])) (omega (arith, length-append us (r ∷ [])))

exit_live : (main r : ℕ) (ts : List ℕ) → exit (sched_of main (r ∷ ts)) ≡ sched_of main ts
unfolding exit dispatch
exit_live main r [] = ap (sched main main []) (omega arith)
exit_live main r (u ∷ us) = ap (sched u main us) (omega arith)

ut_yield-argument : (ret_addr : ℕ) (m : State) → (ut_yield ret_addr m).argument ≡ m.argument
unfolding ut_yield schedule context_switch extract_next_thread
ut_yield-argument ret_addr m = ground arith

ut_exit-argument : (m : State) → (ut_exit m).argument ≡ m.argument
unfolding ut_exit internal_exit internal_cleanup extract_next_thread
ut_exit-argument m = ground arith

-- The state of the test while the threads `live` are left, of `n` threads in all: what is printed and
-- what the threads have yet to print is `total`.
pub record Runs (main n : ℕ) (total : ℕ → ℕ) (live : List ℕ) (t : Test) : Type 0 where
  pub refines : Refines t.kernel (sched_of main live)
  pub apart : has main live ≡ false
  pub shown : (d : ℕ) → printed d t.output + owed t.kernel.argument t.left d live ≡ total d
  pub counted : t.test1_count + length live ≡ n

module _ (rand : ℕ → ℕ) (ret_addr main n : ℕ) (total : ℕ → ℕ) (small : n < 2 ^ 32) where
  stretched-Runs :
      (r : ℕ) (ts : List ℕ) (t : Test) (s : Stretch) (rest : Option ℕ)
      → Runs main n total (r ∷ ts) t
      → t.kernel.running_thread ≡ r
      → ((d : ℕ)
          → printed d s.output + due_rest (char_of t.kernel r) d rest
            ≡ printed d t.output + due (char_of t.kernel r) d (t.left r))
      → Shorter rest (t.left r)
      → (live : List ℕ) × Runs main n total live (stretched rand ret_addr s rest t)
        × (turns_left (stretched rand ret_addr s rest t).left live < turns_left t.left (r ∷ ts))
  stretched-Runs r ts t s (some l) h e shown short =
      let free : has (entry_of r) (entries ts) ≡ false =
        ground (arith, h.refines.running_unqueued) in
      let same = ut_yield-argument ret_addr t.kernel in
      (
        ts ++ r ∷ [],
        record {
          refines =
              rw (← yield_live main r ts)
                (ut_yield-Refines t.kernel _ ret_addr h.refines (ground (arith, h.apart)));
          apart = ground (arith, h.apart, has-append main ts (r ∷ []));
          shown = λ d.
              simp (same, e)
                (omega (
                  arith,
                  h.shown d,
                  shown d,
                  owed-append t.kernel.argument (update t.left r l) d r ts,
                  owed-update t.kernel.argument t.left d r l ts free,
                  due-update t.kernel.argument t.left d r l,
                ));
          counted = omega (arith, h.counted, length-append ts (r ∷ []));
        },
        rw e (
            omega (
              arith,
              short,
              turns_left-append (update t.left r l) r ts,
              turns_left-update t.left r l ts free,
              update_self t.left r l,
            )),
      )
  stretched-Runs r ts t s none h e shown short =
      let free : has (entry_of r) (entries ts) ≡ false =
        ground (arith, h.refines.running_unqueued) in
      let same = ut_exit-argument t.kernel in
      (
        ts,
        record {
          refines =
              rw (← exit_live main r ts)
                (ut_exit-Refines t.kernel _ h.refines (omega arith) (omega (arith, h.counted)));
          apart = ground (arith, h.apart);
          shown = λ d.
              simp (same, e)
                (omega
                  (arith, h.shown d, shown d, owed-update t.kernel.argument t.left d r 0 ts free));
          counted = omega (arith, h.counted);
        },
        rw e (omega (arith, turns_left-update t.left r 0 ts free)),
      )

  turn-Runs :
      (r : ℕ) (ts : List ℕ) (t : Test)
      → Runs main n total (r ∷ ts) t
      → (live : List ℕ) × Runs main n total live (turn rand ret_addr t)
        × (turns_left (turn rand ret_addr t).left live < turns_left t.left (r ∷ ts))
  unfolding turn
  turn-Runs r ts t h =
      let e : t.kernel.running_thread ≡ r = h.refines.running in
      let left = t.left t.kernel.running_thread in
      let s = stretch rand (char_of t.kernel t.kernel.running_thread) left t.rands t.output in
      let law = λ (d : ℕ).
        stretch_lem rand (char_of t.kernel t.kernel.running_thread) d left t.rands t.output in
      stretched-Runs r ts t s s.left h e (λ d. rw (← e) (law d).0) (rw (← e) (law 0).1)

  -- With as much fuel as there may be turns, all threads end.
  pub turns-Runs :
      (fuel : ℕ) (live : List ℕ) (t : Test)
      → Runs main n total live t
      → turns_left t.left live ≤ fuel
      → Runs main n total [] (turns rand ret_addr fuel t)
  unfolding turns
  turns-Runs zero [] t h enough = h
  turns-Runs (suc fuel) [] t h enough =
      let done : (t.kernel.running_thread == t.kernel.main_thread) ≡ true =
        ground (arith, h.refines.running, h.refines.main) in
      rw done h
  turns-Runs zero (r ∷ ts) t h enough = absurd (omega arith)
  turns-Runs (suc fuel) (r ∷ ts) t h enough =
      let going : (t.kernel.running_thread == t.kernel.main_thread) ≡ false =
        ground (arith, h.refines.running, h.refines.main, h.apart) in
      let (live, h', less) = turn-Runs r ts t h in
      rw going (turns-Runs fuel live (turn rand ret_addr t) h' (omega arith))
