-- ===== src/Uthread/Rotate.antt =====
-- Round robin: threads that only call `ut_yield` run in turn.
use mathlib.Core.Path.{subst}
use mathlib.Core.List.{append_assoc}
use so_2021v_li42d.Base.{
  ℕ, zero, suc, ◌≡◌, refl, ◌≢◌, ◌∙◌, List, [], ◌∷◌, ◌++◌, arith, length, ap, sym,
}
use so_2021v_li42d.Uthread.{State, ut_yield}
use so_2021v_li42d.Uthread.Spec.{Sched, dispatch, activate, yield}
use so_2021v_li42d.Uthread.Refine.{Refines, sched, ut_yield-Refines}

-- One call of `ut_yield` after the other, each by the thread that then runs, with the return
-- addresses of the calls.
unfoldable pub yields : List ℕ → State → State
yields [] m = m
yields (ret_addr ∷ rets) m = yields rets (ut_yield ret_addr m)

spec_yields : ℕ → Sched → Sched
spec_yields zero s = s
spec_yields (suc n) s = spec_yields n (yield s)

-- A ready thread is not the main thread.
yield-ne-main :
    (m : State) (running main count : ℕ) (ts : List ℕ)
    → Refines m (sched running main ts count)
    → running ≢ main
    → (yield (sched running main ts count)).running ≢ (yield (sched running main ts count)).main
unfolding yield dispatch activate
yield-ne-main m running main count [] r ne = ne
yield-ne-main m running main count (t ∷ ts) r ne = ground (arith, r.main_unqueued)

yields-Refines :
    (rets : List ℕ) (m : State) (s : Sched)
    → Refines m s
    → s.running ≢ s.main
    → Refines (yields rets m) (spec_yields (length rets) s)
unfolding yields spec_yields
yields-Refines [] m s r ne = r
yields-Refines (ret_addr ∷ rets) m s r ne =
    yields-Refines rets (ut_yield ret_addr m) (yield s) (ut_yield-Refines m s ret_addr r ne)
      (yield-ne-main m s.running s.main s.count s.ready r ne)

spec_turn :
    (running main count t : ℕ) (us ys : List ℕ)
    → spec_yields (suc (length us)) (sched running main (us ++ t ∷ ys) count)
      ≡ sched t main (ys ++ running ∷ us) count
unfolding spec_yields yield dispatch activate
spec_turn running main count t [] ys = refl
spec_turn running main count t (u ∷ us) ys =
    ap (λ l. spec_yields (suc (length us)) (sched u main l count))
      (append_assoc us (t ∷ ys) (running ∷ []))
    ∙ spec_turn u main count t us (ys ++ running ∷ [])
    ∙ ap (λ l. sched t main l count) (append_assoc ys (running ∷ []) (u ∷ us))

-- A thread with `us` in front of it in the ready queue runs after as many yields and one more; those
-- that ran before stand behind those that were behind it, in the order in which they ran.
pub yields_turn :
    (m : State) (s : Sched) (t : ℕ) (us ys rets : List ℕ)
    → Refines m s
    → s.running ≢ s.main
    → s.ready ≡ us ++ t ∷ ys
    → length rets ≡ suc (length us)
    → Refines
        (yields rets m)
        (record { running = t; main = s.main; ready = ys ++ s.running ∷ us; count = s.count })
yields_turn m s t us ys rets r ne ready long =
    let e : spec_yields (length rets) s ≡ sched t s.main (ys ++ s.running ∷ us) s.count = rw long (
      subst
        (λ l.
          spec_yields (suc (length us)) (sched s.running s.main l s.count)
          ≡ sched t s.main (ys ++ s.running ∷ us) s.count)
        (sym ready) (spec_turn s.running s.main s.count t us ys)) in
    rw e at (yields-Refines rets m s r ne)
