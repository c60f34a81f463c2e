-- ===== src/ThreadPool/Shutdown.antt =====
-- The work accepted by the pool is called, and a stopped pool runs dry.
use mathlib.Core.Path.{subst}
use mathlib.Core.List.{append-nil}
use so_2021v_li42d.Base.{
  ℕ, zero, suc, ◌+◌, ◌-◌, ◌≤◌, ◌<◌, false, if◌then◌else◌, ◌≡◌, refl, sym, ap, ◌∙◌, inl, inr,
  Bool-cases, true, List, [], ◌∷◌, ◌++◌, arith, ◌==◌, length, length-append,
}
use so_2021v_li42d.ThreadPool.{
  WorkItem, ThreadPool, Round, waits, ends, calls, thread_pool_worker, thread_pool_stop,
}
use so_2021v_li42d.ThreadPool.System.{System, Reach, later, stop, Inv, pills}
use so_2021v_li42d.ThreadPool.Worker.{Meets, work_left, idle, pill_left, over, meets}
use so_2021v_li42d.ThreadPool.Invariant.{work-Inv, finish-Inv, Reach-Inv, stop-first, stop-again}

-- What a round of a worker leaves.
abbrev pub after_round : System → Round → System
after_round s waits = s
after_round s (ends tp) = record s { pool = tp; workers = s.workers - 1 }
after_round s (calls tp wi) = record s { pool = tp; called = s.called ++ wi ∷ [] }

-- One round of some worker, if there is one that has not ended.
unfoldable pub round : System → System
round s = if s.workers == 0 then s else after_round s (thread_pool_worker s.pool)

unfoldable pub rounds : ℕ → System → System
rounds zero s = s
rounds (suc k) s = rounds k (round s)

worker-waits :
    (tp : ThreadPool) (q : List WorkItem)
    → thread_pool_worker (record tp { work_queue = q }) ≡ waits
    → q ≡ []
unfolding thread_pool_worker
worker-waits tp [] e = refl
worker-waits tp (wi ∷ q) e = ground arith

-- A round that does not wait takes one item off the queue.
abbrev Pops : List WorkItem → Round → Type 0
Pops q waits = q ≡ []
Pops q (ends tp) = length q ≡ suc (length tp.work_queue)
Pops q (calls tp wi) = length q ≡ suc (length tp.work_queue)

worker-Pops :
    (tp : ThreadPool) (q : List WorkItem)
    → Pops q (thread_pool_worker (record tp { work_queue = q }))
unfolding thread_pool_worker
worker-Pops tp [] = refl
worker-Pops tp (wi ∷ q) = elim (Bool-cases (wi.action == tp.death_pill)) [
  | inl e ↦ rw e refl
  | inr e ↦ rw e refl
]

pops : (s : System) (r : Round) → thread_pool_worker s.pool ≡ r → Pops s.pool.work_queue r
pops s r e = subst (Pops s.pool.work_queue) e (worker-Pops s.pool s.pool.work_queue)

-- All that is left to do is done, and all workers have ended.
pub record Over (s t : System) : Type 0 where
  pub workers : t.workers ≡ 0
  pub queue : t.pool.work_queue ≡ []
  pub called : t.called ≡ s.accepted

round-calls :
    (s : System) (tp : ThreadPool) (wi : WorkItem)
    → 0 < s.workers
    → thread_pool_worker s.pool ≡ calls tp wi
    → round s ≡ record s { pool = tp; called = s.called ++ wi ∷ [] }
unfolding round
round-calls s tp wi some_worker e =
    let manned : (s.workers == 0) ≡ false = ground arith in rw (manned, e) refl

round-ends :
    (s : System) (tp : ThreadPool)
    → 0 < s.workers
    → thread_pool_worker s.pool ≡ ends tp
    → round s ≡ record s { pool = tp; workers = s.workers - 1 }
unfolding round
round-ends s tp some_worker e =
    let manned : (s.workers == 0) ≡ false = ground arith in rw (manned, e) refl

Over-back :
    (k : ℕ) (s t u : System)
    → round s ≡ t
    → t.accepted ≡ s.accepted
    → u ≡ rounds k t
    → Over t u
    → Over s (rounds k (round s))
Over-back k s t u e same is o =
    subst (λ z. Over s (rounds k z)) (sym e)
      (subst (Over s) is
        (record { workers = o.workers; queue = o.queue; called = o.called ∙ same }))

still_manned :
    (pill n : ℕ) (s : System) (i : Inv pill n s) (wi : WorkItem) (rest : List WorkItem)
    → 0 < n
    → i.todo ≡ wi ∷ rest
    → 0 < s.workers
still_manned pill n s i wi rest some_threads todo = elim (i.manned) [
  | inl none_left ↦ absurd (cc (none_left, todo))
  | inr all ↦ omega arith
]

drain :
    (k pill n : ℕ) (s : System) (i : Inv pill n s)
    → 0 < n
    → s.pool.stopped ≡ true
    → length s.pool.work_queue ≡ k
    → Meets pill n s i
    → Over s (rounds k s)
unfolding rounds
drain k pill n s i some_threads st len (idle todo open_ run) = absurd (cc (st, open_))
drain zero pill n s i some_threads st len (work_left wi rest todo run) =
    absurd (omega (arith, pops s _ run, len))
drain (suc k) pill n s i some_threads st len (work_left wi rest todo run) =
    let j = work-Inv pill n s i _ wi run (work_left wi rest todo run) in
    Over-back k s _ _ (round-calls s _ wi (still_manned pill n s i wi rest some_threads todo) run)
      refl refl
      (drain k pill n _ j some_threads st (omega (arith, pops s _ run, len)) (meets pill n _ j))
drain zero pill n s i some_threads st len (pill_left m todo _ some_left run) =
    absurd (omega (arith, pops s _ run, len))
drain (suc k) pill n s i some_threads st len (pill_left m todo _ some_left run) =
    let j = finish-Inv pill n s i _ run (pill_left m todo st some_left run) in
    Over-back k s _ _ (round-ends s _ (omega arith) run) refl refl
      (drain k pill n _ j some_threads st (omega (arith, pops s _ run, len)) (meets pill n _ j))
drain zero pill n s i some_threads st len (over todo _ none_left run) = record {
  workers = none_left;
  queue = pops s _ run;
  called = sym (i.order ∙ ap (λ l. s.called ++ l) todo ∙ append-nil s.called);
}
drain (suc k) pill n s i some_threads st len (over todo _ none_left run) =
    absurd (omega (arith, ap length (pops s _ run), len))

-- `thread_pool_cleanup`: stop the pool and join its threads, which run for `k` rounds in all.
unfoldable pub thread_pool_cleanup : ℕ → System → System
thread_pool_cleanup k s = rounds k (record s { pool = thread_pool_stop s.pool })

-- In every reachable state the actions called are the first of the accepted ones, in their order and
-- each once; as long as the pool is not stopped all its workers run, and no worker finds a pill.
pub Reach-called :
    {pill n : ℕ} {s : System}
    → Reach pill n s
    → (todo : List WorkItem) × (s.accepted ≡ s.called ++ todo)
      × (s.pool.stopped ≡ false → (s.workers ≡ n) × (s.pool.work_queue ≡ todo))
Reach-called {n} {s} r =
    let i = Reach-Inv r in
    (
      i.todo,
      i.order,
      λ open_. elim (i.ending) [
        | inl (_, none_left, all) ↦
            (all, i.queue ∙ ap (λ l. i.todo ++ l) none_left ∙ append-nil i.todo)
        | inr (st, _) ↦ absurd (cc (open_, st))
      ],
    )

length-pills : (pill k : ℕ) → length (pills pill k) ≡ k
unfolding pills
length-pills pill zero = refl
length-pills pill (suc k) = ap suc (length-pills pill k)

-- A stopped pool has at most one pill for each thread behind the work that it had.
after_stop :
    (tp : ThreadPool)
    → ((thread_pool_stop tp).stopped ≡ true)
      × (length (thread_pool_stop tp).work_queue ≤ length tp.work_queue + tp.nthreads)
after_stop tp = elim (Bool-cases tp.stopped) [
  | inl st ↦ let e = stop-again tp st in ground (arith, st, e)
  | inr st ↦
      let e = stop-first tp st in
      (
        ap (λ z. z.stopped) e,
        omega (
          arith,
          ap (λ z. length z.work_queue) e,
          length-append tp.work_queue (pills tp.death_pill tp.nthreads),
          length-pills tp.death_pill tp.nthreads,
        ),
      )
]

-- With at least one thread, `thread_pool_cleanup` in any reachable state ends: after as many rounds of
-- its workers as there are work items and death pills no worker is left, the queue is empty, and all
-- accepted work has been called.
pub thread_pool_cleanup-Over :
    {pill n : ℕ} {s : System}
    → 0 < n
    → Reach pill n s
    → (k : ℕ) × Over s (thread_pool_cleanup k s) × (k ≤ length s.pool.work_queue + n)
unfolding thread_pool_cleanup
thread_pool_cleanup-Over {pill} {n} {s} some_threads r =
    let t = record s { pool = thread_pool_stop s.pool } in
    let i = Reach-Inv (later r stop) in
    let after = after_stop s.pool in
    let k = length t.pool.work_queue in
    let o = drain k pill n t i some_threads after.0 refl (meets pill n t i) in
    (
      k,
      record { workers = o.workers; queue = o.queue; called = o.called },
      omega (arith, after.1, (Reach-Inv r).size),
    )
