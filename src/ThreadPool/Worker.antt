-- ===== src/ThreadPool/Worker.antt =====
-- What a worker of the pool finds when it goes to the work queue.
use so_2021v_li42d.Base.{
  ℕ, zero, suc, ◌≡◌, ◌≢◌, refl, sym, ap, ◌∙◌, inl, inr, true, false, List, [], ◌∷◌, ◌++◌, arith,
  ◌==◌,
}
use so_2021v_li42d.ThreadPool.{WorkItem, ThreadPool, waits, ends, calls, thread_pool_worker}
use so_2021v_li42d.ThreadPool.System.{System, Inv, pills}

-- What a worker meets: work of a client, an empty queue, or a pill.
calls-todo :
    (tp : ThreadPool) (wi : WorkItem) (rest left : List WorkItem)
    → tp.work_queue ≡ (wi ∷ rest) ++ left
    → wi.action ≢ tp.death_pill
    → thread_pool_worker tp ≡ calls (record tp { work_queue = rest ++ left }) wi
unfolding thread_pool_worker
calls-todo tp wi rest left q ne =
    let other : (wi.action == tp.death_pill) ≡ false = ground arith in rw (q, other)

waits-nil : (tp : ThreadPool) → tp.work_queue ≡ [] → thread_pool_worker tp ≡ waits
unfolding thread_pool_worker
waits-nil tp q = rw q

ends-pill :
    (tp : ThreadPool) (rest : List WorkItem)
    → tp.work_queue ≡ record { action = tp.death_pill; arg = 0 } ∷ rest
    → thread_pool_worker tp ≡ ends (record tp { work_queue = rest })
unfolding thread_pool_worker
ends-pill tp rest q =
    let same : (tp.death_pill == tp.death_pill) ≡ true = ground arith in rw (q, same)

-- The same, read off the invariant.
pub data Meets (pill n : ℕ) (s : System) (i : Inv pill n s) : Type 0 where
  work_left :
      (wi : WorkItem) (rest : List WorkItem)
      → i.todo ≡ wi ∷ rest
      → thread_pool_worker s.pool ≡ calls (record s.pool { work_queue = rest ++ i.left }) wi
      → Meets pill n s i
  idle : i.todo ≡ [] → s.pool.stopped ≡ false → thread_pool_worker s.pool ≡ waits → Meets pill n s i
  pill_left :
      (k : ℕ)
      → i.todo ≡ []
      → s.pool.stopped ≡ true
      → s.workers ≡ suc k
      → thread_pool_worker s.pool ≡ ends (record s.pool { work_queue = pills pill k })
      → Meets pill n s i
  over :
      i.todo ≡ []
      → s.pool.stopped ≡ true
      → s.workers ≡ 0
      → thread_pool_worker s.pool ≡ waits
      → Meets pill n s i

module _ (pill n : ℕ) (s : System) (i : Inv pill n s) where
  ended :
      (k : ℕ)
      → s.workers ≡ k
      → i.todo ≡ []
      → s.pool.stopped ≡ true
      → i.left ≡ pills pill s.workers
      → Meets pill n s i
  unfolding pills
  ended zero e none_left st l =
      let q : s.pool.work_queue ≡ [] =
        i.queue ∙ ap (λ x. x ++ i.left) none_left ∙ l ∙ ap (pills pill) e in
      over none_left st e (waits-nil s.pool q)
  ended (suc k) e none_left st l =
      let q : s.pool.work_queue ≡ record { action = s.pool.death_pill; arg = 0 } ∷ pills pill k =
        i.queue
        ∙ ap (λ x. x ++ i.left) none_left
        ∙ l
        ∙ ap (pills pill) e
        ∙ ap (λ p. record { action = p; arg = 0 } ∷ pills pill k) (sym i.pill_is) in
      pill_left k none_left st e (ends-pill s.pool (pills pill k) q)

  Meets-by : (todo : List WorkItem) → i.todo ≡ todo → Meets pill n s i
  Meets-by (wi ∷ rest) e =
      let t = rw e at (i.tasks) in
      work_left wi rest e (
        calls-todo s.pool wi rest i.left (i.queue ∙ ap (λ x. x ++ i.left) e)
          (λ same. t.0 (same ∙ i.pill_is)))
  Meets-by [] e = elim (i.ending) [
    | inl (open_, none_left, all) ↦
        idle e open_ (waits-nil s.pool (i.queue ∙ ap (λ x. x ++ i.left) e ∙ none_left))
    | inr (st, l) ↦ ended s.workers refl e st l
  ]

  pub meets : Meets pill n s i
  meets = Meets-by i.todo refl
