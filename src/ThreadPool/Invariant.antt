-- ===== src/ThreadPool/Invariant.antt =====
-- Every step of the clients and the workers keeps the invariant of the pool.
use mathlib.Core.Path.{subst, ap₂}
use mathlib.Core.List.{append_assoc, append-nil}
use so_2021v_li42d.Base.{
  ℕ, ◌-◌, ◌≡◌, ◌≢◌, refl, sym, ap, ◌∙◌, inl, inr, Bool, Bool-cases, true, false, [], ◌∷◌, ◌++◌,
  arith, if◌then◌else◌,
}
use so_2021v_li42d.ThreadPool.{
  WorkItem, ThreadPool, ends, calls, thread_pool_worker, thread_pool_init,
  thread_pool_internal_submit, thread_pool_submit, thread_pool_stop,
}
use so_2021v_li42d.ThreadPool.System.{
  System, Step, submit, stop, work, finish, Reach, started, later, Inv, pills, submit_pills-pills,
  Tasks-snoc,
}
use so_2021v_li42d.ThreadPool.Worker.{Meets, work_left, idle, pill_left, over, meets}

-- The invariant after a step of a worker, by what the worker met.
pub work-Inv :
    (pill n : ℕ) (s : System) (i : Inv pill n s) (tp : ThreadPool) (wi : WorkItem)
    → thread_pool_worker s.pool ≡ calls tp wi
    → Meets pill n s i
    → Inv pill n (record s { pool = tp; called = s.called ++ wi ∷ [] })
work-Inv pill n s i tp wi e (work_left x rest todo run) =
    let one : x ≡ wi = cc (e, run) in
    let two : record s.pool { work_queue = rest ++ i.left } ≡ tp = cc (e, run) in
    subst (λ z. Inv pill n (record s { pool = z; called = s.called ++ wi ∷ [] })) two
      (record {
        todo = rest;
        left = i.left;
        pill_is = i.pill_is;
        size = i.size;
        queue = refl;
        tasks = (rw todo at (i.tasks)).1;
        order =
            i.order
            ∙ ap (λ l. s.called ++ l) todo
            ∙ ap (λ z. s.called ++ z ∷ rest) one
            ∙ sym (append_assoc s.called (wi ∷ []) rest);
        manned = elim (i.manned) [
          | inl none_left ↦ absurd (cc (none_left, todo))
          | inr all ↦ inr all
        ];
        ending = i.ending;
      })
work-Inv pill n s i tp wi e (idle todo st run) = absurd (cc (e, run))
work-Inv pill n s i tp wi e (pill_left k todo st some_left run) = absurd (cc (e, run))
work-Inv pill n s i tp wi e (over todo st none_left run) = absurd (cc (e, run))

pub finish-Inv :
    (pill n : ℕ) (s : System) (i : Inv pill n s) (tp : ThreadPool)
    → thread_pool_worker s.pool ≡ ends tp
    → Meets pill n s i
    → Inv pill n (record s { pool = tp; workers = s.workers - 1 })
finish-Inv pill n s i tp e (work_left x rest todo run) = absurd (cc (e, run))
finish-Inv pill n s i tp e (idle todo st run) = absurd (cc (e, run))
finish-Inv pill n s i tp e (pill_left k todo st some_left run) =
    let two : record s.pool { work_queue = pills pill k } ≡ tp = cc (e, run) in
    subst (λ z. Inv pill n (record s { pool = z; workers = s.workers - 1 })) two
      (record {
        todo = [];
        left = pills pill k;
        pill_is = i.pill_is;
        size = i.size;
        queue = refl;
        tasks = tt;
        order = i.order ∙ ap (λ l. s.called ++ l) todo;
        manned = inl refl;
        ending = inr (st, ap (pills pill) (omega (arith, some_left)));
      })
finish-Inv pill n s i tp e (over todo st none_left run) = absurd (cc (e, run))

submit-Inv :
    (pill n : ℕ) (s : System) (i : Inv pill n s) (action arg : ℕ)
    → action ≢ s.pool.death_pill
    → s.pool.stopped ≡ false
    → Inv pill n (record s {
      pool = thread_pool_internal_submit s.pool action arg;
      accepted = s.accepted ++ record { action = action; arg = arg } ∷ [];
    })
unfolding thread_pool_internal_submit
submit-Inv pill n s i action arg ne st = elim (i.ending) [
  | inl (_, none_left, all) ↦ record {
    todo = i.todo ++ record { action = action; arg = arg } ∷ [];
    left = [];
    pill_is = i.pill_is;
    size = i.size;
    queue =
        ap (λ l. l ++ record { action = action; arg = arg } ∷ [])
          (i.queue ∙ ap (λ l. i.todo ++ l) none_left ∙ append-nil i.todo)
        ∙ sym (append-nil _);
    tasks = Tasks-snoc pill i.todo _ i.tasks (λ e. ne (e ∙ sym i.pill_is));
    order =
        ap (λ l. l ++ record { action = action; arg = arg } ∷ []) i.order
        ∙ append_assoc s.called i.todo _;
    manned = inr all;
    ending = inl (st, refl, all);
  }
  | inr (st', l) ↦ absurd (cc (st, st'))
]

pub stop-first :
    (tp : ThreadPool)
    → tp.stopped ≡ false
    → thread_pool_stop tp
      ≡ record tp { stopped = true; work_queue = tp.work_queue ++ pills tp.death_pill tp.nthreads }
unfolding thread_pool_stop
stop-first tp st = ground (arith, submit_pills-pills tp.nthreads (record tp { stopped = true }))

pub stop-again : (tp : ThreadPool) → tp.stopped ≡ true → thread_pool_stop tp ≡ tp
unfolding thread_pool_stop
stop-again tp st = ground arith

stop-Inv :
    (pill n : ℕ) (s : System) (i : Inv pill n s)
    → Inv pill n (record s { pool = thread_pool_stop s.pool })
stop-Inv pill n s i = elim (i.ending) [
  | inl (st, none_left, all) ↦ rw (stop-first s.pool st) (record {
    todo = i.todo;
    left = pills pill s.workers;
    pill_is = i.pill_is;
    size = i.size;
    queue =
        ap₂ ◌++◌ (i.queue ∙ ap (λ l. i.todo ++ l) none_left ∙ append-nil i.todo)
          (ap₂ pills i.pill_is (i.size ∙ sym all));
    tasks = i.tasks;
    order = i.order;
    manned = i.manned;
    ending = inr (refl, refl);
  })
  | inr (st, l) ↦ subst (λ z. Inv pill n (record s { pool = z })) (sym (stop-again s.pool st)) i
]

submitted-Inv :
    (pill n : ℕ) (s : System) (i : Inv pill n s) (action arg : ℕ) (tp : ThreadPool) (done : Bool)
    → action ≢ s.pool.death_pill
    → thread_pool_submit s.pool action arg ≡ (tp, done)
    → Inv pill n (record s {
      pool = tp;
      accepted =
          if done then s.accepted ++ record { action = action; arg = arg } ∷ [] else s.accepted;
    })
unfolding thread_pool_submit
submitted-Inv pill n s i action arg tp done ne e = elim (Bool-cases s.pool.stopped) [
  | inl st ↦
      let one : tp ≡ s.pool = ground (arith, e, st) in
      let two : done ≡ false = ground (arith, e, st) in rw (one, two) i
  | inr st ↦
      let one : tp ≡ thread_pool_internal_submit s.pool action arg = ground (arith, e, st) in
      let two : done ≡ true = ground (arith, e, st) in
      rw (one, two) (submit-Inv pill n s i action arg ne st)
]

Step-Inv : {s t : System} (pill n : ℕ) → Step s t → Inv pill n s → Inv pill n t
Step-Inv {s} pill n (submit action arg {tp} {done} ne e) i =
    submitted-Inv pill n s i action arg tp done ne e
Step-Inv {s} pill n stop i = stop-Inv pill n s i
Step-Inv {s} pill n (work {tp} {wi} some_worker e) i =
    work-Inv pill n s i tp wi e (meets pill n s i)
Step-Inv {s} pill n (finish {tp} some_worker e) i = finish-Inv pill n s i tp e (meets pill n s i)

pub Reach-Inv : {pill n : ℕ} {s : System} → Reach pill n s → Inv pill n s
unfolding thread_pool_init
Reach-Inv started = record {
  todo = [];
  left = [];
  pill_is = refl;
  size = refl;
  queue = refl;
  tasks = tt;
  order = refl;
  manned = inr refl;
  ending = inl (refl, refl, refl);
}
Reach-Inv {pill} {n} (later r st) = Step-Inv pill n st (Reach-Inv r)
