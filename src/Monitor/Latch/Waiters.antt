-- ===== src/Monitor/Latch/Waiters.antt =====
-- Threads that count down and threads that wait, in any order. A step is one stretch under the lock;
-- a broadcast wakes all threads that wait on the condition variable, and one may wake with no cause.
use so_2021v_li42d.Base.{
  ℕ, ap, ◌+◌, ◌-◌, ◌≤◌, ◌<◌, ◌≡◌, ◌↔◌, refl, true, false, Bool, arith, if◌then◌else◌,
}
use so_2021v_li42d.Base.Int.{pos}
use so_2021v_li42d.Monitor.Latch.{
  Latch, countdownlatch_init, countdownlatch_countdown, countdownlatch_await_test,
}

-- The latch, the threads that wait and those that are woken and not back yet, the calls of
-- `countdownlatch_countdown` and the threads that `countdownlatch_await` let go on.
pub record System : Type 0 where
  pub latch : Latch
  pub waiting : ℕ
  pub awakened : ℕ
  pub countdowns : ℕ
  pub passed : ℕ

pub data Step (s : System) : System → Type 0 where
  countdown :
      {l : Latch} {all : Bool}
      → countdownlatch_countdown s.latch ≡ (l, all)
      → Step s (record s {
        latch = l;
        waiting = if all then 0 else s.waiting;
        awakened = if all then s.awakened + s.waiting else s.awakened;
        countdowns = s.countdowns + 1;
      })
  await_pass :
      countdownlatch_await_test s.latch ≡ false → Step s (record s { passed = s.passed + 1 })
  await_wait :
      countdownlatch_await_test s.latch ≡ true → Step s (record s { waiting = s.waiting + 1 })
  woken_pass :
      0 < s.awakened
      → countdownlatch_await_test s.latch ≡ false
      → Step s (record s { awakened = s.awakened - 1; passed = s.passed + 1 })
  woken_wait :
      0 < s.awakened
      → countdownlatch_await_test s.latch ≡ true
      → Step s (record s { awakened = s.awakened - 1; waiting = s.waiting + 1 })
  spurious :
      0 < s.waiting → Step s (record s { waiting = s.waiting - 1; awakened = s.awakened + 1 })

abbrev pub start : ℕ → System
start n = record {
  latch = countdownlatch_init (pos n);
  waiting = 0;
  awakened = 0;
  countdowns = 0;
  passed = 0;
}

pub data Reach (n : ℕ) : System → Type 0 where
  started : Reach n (start n)
  later : {s t : System} → Reach n s → Step s t → Reach n t

-- The counter is what is missing of `n` calls; nobody passed before, nobody waits after the last.
pub record Inv (n : ℕ) (s : System) : Type 0 where
  pub count : s.latch.count ≡ pos (n - s.countdowns)
  pub closed : s.countdowns < n → s.passed ≡ 0
  pub opened : n ≤ s.countdowns → s.waiting ≡ 0

Step-Inv : {s t : System} (n : ℕ) → Step s t → Inv n s → Inv n t
unfolding countdownlatch_countdown countdownlatch_await_test
Step-Inv n (countdown {l} {all} e) inv = record {
  count = ground (arith, e, inv.count);
  closed = λ h. inv.closed (omega arith);
  opened = λ h. ground (arith, e, inv.count, inv.opened);
}
Step-Inv n (await_pass e) inv = record {
  count = inv.count;
  closed = λ h. ground (arith, e, inv.count);
  opened = inv.opened;
}
Step-Inv n (await_wait e) inv = record {
  count = inv.count;
  closed = inv.closed;
  opened = λ h. ground (arith, e, inv.count);
}
Step-Inv n (woken_pass some_awake e) inv = record {
  count = inv.count;
  closed = λ h. ground (arith, e, inv.count);
  opened = inv.opened;
}
Step-Inv n (woken_wait some_awake e) inv = record {
  count = inv.count;
  closed = inv.closed;
  opened = λ h. ground (arith, e, inv.count);
}
Step-Inv n (spurious some_wait) inv = record {
  count = inv.count;
  closed = inv.closed;
  opened = λ h. ground (arith, inv.opened h);
}

Reach-Inv : {n : ℕ} {s : System} → Reach n s → Inv n s
unfolding countdownlatch_init
Reach-Inv {n} started = record {
  count = ap pos (omega arith);
  closed = λ h. refl;
  opened = λ h. refl;
}
Reach-Inv {n} (later r st) = Step-Inv n st (Reach-Inv r)

-- `countdownlatch_await` lets a thread go on exactly when the latch was counted down as often as its
-- initial count; before that nobody has passed, and after it nobody is left waiting.
pub Reach-Latch :
    {n : ℕ} {s : System}
    → Reach n s
    → ((countdownlatch_await_test s.latch ≡ false) ↔ (n ≤ s.countdowns))
      × (s.countdowns < n → s.passed ≡ 0)
      × (n ≤ s.countdowns → s.waiting ≡ 0)
unfolding countdownlatch_await_test
Reach-Latch r =
    let inv = Reach-Inv r in
    ((λ e. ground (arith, e, inv.count), λ h. ground (arith, inv.count)), inv.closed, inv.opened)
