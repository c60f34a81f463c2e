-- ===== src/Monitor/Latch.antt =====
-- The latch of 17-pthreads-monitors/03-countdownlatch/countdownlatch.c; 18-thread-pool/
-- countdownlatch.c has the same text with the field `count` named `counter`. The counter is an `int`.
pub mod Waiters
use so_2021v_li42d.Base.{ℕ, ◌+◌, ◌-◌, Bool, true, false, ◌&&◌, not, if◌then◌else◌}
use so_2021v_li42d.Base.Int.{ℤ, pos, negsuc, ◌-ℤ◌, ltb_ℤ}

pub record Latch : Type 0 where
  pub count : ℤ

unfoldable pub countdownlatch_init : ℤ → Latch
countdownlatch_init initial_count = record { count = initial_count }

-- `cdl->count == 0`
abbrev is_zero : ℤ → Bool
is_zero c = not (ltb_ℤ (pos 0) c) && not (ltb_ℤ c (pos 0))

-- The stretch under the lock of `countdownlatch_countdown`; the flag says whether it broadcasts.
unfoldable pub countdownlatch_countdown : Latch → Latch × Bool
unfolding ◌-ℤ◌
countdownlatch_countdown cdl =
    if ltb_ℤ (pos 0) cdl.count
    then (let left = cdl.count -ℤ pos 1 in (record { count = left }, is_zero left))
    else (cdl, false)

-- The test of the loop in `countdownlatch_await`: whether the thread has to wait.
unfoldable pub countdownlatch_await_test : Latch → Bool
countdownlatch_await_test cdl = ltb_ℤ (pos 0) cdl.count
