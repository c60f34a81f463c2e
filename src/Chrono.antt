-- ===== src/Chrono.antt =====
-- The stopwatch of 18-thread-pool/chrono.c and chrono.h. The reading of the clock `CLOCK_MONOTONIC` is
-- a parameter, and a `long` is its 64-bit word.
pub mod Elapsed
use so_2021v_li42d.Base.{ℕ, ◌+◌, ◌-◌, ◌*◌, ◌/◌, ◌%◌, ◌^◌, if◌then◌else◌, ◌==◌}

pub record Chrono : Type 0 where
  pub tv_sec : ℕ
  pub tv_nsec : ℕ

-- `now` is what the clock gives.
unfoldable pub chrono_start : (now : Chrono) → Chrono
chrono_start now = now

-- a - b on two words.
abbrev pub sub_word : ℕ → ℕ → ℕ
sub_word a b = (a + (2 ^ 64 - b)) % 2 ^ 64

unfoldable pub chrono_nanos : (now c : Chrono) → ℕ
chrono_nanos ts c =
    if ts.tv_sec == c.tv_sec
    then sub_word ts.tv_nsec c.tv_nsec
    else (sub_word 1000000000 c.tv_nsec
        + sub_word (sub_word ts.tv_sec c.tv_sec) 1 * 1000000000
        + ts.tv_nsec)
      % 2 ^ 64

unfoldable pub chrono_micros : (now ref : Chrono) → ℕ
chrono_micros now ref = (chrono_nanos now ref + 500) % 2 ^ 64 / 1000
