-- ===== src/Chrono/Elapsed.antt =====
-- What the stopwatch of 18-thread-pool/chrono.c shows of the time between two readings of the clock.
use so_2021v_li42d.Base.{ℕ, ◌+◌, ◌-◌, ◌*◌, ◌^◌, ◌≤◌, ◌<◌, ◌≡◌, arith}
use so_2021v_li42d.Chrono.{Chrono, chrono_start, chrono_nanos, chrono_micros}

-- The time of a reading in nanoseconds.
abbrev pub nanos_of : Chrono → ℕ
nanos_of c = c.tv_sec * 1000000000 + c.tv_nsec

-- A reading as the clock gives it: the nanoseconds are below a second.
pub record IsStamp (c : Chrono) : Type 0 where
  pub sec : c.tv_sec < 2 ^ 63
  pub nsec : c.tv_nsec < 1000000000

-- What the stopwatch counts is the time since the start, if it fits a word.
pub chrono_nanos-exact :
    (c now : Chrono)
    → IsStamp c
    → IsStamp now
    → nanos_of c ≤ nanos_of now
    → nanos_of now - nanos_of c < 2 ^ 64
    → chrono_nanos now c ≡ nanos_of now - nanos_of c
unfolding chrono_nanos
chrono_nanos-exact c now is_c is_now later fits =
    ground (arith, is_c.sec, is_c.nsec, is_now.sec, is_now.nsec)

-- After a time that fits a word and leaves room for half a microsecond, the stopwatch shows the nearest
-- number of microseconds, the higher one of two that are as near.
pub chrono_micros-nearest :
    (start now : Chrono)
    → IsStamp start
    → IsStamp now
    → nanos_of start ≤ nanos_of now
    → nanos_of now - nanos_of start + 500 < 2 ^ 64
    → let micros = chrono_micros now (chrono_start start) in
      let nanos = nanos_of now - nanos_of start in
      (1000 * micros ≤ nanos + 500) × (nanos < 1000 * micros + 500)
unfolding chrono_micros chrono_start
chrono_micros-nearest start now is_start is_now later fits =
    let exact = chrono_nanos-exact start now is_start is_now later (omega (arith, fits)) in
    rw exact (omega arith, omega arith)
