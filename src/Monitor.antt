-- ===== src/Monitor.antt =====
-- The monitors over POSIX threads: 17-pthreads-monitors and 18-thread-pool.
pub mod Latch
pub mod Queue
