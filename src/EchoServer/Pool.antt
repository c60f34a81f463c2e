-- ===== src/EchoServer/Pool.antt =====
-- 20-net-sockets/03-thread-pool/echo-server.c: `main` hands every connection to the thread pool, whose
-- workers run `process_connection`. A turn runs `main` up to the next `accept`, or one worker up to
-- the next `read` or `queue_get`.
pub mod Connections
pub mod Descriptors
use so_2021v_li42d.Base.{
  ℕ, zero, suc, Bool, true, false, Option, none, some, List, [], ◌∷◌, if◌then◌else◌, get_elem?, set,
}
use so_2021v_li42d.EchoServer.{
  Input, failed, received, End, quit, stop, read_failed, write_failed, overrun, waiting, Round,
  ends, goes_on, process_connection,
}
use so_2021v_li42d.EchoServer.Setup.{open_server}
use so_2021v_li42d.Posix.{Kernel, Os, accept, call, read, write, close}
use so_2021v_li42d.ThreadPool.{
  ThreadPool, thread_pool_init, thread_pool_submit, thread_pool_worker, waits, calls,
}
use so_2021v_li42d.ThreadPool

-- A worker waits for work, serves a connection, or has ended.
pub data Worker : Type 0 where
  idle : Worker
  serving : ℕ → (ℕ → ℕ) → Worker
  gone : Worker

pub data Mode : Type 0 where
  up : Mode
  exited : Mode
  overran : Mode

pub record Server : Type 0 where
  pub os : Os
  pub main_fd : ℕ
  pub tpool : ThreadPool
  pub workers : List Worker
  pub mode : Mode

abbrev pub nthreads : ℕ
nthreads = 8

abbrev pub idle_workers : ℕ → List Worker
idle_workers zero = []
idle_workers (suc n) = idle ∷ idle_workers n

abbrev pub after_setup : ThreadPool → Option ℕ × Os → Server
after_setup tpool (none, os) = record {
  os = os;
  main_fd = 0;
  tpool = tpool;
  workers = idle_workers nthreads;
  mode = exited;
}
after_setup tpool (some main_fd, os) = record {
  os = os;
  main_fd = main_fd;
  tpool = tpool;
  workers = idle_workers nthreads;
  mode = up;
}

-- `death_pill` is the address of the static `DEATH_PILL` of thread_pool.c.
unfoldable pub pool_start : (death_pill : ℕ) → Kernel → Os → Server
pool_start death_pill k os = after_setup (thread_pool_init death_pill nthreads) (open_server k os)

-- `main` after `accept`; `action` is the address of `process_connection`.
abbrev pub pool_accepted : (action : ℕ) → Kernel → Server → Option ℕ × Os → Server
pool_accepted action k s (none, os) = record s { os = os; mode = exited }
pool_accepted action k s (some fd, os) =
    let (converts, os') = call k os in
    if converts
    then record s { os = os'; tpool = (thread_pool_submit s.tpool action fd).0 }
    else record s { os = os'; mode = exited }

abbrev pub with_worker : Server → Os → ℕ → Worker → Server
with_worker s os i w = record s { os = os; workers = set s.workers i w }

-- What follows a round of a session; `terror` ends the process here.
abbrev pub worker_served : Server → (i fd : ℕ) → Os → Round → Server
worker_served s i fd os (ends quit sent) = with_worker s (close fd os) i idle
worker_served s i fd os (ends overrun sent) = record s { os = os; mode = overran }
worker_served s i fd os (ends _ sent) = record s { os = os; mode = exited }
worker_served s i fd os (goes_on buf sent) = with_worker s os i (serving fd buf)

abbrev pub worker_serve : Kernel → Server → (i fd : ℕ) → (ℕ → ℕ) → Input × Os → Server
worker_serve k s i fd buf (failed, os) =
    worker_served s i fd os (process_connection buf failed true)
worker_serve k s i fd buf (received bytes, os) =
    let (wrote, os') = write k fd os in
    worker_served s i fd os' (process_connection buf (received bytes) wrote)

-- A round of `thread_pool_worker`; `buf` has what the stack of the worker held.
abbrev pub worker_takes : (buf : ℕ → ℕ) → Server → ℕ → ThreadPool.Round → Server
worker_takes buf s i waits = s
worker_takes buf s i (ThreadPool.ends tpool) = record s {
  tpool = tpool;
  workers = set s.workers i gone;
}
worker_takes buf s i (calls tpool wi) = record s {
  tpool = tpool;
  workers = set s.workers i (serving wi.arg buf);
}

abbrev pub worker_turn : Kernel → (buf : ℕ → ℕ) → Server → ℕ → Option Worker → Server
worker_turn k buf s i none = s
worker_turn k buf s i (some idle) = worker_takes buf s i (thread_pool_worker s.tpool)
worker_turn k buf s i (some (serving fd own_buf)) = worker_serve k s i fd own_buf (read k fd s.os)
worker_turn k buf s i (some gone) = s

pub data Turn : Type 0 where
  main_turn : Turn
  turn_of : ℕ → (buf : ℕ → ℕ) → Turn

abbrev pub turn : (action : ℕ) → Kernel → Server → Mode → Turn → Server
turn action k s up main_turn = pool_accepted action k s (accept k s.main_fd s.os)
turn action k s up (turn_of i buf) = worker_turn k buf s i (get_elem? s.workers i)
turn action k s exited t = s
turn action k s overran t = s

unfoldable pub pool_run : (action : ℕ) → Kernel → List Turn → Server → Server
pool_run action k [] s = s
pool_run action k (t ∷ ts) s = pool_run action k ts (turn action k s s.mode t)
