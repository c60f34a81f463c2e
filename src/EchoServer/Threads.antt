-- ===== src/EchoServer/Threads.antt =====
-- The servers with a thread for each connection: `main`, `process_connection` and `terror` of
-- 20-net-sockets/02-multithreaded/echo-server.c and 22-ipc-uds/echo-server.c as a state machine. A
-- turn runs `main` up to the next `accept`, or one thread up to the next `read`.
pub mod Descriptors
pub mod Local
use so_2021v_li42d.Base.{
  ℕ, ◌+◌, Bool, true, false, Option, none, some, List, [], ◌∷◌, ◌++◌, if◌then◌else◌, get_elem?, set,
}
use so_2021v_li42d.EchoServer.{
  Input, failed, received, End, quit, stop, read_failed, write_failed, overrun, waiting, Round,
  ends, goes_on,
}
use so_2021v_li42d.EchoServer.Setup.{open_server}
use so_2021v_li42d.Posix.{
  File, created, bound, listening, is_created, is_bound, Kernel, Os, open_file, advance, called,
  accept, call, read, write, close,
}

-- A thread runs with its buffer, has closed its connection, or never closes it: it ended in `terror`
-- or could not be created.
pub data Activity : Type 0 where
  running : (ℕ → ℕ) → Activity
  left : Activity
  lost : Activity

pub record Thread : Type 0 where
  pub conn_fd : ℕ
  pub activity : Activity

pub data Mode : Type 0 where
  up : Mode
  exited : Mode
  overran : Mode

pub record Threads : Type 0 where
  pub os : Os
  pub main_fd : ℕ
  pub threads : List Thread
  pub mode : Mode

abbrev pub after_setup : Option ℕ × Os → Threads
after_setup (none, os) = record { os = os; main_fd = 0; threads = []; mode = exited }
after_setup (some main_fd, os) = record { os = os; main_fd = main_fd; threads = []; mode = up }

-- 02-multithreaded
unfoldable pub threaded_start : Kernel → Os → Threads
threaded_start k os = after_setup (open_server k os)

-- The calls of `main` in 22-ipc-uds up to the loop; a socket that cannot be used is closed.
abbrev pub prepare_local : Kernel → Option ℕ × Os → Option ℕ × Os
prepare_local k (none, os) = (none, os)
prepare_local k (some main_fd, os) =
    let os1 = (call k os).1 in
    let (is_bound_now, os2) = advance k is_created bound main_fd os1 in
    let (listens, os3) = advance k is_bound listening main_fd os2 in
    if is_bound_now
    then (if listens then (some main_fd, os3) else (none, (call k (close main_fd os3)).1))
    else (none, close main_fd os2)

unfoldable pub local_start : Kernel → Os → Threads
local_start k os = after_setup (prepare_local k (open_file k created os))

-- `buf` has what the stack of the new thread held.
abbrev pub started : Bool → (buf : ℕ → ℕ) → Activity
started true buf = running buf
started false buf = lost

-- `main` of 02-multithreaded after `accept`: `inet_ntop`, then `pthread_create`.
abbrev pub threaded_accepted : Kernel → (buf : ℕ → ℕ) → Threads → Option ℕ × Os → Threads
threaded_accepted k buf s (none, os) = record s { os = os; mode = exited }
threaded_accepted k buf s (some fd, os) =
    let (converts, os1) = call k os in
    let (creates, os2) = call k os1 in
    if converts
    then record s {
      os = os2;
      threads = s.threads ++ record { conn_fd = fd; activity = started creates buf } ∷ [];
    }
    else record s { os = os1; mode = exited }

-- `main` of 22-ipc-uds after `accept`; when it fails, the socket is closed and unlinked.
abbrev pub local_accepted : Kernel → (buf : ℕ → ℕ) → Threads → Option ℕ × Os → Threads
local_accepted k buf s (none, os) = record s { os = (call k (close s.main_fd os)).1; mode = exited }
local_accepted k buf s (some fd, os) =
    let (creates, os1) = call k os in
    record s {
      os = os1;
      threads = s.threads ++ record { conn_fd = fd; activity = started creates buf } ∷ [];
    }

abbrev pub with_activity : Threads → Os → ℕ → (fd : ℕ) → Activity → Threads
with_activity s os i fd a = record s {
  os = os;
  threads = set s.threads i (record { conn_fd = fd; activity = a });
}

-- What follows a round of the session of thread `i`; `terror` ends the thread.
abbrev pub thread_served : Threads → (i fd : ℕ) → Os → Round → Threads
thread_served s i fd os (ends quit sent) = with_activity s (close fd os) i fd left
thread_served s i fd os (ends stop sent) = record s { os = os; mode = exited }
thread_served s i fd os (ends overrun sent) = record s { os = os; mode = overran }
thread_served s i fd os (ends read_failed sent) = with_activity s os i fd lost
thread_served s i fd os (ends write_failed sent) = with_activity s os i fd lost
thread_served s i fd os (ends waiting sent) = s
thread_served s i fd os (goes_on buf sent) = with_activity s os i fd (running buf)

-- The threads differ in the round of their sessions, which is a parameter here. Where a round makes no
-- call of `write`, the answer of the kernel that is set aside for it is left out.
module _ (round : (ℕ → ℕ) → Input → Bool → Round) where
  abbrev pub thread_serve : Kernel → Threads → (i fd : ℕ) → (ℕ → ℕ) → Input × Os → Threads
  thread_serve k s i fd buf (failed, os) = thread_served s i fd os (round buf failed true)
  thread_serve k s i fd buf (received bytes, os) =
      let (wrote, os') = write k fd os in
      thread_served s i fd os' (round buf (received bytes) wrote)

  abbrev pub thread_active : Kernel → Threads → (i fd : ℕ) → Activity → Threads
  thread_active k s i fd (running buf) = thread_serve k s i fd buf (read k fd s.os)
  thread_active k s i fd _ = s

  abbrev pub thread_turn : Kernel → Threads → ℕ → Option Thread → Threads
  thread_turn k s i none = s
  thread_turn k s i (some t) = thread_active k s i t.conn_fd t.activity

-- Who runs next: `main`, or a thread.
pub data Turn : Type 0 where
  main_turn : (buf : ℕ → ℕ) → Turn
  turn_of : ℕ → Turn

abbrev pub Accepted : Type 0
Accepted = Kernel → (ℕ → ℕ) → Threads → Option ℕ × Os → Threads

module _ (accepted : Accepted) (round : (ℕ → ℕ) → Input → Bool → Round) where
  abbrev pub turn_up : Kernel → Threads → Turn → Threads
  turn_up k s (main_turn buf) = accepted k buf s (accept k s.main_fd s.os)
  turn_up k s (turn_of i) = thread_turn round k s i (get_elem? s.threads i)

  abbrev pub turn : Kernel → Threads → Mode → Turn → Threads
  turn k s up t = turn_up k s t
  turn k s _ t = s

  unfoldable pub threads_run : Kernel → List Turn → Threads → Threads
  threads_run k [] s = s
  threads_run k (t ∷ ts) s = threads_run k ts (turn k s s.mode t)
