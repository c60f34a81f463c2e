-- ===== src/EchoServer/Basic.antt =====
-- `main` of 20-net-sockets/01-basic/echo-server.c as a state machine: a step runs up to the next call
-- of `accept` or `read`.
pub mod Descriptors
use so_2021v_li42d.Base.{ℕ, zero, suc, Bool, true, false, Option, none, some, if◌then◌else◌}
use so_2021v_li42d.EchoServer.{
  Input, failed, received, End, quit, stop, read_failed, write_failed, overrun, waiting, Round,
  ends, goes_on, basic_round,
}
use so_2021v_li42d.EchoServer.Setup.{open_server}
use so_2021v_li42d.Posix.{Kernel, Os, accept, call, read, write, close}

pub data Control : Type 0 where
  accepting : Control
  serving : ℕ → Control
  finished : Control
  exited : Control
  overran : Control

pub record Basic : Type 0 where
  pub os : Os
  pub main_fd : ℕ
  pub buf : ℕ → ℕ
  pub control : Control

abbrev pub after_setup : (buf : ℕ → ℕ) → Option ℕ × Os → Basic
after_setup buf (none, os) = record { os = os; main_fd = 0; buf = buf; control = exited }
after_setup buf (some main_fd, os) = record {
  os = os;
  main_fd = main_fd;
  buf = buf;
  control = accepting;
}

unfoldable pub basic_start : Kernel → Os → (buf : ℕ → ℕ) → Basic
basic_start k os buf = after_setup buf (open_server k os)

-- The result of `accept`; the address of the client is converted by `inet_ntop`.
abbrev pub basic_accepted : Kernel → Basic → Option ℕ × Os → Basic
basic_accepted k s (none, os) = record s { os = os; control = exited }
basic_accepted k s (some conn_fd, os) =
    let (converts, os') = call k os in
    record s { os = os'; control = if converts then serving conn_fd else exited }

-- What follows a round of the session.
abbrev pub basic_served : Basic → (conn_fd : ℕ) → Os → Round → Basic
basic_served s conn_fd os (ends quit sent) = record s { os = close conn_fd os; control = accepting }
basic_served s conn_fd os (ends stop sent) = record s {
  os = close s.main_fd (close conn_fd os);
  control = finished;
}
basic_served s conn_fd os (ends overrun sent) = record s { os = os; control = overran }
basic_served s conn_fd os (ends _ sent) = record s { os = os; control = exited }
basic_served s conn_fd os (goes_on buf sent) = record s {
  os = os;
  buf = buf;
  control = serving conn_fd;
}

-- One round of the inner loop; a read that fails is followed by no write.
abbrev pub basic_serve : Kernel → Basic → (conn_fd : ℕ) → Input × Os → Basic
basic_serve k s conn_fd (failed, os) = basic_served s conn_fd os (basic_round s.buf failed true)
basic_serve k s conn_fd (received bytes, os) =
    let (wrote, os') = write k conn_fd os in
    basic_served s conn_fd os' (basic_round s.buf (received bytes) wrote)

abbrev pub basic_dispatch : Kernel → Basic → Control → Basic
basic_dispatch k s accepting = basic_accepted k s (accept k s.main_fd s.os)
basic_dispatch k s (serving conn_fd) = basic_serve k s conn_fd (read k conn_fd s.os)
basic_dispatch k s _ = s

unfoldable pub basic_step : Kernel → Basic → Basic
basic_step k s = basic_dispatch k s s.control

unfoldable pub basic_run : Kernel → ℕ → Basic → Basic
basic_run k zero s = s
basic_run k (suc n) s = basic_run k n (basic_step k s)
