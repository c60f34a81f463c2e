-- ===== src/EchoServer/Poll/Server.antt =====
-- `main` of 21-async/01-poll/echo-server.c as a state machine: a step is one round of its loop, from a
-- call of `poll` to the next. The clients are the entries of the array from index 2 on.
use so_2021v_li42d.Base.{
  ℕ, ◌+◌, ◌-◌, Bool, Option, none, some, List, [], ◌∷◌, ◌++◌, map, if◌then◌else◌, ◌==◌, length,
}
use so_2021v_li42d.EchoServer.{Input}
use so_2021v_li42d.EchoServer.Setup.{open_server}
use so_2021v_li42d.EchoServer.Poll.{Client, Rest, passes, quits, unended, serve_clients}
use so_2021v_li42d.Posix.{Kernel, Os, accept, call, close, close_all}

-- What `poll` reports of the two first entries and of a client, by its descriptor, and what it
-- returns; what `read` and `write` give; the bytes of the field `revents` where a new client is
-- entered, which no one sets.
pub record Report : Type 0 where
  pub on_stdin : Bool
  pub on_main : Bool
  pub events : ℕ → ℕ
  pub nready : ℕ
  pub act : ℕ → Input × Bool
  pub stale : ℕ

-- `exited` is the end by a failure before the loop. In the loop the process exits when `read` fails, on
-- a connection that is closed first, when `inet_ntop` fails, with a connection that is in no entry, or
-- when `accept` or `write` fails. `out_of_fuel` belongs to the model.
pub data Mode : Type 0 where
  up : Mode
  finished : Mode
  exited : Mode
  read_failed : (conn_fd : ℕ) → Mode
  address_failed : (conn_fd : ℕ) → Mode
  call_failed : Mode
  out_of_fuel : Mode

pub record Server : Type 0 where
  pub os : Os
  pub main_fd : ℕ
  pub clients : List Client
  pub buf : ℕ → ℕ
  pub mode : Mode

abbrev pub after_setup : (buf : ℕ → ℕ) → Option ℕ × Os → Server
after_setup buf (none, os) = record { os = os; main_fd = 0; clients = []; buf = buf; mode = exited }
after_setup buf (some main_fd, os) = record {
  os = os;
  main_fd = main_fd;
  clients = [];
  buf = buf;
  mode = up;
}

unfoldable pub poll_start : Kernel → Os → (buf : ℕ → ℕ) → Server
poll_start k os buf = after_setup buf (open_server k os)

-- `nclients`, which counts the entries for the standard input and the socket.
abbrev pub nclients : Server → ℕ
nclients s = length s.clients + 2

-- `poll` writes the events of every entry.
abbrev pub polled : (ℕ → ℕ) → List Client → List Client
polled events [] = []
polled events (c ∷ cs) = record c { revents = events c.fd } ∷ polled events cs

-- The loop over the clients, `nready` being what is left of it.
abbrev pub passed : Server → Rest → Server
passed s (passes p) = record s { clients = p.left; os = p.os; buf = p.buf }
passed s (quits (some fd) left os) = record s { clients = left; os = os; mode = read_failed fd }
passed s (quits none left os) = record s { clients = left; os = os; mode = call_failed }
passed s unended = record s { mode = out_of_fuel }

abbrev pub serve : Report → (nready : ℕ) → Server → Server
serve ev nready s =
    passed s (serve_clients ev.act (length s.clients + 1) s.os s.buf nready s.clients)

-- `if (--nready == 0) continue;`, else the loop over the clients.
abbrev pub after_accept : Report → Server → Server
after_accept ev s = if ev.nready - 1 == 0 then s else serve ev (ev.nready - 1) s

-- The connection is entered behind the other clients, or closed if the array is full.
abbrev pub enter : (max_clients : ℕ) → Report → Server → (conn_fd : ℕ) → Os → Server
enter max_clients ev s conn_fd os =
    if nclients s == max_clients then record s { os = close conn_fd os } else record s {
      os = os;
      clients = s.clients ++ record { fd = conn_fd; revents = ev.stale } ∷ [];
    }

abbrev pub accepted : (max_clients : ℕ) → Kernel → Report → Server → Option ℕ × Os → Server
accepted max_clients k ev s (none, os) = record s { os = os; mode = call_failed }
accepted max_clients k ev s (some conn_fd, os) =
    let (converts, os') = call k os in
    if converts
    then after_accept ev (enter max_clients ev s conn_fd os')
    else record s { os = os'; mode = address_failed conn_fd }

-- All entries of the array are closed, and then the socket.
abbrev pub shut : Server → Server
shut s = record s {
  os = close s.main_fd (close_all (0 ∷ s.main_fd ∷ map (λ c. c.fd) s.clients) s.os);
  mode = finished;
}

abbrev pub round : (max_clients : ℕ) → Kernel → Report → Server → Server
round max_clients k ev s =
    if ev.on_stdin
    then shut s
    else if ev.on_main
    then accepted max_clients k ev s (accept k s.main_fd s.os)
    else serve ev ev.nready s

abbrev pub poll_step : (max_clients : ℕ) → Kernel → Report → Mode → Server → Server
poll_step max_clients k ev up s =
    round max_clients k ev (record s { clients = polled ev.events s.clients })
poll_step max_clients k ev _ s = s

unfoldable pub poll_run : (max_clients : ℕ) → Kernel → List Report → Server → Server
poll_run max_clients k [] s = s
poll_run max_clients k (ev ∷ evs) s =
    poll_run max_clients k evs (poll_step max_clients k ev s.mode s)
