-- ===== src/EchoServer/Epoll.antt =====
-- `main` of 21-async/02-epoll/echo-server.c as a state machine: a step handles the events of one call
-- of `epoll_wait`. The round of a client is that of the poll server, which has the same text.
pub mod Counter
pub mod Descriptors
pub mod Errors
pub mod Events
pub mod Handling
pub mod Retained
use so_2021v_li42d.Base.{
  ℕ, ◌+◌, ◌≡◌, Bool, true, false, ◌&&◌, ◌||◌, Option, none, some, List, [], ◌∷◌, if◌then◌else◌,
  ◌==◌, count, ◌<◌, ◌⊎◌,
}
use so_2021v_li42d.EchoServer.{Input}
use so_2021v_li42d.EchoServer.Setup.{open_server}
use so_2021v_li42d.EchoServer.Poll.{
  Visit, read_fails, write_fails, stays, closes, serve_client, touch,
}
use so_2021v_li42d.Posix.{monitor, Kernel, Os, open_file, accept, call, close}

-- `read_failed` is the exit after a failed `read`, on a client that is closed first, and `exited` any
-- other exit.
pub data Mode : Type 0 where
  up : Mode
  finished : Mode
  exited : Mode
  read_failed : (conn_fd : ℕ) → Mode

-- `clients` are the connections that are registered with `epoll_ctl`.
pub record Server : Type 0 where
  pub os : Os
  pub main_fd : ℕ
  pub events_fd : ℕ
  pub clients : List ℕ
  pub nevents : ℕ
  pub buf : ℕ → ℕ
  pub mode : Mode

-- An event, with what `read` and `write` give if it leads to them.
pub record Event : Type 0 where
  pub fd : ℕ
  pub epollin : Bool
  pub epollerr : Bool
  pub input : Input
  pub wrote : Bool

abbrev pub ended : Mode → (main_fd : ℕ) → (buf : ℕ → ℕ) → Os → Server
ended mode main_fd buf os = record {
  os = os;
  main_fd = main_fd;
  events_fd = 0;
  clients = [];
  nevents = 2;
  buf = buf;
  mode = mode;
}

-- `epoll_create`, and `epoll_ctl` for the standard input and for the socket.
abbrev pub monitored : Kernel → (main_fd : ℕ) → (buf : ℕ → ℕ) → Option ℕ × Os → Server
monitored k main_fd buf (none, os) = ended exited main_fd buf (close main_fd os)
monitored k main_fd buf (some events_fd, os) =
    let (adds_stdin, os1) = call k os in
    let (adds_main, os2) = call k os1 in
    if adds_stdin
    then (if adds_main
        then record (ended up main_fd buf os2) { events_fd = events_fd }
        else ended exited main_fd buf (close events_fd (close main_fd os2)))
    else ended exited main_fd buf (close events_fd (close main_fd os1))

abbrev pub after_setup : Kernel → (buf : ℕ → ℕ) → Option ℕ × Os → Server
after_setup k buf (none, os) = ended exited 0 buf os
after_setup k buf (some main_fd, os) = monitored k main_fd buf (open_file k monitor os)

unfoldable pub epoll_start : Kernel → Os → (buf : ℕ → ℕ) → Server
epoll_start k os buf = after_setup k buf (open_server k os)

-- The new connection is registered, or closed if `nevents` is at its limit.
abbrev pub add : (max_clients : ℕ) → Kernel → Server → (conn_fd : ℕ) → Os → Server
add max_clients k s conn_fd os =
    let (adds, os') = call k os in
    if s.nevents == max_clients
    then record s { os = close conn_fd os }
    else if adds
    then record s { os = os'; clients = conn_fd ∷ s.clients; nevents = s.nevents + 1 }
    else record s { os = close conn_fd os'; mode = exited }

abbrev pub accepted : (max_clients : ℕ) → Kernel → Server → Option ℕ × Os → Server
accepted max_clients k s (none, os) = record s { os = os; mode = exited }
accepted max_clients k s (some conn_fd, os) =
    let (converts, os') = call k os in
    if converts then add max_clients k s conn_fd os' else record s { os = os'; mode = exited }

abbrev pub without : ℕ → List ℕ → List ℕ
without fd [] = []
without fd (c ∷ cs) = if c == fd then cs else c ∷ without fd cs

-- What follows the read and the write; a client that leaves is taken off with `epoll_ctl` and closed.
abbrev pub served : Kernel → Server → (conn_fd : ℕ) → Os → Visit → Server
served k s conn_fd os read_fails = record s { os = close conn_fd os; mode = read_failed conn_fd }
served k s conn_fd os write_fails = record s { os = os; mode = exited }
served k s conn_fd os (stays buf) = record s { os = os; buf = buf }
served k s conn_fd os (closes buf) =
    let (removes, os') = call k os in
    if removes
    then record s { os = close conn_fd os'; clients = without conn_fd s.clients; buf = buf }
    else record s { os = close s.events_fd (close s.main_fd os'); mode = exited }

-- `end:`
abbrev pub finish : Server → Server
finish s = record s { os = close s.main_fd (close s.events_fd s.os); mode = finished }

abbrev pub handle : (max_clients : ℕ) → Kernel → Event → Server → Server
handle max_clients k ev s =
    if (ev.fd == 0) && ev.epollin
    then finish s
    else if (ev.fd == s.main_fd) && ev.epollin
    then accepted max_clients k s (accept k s.main_fd s.os)
    else if ev.epollin || ev.epollerr
    then served k s ev.fd (touch ev.fd s.os) (serve_client s.buf ev.input ev.wrote)
    else s

-- The loop over the events; it is left when the process ends.
abbrev pub proceed : Mode → Server → Server → Server
proceed up s rest = rest
proceed _ s rest = s

unfoldable pub handle_events : (max_clients : ℕ) → Kernel → List Event → Server → Server
handle_events max_clients k [] s = s
handle_events max_clients k (ev ∷ evs) s =
    let s' = handle max_clients k ev s in proceed s'.mode s' (handle_events max_clients k evs s')

-- How often `d` is registered as a client.
abbrev pub clients_on : List ℕ → ℕ → ℕ
clients_on cs d = count (λ c. c == d) cs

-- What `epoll_wait` promises: its events are on registered descriptors, each at most once.
abbrev pub Reported : (main_fd : ℕ) → List ℕ → List Event → Type 0
Reported main_fd cs [] = Unit
Reported main_fd cs (ev ∷ evs) =
    ((0 < clients_on cs ev.fd) ⊎ ((ev.fd ≡ 0) ⊎ (ev.fd ≡ main_fd)))
    × (count (λ e. e.fd == ev.fd) evs ≡ 0)
    × Reported main_fd cs evs

pub data Step (max_clients : ℕ) (k : Kernel) (s : Server) : Server → Type 0 where
  waited :
      (evs : List Event)
      → s.mode ≡ up
      → Reported s.main_fd s.clients evs
      → Step max_clients k s (handle_events max_clients k evs s)

pub data Reach (max_clients : ℕ) (k : Kernel) (s : Server) : Server → Type 0 where
  here : Reach max_clients k s s
  later :
      {t u : Server} → Reach max_clients k s t → Step max_clients k t u → Reach max_clients k s u
