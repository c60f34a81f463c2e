-- ===== src/Examples/Daemons.antt =====
-- The theorems on the descriptors of the echo servers at a concrete kernel: each call succeeds, a file is
-- opened at a number made from the time, and each read gives `stop`.
use so_2021v_li42d.Base.{
  ℕ, ◌+◌, ◌<◌, ◌⊎◌, ◌≡◌, refl, ap, true, false, Option, none, some, List, [], ◌∷◌, if◌then◌else◌,
  ◌==◌, arith, inr,
}
use so_2021v_li42d.EchoServer.{
  failed, received, basic_round, process_connection, after_write, is_command, fill, below_space,
  strlen, bytes_of,
}
use so_2021v_li42d.EchoServer.Basic.{finished, basic_start, basic_step, basic_run}
use so_2021v_li42d.EchoServer.Basic.Descriptors as BasicDescriptors
use so_2021v_li42d.EchoServer.Epoll
use so_2021v_li42d.EchoServer.Epoll.Errors.{Erred}
use so_2021v_li42d.EchoServer.Epoll.{
  Event, Reported, Reach, waited, here, later, epoll_start, handle_events,
}
use so_2021v_li42d.EchoServer.Epoll.Counter.{Counts, Reach-Counts}
use so_2021v_li42d.EchoServer.Epoll.Descriptors as EpollDescriptors
use so_2021v_li42d.EchoServer.Epoll.Events
use so_2021v_li42d.EchoServer.Poll.Server.{read_failed, Report, poll_start, poll_run}
use so_2021v_li42d.EchoServer.Poll.Rounds
use so_2021v_li42d.EchoServer.Poll.{serve_clients, serve_client}
use so_2021v_li42d.EchoServer.Pool
use so_2021v_li42d.EchoServer.Pool.{pool_start, pool_run}
use so_2021v_li42d.EchoServer.Poll.Clients
use so_2021v_li42d.EchoServer.Pool.Connections
use so_2021v_li42d.EchoServer.Pool.Descriptors as PoolDescriptors
use so_2021v_li42d.EchoServer.Setup.{open_server}
use so_2021v_li42d.EchoServer.Threads.{
  Turn, main_turn, turn_of, threaded_start, threaded_accepted, local_start, threads_run,
}
use so_2021v_li42d.EchoServer.Threads.Descriptors as ThreadsDescriptors
use so_2021v_li42d.EchoServer.Client.{chomp, client_round, client_shows}
use so_2021v_li42d.EchoServer.Client.Process.{Client, client_start, client_step, client_run}
use so_2021v_li42d.EchoServer.Client.Process.Closes.{Kept, client_run-Kept}
use so_2021v_li42d.EchoServer.Threads.Local.{local_start_closes}
use so_2021v_li42d.Posix.{
  File, closed, created, bound, listening, connection, monitor, stream, Kernel, IsLawful, Os,
}

abbrev zeros : ℕ → ℕ
zeros i = 0

abbrev stop_text : List ℕ
stop_text = 115 ∷ 116 ∷ 111 ∷ 112 ∷ 10 ∷ []

abbrev if_closed : ℕ → File → Option ℕ
if_closed fd closed = some fd
if_closed fd _ = none

if_closed-closed : (fd d : ℕ) (f : File) → if_closed fd f ≡ some d → (fd ≡ d) × (f ≡ closed)
if_closed-closed fd d closed e = (cc e, refl)
if_closed-closed fd d created e = absurd (cc e)
if_closed-closed fd d bound e = absurd (cc e)
if_closed-closed fd d listening e = absurd (cc e)
if_closed-closed fd d connection e = absurd (cc e)
if_closed-closed fd d monitor e = absurd (cc e)
if_closed-closed fd d stream e = absurd (cc e)

abbrev willing : Kernel
willing = record {
  opens = λ time files. if_closed (time + 3) (files (time + 3));
  succeeds = λ time. true;
  reads = λ time. received stop_text;
  events = λ time fd. 1;
}

willing-IsLawful : IsLawful willing
willing-IsLawful = record {
  opens-closed = λ time files fd e.
      let (same, free) = if_closed-closed (time + 3) fd (files (time + 3)) e in
      cc (ap files same, free);
}

abbrev before : Os
before = record { files = λ fd. if fd == 0 then stream else closed; time = 0; misuses = 0 }

basic_run-Sound_example :
    BasicDescriptors.Sound before (basic_run willing 2 (basic_start willing before zeros))
basic_run-Sound_example = BasicDescriptors.basic_run-Sound willing willing-IsLawful before zeros 2

abbrev turns : List Turn
turns = main_turn zeros ∷ main_turn zeros ∷ turn_of 1 ∷ turn_of 0 ∷ []

threaded_run-Sound_example :
    ThreadsDescriptors.Sound before (
      threads_run threaded_accepted process_connection willing turns
        (threaded_start willing before))
threaded_run-Sound_example =
    ThreadsDescriptors.threaded_run-Sound willing willing-IsLawful before turns

-- The server answers once and leaves.
abbrev answers_once : Kernel
answers_once = record willing {
  reads = λ time. if time == 3 then received (111 ∷ 107 ∷ []) else received [];
}

answers_once-IsLawful : IsLawful answers_once
answers_once-IsLawful = record { opens-closed = willing-IsLawful.opens-closed }

abbrev two_lines : List (Option (List ℕ))
two_lines = some (111 ∷ 107 ∷ 10 ∷ []) ∷ some (10 ∷ []) ∷ []

abbrev left_client : Client
left_client = client_run answers_once two_lines (client_start zeros zeros answers_once before)

client_run-Kept_example : Kept before left_client.control left_client.conn_fd left_client.os
client_run-Kept_example =
    client_run-Kept answers_once answers_once-IsLawful before zeros zeros two_lines

-- The client has shown the answer, and has closed its connection twice.
left_client_misuses : (left_client.os.misuses ≡ 1) × (left_client.output ≡ (111 ∷ 107 ∷ []) ∷ [])
unfolding client_run client_step client_start client_round client_shows chomp strlen fill bytes_of
left_client_misuses = (refl, refl)

-- A kernel that opens files but lets every other call fail.
abbrev unwilling : Kernel
unwilling = record willing { succeeds = λ time. false }

unwilling-IsLawful : IsLawful unwilling
unwilling-IsLawful = record { opens-closed = willing-IsLawful.opens-closed }

local_start_closes_example : (local_start unwilling before).os.files 3 ≡ closed
unfolding local_start
local_start_closes_example = local_start_closes unwilling unwilling-IsLawful before refl 3

abbrev pool_turns : List Pool.Turn
pool_turns =
    Pool.main_turn
    ∷ Pool.main_turn
    ∷ Pool.turn_of 5 zeros
    ∷ Pool.turn_of 2 zeros
    ∷ Pool.turn_of 5 zeros
    ∷ []

pool_run-Sound_example :
    Connections.Sound 1 before (pool_run 2 willing pool_turns (pool_start 1 willing before))
pool_run-Sound_example =
    PoolDescriptors.pool_run-Sound 1 2 willing willing-IsLawful (ground arith) before pool_turns

abbrev connect_report : Report
connect_report = record {
  on_stdin = false;
  on_main = true;
  events = λ fd. 0;
  nready = 1;
  act = λ fd. (received stop_text, true);
  stale = 77;
}

abbrev stdin_report : Report
stdin_report = record connect_report { on_stdin = true }

poll_run-Sound_example : Clients.Sound 8 before (
    poll_run 8 willing
      (connect_report ∷ connect_report ∷ stdin_report ∷ [])
      (poll_start willing before zeros))
poll_run-Sound_example =
    Rounds.poll_run-Sound 8 willing before willing-IsLawful refl (omega arith) zeros
      (connect_report ∷ connect_report ∷ stdin_report ∷ [])

-- A connection, on the socket of the epoll server, which has the descriptor 3.
abbrev connect_event : Event
connect_event = record {
  fd = 3;
  epollin = true;
  epollerr = false;
  input = received [];
  wrote = true;
}

abbrev epoll_up : Epoll.Server
epoll_up = epoll_start willing before zeros

connected : Reach 8 willing epoll_up (handle_events 8 willing (connect_event ∷ []) epoll_up)
unfolding epoll_start open_server
connected = later here (waited (connect_event ∷ []) refl (inr (inr refl), refl, tt))

Reach-Sound_example :
    EpollDescriptors.Sound 8 before (handle_events 8 willing (connect_event ∷ []) epoll_up)
    ⊎ (Erred connected × (0 < (handle_events 8 willing (connect_event ∷ []) epoll_up).os.misuses))
Reach-Sound_example =
    Events.Reach-Sound 8 before willing zeros willing-IsLawful refl (omega arith) connected

-- The socket has an error, and no connection: the server reads from the socket and exits.
abbrev error_event : Event
error_event = record connect_event { epollin = false; epollerr = true; input = failed }

reads_from_socket :
    ((handle_events 8 willing (error_event ∷ []) epoll_up).os.misuses ≡ 1)
    × ((handle_events 8 willing (error_event ∷ []) epoll_up).mode ≡ Epoll.read_failed 3)
unfolding handle_events epoll_start open_server serve_client
reads_from_socket = (refl, refl)

-- `read` fails on a client of the poll server, which is closed before the process exits.
abbrev failing_report : Report
failing_report = record connect_report {
  on_main = false;
  events = λ fd. 1;
  act = λ fd. (failed, true);
}

read_fails_at :
    (poll_run 8 willing
      (connect_report ∷ failing_report ∷ [])
      (poll_start willing before zeros)).mode
    ≡ read_failed 7
unfolding poll_run poll_start open_server serve_clients serve_client
read_fails_at = refl

-- The server of 01-basic stops by command and has closed its socket.
basic_stops : (basic_run willing 2 (basic_start willing before zeros)).control ≡ finished
unfolding basic_run basic_start basic_step open_server basic_round after_write is_command fill
    below_space
basic_stops = refl

Reach-Counts_example : Counts 8 epoll_up (handle_events 8 willing (connect_event ∷ []) epoll_up)
Reach-Counts_example = Reach-Counts 8 willing connected
