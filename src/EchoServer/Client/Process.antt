-- ===== src/EchoServer/Client/Process.antt =====
-- `main` of 22-ipc-uds/echo-client.c as a state machine over the system calls: a step is a round of its
-- loop. `terminal` is what `fgets` gives in each round, `none` at the end of the input.
pub mod Closes
use so_2021v_li42d.Base.{
  ℕ, zero, suc, ◌+◌, Bool, true, false, Option, none, some, List, [], ◌∷◌, if◌then◌else◌, length,
}
use so_2021v_li42d.EchoServer.{Input, failed, received, fill, strlen}
use so_2021v_li42d.EchoServer.Client.{
  chomp, client_sends, Reply, exits, leaves, overruns, shows, client_round,
}
use so_2021v_li42d.Posix.{
  created, connection, is_created, Kernel, Os, open_file, advance, read, write, close,
}

pub data Control : Type 0 where
  talking : Control
  finished : Control
  exited : Control
  overran : Control

-- `sent` has what was written to the server and `output` the texts that were shown, the last one first.
pub record Client : Type 0 where
  pub os : Os
  pub conn_fd : ℕ
  pub line : ℕ → ℕ
  pub reply : ℕ → ℕ
  pub sent : List (List ℕ)
  pub output : List (List ℕ)
  pub control : Control

-- The result of `connect`, and of `socket`.
abbrev pub connected : (line reply : ℕ → ℕ) → ℕ → Bool × Os → Client
connected line reply conn_fd (succeeds, os) = record {
  os = os;
  conn_fd = conn_fd;
  line = line;
  reply = reply;
  sent = [];
  output = [];
  control = if succeeds then talking else exited;
}

abbrev pub client_socket : (line reply : ℕ → ℕ) → Kernel → Option ℕ × Os → Client
client_socket line reply k (none, os) = connected line reply 0 (false, os)
client_socket line reply k (some conn_fd, os) =
    connected line reply conn_fd (advance k is_created connection conn_fd os)

unfoldable pub client_start : (line reply : ℕ → ℕ) → Kernel → Os → Client
client_start line reply k os = client_socket line reply k (open_file k created os)

-- What follows a round. When the server has left, the descriptor is closed in the loop and after it.
abbrev pub client_next : Client → Os → Reply → Client
client_next s os exits = record s { os = os; control = exited }
client_next s os leaves = record s { os = close s.conn_fd (close s.conn_fd os); control = finished }
client_next s os overruns = record s { os = os; control = overran }
client_next s os (shows text) = record s { os = os; output = text ∷ s.output }

-- The buffer `data` after `read` and `data[dlen] = 0`.
abbrev pub answered : (reply : ℕ → ℕ) → Input → ℕ → ℕ
answered reply (received (b ∷ bytes)) = fill reply 0 (b ∷ bytes)
answered reply _ = reply

-- A round with the line `text` from the call of `read` on; `line` is what its buffer held before.
abbrev pub client_read : Client → (line : ℕ → ℕ) → List ℕ → Input × Os → Client
client_read s line text (input, os) =
    client_next (record s { reply = answered s.reply input }) os
      (client_round line s.reply (some text) true input)

abbrev pub client_written : Kernel → Client → (line : ℕ → ℕ) → List ℕ → Bool × Os → Client
client_written k s line text (true, os) =
    client_read (record s { sent = client_sends line text ∷ s.sent }) line text
      (read k s.conn_fd os)
client_written k s line text (false, os) =
    client_next s os (client_round line s.reply (some text) false failed)

-- The buffer `line` after `fgets` and the loop that cuts the line ends off.
abbrev pub typed : Client → List ℕ → Client
typed s text =
    let stored = fill s.line 0 text in
    record s { line = (chomp stored (strlen stored 0 (length text))).0 }

abbrev pub client_talk : Kernel → Client → Option (List ℕ) → Client
client_talk k s none = client_next s s.os (client_round s.line s.reply none false failed)
client_talk k s (some text) = client_written k (typed s text) s.line text (write k s.conn_fd s.os)

abbrev pub client_dispatch : Kernel → Option (List ℕ) → Client → Control → Client
client_dispatch k text s talking = client_talk k s text
client_dispatch k text s _ = s

unfoldable pub client_step : Kernel → Option (List ℕ) → Client → Client
client_step k text s = client_dispatch k text s s.control

unfoldable pub client_run : Kernel → List (Option (List ℕ)) → Client → Client
client_run k [] s = s
client_run k (text ∷ terminal) s = client_run k terminal (client_step k text s)
