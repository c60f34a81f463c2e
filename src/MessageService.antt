-- ===== src/MessageService.antt =====
-- The echo service over shared-memory channels: 19-ipc/echo-server.c, echo-client.c and echo-term.c. A
-- channel is the list of the messages in it (`MemChannel` has its details), and a name is the number of
-- the process that it is made from. A step runs a process up to its next call on a channel; `none`
-- means that the call has to wait.
pub mod Clients
pub mod Invariant
pub mod Replies
use so_2021v_li42d.Base.{
  ℕ, ◌+◌, ◌<◌, ◌≡◌, ◌≢◌, Bool, true, false, ◌&&◌, Option, none, some, List, [], ◌∷◌, ◌++◌,
  if◌then◌else◌, ◌==◌, ltb, update, length,
}

-- `echomsg_t`; the text without its NUL.
pub record EchoMsg : Type 0 where
  pub sender : ℕ
  pub msg : List ℕ

-- The channel of the server with the messages in it, the message that the server is answering, whether
-- it has stopped, the channel of each client, and the message that a client waits for an answer to.
pub record Service : Type 0 where
  pub server_pid : ℕ
  pub inbox : List EchoMsg
  pub answering : Option EchoMsg
  pub stopped : Bool
  pub replies : ℕ → Option (List EchoMsg)
  pub waiting : ℕ → Option (List ℕ)

abbrev pub server_capacity : ℕ
server_capacity = 8

abbrev pub client_capacity : ℕ
client_capacity = 1

abbrev pub is_empty : List ℕ → Bool
is_empty [] = true
is_empty (c ∷ cs) = false

-- `mc_put` on the channel of the server.
abbrev pub put_inbox : EchoMsg → Service → Option Service
put_inbox m s =
    if ltb (length s.inbox) server_capacity
    then some (record s { inbox = s.inbox ++ m ∷ [] })
    else none

-- The server: `mc_get`, and the test for the message that stops it.
abbrev pub got_message : EchoMsg → Service → Service
got_message m s =
    if m.sender == 0 && is_empty m.msg
    then record s { stopped = true }
    else record s { answering = some m }

abbrev pub get_inbox : List EchoMsg → Service → Option Service
get_inbox [] s = none
get_inbox (m ∷ inbox) s = some (got_message m (record s { inbox = inbox }))

unfoldable pub server_get : Service → Option Service
server_get s = get_inbox s.inbox s

-- The server: `mc_open` on the channel of the client and, if it is there, `mc_put` and `mc_close`.
abbrev pub answer : EchoMsg → Option (List EchoMsg) → Service → Option Service
answer m none s = some (record s { answering = none })
answer m (some q) s =
    if ltb (length q) client_capacity
    then some (record s {
      answering = none;
      replies =
          update s.replies m.sender
            (some (q ++ record { sender = s.server_pid; msg = m.msg } ∷ []));
    })
    else none

unfoldable pub server_reply : EchoMsg → Service → Option Service
server_reply m s = answer m (s.replies m.sender) s

-- A client: `mc_create` of its channel, `mc_put` of a line, `mc_get` of the answer, `mc_destroy`.
unfoldable pub client_start : (pid : ℕ) → Service → Service
client_start pid s = record s { replies = update s.replies pid (some []) }

unfoldable pub client_put : (pid : ℕ) (line : List ℕ) → Service → Option Service
client_put pid line s =
    put_inbox (record { sender = pid; msg = line })
      (record s { waiting = update s.waiting pid (some line) })

abbrev pub take_reply : (pid : ℕ) → Option (List EchoMsg) → Service → Option (Service × EchoMsg)
take_reply pid none s = none
take_reply pid (some []) s = none
take_reply pid (some (m ∷ q)) s =
    some
      (record s { replies = update s.replies pid (some q); waiting = update s.waiting pid none }, m)

unfoldable pub client_get : (pid : ℕ) → Service → Option (Service × EchoMsg)
client_get pid s = take_reply pid (s.replies pid) s

unfoldable pub client_end : (pid : ℕ) → Service → Service
client_end pid s = record s { replies = update s.replies pid none }

-- echo-term: the message that stops the server.
unfoldable pub term_put : Service → Option Service
term_put s = put_inbox (record { sender = 0; msg = [] }) s

-- The number of a process is not 0. A client has one line under way at most, since it waits for the
-- answer.
pub data Step (s : Service) : Service → Type 0 where
  receives :
      {t : Service} → s.stopped ≡ false → s.answering ≡ none → server_get s ≡ some t → Step s t
  replies_to :
      {t : Service} (m : EchoMsg) → s.answering ≡ some m → server_reply m s ≡ some t → Step s t
  starts :
      (pid : ℕ)
      → pid ≢ 0
      → s.replies pid ≡ none
      → s.waiting pid ≡ none
      → Step s (client_start pid s)
  sends :
      {t : Service} (pid : ℕ) (line : List ℕ)
      → pid ≢ 0
      → s.replies pid ≢ none
      → s.waiting pid ≡ none
      → client_put pid line s ≡ some t
      → Step s t
  gets : {t : Service} {m : EchoMsg} (pid : ℕ) → client_get pid s ≡ some (t, m) → Step s t
  finishes : (pid : ℕ) → s.replies pid ≢ none → s.waiting pid ≡ none → Step s (client_end pid s)
  terminates : {t : Service} → term_put s ≡ some t → Step s t

-- `mc_create` of the channel of the server.
abbrev pub start : (server_pid : ℕ) → Service
start server_pid = record {
  server_pid = server_pid;
  inbox = [];
  answering = none;
  stopped = false;
  replies = λ pid. none;
  waiting = λ pid. none;
}

pub data Reach (server_pid : ℕ) : Service → Type 0 where
  started : Reach server_pid (start server_pid)
  later : {s t : Service} → Reach server_pid s → Step s t → Reach server_pid t
