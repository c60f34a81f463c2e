-- ===== src/EchoServer/Poll.antt =====
-- The loop over the clients in 21-async/01-poll/echo-server.c, after a call of `poll`. The list has
-- the entries of the array `clients` from index `i` up to `nclients`, so that its first one is the
-- entry that is looked at. A negative `nready` counts as 0.
pub mod Clients
pub mod Descriptors
pub mod Rounds
pub mod Serve
pub mod Server
use so_2021v_li42d.Base.{
  ℕ, zero, suc, Bool, true, false, ◌&&◌, ◌||◌, not, Option, some, none, List, [], ◌∷◌, length,
  if◌then◌else◌, ◌==◌,
}
use so_2021v_li42d.Posix.{Os, is_connection, called, close}
use so_2021v_li42d.EchoServer.{Input, failed, received, fill, is_command, quit_word}

pub record Client : Type 0 where
  pub fd : ℕ
  pub revents : ℕ

-- What one ready client comes to: `read` or `write` fails and the process exits, the client stays, or
-- it is closed.
pub data Visit : Type 0 where
  read_fails : Visit
  write_fails : Visit
  stays : (ℕ → ℕ) → Visit
  closes : (ℕ → ℕ) → Visit

-- A read of `BUFSIZE` bytes makes `buf[len] = 0` a store to the byte behind the array; that byte is
-- taken to belong to no other variable, so that the loop goes on.
unfoldable pub serve_client : (buf : ℕ → ℕ) → Input → (wrote : Bool) → Visit
serve_client buf failed wrote = read_fails
serve_client buf (received bytes) wrote =
    let buf = fill buf 0 bytes in
    if not (length bytes == 0) && not wrote
    then write_fails
    else if length bytes == 0 || is_command quit_word buf 0
    then closes buf
    else stays buf

abbrev pub last_of : Client → List Client → Client
last_of c [] = c
last_of c (d ∷ cs) = last_of d cs

abbrev pub before_last : Client → List Client → List Client
before_last c [] = []
before_last c (d ∷ cs) = c ∷ before_last d cs

-- `clients[i] = clients[--nclients]`, for the entries behind the one that is closed.
unfoldable pub move_last : List Client → List Client
move_last [] = []
move_last (c ∷ cs) = last_of c cs ∷ before_last c cs

-- The clients that are left, those that were read from, in order, the descriptors and the buffer.
pub record Pass : Type 0 where
  pub left : List Client
  pub seen : List Client
  pub os : Os
  pub buf : ℕ → ℕ

-- What the loop comes to: it ends, or the process exits with the clients in the array and the
-- descriptors, of which it has closed one if `read` failed, or the fuel is used up.
pub data Rest : Type 0 where
  passes : Pass → Rest
  quits : (closed_fd : Option ℕ) → List Client → Os → Rest
  unended : Rest

abbrev pub keep : Client → Rest → Rest
keep c (passes p) = passes (record p { left = c ∷ p.left })
keep c (quits closed_fd left os) = quits closed_fd (c ∷ left) os
keep c unended = unended

abbrev pub visited : Client → Rest → Rest
visited c (passes p) = passes (record p { seen = c ∷ p.seen })
visited c (quits closed_fd left os) = quits closed_fd left os
visited c unended = unended

-- The calls of `read` and `write` for a client, counted as one.
abbrev pub touch : ℕ → Os → Os
touch fd os = called (is_connection (os.files fd)) os

abbrev pub go_on :
    Client → List Client → Os → Visit → (rest : Os → (ℕ → ℕ) → List Client → Rest) → Rest
go_on c cs os read_fails rest = quits (some c.fd) (c ∷ cs) (close c.fd os)
go_on c cs os write_fails rest = quits none (c ∷ cs) os
go_on c cs os (stays buf) rest = keep c (visited c (rest os buf cs))
go_on c cs os (closes buf) rest = visited c (rest (close c.fd os) buf (move_last cs))

-- The loop, with fuel; `act` gives what `read` and `write` give on a descriptor.
unfoldable pub serve_clients :
    (act : ℕ → Input × Bool) → (fuel : ℕ) (os : Os) (buf : ℕ → ℕ) (nready : ℕ) → List Client → Rest
serve_clients act zero os buf nready clients = unended
serve_clients act (suc fuel) os buf nready [] =
    passes (record { left = []; seen = []; os = os; buf = buf })
serve_clients act (suc fuel) os buf zero (c ∷ cs) =
    passes (record { left = c ∷ cs; seen = []; os = os; buf = buf })
serve_clients act (suc fuel) os buf (suc n) (c ∷ cs) =
    if c.revents == 0
    then keep c (serve_clients act fuel os buf (suc n) cs)
    else go_on c cs (touch c.fd os) (serve_client buf (act c.fd).0 (act c.fd).1)
        (λ os' buf' cs'. serve_clients act fuel os' buf' n cs')
