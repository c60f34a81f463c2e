-- ===== src/EchoServer.antt =====
-- The sessions of the echo servers with one client: 20-net-sockets/01-basic/echo-server.c, the
-- `process_connection` of 02-multithreaded and 03-thread-pool, and that of 22-ipc-uds. What `read` and
-- `write` give is the input of a session.
pub mod Basic
pub mod Buffer
pub mod Client
pub mod Epoll
pub mod Poll
pub mod Pool
pub mod Session
pub mod Setup
pub mod Threads
pub mod Uv
use so_2021v_li42d.Base.{
  ℕ, zero, suc, ◌+◌, ◌^◌, Bool, true, false, ◌&&◌, ◌||◌, not, List, [], ◌∷◌, ◌++◌, if◌then◌else◌,
  ◌==◌, ltb, leb, update, length,
}

-- The result of `read`: an error, or the bytes that it stored.
pub data Input : Type 0 where
  failed : Input
  received : List ℕ → Input

-- How a session ends. `overrun` is a store past the end of `buf`, `waiting` that no more input came.
pub data End : Type 0 where
  quit : End
  stop : End
  read_failed : End
  write_failed : End
  overrun : End
  waiting : End

-- A round of the loop ends the session or goes on with the buffer; it sends bytes.
pub data Round : Type 0 where
  ends : End → List ℕ → Round
  goes_on : (ℕ → ℕ) → List ℕ → Round

abbrev pub bufsize : ℕ
bufsize = 1024

-- The bytes that `read` stores from index `i` on, and `buf[len] = 0`.
unfoldable pub fill : (buf : ℕ → ℕ) (i : ℕ) → List ℕ → ℕ → ℕ
fill buf i [] = update buf i 0
fill buf i (b ∷ bytes) = fill (update buf i b) (i + 1) bytes

-- `buf[4] < ' '`, on a signed `char`.
unfoldable pub below_space : ℕ → Bool
below_space c = ltb c 32 || leb 128 c

-- `strncmp(buf, word, 4) == 0 && buf[4] < ' '`, for the characters from index `i` on.
unfoldable pub is_command : (word : List ℕ) (buf : ℕ → ℕ) (i : ℕ) → Bool
is_command [] buf i = below_space (buf i)
is_command (w ∷ word) buf i = buf i == w && is_command word buf (i + 1)

abbrev pub quit_word : List ℕ
quit_word = 113 ∷ 117 ∷ 105 ∷ 116 ∷ []

abbrev pub stop_word : List ℕ
stop_word = 115 ∷ 116 ∷ 111 ∷ 112 ∷ []

-- `n` bytes of the buffer from index `i` on.
unfoldable pub bytes_of : (buf : ℕ → ℕ) (i n : ℕ) → List ℕ
bytes_of buf i zero = []
bytes_of buf i (suc n) = buf i ∷ bytes_of buf (i + 1) n

-- `strlen`, over at most `n` bytes.
unfoldable pub strlen : (buf : ℕ → ℕ) (i n : ℕ) → ℕ
strlen buf i zero = 0
strlen buf i (suc n) = let rest = strlen buf (i + 1) n in if buf i == 0 then 0 else suc rest

-- The tests after the write.
unfoldable pub after_write : (buf : ℕ → ℕ) (sent : List ℕ) → Round
after_write buf sent =
    if is_command quit_word buf 0
    then ends quit sent
    else if is_command stop_word buf 0
    then ends stop sent
    else goes_on buf sent

-- 01-basic: the bytes received are written back. `wrote` tells whether `write` succeeds.
unfoldable pub basic_round : (buf : ℕ → ℕ) → Input → (wrote : Bool) → Round
basic_round buf failed wrote = ends read_failed []
basic_round buf (received bytes) wrote =
    if ltb (length bytes) bufsize
    then (let buf = fill buf 0 bytes in
        if wrote then after_write buf (bytes_of buf 0 (length bytes)) else ends write_failed [])
    else ends overrun []

-- 02-multithreaded and 03-thread-pool: the string in the buffer is written back.
unfoldable pub process_connection : (buf : ℕ → ℕ) → Input → (wrote : Bool) → Round
process_connection buf failed wrote = ends read_failed []
process_connection buf (received bytes) wrote =
    if ltb (length bytes) bufsize
    then (let buf = fill buf 0 bytes in
        if wrote
        then after_write buf (bytes_of buf 0 (strlen buf 0 (length bytes)))
        else ends write_failed [])
    else ends overrun []

-- 22-ipc-uds: the string with its terminator is written back, unless the client left or quits.
unfoldable pub process_local_connection : (buf : ℕ → ℕ) → Input → (wrote : Bool) → Round
process_local_connection buf failed wrote = ends read_failed []
process_local_connection buf (received bytes) wrote =
    if ltb (length bytes) bufsize
    then (let buf = fill buf 0 bytes in
        if length bytes == 0 || is_command quit_word buf 0
        then ends quit []
        else if wrote
        then (let sent = bytes_of buf 0 (suc (strlen buf 0 (length bytes))) in
            if is_command stop_word buf 0 then ends stop sent else goes_on buf sent)
        else ends write_failed [])
    else ends overrun []

-- What follows a round: the end, or the rest of the session.
abbrev pub proceed : Round → (rest : (ℕ → ℕ) → End × List ℕ) → End × List ℕ
proceed (ends e sent) rest = (e, sent)
proceed (goes_on buf sent) rest = ((rest buf).0, sent ++ (rest buf).1)

-- The loop of a session, over the results of its calls of `read` and `write`.
unfoldable pub session :
    (round : (ℕ → ℕ) → Input → Bool → Round) → (buf : ℕ → ℕ) → List (Input × Bool) → End × List ℕ
session round buf [] = (waiting, [])
session round buf ((input, wrote) ∷ inputs) =
    proceed (round buf input wrote) (λ buf'. session round buf' inputs)
