-- ===== src/EchoServer/Client.antt =====
-- The loop of 22-ipc-uds/echo-client.c: a line of the terminal goes to the server, and what comes back
-- is shown. What `fgets`, `write` and `read` give is the input of the loop.
pub mod Process
pub mod Talk
use so_2021v_li42d.Base.{
  ℕ, zero, suc, ◌+◌, Bool, true, false, ◌||◌, Option, none, some, List, [], ◌∷◌, ◌++◌,
  if◌then◌else◌, ◌==◌, update, length,
}
use so_2021v_li42d.EchoServer.{Input, failed, received, fill, bytes_of, strlen}

-- `'\r'` and `'\n'`
abbrev pub is_line_end : ℕ → Bool
is_line_end c = c == 13 || c == 10

-- `while (len > 0 && ...) line[--len] = 0;`, with the length that is left.
unfoldable pub chomp : (line : ℕ → ℕ) (len : ℕ) → (ℕ → ℕ) × ℕ
chomp line zero = (line, 0)
chomp line (suc len) =
    let rest = chomp (update line len 0) len in
    if is_line_end (line len) then rest else (line, suc len)

-- The bytes that are written after `fgets` has stored `text`, with the NUL behind them.
unfoldable pub client_sends : (line : ℕ → ℕ) (text : List ℕ) → List ℕ
client_sends line text =
    let stored = fill line 0 text in
    let (line', len) = chomp stored (strlen stored 0 (length text)) in bytes_of line' 0 (suc len)

-- The string that `puts` shows of the bytes that `read` has stored.
unfoldable pub client_shows : (reply : ℕ → ℕ) (bytes : List ℕ) → List ℕ
client_shows reply bytes =
    let stored = fill reply 0 bytes in bytes_of stored 0 (strlen stored 0 (length bytes))

-- A round: the process exits, the server has left, a store goes far outside of `data`, or a text is
-- shown. A failed `read` gives a `dlen` that is not negative, since `size_t` has no sign.
pub data Reply : Type 0 where
  exits : Reply
  leaves : Reply
  overruns : Reply
  shows : List ℕ → Reply

unfoldable pub client_round :
    (line reply : ℕ → ℕ) → Option (List ℕ) → (wrote : Bool) → Input → Reply
client_round line reply none wrote input = exits
client_round line reply (some text) false input = exits
client_round line reply (some text) true failed = overruns
client_round line reply (some text) true (received []) = leaves
client_round line reply (some text) true (received (b ∷ bytes)) =
    shows (client_shows reply (b ∷ bytes))
