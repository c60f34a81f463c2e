-- ===== src/EchoServer/Session.antt =====
-- The sessions of the echo servers against what they do with the bytes of each read, with no buffer.
use so_2021v_li42d.Base.{
  ℕ, zero, suc, ◌≡◌, refl, ap, ◌∙◌, Bool, true, false, ◌||◌, Option, some, none, List, [], ◌∷◌,
  ◌++◌, if◌then◌else◌, ◌==◌, ltb, length, arith,
}
use so_2021v_li42d.EchoServer.{
  Input, failed, received, End, quit, stop, read_failed, write_failed, overrun, waiting, Round,
  ends, goes_on, fill, is_command, quit_word, stop_word, after_write, basic_round,
  process_connection, process_local_connection, session, proceed, bufsize,
}
use so_2021v_li42d.EchoServer.Buffer.{
  says, is_command-says, bytes_of-fill, before_nul, strlen-fill, terminated-fill,
}

-- What a round comes to: its end, if it ends the session, and the bytes that it sends.
abbrev pub Result : Type 0
Result = Option End × List ℕ

abbrev erase : Round → Result
erase (ends e sent) = (some e, sent)
erase (goes_on buf sent) = (none, sent)

abbrev pub follow : Result → (rest : End × List ℕ) → End × List ℕ
follow (some e, sent) rest = (e, sent)
follow (none, sent) rest = (rest.0, sent ++ rest.1)

-- A session whose rounds are given by what they come to.
abbrev pub spec_session : (spec : Input → Bool → Result) → List (Input × Bool) → End × List ℕ
spec_session spec [] = (waiting, [])
spec_session spec ((input, wrote) ∷ inputs) = follow (spec input wrote) (spec_session spec inputs)

proceed-follow :
    (r : Round) (rest : (ℕ → ℕ) → End × List ℕ) (later : End × List ℕ)
    → ((buf : ℕ → ℕ) → rest buf ≡ later)
    → proceed r rest ≡ follow (erase r) later
proceed-follow (ends e sent) rest later same = refl
proceed-follow (goes_on buf sent) rest later same = ap (λ l. (l.0, sent ++ l.1)) (same buf)

session-follow :
    (round : (ℕ → ℕ) → Input → Bool → Round) (spec : Input → Bool → Result)
    → ((buf : ℕ → ℕ) (input : Input) (wrote : Bool)
        → erase (round buf input wrote) ≡ spec input wrote)
    → (buf : ℕ → ℕ) (inputs : List (Input × Bool))
    → session round buf inputs ≡ spec_session spec inputs
unfolding session
session-follow round spec meets buf [] = refl
session-follow round spec meets buf ((input, wrote) ∷ inputs) =
    proceed-follow (round buf input wrote) (λ b. session round b inputs) (spec_session spec inputs)
      (λ b. session-follow round spec meets b inputs)
    ∙ ap (λ r. follow r (spec_session spec inputs)) (meets buf input wrote)

-- The end of a round that has echoed.
abbrev pub after : (bytes sent : List ℕ) → Result
after bytes sent =
    if says quit_word bytes
    then (some quit, sent)
    else if says stop_word bytes
    then (some stop, sent)
    else (none, sent)

-- The round of the servers that echo first; `echo` is what they send of the bytes read.
abbrev pub echo_spec : (echo : List ℕ → List ℕ) → Input → Bool → Result
echo_spec echo failed wrote = (some read_failed, [])
echo_spec echo (received bytes) wrote =
    if ltb (length bytes) bufsize
    then (if wrote then after bytes (echo bytes) else (some write_failed, []))
    else (some overrun, [])

-- The round of the server for local sockets.
abbrev pub local_spec : Input → Bool → Result
local_spec failed wrote = (some read_failed, [])
local_spec (received bytes) wrote =
    if ltb (length bytes) bufsize
    then (if length bytes == 0 || says quit_word bytes
        then (some quit, [])
        else if wrote
        then (if says stop_word bytes
            then (some stop, before_nul bytes ++ 0 ∷ [])
            else (none, before_nul bytes ++ 0 ∷ []))
        else (some write_failed, []))
    else (some overrun, [])

quit_word-says :
    (buf : ℕ → ℕ) (bytes : List ℕ)
    → is_command quit_word (fill buf 0 bytes) 0 ≡ says quit_word bytes
quit_word-says buf bytes =
    is_command-says quit_word buf 0 bytes
      (omega arith, (omega arith, (omega arith, (omega arith, tt))))

stop_word-says :
    (buf : ℕ → ℕ) (bytes : List ℕ)
    → is_command stop_word (fill buf 0 bytes) 0 ≡ says stop_word bytes
stop_word-says buf bytes =
    is_command-says stop_word buf 0 bytes
      (omega arith, (omega arith, (omega arith, (omega arith, tt))))

erase_if : (b : Bool) (x y : Round) → erase (if b then x else y) ≡ (if b then erase x else erase y)
erase_if true x y = refl
erase_if false x y = refl

after_write-after :
    (buf : ℕ → ℕ) (bytes sent : List ℕ)
    → erase (after_write (fill buf 0 bytes) sent) ≡ after bytes sent
unfolding after_write
after_write-after buf bytes sent =
    rw
      (
        quit_word-says buf bytes,
        stop_word-says buf bytes,
        erase_if (says quit_word bytes) _ _,
        erase_if (says stop_word bytes) _ _,
      )
      refl

basic_round-echo :
    (buf : ℕ → ℕ) (input : Input) (wrote : Bool)
    → erase (basic_round buf input wrote) ≡ echo_spec (λ bytes. bytes) input wrote
unfolding basic_round
basic_round-echo buf failed wrote = refl
basic_round-echo buf (received bytes) wrote =
    rw
      (
        bytes_of-fill buf 0 bytes,
        erase_if (ltb (length bytes) bufsize) _ _,
        erase_if wrote _ _,
        after_write-after buf bytes bytes,
      )
      refl

-- A session of 20-net-sockets/01-basic sends back the bytes of every read, all of them, until a read
-- says `quit` or `stop`, fails, or fills the whole buffer; the rest of the buffer has no influence.
pub basic_session-echoes :
    (buf : ℕ → ℕ) (inputs : List (Input × Bool))
    → session basic_round buf inputs ≡ spec_session (echo_spec (λ bytes. bytes)) inputs
basic_session-echoes = session-follow basic_round (echo_spec (λ bytes. bytes)) basic_round-echo

process_connection-echo :
    (buf : ℕ → ℕ) (input : Input) (wrote : Bool)
    → erase (process_connection buf input wrote) ≡ echo_spec before_nul input wrote
unfolding process_connection
process_connection-echo buf failed wrote = refl
process_connection-echo buf (received bytes) wrote =
    rw
      (
        strlen-fill buf 0 bytes,
        erase_if (ltb (length bytes) bufsize) _ _,
        erase_if wrote _ _,
        after_write-after buf bytes (before_nul bytes),
      )
      refl

-- A session of 02-multithreaded or 03-thread-pool sends back of every read the bytes before its first
-- NUL, until a read says `quit` or `stop`, fails, or fills the whole buffer.
pub process_connection-echoes :
    (buf : ℕ → ℕ) (inputs : List (Input × Bool))
    → session process_connection buf inputs ≡ spec_session (echo_spec before_nul) inputs
process_connection-echoes =
    session-follow process_connection (echo_spec before_nul) process_connection-echo

process_local_connection-local :
    (buf : ℕ → ℕ) (input : Input) (wrote : Bool)
    → erase (process_local_connection buf input wrote) ≡ local_spec input wrote
unfolding process_local_connection
process_local_connection-local buf failed wrote = refl
process_local_connection-local buf (received bytes) wrote =
    rw
      (
        terminated-fill buf 0 bytes,
        quit_word-says buf bytes,
        stop_word-says buf bytes,
        erase_if (ltb (length bytes) bufsize) _ _,
        erase_if (length bytes == 0 || says quit_word bytes) _ _,
        erase_if wrote _ _,
        erase_if (says stop_word bytes) _ _,
      )
      refl

-- A session of 22-ipc-uds sends back of every read the bytes before its first NUL, with a NUL behind
-- them, until a read says `quit` or `stop`, gets no byte, fails, or fills the whole buffer; to `quit`
-- it sends no answer.
pub process_local_connection-echoes :
    (buf : ℕ → ℕ) (inputs : List (Input × Bool))
    → session process_local_connection buf inputs ≡ spec_session local_spec inputs
process_local_connection-echoes =
    session-follow process_local_connection local_spec process_local_connection-local

-- `n` reads in a row that get no byte, as `read` does from a connection that the client has closed.
abbrev pub end_of_file : ℕ → List (Input × Bool)
end_of_file zero = []
end_of_file (suc n) = (received [], true) ∷ end_of_file n

spec_spins :
    (echo : List ℕ → List ℕ)
    → echo [] ≡ []
    → (n : ℕ) → spec_session (echo_spec echo) (end_of_file n) ≡ (waiting, [])
spec_spins echo e zero = refl
spec_spins echo e (suc n) = rw (e, spec_spins echo e n) refl

-- When the client closes the connection without a command, the sessions of 01-basic, 02-multithreaded
-- and 03-thread-pool go on for ever: after any number of reads at the end of the stream they read
-- again. The session of 22-ipc-uds ends at the first one.
pub end_of_file-session :
    (buf : ℕ → ℕ) (n : ℕ)
    → (session basic_round buf (end_of_file n) ≡ (waiting, []))
      × (session process_connection buf (end_of_file n) ≡ (waiting, []))
      × (session process_local_connection buf (end_of_file (suc n)) ≡ (quit, []))
end_of_file-session buf n = (
  basic_session-echoes buf (end_of_file n) ∙ spec_spins (λ bytes. bytes) refl n,
  process_connection-echoes buf (end_of_file n) ∙ spec_spins before_nul refl n,
  process_local_connection-echoes buf (end_of_file (suc n)),
)
