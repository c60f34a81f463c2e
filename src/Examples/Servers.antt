-- ===== src/Examples/Servers.antt =====
-- The theorems on the echo servers at concrete sessions: a client sends a text, then `quit`.
use so_2021v_li42d.Base.{
  refl, arith, ℕ, ◌≡◌, Bool, ◌==◌, if◌then◌else◌, true, some, ltb, List, [], ◌∷◌,
}
use so_2021v_li42d.EchoServer.{
  Input, received, quit, waiting, below_space, session, basic_round, process_connection,
  process_local_connection, fill, strlen, bytes_of,
}
use so_2021v_li42d.EchoServer.Session.{
  end_of_file, basic_session-echoes, process_connection-echoes, end_of_file-session,
}
use so_2021v_li42d.Posix.{closed, connection, stream, Os}
use so_2021v_li42d.EchoServer.Client.{chomp, client_sends, client_round, shows}
use so_2021v_li42d.EchoServer.Client.Talk.{client_round-echoes}
use so_2021v_li42d.EchoServer.Poll.{Client, serve_clients}
use so_2021v_li42d.EchoServer.Poll.Serve.{Calm, Served, serve_clients-Served}

-- The buffer held `stop` before.
abbrev old : ℕ → ℕ
old i =
    if i == 0
    then 115
    else if i == 1
    then 116
    else if i == 2
    then 111
    else if i == 3
    then 112
    else 0

abbrev bye : List ℕ
bye = 113 ∷ 117 ∷ 105 ∷ 116 ∷ 10 ∷ []

abbrev talk : List (Input × Bool)
talk = (received (72 ∷ 0 ∷ 73 ∷ []), true) ∷ (received bye, true) ∷ []

basic_session-echoes_example : session basic_round old talk ≡ (quit, 72 ∷ 0 ∷ 73 ∷ bye)
unfolding below_space
basic_session-echoes_example = basic_session-echoes old talk

process_connection-echoes_example : session process_connection old talk ≡ (quit, 72 ∷ bye)
unfolding below_space
process_connection-echoes_example = process_connection-echoes old talk

end_of_file-session_example :
    (session basic_round old (end_of_file 3) ≡ (waiting, []))
    × (session process_connection old (end_of_file 3) ≡ (waiting, []))
    × (session process_local_connection old (end_of_file 4) ≡ (quit, []))
end_of_file-session_example = end_of_file-session old 3

-- Three clients: the first has no event, the second leaves, and the third takes its place.
abbrev three : List Client
three =
    record { fd = 4; revents = 0 }
    ∷ record { fd = 5; revents = 1 }
    ∷ record { fd = 6; revents = 1 }
    ∷ []

abbrev said : ℕ → List ℕ
said fd = if fd == 5 then bye else 72 ∷ []

abbrev act : ℕ → Input × Bool
act fd = (received (said fd), true)

act-Calm : Calm act
act-Calm = record { bytes = said; reads = λ fd. refl; writes = λ fd. refl }

abbrev connected_three : Os
connected_three = record {
  files = λ fd. if ltb fd 4 then stream else if ltb fd 7 then connection else closed;
  time = 0;
  misuses = 0;
}

serve_clients-Served_example : Served act three (serve_clients act 4 connected_three old 2 three)
serve_clients-Served_example =
    serve_clients-Served act act-Calm 4 connected_three old 2 three (omega arith) refl

-- At the client of 22-ipc-uds the line `HI` is typed.
abbrev typed : List ℕ
typed = 72 ∷ 73 ∷ 13 ∷ 10 ∷ []

client_round-echoes_example :
    (session process_local_connection old ((received (client_sends old typed), true) ∷ [])
      ≡ (waiting, client_sends old typed))
    × (client_round old old (some typed) true (received (client_sends old typed))
        ≡ shows (72 ∷ 73 ∷ []))
unfolding client_sends chomp fill strlen bytes_of
client_round-echoes_example = client_round-echoes old old old typed (omega arith) refl refl
