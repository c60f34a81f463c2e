-- ===== src/Examples/Streams.antt =====
-- The libuv server with one client, whose first text is sent back and whose second one is under way.
use so_2021v_li42d.Base.{◌≡◌, refl, true, false, [], ◌∷◌, ◌++◌}
use so_2021v_li42d.Base.Int.{pos}
use so_2021v_li42d.EchoServer.{bytes_of, fill}
use so_2021v_li42d.EchoServer.Uv.{
  WriteReq, Handle, start, connects, after_write, on_read, on_new_connection, alloc_buffer,
  prepare_server,
}
use so_2021v_li42d.EchoServer.Uv.Echo.{
  Echo, after_reading, after_writing, read_loop, reads_text, writes_text, silent, EchoReach,
  echo_started, echo_later, unsent,
}
use so_2021v_li42d.EchoServer.Uv.Echo.Returns.{EchoReach-echoes}

abbrev quiet : Echo
quiet = record { loop = start; bytes = λ p i. 7; streams = λ p. 0; got = λ c. []; sent = λ c. [] }

abbrev client : Handle
client = record { address = 1; closing = false }

abbrev connected : Echo
connected = record quiet {
  loop = record start {
    memory = (on_new_connection 1 (pos 0) true start.memory).0;
    handles = client ∷ [];
  };
}

abbrev first_write : WriteReq
first_write = record { req = 3; base = 2; len = 2 }

abbrev second_write : WriteReq
second_write = record { req = 5; base = 4; len = 1 }

abbrev one_text : Echo
one_text =
    after_reading connected (read_loop connected.loop [] [] client 2 3 64 1) 1 2 3 (72 ∷ 73 ∷ [])

abbrev two_texts : Echo
two_texts = after_reading one_text (read_loop one_text.loop [] [] client 4 5 64 0) 1 4 5 (74 ∷ [])

abbrev answered : Echo
answered =
    after_writing two_texts
      (record two_texts.loop {
        memory = after_write first_write two_texts.loop.memory;
        writes = second_write ∷ [];
      })
      first_write

reach_answered : EchoReach answered
unfolding on_new_connection on_read alloc_buffer prepare_server
reach_answered =
    echo_later
      (echo_later
        (echo_later
          (echo_later (echo_started (λ p i. 7) (λ p. 0) (pos 0) (pos 0) refl)
            (silent (connects 1 (pos 0) true refl refl) refl))
          (reads_text [] [] client 2 3 64 72 (73 ∷ []) refl refl refl refl))
        (reads_text [] [] client 4 5 64 74 [] refl refl refl refl))
      (writes_text (second_write ∷ []) [] first_write refl refl)

EchoReach-echoes_example :
    answered.got 1
    ≡ answered.sent 1 ++ unsent answered.bytes answered.streams 1 answered.loop.writes
EchoReach-echoes_example = EchoReach-echoes reach_answered 1

answered_sent : answered.sent 1 ≡ 72 ∷ 73 ∷ []
unfolding bytes_of fill
answered_sent = refl
