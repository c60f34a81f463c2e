-- ===== src/EchoServer/Uv/Echo.antt =====
-- The bytes that the server of 21-async/03-libuv sends back. `bytes` is what the buffers hold; for each
-- request of a write `streams` has the stream that it was made for. The writes of a stream
-- are done one after the other, as the manual of libuv says, and here they all succeed.
pub mod Returns
use mathlib.Core.Path.{subst}
use mathlib.Core.List.{append-nil, append_assoc}
use so_2021v_li42d.Base.{
  ℕ, zero, suc, ◌+◌, ◌≤◌, ◌≡◌, refl, ap, sym, ◌∙◌, Bool, true, false, none, some, List, [], ◌∷◌,
  ◌++◌, if◌then◌else◌, ◌==◌, update, update_self, ==_iff, length, count, arith, Bool-cases, inl,
  inr,
}
use so_2021v_li42d.Base.Int.{ℤ, pos}
use so_2021v_li42d.EchoServer.{fill, bytes_of}
use so_2021v_li42d.EchoServer.Buffer.{bytes_of-fill}
use so_2021v_li42d.EchoServer.Uv.{
  WriteReq, Order, uv_write, alloc_buffer, after_write, on_read, Handle, Loop, with_write,
  after_read, left_over, Step, reads, wrote, start, prepare_server,
}
use so_2021v_li42d.EchoServer.Uv.Blocks.{Owned, Step-Owned, owners, bases_on, reqs_on}

pub record Echo : Type 0 where
  pub loop : Loop
  pub bytes : ℕ → ℕ → ℕ
  pub streams : ℕ → ℕ
  pub got : ℕ → List ℕ
  pub sent : ℕ → List ℕ

-- The bytes of a write.
abbrev pub text_of : (bytes : ℕ → ℕ → ℕ) → WriteReq → List ℕ
text_of bytes w = bytes_of (bytes w.base) 0 w.len

-- What the server has read from a stream, as the system puts it in the buffer that libuv has asked for.
abbrev pub after_reading : Echo → Loop → (stream base req : ℕ) → List ℕ → Echo
after_reading s loop stream base req text = record {
  loop = loop;
  bytes = update s.bytes base (fill (s.bytes base) 0 text);
  streams = update s.streams req stream;
  got = update s.got stream (s.got stream ++ text);
  sent = s.sent;
}

abbrev pub after_writing : Echo → Loop → WriteReq → Echo
after_writing s loop w = record s {
  loop = loop;
  sent = update s.sent (s.streams w.req) (s.sent (s.streams w.req) ++ text_of s.bytes w);
}

abbrev pub read_loop : Loop → (before after : List Handle) → Handle → (base req len n : ℕ) → Loop
read_loop s before after h base req len n =
    let r = on_read req base len (pos (suc n)) (alloc_buffer base s.memory) in
    record s {
      memory = r.0;
      handles = before ++ after_read r.1 h ∷ after;
      writes = with_write r.1 s.writes;
      unused = left_over base r.1 s.unused;
    }

pub data EchoStep (s : Echo) : Echo → Type 0 where
  reads_text :
      (before after : List Handle) (h : Handle) (base req len b : ℕ) (text : List ℕ)
      → s.loop.handles ≡ before ++ h ∷ after
      → h.closing ≡ false
      → s.loop.memory.allocated base ≡ false
      → (alloc_buffer base s.loop.memory).allocated req ≡ false
      → EchoStep s (
          after_reading s
            (read_loop s.loop before after h base req len (length text))
            h.address
            base
            req
            (b ∷ text))
  -- the oldest write of its stream
  writes_text :
      (before after : List WriteReq) (w : WriteReq)
      → s.loop.writes ≡ before ++ w ∷ after
      → count (λ x. s.streams x.req == s.streams w.req) after ≡ 0
      → EchoStep s (
          after_writing s
            (record s.loop { memory = after_write w s.loop.memory; writes = before ++ after })
            w)
  -- a callback that has to do with no byte
  silent :
      {t : Loop} → Step s.loop t → t.writes ≡ s.loop.writes → EchoStep s (record s { loop = t })

-- At the start no stream has got or sent a byte; what the memory holds does not matter.
pub data EchoReach : Echo → Type 0 where
  echo_started :
      (bytes : ℕ → ℕ → ℕ) (streams : ℕ → ℕ) (bind_res listen_res : ℤ) {loop : Loop}
      → prepare_server bind_res listen_res ≡ some loop
      → EchoReach
          (record { loop = loop; bytes = bytes; streams = streams; got = λ c. []; sent = λ c. [] })
  echo_later : {s t : Echo} → EchoReach s → EchoStep s t → EchoReach t

-- What is still to be written on a stream; the oldest write stands last.
abbrev pub unsent : (bytes : ℕ → ℕ → ℕ) (streams : ℕ → ℕ) (stream : ℕ) → List WriteReq → List ℕ
unsent bytes streams c [] = []
unsent bytes streams c (w ∷ ws) =
    unsent bytes streams c ws ++ (if streams w.req == c then text_of bytes w else [])
