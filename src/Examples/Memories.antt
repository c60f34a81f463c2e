-- ===== src/Examples/Memories.antt =====
-- The theorems on the libuv server, on the named blocks and on the message service at concrete runs.
use so_2021v_li42d.Base.{◌≡◌, ◌↔◌, ◌<◌, refl, true, false, none, some, [], ◌∷◌, arith, update}
use so_2021v_li42d.Base.Int.{pos, negsuc}
use so_2021v_li42d.EchoServer.Uv
use so_2021v_li42d.EchoServer.Uv.{on_new_connection, on_read, on_close, alloc_buffer, Loop}
use so_2021v_li42d.EchoServer.Uv.Blocks.{Owned, unused_on, Reach-Owned, Reach-leak}
use so_2021v_li42d.MessageService
use so_2021v_li42d.MessageService.{
  EchoMsg, Service, server_get, server_reply, client_start, client_put, client_get, receives,
  replies_to, starts, sends,
}
use so_2021v_li42d.MessageService.Replies.{Reach-own}
use so_2021v_li42d.SharedMemory.{Memory, Answers, shmem_internal_map, shmem_create}
use so_2021v_li42d.SharedMemory.Laws.{Creates, shmem_create-Creates}
use so_2021v_li42d.SharedMemory.Programs
use so_2021v_li42d.SharedMemory.Programs.Handing.{shm_rd-wr}

-- A client connects at address 1, reads to the end of the stream into the buffer at 2, and is closed.
abbrev connected : Loop
connected = record Uv.start {
  memory = (on_new_connection 1 (pos 0) true Uv.start.memory).0;
  handles = record { address = 1; closing = false } ∷ [];
}

abbrev at_end : Loop
at_end = record connected {
  memory = (on_read 3 2 64 (negsuc 0) (alloc_buffer 2 connected.memory)).0;
  handles = record { address = 1; closing = true } ∷ [];
  unused = 2 ∷ [];
}

abbrev gone : Loop
gone = record at_end { memory = on_close 1 at_end.memory; handles = [] }

reach_gone : Uv.Reach gone
unfolding on_new_connection on_read on_close alloc_buffer
reach_gone =
    Uv.later
      (Uv.later (Uv.later Uv.started (Uv.connects 1 (pos 0) true refl refl)) (
        Uv.reads [] [] (record { address = 1; closing = false }) 2 64 3 (negsuc 0) refl refl refl
          refl refl))
      (Uv.closes [] [] (record { address = 1; closing = true }) refl refl)

Reach-Owned_example : Owned gone
Reach-Owned_example = Reach-Owned reach_gone

Reach-leak_example : (gone.memory.allocated 2 ≡ true) ↔ (0 < unused_on gone 2)
Reach-leak_example = Reach-leak reach_gone refl refl 2

-- A block with the name 7 of 16 bytes.
abbrev ready : Answers
ready = record {
  opens = true;
  truncates = true;
  stats = true;
  maps_it = true;
  block = 4;
  address = 100;
}

abbrev ready2 : Answers
ready2 = record ready { address = 200 }

abbrev no_blocks : Memory
no_blocks = record { names = λ n. none; sizes = λ b. 0; maps = λ p. none; open_fds = 3 }

shmem_create-Creates_example :
    Creates (7 ∷ []) 16 no_blocks (shmem_create ready (7 ∷ []) 16 no_blocks)
shmem_create-Creates_example = shmem_create-Creates ready (7 ∷ []) 16 no_blocks

-- The programs of 10-mmap, one after the other.
abbrev empty_world : Programs.World
empty_world = record { memory = no_blocks; bytes = λ b i. 5 }

shm_rd-wr_example :
    ((Programs.shm_rd ready2 (Programs.shm_wr ready empty_world).0).1 ≡ some Programs.greeting)
    × ((Programs.shm_rd ready2 (Programs.shm_wr ready empty_world).0).2 ≡ 0)
    × ((Programs.shm_wr ready2 (Programs.shm_wr ready empty_world).0).1 ≡ 1)
unfolding Programs.shm_wr shmem_internal_map
shm_rd-wr_example = shm_rd-wr ready ready2 ready2 empty_world refl refl refl refl

-- The client 5 sends a line to the server 9, which answers it.
abbrev line : EchoMsg
line = record { sender = 5; msg = 72 ∷ 73 ∷ [] }

abbrev reply : EchoMsg
reply = record { sender = 9; msg = 72 ∷ 73 ∷ [] }

abbrev client_there : Service
client_there = client_start 5 (MessageService.start 9)

abbrev line_sent : Service
line_sent = record client_there {
  inbox = line ∷ [];
  waiting = update client_there.waiting 5 (some line.msg);
}

abbrev line_read : Service
line_read = record line_sent { inbox = []; answering = some line }

abbrev line_answered : Service
line_answered = record line_read {
  answering = none;
  replies = update line_read.replies 5 (some (reply ∷ []));
}

abbrev reply_read : Service
reply_read = record line_answered {
  replies = update line_answered.replies 5 (some []);
  waiting = update line_answered.waiting 5 none;
}

reach_line_read : MessageService.Reach 9 line_read
unfolding client_start client_put server_get
reach_line_read =
    MessageService.later
      (MessageService.later
        (MessageService.later MessageService.started (starts 5 (ground arith) refl refl))
        (sends 5 line.msg (ground arith) (λ e. cc e) refl refl))
      (receives refl refl refl)

reach_line_answered : MessageService.Reach 9 line_answered
unfolding client_start server_reply
reach_line_answered = MessageService.later reach_line_read (replies_to line refl refl)

Reach-own_example : line_answered.waiting 5 ≡ some reply.msg
unfolding client_start client_get
Reach-own_example = Reach-own {pid = 5} {t = reply_read} {m = reply} reach_line_answered refl
