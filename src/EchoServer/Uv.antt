-- ===== src/EchoServer/Uv.antt =====
-- The callbacks of 21-async/03-libuv/echo-server.c and the memory that they allocate and free. libuv is
-- not modelled: a step is a callback that it makes, under the conditions that its manual gives, and
-- what a callback asks of it is an `Order`. `malloc` gives an address that is not in use.
pub mod Blocks
pub mod Echo
use so_2021v_li42d.Base.{
  ℕ, zero, suc, ◌+◌, ◌≤◌, ◌≡◌, Bool, true, false, Option, none, some, List, [], ◌∷◌, ◌++◌,
  if◌then◌else◌, ◌==◌, update,
}
use so_2021v_li42d.Base.Int.{ℤ, pos, negsuc}

-- Which addresses are allocated, how many calls of `free` were on one that is not, and how many stores
-- past the end of a buffer.
pub record Memory : Type 0 where
  pub allocated : ℕ → Bool
  pub bad_frees : ℕ
  pub overruns : ℕ

abbrev pub malloc : ℕ → Memory → Memory
malloc p m = record m { allocated = update m.allocated p true }

abbrev pub free : ℕ → Memory → Memory
free p m = record m {
  allocated = update m.allocated p false;
  bad_frees = if m.allocated p then m.bad_frees else m.bad_frees + 1;
}

-- A request that is under way, with the buffer that it writes and how many of its bytes.
pub record WriteReq : Type 0 where
  pub req : ℕ
  pub base : ℕ
  pub len : ℕ

-- What a callback asks of libuv.
pub data Order : Type 0 where
  uv_write : WriteReq → Order
  uv_close : Order
  uv_read_start : Order
  nothing : Order

unfoldable pub alloc_buffer : (base : ℕ) → Memory → Memory
alloc_buffer base m = malloc base m

unfoldable pub free_write_req : WriteReq → Memory → Memory
free_write_req wreq m = free wreq.req (free wreq.base m)

unfoldable pub after_write : WriteReq → Memory → Memory
unfolding free_write_req
after_write wreq m = free_write_req wreq m

unfoldable pub on_close : (handle : ℕ) → Memory → Memory
on_close handle m = free handle m

-- `len` is the size of the buffer and `req` what `malloc` gives. The message is ended by a store at
-- index `nread`; the two kinds of negative `nread` only print different texts.
unfoldable pub on_read : (req base len : ℕ) (nread : ℤ) → Memory → Memory × Order
on_read req base len (pos zero) m = (m, nothing)
on_read req base len (pos (suc n)) m = (
  malloc req (record m { overruns = if suc n == len then m.overruns + 1 else m.overruns }),
  uv_write (record { req = req; base = base; len = suc n }),
)
on_read req base len (negsuc n) m = (m, uv_close)

-- `client` is what `malloc` gives, and `accepts` the result of `uv_accept`.
unfoldable pub on_new_connection :
    (client : ℕ) (status : ℤ) (accepts : Bool) → Memory → Memory × Order
on_new_connection client (negsuc n) accepts m = (m, nothing)
on_new_connection client (pos n) true m = (malloc client m, uv_read_start)
on_new_connection client (pos n) false m = (malloc client m, uv_close)

-- A handle that libuv has, and whether it is being closed.
pub record Handle : Type 0 where
  pub address : ℕ
  pub closing : Bool

-- The memory, what libuv has in hand, and the buffers of reads that came to nothing.
pub record Loop : Type 0 where
  pub memory : Memory
  pub handles : List Handle
  pub writes : List WriteReq
  pub unused : List ℕ

-- libuv obeys an order of a callback about the handle `address`, which it may have or not.
abbrev pub with_handle : ℕ → Order → List Handle → List Handle
with_handle address uv_read_start hs = record { address = address; closing = false } ∷ hs
with_handle address uv_close hs = record { address = address; closing = true } ∷ hs
with_handle address _ hs = hs

abbrev pub with_write : Order → List WriteReq → List WriteReq
with_write (uv_write wreq) ws = wreq ∷ ws
with_write _ ws = ws

-- A handle whose read was handed over stays as it is unless the callback closes it.
abbrev pub after_read : Order → Handle → Handle
after_read uv_close h = record h { closing = true }
after_read _ h = h

-- A buffer that is not handed on to a write.
abbrev pub left_over : ℕ → Order → List ℕ → List ℕ
left_over base (uv_write wreq) bs = bs
left_over base _ bs = base ∷ bs

pub data Step (s : Loop) : Loop → Type 0 where
  connects :
      (client : ℕ) (status : ℤ) (accepts : Bool) {m : Memory} {o : Order}
      → s.memory.allocated client ≡ false
      → on_new_connection client status accepts s.memory ≡ (m, o)
      → Step s (record s { memory = m; handles = with_handle client o s.handles })
  -- a read on a handle that is not closing: `alloc_buffer`, then `on_read`
  reads :
      (before after : List Handle) (h : Handle) (base len req : ℕ) (nread : ℤ) {m : Memory}
      {o : Order}
      → s.handles ≡ before ++ h ∷ after
      → h.closing ≡ false
      → s.memory.allocated base ≡ false
      → (alloc_buffer base s.memory).allocated req ≡ false
      → on_read req base len nread (alloc_buffer base s.memory) ≡ (m, o)
      → Step s (record s {
        memory = m;
        handles = before ++ after_read o h ∷ after;
        writes = with_write o s.writes;
        unused = left_over base o s.unused;
      })
  -- a write has ended, well or not
  wrote :
      (before after : List WriteReq) (wreq : WriteReq)
      → s.writes ≡ before ++ wreq ∷ after
      → Step s (record s { memory = after_write wreq s.memory; writes = before ++ after })
  closes :
      (before after : List Handle) (h : Handle)
      → s.handles ≡ before ++ h ∷ after
      → h.closing ≡ true
      → Step s (record s { memory = on_close h.address s.memory; handles = before ++ after })

abbrev pub start : Loop
start = record {
  memory = record { allocated = λ p. false; bad_frees = 0; overruns = 0 };
  handles = [];
  writes = [];
  unused = [];
}

abbrev pub is_error : ℤ → Bool
is_error (pos zero) = false
is_error _ = true

-- `prepare_server` and the part of `main` before `uv_run`, with the results of `uv_tcp_bind` and of
-- `uv_listen`; `none` when the process exits.
unfoldable pub prepare_server : (bind_res listen_res : ℤ) → Option Loop
prepare_server bind_res listen_res =
    if is_error bind_res then none else if is_error listen_res then none else some start

pub data Reach : Loop → Type 0 where
  started : Reach start
  later : {s t : Loop} → Reach s → Step s t → Reach t
