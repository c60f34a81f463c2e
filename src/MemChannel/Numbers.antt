-- ===== src/MemChannel/Numbers.antt =====
-- The programs 19-ipc/test_memchannel_srv.c and test_memchannel_cli.c: clients put numbers in a channel,
-- and the server prints them up to the first 0. Any number of clients runs with the server, each with the
-- number from its arguments; they may come in between the steps of `mc_put` and of `mc_get`.
pub mod Printed
use so_2021v_li42d.Base.{
  ℕ, ◌+◌, ◌-◌, ◌*◌, ◌/◌, ◌%◌, ◌^◌, ◌<◌, ◌≡◌, Bool, true, false, some, List, [], ◌∷◌, ◌++◌, ◌==◌,
  update,
}
use so_2021v_li42d.MemChannel.{MemChannel, mc_create, mc_put_store, mc_get_fetch}
use so_2021v_li42d.MemChannel.Traffic.{System, Step, start}

abbrev pub mc_capacity : ℕ
mc_capacity = 8

-- `sizeof (int)`
abbrev pub mc_elem_size : ℕ
mc_elem_size = 4

-- The bytes of an `int`, and the word that four bytes are.
unfoldable pub int_bytes : ℕ → ℕ → ℕ
int_bytes val k = val / 256 ^ k % 256

unfoldable pub int_of : (ℕ → ℕ) → ℕ
int_of b = b 0 + 256 * b 1 + 65536 * b 2 + 16777216 * b 3

-- The channel and its users, the numbers put so far by their order, and what the server has printed.
pub record Numbers : Type 0 where
  pub sys : System
  pub vals : ℕ → ℕ
  pub printed : List ℕ
  pub ended : Bool

-- The stretch of `mc_put(mc, &val)` under the lock, in a client.
abbrev pub client_puts : (val : ℕ) → Numbers → Numbers
client_puts val s = record s {
  sys = record s.sys {
    chan = mc_put_store (int_bytes val) s.sys.chan;
    putting = s.sys.putting - 1;
    stored = s.sys.stored + 1;
    puts = s.sys.puts + 1;
    sent = update s.sys.sent s.sys.puts (int_bytes val);
  };
  vals = update s.vals s.sys.puts val;
}

-- The stretch of `mc_get(mc, &val)` under the lock, and the rest of the round of the server; `garbage` is
-- what the bytes of `val` were.
abbrev pub server_gets : (garbage : ℕ → ℕ) → Numbers → Numbers
server_gets garbage s =
    let (chan, item) = mc_get_fetch garbage s.sys.chan in
    record {
      sys = record s.sys {
        chan = chan;
        getting = s.sys.getting - 1;
        fetched = s.sys.fetched + 1;
        gets = s.sys.gets + 1;
        received = update s.sys.received s.sys.gets item;
      };
      vals = s.vals;
      printed = s.printed ++ int_of item ∷ [];
      ended = int_of item == 0;
    }

pub data NumbersStep (s : Numbers) : Numbers → Type 0 where
  puts_number : (val : ℕ) → val < 2 ^ 32 → 0 < s.sys.putting → NumbersStep s (client_puts val s)
  gets_number :
      (garbage : ℕ → ℕ)
      → s.ended ≡ false
      → 0 < s.sys.getting
      → NumbersStep s (server_gets garbage s)
  -- a wait on a semaphore, or a post
  passes :
      {t : System}
      → Step s.sys t
      → t.puts ≡ s.sys.puts
      → t.gets ≡ s.sys.gets
      → NumbersStep s (record s { sys = t })

pub data NumbersReach (mc : MemChannel) : Numbers → Type 0 where
  numbers_started :
      NumbersReach mc (record { sys = start mc; vals = λ i. 0; printed = []; ended = false })
  numbers_later : {s t : Numbers} → NumbersReach mc s → NumbersStep s t → NumbersReach mc t
