-- ===== src/Examples/Channels.antt =====
-- The theorems on the channel of 19-ipc and the sums of 18-thread-pool/adder.c at concrete inputs.
use Prim.Native.Nat.{◌∣◌}
use native.Mathlib.Nat.{dvd_of_mod-eq-zero}
use so_2021v_li42d.Base.{
  ℕ, ◌+◌, ◌^◌, ◌≤◌, ◌<◌, ◌≡◌, refl, arith, some, List, [], ◌∷◌, has, ◌==◌, true, ◌-◌, update,
  if◌then◌else◌,
}
use so_2021v_li42d.MemChannel.{
  MemChannel, mc_create, mc_put_wait, mc_put_store, mc_put_post, mc_get_wait, mc_get_fetch,
  mc_get_post,
}
use so_2021v_li42d.MemChannel.Traffic.{
  System, Reach, created, later, put_wait, put_store, put_post, get_wait, get_fetch, get_post,
  start,
}
use so_2021v_li42d.MemChannel.Fifo.{channel-Fifo}
use so_2021v_li42d.Adder.{seq_adder, par_adder}
use so_2021v_li42d.Adder.Parallel.{par_adder-seq}

-- A channel of two items of one byte each.
abbrev channel : MemChannel
channel = record {
  elem_size = 1;
  capacity = 2;
  total_size = 258;
  iput = 0;
  iget = 0;
  has_space = 2;
  has_items = 0;
  items = λ p. 0;
}

channel_created : mc_create 256 (some (λ p. 0)) 1 2 ≡ some channel
unfolding mc_create
channel_created = refl

two_divides : 2 ∣ 2 ^ 64
two_divides = dvd_of_mod-eq-zero 2 refl

abbrev byte : ℕ → ℕ
byte k = 65

abbrev one_put : System
one_put = record (start channel) {
  chan = mc_put_post (mc_put_store byte (record channel { has_space = 1 }));
  puts = 1;
  sent = update (start channel).sent 0 byte;
}

one_put_reached : Reach channel one_put
unfolding mc_put_wait
one_put_reached =
    later (later (later created (put_wait refl)) (put_store byte (omega arith)))
      (put_post (omega arith))

abbrev fetching : System
fetching = record one_put { chan = record one_put.chan { has_items = 0 }; getting = 1 }

fetching_reached : Reach channel fetching
unfolding mc_get_wait mc_put_post mc_put_store
fetching_reached = later one_put_reached (get_wait refl)

abbrev one_got : System
one_got = record fetching {
  chan = mc_get_post (mc_get_fetch byte fetching.chan).0;
  getting = 0;
  gets = 1;
  received = update (start channel).received 0 (mc_get_fetch byte fetching.chan).1;
}

one_got_reached : Reach channel one_got
one_got_reached =
    later (later fetching_reached (get_fetch byte (omega arith))) (get_post (omega arith))

channel-Fifo_example :
    (1 ≤ 1) × (1 ≤ 1 + 2) × ((i k : ℕ) → i < 1 → k < 1 → one_got.received i k ≡ one_got.sent i k)
channel-Fifo_example = channel-Fifo 256 1 2 (λ p. 0) two_divides channel_created one_got_reached

abbrev vals : ℕ → ℕ
vals i = if i == 2 then 2 ^ 64 - 1 else i + 1

abbrev ending : List ℕ
ending = 2 ∷ 0 ∷ 3 ∷ 1 ∷ []

all_end : (n : ℕ) → n < 4 → has n ending ≡ true
all_end n l = ground arith

par_adder-seq_example : par_adder (λ n. 7) ending vals 5 ≡ some (seq_adder vals 5)
par_adder-seq_example = par_adder-seq (λ n. 7) ending vals 5 (omega arith) refl all_end
