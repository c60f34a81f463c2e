-- ===== src/Examples/Numbers.antt =====
-- A client of the channel of 19-ipc/test_memchannel_srv.c that puts 300, and the server that prints it.
use so_2021v_li42d.Base.{◌≡◌, refl, some, false, [], arith}
use so_2021v_li42d.MemChannel.{
  MemChannel, mc_create, mc_put_wait, mc_put_store, mc_put_post, mc_get_wait, mc_get_fetch,
}
use so_2021v_li42d.MemChannel.Traffic.{start, put_wait, put_post, get_wait}
use so_2021v_li42d.MemChannel.Numbers.{
  Numbers, client_puts, server_gets, puts_number, gets_number, passes, NumbersReach,
  numbers_started, numbers_later,
}
use so_2021v_li42d.MemChannel.Numbers.Printed.{Prints, NumbersReach-Prints}

abbrev eight_slots : MemChannel
eight_slots = record {
  elem_size = 4;
  capacity = 8;
  total_size = 288;
  iput = 0;
  iget = 0;
  has_space = 8;
  has_items = 0;
  items = λ p. 0;
}

eight_slots_created : mc_create 256 (some (λ p. 0)) 4 8 ≡ some eight_slots
unfolding mc_create
eight_slots_created = refl

abbrev nothing_put : Numbers
nothing_put = record { sys = start eight_slots; vals = λ i. 0; printed = []; ended = false }

abbrev may_put : Numbers
may_put = record nothing_put {
  sys = record nothing_put.sys { chan = record eight_slots { has_space = 7 }; putting = 1 };
}

abbrev put_300 : Numbers
put_300 = client_puts 300 may_put

abbrev posted : Numbers
posted = record put_300 {
  sys = record put_300.sys { chan = mc_put_post put_300.sys.chan; stored = 0 };
}

abbrev may_get : Numbers
may_get = record posted {
  sys = record posted.sys { chan = record posted.sys.chan { has_items = 0 }; getting = 1 };
}

abbrev got_300 : Numbers
got_300 = server_gets (λ k. 9) may_get

reach_got_300 : NumbersReach eight_slots got_300
unfolding mc_put_wait mc_put_store mc_put_post mc_get_wait mc_get_fetch
reach_got_300 =
    numbers_later
      (numbers_later
        (numbers_later
          (numbers_later (numbers_later numbers_started (passes (put_wait refl) refl refl))
            (puts_number 300 (omega arith) (omega arith)))
          (passes (put_post (omega arith)) refl refl))
        (passes (get_wait refl) refl refl))
      (gets_number (λ k. 9) refl (omega arith))

NumbersReach-Prints_example : Prints got_300
NumbersReach-Prints_example = NumbersReach-Prints 256 (λ p. 0) eight_slots_created reach_got_300
