-- ===== src/Examples/Monitors.antt =====
-- The blocking queue and the latch in short runs.
use so_2021v_li42d.Base.{
  ℕ, ◌+◌, ◌≡◌, ◌≢◌, ◌↔◌, ◌≤◌, ◌<◌, refl, true, false, some, List, [], ◌∷◌, ◌++◌, arith,
}
use so_2021v_li42d.Base.Int.{pos}
use so_2021v_li42d.EntryList.{init_list_head, insert_list_last, insert_list_after}
use so_2021v_li42d.Monitor.Queue.{Queue, queue_init, queue_put, queue_get, blocked}
use so_2021v_li42d.Monitor.Queue.Fifo.{
  Holds, Fresh, TakesFirst, queue_put-Holds, queue_get-TakesFirst, queue_init-Holds,
}
use so_2021v_li42d.Monitor.Queue.Consumers
use so_2021v_li42d.Monitor.Queue.Consumers.{Reach-Fifo, no_lost_wakeup}
use so_2021v_li42d.Monitor.Latch.{
  countdownlatch_init, countdownlatch_countdown, countdownlatch_await_test,
}
use so_2021v_li42d.Monitor.Latch.Waiters
use so_2021v_li42d.Monitor.Latch.Waiters.{Reach-Latch}

abbrev raw : Queue
raw = record {
  links = record { next = λ p. 0; prev = λ p. 0 };
  item = λ p. 0;
  allocated = λ p. false;
  head = 100;
  size = 0;
}

-- An empty queue, and a node for it.
abbrev empty : Queue
empty = queue_init raw

node-Fresh : Fresh empty 16
unfolding queue_init
node-Fresh = record { ne_null = omega arith; unused = refl; apart = omega arith }

abbrev one_item : Queue
one_item = record {
  links = insert_list_last (init_list_head raw.links 100) 100 24;
  item = λ p. 7;
  allocated = λ p. true;
  head = 100;
  size = 1;
}

one_item-Holds : Holds one_item (16 ∷ []) (7 ∷ [])
unfolding init_list_head insert_list_last insert_list_after
one_item-Holds = record {
  ring = record { linked = ground arith; distinct = ground arith };
  items_of = refl;
  size = refl;
  small = omega arith;
  in_use = λ x i. refl;
}

empty-blocked : queue_get empty ≡ blocked
unfolding queue_init queue_get
empty-blocked = refl

-- Two consumers wait, and then an item is put.
abbrev put_once : (q : Queue) × (queue_put 16 7 empty ≡ some q) × Holds q (16 ∷ []) (7 ∷ [])
put_once = queue_put-Holds empty [] [] 16 7 (queue_init-Holds raw) node-Fresh (omega arith)

abbrev waiting_then_put : Consumers.System
waiting_then_put = record {
  queue = put_once.0;
  waiting = 1;
  awakened = 1;
  put = 7 ∷ [];
  taken = [];
}

run : Consumers.Reach raw waiting_then_put
run =
    Consumers.later
      (Consumers.later (Consumers.later Consumers.started (Consumers.wait empty-blocked))
        (Consumers.wait empty-blocked))
      (Consumers.put_item 16 7 1 node-Fresh (omega (arith, (queue_init-Holds raw).size)) put_once.1
        (omega arith) (λ h. omega arith))

not_empty : queue_get put_once.0 ≢ blocked
not_empty e =
    let (q, n, _, _, same, _) = queue_get-TakesFirst put_once.0 (16 ∷ []) (7 ∷ []) put_once.2 in
    cc (e, same)

Reach-Fifo_example : (items : List ℕ) × (7 ∷ [] ≡ [] ++ items) × TakesFirst put_once.0 items
Reach-Fifo_example = Reach-Fifo run

no_lost_wakeup_example :
    (t : Consumers.System) × Consumers.Step waiting_then_put t
    × (t.awakened + 1 ≡ 1)
    × (t.waiting ≡ 1)
no_lost_wakeup_example = no_lost_wakeup run (omega arith) not_empty

-- A latch for one event: a thread waits, and the event happens.
abbrev opened : Waiters.System
opened = record {
  latch = countdownlatch_init (pos 0);
  waiting = 0;
  awakened = 1;
  countdowns = 1;
  passed = 0;
}

opened-Reach : Waiters.Reach 1 opened
unfolding countdownlatch_init countdownlatch_countdown countdownlatch_await_test
opened-Reach =
    Waiters.later (Waiters.later Waiters.started (Waiters.await_wait refl)) (Waiters.countdown refl)

Reach-Latch_example :
    ((countdownlatch_await_test opened.latch ≡ false) ↔ (1 ≤ opened.countdowns))
    × (opened.countdowns < 1 → opened.passed ≡ 0)
    × (1 ≤ opened.countdowns → opened.waiting ≡ 0)
Reach-Latch_example = Reach-Latch opened-Reach
