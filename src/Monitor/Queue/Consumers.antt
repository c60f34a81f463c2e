-- ===== src/Monitor/Queue/Consumers.antt =====
-- Producers and consumers on the blocking queue of 18-thread-pool/queue.c. Between lock and unlock a
-- thread runs alone, so a step is one such stretch; a consumer that finds the queue empty joins those
-- that wait on the condition variable. Of `pthread_cond_signal` and `pthread_cond_wait` the steps
-- assume what POSIX says: a signal wakes one thread at least if any waits, a thread may wake up with
-- no signal, and a woken thread goes on under the lock some time later.
use mathlib.Core.Path.{subst}
use mathlib.Core.List.{append_assoc}
use so_2021v_li42d.Base.{
  ℕ, ◌+◌, ◌-◌, ◌^◌, ◌≤◌, ◌<◌, ◌≡◌, refl, ◌∙◌, ap, sym, ◌≢◌, suc, some, List, [], ◌∷◌, ◌++◌, arith,
  length, length-append,
}
use so_2021v_li42d.Monitor.Queue.{Queue, queue_init, queue_put, queue_get, blocked, got}
use so_2021v_li42d.Monitor.Queue.Fifo.{
  Holds, Fresh, TakesFirst, queue_init-Holds, queue_put-Holds, queue_get-TakesFirst,
}

-- The queue, how many consumers wait and how many are woken and not yet back, and the items put and
-- got so far, in order.
pub record System : Type 0 where
  pub queue : Queue
  pub waiting : ℕ
  pub awakened : ℕ
  pub put : List ℕ
  pub taken : List ℕ

pub data Step (s : System) : System → Type 0 where
  -- `queue_put`, whose signal wakes `k` threads
  put_item :
      (pnode item k : ℕ) {q : Queue}
      → Fresh s.queue pnode
      → s.queue.size + 1 < 2 ^ 64
      → queue_put pnode item s.queue ≡ some q
      → k ≤ s.waiting
      → (0 < s.waiting → 0 < k)
      → Step s (record s {
        queue = q;
        waiting = s.waiting - k;
        awakened = s.awakened + k;
        put = s.put ++ item ∷ [];
      })
  -- `queue_get` by a thread that comes in, with an item and without
  take :
      {q : Queue} {x : ℕ}
      → queue_get s.queue ≡ got q x
      → Step s (record s { queue = q; taken = s.taken ++ x ∷ [] })
  wait : queue_get s.queue ≡ blocked → Step s (record s { waiting = s.waiting + 1 })
  -- the test in the loop by a thread that was woken
  take_awakened :
      {q : Queue} {x : ℕ}
      → 0 < s.awakened
      → queue_get s.queue ≡ got q x
      → Step s (record s { queue = q; awakened = s.awakened - 1; taken = s.taken ++ x ∷ [] })
  wait_again :
      0 < s.awakened
      → queue_get s.queue ≡ blocked
      → Step s (record s { awakened = s.awakened - 1; waiting = s.waiting + 1 })
  spurious :
      0 < s.waiting → Step s (record s { waiting = s.waiting - 1; awakened = s.awakened + 1 })

abbrev pub start : Queue → System
start q = record { queue = queue_init q; waiting = 0; awakened = 0; put = []; taken = [] }

pub data Reach (q : Queue) : System → Type 0 where
  started : Reach q (start q)
  later : {s t : System} → Reach q s → Step s t → Reach q t

-- The items in the queue are those put and not yet got; while a consumer waits, every item has a
-- woken consumer that comes for it.
pub record Inv (s : System) : Type 0 where
  pub nodes : List ℕ
  pub items : List ℕ
  pub holds : Holds s.queue nodes items
  pub order : s.put ≡ s.taken ++ items
  pub served : 0 < s.waiting → length items ≤ s.awakened

-- What a consumer leaves that got the item `x`.
record Taken (s : System) (q : Queue) (x : ℕ) : Type 0 where
  nodes : List ℕ
  items : List ℕ
  holds : Holds q nodes items
  order : s.put ≡ (s.taken ++ x ∷ []) ++ items
  served : 0 < s.waiting → suc (length items) ≤ s.awakened

got-Taken :
    (s : System) (q : Queue) (x : ℕ) (nodes items : List ℕ)
    → Holds s.queue nodes items
    → s.put ≡ s.taken ++ items
    → (0 < s.waiting → length items ≤ s.awakened)
    → queue_get s.queue ≡ got q x
    → Taken s q x
got-Taken s q x nodes [] h order served e =
    absurd (cc (e, (queue_get-TakesFirst s.queue nodes [] h).2))
got-Taken s q x nodes (y ∷ xs) h order served e =
    let (q', nodes', _, _, same, held) = queue_get-TakesFirst s.queue nodes (y ∷ xs) h in
    let one : q' ≡ q = cc (e, same) in
    let two : y ≡ x = cc (e, same) in
    record {
      nodes = nodes';
      items = xs;
      holds = subst (λ z. Holds z nodes' xs) one held;
      order = order ∙ ap (λ z. s.taken ++ z ∷ xs) two ∙ sym (append_assoc s.taken (x ∷ []) xs);
      served = served;
    }

blocked-nil :
    (q : Queue) (nodes items : List ℕ) → Holds q nodes items → queue_get q ≡ blocked → items ≡ []
blocked-nil q nodes [] h e = refl
blocked-nil q nodes (x ∷ xs) h e =
    let (q', nodes', _, _, same, held) = queue_get-TakesFirst q nodes (x ∷ xs) h in
    absurd (cc (e, same))

Step-Inv : {s t : System} → Step s t → Inv s → Inv t
Step-Inv {s} (put_item pnode item k {q} fresh room e few some_wakes) inv =
    let h = inv.holds in
    let (q', ran, held) =
      queue_put-Holds s.queue inv.nodes inv.items pnode item h fresh (omega (arith, h.size)) in
    let one : q' ≡ q = cc (e, ran) in
    record {
      nodes = inv.nodes ++ pnode ∷ [];
      items = inv.items ++ item ∷ [];
      holds = subst (λ z. Holds z (inv.nodes ++ pnode ∷ []) (inv.items ++ item ∷ [])) one held;
      order = ap (λ l. l ++ item ∷ []) inv.order ∙ append_assoc s.taken inv.items (item ∷ []);
      served = λ still.
          let before : 0 < s.waiting = omega arith in
          omega (arith, some_wakes before, inv.served before, length-append inv.items (item ∷ []));
    }
Step-Inv {s} (take {q} {x} e) inv =
    let g = got-Taken s q x inv.nodes inv.items inv.holds inv.order inv.served e in
    record {
      nodes = g.nodes;
      items = g.items;
      holds = g.holds;
      order = g.order;
      served = λ some_wait. omega (arith, g.served some_wait);
    }
Step-Inv {s} (wait e) inv =
    let none_left = ap length (blocked-nil s.queue inv.nodes inv.items inv.holds e) in
    record {
      nodes = inv.nodes;
      items = inv.items;
      holds = inv.holds;
      order = inv.order;
      served = λ some_wait. omega (arith, none_left);
    }
Step-Inv {s} (take_awakened {q} {x} some_awake e) inv =
    let g = got-Taken s q x inv.nodes inv.items inv.holds inv.order inv.served e in
    record {
      nodes = g.nodes;
      items = g.items;
      holds = g.holds;
      order = g.order;
      served = λ some_wait. omega (arith, g.served some_wait);
    }
Step-Inv {s} (wait_again some_awake e) inv =
    let none_left = ap length (blocked-nil s.queue inv.nodes inv.items inv.holds e) in
    record {
      nodes = inv.nodes;
      items = inv.items;
      holds = inv.holds;
      order = inv.order;
      served = λ some_wait. omega (arith, none_left);
    }
Step-Inv (spurious some_wait) inv = record {
  nodes = inv.nodes;
  items = inv.items;
  holds = inv.holds;
  order = inv.order;
  served = λ _. omega (arith, inv.served some_wait);
}

Reach-Inv : {q : Queue} {s : System} → Reach q s → Inv s
Reach-Inv {q} started = record {
  nodes = [];
  items = [];
  holds = queue_init-Holds q;
  order = refl;
  served = λ some_wait. omega arith;
}
Reach-Inv (later r st) = Step-Inv st (Reach-Inv r)

-- In every reachable state the items that consumers got are those that were put first, each once and
-- in the order in which they were put; the rest is in the queue.
pub Reach-Fifo :
    {q : Queue} {s : System}
    → Reach q s
    → (items : List ℕ) × (s.put ≡ s.taken ++ items) × TakesFirst s.queue items
Reach-Fifo {s} r =
    let inv = Reach-Inv r in
    (inv.items, inv.order, queue_get-TakesFirst s.queue inv.nodes inv.items inv.holds)

wake :
    (s : System) (nodes items : List ℕ)
    → Holds s.queue nodes items
    → length items ≤ s.awakened
    → queue_get s.queue ≢ blocked
    → (t : System) × Step s t × (t.awakened + 1 ≡ s.awakened) × (t.waiting ≡ s.waiting)
wake s nodes [] h served not_empty =
    absurd (not_empty ((queue_get-TakesFirst s.queue nodes [] h).2))
wake s nodes (x ∷ xs) h served not_empty =
    let (q', nodes', _, _, same, held) = queue_get-TakesFirst s.queue nodes (x ∷ xs) h in
    (_, take_awakened (omega arith) same, omega arith, refl)

-- No signal is lost: if a consumer waits while an item is in the queue, then some consumer has been
-- woken and finds an item as soon as it runs.
pub no_lost_wakeup :
    {q : Queue} {s : System}
    → Reach q s
    → 0 < s.waiting
    → queue_get s.queue ≢ blocked
    → (t : System) × Step s t × (t.awakened + 1 ≡ s.awakened) × (t.waiting ≡ s.waiting)
no_lost_wakeup {s} r some_wait not_empty =
    let inv = Reach-Inv r in wake s inv.nodes inv.items inv.holds (inv.served some_wait) not_empty
