-- ===== src/Monitor/Queue/Fifo.antt =====
-- The queues hold their items in the order of the calls of `queue_put`.
use mathlib.Core.Path.{ap₂}
use mathlib.Core.List.{map-append}
use so_2021v_li42d.Base.{
  ℕ, ◌+◌, ◌-◌, ◌%◌, ◌^◌, ◌<◌, ◌≡◌, ◌≢◌, refl, true, false, some, List, [], ◌∷◌, ◌++◌, map, arith,
  ◌==◌, update, length, length-append, has, map-agree, ap, has-append, has-map, not-has-map, ◌∙◌,
  update_self,
}
use so_2021v_li42d.EntryList.{remove_list_first, insert_list_last}
use so_2021v_li42d.EntryList.Ring.{IsRing}
use so_2021v_li42d.EntryList.Insert.{
  init_list_head-IsRing, insert_list_last-IsRing, is_list_empty-nil, is_list_empty-cons,
}
use so_2021v_li42d.EntryList.Remove.{remove_list_first-IsRing}
use so_2021v_li42d.Monitor.Queue.{
  Queue, entry_of, queue_init, queue_put, take_first, queue_get_or_null, blocked, got,
  queue_get_wait, queue_get,
}

-- The nodes of the queue, in order, and the item that each holds.
pub record Holds (q : Queue) (nodes : List ℕ) (items : List ℕ) : Type 0 where
  pub ring : IsRing q.links q.head (map entry_of nodes)
  pub items_of : map q.item nodes ≡ items
  pub size : q.size ≡ length nodes
  pub small : length nodes < 2 ^ 64
  pub in_use : (x : ℕ) → has x nodes ≡ true → q.allocated x ≡ true

-- An address that `malloc` may return: not null, not in use, and apart from the queue itself.
pub record Fresh (q : Queue) (pnode : ℕ) : Type 0 where
  pub ne_null : pnode ≢ 0
  pub unused : q.allocated pnode ≡ false
  pub apart : entry_of pnode ≢ q.head

unlinked :
    (q : Queue) (pnode : ℕ) (nodes : List ℕ)
    → has pnode nodes ≡ false
    → has (entry_of pnode) (map entry_of nodes) ≡ false
unlinked q pnode nodes o = not-has-map entry_of (entry_of pnode) nodes (λ x i. ground (arith, i, o))

pub queue_init-Holds : (q : Queue) → Holds (queue_init q) [] []
unfolding queue_init
queue_init-Holds q = record {
  ring = init_list_head-IsRing q.links q.head;
  items_of = refl;
  size = refl;
  small = omega arith;
  in_use = λ x i. cc;
}

-- `queue_put` with memory adds the item behind all the others.
pub queue_put-Holds :
    (q : Queue) (nodes items : List ℕ) (pnode item : ℕ)
    → Holds q nodes items
    → Fresh q pnode
    → length nodes + 1 < 2 ^ 64
    → (q' : Queue) × (queue_put pnode item q ≡ some q')
      × Holds q' (nodes ++ pnode ∷ []) (items ++ item ∷ [])
unfolding queue_put
queue_put-Holds q nodes items pnode item h fresh room =
    let new : has pnode nodes ≡ false = ground (arith, h.in_use pnode, fresh.unused) in
    (
      record q {
        item = update q.item pnode item;
        allocated = update q.allocated pnode true;
        links = insert_list_last q.links q.head (entry_of pnode);
        size = (q.size + 1) % 2 ^ 64;
      },
      ground (arith, fresh.ne_null),
      record {
        ring = rw map-append (
            insert_list_last-IsRing q.links q.head (entry_of pnode) (map entry_of nodes) h.ring
              (ground (arith, fresh.apart, unlinked q pnode nodes new)));
        items_of =
            map-append (update q.item pnode item) nodes (pnode ∷ [])
            ∙ ap₂ ◌++◌
                (map-agree q.item (update q.item pnode item) nodes (λ x i. ground (arith, i, new))
                  ∙ h.items_of)
                (ap (λ v. v ∷ []) (update_self q.item pnode item));
        size = omega (arith, h.size, length-append nodes (pnode ∷ []));
        small = omega (arith, length-append nodes (pnode ∷ []));
        in_use = λ x i. ground (arith, h.in_use x, has-append x nodes (pnode ∷ []));
      },
    )

-- Removing the first node gives its item, frees it, and keeps the others.
take_first-Holds :
    (q : Queue) (n x : ℕ) (nodes xs : List ℕ)
    → Holds q (n ∷ nodes) (x ∷ xs)
    → (q' : Queue) × (take_first q ≡ (q', x)) × Holds q' nodes xs × (q'.allocated n ≡ false)
unfolding take_first
take_first-Holds q n x nodes xs h =
    let first = remove_list_first-IsRing q.links q.head (entry_of n) (map entry_of nodes) h.ring in
    let is : (remove_list_first q.links q.head).1 - 8 ≡ n = omega (arith, first.0) in
    let value : q.item n ≡ x = cc (h.items_of) in
    (
      record q {
        links = (remove_list_first q.links q.head).0;
        size = (q.size + 2 ^ 64 - 1) % 2 ^ 64;
        allocated = update q.allocated n false;
      },
      rw (is, value),
      record {
        ring = first.1;
        items_of = cc (h.items_of);
        size = omega (arith, h.size, h.small);
        small = omega (arith, h.small);
        in_use =
            λ x i. ground (arith, h.in_use x, i, has-map entry_of x nodes i, h.ring.distinct.1.0);
      },
      update_self q.allocated n false,
    )

-- What the three versions of `queue_get` do with a queue that holds `items`: on an empty queue the
-- first gives NULL and the others wait; otherwise all take the same first item.
abbrev pub TakesFirst : Queue → List ℕ → Type 0
TakesFirst q [] =
    (queue_get_or_null q ≡ (q, 0)) × (queue_get_wait q ≡ blocked) × (queue_get q ≡ blocked)
TakesFirst q (x ∷ xs) =
    (q' : Queue) × (nodes' : List ℕ) × (queue_get_or_null q ≡ (q', x))
    × (queue_get_wait q ≡ got q' x)
    × (queue_get q ≡ got q' x)
    × Holds q' nodes' xs

-- The three versions of `queue_get` take the item that was put first, and wait, or give NULL, only
-- when there is none; testing the list and testing the size come to the same.
pub queue_get-TakesFirst :
    (q : Queue) (nodes items : List ℕ) → Holds q nodes items → TakesFirst q items
unfolding queue_get_or_null queue_get_wait queue_get
queue_get-TakesFirst q [] [] h =
    let e = is_list_empty-nil q.links q.head h.ring in
    (ground (arith, e), ground (arith, e), ground (arith, h.size))
queue_get-TakesFirst q [] (x ∷ xs) h = absurd (cc (h.items_of))
queue_get-TakesFirst q (n ∷ nodes) [] h = absurd (cc (h.items_of))
queue_get-TakesFirst q (n ∷ nodes) (x ∷ xs) h =
    let (q', took, held, _) = take_first-Holds q n x nodes xs h in
    let e = is_list_empty-cons q.links q.head _ _ h.ring in
    let s : (q.size == 0) ≡ false = ground (arith, h.size) in
    (q', nodes, rw (e, took), rw (e, took), rw (s, took), held)
