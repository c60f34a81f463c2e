-- ===== src/Monitor/Queue.antt =====
-- The unbounded queues of 17-pthreads-monitors/01-queue/queue.c, 17-pthreads-monitors/02-queue-wait/
-- queue.c and 18-thread-pool/queue.c (20-net-sockets/03-thread-pool/queue.c is the same file). What a
-- thread does between lock and unlock is one function; `malloc` and `free` stand inside it.
pub mod Consumers
pub mod Fifo
use so_2021v_li42d.Base.{
  ℕ, ◌+◌, ◌-◌, ◌%◌, ◌^◌, Bool, true, false, Option, none, some, if◌then◌else◌, ◌==◌, update,
}
use so_2021v_li42d.EntryList.{
  Links, init_list_head, is_list_empty, remove_list_first, insert_list_last,
}

-- A `queue_t` and the nodes in memory; `item` and `allocated` are by the address of a node.
pub record Queue : Type 0 where
  pub links : Links
  pub item : ℕ → ℕ
  pub allocated : ℕ → Bool
  pub head : ℕ
  pub size : ℕ

-- The field `entry` of a `queue_node_t` follows the pointer `item`.
abbrev pub entry_of : ℕ → ℕ
entry_of pnode = pnode + 8

abbrev container_of : ℕ → ℕ
container_of pentry = pentry - 8

unfoldable pub queue_init : Queue → Queue
queue_init q = record q { links = init_list_head q.links q.head; size = 0 }

unfoldable pub queue_size : Queue → ℕ
queue_size q = q.size

-- `pnode` is what `malloc` returns; `none` is the store through a null pointer that follows when it
-- has no memory. The item is stored before the lock is taken.
unfoldable pub queue_put : (pnode item : ℕ) → Queue → Option Queue
queue_put pnode item q =
    if pnode == 0
    then none
    else some (record q {
      item = update q.item pnode item;
      allocated = update q.allocated pnode true;
      links = insert_list_last q.links q.head (entry_of pnode);
      size = (q.size + 1) % 2 ^ 64;
    })

-- The removal that the three versions of `queue_get` share, with the read and `free` of the node.
unfoldable pub take_first : Queue → Queue × ℕ
take_first q =
    let pnode = container_of (remove_list_first q.links q.head).1 in
    (
      record q {
        links = (remove_list_first q.links q.head).0;
        size = (q.size + 2 ^ 64 - 1) % 2 ^ 64;
        allocated = update q.allocated pnode false;
      },
      q.item pnode,
    )

-- 01-queue: an empty queue gives NULL.
unfoldable pub queue_get_or_null : Queue → Queue × ℕ
queue_get_or_null q = if is_list_empty q.links q.head then (q, 0) else take_first q

-- One test of the waiting loop: go on to wait, or leave with an item.
pub data Attempt : Type 0 where
  blocked : Attempt
  got : Queue → ℕ → Attempt

abbrev got_pair : Queue × ℕ → Attempt
got_pair (q, item) = got q item

-- 02-queue-wait: `while (is_list_empty(&queue->head))`.
unfoldable pub queue_get_wait : Queue → Attempt
queue_get_wait q = if is_list_empty q.links q.head then blocked else got_pair (take_first q)

-- 18-thread-pool: `while (queue->size == 0)`.
unfoldable pub queue_get : Queue → Attempt
queue_get q = if q.size == 0 then blocked else got_pair (take_first q)
