-- ===== src/MemChannel.antt =====
-- The channel over shared memory of 19-ipc/memchannel.c: a ring of items of `elem_size` bytes, two
-- counting semaphores and a lock. `put` and `get` are cut where another process can come in between:
-- the wait on a semaphore, the stretch under the lock, the post. Byte offsets lie in the mapped block,
-- whose size fits in a `size_t`, so they do not wrap around; the two indices do.
pub mod Fifo
pub mod Lifecycle
pub mod Numbers
pub mod Ring
pub mod Traffic
use so_2021v_li42d.Base.{
  ℕ, ◌+◌, ◌-◌, ◌*◌, ◌%◌, ◌^◌, Bool, ◌&&◌, Option, none, some, if◌then◌else◌, ◌==◌, ltb, leb,
}

pub record MemChannel : Type 0 where
  pub elem_size : ℕ
  pub capacity : ℕ
  pub total_size : ℕ
  pub iput : ℕ
  pub iget : ℕ
  pub has_space : ℕ
  pub has_items : ℕ
  pub items : ℕ → ℕ

-- `base` is what `shmem_create` gives: the bytes from the field `items` on, or NULL;
-- `items_offset` is the offset of that field. The size of the items is taken not to wrap around, so that
-- the block has room for them, and the capacity to be a value that `sem_init` takes, less than 2^31.
unfoldable pub mc_create :
    (items_offset : ℕ) (base : Option (ℕ → ℕ)) (elem_size capacity : ℕ) → Option MemChannel
mc_create items_offset none elem_size capacity = none
mc_create items_offset (some bytes) elem_size capacity = some (record {
  elem_size = elem_size;
  capacity = capacity;
  total_size = (items_offset + elem_size * capacity) % 2 ^ 64;
  iput = 0;
  iget = 0;
  has_space = capacity;
  has_items = 0;
  items = bytes;
})

-- `memcpy` of `size` bytes to the offset `to`.
unfoldable pub copy_in : (to size : ℕ) (item : ℕ → ℕ) → (ℕ → ℕ) → ℕ → ℕ
copy_in to size item bytes p = if leb to p && ltb p (to + size) then item (p - to) else bytes p

-- `memcpy` of `size` bytes from the offset `from`, over `item`.
unfoldable pub copy_out : (from size : ℕ) (bytes : ℕ → ℕ) → (ℕ → ℕ) → ℕ → ℕ
copy_out from size bytes item k = if ltb k size then bytes (from + k) else item k

-- `sem_wait(&(mc->has_space))`; `none` when the caller has to wait.
unfoldable pub mc_put_wait : MemChannel → Option MemChannel
mc_put_wait mc =
    if mc.has_space == 0 then none else some (record mc { has_space = mc.has_space - 1 })

unfoldable pub mc_put_store : (ℕ → ℕ) → MemChannel → MemChannel
mc_put_store item mc =
    let iput = mc.iput % mc.capacity in
    record mc {
      iput = (mc.iput + 1) % 2 ^ 64;
      items = copy_in (iput * mc.elem_size) mc.elem_size item mc.items;
    }

unfoldable pub mc_put_post : MemChannel → MemChannel
mc_put_post mc = record mc { has_items = mc.has_items + 1 }

unfoldable pub mc_get_wait : MemChannel → Option MemChannel
mc_get_wait mc =
    if mc.has_items == 0 then none else some (record mc { has_items = mc.has_items - 1 })

unfoldable pub mc_get_fetch : (ℕ → ℕ) → MemChannel → MemChannel × (ℕ → ℕ)
mc_get_fetch item mc =
    let iget = mc.iget % mc.capacity in
    (
      record mc { iget = (mc.iget + 1) % 2 ^ 64 },
      copy_out (iget * mc.elem_size) mc.elem_size mc.items item,
    )

unfoldable pub mc_get_post : MemChannel → MemChannel
mc_get_post mc = record mc { has_space = mc.has_space + 1 }
