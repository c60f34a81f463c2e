-- ===== src/MemChannel/Traffic.antt =====
-- Processes that use one channel of 19-ipc/memchannel.c at the same time: any number of them is
-- between the wait and the lock, or between the lock and the post, of `mc_put` and of `mc_get`.
use mathlib.Core.Path.{subst}
use so_2021v_li42d.Base.{
  ℕ, ◌+◌, ◌-◌, ◌*◌, ◌%◌, ◌^◌, ◌≤◌, ◌<◌, ◌≡◌, ◌↔◌, refl, ◌∙◌, ap, none, some, arith, update,
}
use so_2021v_li42d.MemChannel.{
  MemChannel, mc_create, mc_put_wait, mc_put_store, mc_put_post, mc_get_wait, mc_get_fetch,
  mc_get_post,
}
use so_2021v_li42d.MemChannel.Ring.{index_next}

-- The channel; how many processes are past the wait of `mc_put`, past its lock, past the wait of
-- `mc_get`, past its lock; the items put and received so far, by their number.
pub record System : Type 0 where
  pub chan : MemChannel
  pub putting : ℕ
  pub stored : ℕ
  pub getting : ℕ
  pub fetched : ℕ
  pub puts : ℕ
  pub gets : ℕ
  pub sent : ℕ → ℕ → ℕ
  pub received : ℕ → ℕ → ℕ

pub data Step (s : System) : System → Type 0 where
  put_wait :
      {mc : MemChannel}
      → mc_put_wait s.chan ≡ some mc
      → Step s (record s { chan = mc; putting = s.putting + 1 })
  put_store :
      (item : ℕ → ℕ)
      → 0 < s.putting
      → Step s (record s {
        chan = mc_put_store item s.chan;
        putting = s.putting - 1;
        stored = s.stored + 1;
        puts = s.puts + 1;
        sent = update s.sent s.puts item;
      })
  put_post : 0 < s.stored → Step s (record s { chan = mc_put_post s.chan; stored = s.stored - 1 })
  get_wait :
      {mc : MemChannel}
      → mc_get_wait s.chan ≡ some mc
      → Step s (record s { chan = mc; getting = s.getting + 1 })
  get_fetch :
      (item : ℕ → ℕ)
      → 0 < s.getting
      → Step s (record s {
        chan = (mc_get_fetch item s.chan).0;
        getting = s.getting - 1;
        fetched = s.fetched + 1;
        gets = s.gets + 1;
        received = update s.received s.gets (mc_get_fetch item s.chan).1;
      })
  get_post :
      0 < s.fetched → Step s (record s { chan = mc_get_post s.chan; fetched = s.fetched - 1 })

abbrev pub start : MemChannel → System
start mc = record {
  chan = mc;
  putting = 0;
  stored = 0;
  getting = 0;
  fetched = 0;
  puts = 0;
  gets = 0;
  sent = λ i k. 0;
  received = λ i k. 0;
}

pub data Reach (mc : MemChannel) : System → Type 0 where
  created : Reach mc (start mc)
  later : {s t : System} → Reach mc s → Step s t → Reach mc t

pub put_wait_taken :
    (mc mc' : MemChannel)
    → mc_put_wait mc ≡ some mc'
    → (0 < mc.has_space) × (record mc { has_space = mc.has_space - 1 } ≡ mc')
unfolding mc_put_wait
put_wait_taken mc mc' r = ground (arith, r)

pub get_wait_taken :
    (mc mc' : MemChannel)
    → mc_get_wait mc ≡ some mc'
    → (0 < mc.has_items) × (record mc { has_items = mc.has_items - 1 } ≡ mc')
unfolding mc_get_wait
get_wait_taken mc mc' r = ground (arith, r)

created_as :
    (items_offset e c : ℕ) (base : ℕ → ℕ) {mc : MemChannel}
    → mc_create items_offset (some base) e c ≡ some mc
    → record {
      elem_size = e;
      capacity = c;
      total_size = (items_offset + e * c) % 2 ^ 64;
      iput = 0;
      iget = 0;
      has_space = c;
      has_items = 0;
      items = base;
    }
      ≡ mc
unfolding mc_create
created_as items_offset e c base r = cc r

module _ (c e : ℕ) where
  pub record Counts (s : System) : Type 0 where
    pub capacity : s.chan.capacity ≡ c
    pub elem_size : s.chan.elem_size ≡ e
    pub iput : s.chan.iput ≡ s.puts % 2 ^ 64
    pub iget : s.chan.iget ≡ s.gets % 2 ^ 64
    pub order : s.gets ≤ s.puts
    pub space : s.chan.has_space + s.putting + (s.puts - s.gets) + s.fetched ≡ c
    pub items : s.chan.has_items + s.getting + s.stored ≡ s.puts - s.gets

  pub Step-Counts : {s t : System} → Step s t → Counts s → Counts t
  unfolding mc_put_wait mc_put_store mc_put_post mc_get_wait mc_get_fetch mc_get_post
  Step-Counts {s} (put_wait {mc} r) h =
      let (some_space, same) = put_wait_taken s.chan mc r in
      subst (λ m. Counts (record s { chan = m; putting = s.putting + 1 })) same
        (record {
          capacity = h.capacity;
          elem_size = h.elem_size;
          iput = h.iput;
          iget = h.iget;
          order = h.order;
          space = omega (arith, h.space);
          items = h.items;
        })
  Step-Counts {s} (put_store item p) h = record {
    capacity = h.capacity;
    elem_size = h.elem_size;
    iput = ap (λ n. (n + 1) % 2 ^ 64) h.iput ∙ index_next s.puts;
    iget = h.iget;
    order = omega (arith, h.order);
    space = omega (arith, h.order, h.space);
    items = omega (arith, h.order, h.items);
  }
  Step-Counts {s} (put_post p) h = record {
    capacity = h.capacity;
    elem_size = h.elem_size;
    iput = h.iput;
    iget = h.iget;
    order = h.order;
    space = h.space;
    items = omega (arith, h.items);
  }
  Step-Counts {s} (get_wait {mc} r) h =
      let (some_items, same) = get_wait_taken s.chan mc r in
      subst (λ m. Counts (record s { chan = m; getting = s.getting + 1 })) same
        (record {
          capacity = h.capacity;
          elem_size = h.elem_size;
          iput = h.iput;
          iget = h.iget;
          order = h.order;
          space = h.space;
          items = omega (arith, h.items);
        })
  Step-Counts {s} (get_fetch item p) h = record {
    capacity = h.capacity;
    elem_size = h.elem_size;
    iput = h.iput;
    iget = ap (λ n. (n + 1) % 2 ^ 64) h.iget ∙ index_next s.gets;
    order = omega (arith, h.order, h.items);
    space = omega (arith, h.order, h.space, h.items);
    items = omega (arith, h.order, h.items);
  }
  Step-Counts {s} (get_post p) h = record {
    capacity = h.capacity;
    elem_size = h.elem_size;
    iput = h.iput;
    iget = h.iget;
    order = h.order;
    space = omega (arith, h.space);
    items = h.items;
  }

  pub start-Counts :
      (items_offset : ℕ) (base : ℕ → ℕ) {mc : MemChannel}
      → mc_create items_offset (some base) e c ≡ some mc
      → Counts (start mc)
  start-Counts items_offset base r =
      subst (λ m. Counts (start m)) (created_as items_offset e c base r)
        (record {
          capacity = refl;
          elem_size = refl;
          iput = refl;
          iget = refl;
          order = omega arith;
          space = omega arith;
          items = refl;
        })

  pub Reach-Counts :
      (items_offset : ℕ) (base : ℕ → ℕ) {mc : MemChannel} {s : System}
      → mc_create items_offset (some base) e c ≡ some mc
      → Reach mc s
      → Counts s
  Reach-Counts o base h created = start-Counts o base h
  Reach-Counts o base h (later r st) = Step-Counts st (Reach-Counts o base h r)

-- Between two operations, `mc_put` has to wait exactly when the channel holds as many items as its
-- capacity, and `mc_get` exactly when it holds none.
pub waits_iff :
    (items_offset e c : ℕ) (base : ℕ → ℕ) {mc : MemChannel} {s : System}
    → mc_create items_offset (some base) e c ≡ some mc
    → Reach mc s
    → s.putting + s.stored + s.getting + s.fetched ≡ 0
    → ((mc_put_wait s.chan ≡ none) ↔ (s.puts ≡ s.gets + c))
      × ((mc_get_wait s.chan ≡ none) ↔ (s.puts ≡ s.gets))
unfolding mc_put_wait mc_get_wait
waits_iff o e c base {s = s} r reach quiet =
    let h = Reach-Counts c e o base r reach in ground (arith, h.space, h.items, h.order)
