-- ===== src/MemChannel/Fifo.antt =====
-- The items of the channel of 19-ipc/memchannel.c arrive as they were sent.
use Prim.Native.Nat.{◌∣◌}
use mathlib.Core.Path.{subst}
use so_2021v_li42d.Base.{
  ℕ, ◌+◌, ◌*◌, ◌%◌, ◌^◌, ◌≤◌, ◌<◌, ◌≡◌, ◌⊎◌, ◌≢◌, inl, inr, ◌∙◌, sym, ap, some, arith, update,
  update_self,
}
use so_2021v_li42d.MemChannel.{
  MemChannel, mc_create, mc_put_wait, mc_put_store, mc_put_post, mc_get_fetch, mc_get_post,
  copy_out,
}
use so_2021v_li42d.MemChannel.Ring.{slots_differ, slot_of_index, copy_in_self, copy_in_other}
use so_2021v_li42d.MemChannel.Traffic.{
  System, Step, put_wait, put_store, put_post, get_wait, get_fetch, get_post, Reach, created, later,
  Counts, Reach-Counts, put_wait_taken, get_wait_taken,
}

pub split : (x y : ℕ) → x < y + 1 → (x < y) ⊎ (x ≡ y)
split x y z = ground arith

update_other : {A : Type 0} (f : ℕ → A) (p q : ℕ) (v : A) → q ≢ p → update f p v q ≡ f q
update_other f p q v ne = ground arith

module _ (c e : ℕ) where
  -- The slots of the items that are not yet fetched hold them; the others were received as sent.
  pub record Data (s : System) : Type 0 where
    pub held :
        (i k : ℕ) → s.gets ≤ i → i < s.puts → k < e → s.chan.items (i % c * e + k) ≡ s.sent i k
    pub same : (i k : ℕ) → i < s.gets → k < e → s.received i k ≡ s.sent i k

  put_slot : c ∣ 2 ^ 64 → (s : System) → Counts c e s → s.chan.iput % s.chan.capacity ≡ s.puts % c
  put_slot d s h = rw (h.iput, h.capacity, slot_of_index s.puts c d)

  get_slot : c ∣ 2 ^ 64 → (s : System) → Counts c e s → s.chan.iget % s.chan.capacity ≡ s.gets % c
  get_slot d s h = rw (h.iget, h.capacity, slot_of_index s.gets c d)

  -- After the store, the slot of every item that is not yet fetched holds it.
  store_held :
      c ∣ 2 ^ 64
      → (s : System) (item : ℕ → ℕ) → Counts c e s
      → Data s
      → 0 < s.putting
      → (i k : ℕ) → s.gets ≤ i
      → i < s.puts + 1
      → k < e
      → (mc_put_store item s.chan).items (i % c * e + k) ≡ update s.sent s.puts item i k
  unfolding mc_put_store
  store_held d s item h l p i k from below inside =
      rw (put_slot d s h, h.elem_size)
        (elim (split i s.puts below) [
          | inl old ↦
              rw
                (copy_in_other (i % c) (s.puts % c) e k item s.chan.items
                  (slots_differ i s.puts c old (omega (arith, h.space, h.order))) inside)
                (l.held i k from old inside
                  ∙ sym (ap (λ f. f k) (update_other s.sent s.puts i item (omega arith))))
          | inr new ↦ rw new (
              copy_in_self (s.puts % c) e k item s.chan.items inside
              ∙ sym (ap (λ f. f k) (update_self s.sent s.puts item)))
        ])

  -- The bytes that `mc_get` copies out are those of the oldest item.
  fetch_sent :
      c ∣ 2 ^ 64
      → (s : System) (item : ℕ → ℕ) → Counts c e s
      → Data s
      → 0 < s.getting
      → (k : ℕ) → k < e
      → (mc_get_fetch item s.chan).1 k ≡ s.sent s.gets k
  unfolding mc_get_fetch copy_out
  fetch_sent d s item h l p k inside =
      rw (get_slot d s h, h.elem_size)
        (ground (arith, l.held s.gets k (omega arith) (omega (arith, h.items, h.order)) inside))

  Step-Data : c ∣ 2 ^ 64 → {s t : System} → Step s t → Counts c e s → Data s → Data t
  unfolding mc_put_wait mc_put_post mc_get_post mc_get_fetch
  Step-Data d {s} (put_wait {mc} r) h l =
      let (some_space, same) = put_wait_taken s.chan mc r in
      subst (λ m. Data (record s { chan = m; putting = s.putting + 1 })) same
        (record { held = l.held; same = l.same })
  Step-Data d {s} (get_wait {mc} r) h l =
      let (some_items, same) = get_wait_taken s.chan mc r in
      subst (λ m. Data (record s { chan = m; getting = s.getting + 1 })) same
        (record { held = l.held; same = l.same })
  Step-Data d {s} (put_post p) h l = record { held = l.held; same = l.same }
  Step-Data d {s} (get_post p) h l = record { held = l.held; same = l.same }
  Step-Data d {s} (put_store item p) h l = record {
    held = store_held d s item h l p;
    same = λ i k before inside.
        l.same i k before inside
        ∙ sym (ap (λ f. f k) (update_other s.sent s.puts i item (omega (arith, h.order))));
  }
  Step-Data d {s} (get_fetch item p) h l = record {
    held = λ i k from below inside. l.held i k (omega arith) below inside;
    same = λ i k before inside. elim (split i s.gets before) [
      | inl old ↦
          ap (λ f. f k)
            (update_other s.received s.gets i (mc_get_fetch item s.chan).1 (omega arith))
          ∙ l.same i k old inside
      | inr new ↦ rw new (
          ap (λ f. f k) (update_self s.received s.gets (mc_get_fetch item s.chan).1)
          ∙ fetch_sent d s item h l p k inside)
    ];
  }

  Reach-Data :
      c ∣ 2 ^ 64
      → (items_offset : ℕ) (base : ℕ → ℕ) {mc : MemChannel} {s : System}
      → mc_create items_offset (some base) e c ≡ some mc
      → Reach mc s
      → Data s
  Reach-Data d o base h created = record {
    held = λ i k from below inside. absurd (omega arith);
    same = λ i k before inside. absurd (omega arith);
  }
  Reach-Data d o base h (later r st) =
      Step-Data d st (Reach-Counts c e o base h r) (Reach-Data d o base h r)

-- With a capacity that divides 2 ^ 64, in every reachable state no more items have been received than
-- sent, at most the capacity more have been sent, and each item received has the bytes of the item
-- sent with the same number: none is lost, repeated, overtaken or overwritten.
pub channel-Fifo :
    (items_offset e c : ℕ) (base : ℕ → ℕ) {mc : MemChannel} {s : System}
    → c ∣ 2 ^ 64
    → mc_create items_offset (some base) e c ≡ some mc
    → Reach mc s
    → (s.gets ≤ s.puts)
      × (s.puts ≤ s.gets + c)
      × ((i k : ℕ) → i < s.gets → k < e → s.received i k ≡ s.sent i k)
channel-Fifo o e c base d r reach =
    let h = Reach-Counts c e o base r reach in
    (h.order, omega (arith, h.space, h.order), (Reach-Data c e d o base r reach).same)
