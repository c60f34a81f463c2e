-- ===== src/Synch/Parked.antt =====
-- Threads that wait in the list of a synchronizer, apart from the ready queue.
use so_2021v_li42d.Base.{
  ℕ, Bool, inl, inr, Bool-cases, has-append, map-agree, update, ◌≡◌, ◌≢◌, true, false, List, [],
  ◌∷◌, ◌++◌, map, arith, has, has-map, has-map-snoc, Distinct, Distinct-map-snoc, not-has-map,
}
use so_2021v_li42d.Base.Int.{ℤ}
use so_2021v_li42d.EntryList.{remove_list_first, insert_list_last}
use so_2021v_li42d.EntryList.Ring.{IsRing, SameOutside, IsRing-SameOutside}
use so_2021v_li42d.EntryList.Insert.{insert_list_last-SameOutside, insert_list_last-IsRing}
use so_2021v_li42d.EntryList.Remove.{remove_list_first-IsRing, remove_list_first-SameOutside}
use so_2021v_li42d.Uthread.{entry_of, ut_activate, ut_deactivate}
use so_2021v_li42d.Uthread.Spec.{Sched, dispatch, activate}
use so_2021v_li42d.Uthread.Refine.{
  Refines, Unqueued, entries, Unqueued-snoc, ut_deactivate-Refines, dispatch-Unqueued, dispatch-has,
  dispatch-main, schedule-SameOutside, ut_activate-Refines,
}
use so_2021v_li42d.Synch.{World, with_links}

-- The thread of the wait block `x` neither runs nor is ready, and its own entry is elsewhere.
pub record Sleeper (w : World) (s : Sched) (head : ℕ) (ws : List ℕ) (x : ℕ) : Type 0 where
  pub unqueued : Unqueued w.kernel s.ready (w.thread x)
  pub ne_running : w.thread x ≢ s.running
  pub ne_main : w.thread x ≢ s.main
  pub entry : has (entry_of (w.thread x)) (head ∷ ws) ≡ false

-- The wait blocks `ws` are linked at `head` in this order; their threads are different sleepers.
pub record Parked (w : World) (s : Sched) (head : ℕ) (ws : List ℕ) : Type 0 where
  pub ring : IsRing w.kernel.links head ws
  pub apart :
      (p : ℕ) → has p (head ∷ ws) ≡ true → has p (w.kernel.ready_queue ∷ entries s.ready) ≡ false
  pub each : (x : ℕ) → has x ws ≡ true → Sleeper w s head ws x
  pub threads : Distinct (map w.thread ws)

-- The first wait block is taken out and its thread is made ready.
abbrev pub wake_first : ℕ → ℕ → World → World
wake_first head x w =
    let w1 = with_links w (remove_list_first w.kernel.links head).0 in
    record w1 { kernel = ut_activate (w1.thread x) w1.kernel }

module _ (w : World) (s : Sched) (head x : ℕ) (xs : List ℕ) (r : Refines w.kernel s)
    (k : Parked w s head (x ∷ xs)) where
  removed : Refines (with_links w (remove_list_first w.kernel.links head).0).kernel s
  removed = record {
    running = r.running;
    main = r.main;
    count = r.count;
    queue =
        IsRing-SameOutside w.kernel.links (remove_list_first w.kernel.links head).0
          w.kernel.ready_queue (entries s.ready) (head ∷ x ∷ xs) r.queue
          (remove_list_first-SameOutside w.kernel.links head x xs k.ring)
          (λ p i. ground (arith, k.apart p));
    running_unqueued = r.running_unqueued;
    main_unqueued = r.main_unqueued;
  }

  first : Sleeper w s head (x ∷ xs) x
  first = k.each x (ground arith)

  -- The woken thread is the last of the ready queue.
  pub wake_first-Refines : Refines (wake_first head x w).kernel (activate (w.thread x) s)
  wake_first-Refines =
      ut_activate-Refines _ s (w.thread x) removed first.unqueued first.ne_running first.ne_main

  others :
      (y : ℕ) → has y xs ≡ true → Sleeper (wake_first head x w) (activate (w.thread x) s) head xs y
  unfolding ut_activate activate
  others y i =
      let old = k.each y (ground arith) in
      record {
        unqueued =
            Unqueued-snoc w.kernel s.ready (w.thread x) (w.thread y) old.unqueued
              (ground (arith, k.threads.0, has-map w.thread y xs i));
        ne_running = old.ne_running;
        ne_main = old.ne_main;
        entry = ground (arith, old.entry);
      }

  -- The others go on waiting, in the same order.
  pub wake_first-Parked : Parked (wake_first head x w) (activate (w.thread x) s) head xs
  unfolding ut_activate activate
  wake_first-Parked =
      let l = (remove_list_first w.kernel.links head).0 in
      let e = entry_of (w.thread x) in
      record {
        ring =
            IsRing-SameOutside l (insert_list_last l w.kernel.ready_queue e) head xs
              (e ∷ w.kernel.ready_queue ∷ entries s.ready)
              ((remove_list_first-IsRing w.kernel.links head x xs k.ring).1)
              (insert_list_last-SameOutside l w.kernel.ready_queue e (entries s.ready)
                removed.queue)
              (λ p i. ground (arith, k.apart p, first.entry));
        apart = λ p i.
            ground (arith, k.apart p, first.entry, has-map-snoc entry_of p (w.thread x) s.ready);
        each = others;
        threads = k.threads.1;
      }

-- The running thread appends its wait block `wb` and gives up the processor.
abbrev pub park : (wb ret_addr head : ℕ) → World → World
park wb ret_addr head w =
    let w1 = with_links w (insert_list_last w.kernel.links head wb) in
    record w1 { kernel = ut_deactivate ret_addr w1.kernel }

-- What a wait block on the stack of the running thread may not overlap.
pub record FreshBlock (w : World) (s : Sched) (head wb : ℕ) (ws : List ℕ) : Type 0 where
  pub elsewhere : has wb (head ∷ ws) ≡ false
  pub unqueued : has wb (w.kernel.ready_queue ∷ entries s.ready) ≡ false
  pub own_entry : has (entry_of s.running) (wb ∷ head ∷ ws) ≡ false
  pub entries_apart : (x : ℕ) → has x ws ≡ true → entry_of (w.thread x) ≢ wb
  pub ne_main : s.running ≢ s.main

module _ (w : World) (s : Sched) (head wb ret_addr : ℕ) (ws : List ℕ) (r : Refines w.kernel s)
    (k : Parked w s head ws) (f : FreshBlock w s head wb ws) (mine : w.thread wb ≡ s.running) where
  appended : Refines (with_links w (insert_list_last w.kernel.links head wb)).kernel s
  appended = record {
    running = r.running;
    main = r.main;
    count = r.count;
    queue =
        IsRing-SameOutside w.kernel.links (insert_list_last w.kernel.links head wb)
          w.kernel.ready_queue (entries s.ready) (wb ∷ head ∷ ws) r.queue
          (insert_list_last-SameOutside w.kernel.links head wb ws k.ring)
          (λ p i. ground (arith, k.apart p, f.unqueued));
    running_unqueued = r.running_unqueued;
    main_unqueued = r.main_unqueued;
  }

  pub park-Refines : Refines (park wb ret_addr head w).kernel (dispatch s)
  park-Refines = ut_deactivate-Refines _ s ret_addr appended

  abbrev parked : World
  parked = park wb ret_addr head w

  same_links :
      SameOutside
        (insert_list_last w.kernel.links head wb)
        parked.kernel.links
        (w.kernel.ready_queue ∷ entries s.ready)
      × (parked.kernel.ready_queue ≡ w.kernel.ready_queue)
  unfolding ut_deactivate
  same_links =
      schedule-SameOutside (with_links w (insert_list_last w.kernel.links head wb)).kernel ret_addr
        s.ready appended.queue

  sleepers :
      (x : ℕ) → has x (ws ++ wb ∷ []) ≡ true → Sleeper parked (dispatch s) head (ws ++ wb ∷ []) x
  sleepers x i =
      let at = dispatch-main s.running s.main s.count s.ready in
      let split = has-append (entry_of (w.thread x)) ws (wb ∷ []) in
      elim (Bool-cases (has x ws)) [
        | inl old ↦
            let y = k.each x old in
            let d =
              dispatch-Unqueued w.kernel s.running s.main s.count (w.thread x) s.ready y.unqueued
                y.ne_main in
            record {
              unqueued = ground (arith, d.0, same_links.1);
              ne_running = d.1;
              ne_main = ground (arith, y.ne_main, at);
              entry = ground (arith, y.entry, f.entries_apart x old, split);
            }
        | inr new ↦
            let is : x ≡ wb = ground (arith, i, new, has-append x ws (wb ∷ [])) in
            let self : w.thread x ≡ s.running = ground (arith, is, mine) in
            let d =
              dispatch-Unqueued w.kernel s.running s.main s.count s.running s.ready
                r.running_unqueued f.ne_main in
            record {
              unqueued = ground (arith, d.0, same_links.1, self);
              ne_running = ground (arith, d.1, self);
              ne_main = ground (arith, f.ne_main, at, self);
              entry = ground (arith, f.own_entry, split, self);
            }
      ]

  pub park-Parked : Parked parked (dispatch s) head (ws ++ wb ∷ [])
  park-Parked = record {
    ring =
        IsRing-SameOutside (insert_list_last w.kernel.links head wb) parked.kernel.links head
          (ws ++ wb ∷ []) (w.kernel.ready_queue ∷ entries s.ready)
          (insert_list_last-IsRing w.kernel.links head wb ws k.ring f.elsewhere) same_links.0
          (λ p i. ground (arith, k.apart p, f.unqueued, has-append p ws (wb ∷ [])));
    apart = λ p i. ground (
      arith,
      k.apart p,
      f.unqueued,
      has-append p ws (wb ∷ []),
      same_links.1,
      dispatch-has p s.running s.main s.count s.ready,
    );
    each = sleepers;
    threads =
        Distinct-map-snoc w.thread wb ws k.threads
          (not-has-map w.thread _ ws (λ x i. ground (arith, mine, (k.each x i).ne_running)));
  }

-- The wait block `wb`, linked nowhere yet, gets the running thread and a request.
abbrev pub own_block : (wb : ℕ) → (ℕ → ℤ) → World → World
own_block wb requests w = record w {
  thread = update w.thread wb w.kernel.running_thread;
  block_units = requests;
}

module _ (w : World) (s : Sched) (head wb : ℕ) (requests : ℕ → ℤ) (ws : List ℕ)
    (k : Parked w s head ws) (free : has wb ws ≡ false) where
  own_block-thread : (x : ℕ) → has x ws ≡ true → (own_block wb requests w).thread x ≡ w.thread x
  own_block-thread x i = ground (arith, i, free)

  pub own_block-Parked : Parked (own_block wb requests w) s head ws
  own_block-Parked = record {
    ring = k.ring;
    apart = k.apart;
    each = λ x i.
        let y = k.each x i in
        let same = own_block-thread x i in
        record {
          unqueued = ground (arith, y.unqueued, same);
          ne_running = ground (arith, y.ne_running, same);
          ne_main = ground (arith, y.ne_main, same);
          entry = ground (arith, y.entry, same);
        };
    threads =
        rw (map-agree w.thread (own_block wb requests w).thread ws own_block-thread) k.threads;
  }

  pub own_block-FreshBlock :
      FreshBlock w s head wb ws → FreshBlock (own_block wb requests w) s head wb ws
  own_block-FreshBlock f = record {
    elsewhere = f.elsewhere;
    unqueued = f.unqueued;
    own_entry = f.own_entry;
    entries_apart = λ x i. ground (arith, f.entries_apart x i, own_block-thread x i);
    ne_main = f.ne_main;
  }

-- The other fields of the synchronizers do not matter to who is parked.
pub Parked-fields :
    (w : World) (s : Sched) (head : ℕ) (ws : List ℕ) (on : ℕ → Bool) (amounts : ℕ → ℤ)
    → Parked w s head ws
    → Parked (record w { signaled = on; units = amounts }) s head ws
Parked-fields w s head ws on amounts k = record {
  ring = k.ring;
  apart = k.apart;
  each = λ x i.
      let y = k.each x i in
      record {
        unqueued = y.unqueued;
        ne_running = y.ne_running;
        ne_main = y.ne_main;
        entry = y.entry;
      };
  threads = k.threads;
}
