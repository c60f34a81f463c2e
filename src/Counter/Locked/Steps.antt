-- ===== src/Counter/Locked/Steps.antt =====
-- A turn of a thread of pthreads03.c, and the turns of them all from the start of the program.
use so_2021v_li42d.Base.{
  ℕ, zero, suc, ◌+◌, ◌*◌, ◌-◌, ◌%◌, ◌^◌, ◌<◌, ◌≡◌, refl, Bool, true, false, Option, none, some,
  List, [], ◌∷◌, if◌then◌else◌, get_elem?, arith,
}
use so_2021v_li42d.Counter.{
  Phase, outside, locked, loaded, stored, Thread, Counting, with_thread, thread_func, turn_of,
  count_all, count_start, replicate,
}
use so_2021v_li42d.Counter.Locked.{
  owed, inside, Exact, owed-set, inside-set, Busy-of, AllBusy-set, AllBusy-outside, inside-le,
  AllBusy-only,
}

module _ (total i left : ℕ) (s : Counting) (h : Exact total s) (fits : total < 2 ^ 31) where
  lock-Exact :
      (held : Bool)
      → s.cnt_lock ≡ held
      → get_elem? s.threads i ≡ some (record { left = suc left; phase = outside })
      → Exact total (
          if held
          then s
          else with_thread
              (record s { cnt_lock = true })
              i
              (record { left = suc left; phase = locked }))
  lock-Exact true is e = h
  lock-Exact false is e =
      let t : Thread = record { left = suc left; phase = locked } in
      record {
        sum = omega (arith, h.sum, owed-set s.threads i _ t e);
        exclusive = ground (arith, h.exclusive, inside-set s.threads i _ t e);
        busy = AllBusy-set s.counter s.threads i t h.busy (omega arith);
      }

  load-Exact :
      get_elem? s.threads i ≡ some (record { left = left; phase = locked })
      → Exact total (thread_func i left locked s)
  load-Exact e =
      let t : Thread = record { left = left; phase = loaded s.counter } in
      record {
        sum = omega (arith, h.sum, owed-set s.threads i _ t e);
        exclusive = omega (arith, h.exclusive, inside-set s.threads i _ t e);
        busy =
            AllBusy-set s.counter s.threads i t h.busy
              (Busy-of s.counter s.threads i _ e h.busy, refl);
      }

  store-Exact :
      (v : ℕ)
      → get_elem? s.threads i ≡ some (record { left = left; phase = loaded v })
      → Exact total (thread_func i left (loaded v) s)
  store-Exact v e =
      let t : Thread = record { left = left; phase = stored } in
      let (some_left, same) = Busy-of s.counter s.threads i _ e h.busy in
      let one : inside s.threads ≡ 1 = ground (arith, h.exclusive, inside-le s.threads i _ e) in
      record {
        sum = omega (arith, h.sum, owed-set s.threads i _ t e, some_left, same);
        exclusive = omega (arith, h.exclusive, inside-set s.threads i _ t e);
        busy = AllBusy-only ((v + 1) % 2 ^ 32) s.threads i _ t e refl one some_left;
      }

  unlock-Exact :
      get_elem? s.threads i ≡ some (record { left = left; phase = stored })
      → Exact total (thread_func i left stored s)
  unlock-Exact e =
      let t : Thread = record { left = left - 1; phase = outside } in
      let one : inside s.threads ≡ 1 = ground (arith, h.exclusive, inside-le s.threads i _ e) in
      record {
        sum = omega (arith, h.sum, owed-set s.threads i _ t e);
        exclusive = omega (arith, one, inside-set s.threads i _ t e);
        busy = AllBusy-only s.counter s.threads i _ t e refl one tt;
      }

thread_func-Exact :
    (total i left : ℕ) (p : Phase) (s : Counting)
    → get_elem? s.threads i ≡ some (record { left = left; phase = p })
    → Exact total s
    → total < 2 ^ 31
    → Exact total (thread_func i left p s)
thread_func-Exact total i zero outside s e h fits = h
thread_func-Exact total i (suc left) outside s e h fits =
    lock-Exact total i left s h fits s.cnt_lock refl e
thread_func-Exact total i left locked s e h fits = load-Exact total i left s h fits e
thread_func-Exact total i left (loaded v) s e h fits = store-Exact total i left s h fits v e
thread_func-Exact total i left stored s e h fits = unlock-Exact total i left s h fits e

pub turn_of-Exact :
    (total i : ℕ) (t : Option Thread) (s : Counting)
    → get_elem? s.threads i ≡ t
    → Exact total s
    → total < 2 ^ 31
    → Exact total (turn_of i t s)
turn_of-Exact total i none s e h fits = h
turn_of-Exact total i (some t) s e h fits = thread_func-Exact total i t.left t.phase s e h fits

pub count_all-Exact :
    (total : ℕ) (turns : List ℕ) (s : Counting)
    → Exact total s
    → total < 2 ^ 31
    → Exact total (count_all turns s)
unfolding count_all
count_all-Exact total [] s h fits = h
count_all-Exact total (i ∷ turns) s h fits =
    count_all-Exact total turns (turn_of i (get_elem? s.threads i) s)
      (turn_of-Exact total i (get_elem? s.threads i) s refl h fits) fits

start_laws :
    (n rounds : ℕ)
    → let ts : List Thread = replicate n (record { left = rounds; phase = outside }) in
      (owed ts ≡ n * rounds) × (inside ts ≡ 0)
start_laws zero rounds = (omega arith, refl)
start_laws (suc n) rounds =
    let ih = start_laws n rounds in (grind (arith, ih.0), omega (arith, ih.1))

pub start-Exact : (n rounds : ℕ) → Exact (n * rounds) (count_start n rounds)
unfolding count_start
start-Exact n rounds =
    let laws = start_laws n rounds in
    record { sum = omega (arith, laws.0); exclusive = laws.1; busy = AllBusy-outside 0 _ laws.1 }
