-- ===== src/Counter/Locked/Ends.antt =====
-- The end of pthreads03.c: the counter when no thread has a round left, and the turns up to there.
use so_2021v_li42d.Base.{
  ℕ, zero, suc, ◌*◌, ◌-◌, ◌^◌, ◌≤◌, ◌<◌, ◌≡◌, refl, Bool, true, false, some, List, [], ◌∷◌, ◌++◌,
  if◌then◌else◌, get_elem?, set, Bool-cases, inl, inr, ◌⊎◌, arith,
}
use so_2021v_li42d.Counter.{
  Phase, outside, locked, loaded, stored, Thread, Counting, with_thread, thread_func, turn_of,
  count_all, count_start,
}
use so_2021v_li42d.Counter.Locked.Steps.{turn_of-Exact, count_all-Exact, start-Exact}
use so_2021v_li42d.Counter.Locked.{total_of, owed, inside_one, Busy, Exact, Busy-of, total_of-set}

abbrev pub AllDone : List Thread → Type 0
AllDone [] = Unit
AllDone (t ∷ ts) = (t.left ≡ 0) × AllDone ts

owed-AllDone : (ts : List Thread) → AllDone ts → owed ts ≡ 0
owed-AllDone [] d = refl
owed-AllDone (t ∷ ts) d = ground (arith, owed-AllDone ts d.1)

-- Whatever the order in which the threads of pthreads03.c run, once they have ended all their rounds the
-- counter is the number of the threads times the number of their rounds, if an int holds that.
pub count_all-AllDone :
    (n rounds : ℕ) (turns : List ℕ)
    → n * rounds < 2 ^ 31
    → AllDone (count_all turns (count_start n rounds)).threads
    → (count_all turns (count_start n rounds)).counter ≡ n * rounds
count_all-AllDone n rounds turns fits d =
    let h = count_all-Exact (n * rounds) turns (count_start n rounds) (start-Exact n rounds) fits in
    omega (arith, h.sum, owed-AllDone (count_all turns (count_start n rounds)).threads d)

abbrev work_of : (left : ℕ) → Phase → ℕ
work_of left outside = 4 * left
work_of left locked = 4 * left - 1
work_of left (loaded v) = 4 * left - 2
work_of left stored = 4 * left - 3

-- How many turns the threads need.
abbrev work : List Thread → ℕ
work ts = total_of (λ t. work_of t.left t.phase) ts

pos-cases : (n : ℕ) → (0 < n) ⊎ (n ≡ 0)
pos-cases n = omega arith

-- Where a sum of the threads is above 0, one of them is.
find_thread :
    (f : Thread → ℕ) (ts : List Thread)
    → 0 < total_of f ts
    → (i : ℕ) × (t : Thread) × (get_elem? ts i ≡ some t) × (0 < f t)
find_thread f [] some_work = absurd (omega arith)
find_thread f (t ∷ ts) some_work = elim (pos-cases (f t)) [
  | inl here ↦ (0, t, refl, here)
  | inr nil ↦ let (i, u, at, more) = find_thread f ts (omega arith) in (suc i, u, at, more)
]

Busy-work : (d left : ℕ) (p : Phase) → Busy d left p → 0 < inside_one p → 0 < work_of left p
Busy-work d left outside b i = absurd (omega arith)
Busy-work d left locked b i = omega arith
Busy-work d left (loaded v) b i = omega (arith, b.0)
Busy-work d left stored b i = omega arith

left_none : (left : ℕ) (p : Phase) → work_of left p ≡ 0 → left ≡ 0
left_none left outside e = omega arith
left_none left locked e = omega arith
left_none left (loaded v) e = omega arith
left_none left stored e = omega arith

AllDone-work : (ts : List Thread) → work ts ≡ 0 → AllDone ts
AllDone-work [] e = tt
AllDone-work (t ∷ ts) e = (left_none t.left t.phase (omega arith), AllDone-work ts (omega arith))

work-set :
    (ts : List Thread) (i : ℕ) (t u : Thread)
    → get_elem? ts i ≡ some t
    → work_of u.left u.phase < work_of t.left t.phase
    → work (set ts i u) < work ts
work-set ts i t u e less = omega (arith, total_of-set (λ x. work_of x.left x.phase) ts i t u e)

-- What a thread needs to go on: it is inside, or nobody is.
abbrev CanGo : Bool → Phase → Type 0
CanGo held p = (held ≡ false) ⊎ (0 < inside_one p)

module _ (i left : ℕ) (s : Counting) where
  lock-work :
      (held : Bool)
      → CanGo held outside
      → get_elem? s.threads i ≡ some (record { left = suc left; phase = outside })
      → work
          (if held
            then s
            else with_thread
                (record s { cnt_lock = true })
                i
                (record { left = suc left; phase = locked })).threads
        < work s.threads
  lock-work true (inl free) e = cc
  lock-work true (inr into) e = absurd (omega arith)
  lock-work false go e =
      work-set s.threads i _ (record { left = suc left; phase = locked }) e (omega arith)

thread_func-work :
    (i left : ℕ) (p : Phase) (s : Counting)
    → get_elem? s.threads i ≡ some (record { left = left; phase = p })
    → 0 < work_of left p
    → CanGo s.cnt_lock p
    → work (thread_func i left p s).threads < work s.threads
thread_func-work i zero outside s e some_work go = absurd (omega arith)
thread_func-work i (suc left) outside s e some_work go = lock-work i left s s.cnt_lock go e
thread_func-work i left locked s e some_work go =
    work-set s.threads i _ (record { left = left; phase = loaded s.counter }) e (omega arith)
thread_func-work i left (loaded v) s e some_work go =
    work-set s.threads i _ (record { left = left; phase = stored }) e (omega arith)
thread_func-work i left stored s e some_work go =
    work-set s.threads i _ (record { left = left - 1; phase = outside }) e (omega arith)

some_turn :
    (total : ℕ) (s : Counting)
    → Exact total s
    → 0 < work s.threads
    → (i : ℕ) × work (turn_of i (get_elem? s.threads i) s).threads < work s.threads
some_turn total s h more = elim (Bool-cases s.cnt_lock) [
  | inl held ↦
      let (i, t, at, into) =
        find_thread (λ x. inside_one x.phase) s.threads (ground (arith, h.exclusive, held)) in
      let busy = Busy-of s.counter s.threads i t at h.busy in
      (
        i,
        rw at (
            thread_func-work i t.left t.phase s at (Busy-work s.counter t.left t.phase busy into)
              (inr into)),
      )
  | inr free ↦
      let (i, t, at, some_work) = find_thread (λ x. work_of x.left x.phase) s.threads more in
      (i, rw at (thread_func-work i t.left t.phase s at some_work (inl free)))
]

some_turns :
    (fuel total : ℕ) (s : Counting)
    → work s.threads ≤ fuel
    → Exact total s
    → total < 2 ^ 31
    → (rest : List ℕ) × AllDone (count_all rest s).threads
unfolding count_all
some_turns zero total s enough h fits = ([], AllDone-work s.threads (omega arith))
some_turns (suc fuel) total s enough h fits = elim (pos-cases (work s.threads)) [
  | inl more ↦
      let (i, less) = some_turn total s h more in
      let next = turn_of-Exact total i (get_elem? s.threads i) s refl h fits in
      let (rest, done) =
        some_turns fuel total (turn_of i (get_elem? s.threads i) s) (omega arith) next fits in
      (i ∷ rest, done)
  | inr nil ↦ ([], AllDone-work s.threads nil)
]

count_all-append :
    (a b : List ℕ) (s : Counting) → count_all (a ++ b) s ≡ count_all b (count_all a s)
unfolding count_all
count_all-append [] b s = refl
count_all-append (i ∷ a) b s = count_all-append a b (turn_of i (get_elem? s.threads i) s)

-- However the threads of pthreads03.c have run so far, they can go on until all have ended their rounds,
-- and then the counter is the number of the threads times the number of their rounds, if an int holds
-- that: no order of turns leaves them waiting for the lock for ever.
pub count_all-can_end :
    (n rounds : ℕ) (turns : List ℕ)
    → n * rounds < 2 ^ 31
    → (rest : List ℕ) × AllDone (count_all (turns ++ rest) (count_start n rounds)).threads
      × ((count_all (turns ++ rest) (count_start n rounds)).counter ≡ n * rounds)
count_all-can_end n rounds turns fits =
    let s : Counting = count_all turns (count_start n rounds) in
    let h = count_all-Exact (n * rounds) turns (count_start n rounds) (start-Exact n rounds) fits in
    let (rest, done) = some_turns (work s.threads) (n * rounds) s (omega arith) h fits in
    let all : AllDone (count_all (turns ++ rest) (count_start n rounds)).threads =
      rw (count_all-append turns rest (count_start n rounds)) done in
    (rest, all, count_all-AllDone n rounds (turns ++ rest) fits all)
