-- ===== src/Counter/Locked.antt =====
-- pthreads03.c: what holds between the counter, the lock and where the threads stand.
pub mod Steps
pub mod Ends
use so_2021v_li42d.Base.{
  ℕ, zero, suc, ◌+◌, ◌*◌, ◌-◌, ◌%◌, ◌^◌, ◌≤◌, ◌<◌, ◌≡◌, ◌≢◌, refl, ap, sym, ◌∙◌, Bool, true, false,
  Option, none, some, List, [], ◌∷◌, if◌then◌else◌, ◌==◌, get_elem?, set, Bool-cases, inl, inr, ◌⊎◌,
  arith,
}
use so_2021v_li42d.Counter.{
  Phase, outside, locked, loaded, stored, Thread, Counting, with_thread, thread_func, turn_of,
  count_all, count_start, replicate, nthreads, niterations,
}

-- The rounds in which a thread has not yet stored.
abbrev pub owed_by : (left : ℕ) → Phase → ℕ
owed_by left stored = left - 1
owed_by left _ = left

abbrev pub total_of : (Thread → ℕ) → List Thread → ℕ
total_of f [] = 0
total_of f (t ∷ ts) = f t + total_of f ts

abbrev pub owed : List Thread → ℕ
owed ts = total_of (λ t. owed_by t.left t.phase) ts

-- How many threads are between the lock and the unlock.
abbrev pub inside_one : Phase → ℕ
inside_one outside = 0
inside_one _ = 1

abbrev pub inside : List Thread → ℕ
inside ts = total_of (λ t. inside_one t.phase) ts

-- A thread inside is in a round, and has loaded what the counter is.
abbrev pub Busy : (counter left : ℕ) → Phase → Type 0
Busy counter left outside = Unit
Busy counter left (loaded v) = (0 < left) × (v ≡ counter)
Busy counter left _ = 0 < left

abbrev pub AllBusy : (counter : ℕ) → List Thread → Type 0
AllBusy counter [] = Unit
AllBusy counter (t ∷ ts) = Busy counter t.left t.phase × AllBusy counter ts

pub record Exact (total : ℕ) (s : Counting) : Type 0 where
  pub sum : s.counter + owed s.threads ≡ total
  pub exclusive : inside s.threads ≡ (if s.cnt_lock then 1 else 0)
  pub busy : AllBusy s.counter s.threads

pub total_of-set :
    (f : Thread → ℕ) (ts : List Thread) (i : ℕ) (t u : Thread)
    → get_elem? ts i ≡ some t
    → total_of f (set ts i u) + f t ≡ total_of f ts + f u
total_of-set f [] i t u e = cc
total_of-set f (x ∷ ts) zero t u e = let same : x ≡ t = cc in rw same (omega arith)
total_of-set f (x ∷ ts) (suc i) t u e = omega (arith, total_of-set f ts i t u e)

pub total_of-le :
    (f : Thread → ℕ) (ts : List Thread) (i : ℕ) (t : Thread)
    → get_elem? ts i ≡ some t
    → f t ≤ total_of f ts
total_of-le f [] i t e = cc
total_of-le f (x ∷ ts) zero t e = let same : x ≡ t = cc in rw same (omega arith)
total_of-le f (x ∷ ts) (suc i) t e = omega (arith, total_of-le f ts i t e)

pub owed-set :
    (ts : List Thread) (i : ℕ) (t u : Thread)
    → get_elem? ts i ≡ some t
    → owed (set ts i u) + owed_by t.left t.phase ≡ owed ts + owed_by u.left u.phase
owed-set ts i t u e = total_of-set (λ x. owed_by x.left x.phase) ts i t u e

pub inside-set :
    (ts : List Thread) (i : ℕ) (t u : Thread)
    → get_elem? ts i ≡ some t
    → inside (set ts i u) + inside_one t.phase ≡ inside ts + inside_one u.phase
inside-set ts i t u e = total_of-set (λ x. inside_one x.phase) ts i t u e

pub Busy-of :
    (counter : ℕ) (ts : List Thread) (i : ℕ) (t : Thread)
    → get_elem? ts i ≡ some t
    → AllBusy counter ts
    → Busy counter t.left t.phase
Busy-of counter [] i t e b = cc
Busy-of counter (x ∷ ts) zero t e b = let same : x ≡ t = cc in rw (← same) b.0
Busy-of counter (x ∷ ts) (suc i) t e b = Busy-of counter ts i t e b.1

pub AllBusy-set :
    (counter : ℕ) (ts : List Thread) (i : ℕ) (u : Thread)
    → AllBusy counter ts
    → Busy counter u.left u.phase
    → AllBusy counter (set ts i u)
AllBusy-set counter [] i u b h = tt
AllBusy-set counter (x ∷ ts) zero u b h = (h, b.1)
AllBusy-set counter (x ∷ ts) (suc i) u b h = (b.0, AllBusy-set counter ts i u b.1 h)

Busy-outside : (d left : ℕ) (p : Phase) → inside_one p ≡ 0 → Busy d left p
Busy-outside d left outside e = tt
Busy-outside d left locked e = absurd (omega arith)
Busy-outside d left (loaded v) e = absurd (omega arith)
Busy-outside d left stored e = absurd (omega arith)

-- Where no thread is inside, the counter may change.
pub AllBusy-outside : (d : ℕ) (ts : List Thread) → inside ts ≡ 0 → AllBusy d ts
AllBusy-outside d [] e = tt
AllBusy-outside d (t ∷ ts) e =
    (Busy-outside d t.left t.phase (omega arith), AllBusy-outside d ts (omega arith))

pub inside-le :
    (ts : List Thread) (i : ℕ) (t : Thread)
    → get_elem? ts i ≡ some t
    → inside_one t.phase ≤ inside ts
inside-le ts i t e = total_of-le (λ x. inside_one x.phase) ts i t e

-- The only thread inside may change the counter.
pub AllBusy-only :
    (d : ℕ) (ts : List Thread) (i : ℕ) (t u : Thread)
    → get_elem? ts i ≡ some t
    → inside_one t.phase ≡ 1
    → inside ts ≡ 1
    → Busy d u.left u.phase
    → AllBusy d (set ts i u)
AllBusy-only d [] i t u e one all h = cc
AllBusy-only d (x ∷ ts) zero t u e one all h =
    let same : x ≡ t = cc in
    (h, AllBusy-outside d ts (omega (arith, ap (λ y. inside_one y.phase) same)))
AllBusy-only d (x ∷ ts) (suc i) t u e one all h =
    let more = inside-le ts i t e in
    (Busy-outside d x.left x.phase (omega arith), AllBusy-only d ts i t u e one (omega arith) h)
