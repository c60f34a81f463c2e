-- ===== src/Counter/Racing.antt =====
-- What the threads of pthreads02.c may leave in the counter, which they share without a lock.
use so_2021v_li42d.Base.{
  ℕ, zero, suc, ◌+◌, ◌*◌, ◌%◌, ◌^◌, ◌≤◌, ◌<◌, ◌≡◌, refl, ap, ◌∙◌, Option, none, some, List, [], ◌∷◌,
  ◌++◌, get_elem?, set, arith,
}
use so_2021v_li42d.Counter.{Racer, Race, race_func, race_turn, race, race_start, replicate}

abbrev pub rounds_left : List Racer → ℕ
rounds_left [] = 0
rounds_left (t ∷ ts) = t.left + rounds_left ts

-- What a thread has loaded leaves room for the rounds that are left.
abbrev pub Fits : (total rest : ℕ) → Option ℕ → Type 0
Fits total rest none = Unit
Fits total rest (some v) = v + rest ≤ total

abbrev pub AllFit : (total rest : ℕ) → List Racer → Type 0
AllFit total rest [] = Unit
AllFit total rest (t ∷ ts) = Fits total rest t.loaded_value × AllFit total rest ts

pub record Bounded (total : ℕ) (s : Race) : Type 0 where
  pub in_total : s.counter + rounds_left s.racers ≤ total
  pub all_fit : AllFit total (rounds_left s.racers) s.racers

rounds_left-set :
    (ts : List Racer) (i : ℕ) (t u : Racer)
    → get_elem? ts i ≡ some t
    → rounds_left (set ts i u) + t.left ≡ rounds_left ts + u.left
rounds_left-set [] i t u e = cc
rounds_left-set (x ∷ ts) zero t u e = let same : x ≡ t = cc in rw same (omega arith)
rounds_left-set (x ∷ ts) (suc i) t u e = omega (arith, rounds_left-set ts i t u e)

Fits-less :
    (total rest fewer : ℕ) (v : Option ℕ) → fewer ≤ rest → Fits total rest v → Fits total fewer v
Fits-less total rest fewer none le f = tt
Fits-less total rest fewer (some v) le f = omega arith

AllFit-less :
    (total rest fewer : ℕ) (ts : List Racer)
    → fewer ≤ rest
    → AllFit total rest ts
    → AllFit total fewer ts
AllFit-less total rest fewer [] le all = tt
AllFit-less total rest fewer (x ∷ ts) le all =
    (Fits-less total rest fewer x.loaded_value le all.0, AllFit-less total rest fewer ts le all.1)

AllFit-set :
    (total rest fewer : ℕ) (ts : List Racer) (i : ℕ) (u : Racer)
    → fewer ≤ rest
    → AllFit total rest ts
    → Fits total fewer u.loaded_value
    → AllFit total fewer (set ts i u)
AllFit-set total rest fewer [] i u le all f = tt
AllFit-set total rest fewer (x ∷ ts) zero u le all f = (f, AllFit-less total rest fewer ts le all.1)
AllFit-set total rest fewer (x ∷ ts) (suc i) u le all f = (
  Fits-less total rest fewer x.loaded_value le all.0,
  AllFit-set total rest fewer ts i u le all.1 f,
)

Fits-of :
    (total rest : ℕ) (ts : List Racer) (i : ℕ) (t : Racer)
    → get_elem? ts i ≡ some t
    → AllFit total rest ts
    → Fits total rest t.loaded_value
Fits-of total rest [] i t e all = cc
Fits-of total rest (x ∷ ts) zero t e all = let same : x ≡ t = cc in rw (← same) all.0
Fits-of total rest (x ∷ ts) (suc i) t e all = Fits-of total rest ts i t e all.1

race_func-Bounded :
    (total i left : ℕ) (v : Option ℕ) (s : Race)
    → total < 2 ^ 31
    → get_elem? s.racers i ≡ some (record { left = left; loaded_value = v })
    → Bounded total s
    → Bounded total (race_func i left v s)
race_func-Bounded total i zero v s fits e h = h
race_func-Bounded total i (suc left) none s fits e h =
    let u : Racer = record { left = suc left; loaded_value = some s.counter } in
    let same = rounds_left-set s.racers i _ u e in
    record {
      in_total = omega (arith, h.in_total, same);
      all_fit =
          AllFit-set total (rounds_left s.racers) _ s.racers i u (omega (arith, same)) h.all_fit
            (omega (arith, h.in_total, same));
    }
race_func-Bounded total i (suc left) (some v) s fits e h =
    let u : Racer = record { left = left; loaded_value = none } in
    let same = rounds_left-set s.racers i _ u e in
    let room : v + rounds_left s.racers ≤ total =
      Fits-of total (rounds_left s.racers) s.racers i _ e h.all_fit in
    record {
      in_total = omega (arith, room, same, fits);
      all_fit =
          AllFit-set total (rounds_left s.racers) _ s.racers i u (omega (arith, same)) h.all_fit tt;
    }

race_turn-Bounded :
    (total i : ℕ) (t : Option Racer) (s : Race)
    → total < 2 ^ 31
    → get_elem? s.racers i ≡ t
    → Bounded total s
    → Bounded total (race_turn i t s)
race_turn-Bounded total i none s fits e h = h
race_turn-Bounded total i (some t) s fits e h =
    race_func-Bounded total i t.left t.loaded_value s fits e h

race-Bounded :
    (total : ℕ) (turns : List ℕ) (s : Race)
    → total < 2 ^ 31
    → Bounded total s
    → Bounded total (race turns s)
unfolding race
race-Bounded total [] s fits h = h
race-Bounded total (i ∷ turns) s fits h =
    race-Bounded total turns (race_turn i (get_elem? s.racers i) s) fits
      (race_turn-Bounded total i (get_elem? s.racers i) s fits refl h)

start_laws :
    (n rounds total rest : ℕ)
    → let ts : List Racer = replicate n (record { left = rounds; loaded_value = none }) in
      (rounds_left ts ≡ n * rounds) × AllFit total rest ts
start_laws zero rounds total rest = (omega arith, tt)
start_laws (suc n) rounds total rest =
    let ih = start_laws n rounds total rest in (grind (arith, ih.0), (tt, ih.1))

-- In whatever order the threads of pthreads02.c run, the counter and the rounds that are left together
-- are never above the number of all the rounds, if an int holds that: no increment counts twice.
pub race-in_total :
    (n rounds : ℕ) (turns : List ℕ)
    → n * rounds < 2 ^ 31
    → let s : Race = race turns (race_start n rounds) in
      s.counter + rounds_left s.racers ≤ n * rounds
unfolding race_start
race-in_total n rounds turns fits =
    let start : Bounded (n * rounds) (race_start n rounds) =
      (let laws = start_laws n rounds (n * rounds) _ in
        record { in_total = omega (arith, laws.0); all_fit = laws.1 }) in
    (race-Bounded (n * rounds) turns (race_start n rounds) fits start).in_total

-- Two threads that take turns: each loads before either stores, or each stores before the other loads.
abbrev pub colliding : ℕ → List ℕ
colliding zero = []
colliding (suc n) = 0 ∷ 1 ∷ 0 ∷ 1 ∷ colliding n

abbrev pub apart : ℕ → List ℕ
apart zero = []
apart (suc n) = 0 ∷ 0 ∷ 1 ∷ 1 ∷ apart n

-- Two threads before the load, with `n` rounds left.
abbrev pub pair : (counter n : ℕ) → Race
pair c n = record { counter = c; racers = replicate 2 (record { left = n; loaded_value = none }) }

race-append : (a b : List ℕ) (s : Race) → race (a ++ b) s ≡ race b (race a s)
unfolding race
race-append [] b s = refl
race-append (i ∷ a) b s = race-append a b (race_turn i (get_elem? s.racers i) s)

same_pair : (c d n m : ℕ) → c ≡ d → n ≡ m → pair c n ≡ pair d m
same_pair c d n m e f = rw e (rw f refl)

race-colliding : (j n c : ℕ) → c + j < 2 ^ 31 → race (colliding j) (pair c (j + n)) ≡ pair (c + j) n
unfolding race
race-colliding zero n c fits = same_pair c (c + 0) (0 + n) n (omega arith) (omega arith)
race-colliding (suc j) n c fits =
    let here : pair c (suc j + n) ≡ pair c (suc (j + n)) =
      same_pair c c (suc j + n) (suc (j + n)) refl (omega arith) in
    let next : pair ((c + 1) % 2 ^ 32) (j + n) ≡ pair (c + 1) (j + n) =
      same_pair ((c + 1) % 2 ^ 32) (c + 1) (j + n) (j + n) (omega arith) refl in
    ap (race (colliding (suc j))) here
    ∙ ap (race (colliding j)) next
    ∙ race-colliding j n (c + 1) (omega arith)
    ∙ same_pair (c + 1 + j) (c + suc j) n n (omega arith) refl

race-apart : (k n c : ℕ) → c + 2 * k < 2 ^ 31 → race (apart k) (pair c (k + n)) ≡ pair (c + 2 * k) n
unfolding race
race-apart zero n c fits = same_pair c (c + 2 * 0) (0 + n) n (omega arith) (omega arith)
race-apart (suc k) n c fits =
    let here : pair c (suc k + n) ≡ pair c (suc (k + n)) =
      same_pair c c (suc k + n) (suc (k + n)) refl (omega arith) in
    let next : pair (((c + 1) % 2 ^ 32 + 1) % 2 ^ 32) (k + n) ≡ pair (c + 2) (k + n) =
      same_pair (((c + 1) % 2 ^ 32 + 1) % 2 ^ 32) (c + 2) (k + n) (k + n) (omega arith) refl in
    ap (race (apart (suc k))) here
    ∙ ap (race (apart k)) next
    ∙ race-apart k n (c + 2) (omega arith)
    ∙ same_pair (c + 2 + 2 * k) (c + 2 * suc k) n n (omega arith) refl

-- Two threads of pthreads02.c with `j + k` rounds each can lose any number of increments up to half of
-- them all: there is an order in which they end all their rounds, `j` of them in collisions and `k` of
-- them apart, and leave `j + 2 * k` in the counter, if an int holds that.
pub race-loses :
    (j k : ℕ)
    → j + 2 * k < 2 ^ 31
    → race (colliding j ++ apart k) (race_start 2 (j + k)) ≡ record {
      counter = j + 2 * k;
      racers = replicate 2 (record { left = 0; loaded_value = none });
    }
unfolding race_start
race-loses j k fits =
    let rounds : pair (0 + j) k ≡ pair j (k + 0) =
      same_pair (0 + j) j k (k + 0) (omega arith) (omega arith) in
    race-append (colliding j) (apart k) (pair 0 (j + k))
    ∙ ap (race (apart k)) (race-colliding j k 0 (omega arith))
    ∙ ap (race (apart k)) rounds
    ∙ race-apart k 0 j fits
