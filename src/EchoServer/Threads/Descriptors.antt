-- ===== src/EchoServer/Threads/Descriptors.antt =====
-- The descriptors of the servers with a thread for each connection, in every state that they reach.
use mathlib.Core.Path.{subst, fun_ext}
use so_2021v_li42d.Base.{
  ℕ, zero, suc, ◌+◌, ◌<◌, ==_iff, ◌≡◌, refl, Bool, true, false, ◌&&◌, Option, none, some, List, [],
  ◌∷◌, ◌++◌, if◌then◌else◌, ◌==◌, arith, Bool-cases, inl, inr, get_elem?, set, count, count-set,
  count-append,
}
use so_2021v_li42d.EchoServer.{
  Input, failed, received, quit, stop, read_failed, write_failed, overrun, waiting, Round, ends,
  goes_on, process_connection,
}
use so_2021v_li42d.EchoServer.Setup.{open_server, open_server-Opens, Opens}
use so_2021v_li42d.EchoServer.Threads.{
  Activity, running, left, lost, Thread, Mode, up, exited, overran, Threads, after_setup,
  threaded_start, threaded_accepted, local_accepted, with_activity, thread_served, thread_serve,
  thread_active, thread_turn, Turn, main_turn, turn_of, turn, threads_run, Accepted, started,
}
use so_2021v_li42d.Posix.{closed, connection, Kernel, IsLawful, Os, opened, called, read, close}
use so_2021v_li42d.Posix.Owns.{
  Owns, accept-Owns, close-Owns, main-listening, conn-connection, one_more,
}

-- A thread that has not closed its connection.
abbrev pub is_holding : Activity → Bool
is_holding left = false
is_holding _ = true

-- How many threads hold the connection `d`.
abbrev pub held : List Thread → ℕ → ℕ
held threads d = count (λ t. t.conn_fd == d && is_holding t.activity) threads

-- While the server is up, its descriptors are its socket and the connections that its threads have not
-- closed; no call was made on a wrong descriptor.
pub record Sound (before : Os) (s : Threads) : Type 0 where
  pub holds : s.mode ≡ up → Owns before.files s.main_fd (held s.threads) s.os.files
  pub proper : s.os.misuses ≡ before.misuses

held-set :
    (threads : List Thread) (i d : ℕ) (t v : Thread)
    → get_elem? threads i ≡ some t
    → held (set threads i v) d + (if t.conn_fd == d && is_holding t.activity then 1 else 0)
      ≡ held threads d + (if v.conn_fd == d && is_holding v.activity then 1 else 0)
held-set threads i d t v e =
    count-set (λ u. u.conn_fd == d && is_holding u.activity) threads i t v e

-- A thread of the list that runs holds its connection.
held-pos :
    (threads : List Thread) (i : ℕ) (t : Thread)
    → get_elem? threads i ≡ some t
    → is_holding t.activity ≡ true
    → 0 < held threads t.conn_fd
held-pos [] i t e h = cc
held-pos (u ∷ threads) zero t e h =
    let same : u ≡ t = cc in rw same (ground (arith, (==_iff t.conn_fd t.conn_fd).1 refl, h))
held-pos (u ∷ threads) (suc i) t e h = ground (arith, held-pos threads i t e h)

started_holds : (b : Bool) (buf : ℕ → ℕ) → is_holding (started b buf) ≡ true
started_holds true buf = refl
started_holds false buf = refl

held-new :
    (threads : List Thread) (b : Bool) (buf : ℕ → ℕ) (fd d : ℕ)
    → held (threads ++ record { conn_fd = fd; activity = started b buf } ∷ []) d
      ≡ one_more fd (held threads) d
held-new threads b buf fd d = ground (
  arith,
  count-append (λ u. u.conn_fd == d && is_holding u.activity) threads
      (record { conn_fd = fd; activity = started b buf } ∷ []),
  started_holds b buf,
)

threaded_accepted-Sound :
    (k : Kernel) (before : Os) (buf : ℕ → ℕ) (s : Threads) (fd : Option ℕ)
    → ((d : ℕ) → fd ≡ some d → s.os.files d ≡ closed)
    → s.mode ≡ up
    → Sound before s
    → Sound before (threaded_accepted k buf s (opened connection fd (called true s.os)))
threaded_accepted-Sound k before buf s none new u h = record { holds = λ e. cc; proper = h.proper }
threaded_accepted-Sound k before buf s (some fd) new u h =
    elim (Bool-cases (k.succeeds (s.os.time + 1))) [
      | inl e ↦ rw e (record {
        holds = λ _. accept-Owns (h.holds u) fd (new fd refl) _ (held-new s.threads _ buf fd);
        proper = h.proper;
      })
      | inr e ↦ rw e (record { holds = λ e. cc; proper = h.proper })
    ]

pub local_accepted-Sound :
    (k : Kernel) (before : Os) (buf : ℕ → ℕ) (s : Threads) (fd : Option ℕ)
    → ((d : ℕ) → fd ≡ some d → s.os.files d ≡ closed)
    → s.mode ≡ up
    → Sound before s
    → Sound before (local_accepted k buf s (opened connection fd (called true s.os)))
local_accepted-Sound k before buf s none new u h = record {
  holds = λ e. cc;
  proper = rw (main-listening (h.holds u)) h.proper;
}
local_accepted-Sound k before buf s (some fd) new u h = record {
  holds = λ _. accept-Owns (h.holds u) fd (new fd refl) _ (held-new s.threads _ buf fd);
  proper = h.proper;
}

-- A thread that goes on, or that is lost, still holds its connection.
still-Sound :
    (before os : Os) (s : Threads) (i : ℕ) (t : Thread) (a : Activity)
    → get_elem? s.threads i ≡ some t
    → is_holding t.activity ≡ true
    → is_holding a ≡ true
    → os.misuses ≡ before.misuses
    → Owns before.files s.main_fd (held s.threads) os.files
    → Sound before (with_activity s os i t.conn_fd a)
still-Sound before os s i t a e h h' m o = record {
  holds = λ _.
      subst (λ f. Owns before.files s.main_fd f os.files)
        (fun_ext (λ d. ground (
          arith,
          held-set s.threads i d t (record { conn_fd = t.conn_fd; activity = a }) e,
          h,
          h',
        )))
        o;
  proper = m;
}

left-Sound :
    (before os : Os) (s : Threads) (i : ℕ) (t : Thread)
    → get_elem? s.threads i ≡ some t
    → is_holding t.activity ≡ true
    → os.misuses ≡ before.misuses
    → Owns before.files s.main_fd (held s.threads) os.files
    → Sound before (with_activity s (close t.conn_fd os) i t.conn_fd left)
left-Sound before os s i t e h m o =
    let here = conn-connection o t.conn_fd (held-pos s.threads i t e h) in
    record {
      holds = λ _. close-Owns o t.conn_fd _ (λ d.
          ground (
            arith,
            held-set s.threads i d t (record { conn_fd = t.conn_fd; activity = left }) e,
            h,
          ));
      proper = rw here m;
    }

served-Sound :
    (before os : Os) (s : Threads) (i : ℕ) (t : Thread) (r : Round)
    → get_elem? s.threads i ≡ some t
    → is_holding t.activity ≡ true
    → Sound before s
    → os.misuses ≡ before.misuses
    → Owns before.files s.main_fd (held s.threads) os.files
    → Sound before (thread_served s i t.conn_fd os r)
served-Sound before os s i t (ends quit sent) e h g m o = left-Sound before os s i t e h m o
served-Sound before os s i t (ends stop sent) e h g m o = record { holds = λ u. cc; proper = m }
served-Sound before os s i t (ends overrun sent) e h g m o = record { holds = λ u. cc; proper = m }
served-Sound before os s i t (ends read_failed sent) e h g m o =
    still-Sound before os s i t lost e h refl m o
served-Sound before os s i t (ends write_failed sent) e h g m o =
    still-Sound before os s i t lost e h refl m o
served-Sound before os s i t (ends waiting sent) e h g m o = g
served-Sound before os s i t (goes_on buf sent) e h g m o =
    still-Sound before os s i t (running buf) e h refl m o

module _ (round : (ℕ → ℕ) → Input → Bool → Round) (k : Kernel) (before : Os) where
  serve-Sound :
      (os : Os) (s : Threads) (i : ℕ) (t : Thread) (buf : ℕ → ℕ) (input : Input)
      → get_elem? s.threads i ≡ some t
      → is_holding t.activity ≡ true
      → Sound before s
      → os.misuses ≡ before.misuses
      → Owns before.files s.main_fd (held s.threads) os.files
      → Sound before (thread_serve round k s i t.conn_fd buf (input, os))
  serve-Sound os s i t buf failed e h g m o = served-Sound before os s i t _ e h g m o
  serve-Sound os s i t buf (received bytes) e h g m o =
      let here = conn-connection o t.conn_fd (held-pos s.threads i t e h) in
      served-Sound before _ s i t _ e h g (rw here m) o

  active-Sound :
      (s : Threads) (i fd : ℕ) (a : Activity)
      → get_elem? s.threads i ≡ some (record { conn_fd = fd; activity = a })
      → s.mode ≡ up
      → Sound before s
      → Sound before (thread_active round k s i fd a)
  active-Sound s i fd (running buf) e u g =
      let t : Thread = record { conn_fd = fd; activity = running buf } in
      let here = conn-connection (g.holds u) fd (held-pos s.threads i t e refl) in
      serve-Sound (read k fd s.os).1 s i t buf (k.reads s.os.time) e refl g (rw here g.proper)
        (g.holds u)
  active-Sound s i fd left e u g = g
  active-Sound s i fd lost e u g = g

  turn-Sound :
      (s : Threads) (i : ℕ) (t : Option Thread)
      → get_elem? s.threads i ≡ t
      → s.mode ≡ up
      → Sound before s
      → Sound before (thread_turn round k s i t)
  turn-Sound s i none e u g = g
  turn-Sound s i (some t) e u g = active-Sound s i t.conn_fd t.activity e u g

  -- What `main` does after `accept` keeps the invariant.
  abbrev pub Keeps : Accepted → Type 0
  Keeps accepted =
      (buf : ℕ → ℕ) (s : Threads) (fd : Option ℕ)
      → ((d : ℕ) → fd ≡ some d → s.os.files d ≡ closed)
      → s.mode ≡ up
      → Sound before s
      → Sound before (accepted k buf s (opened connection fd (called true s.os)))

  step-Sound :
      IsLawful k
      → (accepted : Accepted) → Keeps accepted
      → (s : Threads) (m : Mode) (t : Turn) → s.mode ≡ m
      → Sound before s
      → Sound before (turn accepted round k s m t)
  step-Sound lawful accepted keeps s up (main_turn buf) u g = rw (main-listening (g.holds u)) (
      keeps buf s (k.opens s.os.time s.os.files)
        (λ d opens. lawful.opens-closed s.os.time s.os.files d opens) u g)
  step-Sound lawful accepted keeps s up (turn_of i) u g =
      turn-Sound s i (get_elem? s.threads i) refl u g
  step-Sound lawful accepted keeps s exited t u g = g
  step-Sound lawful accepted keeps s overran t u g = g

  pub run-Sound :
      IsLawful k
      → (accepted : Accepted) → Keeps accepted
      → (ts : List Turn) (s : Threads) → Sound before s
      → Sound before (threads_run accepted round k ts s)
  unfolding threads_run
  run-Sound lawful accepted keeps [] s g = g
  run-Sound lawful accepted keeps (t ∷ ts) s g =
      run-Sound lawful accepted keeps ts (turn accepted round k s s.mode t)
        (step-Sound lawful accepted keeps s s.mode t refl g)

pub start-Sound : (before : Os) (r : Option ℕ × Os) → Opens before r → Sound before (after_setup r)
start-Sound before (none, os) m = record { holds = λ e. cc; proper = m }
start-Sound before (some main_fd, os) h = record { holds = λ _. h.1; proper = h.0 }

-- Whatever the calls give and in whatever order the threads run, the server of 02-multithreaded makes
-- no call on a wrong descriptor, and while it is up its descriptors are its socket and one connection
-- for each thread that has not closed it.
pub threaded_run-Sound :
    (k : Kernel)
    → IsLawful k
    → (before : Os) (turns : List Turn)
    → Sound before
        (threads_run threaded_accepted process_connection k turns (threaded_start k before))
unfolding threaded_start
threaded_run-Sound k lawful before turns =
    run-Sound process_connection k before lawful threaded_accepted
      (threaded_accepted-Sound k before) turns _
      (start-Sound before (open_server k before) (open_server-Opens k lawful before))
