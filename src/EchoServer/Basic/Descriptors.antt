-- ===== src/EchoServer/Basic/Descriptors.antt =====
-- The descriptors of the server of 20-net-sockets/01-basic, in every state that it reaches.
use so_2021v_li42d.Base.{
  ℕ, zero, suc, ◌+◌, ◌≡◌, refl, true, Option, none, some, arith, Bool-cases, inl, inr,
}
use so_2021v_li42d.EchoServer.{
  Input, failed, received, quit, stop, read_failed, write_failed, overrun, waiting, Round, ends,
  goes_on,
}
use so_2021v_li42d.EchoServer.Setup.{open_server, open_server-Opens, Opens}
use so_2021v_li42d.EchoServer.Basic.{
  Control, accepting, serving, finished, exited, overran, Basic, after_setup, basic_start,
  basic_accepted, basic_served, basic_serve, basic_dispatch, basic_step, basic_run,
}
use so_2021v_li42d.Posix.{closed, connection, Kernel, IsLawful, Os, opened, called}
use so_2021v_li42d.Posix.Owns.{
  Owns, accept-Owns, close-Owns, main-listening, conn-connection, close_main-base, one_more,
}

-- While it accepts, the server holds its socket; while it serves, also one connection; at the end the
-- descriptors are those from before. No call was made on a wrong descriptor.
abbrev pub Holds : (before : Os) (main_fd : ℕ) → Control → Os → Type 0
Holds before main_fd accepting os = Owns before.files main_fd (λ d. 0) os.files
Holds before main_fd (serving conn_fd) os =
    Owns before.files main_fd (one_more conn_fd (λ d. 0)) os.files
Holds before main_fd finished os = (d : ℕ) → os.files d ≡ before.files d
Holds before main_fd _ os = Unit

pub record Sound (before : Os) (s : Basic) : Type 0 where
  pub holds : Holds before s.main_fd s.control s.os
  pub proper : s.os.misuses ≡ before.misuses

accepted-Sound :
    (k : Kernel) (before : Os) (s : Basic) (fd : Option ℕ)
    → ((d : ℕ) → fd ≡ some d → s.os.files d ≡ closed)
    → s.os.misuses ≡ before.misuses
    → Owns before.files s.main_fd (λ d. 0) s.os.files
    → Sound before (basic_accepted k s (opened connection fd (called true s.os)))
accepted-Sound k before s none new m o = record { holds = tt; proper = m }
accepted-Sound k before s (some fd) new m o = elim (Bool-cases (k.succeeds (s.os.time + 1))) [
  | inl e ↦ rw e (record { holds = accept-Owns o fd (new fd refl) _ (λ d. refl); proper = m })
  | inr e ↦ rw e (record { holds = tt; proper = m })
]

served-Sound :
    (before os : Os) (s : Basic) (fd : ℕ) (r : Round)
    → os.misuses ≡ before.misuses
    → Owns before.files s.main_fd (one_more fd (λ d. 0)) os.files
    → Sound before (basic_served s fd os r)
served-Sound before os s fd (ends quit sent) m o =
    let here = conn-connection o fd (ground arith) in
    record { holds = close-Owns o fd (λ d. 0) (λ d. refl); proper = rw here m }
served-Sound before os s fd (ends stop sent) m o =
    let here = conn-connection o fd (ground arith) in
    let alone = close-Owns o fd (λ d. 0) (λ d. refl) in
    record { holds = close_main-base alone (λ d. refl); proper = rw (main-listening alone, here) m }
served-Sound before os s fd (ends read_failed sent) m o = record { holds = tt; proper = m }
served-Sound before os s fd (ends write_failed sent) m o = record { holds = tt; proper = m }
served-Sound before os s fd (ends overrun sent) m o = record { holds = tt; proper = m }
served-Sound before os s fd (ends waiting sent) m o = record { holds = tt; proper = m }
served-Sound before os s fd (goes_on buf sent) m o = record { holds = o; proper = m }

serve-Sound :
    (k : Kernel) (before os : Os) (s : Basic) (fd : ℕ) (input : Input)
    → os.misuses ≡ before.misuses
    → Owns before.files s.main_fd (one_more fd (λ d. 0)) os.files
    → Sound before (basic_serve k s fd (input, os))
serve-Sound k before os s fd failed m o = served-Sound before os s fd _ m o
serve-Sound k before os s fd (received bytes) m o =
    let here = conn-connection o fd (ground arith) in served-Sound before _ s fd _ (rw here m) o

dispatch-Sound :
    (k : Kernel)
    → IsLawful k
    → (before : Os) (s : Basic) (c : Control) → Holds before s.main_fd c s.os
    → s.os.misuses ≡ before.misuses
    → s.control ≡ c
    → Sound before (basic_dispatch k s c)
dispatch-Sound k lawful before s accepting o m e = rw (main-listening o) (
    accepted-Sound k before s (k.opens s.os.time s.os.files)
      (λ d opens. lawful.opens-closed s.os.time s.os.files d opens) m o)
dispatch-Sound k lawful before s (serving fd) o m e =
    rw (conn-connection o fd (ground arith))
      (serve-Sound k before (called true s.os) s fd (k.reads s.os.time) m o)
dispatch-Sound k lawful before s finished o m e = record { holds = rw e o; proper = m }
dispatch-Sound k lawful before s exited o m e = record { holds = rw e tt; proper = m }
dispatch-Sound k lawful before s overran o m e = record { holds = rw e tt; proper = m }

step-Sound :
    (k : Kernel)
    → IsLawful k
    → (before : Os) (s : Basic) → Sound before s
    → Sound before (basic_step k s)
unfolding basic_step
step-Sound k lawful before s h = dispatch-Sound k lawful before s s.control h.holds h.proper refl

run-Sound :
    (k : Kernel)
    → IsLawful k
    → (before : Os) (n : ℕ) (s : Basic) → Sound before s
    → Sound before (basic_run k n s)
unfolding basic_run
run-Sound k lawful before zero s h = h
run-Sound k lawful before (suc n) s h =
    run-Sound k lawful before n (basic_step k s) (step-Sound k lawful before s h)

start-Sound :
    (before : Os) (buf : ℕ → ℕ) (r : Option ℕ × Os)
    → Opens before r
    → Sound before (after_setup buf r)
start-Sound before buf (none, os) m = record { holds = tt; proper = m }
start-Sound before buf (some main_fd, os) h = record { holds = h.1; proper = h.0 }

-- Whatever the calls give, after any number of steps the server of 01-basic has made no call on a
-- wrong descriptor. While it accepts it holds only its socket, while it serves a client one connection
-- more, and when it stops by command all its descriptors are closed.
pub basic_run-Sound :
    (k : Kernel)
    → IsLawful k
    → (before : Os) (buf : ℕ → ℕ) (n : ℕ) → Sound before (basic_run k n (basic_start k before buf))
unfolding basic_start
basic_run-Sound k lawful before buf n =
    run-Sound k lawful before n (after_setup buf (open_server k before))
      (start-Sound before buf (open_server k before) (open_server-Opens k lawful before))
