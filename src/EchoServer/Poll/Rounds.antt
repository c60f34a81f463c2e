-- ===== src/EchoServer/Poll/Rounds.antt =====
-- The rounds of the server of 21-async/01-poll: its descriptors, the room in its array, its end.
use so_2021v_li42d.Base.{
  ℕ, ◌+◌, ◌≤◌, ◌≡◌, refl, ◌∙◌, sym, true, Option, none, some, List, [], ◌∷◌, ◌++◌, ◌==◌, update,
  update_self, arith, Bool-cases, inl, inr, count-append, length-append,
}
use so_2021v_li42d.EchoServer.Setup.{open_server, open_server-Opens, Opens}
use so_2021v_li42d.EchoServer.Poll.Descriptors.{clients_on}
use so_2021v_li42d.EchoServer.Poll.Server.{
  Report, Mode, up, finished, exited, read_failed, address_failed, call_failed, out_of_fuel, Server,
  after_setup, poll_start, nclients, polled, enter, accepted, round, poll_step, poll_run,
}
use so_2021v_li42d.Posix.{
  closed, stream, connection, Kernel, IsLawful, Os, opened, called, call, close,
}
use so_2021v_li42d.Posix.Owns.{Owns, accept-Owns, same-Owns, main-listening}
use so_2021v_li42d.EchoServer.Poll.Clients.{
  Sound, owned, polled-count, polled-length, shut-Sound, running-Sound, up-Sound, serve-Sound,
  after_accept-Sound,
}

module _ (max_clients : ℕ) (before : Os) where
  enter-Sound :
      (ev : Report) (s : Server) (fd : ℕ) (os : Os)
      → s.mode ≡ up
      → nclients s ≤ max_clients
      → s.os.files fd ≡ closed
      → Owns before.files s.main_fd (clients_on s.clients) s.os.files
      → ((d : ℕ) → os.files d ≡ update s.os.files fd connection d)
      → os.misuses ≡ before.misuses
      → Sound max_clients before (enter max_clients ev s fd os)
  enter-Sound ev s fd os u room free o files m =
      let here : os.files fd ≡ connection = files fd ∙ update_self s.os.files fd connection in
      elim (Bool-cases (nclients s == max_clients)) [
        | inl full ↦ rw full (
            up-Sound max_clients before (record s { os = close fd os }) u
              (same-Owns (λ d. refl) (λ d. ground (arith, files d, free)) o) room (rw here m))
        | inr some_room ↦ rw some_room (
            up-Sound max_clients before
              (record s {
                os = os;
                clients = s.clients ++ record { fd = fd; revents = ev.stale } ∷ [];
              })
              u
              (same-Owns
                (λ d. ground (
                  arith,
                  count-append (λ c. c.fd == d) s.clients
                      (record { fd = fd; revents = ev.stale } ∷ []),
                ))
                (λ d. sym (files d)) (accept-Owns o fd free _ (λ d. refl)))
              (ground (
                arith,
                some_room,
                room,
                length-append {0} s.clients (record { fd = fd; revents = ev.stale } ∷ []),
              ))
              m)
      ]

  enter-up :
      (ev : Report) (s : Server) (fd : ℕ) (os : Os)
      → s.mode ≡ up
      → (enter max_clients ev s fd os).mode ≡ up
  enter-up ev s fd os u = ground (arith, u)

  accepted-Sound :
      (k : Kernel) (ev : Report) (s : Server) (fd : Option ℕ)
      → ((d : ℕ) → fd ≡ some d → s.os.files d ≡ closed)
      → s.mode ≡ up
      → Sound max_clients before s
      → Sound max_clients before
          (accepted max_clients k ev s (opened connection fd (called true s.os)))
  accepted-Sound k ev s none new u h =
      running-Sound max_clients before (record s { os = called true s.os; mode = call_failed })
        (owned u h) h.room (h.proper (λ e. cc (u, e)))
  accepted-Sound k ev s (some fd) new u h =
      let m = h.proper (λ e. cc (u, e)) in
      let r = opened connection (some fd) (called true s.os) in
      elim (Bool-cases (k.succeeds (s.os.time + 1))) [
        | inl e ↦ rw e (
            after_accept-Sound max_clients before ev _ (enter-up ev s fd (call k r.1).1 u)
              (enter-Sound ev s fd (call k r.1).1 u h.room (new fd refl) (owned u h) (λ d. refl) m))
        | inr e ↦ rw e (
            running-Sound max_clients before
              (record s { os = (call k r.1).1; mode = address_failed fd })
              (accept-Owns (owned u h) fd (new fd refl) _ (λ d. refl)) h.room m)
      ]

  round-Sound :
      (k : Kernel) (ev : Report) (s : Server)
      → IsLawful k
      → before.files 0 ≡ stream
      → s.mode ≡ up
      → Sound max_clients before s
      → Sound max_clients before (round max_clients k ev s)
  round-Sound k ev s lawful input u h = elim (Bool-cases ev.on_stdin) [
    | inl e ↦ rw e (shut-Sound max_clients before input s u h)
    | inr e ↦ elim (Bool-cases ev.on_main) [
      | inl f ↦
          rw (e, f, main-listening (owned u h))
            (accepted-Sound k ev s (k.opens s.os.time s.os.files)
              (λ d opens. lawful.opens-closed s.os.time s.os.files d opens) u h)
      | inr f ↦ rw (e, f) (serve-Sound max_clients before ev ev.nready s u h)
    ]
  ]

  polled-Sound :
      (events : ℕ → ℕ) (s : Server)
      → s.mode ≡ up
      → Sound max_clients before s
      → Sound max_clients before (record s { clients = polled events s.clients })
  polled-Sound events s u h =
      up-Sound max_clients before (record s { clients = polled events s.clients }) u
        (same-Owns (λ d. sym (polled-count events s.clients d)) (λ d. refl) (owned u h))
        (omega (arith, h.room, polled-length events s.clients)) (h.proper (λ e. cc (u, e)))

  step-Sound :
      (k : Kernel) (ev : Report) (s : Server) (m : Mode)
      → IsLawful k
      → before.files 0 ≡ stream
      → s.mode ≡ m
      → Sound max_clients before s
      → Sound max_clients before (poll_step max_clients k ev m s)
  step-Sound k ev s up lawful input u h =
      round-Sound k ev (record s { clients = polled ev.events s.clients }) lawful input u
        (polled-Sound ev.events s u h)
  step-Sound k ev s finished lawful input u h = h
  step-Sound k ev s exited lawful input u h = h
  step-Sound k ev s (read_failed fd) lawful input u h = h
  step-Sound k ev s (address_failed fd) lawful input u h = h
  step-Sound k ev s call_failed lawful input u h = h
  step-Sound k ev s out_of_fuel lawful input u h = h

  run-Sound :
      (k : Kernel)
      → IsLawful k
      → before.files 0 ≡ stream
      → (evs : List Report) (s : Server) → Sound max_clients before s
      → Sound max_clients before (poll_run max_clients k evs s)
  unfolding poll_run
  run-Sound k lawful input [] s h = h
  run-Sound k lawful input (ev ∷ evs) s h =
      run-Sound k lawful input evs (poll_step max_clients k ev s.mode s)
        (step-Sound k ev s s.mode lawful input refl h)

  start-Sound :
      (buf : ℕ → ℕ) (r : Option ℕ × Os)
      → 2 ≤ max_clients
      → Opens before r
      → Sound max_clients before (after_setup buf r)
  start-Sound buf (none, os) two m =
      running-Sound max_clients before (after_setup buf (none, os)) tt (omega arith) m
  start-Sound buf (some main_fd, os) two h =
      running-Sound max_clients before (after_setup buf (some main_fd, os)) h.1 (omega arith) h.0

-- Whatever the calls and `poll` give, in every state that the server of 01-poll reaches its clients fit
-- in the array, the loop over them ends, and while the server is up its descriptors are its socket and
-- those of its clients, each once. It makes no call on a wrong descriptor, unless it ends by the
-- standard input; then the standard input and all its descriptors are closed, and exactly one call was
-- wrong: the socket is closed a second time. When the process exits in its loop its descriptors are
-- still these, less the client that was closed if `read` failed, and with the new connection if
-- `inet_ntop` failed. The array must have room for its two first entries, and the standard input must
-- be open before. A read that fills the whole buffer stores a byte behind it, which is taken to belong
-- to no other variable.
pub poll_run-Sound :
    (max_clients : ℕ) (k : Kernel) (before : Os)
    → IsLawful k
    → before.files 0 ≡ stream
    → 2 ≤ max_clients
    → (buf : ℕ → ℕ) (evs : List Report)
    → Sound max_clients before (poll_run max_clients k evs (poll_start k before buf))
unfolding poll_start
poll_run-Sound max_clients k before lawful input two buf evs =
    run-Sound max_clients before k lawful input evs _ (
      start-Sound max_clients before buf (open_server k before) two
        (open_server-Opens k lawful before))
