-- ===== src/EchoServer/Poll/Clients.antt =====
-- The clients of the server of 21-async/01-poll, and its end.
use mathlib.Core.Path.{subst}
use so_2021v_li42d.Base.{
  ℕ, suc, ◌+◌, ◌-◌, ◌<◌, ◌≤◌, ==_iff, ◌≡◌, ◌≢◌, refl, sym, ap, ◌∙◌, none, some, List, [], ◌∷◌, map,
  if◌then◌else◌, ◌==◌, arith, Bool-cases, inl, inr, length,
}
use so_2021v_li42d.EchoServer.Poll.{Client, Rest, passes, quits, unended}
use so_2021v_li42d.EchoServer.Poll.Descriptors.{clients_on, Left, Keeps, serve_clients-Keeps}
use so_2021v_li42d.EchoServer.Poll.Server.{
  Report, Mode, up, finished, exited, read_failed, address_failed, call_failed, out_of_fuel, Server,
  nclients, polled, passed, serve, after_accept, shut,
}
use so_2021v_li42d.Posix.{closed, stream, connection, listening, Os, close, close_all}
use so_2021v_li42d.Posix.Owns.{Owns, one_more, same-Owns, main-listening, conn-connection}

-- The descriptors of the server, by how it ended, if it did: its socket and those of the clients in its
-- array, of which one may be closed before the process exits, or a new one not entered yet.
abbrev pub Holds : (before : Os) → Mode → Server → Type 0
Holds before up s = Owns before.files s.main_fd (clients_on s.clients) s.os.files
Holds before finished s =
    (s.os.misuses ≡ before.misuses + 1)
    × ((d : ℕ) → s.os.files d ≡ (if d == 0 then closed else before.files d))
Holds before exited s = Unit
Holds before (read_failed fd) s =
    Left before.files s.main_fd (clients_on s.clients) (some fd) s.os.files
Holds before (address_failed fd) s =
    Owns before.files s.main_fd (one_more fd (clients_on s.clients)) s.os.files
Holds before call_failed s = Owns before.files s.main_fd (clients_on s.clients) s.os.files
Holds before out_of_fuel s = ⊥

-- The array has room for the clients, and up to the end of the server no call was on a wrong
-- descriptor. At its end the standard input and all its descriptors are closed, and the socket was
-- closed twice.
pub record Sound (max_clients : ℕ) (before : Os) (s : Server) : Type 0 where
  pub holds : Holds before s.mode s
  pub room : nclients s ≤ max_clients
  pub proper : s.mode ≢ finished → s.os.misuses ≡ before.misuses

pub owned :
    {max_clients : ℕ} {before : Os} {s : Server}
    → s.mode ≡ up
    → Sound max_clients before s
    → Owns before.files s.main_fd (clients_on s.clients) s.os.files
owned {before} {s} u h = subst (λ m. Holds before m s) u h.holds

pub polled-count :
    (events : ℕ → ℕ) (cs : List Client) (d : ℕ) → clients_on (polled events cs) d ≡ clients_on cs d
polled-count events [] d = refl
polled-count events (c ∷ cs) d = ground (arith, polled-count events cs d)

pub polled-length : (events : ℕ → ℕ) (cs : List Client) → length (polled events cs) ≡ length cs
polled-length events [] = refl
polled-length events (c ∷ cs) = ap suc (polled-length events cs)

-- Closing the descriptors of all clients.
close_all-clients :
    (cs : List Client) (os : Os)
    → ((d : ℕ) → clients_on cs d ≤ 1)
    → ((d : ℕ) → 0 < clients_on cs d → os.files d ≡ connection)
    → ((close_all (map (λ c. c.fd) cs) os).misuses ≡ os.misuses)
      × ((d : ℕ)
          → (close_all (map (λ c. c.fd) cs) os).files d
            ≡ (if clients_on cs d == 0 then os.files d else closed))
close_all-clients [] os single conns = (refl, λ d. refl)
close_all-clients (c ∷ cs) os single conns =
    let here = conns c.fd (ground (arith, (==_iff c.fd c.fd).1 refl)) in
    let ih =
      close_all-clients cs (close c.fd os) (λ d. ground (arith, single d))
        (λ d l. ground (arith, conns d, single d)) in
    (ih.0 ∙ rw here refl, λ d. ground (arith, ih.1 d, single d))

module _ (max_clients : ℕ) (before : Os) where
  pub shut-Sound :
      before.files 0 ≡ stream
      → (s : Server) → s.mode ≡ up
      → Sound max_clients before s
      → Sound max_clients before (shut s)
  shut-Sound input s u h =
      let o = owned u h in
      let zero_apart : s.main_fd ≢ 0 =
        λ e. cc (subst (λ d. before.files d ≡ closed) e o.main_new, input) in
      let zero_free : clients_on s.clients 0 ≡ 0 = ground (arith, o.single 0, o.new 0, input) in
      let stdin_open : s.os.files 0 ≡ stream =
        ground (arith, o.shows 0, zero_apart, zero_free, input) in
      let os1 = close 0 s.os in
      let main_open : os1.files s.main_fd ≡ listening =
        ground (arith, main-listening o, zero_apart) in
      let os2 = close s.main_fd os1 in
      let all =
        close_all-clients s.clients os2 (λ d. o.single d)
          (λ d l. ground (arith, conn-connection o d l, o.main_apart, zero_free)) in
      let os3 = close_all (map (λ c. c.fd) s.clients) os2 in
      let main_closed : os3.files s.main_fd ≡ closed =
        ground (arith, all.1 s.main_fd, o.main_apart) in
      let two : os2.misuses ≡ s.os.misuses = rw main_open (rw stdin_open refl) in
      let same : s.os.misuses ≡ before.misuses = h.proper (λ e. cc (u, e)) in
      record {
        holds = (
          rw main_closed (omega (arith, all.0, two, same)),
          λ d. ground (arith, all.1 d, o.shows d, o.single d, o.new d, o.main_new),
        );
        room = h.room;
        proper = λ ne. absurd (ne refl);
      }

  -- A server that is not at its end.
  pub running-Sound :
      (s : Server)
      → Holds before s.mode s
      → nclients s ≤ max_clients
      → s.os.misuses ≡ before.misuses
      → Sound max_clients before s
  running-Sound s o r m = record { holds = o; room = r; proper = λ _. m }

  pub up-Sound :
      (s : Server)
      → s.mode ≡ up
      → Owns before.files s.main_fd (clients_on s.clients) s.os.files
      → nclients s ≤ max_clients
      → s.os.misuses ≡ before.misuses
      → Sound max_clients before s
  up-Sound s u o r m = running-Sound s (subst (λ m. Holds before m s) (sym u) o) r m

  passed-Sound :
      (s : Server) (r : Rest)
      → s.mode ≡ up
      → nclients s ≤ max_clients
      → Keeps before.files s.main_fd before.misuses (λ d. 0) s.clients r
      → Sound max_clients before (passed s r)
  passed-Sound s (passes p) u room h =
      up-Sound (passed s (passes p)) u (same-Owns (λ d. omega arith) (λ d. refl) h.2)
        (omega (arith, h.1)) h.0
  passed-Sound s (quits (some fd) left os) u room h =
      let (m, l, (others, split, o)) = h in
      running-Sound (passed s (quits (some fd) left os)) (others, λ d. omega (arith, split d), o)
        (omega (arith, l)) m
  passed-Sound s (quits none left os) u room h =
      running-Sound (passed s (quits none left os)) (same-Owns (λ d. omega arith) (λ d. refl) h.2)
        (omega (arith, h.1)) h.0
  passed-Sound s unended u room h = absurd h

  pub serve-Sound :
      (ev : Report) (n : ℕ) (s : Server)
      → s.mode ≡ up
      → Sound max_clients before s
      → Sound max_clients before (serve ev n s)
  serve-Sound ev n s u h =
      let m = h.proper (λ e. cc (u, e)) in
      passed-Sound s _ u h.room (
        serve_clients-Keeps before.files s.main_fd before.misuses ev.act (length s.clients + 1) s.os
          s.buf n (λ d. 0) s.clients (omega arith) m
          (same-Owns (λ d. omega arith) (λ d. refl) (owned u h)))

  pub after_accept-Sound :
      (ev : Report) (s : Server)
      → s.mode ≡ up
      → Sound max_clients before s
      → Sound max_clients before (after_accept ev s)
  after_accept-Sound ev s u h = elim (Bool-cases (ev.nready - 1 == 0)) [
    | inl e ↦ rw e h
    | inr e ↦ rw e (serve-Sound ev (ev.nready - 1) s u h)
  ]
