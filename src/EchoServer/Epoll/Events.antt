-- ===== src/EchoServer/Epoll/Events.antt =====
-- The events of the server of 21-async/02-epoll, one after the other.
use mathlib.Core.Path.{subst}
use so_2021v_li42d.Base.{
  ℕ, ◌+◌, ◌<◌, ◌≤◌, ◌≡◌, refl, ◌⊎◌, true, Option, none, some, List, [], ◌∷◌, update, update_self,
  arith, Bool-cases, inl, inr, count,
}
use so_2021v_li42d.EchoServer.Setup.{open_server, open_server-Opens, Opens}
use so_2021v_li42d.EchoServer.Epoll.{
  Mode, up, finished, exited, read_failed, Server, Event, monitored, after_setup, epoll_start,
  handle, proceed, handle_events, Reported, waited, Reach, here, later,
}
use so_2021v_li42d.EchoServer.Epoll.Descriptors.{Sound, down-Sound, up-Sound}
use so_2021v_li42d.Posix.{closed, stream, monitor, listening, Kernel, IsLawful, Os, opened, called}
use so_2021v_li42d.Posix.Owns.{Owns, main-listening, closed-fresh}
use so_2021v_li42d.EchoServer.Epoll.Errors.{
  error_only, Erred, proceed-grows, events-grow, handle-wrong,
}
use so_2021v_li42d.EchoServer.Epoll.Handling.{handle-Sound}
use so_2021v_li42d.EchoServer.Epoll.Retained.{Reported-Retains, handle-Retains}

module _ (max_clients : ℕ) (before : Os) (k : Kernel) where
  -- The server is sound, or it made a wrong call after such an event as `wrong` tells of.
  abbrev SoundOr : (wrong : Type 0) → Server → Type 0
  SoundOr wrong s = Sound max_clients before s ⊎ (wrong × (before.misuses < s.os.misuses))

  proceed-SoundOr :
      (wrong : Type 0) (m : Mode) (s rest : Server)
      → s.mode ≡ m
      → Sound max_clients before s
      → (s.mode ≡ up → SoundOr wrong rest)
      → SoundOr wrong (proceed m s rest)
  proceed-SoundOr wrong up s rest e h go = go e
  proceed-SoundOr wrong finished s rest e h go = inl h
  proceed-SoundOr wrong exited s rest e h go = inl h
  proceed-SoundOr wrong (read_failed fd) s rest e h go = inl h

  SoundOr-map : {v w : Type 0} → (v → w) → (s : Server) → SoundOr v s → SoundOr w s
  SoundOr-map f s (inl h) = inl h
  SoundOr-map f s (inr h) = inr (f h.0, h.1)

  events-SoundOr :
      (evs : List Event) (s : Server)
      → IsLawful k
      → before.files 0 ≡ stream
      → s.mode ≡ up
      → Reported s.main_fd s.clients evs
      → Sound max_clients before s
      → SoundOr (0 < count (error_only s.main_fd) evs) (handle_events max_clients k evs s)
  unfolding handle_events
  events-SoundOr [] s lawful input u on h = inl h
  events-SoundOr (ev ∷ evs) s lawful input u on h =
      let t = handle max_clients k ev s in
      let kept = handle-Retains max_clients k ev s in
      elim (Bool-cases (error_only s.main_fd ev)) [
        | inl wrong ↦ inr (
          rw wrong (omega arith),
          omega (
            arith,
            h.proper,
            handle-wrong max_clients before k input ev s u h wrong,
            proceed-grows max_clients k t.mode t (handle_events max_clients k evs t)
                (events-grow max_clients k evs t),
          ),
        )
        | inr right ↦
            proceed-SoundOr _ t.mode t _ refl
              (handle-Sound max_clients before k ev s lawful u on.0 right h)
              (λ u'.
                SoundOr-map (λ l. rw right (subst (λ m. 0 < count (error_only m) evs) kept.main l))
                  _
                  (events-SoundOr evs t lawful input u'
                    (Reported-Retains ev.fd s.main_fd t.main_fd s.clients t.clients evs kept.main
                      kept.others on.1 on.2)
                    (handle-Sound max_clients before k ev s lawful u on.0 right h)))
      ]

  Reach-keeps :
      {s t : Server}
      → IsLawful k
      → before.files 0 ≡ stream
      → Sound max_clients before s
      → (r : Reach max_clients k s t) → SoundOr (Erred r) t
  Reach-keeps lawful input h here = inl h
  Reach-keeps lawful input h (later {t} r (waited evs u on)) = elim (Reach-keeps lawful input h r) [
    | inl h' ↦ SoundOr-map inr _ (events-SoundOr evs t lawful input u on h')
    | inr bad ↦ inr (inl bad.0, omega (arith, bad.1, events-grow max_clients k evs t))
  ]

  monitored-Sound :
      (main_fd : ℕ) (buf : ℕ → ℕ) (os : Os) (fd : Option ℕ)
      → 2 ≤ max_clients
      → ((d : ℕ) → fd ≡ some d → os.files d ≡ closed)
      → os.misuses ≡ before.misuses
      → Owns before.files main_fd (λ d. 0) os.files
      → Sound max_clients before (monitored k main_fd buf (opened monitor fd (called true os)))
  monitored-Sound main_fd buf os none two new m o =
      down-Sound max_clients before k _ refl (omega arith) (rw (main-listening o) m)
  monitored-Sound main_fd buf os (some fd) two new m o =
      let fresh = closed-fresh o fd (new fd refl) in
      let is_monitor = update_self os.files fd monitor in
      let main_open : update os.files fd monitor main_fd ≡ listening =
        ground (arith, main-listening o, fresh.0) in
      let still : update (update os.files fd monitor) main_fd closed fd ≡ monitor =
        ground (arith, fresh.0, is_monitor) in
      elim (Bool-cases (k.succeeds (os.time + 1))) [
        | inl e ↦ elim (Bool-cases (k.succeeds (os.time + 1 + 1))) [
          | inl f ↦
              rw (e, f)
                (up-Sound max_clients before k _ refl fresh.2
                  (record {
                    main_new = ground (arith, o.main_new, fresh.0);
                    main_apart = refl;
                    single = λ d. omega arith;
                    new = λ d l. absurd (omega arith);
                    shows = λ d. ground (arith, o.shows d, fresh.0);
                  })
                  (omega arith) m)
          | inr f ↦
              rw (e, f)
                (down-Sound max_clients before k _ refl (omega arith) (rw still (rw main_open m)))
        ]
        | inr e ↦
            rw e (down-Sound max_clients before k _ refl (omega arith) (rw still (rw main_open m)))
      ]

  start-Sound :
      (buf : ℕ → ℕ) (r : Option ℕ × Os)
      → IsLawful k
      → 2 ≤ max_clients
      → Opens before r
      → Sound max_clients before (after_setup k buf r)
  start-Sound buf (none, os) lawful two m = down-Sound max_clients before k _ refl (omega arith) m
  start-Sound buf (some main_fd, os) lawful two h =
      monitored-Sound main_fd buf os (k.opens os.time os.files) two
        (λ d opens. lawful.opens-closed os.time os.files d opens) h.0 h.1

-- In every state that the server of 02-epoll reaches no call was on a wrong descriptor, and there are no
-- more events at once than the array has room for; while it is up its descriptors are the monitor, its
-- socket and the clients that are registered, when it exits because `read` failed they are these less
-- the client, and at its end by the standard input only the connections of the clients are left open. The only other case is that an event was reported on the standard input
-- or on the socket which is only an error, and that a call was on a wrong descriptor since. The array
-- must have room for the two descriptors that are not clients, and the standard input must be open
-- before. A read that fills the whole buffer stores a byte behind it, which is taken to belong to no
-- other variable.
pub Reach-Sound :
    (max_clients : ℕ) (before : Os) (k : Kernel) (buf : ℕ → ℕ) {t : Server}
    → IsLawful k
    → before.files 0 ≡ stream
    → 2 ≤ max_clients
    → (r : Reach max_clients k (epoll_start k before buf) t)
    → Sound max_clients before t ⊎ (Erred r × (before.misuses < t.os.misuses))
unfolding epoll_start
Reach-Sound max_clients before k buf lawful input two r =
    Reach-keeps max_clients before k lawful input
      (start-Sound max_clients before k buf (open_server k before) lawful two
        (open_server-Opens k lawful before))
      r
