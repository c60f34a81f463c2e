-- ===== src/EchoServer/Epoll/Descriptors.antt =====
-- The descriptors of the server of 21-async/02-epoll, in every state that it reaches.
use mathlib.Core.Path.{subst}
use so_2021v_li42d.Base.{
  ℕ, ◌+◌, ◌<◌, ◌≤◌, ◌≡◌, ◌≢◌, refl, ◌∙◌, sym, some, List, [], ◌∷◌, if◌then◌else◌, ◌==◌, update,
  update_self, arith, Bool-cases, inl, inr, length,
}
use so_2021v_li42d.EchoServer.Epoll.{
  up, finished, exited, read_failed, Server, add, without, finish, clients_on,
}
use so_2021v_li42d.EchoServer.Poll.Descriptors.{Left}
use so_2021v_li42d.Posix.{closed, monitor, connection, listening, Kernel, Os, call, close}
use so_2021v_li42d.Posix.Owns.{Owns, accept-Owns, same-Owns, main-listening, one_more}

pub without-count :
    (fd d : ℕ) (cs : List ℕ)
    → 0 < clients_on cs fd
    → clients_on cs d ≡ one_more fd (clients_on (without fd cs)) d
without-count fd d [] l = absurd (omega arith)
without-count fd d (c ∷ cs) l = ground (arith, without-count fd d cs)

pub without-length : (fd : ℕ) (cs : List ℕ) → length (without fd cs) ≤ length cs
without-length fd [] = omega arith
without-length fd (c ∷ cs) = ground (arith, without-length fd cs)

-- While the server is up, its descriptors are the monitor, its socket and its registered clients. No
-- call is on a wrong descriptor. The events of one call fit in the array of `max_clients`. After a failed
-- `read` the client is closed. At the end only the connections of the clients are left open.
pub record Sound (max_clients : ℕ) (before : Os) (s : Server) : Type 0 where
  pub monitor_new : s.mode ≢ exited → before.files s.events_fd ≡ closed
  pub holds :
      s.mode ≡ up
      → Owns (update before.files s.events_fd monitor) s.main_fd (clients_on s.clients) s.os.files
  pub closed_one :
      (fd : ℕ)
      → s.mode ≡ read_failed fd
      → Left
          (update before.files s.events_fd monitor)
          s.main_fd
          (clients_on s.clients)
          (some fd)
          s.os.files
  pub room : (length s.clients + 2 ≤ s.nevents) × (s.nevents ≤ max_clients)
  pub proper : s.os.misuses ≡ before.misuses
  pub over :
      s.mode ≡ finished
      → (d : ℕ)
      → s.os.files d ≡ (if clients_on s.clients d == 0 then before.files d else connection)

module _ (max_clients : ℕ) (before : Os) (k : Kernel) where
  -- A server that exits has only to be proper.
  pub down-Sound :
      (s : Server)
      → s.mode ≡ exited
      → (length s.clients + 2 ≤ s.nevents) × (s.nevents ≤ max_clients)
      → s.os.misuses ≡ before.misuses
      → Sound max_clients before s
  down-Sound s e r m = record {
    monitor_new = λ ne. absurd (ne e);
    holds = λ u. absurd (cc (e, u));
    closed_one = λ fd u. absurd (cc (e, u));
    room = r;
    proper = m;
    over = λ u. absurd (cc (e, u));
  }

  pub up-Sound :
      (s : Server)
      → s.mode ≡ up
      → before.files s.events_fd ≡ closed
      → Owns (update before.files s.events_fd monitor) s.main_fd (clients_on s.clients) s.os.files
      → (length s.clients + 2 ≤ s.nevents) × (s.nevents ≤ max_clients)
      → s.os.misuses ≡ before.misuses
      → Sound max_clients before s
  up-Sound s e new o r m = record {
    monitor_new = λ ne. new;
    holds = λ u. o;
    closed_one = λ fd u. absurd (cc (e, u));
    room = r;
    proper = m;
    over = λ u. absurd (cc (e, u));
  }

  -- The monitor is open and apart from the socket and the clients.
  pub monitor_open :
      (s : Server)
      → Owns (update before.files s.events_fd monitor) s.main_fd (clients_on s.clients) s.os.files
      → (s.main_fd ≢ s.events_fd)
        × (clients_on s.clients s.events_fd ≡ 0)
        × (s.os.files s.events_fd ≡ monitor)
  monitor_open s o =
      let self = update_self before.files s.events_fd monitor in
      let apart : s.main_fd ≢ s.events_fd = λ e.
        cc (subst (λ d. update before.files s.events_fd monitor d ≡ closed) e o.main_new, self) in
      let free : clients_on s.clients s.events_fd ≡ 0 =
        ground (arith, o.single s.events_fd, o.new s.events_fd, self) in
      (apart, free, ground (arith, o.shows s.events_fd, apart, free, self))

  pub finish-Sound :
      (s : Server) → s.mode ≡ up → Sound max_clients before s → Sound max_clients before (finish s)
  finish-Sound s u h =
      let o = h.holds u in
      let (apart, free, is_monitor) = monitor_open s o in
      let main_open : (close s.events_fd s.os).files s.main_fd ≡ listening =
        ground (arith, main-listening o, apart) in
      let new = h.monitor_new (λ e. cc (u, e)) in
      record {
        monitor_new = λ ne. new;
        holds = λ e. absurd (cc e);
        closed_one = λ fd e. absurd (cc e);
        room = h.room;
        proper = rw main_open (rw is_monitor h.proper);
        over = λ _ d. ground (arith, o.shows d, o.main_new, o.main_apart, free, new, apart);
      }

  pub add-Sound :
      (s : Server) (fd : ℕ) (os : Os)
      → s.mode ≡ up
      → s.os.files fd ≡ closed
      → ((d : ℕ) → os.files d ≡ update s.os.files fd connection d)
      → os.misuses ≡ before.misuses
      → Sound max_clients before s
      → Sound max_clients before (add max_clients k s fd os)
  add-Sound s fd os u free files m h =
      let o = h.holds u in
      let new = h.monitor_new (λ e. cc (u, e)) in
      let here : os.files fd ≡ connection = files fd ∙ update_self s.os.files fd connection in
      elim (Bool-cases (s.nevents == max_clients)) [
        | inl full ↦ rw full (
            up-Sound (record s { os = close fd os }) u new
              (same-Owns (λ d. refl) (λ d. ground (arith, files d, free)) o) h.room (rw here m))
        | inr some_room ↦ elim (Bool-cases (k.succeeds os.time)) [
          | inl adds ↦
              rw (some_room, adds)
                (up-Sound
                  (record s {
                    os = (call k os).1;
                    clients = fd ∷ s.clients;
                    nevents = s.nevents + 1;
                  })
                  u new
                  (same-Owns (λ d. ground arith) (λ d. sym (files d))
                    (accept-Owns o fd free _ (λ d. refl)))
                  (ground (arith, h.room, some_room)) m)
          | inr fails ↦
              rw (some_room, fails)
                (down-Sound (record s { os = close fd (call k os).1; mode = exited }) refl h.room
                  (rw here m))
        ]
      ]
