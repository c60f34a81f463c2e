-- ===== src/EchoServer/Epoll/Handling.antt =====
-- One event of the server of 21-async/02-epoll.
use mathlib.Core.Path.{subst}
use so_2021v_li42d.Base.{
  update, ℕ, ◌+◌, ◌<◌, ◌≡◌, refl, sym, true, false, ◌&&◌, ◌||◌, Option, none, some, ◌==◌, arith,
  Bool-cases, inl, inr, ◌⊎◌,
}
use so_2021v_li42d.EchoServer.Poll.{
  Visit, read_fails, write_fails, stays, closes, serve_client, touch,
}
use so_2021v_li42d.EchoServer.Epoll.{
  up, exited, Server, Event, accepted, without, served, handle, clients_on,
}
use so_2021v_li42d.EchoServer.Epoll.Descriptors.{
  Sound, without-count, without-length, down-Sound, up-Sound, finish-Sound, add-Sound, monitor_open,
}
use so_2021v_li42d.EchoServer.Poll.Descriptors.{Left}
use so_2021v_li42d.EchoServer.Epoll.Errors.{error_only}
use so_2021v_li42d.Posix.{
  closed, monitor, connection, Kernel, IsLawful, Os, opened, called, call, close,
}
use so_2021v_li42d.Posix.Owns.{one_more, close-Owns, same-Owns, main-listening, conn-connection}

module _ (max_clients : ℕ) (before : Os) (k : Kernel) where
  accepted-Sound :
      (s : Server) (fd : Option ℕ)
      → ((d : ℕ) → fd ≡ some d → s.os.files d ≡ closed)
      → s.mode ≡ up
      → Sound max_clients before s
      → Sound max_clients before
          (accepted max_clients k s (opened connection fd (called true s.os)))
  accepted-Sound s none new u h =
      down-Sound max_clients before k (record s { os = called true s.os; mode = exited }) refl
        h.room h.proper
  accepted-Sound s (some fd) new u h =
      let os' = (opened connection (some fd) (called true s.os)).1 in
      elim (Bool-cases (k.succeeds (s.os.time + 1))) [
        | inl e ↦ rw e (
            add-Sound max_clients before k s fd (call k os').1 u (new fd refl) (λ d. refl) h.proper
              h)
        | inr e ↦ rw e (
            down-Sound max_clients before k (record s { os = (call k os').1; mode = exited }) refl
              h.room h.proper)
      ]

  served-Sound :
      (s : Server) (fd : ℕ) (os : Os) (v : Visit)
      → s.mode ≡ up
      → 0 < clients_on s.clients fd
      → ((d : ℕ) → os.files d ≡ s.os.files d)
      → os.misuses ≡ before.misuses
      → Sound max_clients before s
      → Sound max_clients before (served k s fd os v)
  served-Sound s fd os read_fails u l files m h =
      let o = same-Owns (λ d. refl) (λ d. sym (files d)) (h.holds u) in
      let left = clients_on (without fd s.clients) in
      let split : (d : ℕ) → clients_on s.clients d ≡ one_more fd left d =
        λ d. without-count fd d s.clients l in
      record {
        monitor_new = λ ne. h.monitor_new (λ e. cc (u, e));
        holds = λ e. absurd (cc e);
        closed_one = λ fd' e.
            subst
              (λ c.
                Left (update before.files s.events_fd monitor) s.main_fd (clients_on s.clients)
                  (some c) (close fd os).files)
              (cc e) (left, split, close-Owns o fd left split);
        room = h.room;
        proper = rw (conn-connection o fd l) m;
        over = λ e. absurd (cc e);
      }
  served-Sound s fd os write_fails u l files m h =
      down-Sound max_clients before k (record s { os = os; mode = exited }) refl h.room m
  served-Sound s fd os (stays buf) u l files m h =
      up-Sound max_clients before k (record s { os = os; buf = buf }) u
        (h.monitor_new (λ e. cc (u, e))) (same-Owns (λ d. refl) (λ d. sym (files d)) (h.holds u))
        h.room m
  served-Sound s fd os (closes buf) u l files m h =
      let o = same-Owns (λ d. refl) (λ d. sym (files d)) (h.holds u) in
      let (apart, free, is_monitor) = monitor_open max_clients before k (record s { os = os }) o in
      elim (Bool-cases (k.succeeds os.time)) [
        | inl e ↦ rw e (
            up-Sound max_clients before k
              (record s { os = close fd (call k os).1; clients = without fd s.clients; buf = buf })
              u (h.monitor_new (λ e. cc (u, e)))
              (close-Owns o fd _ (λ d. without-count fd d s.clients l))
              (omega (arith, h.room, without-length fd s.clients)) (rw (conn-connection o fd l) m))
        | inr e ↦
            let still : (close s.main_fd (call k os).1).files s.events_fd ≡ monitor =
              ground (arith, is_monitor, apart) in
            rw e (
              down-Sound max_clients before k
                (record s { os = close s.events_fd (close s.main_fd (call k os).1); mode = exited })
                refl h.room (rw still (rw (main-listening o) m)))
      ]

  pub handle-Sound :
      (ev : Event) (s : Server)
      → IsLawful k
      → s.mode ≡ up
      → (0 < clients_on s.clients ev.fd) ⊎ ((ev.fd ≡ 0) ⊎ (ev.fd ≡ s.main_fd))
      → error_only s.main_fd ev ≡ false
      → Sound max_clients before s
      → Sound max_clients before (handle max_clients k ev s)
  handle-Sound ev s lawful u on right h = elim (Bool-cases ((ev.fd == 0) && ev.epollin)) [
    | inl e ↦ rw e (finish-Sound max_clients before k s u h)
    | inr e ↦ elim (Bool-cases ((ev.fd == s.main_fd) && ev.epollin)) [
      | inl f ↦
          rw (e, f, main-listening (h.holds u))
            (accepted-Sound s (k.opens s.os.time s.os.files)
              (λ d opens. lawful.opens-closed s.os.time s.os.files d opens) u h)
      | inr f ↦ elim (Bool-cases (ev.epollin || ev.epollerr)) [
        | inl g ↦
            let client : 0 < clients_on s.clients ev.fd = ground (arith, on, e, f, g, right) in
            let here = conn-connection (h.holds u) ev.fd client in
            rw (e, f, g)
              (served-Sound s ev.fd (touch ev.fd s.os) (serve_client s.buf ev.input ev.wrote) u
                client (λ d. refl) (rw here h.proper) h)
        | inr g ↦ rw (e, f, g) h
      ]
    ]
  ]
