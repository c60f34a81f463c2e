-- ===== src/EchoServer/Epoll/Errors.antt =====
-- Events of the server of 21-async/02-epoll that are only an error, on the standard input or on the
-- socket: `main` treats the descriptor as a client, and reads from it.
use mathlib.Core.Path.{subst}
use so_2021v_li42d.Base.{
  ℕ, ◌<◌, ◌≤◌, ◌≡◌, ◌≢◌, refl, true, false, Bool, ◌&&◌, ◌||◌, not, Option, none, some, List, [],
  ◌∷◌, ◌==◌, update, arith, Bool-cases, inl, inr, count, ◌⊎◌,
}
use so_2021v_li42d.EchoServer.Poll.{
  Visit, read_fails, write_fails, stays, closes, serve_client, touch,
}
use so_2021v_li42d.EchoServer.Epoll.{
  Mode, up, finished, exited, read_failed, Server, Event, add, accepted, served, handle, proceed,
  handle_events, waited, Reach, here, later,
}
use so_2021v_li42d.EchoServer.Epoll.Descriptors.{Sound}
use so_2021v_li42d.Posix.{
  File, closed, stream, monitor, connection, is_connection, Kernel, Os, accept, opened,
  is_listening, called, close,
}
use so_2021v_li42d.Posix.Owns.{main-listening}

-- The event is on the standard input or on the socket, and says no more than that there is an error.
abbrev pub error_only : (main_fd : ℕ) → Event → Bool
error_only main_fd ev = (ev.fd == 0 || ev.fd == main_fd) && (not ev.epollin && ev.epollerr)

-- There was such an event among those that `epoll_wait` reported.
abbrev pub Erred : {max_clients : ℕ} {k : Kernel} {s t : Server} → Reach max_clients k s t → Type 0
Erred here = ⊥
Erred (later {t} r (waited evs u p)) = Erred r ⊎ (0 < count (error_only t.main_fd) evs)

close-grows : (fd : ℕ) (os : Os) → os.misuses ≤ (close fd os).misuses
close-grows fd os = ground arith

opened-misuses :
    (file : File) (fd : Option ℕ) (os : Os) → (opened file fd os).1.misuses ≡ os.misuses
opened-misuses file none os = refl
opened-misuses file (some fd) os = refl

module _ (max_clients : ℕ) (k : Kernel) where
  served-grows :
      (s : Server) (fd : ℕ) (os : Os) (v : Visit) → os.misuses ≤ (served k s fd os v).os.misuses
  served-grows s fd os read_fails = close-grows fd os
  served-grows s fd os write_fails = omega arith
  served-grows s fd os (stays buf) = omega arith
  served-grows s fd os (closes buf) = elim (Bool-cases (k.succeeds os.time)) [
    | inl e ↦ rw e (close-grows fd (called true os))
    | inr e ↦ rw e (
        omega (
          arith,
          close-grows s.main_fd (called true os),
          close-grows s.events_fd (close s.main_fd (called true os)),
        ))
  ]

  add-grows : (s : Server) (fd : ℕ) (os : Os) → os.misuses ≤ (add max_clients k s fd os).os.misuses
  add-grows s fd os = elim (Bool-cases (s.nevents == max_clients)) [
    | inl e ↦ rw e (close-grows fd os)
    | inr e ↦ elim (Bool-cases (k.succeeds os.time)) [
      | inl g ↦ rw (e, g) (omega arith)
      | inr g ↦ rw (e, g) (close-grows fd (called true os))
    ]
  ]

  accepted-grows :
      (s : Server) (r : Option ℕ × Os) → r.1.misuses ≤ (accepted max_clients k s r).os.misuses
  accepted-grows s (none, os) = omega arith
  accepted-grows s (some fd, os) = elim (Bool-cases (k.succeeds os.time)) [
    | inl e ↦ rw e (add-grows s fd (called true os))
    | inr e ↦ rw e (omega arith)
  ]

  handle-grows : (ev : Event) (s : Server) → s.os.misuses ≤ (handle max_clients k ev s).os.misuses
  handle-grows ev s = elim (Bool-cases ((ev.fd == 0) && ev.epollin)) [
    | inl e ↦ rw e (
        omega (arith, close-grows s.events_fd s.os, close-grows s.main_fd (close s.events_fd s.os)))
    | inr e ↦ elim (Bool-cases ((ev.fd == s.main_fd) && ev.epollin)) [
      | inl f ↦
          let same =
            opened-misuses connection (k.opens s.os.time s.os.files)
              (called (is_listening (s.os.files s.main_fd)) s.os) in
          let touched : s.os.misuses ≤ (called (is_listening (s.os.files s.main_fd)) s.os).misuses =
            ground arith in
          rw (e, f) (omega (arith, same, touched, accepted-grows s (accept k s.main_fd s.os)))
      | inr f ↦ elim (Bool-cases (ev.epollin || ev.epollerr)) [
        | inl g ↦
            let touched : s.os.misuses ≤ (touch ev.fd s.os).misuses = ground arith in
            rw (e, f, g)
              (omega (
                arith,
                touched,
                served-grows s ev.fd (touch ev.fd s.os) (serve_client s.buf ev.input ev.wrote),
              ))
        | inr g ↦ rw (e, f, g) (omega arith)
      ]
    ]
  ]

  pub proceed-grows :
      (m : Mode) (s t : Server)
      → s.os.misuses ≤ t.os.misuses
      → s.os.misuses ≤ (proceed m s t).os.misuses
  proceed-grows up s t l = l
  proceed-grows finished s t l = omega arith
  proceed-grows exited s t l = omega arith
  proceed-grows (read_failed fd) s t l = omega arith

  pub events-grow :
      (evs : List Event) (s : Server)
      → s.os.misuses ≤ (handle_events max_clients k evs s).os.misuses
  unfolding handle_events
  events-grow [] s = omega arith
  events-grow (ev ∷ evs) s =
      let t = handle max_clients k ev s in
      omega (
        arith,
        handle-grows ev s,
        proceed-grows t.mode t (handle_events max_clients k evs t) (events-grow evs t),
      )

module _ (max_clients : ℕ) (before : Os) (k : Kernel) where
  -- The standard input and the socket are no connections.
  not_connection :
      before.files 0 ≡ stream
      → (s : Server) (fd : ℕ) → s.mode ≡ up
      → Sound max_clients before s
      → (fd ≡ 0) ⊎ (fd ≡ s.main_fd)
      → is_connection (s.os.files fd) ≡ false
  not_connection input s fd u h (inr e) = rw (e, main-listening (h.holds u)) refl
  not_connection input s fd u h (inl e) =
      let o = h.holds u in
      let new = h.monitor_new (λ e. cc (u, e)) in
      let apart : s.events_fd ≢ 0 = λ e. cc (subst (λ d. before.files d ≡ closed) e new, input) in
      let base : update before.files s.events_fd monitor 0 ≡ stream =
        ground (arith, apart, input) in
      let main_apart : s.main_fd ≢ 0 = λ e.
        cc (subst (λ d. update before.files s.events_fd monitor d ≡ closed) e o.main_new, base) in
      let open_still : s.os.files 0 ≡ stream =
        ground (arith, o.shows 0, o.single 0, o.new 0, main_apart, base) in
      rw (e, open_still) refl

  -- On such an event the call of `read` is wrong.
  pub handle-wrong :
      before.files 0 ≡ stream
      → (ev : Event) (s : Server) → s.mode ≡ up
      → Sound max_clients before s
      → error_only s.main_fd ev ≡ true
      → s.os.misuses < (handle max_clients k ev s).os.misuses
  handle-wrong input ev s u h wrong =
      let no_client = not_connection input s ev.fd u h (ground (arith, wrong)) in
      let e : ((ev.fd == 0) && ev.epollin) ≡ false = ground (arith, wrong) in
      let f : ((ev.fd == s.main_fd) && ev.epollin) ≡ false = ground (arith, wrong) in
      let g : (ev.epollin || ev.epollerr) ≡ true = ground (arith, wrong) in
      let more : s.os.misuses < (touch ev.fd s.os).misuses = rw no_client (omega arith) in
      rw (e, f, g)
        (omega (
          arith,
          more,
          served-grows max_clients k s ev.fd (touch ev.fd s.os)
              (serve_client s.buf ev.input ev.wrote),
        ))
