-- ===== src/EchoServer/Epoll/Counter.antt =====
-- The counter `nevents` of 21-async/02-epoll/echo-server.c.
use so_2021v_li42d.Base.{
  ℕ, ◌≤◌, ◌≡◌, refl, ◌&&◌, ◌||◌, Option, none, some, List, [], ◌∷◌, ◌==◌, arith, Bool-cases, inl,
  inr,
}
use so_2021v_li42d.EchoServer.Poll.{
  Visit, read_fails, write_fails, stays, closes, serve_client, touch,
}
use so_2021v_li42d.EchoServer.Epoll.{
  Mode, up, finished, exited, read_failed, Server, Event, add, accepted, without, served, handle,
  proceed, handle_events, clients_on, waited, Reach, here, later,
}
use so_2021v_li42d.Posix.{Kernel, Os, accept}

without-le : (fd d : ℕ) (cs : List ℕ) → clients_on (without fd cs) d ≤ clients_on cs d
without-le fd d [] = omega arith
without-le fd d (c ∷ cs) = ground (arith, without-le fd d cs)

-- The counter has grown or stayed; if it was at its limit, it still is, and no client was added.
pub record Counts (max_clients : ℕ) (s t : Server) : Type 0 where
  pub grows : s.nevents ≤ t.nevents
  pub limit : s.nevents ≡ max_clients → t.nevents ≡ max_clients
  pub closed_to_new :
      s.nevents ≡ max_clients → (d : ℕ) → clients_on t.clients d ≤ clients_on s.clients d

module _ (max_clients : ℕ) (k : Kernel) where
  same : (s t : Server) → t.nevents ≡ s.nevents → t.clients ≡ s.clients → Counts max_clients s t
  same s t e f = record {
    grows = omega (arith, e);
    limit = λ l. omega (arith, e, l);
    closed_to_new = λ l d. rw f (omega arith);
  }

  trans :
      (s t u : Server) → Counts max_clients s t → Counts max_clients t u → Counts max_clients s u
  trans s t u a b = record {
    grows = omega (arith, a.grows, b.grows);
    limit = λ l. b.limit (a.limit l);
    closed_to_new = λ l d. omega (arith, a.closed_to_new l d, b.closed_to_new (a.limit l) d);
  }

  add-Counts : (s : Server) (fd : ℕ) (os : Os) → Counts max_clients s (add max_clients k s fd os)
  add-Counts s fd os = elim (Bool-cases (s.nevents == max_clients)) [
    | inl e ↦ rw e (same s _ refl refl)
    | inr e ↦ elim (Bool-cases (k.succeeds os.time)) [
      | inl f ↦
          rw (e, f)
            (record {
              grows = omega arith;
              limit = λ l. absurd (ground (arith, e, l));
              closed_to_new = λ l d. absurd (ground (arith, e, l));
            })
      | inr f ↦ rw (e, f) (same s _ refl refl)
    ]
  ]

  accepted-Counts :
      (s : Server) (r : Option ℕ × Os) → Counts max_clients s (accepted max_clients k s r)
  accepted-Counts s (none, os) = same s _ refl refl
  accepted-Counts s (some fd, os) = elim (Bool-cases (k.succeeds os.time)) [
    | inl e ↦ rw e (add-Counts s fd _)
    | inr e ↦ rw e (same s _ refl refl)
  ]

  served-Counts :
      (s : Server) (fd : ℕ) (os : Os) (v : Visit) → Counts max_clients s (served k s fd os v)
  served-Counts s fd os read_fails = same s _ refl refl
  served-Counts s fd os write_fails = same s _ refl refl
  served-Counts s fd os (stays buf) = same s _ refl refl
  served-Counts s fd os (closes buf) = elim (Bool-cases (k.succeeds os.time)) [
    | inl e ↦ rw e (record {
      grows = omega arith;
      limit = λ l. l;
      closed_to_new = λ l d. without-le fd d s.clients;
    })
    | inr e ↦ rw e (same s _ refl refl)
  ]

  handle-Counts : (ev : Event) (s : Server) → Counts max_clients s (handle max_clients k ev s)
  handle-Counts ev s = elim (Bool-cases ((ev.fd == 0) && ev.epollin)) [
    | inl e ↦ rw e (same s _ refl refl)
    | inr e ↦ elim (Bool-cases ((ev.fd == s.main_fd) && ev.epollin)) [
      | inl f ↦ rw (e, f) (accepted-Counts s (accept k s.main_fd s.os))
      | inr f ↦ elim (Bool-cases (ev.epollin || ev.epollerr)) [
        | inl g ↦
            rw (e, f, g)
              (served-Counts s ev.fd (touch ev.fd s.os) (serve_client s.buf ev.input ev.wrote))
        | inr g ↦ rw (e, f, g) (same s s refl refl)
      ]
    ]
  ]

  proceed-Counts :
      (m : Mode) (s t u : Server)
      → Counts max_clients s t
      → Counts max_clients t u
      → Counts max_clients s (proceed m t u)
  proceed-Counts up s t u a b = trans s t u a b
  proceed-Counts finished s t u a b = a
  proceed-Counts exited s t u a b = a
  proceed-Counts (read_failed fd) s t u a b = a

  events-Counts :
      (evs : List Event) (s : Server) → Counts max_clients s (handle_events max_clients k evs s)
  unfolding handle_events
  events-Counts [] s = same s s refl refl
  events-Counts (ev ∷ evs) s =
      let t = handle max_clients k ev s in
      proceed-Counts t.mode s t _ (handle-Counts ev s) (events-Counts evs t)

-- `nevents` never goes down, and once it is at its limit the server of 02-epoll takes no client any
-- more, however many of those that it has leave.
pub Reach-Counts :
    (max_clients : ℕ) (k : Kernel) {s t : Server} → Reach max_clients k s t → Counts max_clients s t
Reach-Counts max_clients k {s} here = same max_clients k s s refl refl
Reach-Counts max_clients k {s} (later {t} r (waited evs u p)) =
    trans max_clients k s t _ (Reach-Counts max_clients k r) (events-Counts max_clients k evs t)
