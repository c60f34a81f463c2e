-- ===== src/EchoServer/Epoll/Retained.antt =====
-- What one event of the server of 21-async/02-epoll leaves of its clients, for the events after it.
use so_2021v_li42d.Base.{
  ℕ, ◌+◌, ◌≤◌, ◌≡◌, ◌≢◌, refl, ◌&&◌, ◌||◌, Option, none, some, List, [], ◌∷◌, ◌==◌, arith,
  Bool-cases, inl, inr, count,
}
use so_2021v_li42d.EchoServer.Poll.{
  Visit, read_fails, write_fails, stays, closes, serve_client, touch,
}
use so_2021v_li42d.EchoServer.Epoll.{
  Server, Event, accepted, without, served, handle, clients_on, Reported,
}
use so_2021v_li42d.Posix.{Kernel, Os, accept}

-- What the rest of the events need of the server after one on `fd`: it has the other clients still.
pub record Retains (fd : ℕ) (s t : Server) : Type 0 where
  pub main : t.main_fd ≡ s.main_fd
  pub others : (d : ℕ) → d ≢ fd → clients_on s.clients d ≤ clients_on t.clients d

without-others : (fd d : ℕ) (cs : List ℕ) → d ≢ fd → clients_on cs d ≤ clients_on (without fd cs) d
without-others fd d [] ne = omega arith
without-others fd d (c ∷ cs) ne = ground (arith, without-others fd d cs ne)

pub Reported-Retains :
    (fd main main' : ℕ) (cs cs' : List ℕ) (evs : List Event)
    → main' ≡ main
    → ((d : ℕ) → d ≢ fd → clients_on cs d ≤ clients_on cs' d)
    → count (λ e. e.fd == fd) evs ≡ 0
    → Reported main cs evs
    → Reported main' cs' evs
Reported-Retains fd main main' cs cs' [] e more other h = tt
Reported-Retains fd main main' cs cs' (ev ∷ evs) e more other h =
    let apart : ev.fd ≢ fd = ground (arith, other) in
    (
      elim h.0 [
        | inl l ↦ inl (omega (arith, l, more ev.fd apart))
        | inr l ↦ elim l [ inl p ↦ inr (inl p) | inr p ↦ inr (inr (omega (arith, p, e))) ]
      ],
      h.1,
      Reported-Retains fd main main' cs cs' evs e more (ground (arith, other)) h.2,
    )

module _ (max_clients : ℕ) (k : Kernel) where
  accepted-Retains :
      (s : Server) (fd : ℕ) (r : Option ℕ × Os) → Retains fd s (accepted max_clients k s r)
  accepted-Retains s fd (none, os) = record { main = refl; others = λ d ne. omega arith }
  accepted-Retains s fd (some conn_fd, os) = elim (Bool-cases (k.succeeds os.time)) [
    | inl e ↦ elim (Bool-cases (s.nevents == max_clients)) [
      | inl f ↦ rw (e, f) (record { main = refl; others = λ d ne. omega arith })
      | inr f ↦ elim (Bool-cases (k.succeeds (os.time + 1))) [
        | inl g ↦ rw (e, f, g) (record { main = refl; others = λ d ne. ground arith })
        | inr g ↦ rw (e, f, g) (record { main = refl; others = λ d ne. omega arith })
      ]
    ]
    | inr e ↦ rw e (record { main = refl; others = λ d ne. omega arith })
  ]

  served-Retains : (s : Server) (fd : ℕ) (os : Os) (v : Visit) → Retains fd s (served k s fd os v)
  served-Retains s fd os read_fails = record { main = refl; others = λ d ne. omega arith }
  served-Retains s fd os write_fails = record { main = refl; others = λ d ne. omega arith }
  served-Retains s fd os (stays buf) = record { main = refl; others = λ d ne. omega arith }
  served-Retains s fd os (closes buf) = elim (Bool-cases (k.succeeds os.time)) [
    | inl e ↦ rw e (record { main = refl; others = λ d ne. without-others fd d s.clients ne })
    | inr e ↦ rw e (record { main = refl; others = λ d ne. omega arith })
  ]

  pub handle-Retains : (ev : Event) (s : Server) → Retains ev.fd s (handle max_clients k ev s)
  handle-Retains ev s = elim (Bool-cases ((ev.fd == 0) && ev.epollin)) [
    | inl e ↦ rw e (record { main = refl; others = λ d ne. omega arith })
    | inr e ↦ elim (Bool-cases ((ev.fd == s.main_fd) && ev.epollin)) [
      | inl f ↦ rw (e, f) (accepted-Retains s ev.fd (accept k s.main_fd s.os))
      | inr f ↦ elim (Bool-cases (ev.epollin || ev.epollerr)) [
        | inl g ↦
            rw (e, f, g)
              (served-Retains s ev.fd (touch ev.fd s.os) (serve_client s.buf ev.input ev.wrote))
        | inr g ↦ rw (e, f, g) (record { main = refl; others = λ d ne. omega arith })
      ]
    ]
  ]
