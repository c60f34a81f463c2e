-- ===== src/MessageService/Replies.antt =====
-- The answers that the clients of the echo service of 19-ipc get.
use mathlib.Core.Path.{subst}
use so_2021v_li42d.Base.{
  ℕ, ◌≡◌, ◌≢◌, inl, inr, refl, ap, ◌∙◌, sym, Option, none, some, List, [], ◌∷◌, ◌==◌, arith,
  Bool-cases, ==_iff,
}
use so_2021v_li42d.MessageService.{
  EchoMsg, Service, answer, server_reply, take_reply, client_get, Reach,
}
use so_2021v_li42d.MessageService.Invariant.{
  answering_from, replies_in, RepliesAsked, is_waiting-le,
}
use so_2021v_li42d.MessageService.Clients.{Reach-Inv}

get_own :
    (s t : Service) (m : EchoMsg) (pid : ℕ) (r : Option (List EchoMsg))
    → s.replies pid ≡ r
    → take_reply pid r s ≡ some (t, m)
    → RepliesAsked (s.waiting pid) r
    → s.waiting pid ≡ some m.msg
get_own s t m pid none e r a = absurd (cc r)
get_own s t m pid (some []) e r a = absurd (cc r)
get_own s t m pid (some (x ∷ q)) e r a = let same : x ≡ m = cc r in a ∙ ap (λ y. some y.msg) same

-- In every reachable state of the service, whatever the order in which the processes run: the answer
-- that a client gets has the text of the line that it sent last and waits for.
pub Reach-own :
    {server_pid pid : ℕ} {s t : Service} {m : EchoMsg}
    → Reach server_pid s
    → client_get pid s ≡ some (t, m)
    → s.waiting pid ≡ some m.msg
unfolding client_get
Reach-own {pid = pid} {s} {t} {m} r e =
    get_own s t m pid (s.replies pid) refl e ((Reach-Inv r).replies_asked pid)

answering_from_self :
    (m : EchoMsg) (s : Service) → s.answering ≡ some m → answering_from m.sender s.answering ≡ 1
answering_from_self m s busy =
    ap (answering_from m.sender) busy ∙ ground (arith, (==_iff m.sender m.sender).1 refl)

answer_room :
    (s : Service) (m : EchoMsg) (r : Option (List EchoMsg)) → replies_in r ≡ 0 → answer m r s ≢ none
answer_room s m none z = λ e. cc
answer_room s m (some []) z = λ e. cc
answer_room s m (some (x ∷ q)) z = absurd (omega (arith, z))

-- The server never has to wait to hand over an answer, although the channel of a client has room for
-- one message only.
pub Reach-never_waits :
    {server_pid : ℕ} {s : Service} {m : EchoMsg}
    → Reach server_pid s
    → s.answering ≡ some m
    → server_reply m s ≢ none
unfolding server_reply
Reach-never_waits {s = s} {m} r busy =
    let h = Reach-Inv r in
    answer_room s m (s.replies m.sender) (elim (Bool-cases (m.sender == 0)) [
      | inl z ↦
          subst (λ p. replies_in (s.replies p) ≡ 0) (sym ((==_iff m.sender 0).0 z))
            (ap replies_in h.none_zero)
      | inr ne ↦ omega (
        arith,
        h.one m.sender (ground (arith, ne)),
        answering_from_self m s busy,
        is_waiting-le (s.waiting m.sender),
      )
    ])
