-- ===== src/MessageService/Clients.antt =====
-- What the steps of the clients of 19-ipc leave of the messages that are under way.
use mathlib.Core.Path.{subst}
use so_2021v_li42d.Base.{
  ℕ, ◌≡◌, ◌≢◌, inl, inr, refl, ap, sym, Option, none, some, List, [], ◌∷◌, ◌==◌, update,
  update_self, arith, Bool-cases, ==_iff,
}
use so_2021v_li42d.MessageService.{
  EchoMsg, Service, server_get, server_reply, client_start, client_put, take_reply, client_get,
  client_end, term_put, Step, receives, replies_to, starts, sends, gets, finishes, terminates,
  Reach, started, later,
}
use so_2021v_li42d.MessageService.Invariant.{
  replies_in, is_waiting, Inv, AllAsked-update, receives-Inv, replies_to-Inv, put-Inv,
  AnsweringAsked-update, is_waiting-le, RepliesAsked-update,
}

sends-Inv :
    (s t : Service) (pid : ℕ) (line : List ℕ)
    → pid ≢ 0
    → s.replies pid ≢ none
    → s.waiting pid ≡ none
    → client_put pid line s ≡ some t
    → Inv s
    → Inv t
unfolding client_put
sends-Inv s t pid line ne open_now idle r h =
    let m : EchoMsg = record { sender = pid; msg = line } in
    let u : Service = record s { waiting = update s.waiting pid (some line) } in
    let none_before = ap is_waiting idle in
    let at = h.one pid ne in
    put-Inv u t m r
      (AllAsked-update s.waiting pid (some line) s.inbox (omega (arith, at, none_before)) h.asked)
      (λ _. update_self s.waiting pid (some line)) (λ p np. ground (arith, h.one p np, none_before))
      h.none_zero
      (λ p c. elim (Bool-cases (pid == p)) [
        | inl same ↦
            absurd (open_now (subst (λ x. s.replies x ≡ none) (sym ((==_iff pid p).0 same)) c))
        | inr other ↦ rw other (h.has_channel p c)
      ])
      (AnsweringAsked-update s.waiting pid (some line) s.answering (omega (arith, at, none_before))
        h.answering_asked)
      (λ p.
        RepliesAsked-update s pid (some line) p (s.replies p)
          (λ e. subst (λ x. replies_in (s.replies x) ≡ 0) e (omega (arith, at, none_before)))
          (λ _. h.replies_asked p))

gets-Inv :
    (s t : Service) (m : EchoMsg) (pid : ℕ) (r : Option (List EchoMsg))
    → s.replies pid ≡ r
    → take_reply pid r s ≡ some (t, m)
    → Inv s
    → Inv t
gets-Inv s t m pid none e r h = absurd (cc r)
gets-Inv s t m pid (some []) e r h = absurd (cc r)
gets-Inv s t m pid (some (x ∷ q)) e r h =
    let u : Service = record s {
      replies = update s.replies pid (some q);
      waiting = update s.waiting pid none;
    } in
    let made : u ≡ t = cc r in
    let pid_pos : pid ≢ 0 = λ z. cc (subst (λ p. s.replies p ≡ some (x ∷ q)) z e, h.none_zero) in
    let here = ap replies_in e in
    let at = h.one pid pid_pos in
    let most = is_waiting-le (s.waiting pid) in
    subst Inv made (record {
      one = λ p ne. ground (arith, h.one p ne, at, here, most);
      none_zero = ground (arith, pid_pos, h.none_zero);
      has_channel = λ p c. ground (arith, c, h.has_channel p);
      asked = AllAsked-update s.waiting pid none s.inbox (omega (arith, at, here, most)) h.asked;
      answering_asked =
          AnsweringAsked-update s.waiting pid none s.answering (omega (arith, at, here, most))
            h.answering_asked;
      replies_asked = λ p.
          RepliesAsked-update s pid none p (update s.replies pid (some q) p)
            (λ same. ground (arith, same, at, here, most))
            (λ other.
              let there : update s.replies pid (some q) p ≡ s.replies p = ground (arith, other) in
              rw there (h.replies_asked p));
    })

starts-Inv :
    (s : Service) (pid : ℕ)
    → pid ≢ 0
    → s.replies pid ≡ none
    → s.waiting pid ≡ none
    → Inv s
    → Inv (client_start pid s)
unfolding client_start
starts-Inv s pid ne new idle h =
    let before = ap replies_in new in
    record {
      one = λ p np. ground (arith, h.one p np, before);
      none_zero = ground (arith, ne, h.none_zero);
      has_channel = λ p c. ground (arith, c, h.has_channel p);
      asked = h.asked;
      answering_asked = h.answering_asked;
      replies_asked =
          λ p. elim (Bool-cases (pid == p)) [ inl e ↦ rw e tt | inr e ↦ rw e (h.replies_asked p) ];
    }

finishes-Inv :
    (s : Service) (pid : ℕ)
    → s.replies pid ≢ none
    → s.waiting pid ≡ none
    → Inv s
    → Inv (client_end pid s)
unfolding client_end
finishes-Inv s pid open_now idle h =
    let pid_pos : pid ≢ 0 = λ z. open_now (subst (λ p. s.replies p ≡ none) (sym z) h.none_zero) in
    let at = h.one pid pid_pos in
    let none_due = ap is_waiting idle in
    record {
      one = λ p np. ground (arith, h.one p np, at, none_due);
      none_zero = ground (arith, h.none_zero);
      has_channel = λ p c. ground (arith, c, h.has_channel p, idle);
      asked = h.asked;
      answering_asked = h.answering_asked;
      replies_asked =
          λ p. elim (Bool-cases (pid == p)) [ inl e ↦ rw e tt | inr e ↦ rw e (h.replies_asked p) ];
    }

terminates-Inv : (s t : Service) → term_put s ≡ some t → Inv s → Inv t
unfolding term_put
terminates-Inv s t r h =
    put-Inv s t (record { sender = 0; msg = [] }) r h.asked (λ ne. absurd (ne refl))
      (λ pid ne. ground (arith, h.one pid ne)) h.none_zero h.has_channel h.answering_asked
      h.replies_asked

Step-Inv : {s t : Service} → Step s t → Inv s → Inv t
unfolding server_get server_reply client_get
Step-Inv {s} {t} (receives run idle r) h = receives-Inv s t s.inbox refl idle r h
Step-Inv {s} {t} (replies_to m busy r) h = replies_to-Inv s t m (s.replies m.sender) refl busy r h
Step-Inv {s} (starts pid ne new idle) h = starts-Inv s pid ne new idle h
Step-Inv {s} {t} (sends pid line ne open_now idle r) h = sends-Inv s t pid line ne open_now idle r h
Step-Inv {s} {t} (gets {m = m} pid r) h = gets-Inv s t m pid (s.replies pid) refl r h
Step-Inv {s} (finishes pid open_now idle) h = finishes-Inv s pid open_now idle h
Step-Inv {s} {t} (terminates r) h = terminates-Inv s t r h

pub Reach-Inv : {server_pid : ℕ} {s : Service} → Reach server_pid s → Inv s
Reach-Inv started = record {
  one = λ pid ne. refl;
  none_zero = refl;
  has_channel = λ pid c. refl;
  asked = tt;
  answering_asked = tt;
  replies_asked = λ pid. tt;
}
Reach-Inv (later r st) = Step-Inv st (Reach-Inv r)
