-- ===== src/MessageService/Invariant.antt =====
-- The messages that are under way in the echo service of 19-ipc, and what the steps of the server leave
-- of them.
use mathlib.Core.Path.{subst}
use so_2021v_li42d.Base.{
  ℕ, ◌+◌, ◌≤◌, ◌≡◌, ◌≢◌, inl, inr, refl, ap, Bool, ◌&&◌, Option, none, some, List, [], ◌∷◌, ◌++◌,
  if◌then◌else◌, ◌==◌, update, length, count, count-append, arith, Bool-cases, ==_iff,
}
use so_2021v_li42d.MessageService.{
  EchoMsg, Service, put_inbox, got_message, get_inbox, answer, is_empty,
}

abbrev pub from : ℕ → EchoMsg → Bool
from pid m = m.sender == pid

abbrev pub answering_from : ℕ → Option EchoMsg → ℕ
answering_from pid none = 0
answering_from pid (some m) = if m.sender == pid then 1 else 0

abbrev pub replies_in : Option (List EchoMsg) → ℕ
replies_in none = 0
replies_in (some q) = length q

abbrev pub is_waiting : Option (List ℕ) → ℕ
is_waiting none = 0
is_waiting (some line) = 1

-- What a client waits for is the text of a message of its own.
abbrev pub Asked : (ℕ → Option (List ℕ)) → EchoMsg → Type 0
Asked waiting m = (m.sender ≢ 0) → waiting m.sender ≡ some m.msg

abbrev pub AllAsked : (ℕ → Option (List ℕ)) → List EchoMsg → Type 0
AllAsked waiting [] = Unit
AllAsked waiting (m ∷ ms) = Asked waiting m × AllAsked waiting ms

abbrev pub AnsweringAsked : (ℕ → Option (List ℕ)) → Option EchoMsg → Type 0
AnsweringAsked waiting none = Unit
AnsweringAsked waiting (some m) = Asked waiting m

abbrev pub RepliesAsked : Option (List ℕ) → Option (List EchoMsg) → Type 0
RepliesAsked w none = Unit
RepliesAsked w (some []) = Unit
RepliesAsked w (some (m ∷ q)) = w ≡ some m.msg

-- A client that waits has one message under way: in the channel of the server, with the server, or as
-- the answer in its own channel; a client that does not wait has none.
pub record Inv (s : Service) : Type 0 where
  pub one :
      (pid : ℕ)
      → pid ≢ 0
      → count (from pid) s.inbox + answering_from pid s.answering + replies_in (s.replies pid)
        ≡ is_waiting (s.waiting pid)
  pub none_zero : s.replies 0 ≡ none
  pub has_channel : (pid : ℕ) → s.replies pid ≡ none → s.waiting pid ≡ none
  pub asked : AllAsked s.waiting s.inbox
  pub answering_asked : AnsweringAsked s.waiting s.answering
  pub replies_asked : (pid : ℕ) → RepliesAsked (s.waiting pid) (s.replies pid)

-- Changing what one client waits for leaves the messages of the others.
pub AllAsked-update :
    (waiting : ℕ → Option (List ℕ)) (pid : ℕ) (w : Option (List ℕ)) (ms : List EchoMsg)
    → count (from pid) ms ≡ 0
    → AllAsked waiting ms
    → AllAsked (update waiting pid w) ms
AllAsked-update waiting pid w [] z a = tt
AllAsked-update waiting pid w (m ∷ ms) z a =
    (λ ne. ground (arith, z, a.0 ne), AllAsked-update waiting pid w ms (ground (arith, z)) a.1)

AllAsked-append :
    (waiting : ℕ → Option (List ℕ)) (ms : List EchoMsg) (m : EchoMsg)
    → AllAsked waiting ms
    → Asked waiting m
    → AllAsked waiting (ms ++ m ∷ [])
AllAsked-append waiting [] m a l = (l, tt)
AllAsked-append waiting (x ∷ ms) m a l = (a.0, AllAsked-append waiting ms m a.1 l)

pub receives-Inv :
    (s t : Service) (inbox : List EchoMsg)
    → s.inbox ≡ inbox
    → s.answering ≡ none
    → get_inbox inbox s ≡ some t
    → Inv s
    → Inv t
receives-Inv s t [] e n r h = absurd (cc r)
receives-Inv s t (m ∷ inbox) e n r h =
    let u : Service = record s { inbox = inbox } in
    let made : got_message m u ≡ t = cc r in
    let asked = subst (AllAsked s.waiting) e h.asked in
    let counted = λ (pid : ℕ). ap (count (from pid)) e in
    let idle = λ (pid : ℕ). ap (answering_from pid) n in
    subst Inv made (elim (Bool-cases (m.sender == 0 && is_empty m.msg)) [
      | inl stop ↦ rw stop (record {
        one = λ pid ne. ground (arith, h.one pid ne, counted pid, stop);
        none_zero = h.none_zero;
        has_channel = h.has_channel;
        asked = asked.1;
        answering_asked = h.answering_asked;
        replies_asked = h.replies_asked;
      })
      | inr go ↦ rw go (record {
        one = λ pid ne. ground (arith, h.one pid ne, counted pid, idle pid);
        none_zero = h.none_zero;
        has_channel = h.has_channel;
        asked = asked.1;
        answering_asked = asked.0;
        replies_asked = h.replies_asked;
      })
    ])

pub replies_to-Inv :
    (s t : Service) (m : EchoMsg) (r : Option (List EchoMsg))
    → s.replies m.sender ≡ r
    → s.answering ≡ some m
    → answer m r s ≡ some t
    → Inv s
    → Inv t
replies_to-Inv s t m none e n r h =
    let made : record s { answering = none } ≡ t = cc r in
    let busy = λ (pid : ℕ). ap (answering_from pid) n in
    subst Inv made (record {
      one = λ pid ne. ground (
        arith,
        h.one pid ne,
        busy pid,
        h.has_channel m.sender e,
        h.one m.sender,
        busy m.sender,
        ap is_waiting (h.has_channel m.sender e),
        (==_iff m.sender m.sender).1 refl,
      );
      none_zero = h.none_zero;
      has_channel = h.has_channel;
      asked = h.asked;
      answering_asked = tt;
      replies_asked = h.replies_asked;
    })
replies_to-Inv s t m (some []) e n r h =
    let reply : EchoMsg = record { sender = s.server_pid; msg = m.msg } in
    let u : Service = record s {
      answering = none;
      replies = update s.replies m.sender (some (reply ∷ []));
    } in
    let made : u ≡ t = cc r in
    let busy = λ (pid : ℕ). ap (answering_from pid) n in
    let none_in = ap replies_in e in
    let sender_pos : m.sender ≢ 0 = λ z. cc (subst (λ p. s.replies p ≡ some []) z e, h.none_zero) in
    let asked = subst (AnsweringAsked s.waiting) n h.answering_asked in
    subst Inv made (record {
      one = λ pid ne. ground (arith, h.one pid ne, busy pid, none_in);
      none_zero = ground (arith, sender_pos, h.none_zero);
      has_channel = λ pid c. ground (arith, c, h.has_channel pid);
      asked = h.asked;
      answering_asked = tt;
      replies_asked = λ pid. elim (Bool-cases (m.sender == pid)) [
        | inl same ↦ rw same (
            subst (λ p. s.waiting p ≡ some m.msg) ((==_iff m.sender pid).0 same) (asked sender_pos))
        | inr other ↦ rw other (h.replies_asked pid)
      ];
    })
replies_to-Inv s t m (some (x ∷ q)) e n r h = absurd (ground (arith, r))

pub put-Inv :
    (s t : Service) (m : EchoMsg)
    → put_inbox m s ≡ some t
    → AllAsked s.waiting s.inbox
    → Asked s.waiting m
    → ((pid : ℕ)
        → pid ≢ 0
        → (if from pid m then 1 else 0)
            + count (from pid) s.inbox
            + answering_from pid s.answering
            + replies_in (s.replies pid)
          ≡ is_waiting (s.waiting pid))
    → s.replies 0 ≡ none
    → ((pid : ℕ) → s.replies pid ≡ none → s.waiting pid ≡ none)
    → AnsweringAsked s.waiting s.answering
    → ((pid : ℕ) → RepliesAsked (s.waiting pid) (s.replies pid))
    → Inv t
put-Inv s t m r asked asks one zero has_channel answering replies =
    let made : record s { inbox = s.inbox ++ m ∷ [] } ≡ t = ground (arith, r) in
    subst Inv made (record {
      one = λ pid ne. ground (arith, one pid ne, count-append (from pid) s.inbox (m ∷ []));
      none_zero = zero;
      has_channel = has_channel;
      asked = AllAsked-append s.waiting s.inbox m asked asks;
      answering_asked = answering;
      replies_asked = replies;
    })

pub AnsweringAsked-update :
    (waiting : ℕ → Option (List ℕ)) (pid : ℕ) (w : Option (List ℕ)) (a : Option EchoMsg)
    → answering_from pid a ≡ 0
    → AnsweringAsked waiting a
    → AnsweringAsked (update waiting pid w) a
AnsweringAsked-update waiting pid w none z h = tt
AnsweringAsked-update waiting pid w (some m) z h = λ ne. ground (arith, z, h ne)

RepliesAsked-empty :
    (w : Option (List ℕ)) (r : Option (List EchoMsg)) → replies_in r ≡ 0 → RepliesAsked w r
RepliesAsked-empty w none z = tt
RepliesAsked-empty w (some []) z = tt
RepliesAsked-empty w (some (m ∷ q)) z = absurd (omega (arith, z))

pub is_waiting-le : (w : Option (List ℕ)) → is_waiting w ≤ 1
is_waiting-le none = omega arith
is_waiting-le (some line) = omega arith

-- What a client waits for changes where no answer is in its channel.
pub RepliesAsked-update :
    (s : Service) (pid : ℕ) (w : Option (List ℕ)) (p : ℕ) (r : Option (List EchoMsg))
    → (pid ≡ p → replies_in r ≡ 0)
    → (pid ≢ p → RepliesAsked (s.waiting p) r)
    → RepliesAsked (update s.waiting pid w p) r
RepliesAsked-update s pid w p r same other = elim (Bool-cases (pid == p)) [
  | inl e ↦ RepliesAsked-empty _ r (same ((==_iff pid p).0 e))
  | inr e ↦ rw e (other (ground (arith, e)))
]
