-- ===== src/EchoServer/Uv/Echo/Returns.antt =====
-- What the server of 21-async/03-libuv sends back on a stream, against what it has read from it.
use mathlib.Core.Path.{subst}
use mathlib.Core.List.{append-nil, append_assoc}
use so_2021v_li42d.Base.{
  ℕ, zero, suc, ◌≡◌, refl, ap, sym, ◌∙◌, true, false, some, List, [], ◌∷◌, ◌++◌, if◌then◌else◌,
  ◌==◌, update, update_self, ==_iff, length, count, arith, Bool-cases, inl, inr,
}
use so_2021v_li42d.Base.Int.{ℤ, pos, negsuc}
use so_2021v_li42d.EchoServer.{fill}
use so_2021v_li42d.EchoServer.Buffer.{bytes_of-fill}
use so_2021v_li42d.EchoServer.Uv.{
  WriteReq, alloc_buffer, after_write, on_read, Handle, Loop, reads, wrote, start, prepare_server,
}
use so_2021v_li42d.EchoServer.Uv.Blocks.{Owned, Step-Owned, bases_on, reqs_on}
use so_2021v_li42d.EchoServer.Uv.Echo.{
  Echo, text_of, after_reading, after_writing, read_loop, EchoStep, reads_text, writes_text, silent,
  EchoReach, echo_started, echo_later, unsent,
}

Matches : Echo → Type 0
Matches s = (c : ℕ) → s.got c ≡ s.sent c ++ unsent s.bytes s.streams c s.loop.writes

module _ (bytes : ℕ → ℕ → ℕ) (streams : ℕ → ℕ) (c : ℕ) where
  unsent-append :
      (xs ys : List WriteReq)
      → unsent bytes streams c (xs ++ ys) ≡ unsent bytes streams c ys ++ unsent bytes streams c xs
  unsent-append [] ys = sym (append-nil (unsent bytes streams c ys))
  unsent-append (x ∷ xs) ys =
      let text = if streams x.req == c then text_of bytes x else [] in
      ap (λ t. t ++ text) (unsent-append xs ys)
      ∙ append_assoc (unsent bytes streams c ys) (unsent bytes streams c xs) text

  -- A new buffer and a new request change nothing for the writes that have neither.
  unsent-update :
      (base req stream : ℕ) (buffer : ℕ → ℕ) (ws : List WriteReq)
      → count (λ w. w.base == base) ws ≡ 0
      → count (λ w. w.req == req) ws ≡ 0
      → unsent (update bytes base buffer) (update streams req stream) c ws
        ≡ unsent bytes streams c ws
  unsent-update base req stream buffer [] no_base no_req = refl
  unsent-update base req stream buffer (w ∷ ws) no_base no_req =
      let other_base : (base == w.base) ≡ false = ground (arith, no_base) in
      let other_req : (req == w.req) ≡ false = ground (arith, no_req) in
      let rest =
        unsent-update base req stream buffer ws (ground (arith, no_base))
          (ground (arith, no_req)) in
      rw (other_base, other_req)
        (ap (λ t. t ++ (if streams w.req == c then text_of bytes w else [])) rest)

  -- Nothing is to be written on a stream that has no write.
  unsent-none :
      (ws : List WriteReq) → count (λ x. streams x.req == c) ws ≡ 0 → unsent bytes streams c ws ≡ []
  unsent-none [] no_write = refl
  unsent-none (w ∷ ws) no_write =
      let other : (streams w.req == c) ≡ false = ground (arith, no_write) in
      rw other (ap (λ t. t ++ []) (unsent-none ws (ground (arith, no_write))))

-- A block that is not allocated is no part of a write.
free-unused :
    (s : Loop) (p : ℕ)
    → Owned s
    → s.memory.allocated p ≡ false
    → (bases_on s p ≡ 0) × (reqs_on s p ≡ 0)
free-unused s p h free = ground (arith, h.owned p, free)

-- A text that was read on the stream `a` is to be written on it.
grown :
    (got sent : ℕ → List ℕ) (a c : ℕ) (rest text : List ℕ)
    → got c ≡ sent c ++ rest
    → update got a (got a ++ text) c ≡ sent c ++ (rest ++ (if a == c then text else []))
grown got sent a c rest text m = elim (Bool-cases (a == c)) [
  | inl e ↦ rw e (
      ap (λ x. got x ++ text) ((==_iff a c).0 e)
      ∙ ap (λ t. t ++ text) m
      ∙ append_assoc (sent c) rest text)
  | inr e ↦ rw e (m ∙ ap (λ t. sent c ++ t) (sym (append-nil rest)))
]

-- The oldest text that was to be written on the stream `a` is written.
shrunk :
    (sent : ℕ → List ℕ) (a c : ℕ) (older newer text got : List ℕ)
    → got ≡ sent c ++ ((older ++ (if a == c then text else [])) ++ newer)
    → ((a == c) ≡ true → older ≡ [])
    → got ≡ update sent a (sent a ++ text) c ++ (older ++ newer)
shrunk sent a c older newer text got m oldest = elim (Bool-cases (a == c)) [
  | inl e ↦
      let none_older = oldest e in
      rw e (
        m
        ∙ ap (λ b. sent c ++ ((older ++ (if b then text else [])) ++ newer)) e
        ∙ ap (λ o. sent c ++ ((o ++ text) ++ newer)) none_older
        ∙ sym (append_assoc (sent c) text newer)
        ∙ ap (λ o. (sent c ++ text) ++ (o ++ newer)) (sym none_older)
        ∙ ap (λ x. (sent x ++ text) ++ (older ++ newer)) (sym ((==_iff a c).0 e)))
  | inr e ↦ rw e (
      m
      ∙ ap (λ b. sent c ++ ((older ++ (if b then text else [])) ++ newer)) e
      ∙ ap (λ t. sent c ++ (t ++ newer)) (append-nil older))
]

reads-Matches :
    (s : Echo) (before after : List Handle) (h : Handle) (base req len b : ℕ) (text : List ℕ)
    → Owned s.loop
    → Matches s
    → s.loop.memory.allocated base ≡ false
    → (alloc_buffer base s.loop.memory).allocated req ≡ false
    → Matches (
        after_reading s
          (read_loop s.loop before after h base req len (length text))
          h.address
          base
          req
          (b ∷ text))
unfolding Matches on_read alloc_buffer
reads-Matches s before after h base req len b text o m free free_req c =
    let ws = s.loop.writes in
    let buffer = fill (s.bytes base) 0 (b ∷ text) in
    let was_free : s.loop.memory.allocated req ≡ false = ground (arith, free_req) in
    let same =
      unsent-update s.bytes s.streams c base req h.address buffer ws
        (free-unused s.loop base o free).0 (free-unused s.loop req o was_free).1 in
    rw
      (
        same,
        update_self s.streams req h.address,
        update_self s.bytes base buffer,
        bytes_of-fill (s.bytes base) 0 (b ∷ text),
      )
      (grown s.got s.sent h.address c (unsent s.bytes s.streams c ws) (b ∷ text) (m c))

writes-Matches :
    (s : Echo) (before after : List WriteReq) (w : WriteReq)
    → Matches s
    → s.loop.writes ≡ before ++ w ∷ after
    → count (λ x. s.streams x.req == s.streams w.req) after ≡ 0
    → Matches (
        after_writing s
          (record s.loop { memory = after_write w s.loop.memory; writes = before ++ after })
          w)
unfolding Matches
writes-Matches s before after w m e oldest c =
    let split = unsent-append s.bytes s.streams c before in
    rw (split after) (
      shrunk s.sent (s.streams w.req) c (unsent s.bytes s.streams c after)
        (unsent s.bytes s.streams c before) (text_of s.bytes w) (s.got c)
        (m c
          ∙ ap (λ ws. s.sent c ++ unsent s.bytes s.streams c ws) e
          ∙ ap (λ t. s.sent c ++ t) (split (w ∷ after)))
        (λ same. unsent-none s.bytes s.streams c after (
          ap (λ x. count (λ (y : WriteReq). s.streams y.req == x) after)
            (sym ((==_iff (s.streams w.req) c).0 same))
          ∙ oldest)))

EchoStep-Matches : {s t : Echo} → EchoStep s t → Owned s.loop → Matches s → Owned t.loop × Matches t
unfolding Matches
EchoStep-Matches {s} (reads_text before after h base req len b text e opened free free_req) o m = (
  Step-Owned
      (reads before after h base len req (pos (length (b ∷ text))) e opened free free_req refl) o,
  reads-Matches s before after h base req len b text o m free free_req,
)
EchoStep-Matches {s} (writes_text before after w e oldest) o m =
    (Step-Owned (wrote before after w e) o, writes-Matches s before after w m e oldest)
EchoStep-Matches {s} (silent step same) o m =
    (Step-Owned step o, λ c. m c ∙ ap (λ ws. s.sent c ++ unsent s.bytes s.streams c ws) (sym same))

prepare_server-start :
    (bind_res listen_res : ℤ) (loop : Loop)
    → prepare_server bind_res listen_res ≡ some loop
    → start ≡ loop
unfolding prepare_server
prepare_server-start (pos zero) (pos zero) loop e = cc
prepare_server-start (pos zero) (pos (suc n)) loop e = cc
prepare_server-start (pos zero) (negsuc n) loop e = cc
prepare_server-start (pos (suc m)) l loop e = cc
prepare_server-start (negsuc m) l loop e = cc

EchoReach-Matches : {s : Echo} → EchoReach s → Owned s.loop × Matches s
unfolding Matches
EchoReach-Matches (echo_started bytes streams bind_res listen_res {loop} up) =
    let from_start = prepare_server-start bind_res listen_res loop up in
    (
      subst Owned from_start (record { owned = λ p. refl; proper = refl }),
      λ c. ap (λ (l : Loop). unsent bytes streams c l.writes) from_start,
    )
EchoReach-Matches (echo_later r step) =
    let (o, m) = EchoReach-Matches r in EchoStep-Matches step o m

-- While its writes succeed, the libuv server has at any time sent back on each stream what it has got
-- from it, in order and nothing else, but for the texts of the writes that are still under way.
pub EchoReach-echoes :
    {s : Echo}
    → EchoReach s
    → (c : ℕ) → s.got c ≡ s.sent c ++ unsent s.bytes s.streams c s.loop.writes
unfolding Matches
EchoReach-echoes {s} r c = (EchoReach-Matches r).1 c
