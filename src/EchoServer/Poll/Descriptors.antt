-- ===== src/EchoServer/Poll/Descriptors.antt =====
-- The descriptors of the server of 21-async/01-poll, in every state that it reaches.
use mathlib.Core.Path.{subst, fun_ext}
use so_2021v_li42d.Base.{
  ℕ, zero, suc, ◌+◌, ◌≤◌, ◌<◌, ==_iff, ◌≡◌, refl, Bool, Option, none, some, List, [], ◌∷◌, ◌==◌,
  arith, Bool-cases, inl, inr, count, length,
}
use so_2021v_li42d.EchoServer.{Input}
use so_2021v_li42d.EchoServer.Poll.{
  Client, Rest, passes, quits, unended, Visit, read_fails, write_fails, stays, closes, keep,
  visited, touch, go_on, serve_client, serve_clients, move_last,
}
use so_2021v_li42d.EchoServer.Poll.Serve.{count-move_last, length-move_last}
use so_2021v_li42d.Posix.{File, Os, close}
use so_2021v_li42d.Posix.Owns.{Owns, same-Owns, close-Owns, conn-connection, one_more}

-- How often `d` is the descriptor of a client.
abbrev pub clients_on : List Client → ℕ → ℕ
clients_on cs d = count (λ c. c.fd == d) cs

-- What the server holds when the loop is left by an exit: all that it had, or all but the connection
-- that was closed before it.
abbrev pub Left :
    (base : ℕ → File) (main : ℕ) (occ : ℕ → ℕ) (closed_fd : Option ℕ) → (ℕ → File) → Type 0
Left base main occ none files = Owns base main occ files
Left base main occ (some fd) files =
    (others : ℕ → ℕ) × ((d : ℕ) → occ d ≡ one_more fd others d) × Owns base main others files

-- The loop started with the clients `cs`, beside `kept` others.
abbrev pub Keeps :
    (base : ℕ → File) (main misuses : ℕ) (kept : ℕ → ℕ) (cs : List Client) → Rest → Type 0
Keeps base main misuses kept cs (passes p) =
    (p.os.misuses ≡ misuses)
    × (length p.left ≤ length cs)
    × Owns base main (λ d. kept d + clients_on p.left d) p.os.files
Keeps base main misuses kept cs (quits closed_fd left os) =
    (os.misuses ≡ misuses)
    × (length left ≤ length cs)
    × Left base main (λ d. kept d + clients_on left d) closed_fd os.files
Keeps base main misuses kept cs unended = ⊥

module _ (base : ℕ → File) (main misuses : ℕ) where
  keep-Left :
      (kept : ℕ → ℕ) (c : Client) (left : List Client) (closed_fd : Option ℕ) (files : ℕ → File)
      → Left base main (λ d. one_more c.fd kept d + clients_on left d) closed_fd files
      → Left base main (λ d. kept d + clients_on (c ∷ left) d) closed_fd files
  keep-Left kept c left none files o = same-Owns (λ d. ground arith) (λ d. refl) o
  keep-Left kept c left (some fd) files (others, split, o) =
      (others, λ d. ground (arith, split d), o)

  keep-Keeps :
      (kept : ℕ → ℕ) (c : Client) (cs : List Client) (r : Rest)
      → Keeps base main misuses (one_more c.fd kept) cs r
      → Keeps base main misuses kept (c ∷ cs) (keep c r)
  keep-Keeps kept c cs (passes p) h =
      (h.0, omega (arith, h.1), same-Owns (λ d. ground arith) (λ d. refl) h.2)
  keep-Keeps kept c cs (quits closed_fd left os) h =
      (h.0, omega (arith, h.1), keep-Left kept c left closed_fd os.files h.2)
  keep-Keeps kept c cs unended h = h

  visited-Keeps :
      (kept : ℕ → ℕ) (c : Client) (cs : List Client) (r : Rest)
      → Keeps base main misuses kept cs r
      → Keeps base main misuses kept cs (visited c r)
  visited-Keeps kept c cs (passes p) h = h
  visited-Keeps kept c cs (quits closed_fd left os) h = h
  visited-Keeps kept c cs unended h = h

  -- A client counts among those that are kept.
  shift-Owns :
      (kept : ℕ → ℕ) (c : Client) (cs : List Client) (files : ℕ → File)
      → Owns base main (λ d. kept d + clients_on (c ∷ cs) d) files
      → Owns base main (λ d. one_more c.fd kept d + clients_on cs d) files
  shift-Owns kept c cs files o = subst (λ f. Owns base main f files) (fun_ext (λ d. ground arith)) o

  shorter-Keeps :
      (kept : ℕ → ℕ) (cs ds : List Client) (r : Rest)
      → length cs ≤ length ds
      → Keeps base main misuses kept cs r
      → Keeps base main misuses kept ds r
  shorter-Keeps kept cs ds (passes p) l h = (h.0, omega (arith, h.1), h.2)
  shorter-Keeps kept cs ds (quits closed_fd left os) l h = (h.0, omega (arith, h.1), h.2)
  shorter-Keeps kept cs ds unended l h = h

  go_on-Keeps :
      (kept : ℕ → ℕ) (c : Client) (cs : List Client) (os : Os) (v : Visit)
      (rest : Os → (ℕ → ℕ) → List Client → Rest)
      → os.misuses ≡ misuses
      → Owns base main (λ d. kept d + clients_on (c ∷ cs) d) os.files
      → ((os' : Os) (buf : ℕ → ℕ) (kept' : ℕ → ℕ) (cs' : List Client)
          → length cs' ≤ length cs
          → os'.misuses ≡ misuses
          → Owns base main (λ d. kept' d + clients_on cs' d) os'.files
          → Keeps base main misuses kept' cs' (rest os' buf cs'))
      → Keeps base main misuses kept (c ∷ cs) (go_on c cs os v rest)
  go_on-Keeps kept c cs os read_fails rest m o ih =
      let here = conn-connection o c.fd (ground (arith, (==_iff c.fd c.fd).1 refl)) in
      let others : ℕ → ℕ = λ d. kept d + clients_on cs d in
      let split : (d : ℕ) → kept d + clients_on (c ∷ cs) d ≡ one_more c.fd others d =
        λ d. ground arith in
      (rw here m, omega arith, (others, split, close-Owns o c.fd others split))
  go_on-Keeps kept c cs os write_fails rest m o ih = (m, omega arith, o)
  go_on-Keeps kept c cs os (stays buf) rest m o ih = keep-Keeps kept c cs _ (
      visited-Keeps (one_more c.fd kept) c cs _
        (ih os buf (one_more c.fd kept) cs (omega arith) m (shift-Owns kept c cs os.files o)))
  go_on-Keeps kept c cs os (closes buf) rest m o ih =
      let here = conn-connection o c.fd (ground (arith, (==_iff c.fd c.fd).1 refl)) in
      visited-Keeps kept c (c ∷ cs) _ (
        shorter-Keeps kept (move_last cs) (c ∷ cs) _ (omega (arith, length-move_last cs)) (
          ih (close c.fd os) buf kept (move_last cs) (omega (arith, length-move_last cs))
            (rw here m)
            (close-Owns o c.fd _ (λ d. ground (arith, count-move_last (λ c. c.fd == d) cs)))))

  pub serve_clients-Keeps :
      (act : ℕ → Input × Bool) (fuel : ℕ) (os : Os) (buf : ℕ → ℕ) (nready : ℕ) (kept : ℕ → ℕ)
      (cs : List Client)
      → length cs < fuel
      → os.misuses ≡ misuses
      → Owns base main (λ d. kept d + clients_on cs d) os.files
      → Keeps base main misuses kept cs (serve_clients act fuel os buf nready cs)
  unfolding serve_clients
  serve_clients-Keeps act zero os buf nready kept cs enough m o = absurd (omega arith)
  serve_clients-Keeps act (suc fuel) os buf nready kept [] enough m o = (m, omega arith, o)
  serve_clients-Keeps act (suc fuel) os buf zero kept (c ∷ cs) enough m o = (m, omega arith, o)
  serve_clients-Keeps act (suc fuel) os buf (suc n) kept (c ∷ cs) enough m o =
      elim (Bool-cases (c.revents == 0)) [
        | inl idle ↦ rw idle (
            keep-Keeps kept c cs _ (
              serve_clients-Keeps act fuel os buf (suc n) (one_more c.fd kept) cs (omega arith) m
                (shift-Owns kept c cs os.files o)))
        | inr busy ↦
            let here = conn-connection o c.fd (ground (arith, (==_iff c.fd c.fd).1 refl)) in
            rw busy (
              go_on-Keeps kept c cs (touch c.fd os) (serve_client buf (act c.fd).0 (act c.fd).1) _
                (rw here m) o
                (λ os' buf' kept' cs' shorter m' o'.
                  serve_clients-Keeps act fuel os' buf' n kept' cs' (omega (arith, shorter)) m' o'))
      ]
