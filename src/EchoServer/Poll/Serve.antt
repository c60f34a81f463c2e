-- ===== src/EchoServer/Poll/Serve.antt =====
-- The clients that the loop of 21-async/01-poll/echo-server.c reads from, and those that it keeps. The
-- last entry of the array takes the place of a client that leaves.
use so_2021v_li42d.Base.{
  ℕ, zero, suc, ◌<◌, ◌≡◌, refl, ap, sym, Bool, true, false, ◌&&◌, ◌||◌, not, List, [], ◌∷◌, length,
  count, if◌then◌else◌, ◌==◌, arith, Bool-cases, inl, inr,
}
use so_2021v_li42d.Posix.{Os, close}
use so_2021v_li42d.EchoServer.{Input, failed, received, fill, quit_word}
use so_2021v_li42d.EchoServer.Buffer.{says, is_command-says}
use so_2021v_li42d.EchoServer.Poll.{
  Client, Pass, passes, touch, stays, closes, serve_client, last_of, before_last, move_last, Rest,
  keep, visited, serve_clients,
}

pub last-count :
    (test : Client → Bool) (c : Client) (cs : List Client)
    → count test (last_of c cs ∷ before_last c cs) ≡ count test (c ∷ cs)
last-count test c [] = refl
last-count test c (d ∷ cs) = ground (arith, last-count test d cs)

pub count-move_last :
    (test : Client → Bool) (cs : List Client) → count test (move_last cs) ≡ count test cs
unfolding move_last
count-move_last test [] = refl
count-move_last test (c ∷ cs) = last-count test c cs

length-before_last : (c : Client) (cs : List Client) → length (before_last c cs) ≡ length cs
length-before_last c [] = refl
length-before_last c (d ∷ cs) = ap suc (length-before_last d cs)

pub length-move_last : (cs : List Client) → length (move_last cs) ≡ length cs
unfolding move_last
length-move_last [] = refl
length-move_last (c ∷ cs) = ap suc (length-before_last c cs)

abbrev pub ready : Client → Bool
ready c = not (c.revents == 0)

-- A client leaves at the end of its stream or with the command `quit`.
abbrev pub leaves : Input → Bool
leaves failed = false
leaves (received bytes) = length bytes == 0 || says quit_word bytes

-- Every read and write succeeds.
pub record Calm (act : ℕ → Input × Bool) : Type 0 where
  pub bytes : ℕ → List ℕ
  pub reads : (fd : ℕ) → (act fd).0 ≡ received (bytes fd)
  pub writes : (fd : ℕ) → (act fd).1 ≡ true

-- What the loop leaves of `clients`: every ready one was visited once, and those that left are gone.
pub record Served (act : ℕ → Input × Bool) (clients : List Client) (rest : Rest) : Type 0 where
  pub pass : Pass
  pub result : rest ≡ passes pass
  pub once : (test : Client → Bool) → count test pass.seen ≡ count (λ c. test c && ready c) clients
  pub stayed :
      (test : Client → Bool)
      → count test pass.left ≡ count (λ c. test c && not (ready c && leaves (act c.fd).0)) clients

serve_client_calm :
    (buf : ℕ → ℕ) (bytes : List ℕ)
    → serve_client buf (received bytes) true
      ≡ (if leaves (received bytes) then closes (fill buf 0 bytes) else stays (fill buf 0 bytes))
unfolding serve_client
serve_client_calm buf bytes =
    rw
      (is_command-says quit_word buf 0 bytes
        (omega arith, (omega arith, (omega arith, (omega arith, tt)))))
      (ground arith)

none_ready :
    (act : ℕ → Input × Bool) (cs : List Client)
    → count ready cs ≡ 0
    → ((test : Client → Bool) → count (λ c. test c && ready c) cs ≡ 0)
      × ((test : Client → Bool)
          → count (λ c. test c && not (ready c && leaves (act c.fd).0)) cs ≡ count test cs)
none_ready act [] e = (λ test. refl, λ test. refl)
none_ready act (c ∷ cs) e =
    let ih = none_ready act cs (ground (arith, e)) in
    (λ test. ground (arith, e, ih.0 test), λ test. ground (arith, e, ih.1 test))

visit-Calm :
    (act : ℕ → Input × Bool) (calm : Calm act) (buf : ℕ → ℕ) (fd : ℕ)
    → (b : ℕ → ℕ) × (serve_client buf (act fd).0 (act fd).1
        ≡ (if leaves (act fd).0 then closes b else stays b))
visit-Calm act calm buf fd = (
  fill buf 0 (calm.bytes fd),
  rw (calm.reads fd, calm.writes fd) (serve_client_calm buf (calm.bytes fd)),
)

-- When no read or write fails, the fuel is more than the number of clients, and `nready` is the number of clients with events,
-- the loop ends, reads exactly once from each of these clients and from no other, and leaves all
-- clients but those of them that were at the end of their stream or said `quit`.
pub serve_clients-Served :
    (act : ℕ → Input × Bool)
    → Calm act
    → (fuel : ℕ) (os : Os) (buf : ℕ → ℕ) (nready : ℕ) (clients : List Client)
    → length clients < fuel
    → nready ≡ count ready clients
    → Served act clients (serve_clients act fuel os buf nready clients)
unfolding serve_clients
serve_clients-Served act calm zero os buf nready clients enough e = absurd (omega arith)
serve_clients-Served act calm (suc fuel) os buf nready [] enough e = record {
  pass = record { left = []; seen = []; os = os; buf = buf };
  result = refl;
  once = λ test. refl;
  stayed = λ test. refl;
}
serve_clients-Served act calm (suc fuel) os buf zero (c ∷ cs) enough e =
    let idle = none_ready act (c ∷ cs) (sym e) in
    record {
      pass = record { left = c ∷ cs; seen = []; os = os; buf = buf };
      result = refl;
      once = λ test. sym (idle.0 test);
      stayed = λ test. sym (idle.1 test);
    }
serve_clients-Served act calm (suc fuel) os buf (suc n) (c ∷ cs) enough e =
    elim (Bool-cases (c.revents == 0)) [
      | inl idle ↦
          let ih =
            serve_clients-Served act calm fuel os buf (suc n) cs (omega arith)
              (ground (arith, e, idle)) in
          record {
            pass = record ih.pass { left = c ∷ ih.pass.left };
            result = rw idle (ap (keep c) ih.result);
            once = λ test. ground (arith, idle, ih.once test);
            stayed = λ test. ground (arith, idle, ih.stayed test);
          }
      | inr busy ↦
          let (b, visit) = visit-Calm act calm buf c.fd in
          elim (Bool-cases (leaves (act c.fd).0)) [
            | inl gone ↦
                let ih =
                  serve_clients-Served act calm fuel (close c.fd (touch c.fd os)) b n (move_last cs)
                    (omega (arith, length-move_last cs))
                    (ground (arith, e, busy, count-move_last ready cs)) in
                record {
                  pass = record ih.pass { seen = c ∷ ih.pass.seen };
                  result = rw (busy, visit, gone) (ap (visited c) ih.result);
                  once = λ test.
                      ground
                        (arith, busy, ih.once test, count-move_last (λ c. test c && ready c) cs);
                  stayed = λ test. ground (
                    arith,
                    busy,
                    gone,
                    ih.stayed test,
                    count-move_last (λ c. test c && not (ready c && leaves (act c.fd).0)) cs,
                  );
                }
            | inr still ↦
                let ih =
                  serve_clients-Served act calm fuel (touch c.fd os) b n cs (omega arith)
                    (ground (arith, e, busy)) in
                record {
                  pass = record ih.pass { left = c ∷ ih.pass.left; seen = c ∷ ih.pass.seen };
                  result = rw (busy, visit, still) (ap (λ r. keep c (visited c r)) ih.result);
                  once = λ test. ground (arith, busy, ih.once test);
                  stayed = λ test. ground (arith, busy, still, ih.stayed test);
                }
          ]
    ]
