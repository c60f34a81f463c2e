-- ===== src/EchoServer/Setup.antt =====
-- How the echo servers open the socket that they listen on: the calls of `socket`, `setsockopt`,
-- `bind` and `listen` at the start of `main` in 20-net-sockets and 21-async.
use so_2021v_li42d.Base.{
  ℕ, ◌≡◌, refl, ◌+◌, true, Option, none, some, if◌then◌else◌, arith, Bool-cases, inl, inr,
}
use so_2021v_li42d.Posix.{
  closed, created, bound, listening, Kernel, IsLawful, Os, is_created, is_bound, called, opened,
  open_file, advance, call,
}
use so_2021v_li42d.Posix.Owns.{Owns}

-- The calls after `socket`; with none the process exits.
abbrev pub prepare : Kernel → Option ℕ × Os → Option ℕ × Os
prepare k (none, os) = (none, os)
prepare k (some main_fd, os) =
    let os1 = (call k os).1 in
    let (is_bound_now, os2) = advance k is_created bound main_fd os1 in
    let (listens, os3) = advance k is_bound listening main_fd os2 in
    if is_bound_now then (if listens then (some main_fd, os3) else (none, os3)) else (none, os2)

unfoldable pub open_server : Kernel → Os → Option ℕ × Os
open_server k os = prepare k (open_file k created os)

-- What `open_server` leaves of the descriptors `os` of the process.
abbrev pub Opens : Os → Option ℕ × Os → Type 0
Opens os (none, os') = os'.misuses ≡ os.misuses
Opens os (some main_fd, os') = (os'.misuses ≡ os.misuses) × Owns os.files main_fd (λ d. 0) os'.files

prepare-Opens :
    (k : Kernel) (os : Os) (fd : Option ℕ)
    → ((d : ℕ) → fd ≡ some d → os.files d ≡ closed)
    → Opens os (prepare k (opened created fd (called true os)))
prepare-Opens k os none new = refl
prepare-Opens k os (some fd) new = elim (Bool-cases (k.succeeds (os.time + 1 + 1))) [
  | inl b ↦ elim (Bool-cases (k.succeeds (os.time + 1 + 1 + 1))) [
    | inl l ↦
        rw (b, l)
          (
            ground arith,
            record {
              main_new = new fd refl;
              main_apart = refl;
              single = λ d. omega arith;
              new = λ d l. absurd (omega arith);
              shows = λ d. ground arith;
            },
          )
    | inr l ↦ rw (b, l) (ground arith)
  ]
  | inr b ↦ rw b (ground arith)
]

-- The socket that `open_server` gives is new, bound and listening, and no other descriptor changes;
-- no call is made on a wrong descriptor, also where the process exits.
pub open_server-Opens : (k : Kernel) → IsLawful k → (os : Os) → Opens os (open_server k os)
unfolding open_server
open_server-Opens k lawful os =
    prepare-Opens k os (k.opens os.time os.files) (λ d e. lawful.opens-closed os.time os.files d e)
