-- ===== src/EchoServer/Threads/Local.antt =====
-- The descriptors of the server for local sockets, 22-ipc-uds/echo-server.c.
use so_2021v_li42d.Base.{
  ℕ, ◌+◌, ◌≡◌, refl, true, Option, none, some, List, arith, Bool-cases, inl, inr,
}
use so_2021v_li42d.EchoServer.{process_local_connection}
use so_2021v_li42d.EchoServer.Setup.{Opens}
use so_2021v_li42d.EchoServer.Threads.{
  exited, after_setup, local_start, prepare_local, local_accepted, Turn, threads_run,
}
use so_2021v_li42d.EchoServer.Threads.Descriptors.{
  Sound, run-Sound, start-Sound, local_accepted-Sound,
}
use so_2021v_li42d.Posix.{created, closed, Kernel, IsLawful, Os, opened, open_file, called}
use so_2021v_li42d.Posix.Owns.{Owns}

-- What the calls before the loop leave: the socket, or on an error the descriptors from before.
abbrev Leaves : Os → Option ℕ × Os → Type 0
Leaves before (none, os) = (os.misuses ≡ before.misuses) × ((d : ℕ) → os.files d ≡ before.files d)
Leaves before (some main_fd, os) =
    (os.misuses ≡ before.misuses) × Owns before.files main_fd (λ d. 0) os.files

prepare_local-Leaves :
    (k : Kernel) (before : Os) (fd : Option ℕ)
    → ((d : ℕ) → fd ≡ some d → before.files d ≡ closed)
    → Leaves before (prepare_local k (opened created fd (called true before)))
prepare_local-Leaves k before none new = (refl, λ d. refl)
prepare_local-Leaves k before (some fd) new =
    let free = new fd refl in
    elim (Bool-cases (k.succeeds (before.time + 1 + 1))) [
      | inl b ↦ elim (Bool-cases (k.succeeds (before.time + 1 + 1 + 1))) [
        | inl l ↦
            rw (b, l)
              (
                ground arith,
                record {
                  main_new = free;
                  main_apart = refl;
                  single = λ d. omega arith;
                  new = λ d l. absurd (omega arith);
                  shows = λ d. ground arith;
                },
              )
        | inr l ↦ rw (b, l) (ground arith, λ d. ground (arith, free))
      ]
      | inr b ↦ rw b (ground arith, λ d. ground (arith, free))
    ]

Leaves-Opens : (before : Os) (r : Option ℕ × Os) → Leaves before r → Opens before r
Leaves-Opens before (none, os) l = l.0
Leaves-Opens before (some main_fd, os) l = l

exited-Leaves :
    (before : Os) (r : Option ℕ × Os)
    → Leaves before r
    → (after_setup r).mode ≡ exited
    → (d : ℕ) → (after_setup r).os.files d ≡ before.files d
exited-Leaves before (none, os) l e = l.1
exited-Leaves before (some main_fd, os) l e = absurd (cc e)

-- Whatever the calls give and in whatever order the threads run, the server of 22-ipc-uds makes no call
-- on a wrong descriptor, and while it is up its descriptors are its socket and one connection for each
-- thread that has not closed it.
pub local_run-Sound :
    (k : Kernel)
    → IsLawful k
    → (before : Os) (turns : List Turn)
    → Sound before
        (threads_run local_accepted process_local_connection k turns (local_start k before))
unfolding local_start
local_run-Sound k lawful before turns =
    let r = prepare_local k (open_file k created before) in
    let l =
      prepare_local-Leaves k before (k.opens before.time before.files)
        (λ d e. lawful.opens-closed before.time before.files d e) in
    run-Sound process_local_connection k before lawful local_accepted
      (local_accepted-Sound k before) turns _ (start-Sound before r (Leaves-Opens before r l))

-- When the server of 22-ipc-uds cannot set up its socket, on whichever call, it exits and leaves no
-- descriptor open that it has opened.
pub local_start_closes :
    (k : Kernel)
    → IsLawful k
    → (before : Os) → (local_start k before).mode ≡ exited
    → (d : ℕ) → (local_start k before).os.files d ≡ before.files d
unfolding local_start
local_start_closes k lawful before =
    exited-Leaves before (prepare_local k (open_file k created before)) (
      prepare_local-Leaves k before (k.opens before.time before.files)
        (λ d e. lawful.opens-closed before.time before.files d e))
