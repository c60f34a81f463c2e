-- ===== src/EchoServer/Client/Process/Closes.antt =====
-- The descriptors of the client for local sockets, 22-ipc-uds/echo-client.c.
use so_2021v_li42d.Base.{
  ℕ, ◌+◌, ◌≡◌, refl, Bool, true, false, Option, none, some, List, [], ◌∷◌, if◌then◌else◌, ◌==◌,
  arith, Bool-cases, inl, inr,
}
use so_2021v_li42d.EchoServer.{Input, failed}
use so_2021v_li42d.EchoServer.Client.{
  Reply, exits, leaves, overruns, shows, client_sends, client_round,
}
use so_2021v_li42d.EchoServer.Client.Process.{
  Control, talking, finished, exited, overran, Client, client_socket, client_start, client_next,
  answered, typed, client_read, client_written, client_dispatch, client_step, client_run,
}
use so_2021v_li42d.Posix.{
  closed, connection, created, Kernel, IsLawful, Os, is_connection, called, opened,
}

-- The connection is the one descriptor more, and no call was on a wrong one.
pub record Holds (before : Os) (conn_fd : ℕ) (os : Os) : Type 0 where
  pub misuses : os.misuses ≡ before.misuses
  pub new : before.files conn_fd ≡ closed
  pub shows : (d : ℕ) → os.files d ≡ (if conn_fd == d then connection else before.files d)

-- Once the server has left, the descriptors are those from before, and one call was on a wrong one.
abbrev pub Kept : Os → Control → ℕ → Os → Type 0
Kept before talking conn_fd os = Holds before conn_fd os
Kept before finished conn_fd os =
    (os.misuses ≡ before.misuses + 1) × ((d : ℕ) → os.files d ≡ before.files d)
Kept before _ conn_fd os = os.misuses ≡ before.misuses

module _ (k : Kernel) (before : Os) where
  next-Kept :
      (s : Client) (os : Os) (reply : Reply)
      → s.control ≡ talking
      → Holds before s.conn_fd os
      → let s' = client_next s os reply in Kept before s'.control s'.conn_fd s'.os
  next-Kept s os exits is h = h.misuses
  next-Kept s os leaves is h =
      (ground (arith, h.misuses, h.shows s.conn_fd), λ d. ground (arith, h.shows d, h.new))
  next-Kept s os overruns is h = h.misuses
  next-Kept s os (shows text) is h = rw is h

  call-Holds :
      (conn_fd : ℕ) (os : Os)
      → Holds before conn_fd os
      → Holds before conn_fd (called (is_connection (os.files conn_fd)) os)
  call-Holds conn_fd os h = record {
    misuses = ground (arith, h.misuses, h.shows conn_fd);
    new = h.new;
    shows = h.shows;
  }

  read-Kept :
      (s : Client) (line : ℕ → ℕ) (text : List ℕ) (input : Input) (os : Os)
      → s.control ≡ talking
      → Holds before s.conn_fd os
      → let s' = client_read s line text (input, os) in Kept before s'.control s'.conn_fd s'.os
  read-Kept s line text input os is h =
      next-Kept (record s { reply = answered s.reply input }) os
        (client_round line s.reply (some text) true input) is h

  written-Kept :
      (s : Client) (line : ℕ → ℕ) (text : List ℕ) (wrote : Bool) (os : Os)
      → s.control ≡ talking
      → Holds before s.conn_fd os
      → let s' = client_written k s line text (wrote, os) in Kept before s'.control s'.conn_fd s'.os
  written-Kept s line text true os is h =
      read-Kept (record s { sent = client_sends line text ∷ s.sent }) line text (k.reads os.time) _
        is (call-Holds s.conn_fd os h)
  written-Kept s line text false os is h =
      next-Kept s os (client_round line s.reply (some text) false failed) is h

  dispatch-Kept :
      (text : Option (List ℕ)) (s : Client) (c : Control)
      → s.control ≡ c
      → Kept before c s.conn_fd s.os
      → let s' = client_dispatch k text s c in Kept before s'.control s'.conn_fd s'.os
  dispatch-Kept none s talking is h =
      next-Kept s s.os (client_round s.line s.reply none false failed) is h
  dispatch-Kept (some text) s talking is h =
      written-Kept (typed s text) s.line text (k.succeeds s.os.time) _ is
        (call-Holds s.conn_fd s.os h)
  dispatch-Kept text s finished is h = rw is h
  dispatch-Kept text s exited is h = rw is h
  dispatch-Kept text s overran is h = rw is h

  run-Kept :
      (terminal : List (Option (List ℕ))) (s : Client)
      → Kept before s.control s.conn_fd s.os
      → let s' = client_run k terminal s in Kept before s'.control s'.conn_fd s'.os
  unfolding client_run client_step
  run-Kept [] s h = h
  run-Kept (text ∷ terminal) s h =
      run-Kept terminal (client_dispatch k text s s.control) (dispatch-Kept text s s.control refl h)

  socket-Kept :
      (line reply : ℕ → ℕ) (fd : Option ℕ)
      → ((d : ℕ) → fd ≡ some d → before.files d ≡ closed)
      → let s = client_socket line reply k (opened created fd (called true before)) in
        Kept before s.control s.conn_fd s.os
  socket-Kept line reply none new = refl
  socket-Kept line reply (some fd) new = elim (Bool-cases (k.succeeds (before.time + 1))) [
    | inl e ↦ rw e (record { misuses = ground arith; new = new fd refl; shows = λ d. ground arith })
    | inr e ↦ rw e (ground arith)
  ]

-- Whatever the calls give and whatever is typed, while the client of 22-ipc-uds talks to the server its
-- connection is the one descriptor that it has opened, and no call was on a wrong descriptor; when the
-- server has left, the descriptors are those from before and exactly one call was on a wrong one, the
-- second `close`.
pub client_run-Kept :
    (k : Kernel)
    → IsLawful k
    → (before : Os) (line reply : ℕ → ℕ) (terminal : List (Option (List ℕ)))
    → let s = client_run k terminal (client_start line reply k before) in
      Kept before s.control s.conn_fd s.os
unfolding client_start
client_run-Kept k lawful before line reply terminal = run-Kept k before terminal _ (
    socket-Kept k before line reply (k.opens before.time before.files)
      (λ d e. lawful.opens-closed before.time before.files d e))
