-- ===== src/Posix.antt =====
-- The descriptors of a process, and the system calls by which the echo servers of 20-net-sockets,
-- 21-async and 22-ipc-uds handle them. What a call gives is a choice of the kernel, which is a
-- parameter; a call on a descriptor that does not stand for the right kind of file is counted.
pub mod Owns
use so_2021v_li42d.Base.{
  ℕ, ◌+◌, ◌≡◌, Bool, true, false, Option, none, some, List, [], ◌∷◌, if◌then◌else◌, update,
}
use so_2021v_li42d.EchoServer.{Input}

-- What a descriptor stands for.
pub data File : Type 0 where
  closed : File
  created : File
  bound : File
  listening : File
  connection : File
  monitor : File
  stream : File

-- The results of calls, by the number of calls made before: the descriptor that a call opens, or none
-- if it fails; whether another call succeeds; what a read gives; the events of a descriptor.
pub record Kernel : Type 0 where
  pub opens : ℕ → (ℕ → File) → Option ℕ
  pub succeeds : ℕ → Bool
  pub reads : ℕ → Input
  pub events : ℕ → ℕ → ℕ

-- A call that opens a file gives a descriptor that was not in use.
pub record IsLawful (k : Kernel) : Type 0 where
  pub opens-closed :
      (time : ℕ) (files : ℕ → File) (fd : ℕ) → k.opens time files ≡ some fd → files fd ≡ closed

-- The descriptors, the number of calls so far, and the number of those on a wrong descriptor.
pub record Os : Type 0 where
  pub files : ℕ → File
  pub time : ℕ
  pub misuses : ℕ

abbrev pub is_created : File → Bool
is_created created = true
is_created _ = false

abbrev pub is_bound : File → Bool
is_bound bound = true
is_bound _ = false

abbrev pub is_listening : File → Bool
is_listening listening = true
is_listening _ = false

abbrev pub is_connection : File → Bool
is_connection connection = true
is_connection _ = false

abbrev pub is_open : File → Bool
is_open closed = false
is_open _ = true

-- A call that needs `test` of its descriptor.
abbrev pub called : (test : Bool) → Os → Os
called test os = record os {
  time = os.time + 1;
  misuses = if test then os.misuses else os.misuses + 1;
}

-- What a call that opens a descriptor leaves.
abbrev pub opened : File → Option ℕ → Os → Option ℕ × Os
opened file none os = (none, os)
opened file (some fd) os = (some fd, record os { files = update os.files fd file })

-- `socket` and `epoll_create`
abbrev pub open_file : Kernel → File → Os → Option ℕ × Os
open_file k file os = opened file (k.opens os.time os.files) (called true os)

abbrev pub accept : Kernel → ℕ → Os → Option ℕ × Os
accept k fd os =
    opened connection (k.opens os.time os.files) (called (is_listening (os.files fd)) os)

-- `bind` and `listen`, from one state of the socket to the next.
abbrev pub advance : Kernel → (test : File → Bool) → File → ℕ → Os → Bool × Os
advance k test file fd os =
    let os1 = called (test (os.files fd)) os in
    (
      k.succeeds os.time,
      if k.succeeds os.time then record os1 { files = update os.files fd file } else os1,
    )

-- `setsockopt`, `inet_ntop` and the like: they only succeed or fail.
abbrev pub call : Kernel → Os → Bool × Os
call k os = (k.succeeds os.time, called true os)

abbrev pub read : Kernel → ℕ → Os → Input × Os
read k fd os = (k.reads os.time, called (is_connection (os.files fd)) os)

abbrev pub write : Kernel → ℕ → Os → Bool × Os
write k fd os = (k.succeeds os.time, called (is_connection (os.files fd)) os)

abbrev pub close : ℕ → Os → Os
close fd os = record (called (is_open (os.files fd)) os) { files = update os.files fd closed }

-- Several calls of `close`.
abbrev pub close_all : List ℕ → Os → Os
close_all [] os = os
close_all (fd ∷ fds) os = close_all fds (close fd os)
