-- ===== src/Posix/Owns.antt =====
-- Which descriptors a server holds: its listening socket and its connections, over those that the
-- process had before.
use mathlib.Core.Path.{subst, fun_ext}
use so_2021v_li42d.Base.{ℕ, ◌+◌, ◌≤◌, ◌<◌, ◌≡◌, ◌≢◌, if◌then◌else◌, ◌==◌, update, arith}
use so_2021v_li42d.Posix.{File, closed, listening, connection}

-- `occ d` is how often the server has `d` as a connection.
pub record Owns (base : ℕ → File) (main : ℕ) (occ : ℕ → ℕ) (files : ℕ → File) : Type 0 where
  pub main_new : base main ≡ closed
  pub main_apart : occ main ≡ 0
  pub single : (d : ℕ) → occ d ≤ 1
  pub new : (d : ℕ) → occ d ≡ 1 → base d ≡ closed
  pub shows :
      (d : ℕ)
      → files d ≡ (if main == d then listening else if occ d == 0 then base d else connection)

-- One more occurrence of `fd`.
abbrev pub one_more : ℕ → (ℕ → ℕ) → ℕ → ℕ
one_more fd occ d = (if fd == d then 1 else 0) + occ d

pub same-Owns :
    {base : ℕ → File} {main : ℕ} {occ occ' : ℕ → ℕ} {files files' : ℕ → File}
    → ((d : ℕ) → occ d ≡ occ' d)
    → ((d : ℕ) → files d ≡ files' d)
    → Owns base main occ files
    → Owns base main occ' files'
same-Owns {base} {main} {occ} {files' = files'} e f o =
    subst (λ g. Owns base main g files') (fun_ext e)
      (subst (λ g. Owns base main occ g) (fun_ext f) o)

module _ {base : ℕ → File} {main : ℕ} {occ : ℕ → ℕ} {files : ℕ → File} where
  pub closed-fresh :
      Owns base main occ files
      → (fd : ℕ) → files fd ≡ closed
      → (main ≢ fd) × (occ fd ≡ 0) × (base fd ≡ closed)
  closed-fresh o fd e = ground (arith, o.shows fd, o.single fd)

  pub accept-Owns :
      Owns base main occ files
      → (fd : ℕ) → files fd ≡ closed
      → (occ' : ℕ → ℕ) → ((d : ℕ) → occ' d ≡ one_more fd occ d)
      → Owns base main occ' (update files fd connection)
  accept-Owns o fd e occ' more =
      let fresh = closed-fresh o fd e in
      record {
        main_new = o.main_new;
        main_apart = ground (arith, more main, o.main_apart, fresh.0);
        single = λ d. ground (arith, more d, o.single d, fresh.1);
        new = λ d l. ground (arith, more d, o.new d, fresh.2);
        shows = λ d. ground (arith, more d, o.shows d, fresh.0, fresh.1);
      }

  pub close-Owns :
      Owns base main occ files
      → (fd : ℕ) (occ' : ℕ → ℕ) → ((d : ℕ) → occ d ≡ one_more fd occ' d)
      → Owns base main occ' (update files fd closed)
  close-Owns o fd occ' less = record {
    main_new = o.main_new;
    main_apart = ground (arith, less main, o.main_apart);
    single = λ d. ground (arith, less d, o.single d);
    new = λ d l. ground (arith, less d, o.new d, o.single d);
    shows = λ d.
        ground (arith, less d, less fd, less main, o.main_apart, o.shows d, o.new d, o.single d);
  }

  pub main-listening : Owns base main occ files → files main ≡ listening
  main-listening o = ground (arith, o.shows main)

  pub conn-connection : Owns base main occ files → (d : ℕ) → 0 < occ d → files d ≡ connection
  conn-connection o d l = ground (arith, o.shows d, o.main_apart)

  -- Once the connections are gone, closing the socket leaves the descriptors as they were.
  pub close_main-base :
      Owns base main occ files
      → ((d : ℕ) → occ d ≡ 0)
      → (d : ℕ) → update files main closed d ≡ base d
  close_main-base o none_left d = ground (arith, o.shows d, none_left d, o.main_new)
