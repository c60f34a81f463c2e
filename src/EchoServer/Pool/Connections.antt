-- ===== src/EchoServer/Pool/Connections.antt =====
-- The connections that the server of 20-net-sockets/03-thread-pool has accepted, and the rounds of its
-- workers.
use mathlib.Core.Path.{subst, fun_ext}
use so_2021v_li42d.Base.{
  ℕ, zero, suc, ◌+◌, ◌<◌, ==_iff, ◌≡◌, ◌≢◌, refl, ap, ◌∙◌, Bool, true, false, Option, none, some,
  List, [], ◌∷◌, ◌==◌, arith, Bool-cases, inl, inr, get_elem?, set, count, count-set, count-append,
  length,
}
use so_2021v_li42d.EchoServer.{
  quit, stop, read_failed, write_failed, overrun, waiting, Round, ends, goes_on,
}
use so_2021v_li42d.EchoServer.Pool.{
  Worker, idle, serving, Mode, up, exited, overran, Server, pool_accepted, worker_served, nthreads,
}
use so_2021v_li42d.Posix.{closed, connection, Kernel, Os, opened, called}
use so_2021v_li42d.Posix.Owns.{Owns, accept-Owns, close-Owns, conn-connection}
use so_2021v_li42d.ThreadPool.{
  WorkItem, ThreadPool, thread_pool_submit, thread_pool_internal_submit, thread_pool_worker, waits,
  calls,
}

abbrev pub is_serving : ℕ → Worker → Bool
is_serving d (serving fd buf) = fd == d
is_serving d _ = false

-- How often `d` stands in the work queue or is served.
abbrev pub held : Server → ℕ → ℕ
held s d = count (λ wi. wi.arg == d) s.tpool.work_queue + count (is_serving d) s.workers

-- While the server is up, its descriptors are its socket and the connections that wait in the queue or
-- are served, by no more than eight workers; the pool runs, and no call was on a wrong descriptor.
pub record Sound (pill : ℕ) (before : Os) (s : Server) : Type 0 where
  pub holds : s.mode ≡ up → Owns before.files s.main_fd (held s) s.os.files
  pub proper : s.os.misuses ≡ before.misuses
  pub workers : length s.workers ≡ nthreads
  pub runs : s.tpool.stopped ≡ false
  pub pill_set : s.tpool.death_pill ≡ pill
  pub no_pill : count (λ wi. wi.action == pill) s.tpool.work_queue ≡ 0

pub length-set : {A : Type 0} (xs : List A) (i : ℕ) (v : A) → length (set xs i v) ≡ length xs
length-set [] i v = refl
length-set (x ∷ xs) zero v = refl
length-set (x ∷ xs) (suc i) v = ap suc (length-set xs i v)

pub worker-nil : (tp : ThreadPool) → tp.work_queue ≡ [] → thread_pool_worker tp ≡ waits
unfolding thread_pool_worker
worker-nil tp e = ground (arith, e)

pub worker-cons :
    (tp : ThreadPool) (wi : WorkItem) (rest : List WorkItem)
    → tp.work_queue ≡ wi ∷ rest
    → (wi.action == tp.death_pill) ≡ false
    → thread_pool_worker tp ≡ calls (record tp { work_queue = rest }) wi
unfolding thread_pool_worker
worker-cons tp wi rest e n = ground (arith, e, n)

pub serving-pos :
    (ws : List Worker) (i fd : ℕ) (buf : ℕ → ℕ)
    → get_elem? ws i ≡ some (serving fd buf)
    → 0 < count (is_serving fd) ws
serving-pos [] i fd buf e = cc
serving-pos (w ∷ ws) zero fd buf e =
    let same : w ≡ serving fd buf = cc in rw same (ground (arith, (==_iff fd fd).1 refl))
serving-pos (w ∷ ws) (suc i) fd buf e = ground (arith, serving-pos ws i fd buf e)

module _ (pill action : ℕ) (k : Kernel) (before : Os) where
  pub accepted-Sound :
      action ≢ pill
      → (s : Server) (fd : Option ℕ) → ((d : ℕ) → fd ≡ some d → s.os.files d ≡ closed)
      → s.mode ≡ up
      → Sound pill before s
      → Sound pill before (pool_accepted action k s (opened connection fd (called true s.os)))
  unfolding thread_pool_submit thread_pool_internal_submit
  accepted-Sound ne s none new u h = record {
    holds = λ e. cc;
    proper = h.proper;
    workers = h.workers;
    runs = h.runs;
    pill_set = h.pill_set;
    no_pill = h.no_pill;
  }
  accepted-Sound ne s (some fd) new u h =
      let item : WorkItem = record { action = action; arg = fd } in
      elim (Bool-cases (k.succeeds (s.os.time + 1))) [
        | inl e ↦
            rw (e, h.runs)
              (record {
                holds = λ _. accept-Owns (h.holds u) fd (new fd refl) _ (λ d.
                    ground
                      (arith, count-append (λ wi. wi.arg == d) s.tpool.work_queue (item ∷ [])));
                proper = h.proper;
                workers = h.workers;
                runs = refl;
                pill_set = h.pill_set;
                no_pill = ground (
                  arith,
                  h.no_pill,
                  ne,
                  count-append (λ wi. wi.action == pill) s.tpool.work_queue (item ∷ []),
                );
              })
        | inr e ↦ rw e (record {
          holds = λ e. cc;
          proper = h.proper;
          workers = h.workers;
          runs = h.runs;
          pill_set = h.pill_set;
          no_pill = h.no_pill;
        })
      ]

  down-Sound :
      (os : Os) (s : Server) (m : Mode)
      → m ≢ up
      → Sound pill before s
      → os.misuses ≡ before.misuses
      → Sound pill before (record s { os = os; mode = m })
  down-Sound os s m ne h proper = record {
    holds = λ e. absurd (ne e);
    proper = proper;
    workers = h.workers;
    runs = h.runs;
    pill_set = h.pill_set;
    no_pill = h.no_pill;
  }

  pub served-Sound :
      (os : Os) (s : Server) (i fd : ℕ) (own_buf : ℕ → ℕ) (r : Round)
      → get_elem? s.workers i ≡ some (serving fd own_buf)
      → Sound pill before s
      → os.misuses ≡ before.misuses
      → Owns before.files s.main_fd (held s) os.files
      → Sound pill before (worker_served s i fd os r)
  served-Sound os s i fd own_buf (ends quit sent) e h m o =
      let here = conn-connection o fd (omega (arith, serving-pos s.workers i fd own_buf e)) in
      record {
        holds = λ _.
            close-Owns o fd _ (λ d. ground (arith, count-set (is_serving d) s.workers i _ idle e));
        proper = rw here m;
        workers = length-set s.workers i idle ∙ h.workers;
        runs = h.runs;
        pill_set = h.pill_set;
        no_pill = h.no_pill;
      }
  served-Sound os s i fd own_buf (ends overrun sent) e h m o = down-Sound os s overran (λ e. cc) h m
  served-Sound os s i fd own_buf (ends stop sent) e h m o = down-Sound os s exited (λ e. cc) h m
  served-Sound os s i fd own_buf (ends read_failed sent) e h m o =
      down-Sound os s exited (λ e. cc) h m
  served-Sound os s i fd own_buf (ends write_failed sent) e h m o =
      down-Sound os s exited (λ e. cc) h m
  served-Sound os s i fd own_buf (ends waiting sent) e h m o = down-Sound os s exited (λ e. cc) h m
  served-Sound os s i fd own_buf (goes_on buf sent) e h m o = record {
    holds = λ _.
        subst (λ f. Owns before.files s.main_fd f os.files)
          (fun_ext (λ d. ground (arith, count-set (is_serving d) s.workers i _ (serving fd buf) e)))
          o;
    proper = m;
    workers = length-set s.workers i (serving fd buf) ∙ h.workers;
    runs = h.runs;
    pill_set = h.pill_set;
    no_pill = h.no_pill;
  }
