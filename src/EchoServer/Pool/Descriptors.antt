-- ===== src/EchoServer/Pool/Descriptors.antt =====
-- The connections of the server of 20-net-sockets/03-thread-pool stand in the work queue of its pool or
-- are served by a worker.
use mathlib.Core.Path.{subst, fun_ext}
use so_2021v_li42d.Base.{
  ℕ, ◌≡◌, ◌≢◌, refl, ap, ◌∙◌, Option, none, some, List, [], ◌∷◌, ◌==◌, arith, get_elem?, count,
  count-set,
}
use so_2021v_li42d.EchoServer.{Input, failed, received}
use so_2021v_li42d.EchoServer.Setup.{open_server, open_server-Opens, Opens}
use so_2021v_li42d.EchoServer.Pool.{
  Worker, idle, serving, gone, Mode, up, exited, overran, Server, after_setup, pool_start,
  worker_serve, worker_takes, worker_turn, Turn, main_turn, turn_of, turn, pool_run, nthreads,
}
use so_2021v_li42d.Posix.{Kernel, IsLawful, Os, read}
use so_2021v_li42d.Posix.Owns.{Owns, main-listening, conn-connection}
use so_2021v_li42d.ThreadPool.{WorkItem, thread_pool_init, thread_pool_worker}
use so_2021v_li42d.EchoServer.Pool.Connections.{
  is_serving, held, Sound, length-set, worker-nil, worker-cons, serving-pos, accepted-Sound,
  served-Sound,
}

module _ (pill action : ℕ) (k : Kernel) (before : Os) where
  -- A worker takes the first connection of the queue.
  takes-Sound :
      (buf : ℕ → ℕ) (s : Server) (i : ℕ) (queue : List WorkItem)
      → s.tpool.work_queue ≡ queue
      → get_elem? s.workers i ≡ some idle
      → Sound pill before s
      → Sound pill before (worker_takes buf s i (thread_pool_worker s.tpool))
  takes-Sound buf s i [] q e h = rw (worker-nil s.tpool q) h
  takes-Sound buf s i (wi ∷ rest) q e h =
      let item = subst (λ l. count (λ w. w.action == pill) l ≡ 0) q h.no_pill in
      let held-queue = λ (d : ℕ). ap (count (λ w. w.arg == d)) q in
      simp (worker-cons s.tpool wi rest q (rw (h.pill_set) (ground (arith, item)))) (record {
        holds = λ u.
            subst (λ f. Owns before.files s.main_fd f s.os.files)
              (fun_ext (λ d. ground (
                arith,
                held-queue d,
                count-set (is_serving d) s.workers i idle (serving wi.arg buf) e,
              )))
              (h.holds u);
        proper = h.proper;
        workers = length-set s.workers i (serving wi.arg buf) ∙ h.workers;
        runs = h.runs;
        pill_set = h.pill_set;
        no_pill = ground (arith, item);
      })

  serve-Sound :
      (os : Os) (s : Server) (i fd : ℕ) (buf : ℕ → ℕ) (input : Input)
      → get_elem? s.workers i ≡ some (serving fd buf)
      → Sound pill before s
      → os.misuses ≡ before.misuses
      → Owns before.files s.main_fd (held s) os.files
      → Sound pill before (worker_serve k s i fd buf (input, os))
  serve-Sound os s i fd buf failed e h m o =
      served-Sound pill action k before os s i fd buf _ e h m o
  serve-Sound os s i fd buf (received bytes) e h m o =
      let here = conn-connection o fd (omega (arith, serving-pos s.workers i fd buf e)) in
      served-Sound pill action k before _ s i fd buf _ e h (rw here m) o

  worker-Sound :
      (buf : ℕ → ℕ) (s : Server) (i : ℕ) (w : Option Worker)
      → get_elem? s.workers i ≡ w
      → s.mode ≡ up
      → Sound pill before s
      → Sound pill before (worker_turn k buf s i w)
  worker-Sound buf s i none e u h = h
  worker-Sound buf s i (some idle) e u h = takes-Sound buf s i s.tpool.work_queue refl e h
  worker-Sound buf s i (some (serving fd own_buf)) e u h =
      let here =
        conn-connection (h.holds u) fd (omega (arith, serving-pos s.workers i fd own_buf e)) in
      serve-Sound (read k fd s.os).1 s i fd own_buf (k.reads s.os.time) e h (rw here h.proper)
        (h.holds u)
  worker-Sound buf s i (some gone) e u h = h

  turn-Sound :
      IsLawful k
      → action ≢ pill
      → (s : Server) (m : Mode) (t : Turn) → s.mode ≡ m
      → Sound pill before s
      → Sound pill before (turn action k s m t)
  turn-Sound lawful ne s up main_turn u h = rw (main-listening (h.holds u)) (
      accepted-Sound pill action k before ne s (k.opens s.os.time s.os.files)
        (λ d opens. lawful.opens-closed s.os.time s.os.files d opens) u h)
  turn-Sound lawful ne s up (turn_of i buf) u h =
      worker-Sound buf s i (get_elem? s.workers i) refl u h
  turn-Sound lawful ne s exited t u h = h
  turn-Sound lawful ne s overran t u h = h

  run-Sound :
      IsLawful k
      → action ≢ pill
      → (ts : List Turn) (s : Server) → Sound pill before s
      → Sound pill before (pool_run action k ts s)
  unfolding pool_run
  run-Sound lawful ne [] s h = h
  run-Sound lawful ne (t ∷ ts) s h =
      run-Sound lawful ne ts (turn action k s s.mode t) (turn-Sound lawful ne s s.mode t refl h)

start-Sound :
    (pill : ℕ) (before : Os) (r : Option ℕ × Os)
    → Opens before r
    → Sound pill before (after_setup (thread_pool_init pill nthreads) r)
unfolding thread_pool_init
start-Sound pill before (none, os) m = record {
  holds = λ e. cc;
  proper = m;
  workers = refl;
  runs = refl;
  pill_set = refl;
  no_pill = refl;
}
start-Sound pill before (some main_fd, os) h = record {
  holds = λ _. h.1;
  proper = h.0;
  workers = refl;
  runs = refl;
  pill_set = refl;
  no_pill = refl;
}

-- Whatever the calls give and in whatever order `main` and the eight workers run, the server of
-- 03-thread-pool makes no call on a wrong descriptor, and while it is up its descriptors are its socket
-- and one connection for each item of the work queue and for each worker that serves one.
pub pool_run-Sound :
    (pill action : ℕ) (k : Kernel)
    → IsLawful k
    → action ≢ pill
    → (before : Os) (turns : List Turn)
    → Sound pill before (pool_run action k turns (pool_start pill k before))
unfolding pool_start
pool_run-Sound pill action k lawful ne before turns =
    run-Sound pill action k before lawful ne turns _
      (start-Sound pill before (open_server k before) (open_server-Opens k lawful before))
