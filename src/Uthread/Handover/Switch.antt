-- ===== src/Uthread/Handover/Switch.antt =====
-- What a call of `context_switch` in 13-uthread-ctxsw/uthread.c does to the threads of the program: the
-- one that runs, and those whose place stands in the frame on their stack.
use so_2021v_li42d.Base.{ℕ, ◌+◌, ◌-◌, ◌≤◌, ◌≡◌, ◌⊎◌, inl, inr, ap, ◌∙◌, arith}
use so_2021v_li42d.Uthread.Context.{Cpu, prepare_thread, save, restore}
use so_2021v_li42d.Uthread.Handover.{Place}

-- `sizeof (uthread_t)`
abbrev pub thread_size : ℕ
thread_size = 32776

abbrev pub Apart : ℕ → ℕ → Type 0
Apart a b = (a + thread_size ≤ b) ⊎ (b + thread_size ≤ a)

-- The thread `b` is not in the frame that a switch at the stack pointer `rsp` writes.
pub record Clear (rsp b : ℕ) : Type 0 where
  pub room : 56 ≤ rsp
  pub apart : (rsp ≤ b) ⊎ (b + thread_size ≤ rsp - 56)

module _ (at : Place → ℕ) where
  pub record Parked (thread : ℕ) (p : Place) (c : Cpu) : Type 0 where
    pub slot : c.words thread ≡ thread + 32720
    pub ret : c.words (thread + 32768) ≡ at p

  pub record Runs (thread : ℕ) (p : Place) (c : Cpu) : Type 0 where
    pub rsp : c.rsp ≡ thread + thread_size
    pub rip : c.rip ≡ at p

  pub save-Parked :
      (thread : ℕ) (p : Place) (c : Cpu)
      → c.rsp ≡ thread + thread_size
      → Parked thread p (save thread (at p) c)
  unfolding save
  save-Parked thread p c top = record { slot = ground arith; ret = ground arith }

  pub save_other :
      (curr back thread : ℕ) (p : Place) (c : Cpu)
      → Apart curr thread
      → Clear c.rsp thread
      → Parked thread p c
      → Parked thread p (save curr back c)
  unfolding save
  save_other curr back thread p c other clear h = elim (clear.apart) [
    | inl above ↦ record {
      slot = ground (arith, h.slot, clear.room);
      ret = ground (arith, h.ret, clear.room);
    }
    | inr below ↦ record {
      slot = ground (arith, h.slot, clear.room);
      ret = ground (arith, h.ret, clear.room);
    }
  ]

  pub restore-Runs :
      (next : ℕ) (p : Place) (c : Cpu) → Parked next p c → Runs next p (restore next c)
  unfolding restore
  restore-Runs next p c h =
      let there : c.words next + 48 ≡ next + 32768 = omega (arith, h.slot) in
      record { rsp = ground (arith, h.slot); rip = ap c.words there ∙ h.ret }

  pub restore_other :
      (next thread : ℕ) (p : Place) (c : Cpu) → Parked thread p c → Parked thread p (restore next c)
  unfolding restore
  restore_other next thread p c h = record { slot = h.slot; ret = h.ret }

  pub prepare_thread-Parked :
      (thread : ℕ) (p : Place) (c : Cpu) → Parked thread p (prepare_thread thread (at p) c)
  unfolding prepare_thread
  prepare_thread-Parked thread p c = record { slot = ground arith; ret = ground arith }

  pub prepare_thread_other :
      (new func thread : ℕ) (p : Place) (c : Cpu)
      → Apart new thread
      → Parked thread p c
      → Parked thread p (prepare_thread new func c)
  unfolding prepare_thread
  prepare_thread_other new func thread p c other h = record {
    slot = ground (arith, h.slot);
    ret = ground (arith, h.ret);
  }
