-- ===== src/Uthread/Context.antt =====
-- The saved execution context of a thread: 15-uthread-synch/uthreads/uthread/ctxswitch.s,
-- 14-uthread-scheduling/ctxsw.s and 13-uthread-ctxsw/ctxsw.s, and the `uthread_context_t` that both
-- versions of `ut_create` and `prepare_thread` of 13-uthread-ctxsw/uthread.c build on a fresh
-- stack. Memory is a function from the addresses of 64-bit words to their values; distinct words
-- are taken not to overlap.
use so_2021v_li42d.Base.{
  ℕ, ◌+◌, ◌-◌, ◌*◌, ◌%◌, ◌≤◌, ◌<◌, ◌≡◌, ◌⊎◌, arith, ltb, leb, ◌&&◌, if◌then◌else◌, update,
}

-- The registers that the callee saves, the stack pointer, and the address where `ret` goes on.
pub record Cpu : Type 0 where
  pub rsp : ℕ
  pub rbp : ℕ
  pub rbx : ℕ
  pub r12 : ℕ
  pub r13 : ℕ
  pub r14 : ℕ
  pub r15 : ℕ
  pub rip : ℕ
  pub words : ℕ → ℕ

abbrev pub push : ℕ → Cpu → Cpu
push v c = record c { rsp = c.rsp - 8; words = update c.words (c.rsp - 8) v }

-- `call context_switch` leaves the return address on the stack; then come the six pushes, and
-- `mov %rsp, (%rdi)`, which stores the stack pointer in the first field of the thread.
unfoldable pub save : ℕ → ℕ → Cpu → Cpu
save curr_thread ret_addr c =
    let c =
      push c.r15
        (push c.r14 (push c.r13 (push c.r12 (push c.rbx (push c.rbp (push ret_addr c)))))) in
    record c { words = update c.words curr_thread c.rsp }

-- `mov (%rsi), %rsp`, the six pops, and `ret`.
unfoldable pub restore : ℕ → Cpu → Cpu
restore next_thread c =
    let sp = c.words next_thread in
    record {
      r15 = c.words sp;
      r14 = c.words (sp + 8);
      r13 = c.words (sp + 16);
      r12 = c.words (sp + 24);
      rbx = c.words (sp + 32);
      rbp = c.words (sp + 40);
      rip = c.words (sp + 48);
      rsp = sp + 56;
      words = c.words;
    }

abbrev pub stack_size : ℕ
stack_size = 8 * 4096

-- The bytes of a `uthread_context_t`.
abbrev pub context_size : ℕ
context_size = 56

-- `memset(thread->stack, 0, STACK_SIZE)`
abbrev pub zero_stack : ℕ → (ℕ → ℕ) → ℕ → ℕ
zero_stack stack words p = if leb stack p && ltb p (stack + stack_size) then 0 else words p

-- The last part of `ut_create`: zero the stack, place the context, fill its seven fields.
unfoldable pub build_context : (thread stack start : ℕ) → Cpu → Cpu
build_context thread stack start c =
    let context = stack + stack_size - context_size - 8 in
    let w = zero_stack stack c.words in
    let w = update w thread context in
    let w = update w context 0x55555555 in
    let w = update w (context + 8) 0x44444444 in
    let w = update w (context + 16) 0x33333333 in
    let w = update w (context + 24) 0x22222222 in
    let w = update w (context + 32) 0x11111111 in
    let w = update w (context + 40) 0x00000000 in record c { words = update w (context + 48) start }

-- `ut_create` of 14-uthread-scheduling: the thread descriptor lies at the low end of the mapped block
-- and no word is kept free above the context.
unfoldable pub build_context14 : (puthread start : ℕ) → Cpu → Cpu
build_context14 puthread start c =
    let pctx = puthread + stack_size - context_size in
    let w = update c.words (pctx + 40) 0 in
    let w = update w (pctx + 48) start in record c { words = update w puthread pctx }

-- `prepare_thread` of 13-uthread-ctxsw: the stack follows the word `rsp` in the same struct.
unfoldable pub prepare_thread : (thread func : ℕ) → Cpu → Cpu
prepare_thread thread func c =
    let pctx = thread + 8 + stack_size - context_size in
    let w = update c.words (pctx + 40) 0 in
    let w = update w (pctx + 48) func in record c { words = update w thread pctx }

-- `c'` holds what `save` left for the thread: its stack pointer and the seven words above it.
pub record SameFrame (thread sp : ℕ) (c c' : Cpu) : Type 0 where
  pub slot : c'.words thread ≡ c.words thread
  pub frame : (p : ℕ) → sp ≤ p → p < sp + context_size → c'.words p ≡ c.words p

-- What a thread sees of the processor when `context_switch` returns to it.
pub record Resumed (c : Cpu) (ret_addr : ℕ) (c' : Cpu) : Type 0 where
  pub rsp : c'.rsp ≡ c.rsp
  pub rbp : c'.rbp ≡ c.rbp
  pub rbx : c'.rbx ≡ c.rbx
  pub r12 : c'.r12 ≡ c.r12
  pub r13 : c'.r13 ≡ c.r13
  pub r14 : c'.r14 ≡ c.r14
  pub r15 : c'.r15 ≡ c.r15
  pub rip : c'.rip ≡ ret_addr

-- A thread that was switched out with `save` and is switched in again with `restore` finds its stack
-- pointer and callee-saved registers as they were and goes on at its return address, whatever ran
-- meanwhile, if its stack has room for the frame, its descriptor is not in that frame, and the frame
-- and the stored stack pointer were not written.
pub restore-save :
    (c c' : Cpu) (thread ret_addr : ℕ)
    → context_size ≤ c.rsp
    → (c.rsp ≤ thread) ⊎ (thread + context_size < c.rsp)
    → SameFrame thread (c.rsp - context_size) (save thread ret_addr c) c'
    → Resumed c ret_addr (restore thread c')
unfolding save restore
restore-save c c' thread ret_addr room apart same =
    let sp = c.rsp - 56 in
    let slot : c'.words thread ≡ sp = ground (arith, same.slot) in
    record {
      rsp = omega (arith, slot);
      rbp = ground (arith, slot, same.frame (sp + 40));
      rbx = ground (arith, slot, same.frame (sp + 32));
      r12 = ground (arith, slot, same.frame (sp + 24));
      r13 = ground (arith, slot, same.frame (sp + 16));
      r14 = ground (arith, slot, same.frame (sp + 8));
      r15 = ground (arith, slot, same.frame sp);
      rip = ground (arith, slot, same.frame (sp + 48));
    }

-- The first switch to a new thread enters its start routine with a zero frame pointer, eight bytes
-- below the top of its stack; on a stack aligned to 16 this is the alignment that the System V
-- calling convention wants at a function's entry.
pub restore-build_context :
    (c : Cpu) (thread stack start : ℕ)
    → (thread < stack) ⊎ (stack + stack_size ≤ thread)
    → stack % 16 ≡ 0
    → ((restore thread (build_context thread stack start c)).rip ≡ start)
      × ((restore thread (build_context thread stack start c)).rbp ≡ 0)
      × ((restore thread (build_context thread stack start c)).rsp ≡ stack + stack_size - 8)
      × ((restore thread (build_context thread stack start c)).rsp % 16 ≡ 8)
unfolding restore build_context
restore-build_context c thread stack start apart align =
    (ground arith, ground arith, ground arith, ground arith)

-- In 14-uthread-scheduling the start routine is entered with a stack pointer that is a multiple of
-- 16, eight bytes off the alignment of the calling convention, as `mmap` gives aligned blocks.
pub restore-build_context14 :
    (c : Cpu) (puthread start : ℕ)
    → puthread % 16 ≡ 0
    → ((restore puthread (build_context14 puthread start c)).rip ≡ start)
      × ((restore puthread (build_context14 puthread start c)).rbp ≡ 0)
      × ((restore puthread (build_context14 puthread start c)).rsp % 16 ≡ 0)
unfolding restore build_context14
restore-build_context14 c puthread start align = (ground arith, ground arith, ground arith)
