-- ===== src/EchoServer/Uv/Blocks.antt =====
-- The memory of the libuv server: the owners of its blocks, and what is left at the end.
use mathlib.Core.Path.{subst}
use so_2021v_li42d.Base.{
  ℕ, zero, suc, ◌+◌, ◌<◌, ◌≡◌, ◌↔◌, refl, ap, Bool, true, false, List, [], ◌∷◌, ◌++◌, if◌then◌else◌,
  ◌==◌, count, count-append, arith,
}
use so_2021v_li42d.Base.Int.{ℤ, pos, negsuc}
use so_2021v_li42d.EchoServer.Uv.{
  free, WriteReq, alloc_buffer, after_write, on_close, on_read, on_new_connection, Handle, Loop,
  with_handle, with_write, after_read, left_over, Step, connects, reads, wrote, closes, Reach,
  started, later,
}

-- How often an address is that of a handle, of a request, of a buffer that is written, or unused.
abbrev pub handles_on : Loop → ℕ → ℕ
handles_on s p = count (λ h. h.address == p) s.handles

abbrev pub reqs_on : Loop → ℕ → ℕ
reqs_on s p = count (λ w. w.req == p) s.writes

abbrev pub bases_on : Loop → ℕ → ℕ
bases_on s p = count (λ w. w.base == p) s.writes

abbrev pub unused_on : Loop → ℕ → ℕ
unused_on s p = count (λ b. b == p) s.unused

abbrev pub owners : Loop → ℕ → ℕ
owners s p = handles_on s p + reqs_on s p + bases_on s p + unused_on s p

-- A block is allocated exactly if it has an owner, and it has one at most.
pub record Owned (s : Loop) : Type 0 where
  pub owned : (p : ℕ) → owners s p ≡ (if s.memory.allocated p then 1 else 0)
  pub proper : s.memory.bad_frees ≡ 0

middle-count :
    {A : Type 0} (test : A → Bool) (x : A) (before after all : List A)
    → all ≡ before ++ x ∷ after
    → count test all ≡ (if test x then 1 else 0) + count test (before ++ after)
middle-count test x before after all e = ground (
  arith,
  e,
  count-append test before (x ∷ after),
  count-append test before after,
  ap (count test) e,
)

connects-Owned :
    (s : Loop) (client : ℕ) (status : ℤ) (accepts : Bool)
    → Owned s
    → s.memory.allocated client ≡ false
    → Owned (record s {
      memory = (on_new_connection client status accepts s.memory).0;
      handles = with_handle client (on_new_connection client status accepts s.memory).1 s.handles;
    })
unfolding on_new_connection
connects-Owned s client (negsuc n) accepts h free = h
connects-Owned s client (pos n) true h free = record {
  owned = λ p. ground (arith, h.owned p, free);
  proper = h.proper;
}
connects-Owned s client (pos n) false h free = record {
  owned = λ p. ground (arith, h.owned p, free);
  proper = h.proper;
}

reads-Owned :
    (s : Loop) (before after : List Handle) (h : Handle) (base len req : ℕ) (nread : ℤ)
    → Owned s
    → s.handles ≡ before ++ h ∷ after
    → s.memory.allocated base ≡ false
    → (alloc_buffer base s.memory).allocated req ≡ false
    → Owned (record s {
      memory = (on_read req base len nread (alloc_buffer base s.memory)).0;
      handles =
          before
          ++ after_read (on_read req base len nread (alloc_buffer base s.memory)).1 h ∷ after;
      writes = with_write (on_read req base len nread (alloc_buffer base s.memory)).1 s.writes;
      unused = left_over base (on_read req base len nread (alloc_buffer base s.memory)).1 s.unused;
    })
unfolding on_read alloc_buffer
reads-Owned s before after h base len req (pos zero) g e free free_req = record {
  owned =
      λ p. ground (arith, g.owned p, free, free_req, ap (count (λ (h : Handle). h.address == p)) e);
  proper = g.proper;
}
reads-Owned s before after h base len req (pos (suc n)) g e free free_req = record {
  owned =
      λ p. ground (arith, g.owned p, free, free_req, ap (count (λ (h : Handle). h.address == p)) e);
  proper = g.proper;
}
reads-Owned s before after h base len req (negsuc n) g e free free_req = record {
  owned = λ p. ground (
    arith,
    g.owned p,
    free,
    free_req,
    middle-count (λ h. h.address == p) h before after s.handles e,
    middle-count (λ h. h.address == p) (record h { closing = true }) before after
        (before ++ record h { closing = true } ∷ after) refl,
  );
  proper = g.proper;
}

wrote-Owned :
    (s : Loop) (before after : List WriteReq) (wreq : WriteReq)
    → Owned s
    → s.writes ≡ before ++ wreq ∷ after
    → Owned (record s { memory = after_write wreq s.memory; writes = before ++ after })
unfolding after_write
wrote-Owned s before after wreq h e =
    let of_req = λ (p : ℕ). middle-count (λ w. w.req == p) wreq before after s.writes e in
    let of_base = λ (p : ℕ). middle-count (λ w. w.base == p) wreq before after s.writes e in
    record {
      owned = λ p. ground (arith, h.owned p, of_req p, of_base p);
      proper = ground (
        arith,
        h.proper,
        h.owned wreq.req,
        h.owned wreq.base,
        of_req wreq.req,
        of_base wreq.req,
        of_req wreq.base,
        of_base wreq.base,
      );
    }

closes-Owned :
    (s : Loop) (before after : List Handle) (h : Handle)
    → Owned s
    → s.handles ≡ before ++ h ∷ after
    → Owned (record s { memory = on_close h.address s.memory; handles = before ++ after })
unfolding on_close
closes-Owned s before after h g e =
    let here = λ (p : ℕ). middle-count (λ u. u.address == p) h before after s.handles e in
    record {
      owned = λ p. ground (arith, g.owned p, here p);
      proper = ground (arith, g.proper, g.owned h.address, here h.address);
    }

pub Step-Owned : {s t : Loop} → Step s t → Owned s → Owned t
Step-Owned {s} (connects client status accepts {m} {o} free r) h =
    let one : on_new_connection client status accepts s.memory ≡ (m, o) = r in
    subst (λ q. Owned (record s { memory = q.0; handles = with_handle client q.1 s.handles })) one
      (connects-Owned s client status accepts h free)
Step-Owned {s} (reads before after h base len req nread {m} {o} e open_now free free_req r) g =
    subst
      (λ q. Owned (record s {
        memory = q.0;
        handles = before ++ after_read q.1 h ∷ after;
        writes = with_write q.1 s.writes;
        unused = left_over base q.1 s.unused;
      }))
      r (reads-Owned s before after h base len req nread g e free free_req)
Step-Owned {s} (wrote before after wreq e) h = wrote-Owned s before after wreq h e
Step-Owned {s} (closes before after h e c) g = closes-Owned s before after h g e

-- In every state that the server of 03-libuv reaches, each allocated block belongs to one handle, to
-- one write as its request or its buffer, or to one read that came to nothing, and nothing is freed
-- twice.
pub Reach-Owned : {s : Loop} → Reach s → Owned s
Reach-Owned started = record { owned = λ p. refl; proper = refl }
Reach-Owned (later r st) = Step-Owned st (Reach-Owned r)

-- When all handles are closed and all writes have ended, what is still allocated are exactly the
-- buffers of the reads that gave no byte, at the end of a stream, on an error or otherwise.
pub Reach-leak :
    {s : Loop}
    → Reach s
    → s.handles ≡ []
    → s.writes ≡ []
    → (p : ℕ) → (s.memory.allocated p ≡ true) ↔ (0 < unused_on s p)
Reach-leak {s} r no_handles no_writes p =
    let owned = (Reach-Owned r).owned p in
    let handles = ap (count (λ (h : Handle). h.address == p)) no_handles in
    let reqs = ap (count (λ (w : WriteReq). w.req == p)) no_writes in
    let bases = ap (count (λ (w : WriteReq). w.base == p)) no_writes in
    ground (arith, owned, handles, reqs, bases)
