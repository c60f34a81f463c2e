-- ===== src/SharedMemory/Programs/Handing.antt =====
-- The string that ex04-shm-wr.c of 10-mmap leaves under its name, and what the programs clean up.
use so_2021v_li42d.Base.{
  ℕ, ◌≡◌, ◌≢◌, refl, ap, sym, ◌∙◌, true, Option, none, some, List, update, update_self, Bool-cases,
  inl, inr, arith,
}
use so_2021v_li42d.EchoServer.{fill}
use so_2021v_li42d.EchoServer.Buffer.{strlen-fill_room}
use so_2021v_li42d.SharedMemory.{same_name, rename, Answers, shmem_internal_map}
use so_2021v_li42d.SharedMemory.Laws.{same_name_iff}
use so_2021v_li42d.SharedMemory.Programs.{
  World, shmem_name, shmem_size, greeting, wr_block, shm_wr, shown, shm_rd,
}

shown-greeting : (bytes : ℕ → ℕ) → shown (fill bytes 0 greeting) shmem_size ≡ greeting
unfolding shown
shown-greeting bytes = strlen-fill_room bytes 0 greeting shmem_size (omega arith)

-- What the writer leaves: after a failure all names and bytes are as before but for those of a block that
-- no name stands for; else the block of the name has its size and the string. No descriptor stays open.
pub record Leaves (w : World) (r : World × ℕ) : Type 0 where
  pub fds : r.0.memory.open_fds ≡ w.memory.open_fds
  pub fails : r.1 ≢ 0 → (n : List ℕ) → r.0.memory.names n ≡ w.memory.names n
  pub succeeds :
      r.1 ≡ 0
      → (block : ℕ) × (r.0.memory.names shmem_name ≡ some block)
        × (r.0.memory.sizes block ≡ shmem_size)
        × (shown (r.0.bytes block) shmem_size ≡ greeting)

unnamed :
    (names : List ℕ → Option ℕ) (block : ℕ) (n : List ℕ)
    → names shmem_name ≡ none
    → rename (rename names shmem_name (some block)) shmem_name none n ≡ names n
unnamed names block n free = elim (Bool-cases (same_name shmem_name n)) [
  | inl e ↦ rw e (sym free ∙ ap names ((same_name_iff shmem_name n).0 e))
  | inr e ↦ rw e refl
]

wr_block-Leaves :
    (a : Answers) (w : World) (b : Option ℕ)
    → w.memory.names shmem_name ≡ b
    → Leaves w (wr_block a b w)
unfolding shmem_internal_map
wr_block-Leaves a w (some block) e = record {
  fds = refl;
  fails = λ f n. refl;
  succeeds = λ f. absurd (omega arith);
}
wr_block-Leaves a w none e = elim (Bool-cases a.opens) [
  | inr o ↦ rw o (record { fds = refl; fails = λ f n. refl; succeeds = λ f. absurd (omega arith) })
  | inl o ↦ elim (Bool-cases a.truncates) [
    | inr t ↦
        rw (o, t)
          (record {
            fds = omega arith;
            fails = λ f n. unnamed w.memory.names a.block n e;
            succeeds = λ f. absurd (omega arith);
          })
    | inl t ↦ elim (Bool-cases a.maps_it) [
      | inl p ↦
          rw (o, t, p)
            (record {
              fds = omega arith;
              fails = λ f n. absurd (f refl);
              succeeds = λ f. (
                a.block,
                refl,
                update_self (update w.memory.sizes a.block 0) a.block shmem_size,
                rw
                    (update_self (update w.bytes a.block (λ i. 0)) a.block
                      (fill (update w.bytes a.block (λ i. 0) a.block) 0 greeting))
                    (shown-greeting (update w.bytes a.block (λ i. 0) a.block)),
              );
            })
      | inr p ↦
          rw (o, t, p)
            (record {
              fds = omega arith;
              fails = λ f n. unnamed w.memory.names a.block n e;
              succeeds = λ f. absurd (omega arith);
            })
    ]
  ]
]

-- On every path ex04-shm-wr.c leaves no descriptor open; if it does not return 0 it leaves all names as
-- they were, and if it does its name stands for a block of 4096 bytes with the string in it.
pub shm_wr-Leaves : (a : Answers) (w : World) → Leaves w (shm_wr a w)
unfolding shm_wr
shm_wr-Leaves a w = wr_block-Leaves a w (w.memory.names shmem_name) refl

shm_wr_used :
    (a : Answers) (w : World) (block : ℕ)
    → w.memory.names shmem_name ≡ some block
    → (shm_wr a w).1 ≡ 1
unfolding shm_wr
shm_wr_used a w block e = ap (λ b. (wr_block a b w).1) e

-- After ex04-shm-wr.c has returned 0, ex04-shm-rd.c prints the string that it has written and returns 0,
-- if its own calls succeed, and any further run of ex04-shm-wr.c returns 1, since no program removes the
-- name.
pub shm_rd-wr :
    (a b again : Answers) (w : World)
    → (shm_wr a w).1 ≡ 0
    → b.opens ≡ true
    → b.stats ≡ true
    → b.maps_it ≡ true
    → ((shm_rd b (shm_wr a w).0).1 ≡ some greeting)
      × ((shm_rd b (shm_wr a w).0).2 ≡ 0)
      × ((shm_wr again (shm_wr a w).0).1 ≡ 1)
unfolding shm_rd shmem_internal_map
shm_rd-wr a b again w done opens stats maps =
    let (block, named, size, text) = (shm_wr-Leaves a w).succeeds done in
    (
      rw (named, opens, stats, maps, size) (ap some text),
      rw (named, opens, stats, maps, size) refl,
      shm_wr_used again (shm_wr a w).0 block named,
    )
