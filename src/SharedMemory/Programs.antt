-- ===== src/SharedMemory/Programs.antt =====
-- The programs of 10-mmap that share a string under a name: ex04-shm-wr.c and ex04-shm-rd.c. A block has
-- its bytes, which are zero when its size is set.
pub mod Handing
use so_2021v_li42d.Base.{
  ℕ, ◌+◌, ◌-◌, Bool, true, false, ◌&&◌, not, Option, none, some, List, [], ◌∷◌, if◌then◌else◌, ◌==◌,
  update,
}
use so_2021v_li42d.EchoServer.{fill, bytes_of, strlen}
use so_2021v_li42d.SharedMemory.{
  Memory, Answers, rename, shm_unlink, close, munmap, shmem_internal_map,
}

pub record World : Type 0 where
  pub memory : Memory
  pub bytes : ℕ → ℕ → ℕ

-- `/isel.so.shm.example01`
abbrev pub shmem_name : List ℕ
shmem_name =
    47 ∷ 105 ∷ 115 ∷ 101 ∷ 108 ∷ 46 ∷ 115 ∷ 111 ∷ 46 ∷ 115 ∷ 104 ∷ 109 ∷ 46 ∷ 101 ∷ 120 ∷ 97 ∷ 109
    ∷ 112 ∷ 108 ∷ 101 ∷ 48 ∷ 49 ∷ []

abbrev pub shmem_size : ℕ
shmem_size = 4096

-- `ISEL - LEIC - SO`
abbrev pub greeting : List ℕ
greeting = 73 ∷ 83 ∷ 69 ∷ 76 ∷ 32 ∷ 45 ∷ 32 ∷ 76 ∷ 69 ∷ 73 ∷ 67 ∷ 32 ∷ 45 ∷ 32 ∷ 83 ∷ 79 ∷ []

-- `shm_open` of a name that is free, and `ftruncate`.
abbrev pub fresh_block : Answers → Memory → Memory
fresh_block a m = record m {
  names = rename m.names shmem_name (some a.block);
  sizes = update m.sizes a.block 0;
  open_fds = m.open_fds + 1;
}

abbrev pub set_size : Answers → Memory → Memory
set_size a m = record m { sizes = update m.sizes a.block shmem_size }

-- From the result of `mmap` on.
abbrev pub wr_mapped : (block : ℕ) (bytes : ℕ → ℕ → ℕ) → Memory × Option ℕ → World × ℕ
wr_mapped block bytes (m, none) =
    (record { memory = shm_unlink shmem_name (close m); bytes = bytes }, 3)
wr_mapped block bytes (m, some ptr) = (
  record {
    memory = munmap ptr (close m);
    bytes = update bytes block (fill (bytes block) 0 greeting);
  },
  0,
)

abbrev pub wr_block : Answers → Option ℕ → World → World × ℕ
wr_block a (some block) w = (w, 1)
wr_block a none w =
    let m = fresh_block a w.memory in
    let zeroed = update w.bytes a.block (λ i. 0) in
    if a.opens
    then (if a.truncates
        then wr_mapped a.block zeroed (shmem_internal_map a a.block shmem_size (set_size a m))
        else (record w { memory = shm_unlink shmem_name (close m) }, 2))
    else (w, 1)

-- `main` of ex04-shm-wr.c, with what it returns.
unfoldable pub shm_wr : Answers → World → World × ℕ
unfolding shmem_internal_map
shm_wr a w = wr_block a (w.memory.names shmem_name) w

-- The string at the start of a block, as `puts` shows it.
unfoldable pub shown : (bytes : ℕ → ℕ) (size : ℕ) → List ℕ
shown bytes size = bytes_of bytes 0 (strlen bytes 0 size)

abbrev pub rd_mapped : World → (block size : ℕ) → Memory × Option ℕ → World × Option (List ℕ) × ℕ
rd_mapped w block size (m, none) = (record w { memory = close m }, none, 2)
rd_mapped w block size (m, some ptr) =
    (record w { memory = munmap ptr (close m) }, some (shown (w.bytes block) size), 0)

abbrev pub rd_block : Answers → Option ℕ → World → World × Option (List ℕ) × ℕ
rd_block a none w = (w, none, 1)
rd_block a (some block) w =
    let m = record w.memory { open_fds = w.memory.open_fds + 1 } in
    let size = m.sizes block in
    if a.opens
    then (if a.stats
        then rd_mapped w block size (shmem_internal_map a block size m)
        else (record w { memory = close m }, none, 2))
    else (w, none, 1)

-- `main` of ex04-shm-rd.c, with the string that it prints and what it returns.
unfoldable pub shm_rd : Answers → World → World × Option (List ℕ) × ℕ
unfolding shmem_internal_map
shm_rd a w = rd_block a (w.memory.names shmem_name) w
