-- ===== src/SharedMemory.antt =====
-- The named blocks of shared memory of 19-ipc/shmem.c. A name is the list of its bytes. The calls of
-- the system may fail at will; that `shm_open` with O_EXCL fails on a name in use, and `mmap` on a
-- length of 0, is what their manuals say.
pub mod Laws
pub mod Programs
use so_2021v_li42d.Base.{
  ℕ, ◌+◌, ◌-◌, Bool, true, false, ◌&&◌, not, Option, none, some, List, [], ◌∷◌, if◌then◌else◌, ◌==◌,
  update,
}

abbrev pub same_name : List ℕ → List ℕ → Bool
same_name [] [] = true
same_name [] (y ∷ ys) = false
same_name (x ∷ xs) [] = false
same_name (x ∷ xs) (y ∷ ys) = x == y && same_name xs ys

abbrev pub rename : (List ℕ → Option ℕ) → List ℕ → Option ℕ → List ℕ → Option ℕ
rename names name v n = if same_name name n then v else names n

-- The block that a name stands for, the size of each block, the block that is mapped at an address, and
-- the number of open descriptors.
pub record Memory : Type 0 where
  pub names : List ℕ → Option ℕ
  pub sizes : ℕ → ℕ
  pub maps : ℕ → Option ℕ
  pub open_fds : ℕ

-- What the system answers: whether a call succeeds, the block of a new name, the address of a mapping.
pub record Answers : Type 0 where
  pub opens : Bool
  pub truncates : Bool
  pub stats : Bool
  pub maps_it : Bool
  pub block : ℕ
  pub address : ℕ

abbrev pub shm_unlink : List ℕ → Memory → Memory
shm_unlink name m = record m { names = rename m.names name none }

abbrev pub close : Memory → Memory
close m = record m { open_fds = m.open_fds - 1 }

abbrev pub munmap : ℕ → Memory → Memory
munmap base m = record m { maps = update m.maps base none }

unfoldable pub shmem_internal_map : Answers → (block size : ℕ) → Memory → Memory × Option ℕ
shmem_internal_map a block size m =
    if a.maps_it && not (size == 0)
    then (record m { maps = update m.maps a.address (some block) }, some a.address)
    else (m, none)

-- The rest of `shmem_create` after the mapping: without one the name is removed again.
abbrev pub created : List ℕ → Memory × Option ℕ → Memory × Option ℕ
created name (m, none) = (close (shm_unlink name m), none)
created name (m, some base) = (close m, some base)

abbrev pub create_block : Answers → List ℕ → (size : ℕ) → Option ℕ → Memory → Memory × Option ℕ
create_block a name size (some block) m = (m, none)
create_block a name size none m =
    let m1 = record m {
      names = rename m.names name (some a.block);
      sizes = update m.sizes a.block 0;
      open_fds = m.open_fds + 1;
    } in
    let m2 = record m1 { sizes = update m1.sizes a.block size } in
    if a.opens
    then (if a.truncates
        then created name (shmem_internal_map a a.block size m2)
        else (shm_unlink name (close m1), none))
    else (m, none)

unfoldable pub shmem_create : Answers → List ℕ → (size : ℕ) → Memory → Memory × Option ℕ
unfolding shmem_internal_map
shmem_create a name size m = create_block a name size (m.names name) m

unfoldable pub shmem_destroy : List ℕ → (base : ℕ) → Memory → Memory
shmem_destroy name base m = shm_unlink name (munmap base m)

abbrev pub open_block : Answers → Option ℕ → Memory → Memory × Option ℕ
open_block a none m = (m, none)
open_block a (some block) m =
    let m1 = record m { open_fds = m.open_fds + 1 } in
    let (m2, base) = shmem_internal_map a block (m1.sizes block) m1 in
    if a.opens then (if a.stats then (close m2, base) else (close m1, none)) else (m, none)

unfoldable pub shmem_open : Answers → List ℕ → Memory → Memory × Option ℕ
unfolding shmem_internal_map
shmem_open a name m = open_block a (m.names name) m

unfoldable pub shmem_close : (base : ℕ) → Memory → Memory
shmem_close base m = munmap base m
