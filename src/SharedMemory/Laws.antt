-- ===== src/SharedMemory/Laws.antt =====
-- What creating, opening and destroying a block of 19-ipc/shmem.c leaves on every path.
use so_2021v_li42d.Base.{
  ℕ, ◌≡◌, ◌↔◌, refl, ap, ◌∙◌, sym, true, false, ◌&&◌, not, Option, none, some, List, [], ◌∷◌, ◌==◌,
  update, update_self, arith, Bool-cases, inl, inr, ==_iff,
}
use so_2021v_li42d.SharedMemory.{
  same_name, Memory, Answers, shmem_internal_map, create_block, shmem_create, open_block,
  shmem_open,
}

pub same_name_iff : (xs ys : List ℕ) → (same_name xs ys ≡ true) ↔ (xs ≡ ys)
same_name_iff [] [] = (λ e. refl, λ e. refl)
same_name_iff [] (y ∷ ys) = (λ e. cc, λ e. cc)
same_name_iff (x ∷ xs) [] = (λ e. cc, λ e. cc)
same_name_iff (x ∷ xs) (y ∷ ys) =
    let ih = same_name_iff xs ys in
    (λ e. ground (arith, e, ih.0, ==_iff x y), λ e. ground (arith, e, ih.1, ==_iff x y))

pub same_name_self : (xs : List ℕ) → same_name xs xs ≡ true
same_name_self xs = (same_name_iff xs xs).1 refl

-- What `shmem_create` leaves: on success the name stands for a block of the size that was asked for,
-- mapped at the result; on a failure all names are as they were. No descriptor stays open.
pub record Creates (name : List ℕ) (size : ℕ) (m : Memory) (r : Memory × Option ℕ) : Type 0 where
  pub fds : r.0.open_fds ≡ m.open_fds
  pub others : (n : List ℕ) → same_name name n ≡ false → r.0.names n ≡ m.names n
  pub fails : r.1 ≡ none → r.0.names name ≡ m.names name
  pub succeeds :
      (base : ℕ)
      → r.1 ≡ some base
      → (m.names name ≡ none)
        × ((block : ℕ) × (r.0.names name ≡ some block)
            × (r.0.maps base ≡ some block)
            × (r.0.sizes block ≡ size))

create_block-Creates :
    (a : Answers) (name : List ℕ) (size : ℕ) (b : Option ℕ) (m : Memory)
    → m.names name ≡ b
    → Creates name size m (create_block a name size b m)
unfolding shmem_internal_map
create_block-Creates a name size (some block) m e = record {
  fds = refl;
  others = λ n d. refl;
  fails = λ f. refl;
  succeeds = λ base f. absurd (cc f);
}
create_block-Creates a name size none m e =
    let self = same_name_self name in
    elim (Bool-cases a.opens) [
      | inr o ↦ rw o (record {
        fds = refl;
        others = λ n d. refl;
        fails = λ f. refl;
        succeeds = λ base f. absurd (cc f);
      })
      | inl o ↦ elim (Bool-cases a.truncates) [
        | inr t ↦
            rw (o, t)
              (record {
                fds = omega arith;
                others = λ n d. rw d refl;
                fails = λ f. rw self (sym e);
                succeeds = λ base f. absurd (cc f);
              })
        | inl t ↦ elim (Bool-cases (a.maps_it && not (size == 0))) [
          | inl p ↦
              rw (o, t, p)
                (record {
                  fds = omega arith;
                  others = λ n d. rw d refl;
                  fails = λ f. absurd (cc f);
                  succeeds = λ base f. (
                    e,
                    (
                      a.block,
                      rw self refl,
                      ground (arith, f),
                      update_self (update m.sizes a.block 0) a.block size,
                    ),
                  );
                })
          | inr p ↦
              rw (o, t, p)
                (record {
                  fds = omega arith;
                  others = λ n d. rw d refl;
                  fails = λ f. rw self (sym e);
                  succeeds = λ base f. absurd (cc f);
                })
        ]
      ]
    ]

-- On every path `shmem_create` closes its descriptor and changes no other name; if it fails it leaves
-- its name as it was, and if it succeeds the name was free and stands for the mapped block now.
pub shmem_create-Creates :
    (a : Answers) (name : List ℕ) (size : ℕ) (m : Memory)
    → Creates name size m (shmem_create a name size m)
unfolding shmem_create
shmem_create-Creates a name size m = create_block-Creates a name size (m.names name) m refl

-- What `shmem_open` leaves: no name changes and no descriptor stays open. It gives nothing for a name
-- that is not there and for a block whose size is not set yet; else, if it succeeds, the block of the
-- name is mapped at the result.
pub record Opens (name : List ℕ) (m : Memory) (r : Memory × Option ℕ) : Type 0 where
  pub fds : r.0.open_fds ≡ m.open_fds
  pub names : r.0.names ≡ m.names
  pub missing : m.names name ≡ none → r.1 ≡ none
  pub unset : (block : ℕ) → m.names name ≡ some block → m.sizes block ≡ 0 → r.1 ≡ none
  pub succeeds :
      (block base : ℕ) → m.names name ≡ some block → r.1 ≡ some base → r.0.maps base ≡ some block

open_block-Opens :
    (a : Answers) (name : List ℕ) (b : Option ℕ) (m : Memory)
    → m.names name ≡ b
    → Opens name m (open_block a b m)
unfolding shmem_internal_map
open_block-Opens a name none m e = record {
  fds = refl;
  names = refl;
  missing = λ f. refl;
  unset = λ block f z. refl;
  succeeds = λ block base f g. absurd (cc g);
}
open_block-Opens a name (some block) m e = record {
  fds = ground arith;
  names = ground arith;
  missing = λ f. absurd (cc (e, f));
  unset = λ b f z. let same : b ≡ block = cc (e, f) in ground (arith, same, z, ap m.sizes same);
  succeeds = λ b base f g. let same : b ≡ block = cc (e, f) in ground (arith, same, g);
}

-- `shmem_open` on every path.
pub shmem_open-Opens :
    (a : Answers) (name : List ℕ) (m : Memory) → Opens name m (shmem_open a name m)
unfolding shmem_open
shmem_open-Opens a name m = open_block-Opens a name (m.names name) m refl

-- A process that opens the name of a block that another has created gets the same block.
pub shmem_open-create :
    (a b : Answers) (name : List ℕ) (size : ℕ) (m m1 m2 : Memory) (base base' : ℕ)
    → shmem_create a name size m ≡ (m1, some base)
    → shmem_open b name m1 ≡ (m2, some base')
    → m2.maps base' ≡ m1.maps base
shmem_open-create a b name size m m1 m2 base base' e f =
    let made = shmem_create-Creates a name size m in
    let found = shmem_open-Opens b name m1 in
    let (free, (block, named, mapped, sized)) = made.succeeds base (ap (λ r. r.1) e) in
    let named' : m1.names name ≡ some block = sym (ap (λ r. r.0.names name) e) ∙ named in
    sym (ap (λ r. r.0.maps base') f)
    ∙ found.succeeds block base' named' (ap (λ r. r.1) f)
    ∙ sym mapped
    ∙ ap (λ r. r.0.maps base) e
