-- ===== src/MemChannel/Lifecycle.antt =====
-- Creating, opening, closing and destroying a channel of 19-ipc/memchannel.c over the named blocks of
-- shmem.c. `Ring` and `Traffic` are about what goes through it.
use mathlib.Core.Path.{subst}
use so_2021v_li42d.Base.{
  ℕ, zero, suc, ◌-◌, ◌+◌, ◌*◌, ◌%◌, ◌^◌, ◌≤◌, ◌<◌, ◌≡◌, ◌≢◌, refl, ap, ◌∙◌, sym, false, Option,
  none, some, List, [], ◌∷◌, update, update_self, length, arith, Bool-cases, inl, inr,
}
use so_2021v_li42d.SharedMemory.{
  Memory, Answers, same_name, shmem_create, shmem_open, shmem_close, shmem_destroy,
}
use so_2021v_li42d.SharedMemory.Laws.{same_name_iff, shmem_create-Creates}

-- The named memory, and the field `name` of the channel in each block.
pub record Channels : Type 0 where
  pub memory : Memory
  pub name : ℕ → List ℕ

abbrev pub take : ℕ → List ℕ → List ℕ
take zero xs = []
take (suc n) [] = []
take (suc n) (x ∷ xs) = x ∷ take n xs

abbrev pub memch_max_name_len : ℕ
memch_max_name_len = 128

-- `strncpy`, and the NUL in the last byte of the field.
abbrev pub stored : List ℕ → List ℕ
stored name = take (memch_max_name_len - 1) name

abbrev pub channel_at : List ℕ → Channels → Memory × Option ℕ → Channels × Option ℕ
channel_at name s (m, none) = (record s { memory = m }, none)
channel_at name s (m, some mc) = elim (m.maps mc) [
  | none ↦ (record s { memory = m }, none)
  | some block ↦ (record { memory = m; name = update s.name block (stored name) }, some mc)
]

-- The part of `mc_create` that is about the block; `mc` is its address.
unfoldable pub mc_create_block :
    Answers → (items_offset elem_size capacity : ℕ) (name : List ℕ) → Channels → Channels × Option ℕ
mc_create_block a items_offset elem_size capacity name s =
    channel_at name s
      (shmem_create a name ((items_offset + elem_size * capacity) % 2 ^ 64) s.memory)

unfoldable pub mc_open : Answers → (name : List ℕ) → Channels → Channels × Option ℕ
mc_open a name s = let (m, mc) = shmem_open a name s.memory in (record s { memory = m }, mc)

unfoldable pub mc_close : (mc : ℕ) → Channels → Channels
mc_close mc s = record s { memory = shmem_close mc s.memory }

abbrev pub name_at : Option ℕ → Channels → List ℕ
name_at none s = []
name_at (some block) s = s.name block

unfoldable pub mc_destroy : (mc : ℕ) → Channels → Channels
mc_destroy mc s = record s { memory = shmem_destroy (name_at (s.memory.maps mc) s) mc s.memory }

take_all : (n : ℕ) (xs : List ℕ) → length xs ≤ n → take n xs ≡ xs
take_all zero [] l = refl
take_all zero (x ∷ xs) l = absurd (omega arith)
take_all (suc n) [] l = refl
take_all (suc n) (x ∷ xs) l = ap (λ t. x ∷ t) (take_all n xs (omega arith))

take-length : (n : ℕ) (xs : List ℕ) → length (take n xs) ≤ n
take-length zero xs = omega arith
take-length (suc n) [] = omega arith
take-length (suc n) (x ∷ xs) = omega (arith, take-length n xs)

-- What `mc_create_block` leaves if it succeeds.
record Made (name : List ℕ) (s t : Channels) (mc : ℕ) : Type 0 where
  free : s.memory.names name ≡ none
  block : ℕ
  named : t.memory.names name ≡ some block
  mapped : t.memory.maps mc ≡ some block
  holds : t.name block ≡ stored name
  others : (n : List ℕ) → same_name name n ≡ false → t.memory.names n ≡ s.memory.names n

channel_at-Made :
    (a : Answers) (name : List ℕ) (size : ℕ) (s t : Channels) (mc : ℕ) (m : Memory) (r : Option ℕ)
    → shmem_create a name size s.memory ≡ (m, r)
    → channel_at name s (m, r) ≡ (t, some mc)
    → Made name s t mc
channel_at-Made a name size s t mc m none made e = absurd (cc e)
channel_at-Made a name size s t mc m (some base) made e =
    let law = shmem_create-Creates a name size s.memory in
    let (free, (block, named, mapped, sized)) = law.succeeds base (ap (λ r. r.1) made) in
    let m_maps : m.maps base ≡ some block = sym (ap (λ r. r.0.maps base) made) ∙ mapped in
    let u : Channels = record { memory = m; name = update s.name block (stored name) } in
    let same : channel_at name s (m, some base) ≡ (u, some base) = rw m_maps refl in
    let is_t : u ≡ t = ap (λ r. r.0) (sym same ∙ e) in
    let is_mc : base ≡ mc = cc (ap (λ r. r.1) (sym same ∙ e)) in
    subst (λ x. Made name s x mc) is_t
      (subst (λ b. Made name s u b) is_mc
        (record {
          free = free;
          block = block;
          named = sym (ap (λ r. r.0.names name) made) ∙ named;
          mapped = m_maps;
          holds = update_self s.name block (stored name);
          others = λ n d. sym (ap (λ r. r.0.names n) made) ∙ law.others n d;
        }))

mc_create_block-Made :
    (a : Answers) (items_offset elem_size capacity : ℕ) (name : List ℕ) (s t : Channels) (mc : ℕ)
    → mc_create_block a items_offset elem_size capacity name s ≡ (t, some mc)
    → Made name s t mc
unfolding mc_create_block
mc_create_block-Made a items_offset elem_size capacity name s t mc e =
    let size = (items_offset + elem_size * capacity) % 2 ^ 64 in
    channel_at-Made a name size s t mc (shmem_create a name size s.memory).0
      (shmem_create a name size s.memory).1 refl e

module _ (a : Answers) (items_offset elem_size capacity : ℕ) (name : List ℕ) (s t : Channels)
    (mc : ℕ) (e : mc_create_block a items_offset elem_size capacity name s ≡ (t, some mc)) where
  -- The name that `mc_destroy` reads in the block.
  at_stored : name_at (t.memory.maps mc) t ≡ stored name
  at_stored =
      let made = mc_create_block-Made a items_offset elem_size capacity name s t mc e in
      rw made.mapped made.holds

  -- Creating a channel and destroying it leaves all names as they were, if the name is shorter than the
  -- field that the channel keeps it in.
  pub mc_destroy-create :
      length name < memch_max_name_len
      → (n : List ℕ) → (mc_destroy mc t).memory.names n ≡ s.memory.names n
  unfolding mc_destroy shmem_destroy
  mc_destroy-create short n =
      let made = mc_create_block-Made a items_offset elem_size capacity name s t mc e in
      let whole : stored name ≡ name = take_all 127 name (omega (arith, short)) in
      rw (at_stored, whole)
        (elim (Bool-cases (same_name name n)) [
          | inl same ↦ rw same (sym made.free ∙ ap s.memory.names ((same_name_iff name n).0 same))
          | inr other ↦ rw other (made.others n other)
        ])

  -- A longer name stays behind: what `mc_destroy` removes is its beginning.
  pub mc_destroy-long :
      memch_max_name_len ≤ length name → (mc_destroy mc t).memory.names name ≢ none
  unfolding mc_destroy shmem_destroy
  mc_destroy-long long gone =
      let made = mc_create_block-Made a items_offset elem_size capacity name s t mc e in
      let differ : same_name (stored name) name ≡ false =
        elim (Bool-cases (same_name (stored name) name)) [
          | inr d ↦ d
          | inl d ↦ absurd (
              omega (
                arith,
                long,
                take-length 127 name,
                ap length ((same_name_iff (stored name) name).0 d),
              ))
        ] in
      let kept : (mc_destroy mc t).memory.names name ≡ t.memory.names name =
        rw (at_stored, differ) refl in
      cc (sym kept ∙ gone, made.named)
