-- ===== src/Adder/Partition.antt =====
-- The regions of `par_adder` in 18-thread-pool/adder.c cover the array, each element once.
use so_2021v_li42d.Base.{
  ℕ, zero, suc, ◌+◌, ◌-◌, ◌*◌, ◌%◌, ◌^◌, ◌≤◌, ◌<◌, ◌≡◌, ◌⊎◌, inl, inr, ap, ◌∙◌, arith, ltb,
  if◌then◌else◌,
}
use so_2021v_li42d.Adder.{add_up}

-- The sum of `n` elements from index `i` on, without wrap-around.
abbrev pub sum : (vals : ℕ → ℕ) (i n : ℕ) → ℕ
sum vals i zero = 0
sum vals i (suc n) = vals i + sum vals (i + 1) n

sum_more : (vals : ℕ → ℕ) (i n m : ℕ) → sum vals i (n + m) ≡ sum vals i n + sum vals (i + n) m
sum_more vals i zero m =
    let here : i + 0 ≡ i = omega arith in
    let count : 0 + m ≡ m = omega arith in rw (here, count) (omega arith)
sum_more vals i (suc n) m =
    let count : suc n + m ≡ suc (n + m) = omega arith in
    let there : i + suc n ≡ i + 1 + n = omega arith in
    rw (count, there) (omega (arith, sum_more vals (i + 1) n m))

add_up-sum :
    (vals : ℕ → ℕ) (i n total : ℕ)
    → add_up vals i n total % 2 ^ 64 ≡ (total + sum vals i n) % 2 ^ 64
unfolding add_up
add_up-sum vals i zero total = omega arith
add_up-sum vals i (suc n) total =
    add_up-sum vals (i + 1) n ((total + vals i) % 2 ^ 64) ∙ omega arith

add_up-lt : (vals : ℕ → ℕ) (i n total : ℕ) → total < 2 ^ 64 → add_up vals i n total < 2 ^ 64
unfolding add_up
add_up-lt vals i zero total l = l
add_up-lt vals i (suc n) total l =
    add_up-lt vals (i + 1) n ((total + vals i) % 2 ^ 64) (omega arith)

pub add_up_zero : (vals : ℕ → ℕ) (i n : ℕ) → add_up vals i n 0 ≡ sum vals i n % 2 ^ 64
add_up_zero vals i n = omega (arith, add_up-sum vals i n 0, add_up-lt vals i n 0 (omega arith))

-- The end of a region: `x`, cut off at the end of the array.
abbrev pub cut : ℕ → ℕ → ℕ
cut n x = if ltb n x then n else x

-- One region more.
sum_region :
    (vals : ℕ → ℕ) (n b r : ℕ)
    → sum vals 0 (cut n (b + r)) ≡ sum vals 0 (cut n b) + sum vals b (cut n (b + r) - b)
sum_region vals n b r = elim (split n b) [
  | inl past ↦
      let one : cut n (b + r) ≡ n = ground arith in
      let two : cut n b ≡ n = ground arith in
      let left : n - b ≡ 0 = omega arith in
      ap (sum vals 0) one
      ∙ omega (arith, ap (sum vals 0) two, ap (λ x. sum vals b (x - b)) one, ap (sum vals b) left)
  | inr more ↦
      let one : cut n (b + r) ≡ b + (cut n (b + r) - b) = ground arith in
      let two : cut n b ≡ b = ground arith in
      let zero_b : 0 + b ≡ b = omega arith in
      ap (sum vals 0) one
      ∙ omega (
        arith,
        ap (sum vals 0) two,
        sum_more vals 0 b (cut n (b + r) - b),
        ap (λ x. sum vals x (cut n (b + r) - b)) zero_b,
      )
]
  where
    split : (x y : ℕ) → (x < y) ⊎ (y ≤ x)
    split x y = ground arith

-- What the four regions sum up to, taken with any region size that covers the array.
pub four_regions :
    (vals : ℕ → ℕ) (n r : ℕ)
    → n ≤ 4 * r
    → sum vals 0 n
      ≡ sum vals (0 * r) (cut n (0 * r + r) - 0 * r)
        + sum vals (1 * r) (cut n (1 * r + r) - 1 * r)
        + sum vals (2 * r) (cut n (2 * r + r) - 2 * r)
        + sum vals (3 * r) (cut n (3 * r + r) - 3 * r)
four_regions vals n r cover =
    let none_yet : cut n (0 * r) ≡ 0 = ground arith in
    let all : cut n (3 * r + r) ≡ n = ground arith in
    let step1 : 0 * r + r ≡ 1 * r = omega arith in
    let step2 : 1 * r + r ≡ 2 * r = omega arith in
    let step3 : 2 * r + r ≡ 3 * r = omega arith in
    omega (
      arith,
      sum_region vals n (0 * r) r,
      sum_region vals n (1 * r) r,
      sum_region vals n (2 * r) r,
      sum_region vals n (3 * r) r,
      ap (sum vals 0) none_yet,
      ap (sum vals 0) all,
      ap (λ x. sum vals 0 (cut n x)) step1,
      ap (λ x. sum vals 0 (cut n x)) step2,
      ap (λ x. sum vals 0 (cut n x)) step3,
    )
