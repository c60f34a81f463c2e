-- ===== src/MemChannel/Ring.antt =====
-- The slots of the ring of 19-ipc/memchannel.c: which sequence numbers share a slot, and what storing
-- an item leaves of the others.
use Prim.Native.Nat.{◌∣◌}
use native.Mathlib.Nat.{mul-le-mul_right, mod-mod_of_dvd}
use so_2021v_li42d.Base.{
  ℕ, ◌+◌, ◌-◌, ◌*◌, ◌/◌, ◌%◌, ◌^◌, ◌≤◌, ◌<◌, ◌≡◌, ◌≢◌, ◌⊎◌, inl, inr, arith, ap,
}
use so_2021v_li42d.MemChannel.{copy_in}

quotient-lt : (a b c : ℕ) → a < b → a % c ≡ b % c → a / c < b / c
quotient-lt a b c l e = elim (split (a / c) (b / c)) [
  | inl h ↦ h
  | inr h ↦ absurd (omega (arith, mul-le-mul_right c h))
]
  where
    split : (x y : ℕ) → (x < y) ⊎ (y ≤ x)
    split x y = ground arith

-- Two numbers less than `c` apart stand in different slots.
pub slots_differ : (a b c : ℕ) → a < b → b < a + c → a % c ≢ b % c
slots_differ a b c l r e = omega (arith, mul-le-mul_right c (quotient-lt a b c l e))

-- The index that wraps around at 64 bits stands for the same slot.
pub slot_of_index : (n c : ℕ) → c ∣ 2 ^ 64 → n % 2 ^ 64 % c ≡ n % c
slot_of_index n c d = mod-mod_of_dvd c n d

pub index_next : (n : ℕ) → (n % 2 ^ 64 + 1) % 2 ^ 64 ≡ (n + 1) % 2 ^ 64
index_next n = omega arith

pub copy_in_self :
    (slot e k : ℕ) (item bytes : ℕ → ℕ)
    → k < e
    → copy_in (slot * e) e item bytes (slot * e + k) ≡ item k
unfolding copy_in
copy_in_self slot e k item bytes l =
    let same : slot * e + k - slot * e ≡ k = omega arith in
    let read = ap item same in ground (arith, read)

-- The bytes of another slot stay.
pub copy_in_other :
    (i j e k : ℕ) (item bytes : ℕ → ℕ)
    → i ≢ j
    → k < e
    → copy_in (j * e) e item bytes (i * e + k) ≡ bytes (i * e + k)
unfolding copy_in
copy_in_other i j e k item bytes ne l = elim (split i j) [
  | inl h ↦ ground (arith, mul-le-mul_right e h)
  | inr h ↦ elim h [ inl g ↦ ground (arith, mul-le-mul_right e g) | inr g ↦ absurd (ne g) ]
]
  where
    split : (x y : ℕ) → (x + 1 ≤ y) ⊎ ((y + 1 ≤ x) ⊎ (x ≡ y))
    split x y = ground arith
