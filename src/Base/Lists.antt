-- ===== src/Base/Lists.antt =====
-- Lists over the native numbers: length, membership of an address, distinct addresses, last element.
use Prim.Native.Nat.{ℕ, zero, suc, ◌+◌}
use mathlib.Core.Option.{Option, none, some}
use mathlib.Core.Path.{◌≡◌, refl}
use mathlib.Core.Logic.{◌↔◌, ◌⊎◌, inl, inr}
use mathlib.Core.Bool.{Bool, true, false, ◌||◌}
use mathlib.Core.List.{List, [], ◌∷◌, ◌++◌, map}
use native.Mathlib.Omega.{arith}
use so_2021v_li42d.Base.Tests.{◌==◌, if◌then◌else◌}

module _ {ℓ} {A : Type ℓ} where
  abbrev pub length : List A → ℕ
  length [] = 0
  length (x ∷ xs) = suc (length xs)

  pub length-append : (xs ys : List A) → length (xs ++ ys) ≡ length xs + length ys
  length-append [] ys = omega arith
  length-append (x ∷ xs) ys = omega (arith, length-append xs ys)

  abbrev pub get_elem? : List A → ℕ → Option A
  get_elem? [] i = none
  get_elem? (x ∷ xs) zero = some x
  get_elem? (x ∷ xs) (suc i) = get_elem? xs i

  -- A write out of bounds changes nothing.
  abbrev pub set : List A → ℕ → A → List A
  set [] i v = []
  set (x ∷ xs) zero v = v ∷ xs
  set (x ∷ xs) (suc i) v = x ∷ set xs i v

  -- How many elements a test holds for.
  abbrev pub count : (A → Bool) → List A → ℕ
  count test [] = 0
  count test (x ∷ xs) = if test x then suc (count test xs) else count test xs

  -- Writing one element changes the number by what it counted for and counts for now.
  pub count-set :
      (test : A → Bool) (xs : List A) (i : ℕ) (x v : A)
      → get_elem? xs i ≡ some x
      → count test (set xs i v) + (if test x then 1 else 0)
        ≡ count test xs + (if test v then 1 else 0)
  count-set test [] i x v e = cc
  count-set test (y ∷ xs) zero x v e = let same : y ≡ x = cc in rw same (ground arith)
  count-set test (y ∷ xs) (suc i) x v e = ground (arith, count-set test xs i x v e)

  pub count-append :
      (test : A → Bool) (xs ys : List A) → count test (xs ++ ys) ≡ count test xs + count test ys
  count-append test [] ys = omega arith
  count-append test (x ∷ xs) ys = ground (arith, count-append test xs ys)

  -- A list is empty or ends in an element.
  pub snoc-cases : (xs : List A) → (xs ≡ []) ⊎ ((ys : List A) × (y : A) × (xs ≡ ys ++ y ∷ []))
  snoc-cases [] = inl refl
  snoc-cases (x ∷ xs) =
      inr (elim (snoc-cases xs) [ inl e ↦ ([], x, cc) | inr (ys, y, e) ↦ (x ∷ ys, y, cc) ])

abbrev pub has : ℕ → List ℕ → Bool
has a [] = false
has a (x ∷ xs) = (a == x) || has a xs

pub has-append : (a : ℕ) (xs ys : List ℕ) → has a (xs ++ ys) ≡ (has a xs || has a ys)
has-append a [] ys = refl
has-append a (x ∷ xs) ys = ground (arith, has-append a xs ys)

-- No address occurs twice.
abbrev pub Distinct : List ℕ → Type 0
Distinct [] = Unit
Distinct (x ∷ xs) = (has x xs ≡ false) × Distinct xs

pub Distinct-append :
    (xs ys : List ℕ)
    → Distinct (xs ++ ys)
      ↔ (Distinct xs × Distinct ys × ((p : ℕ) → has p xs ≡ true → has p ys ≡ false))
Distinct-append [] ys = (λ d. (tt, d, λ p i. cc), λ d. d.1)
Distinct-append (x ∷ xs) ys =
    let ih = Distinct-append xs ys in
    (
      λ d.
          let r = ih.0 d.1 in
          (
            (ground (arith, d.0, has-append x xs ys), r.0),
            r.1,
            λ p i. ground (arith, d.0, has-append x xs ys, r.2 p),
          ),
      λ d. (
        ground (arith, d.0.0, has-append x xs ys, d.2 x),
        ih.1 (d.0.1, d.1, λ p i. ground (arith, d.2 p)),
      ),
    )

pub has-map : (f : ℕ → ℕ) (x : ℕ) (xs : List ℕ) → has x xs ≡ true → has (f x) (map f xs) ≡ true
has-map f x [] i = i
has-map f x (y ∷ xs) i = ground (arith, has-map f x xs)

pub has-map-snoc :
    (f : ℕ → ℕ) (p t : ℕ) (ts : List ℕ)
    → has p (map f (ts ++ t ∷ [])) ≡ (has p (map f ts) || p == f t)
has-map-snoc f p t [] = ground arith
has-map-snoc f p t (x ∷ ts) = ground (arith, has-map-snoc f p t ts)

pub Distinct-map-snoc :
    (f : ℕ → ℕ) (t : ℕ) (ts : List ℕ)
    → Distinct (map f ts)
    → has (f t) (map f ts) ≡ false
    → Distinct (map f (ts ++ t ∷ []))
Distinct-map-snoc f t [] d o = (refl, tt)
Distinct-map-snoc f t (x ∷ ts) d o = (
  ground (arith, d.0, has-map-snoc f (f x) t ts),
  Distinct-map-snoc f t ts d.1 (ground (arith, o)),
)

-- A value that no element has is not among the images.
pub not-has-map :
    (f : ℕ → ℕ) (p : ℕ) (ts : List ℕ)
    → ((x : ℕ) → has x ts ≡ true → (p == f x) ≡ false)
    → has p (map f ts) ≡ false
not-has-map f p [] o = refl
not-has-map f p (x ∷ ts) o = ground (arith, o x, not-has-map f p ts (λ y i. o y (ground arith)))

pub map-agree :
    (f g : ℕ → ℕ) (ts : List ℕ) → ((x : ℕ) → has x ts ≡ true → g x ≡ f x) → map g ts ≡ map f ts
map-agree f g [] same = refl
map-agree f g (x ∷ ts) same =
    ground (arith, same x, map-agree f g ts (λ y i. same y (ground arith)))
