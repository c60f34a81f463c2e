-- ===== src/EntryList/Ring.antt =====
-- What a memory of list entries stands for: a head and the sequence of entries linked to it.
use so_2021v_li42d.Base.{
  ℕ, ◌≡◌, inl, inr, has-append, snoc-cases, Distinct-append, false, ◌↔◌, true, ◌||◌, List, [], ◌∷◌,
  ◌++◌, arith, ◌==◌, has, Distinct,
}
use so_2021v_li42d.EntryList.{Links}

-- From `a` the `next` fields lead through `xs` to `b`, and the `prev` fields lead back.
abbrev pub Linked : Links → ℕ → List ℕ → ℕ → Type 0
Linked m a [] b = (m.next a ≡ b) × (m.prev b ≡ a)
Linked m a (x ∷ xs) b = (m.next a ≡ x) × (m.prev x ≡ a) × Linked m x xs b

-- The list at `head` holds the entries `xs`, in this order.
pub record IsRing (m : Links) (head : ℕ) (xs : List ℕ) : Type 0 where
  pub linked : Linked m head xs head
  pub distinct : Distinct (head ∷ xs)

-- `m'` and `m` agree wherever a segment from `a` through `xs` to `b` looks.
pub record Agree (m m' : Links) (a : ℕ) (xs : List ℕ) (b : ℕ) : Type 0 where
  pub nexts : (p : ℕ) → has p (a ∷ xs) ≡ true → m'.next p ≡ m.next p
  pub prevs : (p : ℕ) → (has p xs || p == b) ≡ true → m'.prev p ≡ m.prev p

pub Linked-Agree :
    {m m' : Links} (a : ℕ) (xs : List ℕ) (b : ℕ)
    → Agree m m' a xs b
    → Linked m a xs b
    → Linked m' a xs b
Linked-Agree a [] b s l = ground (arith, s.nexts a, s.prevs b)
Linked-Agree a (x ∷ xs) b s l = (
  ground (arith, s.nexts a),
  ground (arith, s.prevs x),
  Linked-Agree x xs b
      (record { nexts = λ p i. s.nexts p (ground arith); prevs = λ p i. s.prevs p (ground arith) })
      l.2,
)

pub Linked-append :
    (m : Links) (a : ℕ) (xs : List ℕ) (y : ℕ) (ys : List ℕ) (b : ℕ)
    → Linked m a (xs ++ y ∷ ys) b ↔ (Linked m a xs y × Linked m y ys b)
Linked-append m a [] y ys b = (λ l. ((l.0, l.1), l.2), λ l. (l.0.0, l.0.1, l.1))
Linked-append m a (x ∷ xs) y ys b =
    let ih = Linked-append m x xs y ys b in
    (λ l. let r = ih.0 l.2 in ((l.0, l.1, r.0), r.1), λ l. (l.0.0, l.0.1, ih.1 (l.0.2, l.1)))

-- What distinctness says around an entry `r`.
pub record Around (h : ℕ) (us : List ℕ) (r : ℕ) (vs : List ℕ) : Type 0 where
  pub head_fresh : has h (r ∷ us) ≡ false
  pub head_later : has h vs ≡ false
  pub before : has r us ≡ false
  pub after : has r vs ≡ false
  pub apart : (p : ℕ) → has p us ≡ true → has p vs ≡ false
  pub later : Distinct vs
  pub earlier : Distinct us

pub Distinct-Around :
    (h : ℕ) (us : List ℕ) (r : ℕ) (vs : List ℕ) → Distinct (h ∷ us ++ r ∷ vs) → Around h us r vs
Distinct-Around h us r vs d =
    let parts = (Distinct-append us (r ∷ vs)).0 d.1 in
    record {
      head_fresh = ground (arith, d.0, has-append h us (r ∷ vs));
      head_later = ground (arith, d.0, has-append h us (r ∷ vs));
      before = ground (arith, parts.2 r);
      after = parts.1.0;
      apart = λ p i. ground (arith, parts.2 p i);
      later = parts.1.1;
      earlier = parts.0;
    }

pub Around-Distinct :
    (h : ℕ) (us : List ℕ) (r : ℕ) (vs : List ℕ) → Around h us r vs → Distinct (h ∷ us ++ r ∷ vs)
Around-Distinct h us r vs a = (
  ground (arith, a.head_fresh, a.head_later, has-append h us (r ∷ vs)),
  (Distinct-append us (r ∷ vs)).1
      (a.earlier, (a.after, a.later), λ p i. ground (arith, a.apart p, a.before)),
)

-- The end of a nonempty list is `prev` of its head.
pub prev-head : (m : Links) (h : ℕ) (us : List ℕ) (r : ℕ) → IsRing m h (us ++ r ∷ []) → m.prev h ≡ r
prev-head m h us r ring = ((Linked-append m h us r [] h).0 ring.linked).1.1

-- `m'` is `m` but for the fields of the entries `ps`.
abbrev pub SameOutside : Links → Links → List ℕ → Type 0
SameOutside m m' ps = (p : ℕ) → has p ps ≡ false → (m'.next p ≡ m.next p) × (m'.prev p ≡ m.prev p)

-- A list is not touched by changes to entries that it does not hold.
pub IsRing-SameOutside :
    (m m' : Links) (h : ℕ) (xs ps : List ℕ)
    → IsRing m h xs
    → SameOutside m m' ps
    → ((p : ℕ) → has p (h ∷ xs) ≡ true → has p ps ≡ false)
    → IsRing m' h xs
IsRing-SameOutside m m' h xs ps ring same apart = record {
  linked =
      Linked-Agree h xs h
        (record {
          nexts = λ p i. (same p (apart p i)).0;
          prevs = λ p i. (same p (apart p (ground (arith, i)))).1;
        })
        ring.linked;
  distinct = ring.distinct;
}

-- The entry before the head belongs to the list and points back to the head.
pub IsRing-prev :
    (m : Links) (h : ℕ) (xs : List ℕ)
    → IsRing m h xs
    → (m.next (m.prev h) ≡ h) × (has (m.prev h) (h ∷ xs) ≡ true)
IsRing-prev m h xs ring = elim (snoc-cases xs) [
  | inl e ↦ let r = rw e at ring in ground (arith, r.linked.0, r.linked.1, e)
  | inr (us, r, e) ↦
      let at = prev-head m h us r (rw e at ring) in
      let l = (Linked-append m h us r [] h).0 (rw e at (ring.linked)) in
      ground (arith, at, e, has-append r us (r ∷ []), l.1.0)
]

-- The first entry, or the head of an empty list, points back to the head.
pub IsRing-next : (m : Links) (h : ℕ) (xs : List ℕ) → IsRing m h xs → m.prev (m.next h) ≡ h
IsRing-next m h [] ring = rw ring.linked.0 ring.linked.1
IsRing-next m h (x ∷ xs) ring = rw ring.linked.0 ring.linked.1
