-- ===== src/EntryList/Insert.antt =====
-- Insertion into the lists of 15-uthread-synch/uthreads/include/list.h.
use mathlib.Core.List.{append_assoc}
use so_2021v_li42d.Base.{
  ◌↔◌, ℕ, ◌≡◌, refl, true, false, List, [], ◌∷◌, ◌++◌, arith, inl, inr, has, has-append, Distinct,
  snoc-cases,
}
use so_2021v_li42d.EntryList.{
  Links, init_list_head, is_list_empty, insert_list_after, insert_list_last, insert_list_first,
}
use so_2021v_li42d.EntryList.Ring.{
  Linked, IsRing, Agree, Linked-Agree, Linked-append, Around, Distinct-Around, Around-Distinct,
  prev-head, SameOutside, IsRing-prev,
}

-- The part of the list from the reference entry on.
insert_list_after-Linked :
    (m : Links) (r e b : ℕ) (vs : List ℕ)
    → Linked m r vs b
    → has e (r ∷ b ∷ vs) ≡ false
    → has r vs ≡ false
    → has b vs ≡ false
    → Distinct vs
    → Linked (insert_list_after m r e) r (e ∷ vs) b
unfolding insert_list_after
insert_list_after-Linked m r e b [] l fresh hr hb d = ground arith
insert_list_after-Linked m r e b (x ∷ ws) l fresh hr hb d = (
  ground arith,
  ground arith,
  (
    ground arith,
    ground arith,
    Linked-Agree x ws b (record { nexts = λ p i. ground arith; prevs = λ p i. ground arith }) l.2,
  ),
)

-- The part before the reference entry is left alone.
insert_list_after-Agree :
    (m : Links) (h r e : ℕ) (us : List ℕ)
    → has e (r ∷ h ∷ us) ≡ false
    → has r (h ∷ us) ≡ false
    → has (m.next r) (r ∷ us) ≡ false
    → Agree m (insert_list_after m r e) h us r
unfolding insert_list_after
insert_list_after-Agree m h r e us fresh hr hn = record {
  nexts = λ p i. ground arith;
  prevs = λ p i. ground arith;
}

next-not-has :
    (m : Links) (h r : ℕ) (us vs : List ℕ)
    → Linked m r vs h
    → Around h us r vs
    → has (m.next r) (r ∷ us) ≡ false
next-not-has m h r us [] l a = ground (arith, a.head_fresh)
next-not-has m h r us (x ∷ vs) l a = ground (arith, a.apart x, a.after)

-- Behind an entry of the list.
pub insert_list_after-IsRing :
    (m : Links) (h r e : ℕ) (us vs : List ℕ)
    → IsRing m h (us ++ r ∷ vs)
    → has e (h ∷ us ++ r ∷ vs) ≡ false
    → IsRing (insert_list_after m r e) h (us ++ r ∷ e ∷ vs)
insert_list_after-IsRing m h r e us vs ring fresh =
    let a = Distinct-Around h us r vs ring.distinct in
    let l = (Linked-append m h us r vs h).0 ring.linked in
    let f = has-append e (h ∷ us) (r ∷ vs) in
    record {
      linked = (Linked-append (insert_list_after m r e) h us r (e ∷ vs) h).1 (
        Linked-Agree h us r
            (insert_list_after-Agree m h r e us (ground (arith, f))
              (ground (arith, a.before, a.head_fresh)) (next-not-has m h r us vs l.1 a))
            l.0,
        insert_list_after-Linked m r e h vs l.1 (ground (arith, f)) a.after a.head_later a.later,
      );
      distinct = Around-Distinct h us r (e ∷ vs) (record {
        head_fresh = a.head_fresh;
        head_later = ground (arith, a.head_later, f);
        before = a.before;
        after = ground (arith, a.after, f);
        apart = λ p i. ground (arith, a.apart p, f);
        later = (ground (arith, f), a.later);
        earlier = a.earlier;
      });
    }

-- Behind the head.
pub insert_list_after-head :
    (m : Links) (h e : ℕ) (vs : List ℕ)
    → IsRing m h vs
    → has e (h ∷ vs) ≡ false
    → IsRing (insert_list_after m h e) h (e ∷ vs)
insert_list_after-head m h e vs ring fresh = record {
  linked =
      insert_list_after-Linked m h e h vs ring.linked (ground arith) ring.distinct.0 ring.distinct.0
        ring.distinct.1;
  distinct = (ground (arith, ring.distinct.0), (ground arith, ring.distinct.1));
}

insert_list_last-snoc :
    (m : Links) (h e : ℕ) (us : List ℕ) (r : ℕ)
    → IsRing m h (us ++ r ∷ [])
    → has e (h ∷ us ++ r ∷ []) ≡ false
    → IsRing (insert_list_last m h e) h ((us ++ r ∷ []) ++ e ∷ [])
unfolding insert_list_last
insert_list_last-snoc m h e us r ring fresh =
    rw (prev-head m h us r ring, append_assoc) (insert_list_after-IsRing m h r e us [] ring fresh)

-- `insert_list_last` adds the entry behind all the others.
pub insert_list_last-IsRing :
    (m : Links) (h e : ℕ) (xs : List ℕ)
    → IsRing m h xs
    → has e (h ∷ xs) ≡ false
    → IsRing (insert_list_last m h e) h (xs ++ e ∷ [])
unfolding insert_list_last
insert_list_last-IsRing m h e [] ring fresh =
    rw ring.linked.1 (insert_list_after-head m h e [] ring fresh)
insert_list_last-IsRing m h e (x ∷ xs) ring fresh = elim (snoc-cases xs) [
  | inl nil ↦ rw nil (insert_list_last-snoc m h e [] x (rw nil at ring) (rw nil at fresh))
  | inr (us, r, snoc) ↦
      rw snoc (insert_list_last-snoc m h e (x ∷ us) r (rw snoc at ring) (rw snoc at fresh))
]

-- `insert_list_first` adds the entry before all the others.
pub insert_list_first-IsRing :
    (m : Links) (h e : ℕ) (xs : List ℕ)
    → IsRing m h xs
    → has e (h ∷ xs) ≡ false
    → IsRing (insert_list_first m h e) h (e ∷ xs)
unfolding insert_list_first
insert_list_first-IsRing m h e xs ring fresh = insert_list_after-head m h e xs ring fresh

-- `init_list_head` makes an empty list, whatever the fields held.
pub init_list_head-IsRing : (m : Links) (h : ℕ) → IsRing (init_list_head m h) h []
unfolding init_list_head
init_list_head-IsRing m h = record { linked = ground arith; distinct = ground arith }

-- `is_list_empty` tells whether there is an entry.
pub is_list_empty-IsRing :
    (m : Links) (h : ℕ) (xs : List ℕ) → IsRing m h xs → (is_list_empty m h ≡ true) ↔ (xs ≡ [])
unfolding is_list_empty
is_list_empty-IsRing m h [] ring = (λ _. refl, λ _. ground (arith, ring.linked))
is_list_empty-IsRing m h (x ∷ xs) ring = (λ e. ground (arith, ring.linked, ring.distinct), λ e. cc)

pub is_list_empty-nil : (m : Links) (h : ℕ) → IsRing m h [] → is_list_empty m h ≡ true
is_list_empty-nil m h ring = (is_list_empty-IsRing m h [] ring).1 refl

pub is_list_empty-cons :
    (m : Links) (h x : ℕ) (xs : List ℕ) → IsRing m h (x ∷ xs) → is_list_empty m h ≡ false
unfolding is_list_empty
is_list_empty-cons m h x xs ring = ground (arith, ring.linked, ring.distinct)

insert_list_after-SameOutside :
    (m : Links) (r e : ℕ) (ps : List ℕ)
    → has r ps ≡ true
    → has e ps ≡ true
    → has (m.next r) ps ≡ true
    → SameOutside m (insert_list_after m r e) ps
unfolding insert_list_after
insert_list_after-SameOutside m r e ps hr he hn p o = ground arith

-- `insert_list_last` writes no entry but those of the list and the new one.
pub insert_list_last-SameOutside :
    (m : Links) (h e : ℕ) (xs : List ℕ)
    → IsRing m h xs
    → SameOutside m (insert_list_last m h e) (e ∷ h ∷ xs)
unfolding insert_list_last
insert_list_last-SameOutside m h e xs ring =
    let last = IsRing-prev m h xs ring in
    insert_list_after-SameOutside m (m.prev h) e (e ∷ h ∷ xs) (ground arith) (ground arith)
      (ground arith)
