-- ===== src/EntryList/Remove.antt =====
-- Removal from the lists of 15-uthread-synch/uthreads/include/list.h.
use mathlib.Core.Path.{subst}
use mathlib.Core.List.{append_assoc, append-nil}
use so_2021v_li42d.Base.{
  ℕ, ◌↔◌, ◌≡◌, refl, true, false, List, [], ◌∷◌, ◌++◌, arith, inl, inr, has, Distinct, snoc-cases,
  ◌==◌, ap, ◌∙◌,
}
use so_2021v_li42d.EntryList.{Links, remove_list_entry, remove_list_first, remove_list_last}
use so_2021v_li42d.EntryList.Ring.{
  Linked, IsRing, Agree, Linked-Agree, Linked-append, Around, Distinct-Around, Around-Distinct,
  SameOutside, prev-head,
}

-- The part of the list from the entry before the removed one on.
remove_list_entry-Linked :
    (m : Links) (r e b : ℕ) (vs : List ℕ)
    → Linked m r (e ∷ vs) b
    → has r vs ≡ false
    → has b vs ≡ false
    → Distinct vs
    → Linked (remove_list_entry m e).0 r vs b
unfolding remove_list_entry
remove_list_entry-Linked m r e b [] l hr hb d = ground arith
remove_list_entry-Linked m r e b (x ∷ ws) l hr hb d = (
  ground arith,
  ground arith,
  Linked-Agree x ws b (record { nexts = λ p i. ground arith; prevs = λ p i. ground arith }) l.2.2,
)

pub remove_list_entry-first :
    (m : Links) (h e : ℕ) (vs : List ℕ)
    → IsRing m h (e ∷ vs)
    → IsRing (remove_list_entry m e).0 h vs
remove_list_entry-first m h e vs ring = record {
  linked =
      remove_list_entry-Linked m h e h vs ring.linked (ground (arith, ring.distinct))
        (ground (arith, ring.distinct)) ring.distinct.1.1;
  distinct = (ground (arith, ring.distinct), ring.distinct.1.1);
}

-- The part of the list up to the entry before the removed one.
remove_list_entry-Agree :
    (m : Links) (h r e : ℕ) (us : List ℕ)
    → m.prev e ≡ r
    → has r (h ∷ us) ≡ false
    → has (m.next e) (r ∷ us) ≡ false
    → Agree m (remove_list_entry m e).0 h us r
unfolding remove_list_entry
remove_list_entry-Agree m h r e us at hr hn = record {
  nexts = λ p i. ground arith;
  prevs = λ p i. ground arith;
}

next-not-has :
    (m : Links) (h e : ℕ) (us vs : List ℕ) (r : ℕ)
    → Linked m e vs h
    → Around h us r (e ∷ vs)
    → has (m.next e) (r ∷ us) ≡ false
next-not-has m h e us [] r l a = ground (arith, a.head_fresh)
next-not-has m h e us (x ∷ vs) r l a = ground (arith, a.apart x, a.after)

remove_list_entry-behind :
    (m : Links) (h e r : ℕ) (us vs : List ℕ)
    → IsRing m h (us ++ r ∷ e ∷ vs)
    → IsRing (remove_list_entry m e).0 h (us ++ r ∷ vs)
remove_list_entry-behind m h e r us vs ring =
    let a = Distinct-Around h us r (e ∷ vs) ring.distinct in
    let l = (Linked-append m h us r (e ∷ vs) h).0 ring.linked in
    let m' = (remove_list_entry m e).0 in
    record {
      linked = (Linked-append m' h us r vs h).1 (
        Linked-Agree h us r
            (remove_list_entry-Agree m h r e us l.1.1 (ground (arith, a.before, a.head_fresh))
              (next-not-has m h e us vs r l.1.2 a))
            l.0,
        remove_list_entry-Linked m r e h vs l.1 (ground (arith, a.after))
            (ground (arith, a.head_later)) a.later.1,
      );
      distinct = Around-Distinct h us r vs (record {
        head_fresh = a.head_fresh;
        head_later = ground (arith, a.head_later);
        before = a.before;
        after = ground (arith, a.after);
        apart = λ p i. ground (arith, a.apart p);
        later = a.later.1;
        earlier = a.earlier;
      });
    }

-- `remove_list_entry` takes the entry out, wherever it stands, and keeps the order of the others.
pub remove_list_entry-IsRing :
    (m : Links) (h e : ℕ) (us vs : List ℕ)
    → IsRing m h (us ++ e ∷ vs)
    → IsRing (remove_list_entry m e).0 h (us ++ vs)
remove_list_entry-IsRing m h e us vs ring = elim (snoc-cases us) [
  | inl nil ↦ rw nil (remove_list_entry-first m h e vs (rw nil at ring))
  | inr (ws, r, snoc) ↦
      rw (snoc, append_assoc)
        (remove_list_entry-behind m h e r ws vs (rw (snoc, append_assoc) at ring))
]

-- The entry before and the entry after an entry with something in front of it are not the same.
behind-ne :
    (m : Links) (h e r : ℕ) (us vs : List ℕ)
    → IsRing m h (us ++ r ∷ e ∷ vs)
    → (m.next e == m.prev e) ≡ false
behind-ne m h e r us vs ring =
    let a = Distinct-Around h us r (e ∷ vs) ring.distinct in
    let l = (Linked-append m h us r (e ∷ vs) h).0 ring.linked in
    ground (arith, next-not-has m h e us vs r l.1.2 a, l.1.1)

-- The result of `remove_list_entry` tells whether the list is empty afterwards.
pub remove_list_entry-empty :
    (m : Links) (h e : ℕ) (us vs : List ℕ)
    → IsRing m h (us ++ e ∷ vs)
    → ((remove_list_entry m e).1 ≡ true) ↔ (us ++ vs ≡ [])
unfolding remove_list_entry
remove_list_entry-empty m h e [] [] ring = (λ _. refl, λ _. ground (arith, ring.linked))
remove_list_entry-empty m h e [] (x ∷ vs) ring =
    (λ q. ground (arith, ring.linked, ring.distinct), λ q. cc)
remove_list_entry-empty m h e (u ∷ us) vs ring = elim (snoc-cases (u ∷ us)) [
  | inl nil ↦ absurd (cc nil)
  | inr (ws, r, snoc) ↦
      let i : IsRing m h (ws ++ r ∷ e ∷ vs) =
        subst (λ l. IsRing m h l) (ap (λ l. l ++ e ∷ vs) snoc ∙ append_assoc ws (r ∷ []) (e ∷ vs))
          ring in
      (λ q. absurd (cc (q, behind-ne m h e r ws vs i)), λ q. absurd (cc q))
]

-- `remove_list_first` hands out the first entry and leaves the others.
pub remove_list_first-IsRing :
    (m : Links) (h e : ℕ) (vs : List ℕ)
    → IsRing m h (e ∷ vs)
    → ((remove_list_first m h).1 ≡ e) × IsRing (remove_list_first m h).0 h vs
unfolding remove_list_first
remove_list_first-IsRing m h e vs ring =
    (ring.linked.0, rw ring.linked.0 (remove_list_entry-first m h e vs ring))

-- `remove_list_last` hands out the last entry and leaves the others.
pub remove_list_last-IsRing :
    (m : Links) (h e : ℕ) (us : List ℕ)
    → IsRing m h (us ++ e ∷ [])
    → ((remove_list_last m h).1 ≡ e) × IsRing (remove_list_last m h).0 h us
unfolding remove_list_last
remove_list_last-IsRing m h e us ring =
    let at = prev-head m h us e ring in
    (at, rw at (rw append-nil at (remove_list_entry-IsRing m h e us [] ring)))

-- On an empty list `remove_list_first` hands out the head itself and leaves the list empty.
pub remove_list_first-empty :
    (m : Links) (h : ℕ)
    → IsRing m h []
    → ((remove_list_first m h).1 ≡ h) × IsRing (remove_list_first m h).0 h []
unfolding remove_list_first remove_list_entry
remove_list_first-empty m h ring = (
  ground (arith, ring.linked),
  record { linked = ground (arith, ring.linked); distinct = ground arith },
)

-- `remove_list_first` writes the fields of entries of the list only.
pub remove_list_first-SameOutside :
    (m : Links) (h e : ℕ) (vs : List ℕ)
    → IsRing m h (e ∷ vs)
    → SameOutside m (remove_list_first m h).0 (h ∷ e ∷ vs)
unfolding remove_list_first remove_list_entry
remove_list_first-SameOutside m h e [] ring p o = ground (arith, ring.linked)
remove_list_first-SameOutside m h e (x ∷ vs) ring p o = ground (arith, ring.linked)
