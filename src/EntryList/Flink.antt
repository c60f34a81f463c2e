-- ===== src/EntryList/Flink.antt =====
-- The older version of the intrusive list, 14-uthread-scheduling/list.h, with the fields `flink` and
-- `blink`, and its comparison with 15-uthread-synch/uthreads/include/list.h.
use so_2021v_li42d.Base.{ℕ, ◌≡◌, refl, Bool, List, ◌==◌, update}
use so_2021v_li42d.EntryList.{
  Links, remove_list_entry, remove_list_first, remove_list_last, insert_list_last,
  insert_list_first, insert_list_after,
}
use so_2021v_li42d.EntryList.Ring.{IsRing, IsRing-prev, IsRing-next}

pub record FlinkLinks : Type 0 where
  pub flink : ℕ → ℕ
  pub blink : ℕ → ℕ

abbrev set_flink : FlinkLinks → ℕ → ℕ → FlinkLinks
set_flink m p q = record m { flink = update m.flink p q }

abbrev set_blink : FlinkLinks → ℕ → ℕ → FlinkLinks
set_blink m p q = record m { blink = update m.blink p q }

-- The same memory, with the field names of the newer version.
abbrev pub as_links : FlinkLinks → Links
as_links m = record { next = m.flink; prev = m.blink }

unfoldable pub init_list_head14 : FlinkLinks → ℕ → FlinkLinks
init_list_head14 m listhead = set_flink (set_blink m listhead listhead) listhead listhead

unfoldable pub is_list_empty14 : FlinkLinks → ℕ → Bool
is_list_empty14 m listhead = m.flink listhead == listhead

unfoldable pub remove_entry_list : FlinkLinks → ℕ → FlinkLinks × Bool
remove_entry_list m entry =
    let flink = m.flink entry in
    let blink = m.blink entry in
    let m1 = set_flink m blink flink in let m2 = set_blink m1 flink blink in (m2, flink == blink)

unfoldable pub remove_head_list : FlinkLinks → ℕ → FlinkLinks × ℕ
remove_head_list m listhead =
    let entry = m.flink listhead in
    let flink = m.flink entry in
    let m1 = set_flink m listhead flink in let m2 = set_blink m1 flink listhead in (m2, entry)

unfoldable pub remove_tail_list : FlinkLinks → ℕ → FlinkLinks × ℕ
remove_tail_list m listhead =
    let entry = m.blink listhead in
    let blink = m.blink entry in
    let m1 = set_blink m listhead blink in let m2 = set_flink m1 blink listhead in (m2, entry)

unfoldable pub insert_tail_list : FlinkLinks → ℕ → ℕ → FlinkLinks
insert_tail_list m listhead entry =
    let blink = m.blink listhead in
    let m1 = set_flink m entry listhead in
    let m2 = set_blink m1 entry blink in
    let m3 = set_flink m2 blink entry in set_blink m3 listhead entry

unfoldable pub insert_head_list : FlinkLinks → ℕ → ℕ → FlinkLinks
insert_head_list m listhead entry =
    let flink = m.flink listhead in
    let m1 = set_flink m entry flink in
    let m2 = set_blink m1 entry listhead in
    let m3 = set_blink m2 flink entry in set_flink m3 listhead entry

-- What the two versions of an operation have in common: the same memory and the same result.
abbrev pub SameRemoval : FlinkLinks × ℕ → Links × ℕ → Type 0
SameRemoval r s = (as_links r.0 ≡ s.0) × (r.1 ≡ s.1)

-- At a well-formed list, the removals at either end leave the same memory and hand out the same
-- entry in the two versions, whether the list is empty or not.
pub removals_agree :
    (m : FlinkLinks) (h : ℕ) (xs : List ℕ)
    → IsRing (as_links m) h xs
    → SameRemoval (remove_head_list m h) (remove_list_first (as_links m) h)
      × SameRemoval (remove_tail_list m h) (remove_list_last (as_links m) h)
unfolding remove_head_list remove_list_first remove_tail_list remove_list_last remove_list_entry
removals_agree m h xs ring = (
  (rw (IsRing-next (as_links m) h xs ring), refl),
  (rw ((IsRing-prev (as_links m) h xs ring).0), refl),
)

-- At a well-formed list, the insertions at either end leave the same memory in the two versions.
pub insertions_agree :
    (m : FlinkLinks) (h e : ℕ) (xs : List ℕ)
    → IsRing (as_links m) h xs
    → (as_links (insert_tail_list m h e) ≡ insert_list_last (as_links m) h e)
      × (as_links (insert_head_list m h e) ≡ insert_list_first (as_links m) h e)
unfolding insert_tail_list insert_list_last insert_head_list insert_list_first insert_list_after
insertions_agree m h e xs ring = (rw ((IsRing-prev (as_links m) h xs ring).0), refl)
