-- ===== src/EntryList.antt =====
-- The intrusive circular list of 15-uthread-synch/uthreads/include/list.h. The fields `next` and
-- `prev` of every `list_entry_t` in memory are two functions of its address.
pub mod Flink
pub mod Insert
pub mod Remove
pub mod Ring
use so_2021v_li42d.Base.{ℕ, Bool, ◌==◌, update}

pub record Links : Type 0 where
  pub next : ℕ → ℕ
  pub prev : ℕ → ℕ

abbrev set_next : Links → ℕ → ℕ → Links
set_next m p q = record m { next = update m.next p q }

abbrev set_prev : Links → ℕ → ℕ → Links
set_prev m p q = record m { prev = update m.prev p q }

unfoldable pub init_list_head : Links → ℕ → Links
init_list_head m listhead = set_next (set_prev m listhead listhead) listhead listhead

unfoldable pub is_list_empty : Links → ℕ → Bool
is_list_empty m listhead = m.next listhead == listhead

unfoldable pub remove_list_entry : Links → ℕ → Links × Bool
remove_list_entry m entry =
    let next = m.next entry in
    let prev = m.prev entry in
    let m1 = set_next m prev next in let m2 = set_prev m1 next prev in (m2, next == prev)

unfoldable pub remove_list_first : Links → ℕ → Links × ℕ
remove_list_first m listhead = let entry = m.next listhead in ((remove_list_entry m entry).0, entry)

unfoldable pub remove_list_last : Links → ℕ → Links × ℕ
remove_list_last m listhead = let entry = m.prev listhead in ((remove_list_entry m entry).0, entry)

unfoldable pub insert_list_after : Links → ℕ → ℕ → Links
insert_list_after m ref_entry new_entry =
    let prev = ref_entry in
    let next = m.next ref_entry in
    let m1 = set_prev m new_entry prev in
    let m2 = set_next m1 new_entry next in
    let m3 = set_next m2 prev new_entry in set_prev m3 next new_entry

unfoldable pub insert_list_last : Links → ℕ → ℕ → Links
insert_list_last m listhead entry = insert_list_after m (m.prev listhead) entry

unfoldable pub insert_list_first : Links → ℕ → ℕ → Links
insert_list_first m listhead entry = insert_list_after m listhead entry
