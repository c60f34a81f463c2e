-- ===== src/Examples/Lists.antt =====
-- The list operations at a list of three entries.
use so_2021v_li42d.Base.{ℕ, ◌≡◌, refl, ◌↔◌, true, List, [], ◌∷◌, arith}
use so_2021v_li42d.EntryList.{
  Links, init_list_head, is_list_empty, remove_list_entry, insert_list_after, insert_list_last,
}
use so_2021v_li42d.EntryList.Ring.{IsRing}
use so_2021v_li42d.EntryList.Insert.{insert_list_last-IsRing, is_list_empty-IsRing}
use so_2021v_li42d.EntryList.Remove.{remove_list_entry-IsRing}
use so_2021v_li42d.EntryList.Flink.{FlinkLinks}

abbrev blank : Links
blank = record { next = λ p. 0; prev = λ p. 0 }

-- A list with its head at 100 and the entries 1, 2, 3.
abbrev three : Links
three =
    insert_list_last (insert_list_last (insert_list_last (init_list_head blank 100) 100 1) 100 2)
      100 3

three-IsRing : IsRing three 100 (1 ∷ 2 ∷ 3 ∷ [])
unfolding init_list_head insert_list_last insert_list_after
three-IsRing = record { linked = ground arith; distinct = ground arith }

insert_list_last-IsRing_example : IsRing (insert_list_last three 100 4) 100 (1 ∷ 2 ∷ 3 ∷ 4 ∷ [])
insert_list_last-IsRing_example =
    insert_list_last-IsRing three 100 4 (1 ∷ 2 ∷ 3 ∷ []) three-IsRing refl

is_list_empty-IsRing_example :
    (is_list_empty three 100 ≡ true) ↔ (◌≡◌ {A = List ℕ} (1 ∷ 2 ∷ 3 ∷ []) [])
is_list_empty-IsRing_example = is_list_empty-IsRing three 100 (1 ∷ 2 ∷ 3 ∷ []) three-IsRing

remove_list_entry-IsRing_example : IsRing (remove_list_entry three 2).0 100 (1 ∷ 3 ∷ [])
remove_list_entry-IsRing_example =
    remove_list_entry-IsRing three 100 2 (1 ∷ []) (3 ∷ []) three-IsRing

abbrev three14 : FlinkLinks
three14 = record { flink = three.next; blink = three.prev }
