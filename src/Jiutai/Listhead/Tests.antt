-- ===== src/Jiutai/Listhead/Tests.antt =====
-- jiutai/jf_listhead.h: two lists and examples.
use jiufeng.Prelude.{ℕ, ◌+◌, ◌≤◌, ◌≡◌, refl, arith, [], ◌∷◌}
use jiufeng.Prelude.Counts.{count}
use jiufeng.Jiutai.Listhead.{
  Links, listhead_init, listhead_add, listhead_add_tail, listhead_del, listhead_del_init,
  listhead_move, listhead_move_tail, listhead_splice,
}
use jiufeng.Jiutai.Listhead.Rings.{IsList}
use jiufeng.Jiutai.Listhead.Frame.{Kept}
use jiufeng.Jiutai.Listhead.Insert.{listhead_add_tail_lem}
use jiufeng.Jiutai.Listhead.Remove.{listhead_del_lem, listhead_move_lem}
use jiufeng.Jiutai.Listhead.Splice.{listhead_splice_lem}

-- The list 2, 3 at the head 1 and the list 5 at the head 4.
abbrev two_lists : Links
two_lists = listhead_add_tail 4 5 (
    listhead_add_tail 1 3 (
      listhead_add 1 2
        (listhead_init 4 (listhead_init 1 (record { next = λ x. 0; prev = λ x. 0 })))))

two_three : IsList two_lists 1 (2 ∷ 3 ∷ [])
two_three = record { leads = (refl, refl, (refl, refl, (refl, refl))); once = λ x. ground arith }

only_five : IsList two_lists 4 (5 ∷ [])
only_five = record { leads = (refl, refl, (refl, refl)); once = λ x. ground arith }

apart : (x : ℕ) → count x (1 ∷ 2 ∷ 3 ∷ []) + count x (4 ∷ 5 ∷ []) ≤ 1
apart x = ground arith

listhead_add_tail_lem_example :
    IsList (listhead_add_tail 1 7 two_lists) 1 (2 ∷ 3 ∷ 7 ∷ [])
    × Kept two_lists (listhead_add_tail 1 7 two_lists) (1 ∷ 7 ∷ 2 ∷ 3 ∷ [])
listhead_add_tail_lem_example = listhead_add_tail_lem two_lists 1 7 (2 ∷ 3 ∷ []) two_three refl

listhead_del_lem_example :
    (IsList (listhead_del 2 two_lists) 1 (3 ∷ [])
      × ((listhead_del 2 two_lists).next 2 ≡ 0)
      × ((listhead_del 2 two_lists).prev 2 ≡ 0)
      × Kept two_lists (listhead_del 2 two_lists) (1 ∷ 2 ∷ 3 ∷ []))
    × (IsList (listhead_del_init 2 two_lists) 1 (3 ∷ [])
        × IsList (listhead_del_init 2 two_lists) 2 []
        × Kept two_lists (listhead_del_init 2 two_lists) (1 ∷ 2 ∷ 3 ∷ []))
listhead_del_lem_example = listhead_del_lem two_lists 1 2 (2 ∷ 3 ∷ []) two_three (omega arith)

listhead_move_lem_example :
    (IsList (listhead_move 4 3 two_lists) 1 (2 ∷ [])
      × IsList (listhead_move 4 3 two_lists) 4 (3 ∷ 5 ∷ []))
    × (IsList (listhead_move_tail 4 3 two_lists) 1 (2 ∷ [])
        × IsList (listhead_move_tail 4 3 two_lists) 4 (5 ∷ 3 ∷ []))
listhead_move_lem_example =
    listhead_move_lem two_lists 1 3 (2 ∷ 3 ∷ []) two_three (omega arith) 4 (5 ∷ []) only_five apart

listhead_splice_lem_example :
    IsList (listhead_splice 1 4 two_lists) 1 (5 ∷ 2 ∷ 3 ∷ [])
    × IsList (listhead_splice 1 4 two_lists) 4 []
listhead_splice_lem_example =
    listhead_splice_lem two_lists 1 4 (2 ∷ 3 ∷ []) (5 ∷ []) two_three only_five apart
