-- ===== src/Jiutai/Listhead.antt =====
-- jiutai/jf_listhead.h: circular lists through the links of their entries.
-- A `jf_listhead_t` is a number and the memory is the two links of each; NULL is 0.
pub mod Rings
pub mod Frame
pub mod Insert
pub mod Remove
pub mod Splice
mod Tests
use jiufeng.Prelude.{ℕ, Bool, ◌==◌, if◌then◌else◌}
use jiufeng.Prelude.Counts.{update}

-- The memory: `jl_pjlNext` and `jl_pjlPrev` of each `jf_listhead_t`.
pub record Links : Type 0 where
  pub next : ℕ → ℕ
  pub prev : ℕ → ℕ

-- The two kinds of writes.
abbrev pub set_next : ℕ → ℕ → Links → Links
set_next a b m = record m { next = update m.next a b }

abbrev pub set_prev : ℕ → ℕ → Links → Links
set_prev a b m = record m { prev = update m.prev a b }

-- `jf_listhead_init`
abbrev pub listhead_init : ℕ → Links → Links
listhead_init list m = set_prev list list (set_next list list m)

-- `_listAdd`
abbrev pub list_add : ℕ → ℕ → ℕ → Links → Links
list_add new prev next m =
    set_next prev new (set_prev new prev (set_next new next (set_prev next new m)))

-- `jf_listhead_add`
abbrev pub listhead_add : ℕ → ℕ → Links → Links
listhead_add head new m = list_add new head (m.next head) m

-- `jf_listhead_addTail`
abbrev pub listhead_add_tail : ℕ → ℕ → Links → Links
listhead_add_tail head new m = list_add new (m.prev head) head m

-- `_listDel`
abbrev pub list_del : ℕ → ℕ → Links → Links
list_del prev next m = set_next prev next (set_prev next prev m)

-- `jf_listhead_del`
abbrev pub listhead_del : ℕ → Links → Links
listhead_del entry m =
    set_prev entry 0 (set_next entry 0 (list_del (m.prev entry) (m.next entry) m))

-- `jf_listhead_delInit`
abbrev pub listhead_del_init : ℕ → Links → Links
listhead_del_init entry m = listhead_init entry (list_del (m.prev entry) (m.next entry) m)

-- `jf_listhead_move`
abbrev pub listhead_move : ℕ → ℕ → Links → Links
listhead_move head list m = listhead_add head list (list_del (m.prev list) (m.next list) m)

-- `jf_listhead_moveTail`
abbrev pub listhead_move_tail : ℕ → ℕ → Links → Links
listhead_move_tail head list m =
    listhead_add_tail head list (list_del (m.prev list) (m.next list) m)

-- `jf_listhead_isEmpty`
abbrev pub listhead_is_empty : ℕ → Links → Bool
listhead_is_empty head m = m.next head == head

-- `_listSplice`
abbrev pub list_splice : ℕ → ℕ → Links → Links
list_splice head list m =
    let first = m.next list in
    let last = m.prev list in
    let at = m.next head in
    set_prev at last (set_next last at (set_next head first (set_prev first head m)))

-- `jf_listhead_splice` and `jf_listhead_spliceInit`
abbrev pub listhead_splice : ℕ → ℕ → Links → Links
listhead_splice head list m =
    if listhead_is_empty list m then m else listhead_init list (list_splice head list m)
