-- ===== src/Jiutai/Array.antt =====
-- jiutai/jf_array.c: the array kept as a linked list of nodes with its size.
-- The nodes are the list of their elements from the first on; an element is a pointer, of which the
-- code only asks whether two are the same. A function that allocates a node takes the code that
-- jf_jiukun_allocMemory returns. `none` is a fault: a node read through NULL.
pub mod Position
pub mod Elements
mod Tests
use mathlib.Core.Option
use jiufeng.Prelude.{
  ℕ, zero, suc, ◌+◌, Bool, true, false, not, ◌&&◌, Option, none, some, List, [], ◌∷◌, ◌++◌, ltb,
  leb, ◌==◌, if◌then◌else◌,
}
use jiufeng.Prelude.Word.{inc_u32, dec_u32}
use jiufeng.Jiutai.Err.{Err, Code, Result, ok, err}

-- `internal_jf_array_t`; an element is an address.
pub record Array : Type 0 where
  pub size : ℕ
  pub elements : List ℕ

-- The `while ((u32Pos < u32Index) && (pijan != NULL))` loops: the position reached, the nodes passed
-- (the last of which is `pijanPrevious`), and the nodes from `pijan` on.
pub walk : ℕ → ℕ → List ℕ → List ℕ → ℕ × List ℕ × List ℕ
walk index pos before [] = (pos, before, [])
walk index pos before (x ∷ rest) =
    let next = walk index (pos + 1) (before ++ (x ∷ [])) rest in
    if ltb pos index then next else (pos, before, x ∷ rest)

-- `_getElementAt` behind its loop.
pub get_found : ℕ → ℕ × List ℕ × List ℕ → Result ℕ
get_found index (pos, before, []) = err Code.out_of_range
get_found index (pos, before, x ∷ rest) = if pos == index then ok x else err Code.out_of_range

-- `_getElementAt`
pub get_element_from : Array → ℕ → Result ℕ
unfolding walk get_found
get_element_from a index = get_found index (walk index 0 [] a.elements)

-- `_removeElementAt` behind its loop.
pub remove_found : Array → ℕ → Bool → ℕ × List ℕ × List ℕ → Err × Array × List ℕ
remove_found a index destroys (pos, before, []) = (Err.failed Code.out_of_range, a, [])
remove_found a index destroys (pos, before, x ∷ rest) =
    if pos == index
    then (
      Err.no_error,
      record { size = dec_u32 a.size; elements = before ++ rest },
      if destroys then x ∷ [] else [],
    )
    else (Err.failed Code.out_of_range, a, [])

-- `_removeElementAt`: the code, the array, and the elements on which `fnDestoryElement` is called.
pub remove_element_from : Array → ℕ → Bool → Err × Array × List ℕ
unfolding walk remove_found
remove_element_from a index destroys = remove_found a index destroys (walk index 0 [] a.elements)

-- `_insertElementAt`
pub insert_element_from : Err → Array → ℕ → ℕ → Err × Array
unfolding walk
insert_element_from Err.no_error a index x =
    let (pos, before, rest) = walk index 0 [] a.elements in
    (Err.no_error, record { size = inc_u32 a.size; elements = before ++ (x ∷ rest) })
insert_element_from (Err.failed e) a index x = (Err.failed e, a)

-- `jf_array_create`
pub create : Err → Result Array
create Err.no_error = ok (record { size = 0; elements = [] })
create (Err.failed e) = err e

-- `jf_array_getSize`
pub get_size : Array → ℕ
get_size a = a.size

-- `jf_array_getElementAt`
pub get_element_at : Array → ℕ → Result ℕ
unfolding get_element_from
get_element_at a index =
    if leb a.size index then err Code.out_of_range else get_element_from a index

-- `jf_array_removeElementAt`
pub remove_element_at : Array → ℕ → Err × Array
unfolding remove_element_from
remove_element_at a index =
    if leb a.size index
    then (Err.failed Code.out_of_range, a)
    else (let (e, a', destroyed) = remove_element_from a index false in (e, a'))

-- The loop of `jf_array_removeElement` with `n` rounds to `u32Size`: the nodes before the one found
-- and those behind it, `none` for no node that holds `x`, all in `none` for a fault.
pub find_node : ℕ → ℕ → List ℕ → List ℕ → Option (Option (List ℕ × List ℕ))
find_node zero x before rest = some none
find_node (suc n) x before [] = none
find_node (suc n) x before (y ∷ rest) =
    let next = find_node n x (before ++ (y ∷ [])) rest in
    if y == x then some (some (before, rest)) else next

-- `jf_array_removeElement`
pub remove_element : Array → ℕ → Option (Err × Array)
unfolding find_node
remove_element a x = elim (find_node a.size x [] a.elements) [
  | none ↦ none
  | some found ↦ elim found [
    | none ↦ some (Err.failed Code.not_found, a)
    | some (before, rest) ↦
        some (Err.no_error, record { size = dec_u32 a.size; elements = before ++ rest })
  ]
]

-- The `while (u32Index < u32Size)` loops that remove the first element, with `n` rounds left: the
-- array and the elements destroyed.
pub remove_first_n : ℕ → Array → Bool → Array × List ℕ
unfolding remove_element_from
remove_first_n zero a destroys = (a, [])
remove_first_n (suc n) a destroys =
    let (e, a', destroyed) = remove_element_from a 0 destroys in
    let (a'', more) = remove_first_n n a' destroys in (a'', destroyed ++ more)

-- `jf_array_removeAllElements`
pub remove_all_elements : Array → Array
unfolding remove_first_n
remove_all_elements a = (remove_first_n a.size a false).0

-- `jf_array_destroyAllElements`
pub destroy_all_elements : Array → Array × List ℕ
unfolding remove_first_n
destroy_all_elements a = remove_first_n a.size a true

-- `jf_array_insertElementAt`
pub insert_element_at : Err → Array → ℕ → ℕ → Err × Array
unfolding insert_element_from
insert_element_at alloc a index x = insert_element_from alloc a index x

-- `jf_array_appendElementTo`
pub append_element_to : Err → Array → ℕ → Err × Array
unfolding insert_element_from
append_element_to alloc a x = insert_element_from alloc a a.size x

-- The loop of `jf_array_findElement` with `n` rounds left; `matches` is `fnFindElement` at the key.
pub find_in : ℕ → (ℕ → Bool) → List ℕ → Option (Result ℕ)
find_in zero matches rest = some (err Code.not_found)
find_in (suc n) matches [] = none
find_in (suc n) matches (y ∷ rest) =
    let next = find_in n matches rest in if matches y then some (ok y) else next

-- `jf_array_findElement`
pub find_element : Array → (ℕ → Bool) → Option (Result ℕ)
unfolding find_in
find_element a matches = find_in a.size matches a.elements

-- One round of the loop of `jf_array_traverse`: the loop goes on if the operation on `y` returned
-- JF_ERR_NO_ERROR.
pub go_on : Err → ℕ → Option (Err × List ℕ) → Option (Err × List ℕ)
go_on Err.no_error y next = Option.map (λ (e, called). (e, y ∷ called)) next
go_on (Err.failed c) y next = some (Err.failed c, y ∷ [])

-- The loop with `n` rounds left: `op` is `fnOpOnElement`. The result is the code and the elements on
-- which `op` was called.
pub traverse_in : ℕ → (ℕ → Err) → List ℕ → Option (Err × List ℕ)
unfolding go_on
traverse_in zero op rest = some (Err.no_error, [])
traverse_in (suc n) op [] = none
traverse_in (suc n) op (y ∷ rest) = go_on (op y) y (traverse_in n op rest)

-- `jf_array_traverse`
pub traverse : Array → (ℕ → Err) → Option (Err × List ℕ)
unfolding traverse_in
traverse a op = traverse_in a.size op a.elements
