-- ===== src/Jiutai/Array/Position.antt =====
-- jiutai/jf_array.c: reading, inserting and removing at a position, against the list of elements.
use Prim.Native.Nat.{min}
use jiufeng.Prelude.{
  ℕ, zero, suc, ◌+◌, ◌^◌, ◌≤◌, ◌<◌, ◌≡◌, refl, ◌∙◌, ap, Bool, false, Option, if◌then◌else◌, some,
  none, List, [], ◌∷◌, ◌++◌, append_assoc, append-nil, arith, length, take, drop, get_elem?, ltb,
  leb, Bool-cases, inl, inr,
}
use jiufeng.Prelude.Word.{dec_u32}
use jiufeng.Jiutai.Err.{Err, Code, Result, ok, err}
use jiufeng.Jiutai.Array.{
  Array, walk, get_found, remove_found, get_element_from, remove_element_from, insert_element_from,
  get_element_at, remove_element_at, insert_element_at, append_element_to,
}

-- The walk stops at the index, or at the end of the list.
pub walk_lem :
    (k : ℕ) (index pos : ℕ) (before rest : List ℕ)
    → pos + k ≡ index
    → walk index pos before rest
      ≡ (min index (pos + length rest), before ++ take k rest, drop k rest)
unfolding walk
walk_lem zero index pos before [] h = ground (arith, append-nil before)
walk_lem (suc k) index pos before [] h = ground (arith, append-nil before)
walk_lem zero index pos before (x ∷ rest) h = ground (arith, append-nil before)
walk_lem (suc k) index pos before (x ∷ rest) h = ground (
  arith,
  walk_lem k index (pos + 1) (before ++ (x ∷ [])) rest,
  append_assoc before (x ∷ []) (take k rest),
)

walk_from_start :
    (index : ℕ) (xs : List ℕ)
    → walk index 0 [] xs ≡ (min index (length xs), take index xs, drop index xs)
walk_from_start index xs = ground (arith, walk_lem index index 0 [] xs)

-- The size is the number of nodes.
pub record IsValid (a : Array) : Type 0 where
  pub counted : a.size ≡ length a.elements
  pub small : a.size < 2 ^ 32

drop_lem :
    (i : ℕ) (xs : List ℕ)
    → i < length xs
    → (x : ℕ) × (get_elem? xs i ≡ some x) × (drop i xs ≡ x ∷ drop (suc i) xs)
drop_lem i [] h = absurd (omega arith)
drop_lem zero (x ∷ xs) h = (x, refl, refl)
drop_lem (suc i) (x ∷ xs) h = drop_lem i xs (omega arith)

get_elem?_beyond : (i : ℕ) (xs : List ℕ) → length xs ≤ i → get_elem? xs i ≡ none
get_elem?_beyond i [] h = refl
get_elem?_beyond zero (x ∷ xs) h = absurd (omega arith)
get_elem?_beyond (suc i) (x ∷ xs) h = get_elem?_beyond i xs (omega arith)

-- No element stands for JF_ERR_OUT_OF_RANGE.
pub or_out_of_range : Option ℕ → Result ℕ
or_out_of_range (some x) = ok x
or_out_of_range none = err Code.out_of_range

-- `jf_array_getElementAt` gives the element at the index, and JF_ERR_OUT_OF_RANGE from the size on.
pub get_element_at_lem :
    (a : Array) (index : ℕ)
    → IsValid a
    → get_element_at a index ≡ or_out_of_range (get_elem? a.elements index)
unfolding get_element_at get_element_from get_found or_out_of_range
get_element_at_lem a index v = elim (Bool-cases (leb a.size index)) [
  | inl out ↦ rw (out, get_elem?_beyond index a.elements (ground arith))
  | inr within ↦
      let (x, got, rest) = drop_lem index a.elements (ground arith) in
      rw (within, walk_from_start index a.elements, rest, got) (ground arith)
]

-- The list without its element at `index`.
abbrev pub without : ℕ → List ℕ → List ℕ
without index xs = take index xs ++ drop (suc index) xs

remove_element_from_lem :
    (a : Array) (index : ℕ) (destroys : Bool)
    → index < length a.elements
    → (x : ℕ) × (get_elem? a.elements index ≡ some x)
      × (remove_element_from a index destroys ≡ (
        Err.no_error,
        record { size = dec_u32 a.size; elements = without index a.elements },
        if destroys then x ∷ [] else [],
      ))
unfolding remove_element_from remove_found
remove_element_from_lem a index destroys h =
    let (x, got, rest) = drop_lem index a.elements h in
    (x, got, rw (walk_from_start index a.elements, rest) (ground arith))

length-without :
    (index : ℕ) (xs : List ℕ) → index < length xs → length (without index xs) + 1 ≡ length xs
length-without index [] h = absurd (omega arith)
length-without zero (x ∷ xs) h = omega arith
length-without (suc index) (x ∷ xs) h = omega (arith, length-without index xs)

-- `jf_array_removeElementAt` takes out the element at an index within the size, keeps the order of
-- the others and the size right, and refuses any other index with the array as it was.
pub remove_element_at_lem :
    (a : Array) (index : ℕ)
    → IsValid a
    → let (e, a') = remove_element_at a index in
      IsValid a'
      × (e ≡ (if ltb index (length a.elements) then Err.no_error else Err.failed Code.out_of_range))
      × (a'.elements
          ≡ (if ltb index (length a.elements) then without index a.elements else a.elements))
unfolding remove_element_at
remove_element_at_lem a index v = elim (Bool-cases (leb a.size index)) [
  | inl out ↦ ground arith
  | inr within ↦
      let h : index < length a.elements = ground arith in
      let (x, got, done) = remove_element_from_lem a index false h in
      ground (arith, length-without index a.elements h)
]

-- The list with `x` put before position `index`, or at its end if it is shorter.
abbrev pub with_at : ℕ → ℕ → List ℕ → List ℕ
with_at index x xs = take index xs ++ (x ∷ drop index xs)

length-with_at : (index x : ℕ) (xs : List ℕ) → length (with_at index x xs) ≡ suc (length xs)
length-with_at zero x xs = refl
length-with_at (suc index) x [] = refl
length-with_at (suc index) x (y ∷ xs) = ap suc (length-with_at index x xs)

-- `jf_array_insertElementAt` puts the element before the one at the index, or at the end for an index
-- beyond the size; the size stays right below the limit of a `u32`. When the allocation fails, its
-- code is returned and the array is as it was.
pub insert_element_at_lem :
    (alloc : Err) (a : Array) (index x : ℕ)
    → IsValid a
    → a.size + 1 < 2 ^ 32
    → let (e, a') = insert_element_at alloc a index x in
      IsValid a'
      × (e ≡ alloc)
      × (a'.elements
          ≡ elim alloc [ Err.no_error ↦ with_at index x a.elements | Err.failed c ↦ a.elements ])
unfolding insert_element_at insert_element_from
insert_element_at_lem Err.no_error a index x v h =
    let l = length-with_at index x a.elements in
    rw (walk_from_start index a.elements) (omega arith, refl, refl)
insert_element_at_lem (Err.failed c) a index x v h = ground arith

with_at_end : (xs : List ℕ) (n x : ℕ) → length xs ≡ n → with_at n x xs ≡ xs ++ (x ∷ [])
with_at_end [] zero x h = refl
with_at_end [] (suc n) x h = refl
with_at_end (y ∷ xs) zero x h = absurd (omega arith)
with_at_end (y ∷ xs) (suc n) x h = ap (λ r. y ∷ r) (with_at_end xs n x (omega arith))

-- `jf_array_appendElementTo` adds the element at the end when its allocation does not fail.
pub append_element_to_lem :
    (a : Array) (x : ℕ)
    → IsValid a
    → a.size + 1 < 2 ^ 32
    → let (e, a') = append_element_to Err.no_error a x in
      IsValid a' × (e ≡ Err.no_error) × (a'.elements ≡ a.elements ++ (x ∷ []))
unfolding append_element_to insert_element_at
append_element_to_lem a x v h =
    let (valid, e, same) = insert_element_at_lem Err.no_error a a.size x v h in
    (valid, e, same ∙ with_at_end a.elements a.size x (omega arith))
