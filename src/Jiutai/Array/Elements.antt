-- ===== src/Jiutai/Array/Elements.antt =====
-- jiutai/jf_array.c: the functions that go over the elements.
use jiufeng.Prelude.{
  ℕ, zero, suc, ◌+◌, ◌^◌, ◌<◌, ◌≡◌, refl, ◌∙◌, ap, Bool, true, false, some, none, List, [], ◌∷◌,
  ◌++◌, append_assoc, append-nil, arith, length, ◌==◌, if◌then◌else◌, Bool-cases, inl, inr,
}
use jiufeng.Prelude.Word.{dec_u32}
use jiufeng.Jiutai.Err.{Err, Code, Result, ok, err}
use jiufeng.Jiutai.Array.{
  Array, walk, find_node, remove_element, remove_first_n, remove_all_elements, destroy_all_elements,
  find_in, find_element, go_on, traverse_in, traverse,
}
use jiufeng.Jiutai.Array.Position.{IsValid}

abbrev pub empty : Array
empty = record { size = 0; elements = [] }

remove_first_n_lem :
    (xs : List ℕ) (n : ℕ) (destroys : Bool)
    → n ≡ length xs
    → n < 2 ^ 32
    → remove_first_n n (record { size = n; elements = xs }) destroys
      ≡ (empty, if destroys then xs else [])
unfolding remove_first_n walk
remove_first_n_lem [] zero destroys h k = ground arith
remove_first_n_lem [] (suc n) destroys h k = absurd (omega arith)
remove_first_n_lem (x ∷ xs) zero destroys h k = absurd (omega arith)
remove_first_n_lem (x ∷ xs) (suc n) destroys h k =
    let e : dec_u32 (suc n) ≡ n = omega arith in
    rw (e, remove_first_n_lem xs n destroys (omega arith) (omega arith)) (ground arith)

-- `jf_array_removeAllElements` and `jf_array_destroyAllElements` empty a valid array, and the second
-- calls its function on every element, once and in order.
pub remove_all_elements_lem :
    (a : Array)
    → IsValid a
    → (remove_all_elements a ≡ empty) × (destroy_all_elements a ≡ (empty, a.elements))
unfolding remove_all_elements destroy_all_elements
remove_all_elements_lem a v =
    let all =
      λ (destroys : Bool). remove_first_n_lem a.elements a.size destroys v.counted v.small in
    (ap (λ r. r.0) (all false), all true)

-- Whether `x` is there; the elements before the first that is `x`, and those behind it.
abbrev pub contains : ℕ → List ℕ → Bool
contains x [] = false
contains x (y ∷ ys) = if y == x then true else contains x ys

abbrev before_first : ℕ → List ℕ → List ℕ
before_first x [] = []
before_first x (y ∷ ys) = if y == x then [] else y ∷ before_first x ys

abbrev after_first : ℕ → List ℕ → List ℕ
after_first x [] = []
after_first x (y ∷ ys) = if y == x then ys else after_first x ys

-- The elements without the first that is `x`.
abbrev pub erase : ℕ → List ℕ → List ℕ
erase x [] = []
erase x (y ∷ ys) = if y == x then ys else y ∷ erase x ys

erase_lem :
    (x : ℕ) (ys : List ℕ)
    → contains x ys ≡ true
    → (before_first x ys ++ after_first x ys ≡ erase x ys) × (length (erase x ys) + 1 ≡ length ys)
erase_lem x [] h = absurd (cc)
erase_lem x (y ∷ ys) h = ground (arith, erase_lem x ys)

find_node_lem :
    (ys : List ℕ) (n x : ℕ) (before : List ℕ)
    → n ≡ length ys
    → find_node n x before ys
      ≡ some (if contains x ys then some (before ++ before_first x ys, after_first x ys) else none)
unfolding find_node
find_node_lem [] zero x before h = refl
find_node_lem [] (suc n) x before h = absurd (omega arith)
find_node_lem (y ∷ ys) zero x before h = absurd (omega arith)
find_node_lem (y ∷ ys) (suc n) x before h = ground (
  arith,
  append-nil before,
  append_assoc before (y ∷ []) (before_first x ys),
  find_node_lem ys n x (before ++ (y ∷ [])),
)

-- `jf_array_removeElement` never reads through NULL on a valid array. It takes out the first element
-- that is the given one and keeps the others in order, or returns JF_ERR_NOT_FOUND.
pub remove_element_lem :
    (a : Array) (x : ℕ)
    → IsValid a
    → (e : Err) × (a' : Array) × (remove_element a x ≡ some (e, a'))
      × IsValid a'
      × (e ≡ (if contains x a.elements then Err.no_error else Err.failed Code.not_found))
      × (a'.elements ≡ (if contains x a.elements then erase x a.elements else a.elements))
unfolding remove_element
remove_element_lem a x v = elim (Bool-cases (contains x a.elements)) [
  | inl there ↦
      let (split, shorter) = erase_lem x a.elements there in
      let left = before_first x a.elements ++ after_first x a.elements in
      (
        Err.no_error,
        record { size = dec_u32 a.size; elements = left },
        rw (find_node_lem a.elements a.size x [] v.counted, remove_element, there),
        ground (arith, v.counted, v.small),
        rw there,
        rw there split,
      )
  | inr missing ↦ (
    Err.failed Code.not_found,
    a,
    rw (find_node_lem a.elements a.size x [] v.counted, remove_element, missing),
    v,
    rw missing,
    rw missing,
  )
]

-- The first element with the property.
abbrev pub first_match : (ℕ → Bool) → List ℕ → Result ℕ
first_match matches [] = err Code.not_found
first_match matches (y ∷ ys) = if matches y then ok y else first_match matches ys

find_in_lem :
    (ys : List ℕ) (n : ℕ) (matches : ℕ → Bool)
    → n ≡ length ys
    → find_in n matches ys ≡ some (first_match matches ys)
unfolding find_in
find_in_lem [] zero matches h = refl
find_in_lem [] (suc n) matches h = absurd (omega arith)
find_in_lem (y ∷ ys) zero matches h = absurd (omega arith)
find_in_lem (y ∷ ys) (suc n) matches h = ground (arith, find_in_lem ys n matches)

-- `jf_array_findElement` on a valid array gives the first element that the function accepts, or
-- JF_ERR_NOT_FOUND, with no read through NULL.
pub find_element_lem :
    (a : Array) (matches : ℕ → Bool)
    → IsValid a
    → find_element a matches ≡ some (first_match matches a.elements)
unfolding find_element
find_element_lem a matches v = find_in_lem a.elements a.size matches v.counted

abbrev called_on : Err → ℕ → Err × List ℕ → Err × List ℕ
called_on Err.no_error y (e, called) = (e, y ∷ called)
called_on (Err.failed c) y next = (Err.failed c, y ∷ [])

-- The code of the first operation that fails, and the elements up to that one.
abbrev pub until_failure : (ℕ → Err) → List ℕ → Err × List ℕ
until_failure op [] = (Err.no_error, [])
until_failure op (y ∷ ys) = called_on (op y) y (until_failure op ys)

go_on-some : (e : Err) (y : ℕ) (r : Err × List ℕ) → go_on e y (some r) ≡ some (called_on e y r)
unfolding go_on
go_on-some Err.no_error y r = refl
go_on-some (Err.failed c) y r = refl

traverse_in_lem :
    (ys : List ℕ) (n : ℕ) (op : ℕ → Err)
    → n ≡ length ys
    → traverse_in n op ys ≡ some (until_failure op ys)
unfolding traverse_in
traverse_in_lem [] zero op h = refl
traverse_in_lem [] (suc n) op h = absurd (omega arith)
traverse_in_lem (y ∷ ys) zero op h = absurd (omega arith)
traverse_in_lem (y ∷ ys) (suc n) op h =
    ap (go_on (op y) y) (traverse_in_lem ys n op (omega arith)) ∙ go_on-some (op y) y _

-- `jf_array_traverse` on a valid array calls the operation on the elements in order up to the first
-- on which it fails, and returns that code, with no read through NULL.
pub traverse_lem :
    (a : Array) (op : ℕ → Err) → IsValid a → traverse a op ≡ some (until_failure op a.elements)
unfolding traverse
traverse_lem a op v = traverse_in_lem a.elements a.size op v.counted
