-- ===== src/Jiutai/Array/Tests.antt =====
-- Runs of jiutai/jf_array.c, and its theorems at a concrete array.
use jiufeng.Prelude.{◌≡◌, refl, [], ◌∷◌, arith}
use jiufeng.Jiutai.Err.{Err}
use jiufeng.Jiutai.Array.{Array, insert_element_at}
use jiufeng.Jiutai.Array.Position.{IsValid, insert_element_at_lem}

abbrev three : Array
three = record { size = 3; elements = 10 ∷ 20 ∷ 30 ∷ [] }

three-IsValid : IsValid three
three-IsValid = omega arith

insert_middle :
    insert_element_at Err.no_error three 1 15
    ≡ (Err.no_error, record { size = 4; elements = 10 ∷ 15 ∷ 20 ∷ 30 ∷ [] })
unfolding insert_element_at
insert_middle = refl

insert_element_at_lem_example :
    let (e, a') = insert_element_at Err.no_error three 1 15 in
    IsValid a' × (e ≡ Err.no_error) × (a'.elements ≡ 10 ∷ 15 ∷ 20 ∷ 30 ∷ [])
insert_element_at_lem_example =
    insert_element_at_lem Err.no_error three 1 15 three-IsValid (omega arith)
