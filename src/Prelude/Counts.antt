-- ===== src/Prelude/Counts.antt =====
-- Tables of numbers, the removal of a number from a list, and how often a number is in one.
use jiufeng.Prelude.{
  ℕ, ◌+◌, ◌-◌, ◌<◌, ◌≡◌, inl, inr, refl, sym, subst, arith, false, List, [], ◌∷◌, ◌++◌, ◌==◌,
  if◌then◌else◌, length, All, Bool-cases, ==_iff,
}

-- A write to one entry of a table.
abbrev pub update {ℓ} : {A : Type ℓ} → (ℕ → A) → ℕ → A → ℕ → A
update f k v i = if i == k then v else f i

-- The list without the first entry that is `x`.
abbrev pub erase : ℕ → List ℕ → List ℕ
erase x [] = []
erase x (y ∷ ys) = if y == x then ys else y ∷ erase x ys

-- How often a number is in a list.
abbrev pub count : ℕ → List ℕ → ℕ
count x [] = 0
count x (y ∷ ys) = (if y == x then 1 else 0) + count x ys

pub count-append : (x : ℕ) (xs ys : List ℕ) → count x (xs ++ ys) ≡ count x xs + count x ys
count-append x [] ys = omega arith
count-append x (y ∷ xs) ys = omega (arith, count-append x xs ys)

pub count-erase :
    (x y : ℕ) (ys : List ℕ) → count x (erase y ys) ≡ (if y == x then count x ys - 1 else count x ys)
count-erase x y [] = ground arith
count-erase x y (z ∷ zs) = ground (arith, count-erase x y zs)

pub length-erased : (x : ℕ) (ys : List ℕ) → 0 < count x ys → length (erase x ys) + 1 ≡ length ys
length-erased x [] h = absurd (omega (arith, h))
length-erased x (z ∷ zs) h = ground (arith, length-erased x zs)

pub erase-absent : (x : ℕ) (ys : List ℕ) → count x ys ≡ 0 → erase x ys ≡ ys
erase-absent x [] h = refl
erase-absent x (z ∷ zs) h = ground (arith, erase-absent x zs)

pub All-erased : (P : ℕ → Type 0) (x : ℕ) (ys : List ℕ) → All P ys → All P (erase x ys)
All-erased P x [] a = a
All-erased P x (y ∷ ys) (p, a) = elim (Bool-cases (y == x)) [
  | inl e ↦ rw e a
  | inr e ↦ rw e (p, All-erased P x ys a)
]

pub All-count : (P : ℕ → Type 0) (x : ℕ) (ys : List ℕ) → All P ys → 0 < count x ys → P x
All-count P x [] a h = absurd (omega (arith, h))
All-count P x (y ∷ ys) (p, a) h = elim (Bool-cases (y == x)) [
  | inl e ↦ subst P ((==_iff y x).0 e) p
  | inr e ↦ let h' = rw e at h in All-count P x ys a (omega (arith, h'))
]

-- What holds of entries other than `x`.
pub All-other :
    (P Q : ℕ → Type 0) (x : ℕ)
    → ((y : ℕ) → (y == x) ≡ false → P y → Q y)
    → (ys : List ℕ) → count x ys ≡ 0
    → All P ys
    → All Q ys
All-other P Q x f [] h a = a
All-other P Q x f (y ∷ ys) h (p, a) = elim (Bool-cases (y == x)) [
  | inl e ↦ let h' = rw e at h in absurd (omega (arith, h'))
  | inr e ↦ let h' = rw e at h in (f y e p, All-other P Q x f ys (omega (arith, h')) a)
]

pub All-append : (P : ℕ → Type 0) (xs ys : List ℕ) → All P xs → All P ys → All P (xs ++ ys)
All-append P [] ys a b = b
All-append P (x ∷ xs) ys (p, a) b = (p, All-append P xs ys a b)

-- What holds of the entries but one, and of that one.
pub All-restore : (P : ℕ → Type 0) (x : ℕ) (ys : List ℕ) → P x → All P (erase x ys) → All P ys
All-restore P x [] p a = tt
All-restore P x (y ∷ ys) p a = elim (Bool-cases (y == x)) [
  | inl e ↦ let a' = rw e at a in (subst P (sym ((==_iff y x).0 e)) p, a')
  | inr e ↦ let a' = rw e at a in (a'.0, All-restore P x ys p (a'.1))
]
