-- ===== src/Jiutai/Listhead/Rings.antt =====
-- jiutai/jf_listhead.h: the entries that a list leads through.
use jiufeng.Prelude.{ℕ, ◌≤◌, ◌<◌, ◌≡◌, refl, arith, true, false, List, [], ◌∷◌, ◌++◌, ◌==◌}
use jiufeng.Prelude.Counts.{count}
use jiufeng.Jiutai.Listhead.{Links, set_next, set_prev}

-- From an entry, both links lead through the entries of a list to another entry.
abbrev pub Leads : Links → ℕ → List ℕ → ℕ → Type 0
Leads m a [] b = (m.next a ≡ b) × (m.prev b ≡ a)
Leads m a (x ∷ xs) b = (m.next a ≡ x) × (m.prev x ≡ a) × Leads m x xs b

-- A list with its entries in order: the links go round, and no entry is there twice.
pub record IsList (m : Links) (head : ℕ) (xs : List ℕ) : Type 0 where
  pub leads : Leads m head xs head
  pub once : (x : ℕ) → count x (head ∷ xs) ≤ 1

pub Leads-append :
    (m : Links) (a : ℕ) (xs : List ℕ) (y : ℕ) (ys : List ℕ) (b : ℕ)
    → Leads m a xs y
    → Leads m y ys b
    → Leads m a (xs ++ (y ∷ ys)) b
Leads-append m a [] y ys b (n, p) q = (n, p, q)
Leads-append m a (x ∷ xs) y ys b (n, p, l) q = (n, p, Leads-append m x xs y ys b l q)

pub Leads-split :
    (m : Links) (a : ℕ) (xs : List ℕ) (y : ℕ) (ys : List ℕ) (b : ℕ)
    → Leads m a (xs ++ (y ∷ ys)) b
    → Leads m a xs y × Leads m y ys b
Leads-split m a [] y ys b (n, p, l) = ((n, p), l)
Leads-split m a (x ∷ xs) y ys b (n, p, l) =
    let (f, g) = Leads-split m x xs y ys b l in ((n, p, f), g)

-- A write of a link that the path does not use.
pub Leads-set_next :
    (m : Links) (c d a : ℕ) (xs : List ℕ) (b : ℕ)
    → count c (a ∷ xs) ≡ 0
    → Leads m a xs b
    → Leads (set_next c d m) a xs b
Leads-set_next m c d a [] b h (n, p) = let ne : (a == c) ≡ false = ground (arith, h) in (rw ne n, p)
Leads-set_next m c d a (x ∷ xs) b h (n, p, l) =
    let ne : (a == c) ≡ false = ground (arith, h) in
    (rw ne n, p, Leads-set_next m c d x xs b (ground (arith, h)) l)

pub Leads-set_prev :
    (m : Links) (c d a : ℕ) (xs : List ℕ) (b : ℕ)
    → count c (b ∷ xs) ≡ 0
    → Leads m a xs b
    → Leads (set_prev c d m) a xs b
Leads-set_prev m c d a [] b h (n, p) = let ne : (b == c) ≡ false = ground (arith, h) in (n, rw ne p)
Leads-set_prev m c d a (x ∷ xs) b h (n, p, l) =
    let ne : (x == c) ≡ false = ground (arith, h) in
    (n, rw ne p, Leads-set_prev m c d x xs b (ground (arith, h)) l)

-- The last entry in front of the end.
pub last_entry : ℕ → List ℕ → ℕ
last_entry a [] = a
last_entry a (x ∷ xs) = last_entry x xs

pub prev_end :
    (m : Links) (a : ℕ) (xs : List ℕ) (b : ℕ) → Leads m a xs b → m.prev b ≡ last_entry a xs
unfolding last_entry
prev_end m a [] b (n, p) = p
prev_end m a (x ∷ xs) b (n, p, l) = prev_end m x xs b l

pub count-last_entry : (a : ℕ) (xs : List ℕ) → 0 < count (last_entry a xs) (a ∷ xs)
unfolding last_entry
count-last_entry a [] = ground arith
count-last_entry a (x ∷ xs) = omega (arith, count-last_entry x xs)

-- The end of a path is led to another entry.
pub Leads-to :
    (m : Links) (a : ℕ) (xs : List ℕ) (b n : ℕ)
    → ((x : ℕ) → count x (a ∷ xs) ≤ 1)
    → count n xs ≡ 0
    → Leads m a xs b
    → Leads (set_prev n (last_entry a xs) (set_next (last_entry a xs) n m)) a xs n
unfolding last_entry
Leads-to m a [] b n o h l =
    let s : (a == a) ≡ true = ground arith in
    let s' : (n == n) ≡ true = ground arith in (rw s refl, rw s' refl)
Leads-to m a (x ∷ xs) b n o h (e, p, l) =
    let at = last_entry x xs in
    let c = count-last_entry x xs in
    let ne : (a == at) ≡ false = ground (arith, o at, c) in
    let ne' : (x == n) ≡ false = ground (arith, h) in
    (rw ne e, rw ne' p, Leads-to m x xs b n (λ y. omega (arith, o y)) (omega (arith, h)) l)
