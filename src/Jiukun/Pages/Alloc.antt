-- ===== src/Jiukun/Pages/Alloc.antt =====
-- jiukun/buddy.c: what `_allocPages` returns.
use jiufeng.Prelude.{
  All-get_elem?, ℕ, zero, suc, ◌-◌, ◌^◌, ◌≤◌, ◌<◌, ◌≡◌, inl, inr, ◌⊎◌, sym, subst, ◌∙◌, refl, arith,
  Bool, true, false, ◌||◌, Option, none, some, List, [], ◌∷◌, ◌++◌, ◌==◌, if◌then◌else◌, get_elem?,
  length, set, All, Bool-cases, leb, ◌+◌, length-append, length-set,
}
use jiufeng.Jiutai.Err.{Code, Result, ok, err}
use jiufeng.Jiukun.Buddy.{num_of_area, Zone, create_buddy_zone, rmqueue}
use jiufeng.Jiukun.Buddy.Counts.{pow_pos}
use jiufeng.Jiukun.Buddy.Rmqueue.{IsZone, rmqueue_lem, Handed}
use jiufeng.Jiukun.Buddy.Create.{
  create_buddy_zone-IsZone, create_buddy_zone-Handed, create_buddy_zone-max_order,
}
use jiufeng.Jiukun.Pages.Choice.{IsNoBetter, IsBest, Search, find_zone_lem}
use jiufeng.Jiukun.Pages.{
  Buddy, create_zone, find_zone, alloc_from, grow, alloc_pages, max_buddy_zones,
}

-- Each zone is whole and has the maximum order of the allocator; the array of zones is not overrun.
abbrev pub IsBuddy : Buddy → Type 0
IsBuddy b =
    All (λ z. IsZone z × (z.max_order ≡ b.max_order)) b.zones
    × (length b.zones ≤ max_buddy_zones)
    × (0 < b.max_order)
    × (b.max_order ≤ num_of_area)

-- The block at a page of a zone comes from that zone, as `_rmqueue` promises it, and no other zone
-- changes.
abbrev pub IsFrom : Buddy → ℕ → ℕ × ℕ → Buddy → Type 0
IsFrom b order (id, p) b' =
    (z : Zone) × (z' : Zone) × (get_elem? b.zones id ≡ some z)
    × Handed z order (some (p, z'))
    × (b' ≡ record b { zones = set b.zones id z' })

-- The allocator with one more zone.
abbrev pub with_zone : Buddy → ℕ → Buddy
with_zone b pool = record b { zones = b.zones ++ create_buddy_zone b.max_order pool ∷ [] }

-- No zone may or can be added.
abbrev pub IsStuck : Result ℕ → Buddy → Type 0
IsStuck memory b =
    ((length b.zones == max_buddy_zones || b.no_grow) ≡ true) ⊎ ((e : Code) × (memory ≡ err e))

-- No zone has enough free pages, or the best of those that have enough has them not in one block.
abbrev pub IsUnserved : Buddy → ℕ → Type 0
IsUnserved b order =
    All (λ z. z.free_pages < 2 ^ order) b.zones
    ⊎ ((id : ℕ) × (z : Zone) × IsBest b.zones (2 ^ order) id z × Handed z order none)

-- The block comes from the best zone of those that have enough free pages.
abbrev pub IsFromBest : Buddy → ℕ → ℕ × ℕ → Buddy → Type 0
IsFromBest b order (id, p) b' =
    ((z : Zone) × IsBest b.zones (2 ^ order) id z) × IsFrom b order (id, p) b'

-- What `_allocPages` may return and leave.
abbrev pub Answer : Result ℕ → Buddy → ℕ → Option (ℕ × ℕ) × Buddy → Type 0
Answer memory b order (none, b') = (b' ≡ b) × IsStuck memory b × IsUnserved b order
Answer memory b order (some page, b') =
    IsBuddy b'
    × (IsFromBest b order page b'
        ⊎ (IsUnserved b order
            × ((pool : ℕ) × (memory ≡ ok pool) × IsFrom (with_zone b pool) order page b')))

module _ {ℓ} {A : Type ℓ} (P : A → Type ℓ) where
  pub All-set : (xs : List A) (i : ℕ) (x : A) → All P xs → P x → All P (set xs i x)
  All-set [] i x a p = a
  All-set (y ∷ ys) zero x (a, b) p = (p, b)
  All-set (y ∷ ys) (suc i) x (a, b) p = (a, All-set ys i x b p)

  pub All-append_one : (xs : List A) (x : A) → All P xs → P x → All P (xs ++ x ∷ [])
  All-append_one [] x a p = (p, tt)
  All-append_one (y ∷ ys) x (a, b) p = (a, All-append_one ys x b p)

module _ {ℓ} {A : Type ℓ} where
  pub get_elem?-set :
      (xs : List A) (i : ℕ) (x y : A) → get_elem? xs i ≡ some x → get_elem? (set xs i y) i ≡ some y
  get_elem?-set [] i x y e = ground arith
  get_elem?-set (z ∷ zs) zero x y e = refl
  get_elem?-set (z ∷ zs) (suc i) x y e = get_elem?-set zs i x y e

  get_elem?-append_one : (xs : List A) (x : A) → get_elem? (xs ++ x ∷ []) (length xs) ≡ some x
  get_elem?-append_one [] x = refl
  get_elem?-append_one (y ∷ ys) x = get_elem?-append_one ys x

-- What `_rmqueue` on a zone of the allocator may make of it.
abbrev FromZone : Buddy → ℕ → ℕ → Zone → Option (ℕ × ℕ × Buddy) → Type 0
FromZone b id order z none = Handed z order none
FromZone b id order z (some (id', p, b')) = (id' ≡ id) × IsBuddy b' × IsFrom b order (id', p) b'

alloc_from_lem :
    (b : Buddy) (id order : ℕ) (z : Zone)
    → IsBuddy b
    → get_elem? b.zones id ≡ some z
    → FromZone b id order z (alloc_from b id order (some z))
unfolding alloc_from
alloc_from_lem b id order z v e =
    let (all, len, pos, top) = v in
    let (whole, same) = All-get_elem? _ b.zones id z all e in
    (elim (rmqueue z order)
        as (λ o.
          Handed z order o
          → FromZone b id order z (elim o [
            | none ↦ none
            | some (p, z') ↦ some (id, p, record b { zones = set b.zones id z' })
          ])) [
            | none ↦ λ h. h
            | some (p, z') ↦ λ h.
                let (whole', block, pages, same', num, cover) = h in
                (
                  refl,
                  (
                    All-set _ b.zones id z' all (whole', same' ∙ same),
                    omega (arith, length-set b.zones id z', len),
                    pos,
                    top,
                  ),
                  (z, z', e, h, refl),
                )
          ])
      (rmqueue_lem z order whole)

grow_lem :
    (b : Buddy) (order : ℕ) (memory : Result ℕ)
    → IsBuddy b
    → order < b.max_order
    → length b.zones < max_buddy_zones
    → IsUnserved b order
    → Answer memory b order (grow b order (create_zone memory b.max_order))
unfolding grow create_zone
grow_lem b order (err e) v low l u = (refl, inr (e, refl), u)
grow_lem b order (ok pool) v low l u =
    let (all, len, pos, top) = v in
    let z = create_buddy_zone b.max_order pool in
    let n = length-append b.zones (z ∷ []) in
    let whole = create_buddy_zone-IsZone b.max_order pool pos top in
    let v' : IsBuddy (with_zone b pool) = (
      All-append_one _ b.zones z all (whole, create_buddy_zone-max_order b.max_order pool),
      omega (arith, n, l),
      pos,
      top,
    ) in
    (elim (alloc_from (with_zone b pool) (length b.zones) order (some z))
        as (λ o.
          FromZone (with_zone b pool) (length b.zones) order z o
          → Answer (ok pool) b order (elim o [
            | none ↦ (none, with_zone b pool)
            | some (id, p, b'') ↦ (some (id, p), b'')
          ])) [
            | none ↦ λ h. absurd (create_buddy_zone-Handed b.max_order pool order low h)
            | some (id, p, b'') ↦ λ h. (h.1, inr (u, (pool, refl, h.2)))
          ])
      (alloc_from_lem (with_zone b pool) (length b.zones) order z v'
        (get_elem?-append_one b.zones z))

-- What the attempt on the zone that was found may give.
abbrev FromFound : Buddy → ℕ → Option (ℕ × ℕ × Buddy) → Type 0
FromFound b order none = IsUnserved b order
FromFound b order (some (id, p, b')) = IsBuddy b' × IsFromBest b order (id, p) b'

FromZone-FromFound :
    (b : Buddy) (id order : ℕ) (z : Zone) (o : Option (ℕ × ℕ × Buddy))
    → IsBest b.zones (2 ^ order) id z
    → FromZone b id order z o
    → FromFound b order o
FromZone-FromFound b id order z none best h = inr (id, z, best, h)
FromZone-FromFound b id order z (some (id', p, b')) best (e, v, f) =
    (v, ((z, subst (λ i. IsBest b.zones (2 ^ order) i z) (sym e) best), f))

get_elem?-length :
    {A : Type 0} (xs : List A) (i : ℕ) (x : A) → get_elem? xs i ≡ some x → i < length xs
get_elem?-length [] i x e = absurd (ground (arith, e))
get_elem?-length (y ∷ ys) zero x e = omega arith
get_elem?-length (y ∷ ys) (suc i) x e = omega (arith, get_elem?-length ys i x e)

few_pages :
    (zs : List Zone) (max order : ℕ)
    → All (λ z. IsZone z × (z.max_order ≡ max)) zs
    → All (IsNoBetter (2 ^ order) (2 ^ 32 - 1 + 2 ^ order)) zs
    → All (λ z. z.free_pages < 2 ^ order) zs
few_pages [] max order a h = tt
few_pages (z ∷ zs) max order ((v, e), a) (f, h) = (
  elim (Bool-cases (leb (2 ^ order) z.free_pages)) [
    | inl g ↦ absurd (omega (arith, f (ground (arith, g)), v.small, pow_pos order))
    | inr g ↦ ground (arith, g)
  ],
  few_pages zs max order a h,
)

found_lem :
    (b : Buddy) (id order : ℕ)
    → IsBuddy b
    → Search b.zones 0 (2 ^ order) (2 ^ 32 - 1) (2 ^ 32 - 1) id
    → FromFound b order
        (if id == 2 ^ 32 - 1 then none else alloc_from b id order (get_elem? b.zones id))
found_lem b id order v (inl (r, a)) = rw r (inl (few_pages b.zones b.max_order order (v.0) a))
found_lem b id order v (inr (i, z, r, less, best)) =
    let same : id ≡ i = omega (arith, r) in
    let short = get_elem?-length b.zones i z (best.0) in
    let e : (i == 2 ^ 32 - 1) ≡ false = ground (arith, short, v.1) in
    rw same (
      rw e (
        rw (best.0) (
          FromZone-FromFound b i order z (alloc_from b i order (some z)) best
            (alloc_from_lem b i order z v (best.0)))))

or_null_lem :
    (b : Buddy) (order : ℕ) (memory : Result ℕ) (stop : Bool)
    → (stop ≡ true → IsStuck memory b)
    → (stop ≡ false → length b.zones < max_buddy_zones)
    → IsBuddy b
    → order < b.max_order
    → IsUnserved b order
    → Answer memory b order
        (if stop then (none, b) else grow b order (create_zone memory b.max_order))
or_null_lem b order memory true s l v low u = (refl, s refl, u)
or_null_lem b order memory false s l v low u = grow_lem b order memory v low (l refl) u

below_limit : (a b : ℕ) (c : Bool) → a ≤ b → (a == b || c) ≡ false → a < b
below_limit a b c h e = ground arith

-- `_allocPages` for an order below the maximum one, on an allocator of at most 20 zones, all of them
-- whole and of its maximum order, which is from 1 to 15: it returns NULL only when there are 20
-- zones, growing is off or the memory for a zone was refused, and then nothing has changed. Else one
-- zone hands out a block as `_rmqueue` does, the other zones are as they were, and the allocator is
-- again one of at most 20 whole zones. The zone is one with the fewest free pages of those that have
-- enough. NULL and a block of an added zone are only for the case that no zone has enough free pages
-- or the one that was chosen has no free block of the order or above.
pub alloc_pages_lem :
    (memory : Result ℕ) (b : Buddy) (order : ℕ)
    → IsBuddy b
    → order < b.max_order
    → Answer memory b order (alloc_pages memory b order)
unfolding alloc_pages
alloc_pages_lem memory b order v low =
    let id = find_zone b.zones 0 (2 ^ order) (2 ^ 32 - 1) (2 ^ 32 - 1) in
    let or_null =
      if length b.zones == max_buddy_zones || b.no_grow
      then (none, b)
      else grow b order (create_zone memory b.max_order) in
    (elim (if id == 2 ^ 32 - 1 then none else alloc_from b id order (get_elem? b.zones id))
        as (λ o.
          FromFound b order o
          → Answer memory b order
              (elim o [ none ↦ or_null | some (id', p, b') ↦ (some (id', p), b') ])) [
                | none ↦ λ h.
                    or_null_lem b order memory (length b.zones == max_buddy_zones || b.no_grow)
                      (λ e. inl e) (below_limit (length b.zones) max_buddy_zones b.no_grow (v.1)) v
                      low h
                | some (id', p, b') ↦ λ h. (h.0, inl h.1)
              ])
      (found_lem b id order v (find_zone_lem b.zones 0 (2 ^ order) (2 ^ 32 - 1) (2 ^ 32 - 1)))
