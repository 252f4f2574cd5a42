-- ===== src/Jiukun/Pages/Choice.antt =====
-- jiukun/buddy.c: the zone that `_allocPages` chooses.
use jiufeng.Prelude.{
  ℕ, suc, ◌+◌, ◌-◌, ◌≤◌, ◌<◌, ◌≡◌, ◌⊎◌, inl, inr, refl, arith, ◌&&◌, some, List, [], ◌∷◌, ltb, leb,
  get_elem?, All, All-map, Bool-cases,
}
use jiufeng.Jiukun.Buddy.{Zone}
use jiufeng.Jiukun.Pages.{find_zone}

-- A zone has not so many free pages, or as many as another number.
abbrev pub IsNoBetter : ℕ → ℕ → Zone → Type 0
IsNoBetter pages least y = pages ≤ y.free_pages → least ≤ y.free_pages

-- The zone at an index has so many free pages, and of the zones that have, none has fewer.
abbrev pub IsBest : List Zone → ℕ → ℕ → Zone → Type 0
IsBest zs pages i z =
    (get_elem? zs i ≡ some z) × (pages ≤ z.free_pages) × All (IsNoBetter pages z.free_pages) zs

-- What the search from an index on gives.
abbrev pub Search : List Zone → ℕ → ℕ → ℕ → ℕ → ℕ → Type 0
Search zs index pages left id r =
    ((r ≡ id) × All (IsNoBetter pages (left + pages)) zs)
    ⊎ ((i : ℕ) × (z : Zone) × (r ≡ index + i) × (z.free_pages < left + pages) × IsBest zs pages i z)

pub find_zone_lem :
    (zs : List Zone) (index pages left id : ℕ)
    → Search zs index pages left id (find_zone zs index pages left id)
unfolding find_zone
find_zone_lem [] index pages left id = inl (refl, tt)
find_zone_lem (z ∷ zs) index pages left id =
    elim (Bool-cases (leb pages z.free_pages && ltb (z.free_pages - pages) left)) [
      | inl e ↦ rw e (elim (find_zone_lem zs (index + 1) pages (z.free_pages - pages) index) [
        | inl (r, a) ↦ inr (
          0,
          z,
          omega (arith, r),
          ground (arith, e),
          (
            refl,
            ground (arith, e),
            (
              (λ h. omega arith),
              All-map (IsNoBetter pages (z.free_pages - pages + pages))
                  (IsNoBetter pages z.free_pages) (λ y f h. omega (arith, f h)) zs a,
            ),
          ),
        )
        | inr (i, y, r, less, (g, fits, a)) ↦ inr (
          suc i,
          y,
          omega (arith, r),
          ground (arith, e, less),
          (g, fits, ((λ h. omega (arith, less, h)), a)),
        )
      ])
      | inr e ↦ rw e (elim (find_zone_lem zs (index + 1) pages left id) [
        | inl (r, a) ↦ inl (r, (λ h. ground (arith, e, h), a))
        | inr (i, y, r, less, (g, fits, a)) ↦
            inr
              (suc i, y, omega (arith, r), less, (g, fits, ((λ h. ground (arith, e, h, less)), a)))
      ])
    ]
