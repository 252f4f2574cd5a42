-- ===== src/Jiukun/Buddy/Create.antt =====
-- jiukun/buddy.c: a new zone is whole.
use jiufeng.Prelude.{ℕ, zero, suc, ◌+◌, ◌-◌, ◌^◌, ◌≤◌, ◌<◌, ◌≡◌, refl, arith, none, [], ◌∷◌, length}
use jiufeng.Prelude.Counts.{update}
use jiufeng.Jiukun.Buddy.{num_of_area, create_buddy_zone, Zone}
use jiufeng.Jiukun.Buddy.Counts.{total, total-update, pages, covers, pow_le}
use jiufeng.Jiukun.Buddy.Blocks.{IsBlock, update-All}
use jiufeng.Jiukun.Buddy.Rmqueue.{IsZone, Handed}

pub total_none : (w : ℕ → ℕ → ℕ) (n : ℕ) → total w (λ k. []) n ≡ 0
total_none w zero = refl
total_none w (suc n) = omega (arith, total_none w n)

-- The weight of the one free block of a new zone.
pub total_one :
    (w : ℕ → ℕ → ℕ) (m p : ℕ) → 0 < m → total w (update (λ k. []) (m - 1) (p ∷ [])) m ≡ w (m - 1) p
total_one w m p h =
    let c : total w (update (λ k. []) (m - 1) (p ∷ [])) m + 0
        ≡ total w (λ k. []) m + (w (m - 1) p + 0) =
      total-update w (λ k. []) (m - 1) (p ∷ []) m (omega (arith, h)) in
    omega (arith, c, total_none w m)

pub covers_le_one : (x k p : ℕ) → covers x k p ≤ 1
covers_le_one x k p = ground arith

new_exact : (m k : ℕ) → update (λ i. 0) m 1 k ≡ length {A = ℕ} (update (λ i. []) m (0 ∷ []) k)
new_exact m k = ground arith

-- A zone as `_createBuddyZone` makes it, for a maximum order of 1 to 15, is whole: its one free
-- block is all of its pages.
pub create_buddy_zone-IsZone :
    (max_order pool : ℕ)
    → 0 < max_order
    → max_order ≤ num_of_area
    → IsZone (create_buddy_zone max_order pool)
unfolding create_buddy_zone
create_buddy_zone-IsZone max_order pool a b =
    let one = total_one pages max_order 0 a in
    let le = pow_le (max_order - 1) 31 (omega (arith, b)) in
    record {
      counted = omega (arith, one);
      small = omega (arith, le);
      exact = new_exact (max_order - 1);
      blocks =
          update-All (IsBlock (2 ^ (max_order - 1))) (λ k. []) (max_order - 1) (0 ∷ [])
            (((0, omega arith), omega arith), tt) (λ k. tt);
      once =
          λ x. omega (arith, total_one (covers x) max_order 0 a, covers_le_one x (max_order - 1) 0);
    }

pub create_buddy_zone-max_order :
    (max_order pool : ℕ) → Zone.max_order (create_buddy_zone max_order pool) ≡ max_order
unfolding create_buddy_zone
create_buddy_zone-max_order max_order pool = refl

pub create_buddy_zone-place :
    (max_order pool : ℕ)
    → (Zone.pool (create_buddy_zone max_order pool) ≡ pool)
      × (Zone.num_of_page (create_buddy_zone max_order pool) ≡ 2 ^ (max_order - 1))
unfolding create_buddy_zone
create_buddy_zone-place max_order pool = (refl, refl)

-- A new zone has a block for every order below the maximum one.
pub create_buddy_zone-Handed :
    (max_order pool order : ℕ)
    → order < max_order
    → Handed (create_buddy_zone max_order pool) order none
    → ⊥
unfolding create_buddy_zone
create_buddy_zone-Handed max_order pool order l h =
    let e = h (max_order - 1) (omega (arith, l)) (omega (arith, l)) in ground (arith, e)
