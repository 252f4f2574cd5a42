-- ===== src/Jiukun/Buddy/Index.antt =====
-- jiukun/buddy.c: the index of a buddy by exclusive or, as arithmetic.
use Prim.Native.Nat.{digits, differ, bit_xor-bitwise}
use jiufeng.Prelude.{
  ℕ, zero, suc, ◌+◌, ◌-◌, ◌*◌, ◌/◌, ◌%◌, ◌^◌, ◌≤◌, ◌<◌, ◌≡◌, refl, ◌∙◌, ap, arith, ◌==◌,
  if◌then◌else◌,
}
use jiufeng.Jiukun.Buddy.{get_buddy_index}
use jiufeng.Jiukun.Buddy.Counts.{pow_pos}

-- The digits of the exclusive or, with `n` places to go.
abbrev flipped : ℕ → ℕ → ℕ → ℕ
flipped n a b = digits (λ d. d) differ n a b

flipped_zero : (n a : ℕ) → a ≤ n → flipped n a 0 ≡ a
flipped_zero zero zero h = refl
flipped_zero zero (suc a) h = absurd (omega (arith, h))
flipped_zero (suc n) zero h = refl
flipped_zero (suc n) (suc a) h =
    let r = flipped_zero n (suc a / 2) (omega (arith, h)) in
    let d : differ (suc a % 2) 0 ≡ suc a % 2 = differ_zero (suc a % 2) in omega (arith, r, d)
  where
    differ_zero : (d : ℕ) → differ d 0 ≡ d
    differ_zero zero = refl
    differ_zero (suc d) = refl

-- The number with the last binary digit changed.
abbrev pub other_of : ℕ → ℕ
other_of q = if q % 2 == 0 then q + 1 else q - 1

differ_one : (d : ℕ) → d < 2 → differ d 1 ≡ 1 - d
differ_one zero h = refl
differ_one (suc zero) h = refl
differ_one (suc (suc d)) h = absurd (omega (arith, h))

differ_none : (d : ℕ) → d ≡ 0 → differ d d ≡ 0
differ_none zero h = refl
differ_none (suc d) h = absurd (omega (arith, h))

flipped_one : (n q : ℕ) → q ≤ n → flipped n q 1 ≡ other_of q
flipped_one zero zero h = refl
flipped_one zero (suc q) h = absurd (omega (arith, h))
flipped_one (suc n) zero h = refl
flipped_one (suc n) (suc q) h =
    let r : flipped n (suc q / 2) 0 ≡ suc q / 2 = flipped_zero n (suc q / 2) (omega (arith, h)) in
    let d : differ (suc q % 2) 1 ≡ 1 - suc q % 2 = differ_one (suc q % 2) (omega arith) in
    let s : flipped (suc n) (suc q) 1 ≡ suc q / 2 * 2 + (1 - suc q % 2) = omega (arith, r, d) in
    s ∙ ground arith

half_times :
    (a b q k : ℕ)
    → a ≡ q * 2 ^ suc k
    → b ≡ 2 ^ suc k
    → (a / 2 ≡ q * 2 ^ k) × (b / 2 ≡ 2 ^ k) × (a % 2 ≡ 0) × (b % 2 ≡ 0)
half_times a b q k e f =
    let g : a ≡ 2 * (q * 2 ^ k) = grind (arith, e) in
    let h : b ≡ 2 * 2 ^ k = omega (arith, f) in
    (omega (arith, g), omega (arith, h), omega (arith, g), omega (arith, h))

times_two : (x k : ℕ) → x * 2 ^ k * 2 ≡ x * 2 ^ suc k
times_two x k = grind arith

flipped_none : (k q : ℕ) → 0 ≡ q * 2 ^ suc k → 2 ^ suc k ≡ other_of q * 2 ^ suc k
flipped_none k zero e = omega arith
flipped_none k (suc q) e = absurd (grind (arith, e, pow_pos k))

flipped_at :
    (k n q a b : ℕ) → a ≤ n → a ≡ q * 2 ^ k → b ≡ 2 ^ k → flipped n a b ≡ other_of q * 2 ^ k
flipped_at zero n q a b h e f =
    let e' : a ≡ q = omega (arith, e) in
    ap (λ x. flipped n x b) e'
    ∙ ap (flipped n q) f
    ∙ flipped_one n q (omega (arith, h, e'))
    ∙ omega arith
flipped_at (suc k) zero q zero b h e f = f ∙ flipped_none k q e
flipped_at (suc k) zero q (suc a) b h e f = absurd (omega (arith, h))
flipped_at (suc k) (suc n) q zero b h e f = f ∙ flipped_none k q e
flipped_at (suc k) (suc n) q (suc a) b h e f =
    let (x, y, u, v) = half_times (suc a) b q k e f in
    let r : flipped n (suc a / 2) (b / 2) ≡ other_of q * 2 ^ k =
      flipped_at k n q (suc a / 2) (b / 2) (omega (arith, h)) x y in
    let d : differ (suc a % 2) (b % 2) ≡ 0 =
      ap (differ (suc a % 2)) (v ∙ omega (arith, u)) ∙ differ_none (suc a % 2) u in
    let s : flipped (suc n) (suc a) b ≡ other_of q * 2 ^ k * 2 = omega (arith, r, d) in
    s ∙ times_two (other_of q) k

-- `_getBuddyIndex` of the `q`-th block of an order is its neighbour in the pair of blocks.
pub get_buddy_index_lem : (q k : ℕ) → get_buddy_index (q * 2 ^ k) k ≡ other_of q * 2 ^ k
unfolding get_buddy_index
get_buddy_index_lem q k =
    bit_xor-bitwise (q * 2 ^ k) (2 ^ k)
    ∙ flipped_at k (q * 2 ^ k) q (q * 2 ^ k) (2 ^ k) (omega arith) refl refl
