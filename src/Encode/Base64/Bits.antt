-- ===== src/Encode/Base64/Bits.antt =====
-- encode/base64.c: its bit operations as arithmetic, checked at every value in their range.
use Prim.Native.Nat.{bit_and, bit_or}
use jiufeng.Prelude.{ℕ, ◌+◌, ◌*◌, ◌/◌, ◌%◌, ◌<◌, ◌≡◌, refl, true, ◌==◌, ==_iff}
use jiufeng.Prelude.Tables.{holds_under, test_of_table}

-- Two functions that agree in a table agree at every value under its bound.
eq_below :
    (n : ℕ) (f g : ℕ → ℕ) → holds_under (λ x. f x == g x) n ≡ true → (x : ℕ) → x < n → f x ≡ g x
eq_below n f g table x h = (==_iff _ _).0 (test_of_table (λ x. f x == g x) n x h table)

eq_below_two :
    (n m : ℕ) (f g : ℕ → ℕ → ℕ)
    → holds_under (λ x. holds_under (λ y. f x y == g x y) m) n ≡ true
    → (x y : ℕ) → x < n
    → y < m
    → f x y ≡ g x y
eq_below_two n m f g table x y h k =
    let row = test_of_table (λ x. holds_under (λ y. f x y == g x y) m) n x h table in
    eq_below m (f x) (g x) row y k

pub bit_and_three : (x : ℕ) → x < 256 → bit_and x 0x03 ≡ x % 4
unfolding holds_under
bit_and_three = eq_below 256 (λ x. bit_and x 0x03) (λ x. x % 4) refl

pub bit_and_f0 : (x : ℕ) → x < 256 → bit_and x 0xf0 ≡ x / 16 * 16
unfolding holds_under
bit_and_f0 = eq_below 256 (λ x. bit_and x 0xf0) (λ x. x / 16 * 16) refl

pub bit_and_0f : (x : ℕ) → x < 256 → bit_and x 0x0f ≡ x % 16
unfolding holds_under
bit_and_0f = eq_below 256 (λ x. bit_and x 0x0f) (λ x. x % 16) refl

pub bit_and_c0 : (x : ℕ) → x < 256 → bit_and x 0xc0 ≡ x / 64 * 64
unfolding holds_under
bit_and_c0 = eq_below 256 (λ x. bit_and x 0xc0) (λ x. x / 64 * 64) refl

pub bit_and_3f : (x : ℕ) → x < 256 → bit_and x 0x3f ≡ x % 64
unfolding holds_under
bit_and_3f = eq_below 256 (λ x. bit_and x 0x3f) (λ x. x % 64) refl

-- `(z << 6) & 0xc0` keeps the two low bits of `z`.
pub bit_and_shl_c0 : (z : ℕ) → z < 64 → bit_and (z * 64) 0xc0 ≡ z % 4 * 64
unfolding holds_under
bit_and_shl_c0 = eq_below 64 (λ z. bit_and (z * 64) 0xc0) (λ z. z % 4 * 64) refl

-- An `|` of disjoint bits is a sum.
pub bit_or_two : (x y : ℕ) → x < 64 → y < 4 → bit_or (x * 4) y ≡ x * 4 + y
unfolding holds_under
bit_or_two = eq_below_two 64 4 (λ x y. bit_or (x * 4) y) (λ x y. x * 4 + y) refl

pub bit_or_four : (x y : ℕ) → x < 64 → y < 16 → bit_or (x * 16) y ≡ x * 16 + y
unfolding holds_under
bit_or_four = eq_below_two 64 16 (λ x y. bit_or (x * 16) y) (λ x y. x * 16 + y) refl

pub bit_or_six : (x y : ℕ) → x < 4 → y < 64 → bit_or (x * 64) y ≡ x * 64 + y
unfolding holds_under
bit_or_six = eq_below_two 4 64 (λ x y. bit_or (x * 64) y) (λ x y. x * 64 + y) refl
