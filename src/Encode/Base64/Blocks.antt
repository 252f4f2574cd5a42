-- ===== src/Encode/Base64/Blocks.antt =====
-- encode/base64.c: what `_encodeBlock` writes, what the decoder reads of it, and what `_decodeBlock`
-- makes of that, for one block.

use jiufeng.Prelude.{
  ℕ, ◌+◌, ◌*◌, ◌/◌, ◌%◌, ◌^◌, ◌<◌, ◌≡◌, ◌≢◌, refl, true, not, List, [], ◌∷◌, arith, ◌==◌, ==_iff,
  set, take,
}
use jiufeng.Prelude.Tables.{holds_under, test_of_table}
use jiufeng.Encode.Base64.{
  base64_char, encode_block, decode_block, decode_char, next_value, read_value, read_block,
}
use jiufeng.Encode.Base64.Bits.{
  bit_and_three, bit_and_f0, bit_and_0f, bit_and_c0, bit_and_3f, bit_and_shl_c0, bit_or_two,
  bit_or_four, bit_or_six,
}

char_table : holds_under (λ i. decode_char (base64_char i) == i + 1) 64 ≡ true
unfolding holds_under decode_char base64_char
char_table = refl

char_nonzero_table : holds_under (λ i. not (base64_char i == 0)) 64 ≡ true
unfolding holds_under base64_char
char_nonzero_table = refl

pub decode_char-base64_char : (i : ℕ) → i < 64 → decode_char (base64_char i) ≡ i + 1
decode_char-base64_char i h =
    (==_iff _ _).0 (test_of_table (λ i. decode_char (base64_char i) == i + 1) 64 i h char_table)

pub base64_char-ne-zero : (i : ℕ) → i < 64 → base64_char i ≢ 0
base64_char-ne-zero i h =
    ground (arith, test_of_table (λ i. not (base64_char i == 0)) 64 i h char_nonzero_table)

pub encode_three :
    (a b c : ℕ)
    → a < 256
    → b < 256
    → c < 256
    → encode_block 3 a b c
      ≡ base64_char (a / 4)
        ∷ base64_char (a % 4 * 16 + b / 16)
        ∷ base64_char (b % 16 * 4 + c / 64)
        ∷ base64_char (c % 64)
        ∷ []
unfolding encode_block
encode_three a b c ha hb hc =
    rw (bit_and_three a ha, bit_and_f0 b hb, bit_and_0f b hb, bit_and_c0 c hc, bit_and_3f c hc)
      (rw (
        fb,
        fc,
        bit_or_four (a % 4) (b / 16) (omega arith) (omega arith),
        bit_or_two (b % 16) (c / 64) (omega arith) (omega arith),
      ))
  where
    fb : b / 16 * 16 / 2 ^ 4 ≡ b / 16
    fb = omega arith

    fc : c / 64 * 64 / 2 ^ 6 ≡ c / 64
    fc = omega arith

pub encode_two :
    (a b : ℕ)
    → a < 256
    → b < 256
    → encode_block 2 a b 0
      ≡ base64_char (a / 4)
        ∷ base64_char (a % 4 * 16 + b / 16)
        ∷ base64_char (b % 16 * 4)
        ∷ b'='
        ∷ []
unfolding encode_block
encode_two a b ha hb =
    rw (bit_and_three a ha, bit_and_f0 b hb, bit_and_0f b hb)
      (rw (fb, bit_or_four (a % 4) (b / 16) (omega arith) (omega arith)))
  where
    fb : b / 16 * 16 / 2 ^ 4 ≡ b / 16
    fb = omega arith

pub encode_one :
    (a : ℕ)
    → a < 256
    → encode_block 1 a 0 0 ≡ base64_char (a / 4) ∷ base64_char (a % 4 * 16) ∷ b'=' ∷ b'=' ∷ []
unfolding encode_block
encode_one a ha = rw (bit_and_three a ha)

pub next_value-base64_char :
    (i : ℕ) (rest : List ℕ) → i < 64 → next_value (base64_char i ∷ rest) ≡ (i + 1, rest)
unfolding next_value
next_value-base64_char i rest h = ground (arith, decode_char-base64_char i h)

-- Behind the last character that has a value only padding and the NUL are left.
pub next_value-pad :
    (next_value (0 ∷ []) ≡ (0, []))
    × (next_value (b'=' ∷ 0 ∷ []) ≡ (0, []))
    × (next_value (b'=' ∷ b'=' ∷ 0 ∷ []) ≡ (0, []))
unfolding next_value decode_char
next_value-pad = (refl, refl, refl)

-- A round that finds the character of `i` with something behind it stores `i`.
read_value-char :
    (k i : ℕ) (input : List ℕ) (len c : ℕ) (rest : List ℕ)
    → i < 64
    → read_value k (record { input = input; len = len; rest = base64_char i ∷ c ∷ rest })
      ≡ record { input = set input k i; len = len + 1; rest = c ∷ rest }
unfolding read_value
read_value-char k i input len c rest h = ground (arith, next_value-base64_char i (c ∷ rest) h)

-- Four characters with something behind them fill `in[4]`.
pub read_block_full :
    (i j k l c : ℕ) (w x y z : ℕ) (rest : List ℕ)
    → i < 64
    → j < 64
    → k < 64
    → l < 64
    → read_block 4 0 (record {
      input = w ∷ x ∷ y ∷ z ∷ [];
      len = 0;
      rest = base64_char i ∷ base64_char j ∷ base64_char k ∷ base64_char l ∷ c ∷ rest;
    })
      ≡ record { input = i ∷ j ∷ k ∷ l ∷ []; len = 4; rest = c ∷ rest }
unfolding read_block
read_block_full i j k l c w x y z rest hi hj hk hl = rw (
  read_value-char 0 i _ 0 _ _ hi,
  read_value-char 1 j _ 1 _ _ hj,
  read_value-char 2 k _ 2 _ _ hk,
  read_value-char 3 l _ 3 _ _ hl,
)

-- Three characters, then padding: `in[3]` is cleared and the string is at its end.
pub read_block_three :
    (i j k : ℕ) (w x y z : ℕ)
    → i < 64
    → j < 64
    → k < 64
    → read_block 4 0 (record {
      input = w ∷ x ∷ y ∷ z ∷ [];
      len = 0;
      rest = base64_char i ∷ base64_char j ∷ base64_char k ∷ b'=' ∷ 0 ∷ [];
    })
      ≡ record { input = i ∷ j ∷ k ∷ 0 ∷ []; len = 3; rest = [] }
unfolding read_block
read_block_three i j k w x y z hi hj hk =
    rw
      (
        read_value-char 0 i _ 0 _ _ hi,
        read_value-char 1 j _ 1 _ _ hj,
        read_value-char 2 k _ 2 _ _ hk,
      )
      (unfold read_value in rw (next_value-pad.1))

-- Two characters, then padding: `in[3]` keeps what it held.
pub read_block_two :
    (i j : ℕ) (w x y z : ℕ)
    → i < 64
    → j < 64
    → read_block 4 0 (record {
      input = w ∷ x ∷ y ∷ z ∷ [];
      len = 0;
      rest = base64_char i ∷ base64_char j ∷ b'=' ∷ b'=' ∷ 0 ∷ [];
    })
      ≡ record { input = i ∷ j ∷ 0 ∷ z ∷ []; len = 2; rest = [] }
unfolding read_block
read_block_two i j w x y z hi hj =
    rw (read_value-char 0 i _ 0 _ _ hi, read_value-char 1 j _ 1 _ _ hj)
      (unfold read_value in rw (next_value-pad.2))

-- Only the NUL is left.
pub read_block_none :
    (input : List ℕ)
    → read_block 4 0 (record { input = input; len = 0; rest = 0 ∷ [] })
      ≡ record { input = set input 0 0; len = 0; rest = [] }
unfolding read_block read_value
read_block_none input = rw (next_value-pad.0)

module _ (i j k l : ℕ) (hi : i < 64) (hj : j < 64) where
  -- One byte counts: the others of `in[4]` do not matter.
  pub decode_block_one : take 1 (decode_block (i ∷ j ∷ k ∷ l ∷ [])) ≡ (i * 4 + j / 16) % 256 ∷ []
  unfolding decode_block
  decode_block_one = rw (bit_or_two i (j / 16) hi (omega arith))

  -- Two bytes count.
  pub decode_block_two :
      k < 64
      → take 2 (decode_block (i ∷ j ∷ k ∷ l ∷ []))
        ≡ (i * 4 + j / 16) % 256 ∷ (j * 16 + k / 4) % 256 ∷ []
  unfolding decode_block
  decode_block_two hk =
      rw (bit_or_two i (j / 16) hi (omega arith), bit_or_four j (k / 4) hj (omega arith))

  pub decode_block_three :
      k < 64
      → l < 64
      → decode_block (i ∷ j ∷ k ∷ l ∷ [])
        ≡ (i * 4 + j / 16) % 256 ∷ (j * 16 + k / 4) % 256 ∷ (k % 4 * 64 + l) % 256 ∷ []
  unfolding decode_block
  decode_block_three hk hl = rw (
    bit_and_shl_c0 k hk,
    bit_or_two i (j / 16) hi (omega arith),
    bit_or_four j (k / 4) hj (omega arith),
    bit_or_six (k % 4) l (omega arith) hl,
  )
