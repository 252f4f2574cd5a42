-- ===== src/Encode/Base64/Bounds.antt =====
-- encode/base64.c: the decoder ends on every string and stays inside the memory that it asks for.
use jiufeng.Prelude.{
  ℕ, zero, suc, ◌+◌, ◌-◌, ◌*◌, ◌≤◌, ◌<◌, ◌≡◌, refl, some, List, [], ◌∷◌, ◌++◌, arith, length, take,
  length-append, length-take, ◌^◌, ◌==◌, ◌||◌, not, false,
}
use jiufeng.Jiutai.Err.{Err, ok}
use jiufeng.Encode.Base64.{
  next_value, Block, read_value, read_block, block_bytes, decode_loop, decode_base64, decode_block,
  decode_size, in_olsize, strlen,
}

-- `next_value` reads at least one character, if there is one.
length-next_value : (s : List ℕ) → length (next_value s).1 ≤ length s - 1
unfolding next_value
length-next_value [] = omega arith
length-next_value (c ∷ s) = ground (arith, length-next_value s)

-- A round takes as many characters as it counts, and one at least if there is any.
read_value_takes :
    (i : ℕ) (b : Block)
    → let b' = read_value i b in
      (b'.len + length b'.rest ≤ b.len + length b.rest)
      × (b'.len ≤ b.len + 1)
      × (length b'.rest ≤ length b.rest - 1)
unfolding read_value
read_value_takes i b = ground (arith, length-next_value b.rest)

read_block_takes :
    (n i : ℕ) (b : Block)
    → let b' = read_block n i b in
      (b'.len + length b'.rest ≤ b.len + length b.rest)
      × (b'.len ≤ b.len + n)
      × (length b'.rest ≤ length b.rest)
unfolding read_block
read_block_takes zero i b = omega arith
read_block_takes (suc n) i b =
    ground (arith, read_value_takes i b, read_block_takes n (i + 1) (read_value i b))

-- The first of the four rounds takes a character.
read_block_four : (b : Block) → 0 < length b.rest → length (read_block 4 0 b).rest < length b.rest
unfolding read_block
read_block_four b h = ground (arith, read_value_takes 0 b, read_block_takes 3 1 (read_value 0 b))

length-block_bytes : (b : Block) → length (block_bytes b) ≤ b.len - 1
unfolding decode_block
length-block_bytes b = ground (arith, length-take (b.len - 1) (decode_block b.input))

decode_loop_total :
    (fuel : ℕ) (input s : List ℕ)
    → length s < fuel
    → (out : List ℕ) × (decode_loop fuel input s ≡ some out) × (4 * length out ≤ 3 * length s)
unfolding decode_loop
decode_loop_total zero input s h = absurd (omega arith)
decode_loop_total (suc fuel) input [] h = ([], refl, omega arith)
decode_loop_total (suc fuel) input (c ∷ s) h =
    let start : Block = record { input = input; len = 0; rest = c ∷ s } in
    let b = read_block 4 0 start in
    let taken = read_block_takes 4 0 start in
    let (out, e, k) =
      decode_loop_total fuel b.input b.rest (omega (arith, read_block_four start)) in
    (
      block_bytes b ++ out,
      rw e,
      omega (arith, taken, length-append (block_bytes b) out, length-block_bytes b),
    )

-- On a string that is not empty and is shorter than 2^31 / 3 `jf_encode_decodeBase64` ends when the
-- allocator does not fail. The memory that it asks for holds the bytes that count, with room for the
-- three that the last `_decodeBlock` writes from its start on.
pub decode_base64_total :
    (input s : List ℕ)
    → 0 < strlen s
    → strlen s * 3 < 2 ^ 31
    → (out : List ℕ) × (decode_base64 Err.no_error input s ≡ some (ok (some out)))
      × (length out + 3 ≤ decode_size (strlen s))
unfolding decode_base64
decode_base64_total input s pos small =
    let chars = take (strlen s + 1) s in
    let (out, e, k) = decode_loop_total (length chars + 1) input chars (omega arith) in
    let inside : (strlen s == 0 || not (in_olsize (strlen s * 3))) ≡ false =
      ground (arith, pos, small) in
    (out, rw (inside, e) refl, omega (arith, length-take (strlen s + 1) s))
