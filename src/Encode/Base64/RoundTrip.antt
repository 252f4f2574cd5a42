-- ===== src/Encode/Base64/RoundTrip.antt =====
-- encode/base64.c: decoding undoes encoding, within the memory that both ask for.
use mathlib.Core.Option
use mathlib.Core.Path.{ap₂}
use jiufeng.Prelude.{
  ℕ, zero, suc, ◌+◌, ◌*◌, ◌/◌, ◌%◌, ◌≤◌, ◌<◌, ◌≡◌, refl, ap, some, List, [], ◌∷◌, ◌++◌, arith,
  length, take, All, ◌^◌, ◌==◌, ◌||◌, not, false,
}
use jiufeng.Jiutai.Err.{Err, ok}
use jiufeng.Encode.Base64.{
  base64_char, encode_block, encode_loop, encode_base64, encode_size, in_olsize, strlen,
  decode_loop, decode_base64, read_block, block_bytes,
}
use jiufeng.Encode.Base64.Blocks.{
  encode_three, encode_two, encode_one, base64_char-ne-zero, read_block_full, read_block_three,
  read_block_two, read_block_none, decode_block_one, decode_block_two, decode_block_three,
}

abbrev pub AreBytes : List ℕ → Type 0
AreBytes = All (λ x. x < 256)

-- The four characters of a full block.
abbrev quad : ℕ → ℕ → ℕ → List ℕ
quad a b c =
    base64_char (a / 4)
    ∷ base64_char (a % 4 * 16 + b / 16)
    ∷ base64_char (b % 16 * 4 + c / 64)
    ∷ base64_char (c % 64)
    ∷ []

-- The string is never empty: it ends in the NUL.
encode_loop-cons : (bs : List ℕ) → (c : ℕ) × (r : List ℕ) × (encode_loop bs ≡ c ∷ r)
unfolding encode_loop encode_block
encode_loop-cons [] = (0, [], refl)
encode_loop-cons (a ∷ []) = (_, _, refl)
encode_loop-cons (a ∷ b ∷ []) = (_, _, refl)
encode_loop-cons (a ∷ b ∷ c ∷ rest) = (_, _, refl)

strlen-char : (i : ℕ) (s : List ℕ) → i < 64 → strlen (base64_char i ∷ s) ≡ suc (strlen s)
unfolding strlen
strlen-char i s h = ground (arith, base64_char-ne-zero i h)

-- The NUL that the encoder adds is the only one.
strlen-encode_loop :
    (bs : List ℕ) → AreBytes bs → suc (strlen (encode_loop bs)) ≡ length (encode_loop bs)
unfolding encode_loop
strlen-encode_loop [] h = unfold strlen in refl
strlen-encode_loop (a ∷ []) h =
    rw
      (
        encode_one a h.0,
        strlen-char (a / 4) _ (omega arith),
        strlen-char (a % 4 * 16) _ (omega arith),
      )
      (unfold strlen in refl)
strlen-encode_loop (a ∷ b ∷ []) h =
    rw
      (
        encode_two a b h.0 h.1.0,
        strlen-char (a / 4) _ (omega arith),
        strlen-char (a % 4 * 16 + b / 16) _ (omega arith),
        strlen-char (b % 16 * 4) _ (omega arith),
      )
      (unfold strlen in refl)
strlen-encode_loop (a ∷ b ∷ c ∷ rest) h =
    rw
      (
        encode_three a b c h.0 h.1.0 h.1.1.0,
        strlen-char (a / 4) _ (omega arith),
        strlen-char (a % 4 * 16 + b / 16) _ (omega arith),
        strlen-char (b % 16 * 4 + c / 64) _ (omega arith),
        strlen-char (c % 64) _ (omega arith),
      )
      (omega (arith, strlen-encode_loop rest h.1.1.1))

decode_loop_step :
    (fuel : ℕ) (input : List ℕ) (c : ℕ) (s : List ℕ)
    → decode_loop (suc fuel) input (c ∷ s) ≡ (
        let b = read_block 4 0 (record { input = input; len = 0; rest = c ∷ s }) in
        Option.map (λ out. block_bytes b ++ out) (decode_loop fuel b.input b.rest))
unfolding decode_loop
decode_loop_step fuel input c s = refl

decode_loop_nil : (fuel : ℕ) (input : List ℕ) → decode_loop (suc fuel) input [] ≡ some []
unfolding decode_loop
decode_loop_nil fuel input = refl

bytes_back :
    (a b c : ℕ) (rest : List ℕ)
    → a < 256
    → b < 256
    → c < 256
    → (a / 4 * 4 + (a % 4 * 16 + b / 16) / 16) % 256
        ∷ ((a % 4 * 16 + b / 16) * 16 + (b % 16 * 4 + c / 64) / 4) % 256
        ∷ ((b % 16 * 4 + c / 64) % 4 * 64 + c % 64) % 256
        ∷ rest
      ≡ a ∷ b ∷ c ∷ rest
bytes_back a b c rest ha hb hc = rw (first, second, third)
  where
    first : (a / 4 * 4 + (a % 4 * 16 + b / 16) / 16) % 256 ≡ a
    first = omega arith

    second : ((a % 4 * 16 + b / 16) * 16 + (b % 16 * 4 + c / 64) / 4) % 256 ≡ b
    second = omega arith

    third : ((b % 16 * 4 + c / 64) % 4 * 64 + c % 64) % 256 ≡ c
    third = omega arith

-- Whatever `in[4]` holds, with more fuel than blocks.
decode_loop-encode_loop :
    (fuel : ℕ) (bs : List ℕ) (w x y z : ℕ)
    → AreBytes bs
    → length bs + 1 < fuel
    → decode_loop fuel (w ∷ x ∷ y ∷ z ∷ []) (encode_loop bs) ≡ some bs
unfolding encode_loop
decode_loop-encode_loop zero bs w x y z h f = absurd (omega arith)
decode_loop-encode_loop (suc zero) bs w x y z h f = absurd (omega arith)
decode_loop-encode_loop (suc (suc fuel)) [] w x y z h f =
    rw (decode_loop_step, read_block_none (w ∷ x ∷ y ∷ z ∷ []), decode_loop_nil)
decode_loop-encode_loop (suc (suc fuel)) (a ∷ []) w x y z h f =
    let i : a / 4 < 64 = omega arith in
    let j : a % 4 * 16 < 64 = omega arith in
    rw
      (
        encode_one a h.0,
        decode_loop_step,
        read_block_two _ _ w x y z i j,
        decode_block_one _ _ 0 z i j,
        decode_loop_nil,
      )
      (ap some (ap (λ v. v ∷ []) (omega arith)))
decode_loop-encode_loop (suc (suc fuel)) (a ∷ b ∷ []) w x y z h f =
    let i : a / 4 < 64 = omega arith in
    let j : a % 4 * 16 + b / 16 < 64 = omega arith in
    let k : b % 16 * 4 < 64 = omega arith in
    rw
      (
        encode_two a b h.0 h.1.0,
        decode_loop_step,
        read_block_three _ _ _ w x y z i j k,
        decode_block_two _ _ _ 0 i j k,
        decode_loop_nil,
      )
      (ap some (ap₂ (λ u v. u ∷ v ∷ []) (omega arith) (omega arith)))
decode_loop-encode_loop (suc (suc fuel)) (a ∷ b ∷ c ∷ rest) w x y z h f =
    let i : a / 4 < 64 = omega arith in
    let j : a % 4 * 16 + b / 16 < 64 = omega arith in
    let k : b % 16 * 4 + c / 64 < 64 = omega arith in
    let l : c % 64 < 64 = omega arith in
    let (d, s, e) = encode_loop-cons rest in
    let ih = rw e at (
      decode_loop-encode_loop (suc fuel) rest (a / 4) (a % 4 * 16 + b / 16) (b % 16 * 4 + c / 64)
        (c % 64) h.1.1.1 (omega arith)) in
    rw
      (
        encode_three a b c h.0 h.1.0 h.1.1.0,
        e,
        decode_loop_step,
        read_block_full _ _ _ _ d w x y z s i j k l,
        decode_block_three _ _ _ _ i j k l,
        ih,
      )
      (ap some (bytes_back a b c rest h.0 h.1.0 h.1.1.0))

take_all : (s : List ℕ) (n : ℕ) → length s ≤ n → take n s ≡ s
take_all [] zero h = refl
take_all [] (suc n) h = refl
take_all (c ∷ s) zero h = absurd (omega arith)
take_all (c ∷ s) (suc n) h = ap (λ r. c ∷ r) (take_all s n (omega arith))

pub length-encode_loop : (bs : List ℕ) → length (encode_loop bs) ≡ (length bs + 2) / 3 * 4 + 1
unfolding encode_loop encode_block
length-encode_loop [] = refl
length-encode_loop (a ∷ []) = refl
length-encode_loop (a ∷ b ∷ []) = refl
length-encode_loop (a ∷ b ∷ c ∷ rest) = omega (arith, length-encode_loop rest)

-- When neither call of the allocator fails, `jf_encode_decodeBase64` on the string that
-- `jf_encode_encodeBase64` stores for a buffer of at least one and less than 2^29 - 2 bytes ends and
-- gives back exactly that buffer, whatever the uninitialised array `in[4]` holds.
pub decode_base64-encode_base64 :
    (bs : List ℕ) (w x y z : ℕ)
    → AreBytes bs
    → 0 < length bs
    → length bs + 2 < 2 ^ 29
    → (s : List ℕ) × (encode_base64 Err.no_error bs ≡ some (ok s))
      × (decode_base64 Err.no_error (w ∷ x ∷ y ∷ z ∷ []) s ≡ some (ok (some bs)))
unfolding encode_base64 decode_base64
decode_base64-encode_base64 bs w x y z h pos small =
    let s = encode_loop bs in
    let fits = strlen-encode_loop bs h in
    let n = length-encode_loop bs in
    let inside : (length bs == 0 || not (in_olsize (length bs * 4))) ≡ false =
      ground (arith, pos, small) in
    let inside' : (strlen s == 0 || not (in_olsize (strlen s * 3))) ≡ false =
      ground (arith, pos, small, n, fits) in
    (
      s,
      rw inside refl,
      rw (inside', take_all s (strlen s + 1) (omega (arith, fits)))
          (ap (λ r. some (ok r)) (decode_loop-encode_loop _ bs w x y z h (omega (arith, n)))),
    )

-- The string that `jf_encode_encodeBase64` writes, its NUL included, fits the memory it asks for.
pub encode_loop_fits : (bs : List ℕ) → length (encode_loop bs) ≤ encode_size (length bs)
encode_loop_fits bs = omega (arith, length-encode_loop bs)
