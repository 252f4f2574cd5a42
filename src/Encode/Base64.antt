-- ===== src/Encode/Base64.antt =====
-- encode/base64.c: Base64 encoding and decoding of byte buffers.
-- A buffer is the list of its bytes; a C string is such a list with its NUL.
pub mod Bits
pub mod Blocks
pub mod RoundTrip
pub mod Bounds
mod Tests
use Prim.Native.Nat.{bit_and, bit_or}
use Prim.Native.Char.{code}
use Prim.Native.String.{String}
use mathlib.Core.Option
use jiufeng.Prelude.{
  Option, none, some, ℕ, zero, suc, ◌+◌, ◌-◌, ◌*◌, ◌/◌, ◌%◌, ◌^◌, Bool, ◌||◌, not, List, [], ◌∷◌,
  ◌++◌, ltb, ◌==◌, if◌then◌else◌, length, get_or, set, take,
}
use jiufeng.Jiutai.Err.{Err, Result, on_alloc}

-- The bytes of an ASCII text.
abbrev pub codes : String → List ℕ
codes String.[] = []
codes (String.◌∷◌ c s) = code c ∷ codes s

-- `ls_cBase64`
abbrev pub base64_chars : List ℕ
base64_chars = codes "ABCDEFGHIJKLMNOPQRSTUVWXYZabcdefghijklmnopqrstuvwxyz0123456789+/"

-- `ls_cDecode`
abbrev pub decode_chars : List ℕ
decode_chars =
    codes "|$$$}rstuvwxyz{$$$$$$$>?@ABCDEFGHIJKLMNOPQRSTUVW$$$$$$XYZ[\\]^_`abcdefghijklmnopq"

-- A cast to `u8`.
abbrev pub to_u8 : ℕ → ℕ
to_u8 x = x % 2 ^ 8

-- `x >> k` and `x << k`
abbrev pub shr : ℕ → ℕ → ℕ
shr x k = x / 2 ^ k

abbrev pub shl : ℕ → ℕ → ℕ
shl x k = x * 2 ^ k

-- `ls_cBase64[i]`
pub base64_char : ℕ → ℕ
base64_char i = get_or base64_chars i 0

-- `_encodeBlock`: `len` of the bytes `a b c` are input.
pub encode_block : ℕ → ℕ → ℕ → ℕ → List ℕ
encode_block len a b c =
    let pad : ℕ = b'=' in
    let first = base64_char (shr a 2) in
    let second = base64_char (bit_or (shl (bit_and a 0x03) 4) (shr (bit_and b 0xf0) 4)) in
    if len == 1
    then first ∷ base64_char (shl (bit_and a 0x03) 4) ∷ pad ∷ pad ∷ []
    else if len == 2
    then first ∷ second ∷ base64_char (shl (bit_and b 0x0f) 2) ∷ pad ∷ []
    else if len == 3
    then first
      ∷ second
      ∷ base64_char (bit_or (shl (bit_and b 0x0f) 2) (shr (bit_and c 0xc0) 6))
      ∷ base64_char (bit_and c 0x3f)
      ∷ []
    else pad ∷ pad ∷ pad ∷ pad ∷ []

-- The `while (slen > 0)` loop of `jf_encode_encodeBase64` over the input that is left. The last
-- block takes 1, 2 or 3 bytes; then `slen` is at most 0, and the NUL is added.
pub encode_loop : List ℕ → List ℕ
encode_loop [] = 0 ∷ []
encode_loop (a ∷ []) = encode_block 1 a 0 0 ++ (0 ∷ [])
encode_loop (a ∷ b ∷ []) = encode_block 2 a b 0 ++ (0 ∷ [])
encode_loop (a ∷ b ∷ c ∷ rest) = encode_block 3 a b c ++ encode_loop rest

-- The sizes that both functions ask of the allocator, from a product in `olsize_t`, a signed 32-bit
-- integer.
abbrev pub encode_size : ℕ → ℕ
encode_size n = n * 4 / 3 + 6

abbrev pub decode_size : ℕ → ℕ
decode_size n = n * 3 / 4 + 6

-- An `olsize_t` that is not negative.
abbrev pub in_olsize : ℕ → Bool
in_olsize n = ltb n (2 ^ 31)

-- `jf_encode_encodeBase64`: the string that it stores at `*ppstrOutput`; `alloc` is the code of
-- its call of jf_jiukun_allocMemory. `none` is its assertion on an empty input, or a product that
-- overflows.
pub encode_base64 : Err → List ℕ → Option (Result (List ℕ))
encode_base64 alloc input =
    if length input == 0 || not (in_olsize (length input * 4))
    then none
    else some (on_alloc alloc (encode_loop input))

-- `ol_strlen`: the bytes before the first NUL.
pub strlen : List ℕ → ℕ
strlen [] = 0
strlen (c ∷ s) = if c == 0 then 0 else suc (strlen s)

-- `_decodeBlock`
pub decode_block : List ℕ → List ℕ
decode_block input =
    let at = λ (i : ℕ). get_or input i 0 in
    to_u8 (bit_or (shl (at 0) 2) (shr (at 1) 4))
    ∷ to_u8 (bit_or (shl (at 1) 4) (shr (at 2) 2))
    ∷ to_u8 (bit_or (bit_and (shl (at 2) 6) 0xc0) (at 3))
    ∷ []

-- The value of one character: 0 for one to be skipped, else 1 more than its 6 bits.
pub decode_char : ℕ → ℕ
decode_char c =
    let v = if ltb c 0x2B || ltb 0x7A c then 0 else get_or decode_chars (c - 0x2B) 0 in
    if not (v == 0) then (if v == b'$' then 0 else v - 0x3D) else v

-- The inner `while`: the next character that has a value, over the characters up to the NUL that
-- are not read yet. The string is at its end, `input > pstrInput + sInput`, at the empty list.
pub next_value : List ℕ → ℕ × List ℕ
next_value [] = (0, [])
next_value (c ∷ rest) =
    let more = next_value rest in let v = decode_char c in if v == 0 then more else (v, rest)

-- The state of the `for` loop: `in[4]`, `len`, and the characters left.
pub record Block : Type 0 where
  pub input : List ℕ
  pub len : ℕ
  pub rest : List ℕ

abbrev pub is_nil {ℓ} : {A : Type ℓ} → List A → Bool
is_nil [] = Bool.true
is_nil (x ∷ xs) = Bool.false

-- One round of the `for` loop at index `i`.
pub read_value : ℕ → Block → Block
read_value i b =
    let (v, rest) = next_value b.rest in
    if not (is_nil rest)
    then record {
      input = if not (v == 0) then set b.input i (to_u8 (v - 1)) else b.input;
      len = b.len + 1;
      rest = rest;
    }
    else record { input = set b.input i 0; len = b.len; rest = rest }

-- The `for` loop with `n` rounds to `i == 4`.
pub read_block : ℕ → ℕ → Block → Block
read_block zero i b = b
read_block (suc n) i b =
    let more = read_block n (i + 1) (read_value i b) in if is_nil b.rest then b else more

-- What follows the `for` loop: the bytes that `out` is moved over.
abbrev pub block_bytes : Block → List ℕ
block_bytes b = if not (b.len == 0) then take (b.len - 1) (decode_block b.input) else []

-- The outer `while` on fuel, `none` if it runs out. `in[4]` keeps its bytes from block to block.
-- The result is the bytes from `*ppu8Output` up to the final `out`.
pub decode_loop : ℕ → List ℕ → List ℕ → Option (List ℕ)
decode_loop zero input rest = none
decode_loop (suc fuel) input rest =
    let b = read_block 4 0 (record { input = input; len = 0; rest = rest }) in
    let more = Option.map (λ out. block_bytes b ++ out) (decode_loop fuel b.input b.rest) in
    if is_nil rest then some [] else more

-- `jf_encode_decodeBase64`: `garbage` is what the uninitialised array `in[4]` holds, `s` the string
-- with its NUL. Each block takes at least one character, so the fuel is enough. The outer `none` is
-- its assertion on an empty string, or a product that overflows.
pub decode_base64 : Err → List ℕ → List ℕ → Option (Result (Option (List ℕ)))
decode_base64 alloc garbage s =
    let chars = take (strlen s + 1) s in
    if strlen s == 0 || not (in_olsize (strlen s * 3))
    then none
    else some (on_alloc alloc (decode_loop (length chars + 1) garbage chars))
