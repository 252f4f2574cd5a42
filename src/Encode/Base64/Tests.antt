-- ===== src/Encode/Base64/Tests.antt =====
-- Runs of encode/base64.c, and its theorems at concrete buffers.
use jiufeng.Prelude.{ℕ, ◌+◌, ◌≤◌, ◌≡◌, refl, none, some, List, [], ◌∷◌, ◌++◌, arith, length}
use jiufeng.Jiutai.Err.{Err, ok}
use jiufeng.Encode.Base64.{
  codes, encode_loop, encode_base64, strlen, decode_base64, decode_loop, read_block, read_value,
  next_value, decode_char, decode_block, encode_block, base64_char, decode_size,
}
use jiufeng.Encode.Base64.RoundTrip.{decode_base64-encode_base64}
use jiufeng.Encode.Base64.Bounds.{decode_base64_total}

abbrev man_m : List ℕ
man_m = codes "ManM"

encode_man_m : encode_loop man_m ≡ codes "TWFuTQ==" ++ (0 ∷ [])
unfolding encode_loop encode_block base64_char
encode_man_m = refl

-- Characters outside the alphabet are skipped.
decode_spaced :
    decode_base64 Err.no_error (9 ∷ 9 ∷ 9 ∷ 9 ∷ []) (codes "TW Fu\nTQ==" ++ (0 ∷ []))
    ≡ some (ok (some man_m))
unfolding decode_base64 decode_loop read_block read_value next_value decode_char decode_block strlen
decode_spaced = refl

decode_base64-encode_base64_example :
    (s : List ℕ) × (encode_base64 Err.no_error man_m ≡ some (ok s))
    × (decode_base64 Err.no_error (1 ∷ 2 ∷ 3 ∷ 4 ∷ []) s ≡ some (ok (some man_m)))
decode_base64-encode_base64_example =
    decode_base64-encode_base64 man_m 1 2 3 4 (omega arith) (omega arith) (omega arith)

decode_base64_total_example :
    (out : List ℕ) × (decode_base64 Err.no_error (1 ∷ 2 ∷ 3 ∷ 4 ∷ []) (codes "TWFuTQ==" ++ (0 ∷ []))
      ≡ some (ok (some out)))
    × (length out + 3 ≤ decode_size (strlen (codes "TWFuTQ==" ++ (0 ∷ []))))
decode_base64_total_example =
    decode_base64_total (1 ∷ 2 ∷ 3 ∷ 4 ∷ []) (codes "TWFuTQ==" ++ (0 ∷ []))
      (unfold strlen in omega arith) (unfold strlen in omega arith)

-- The assertions on empty inputs.
empty_input : encode_base64 Err.no_error [] ≡ none
unfolding encode_base64
empty_input = refl

empty_string : decode_base64 Err.no_error (1 ∷ 2 ∷ 3 ∷ 4 ∷ []) (0 ∷ []) ≡ none
unfolding decode_base64 strlen
empty_string = refl
