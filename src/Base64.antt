-- ===== src/Base64.antt =====
-- src/utils/base64_util.cpp: bytes are numbers below 256, and a disjunction of shifted bytes is their
-- sum.
pub mod Decoded
mod Tests
use download_wrapper.Base.{
  ℕ, suc, ◌+◌, ◌-◌, ◌*◌, ◌/◌, ◌%◌, ◌^◌, Bool, true, false, ◌||◌, Option, none, some, List, [], ◌∷◌,
  ◌++◌, ◌==◌, leb, get_or, if◌then◌else◌,
}
use download_wrapper.Text.{Text, codes}

-- `kAlphabet` and `kUrlAlphabet`
unfoldable pub standard : Text
standard = codes "ABCDEFGHIJKLMNOPQRSTUVWXYZabcdefghijklmnopqrstuvwxyz0123456789+/"

unfoldable pub url_safe : Text
url_safe = codes "ABCDEFGHIJKLMNOPQRSTUVWXYZabcdefghijklmnopqrstuvwxyz0123456789-_"

-- `build_decode_table`: the place of a character in the alphabet; a later place overrides.
unfoldable pub value_from : ℕ → Text → ℕ → Option ℕ
value_from i [] c = none
value_from i (d ∷ ds) c = elim (value_from (suc i) ds c) [
  | some v ↦ some v
  | none ↦ if d == c then some i else none
]

abbrev pub letter : Text → ℕ → ℕ
letter alphabet v = get_or alphabet v 0

-- `encode_impl`
unfoldable pub encode : Text → Bool → List ℕ → Text
encode alphabet pad [] = []
encode alphabet pad (a ∷ []) =
    let n = a * 2 ^ 16 in
    letter alphabet (n / 2 ^ 18 % 64)
    ∷ letter alphabet (n / 2 ^ 12 % 64)
    ∷ (if pad then b'=' ∷ b'=' ∷ [] else [])
encode alphabet pad (a ∷ b ∷ []) =
    let n = a * 2 ^ 16 + b * 2 ^ 8 in
    letter alphabet (n / 2 ^ 18 % 64)
    ∷ letter alphabet (n / 2 ^ 12 % 64)
    ∷ letter alphabet (n / 2 ^ 6 % 64)
    ∷ (if pad then b'=' ∷ [] else [])
encode alphabet pad (a ∷ b ∷ c ∷ rest) =
    let n = a * 2 ^ 16 + b * 2 ^ 8 + c in
    letter alphabet (n / 2 ^ 18 % 64)
    ∷ letter alphabet (n / 2 ^ 12 % 64)
    ∷ letter alphabet (n / 2 ^ 6 % 64)
    ∷ letter alphabet (n % 64)
    ∷ encode alphabet pad rest

-- Padding and white space are passed over.
abbrev pub is_skipped : ℕ → Bool
is_skipped c = c == b'=' || c == 10 || c == 13 || c == b' '

abbrev pub shifted : ℕ → ℕ → ℕ
shifted accum v = (accum * 2 ^ 6 + v) % 2 ^ 32

-- A byte is put out when there are eight bits.
abbrev pub put_out : ℕ → ℕ → Option (List ℕ) → Option (List ℕ)
put_out accum bits none = none
put_out accum bits (some out) =
    some (if leb 8 (bits + 6) then accum / 2 ^ (bits + 6 - 8) % 256 ∷ out else out)

-- The loop of `decode_impl` with `accum` and `bits`; `none` is a character that is not in the alphabet.
unfoldable pub decode_from : Text → ℕ → ℕ → Text → Option (List ℕ)
unfolding value_from
decode_from alphabet accum bits [] = some []
decode_from alphabet accum bits (c ∷ s) = elim (is_skipped c) [
  | true ↦ decode_from alphabet accum bits s
  | false ↦ elim (value_from 0 alphabet c) [
    | none ↦ none
    | some v ↦ put_out (shifted accum v) bits (
        decode_from alphabet (shifted accum v) (if leb 8 (bits + 6) then bits + 6 - 8 else bits + 6)
          s)
  ]
]

-- `decode_impl`: nothing where a character is not in the alphabet
abbrev pub or_nothing : Option (List ℕ) → List ℕ
or_nothing none = []
or_nothing (some out) = out

unfoldable pub decode : Text → Text → List ℕ
unfolding decode_from
decode alphabet s = or_nothing (decode_from alphabet 0 0 s)

unfoldable pub base64_encode : List ℕ → Text
unfolding encode standard
base64_encode bytes = encode standard true bytes

unfoldable pub base64_decode : Text → List ℕ
unfolding decode standard
base64_decode s = decode standard s

unfoldable pub base64url_encode : List ℕ → Text
unfolding encode url_safe
base64url_encode bytes = encode url_safe false bytes

unfoldable pub base64url_decode : Text → List ℕ
unfolding decode url_safe
base64url_decode s = decode url_safe s
