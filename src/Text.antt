-- ===== src/Text.antt =====
-- Texts as lists of bytes: the parts of `std::string_view` and of src/utils/string_util.cpp that
-- the other modules use.
pub mod Decimal
pub mod Ints
use Prim.Native.Char.{code}
use Prim.Native.String.{String}
use download_wrapper.Base.{
  ℕ, zero, suc, ltb, ◌+◌, ◌-◌, ◌*◌, ◌/◌, ◌%◌, Bool, true, false, ◌&&◌, ◌||◌, Option, none, some,
  List, [], ◌∷◌, leb, ◌==◌, if◌then◌else◌,
}
use download_wrapper.Base.Int.{ℤ, pos, negsuc, sub_ℕ}

abbrev pub Text : Type 0
Text = List ℕ

-- A literal of the source as bytes (all of them are ASCII).
abbrev pub codes : String → Text
codes String.[] = []
codes (String.◌∷◌ c s) = code c ∷ codes s

-- A literal of the source in UTF-8, its encoding; no code point of it needs four bytes.
unfoldable pub utf8 : String → Text
utf8 String.[] = []
utf8 (String.◌∷◌ c s) =
    let n = code c in
    let rest = utf8 s in
    if ltb n 128
    then n ∷ rest
    else if ltb n 2048
    then (192 + n / 64) ∷ (128 + n % 64) ∷ rest
    else (224 + n / 4096) ∷ (128 + n / 64 % 64) ∷ (128 + n % 64) ∷ rest

abbrev pub is_empty : Text → Bool
is_empty [] = true
is_empty (c ∷ s) = false

-- `a == b`
unfoldable pub text_eq : Text → Text → Bool
text_eq [] [] = true
text_eq [] (d ∷ t) = false
text_eq (c ∷ s) [] = false
text_eq (c ∷ s) (d ∷ t) = c == d && text_eq s t

-- `std::tolower` in the C locale
abbrev pub to_lower : ℕ → ℕ
to_lower c = if leb b'A' c && leb c b'Z' then c + 32 else c

-- `iequals`
unfoldable pub iequals : Text → Text → Bool
iequals [] [] = true
iequals [] (d ∷ t) = false
iequals (c ∷ s) [] = false
iequals (c ∷ s) (d ∷ t) = to_lower c == to_lower d && iequals s t

-- `s.starts_with(p)`, with the rest behind the prefix
unfoldable pub after_prefix : Text → Text → Option Text
after_prefix [] s = some s
after_prefix (c ∷ p) [] = none
after_prefix (c ∷ p) (d ∷ s) = if c == d then after_prefix p s else none

-- `s.find(p)` and `s.substr(pos + p.size())`
unfoldable pub after_first : Text → Text → Option Text
after_first p [] = after_prefix p []
after_first p (c ∷ s) = elim (after_prefix p (c ∷ s)) [
  | some rest ↦ some rest
  | none ↦ after_first p s
]

-- `s.find(c)`, as what stands before and behind the first `c`
unfoldable pub cut : ℕ → Text → Option (Text × Text)
cut c [] = none
cut c (d ∷ s) =
    if d == c
    then some ([], s)
    else elim (cut c s) [ none ↦ none | some (before, behind) ↦ some (d ∷ before, behind) ]

-- The white space of `trim_view`
abbrev pub is_space : ℕ → Bool
is_space c = c == b' ' || c == 9 || c == 13 || c == 10 || c == 11 || c == 12

unfoldable pub trim_left : Text → Text
trim_left [] = []
trim_left (c ∷ s) = if is_space c then trim_left s else c ∷ s

-- Drops a tail that is all white space.
unfoldable pub trim_right : Text → Text
trim_right [] = []
trim_right (c ∷ s) = elim (trim_right s) [
  | [] ↦ if is_space c then [] else c ∷ []
  | d ∷ t ↦ c ∷ d ∷ t
]

-- `trim_view`
unfoldable pub trim_view : Text → Text
unfolding trim_left trim_right
trim_view s = trim_right (trim_left s)

abbrev pub is_digit : ℕ → Bool
is_digit c = leb b'0' c && leb c b'9'

-- The number at the head of a text, and whether there was a digit.
unfoldable pub digits_from : ℕ → Text → ℕ
digits_from acc [] = acc
digits_from acc (c ∷ s) =
    let more = digits_from (acc * 10 + (c - 48)) s in if is_digit c then more else acc

abbrev starts_with_digit : Text → Bool
starts_with_digit [] = false
starts_with_digit (c ∷ s) = is_digit c

-- `std::from_chars` into a signed integer of `limit` as its greatest value: an optional minus sign
-- and digits; `none` is an error code. What follows the digits is not looked at.
unfoldable pub from_chars : ℕ → Text → Option ℤ
unfolding digits_from
from_chars limit [] = none
from_chars limit (c ∷ s) =
    if c == b'-'
    then if starts_with_digit s && leb (digits_from 0 s) (limit + 1)
      then some (sub_ℕ 0 (digits_from 0 s))
      else none
    else if is_digit c && leb (digits_from 0 (c ∷ s)) limit
    then some (pos (digits_from 0 (c ∷ s)))
    else none

-- `sv_to_int`
unfoldable pub sv_to_int : ℕ → Text → Option ℤ
unfolding trim_view from_chars
sv_to_int limit s = from_chars limit (trim_view s)

abbrev pub int32_max : ℕ
int32_max = 2147483647

abbrev pub int64_max : ℕ
int64_max = 9223372036854775807

-- `std::to_string`, on fuel for the digits: a number has fewer digits than its successor counts.
unfoldable pub digits : ℕ → ℕ → Text → Text
digits zero n rest = rest
digits (suc fuel) n rest =
    let more = digits fuel (n / 10) ((n % 10 + 48) ∷ rest) in
    if ltb n 10 then (n + 48) ∷ rest else more

unfoldable pub to_string : ℤ → Text
unfolding digits
to_string (pos n) = digits (suc n) n []
to_string (negsuc n) = b'-' ∷ digits (suc (suc n)) (suc n) []
