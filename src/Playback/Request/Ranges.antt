-- ===== src/Playback/Request/Ranges.antt =====
-- A printed range is read back.
use download_wrapper.Base.{ℕ, ◌≤◌, ◌≡◌, refl, ◌∙◌, false, some, [], ◌∷◌, ◌++◌}
use download_wrapper.Base.Int.{ℤ, pos}
use download_wrapper.Text.{
  Text, codes, is_empty, after_prefix, cut, from_chars, to_string, int64_max,
}
use download_wrapper.Text.Decimal.{
  from_chars-to_string, to_string-IsDigits, to_string-is_empty, cut-IsDigits,
}
use download_wrapper.Playback.Request.{range_end_of, parse_range, parse_range_header}

range_end_of_lem : (s : Text) → is_empty s ≡ false → range_end_of s ≡ from_chars int64_max s
unfolding range_end_of
range_end_of_lem [] h = absurd (cc)
range_end_of_lem (c ∷ s) h = refl

parse_range_lem :
    (spec first last : Text) (a b : ℤ)
    → cut b'-' spec ≡ some (first, last)
    → is_empty first ≡ false
    → from_chars int64_max first ≡ some a
    → range_end_of last ≡ some b
    → parse_range spec ≡ some (a, b)
unfolding parse_range
parse_range_lem spec first last a b h k l m = rw (h, k, l, m) refl

parse_header_lem : (spec : Text) → parse_range_header (codes "bytes=" ++ spec) ≡ parse_range spec
unfolding parse_range_header after_prefix
parse_header_lem spec = refl

pub parse_range-to_string :
    (a b : ℕ)
    → a ≤ int64_max
    → b ≤ int64_max
    → parse_range (to_string (pos a) ++ (b'-' ∷ to_string (pos b))) ≡ some (pos a, pos b)
parse_range-to_string a b h k =
    parse_range_lem _ (to_string (pos a)) (to_string (pos b)) (pos a) (pos b)
      (cut-IsDigits (to_string (pos a)) (to_string (pos b)) (to_string-IsDigits a))
      (to_string-is_empty a) (from_chars-to_string int64_max a h)
      (range_end_of_lem (to_string (pos b)) (to_string-is_empty b)
        ∙ from_chars-to_string int64_max b k)

-- The header of a request for the bytes from `a` to `b` is read as exactly that range, up to the
-- greatest 64-bit number.
pub parse_range_header-to_string :
    (a b : ℕ)
    → a ≤ int64_max
    → b ≤ int64_max
    → parse_range_header (codes "bytes=" ++ to_string (pos a) ++ (b'-' ∷ to_string (pos b)))
      ≡ some (pos a, pos b)
parse_range_header-to_string a b h k =
    parse_header_lem (to_string (pos a) ++ (b'-' ∷ to_string (pos b)))
    ∙ parse_range-to_string a b h k
