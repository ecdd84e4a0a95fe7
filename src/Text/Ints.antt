-- ===== src/Text/Ints.antt =====
-- `join_ints` and `split_ints` of src/utils/string_util.cpp, and that a list of indices is read back
-- as it was written.
use mathlib.Core.List.{append_assoc, append-nil}
use download_wrapper.Base.{
  ℕ, ◌≤◌, ◌≡◌, refl, sym, ap, ◌∙◌, false, none, some, List, [], ◌∷◌, ◌++◌, All, ◌==◌, if◌then◌else◌,
  arith,
}
use download_wrapper.Base.Int.{ℤ, pos, negsuc, ◌≤ℤ◌}
use download_wrapper.Text.{Text, is_empty, from_chars, to_string, int32_max}
use download_wrapper.Text.Decimal.{
  IsDigits, to_string-IsDigits, to_string-is_empty, from_chars-to_string,
}

unfoldable pub join_ints : List ℤ → Text
unfolding to_string
join_ints [] = []
join_ints (n ∷ []) = to_string n
join_ints (n ∷ m ∷ rest) = to_string n ++ (b',' ∷ join_ints (m ∷ rest))

-- The number between two commas; an empty text, and one that is no number, is passed over.
unfoldable pub put_token : Text → List ℤ → List ℤ
unfolding from_chars
put_token [] rest = rest
put_token (c ∷ s) rest = elim (from_chars int32_max (c ∷ s)) [ none ↦ rest | some n ↦ n ∷ rest ]

-- The loop, with what stands between `start` and `cur`.
unfoldable pub split_from : Text → Text → List ℤ
unfolding put_token
split_from token [] = put_token token []
split_from token (c ∷ s) =
    let next = put_token token (split_from [] s) in
    let more = split_from (token ++ (c ∷ [])) s in if c == b',' then next else more

unfoldable pub split_ints : Text → List ℤ
unfolding split_from
split_ints s = split_from [] s

-- A file index.
abbrev pub IsIndex : ℤ → Type 0
IsIndex n = (pos 0 ≤ℤ n) × (n ≤ℤ pos int32_max)

split_from-IsDigits :
    (token ds s : Text) → IsDigits ds → split_from token (ds ++ s) ≡ split_from (token ++ ds) s
unfolding split_from
split_from-IsDigits token [] s h = ap (λ t. split_from t s) (sym (append-nil token))
split_from-IsDigits token (d ∷ ds) s h =
    let other : (d == b',') ≡ false = ground (arith, h.0) in
    rw other (
      split_from-IsDigits (token ++ (d ∷ [])) ds s h.1
      ∙ ap (λ t. split_from t s) (append_assoc token (d ∷ []) ds))

put_token-some :
    (s : Text) (n : ℤ) (rest : List ℤ)
    → is_empty s ≡ false
    → from_chars int32_max s ≡ some n
    → put_token s rest ≡ n ∷ rest
unfolding put_token
put_token-some [] n rest h e = absurd (cc)
put_token-some (c ∷ s) n rest h e = rw (e, put_token) refl

put_token-to_string :
    (n : ℕ) (rest : List ℤ) → n ≤ int32_max → put_token (to_string (pos n)) rest ≡ pos n ∷ rest
put_token-to_string n rest h =
    put_token-some (to_string (pos n)) (pos n) rest (to_string-is_empty n)
      (from_chars-to_string int32_max n h)

split_from-nil : (token : Text) → split_from token [] ≡ put_token token []
unfolding split_from
split_from-nil token = refl

split_from-comma :
    (token s : Text) → split_from token (b',' ∷ s) ≡ put_token token (split_from [] s)
unfolding split_from
split_from-comma token s = refl

-- A list of file indices is read back as it was written.
pub split_ints-join_ints : (ns : List ℤ) → All IsIndex ns → split_ints (join_ints ns) ≡ ns
unfolding join_ints split_ints
split_ints-join_ints [] h = split_from-nil [] ∙ unfold put_token in refl
split_ints-join_ints (negsuc k ∷ rest) h = absurd (omega (arith, h.0.0))
split_ints-join_ints (pos n ∷ []) h =
    ap (λ t. split_from [] t) (sym (append-nil (to_string (pos n))))
    ∙ split_from-IsDigits [] (to_string (pos n)) [] (to_string-IsDigits n)
    ∙ split_from-nil (to_string (pos n))
    ∙ put_token-to_string n [] (omega (arith, h.0.1))
split_ints-join_ints (pos n ∷ m ∷ rest) h =
    split_from-IsDigits [] (to_string (pos n)) (b',' ∷ join_ints (m ∷ rest)) (to_string-IsDigits n)
    ∙ split_from-comma (to_string (pos n)) (join_ints (m ∷ rest))
    ∙ put_token-to_string n (split_ints (join_ints (m ∷ rest))) (omega (arith, h.0.1))
    ∙ ap (λ ns. pos n ∷ ns) (split_ints-join_ints (m ∷ rest) h.1)
