-- ===== src/Text/Decimal.antt =====
-- A number is read back as it was printed.
use download_wrapper.Base.{
  ℕ, zero, suc, ◌+◌, ◌-◌, ◌*◌, ◌/◌, ◌%◌, ◌≤◌, ◌<◌, ◌≡◌, refl, ap, ◌∙◌, inl, inr, true, false,
  Bool-cases, some, [], ◌∷◌, ◌++◌, All, ltb, ◌==◌, arith,
}
use download_wrapper.Base.Int.{pos}
use download_wrapper.Text.{
  Text, is_digit, is_empty, digits, digits_from, from_chars, to_string, cut,
}

abbrev pub IsDigits : Text → Type 0
IsDigits s = All (λ c. is_digit c ≡ true) s

low_digit : (n : ℕ) → n < 10 → is_digit (n + 48) ≡ true
low_digit n h = ground arith

digits-IsDigits : (fuel n : ℕ) (rest : Text) → IsDigits rest → IsDigits (digits fuel n rest)
unfolding digits
digits-IsDigits zero n rest h = h
digits-IsDigits (suc fuel) n rest h = elim (Bool-cases (ltb n 10)) [
  | inl e ↦ rw e (low_digit n (ground arith), h)
  | inr e ↦
      rw e
        (digits-IsDigits fuel (n / 10) ((n % 10 + 48) ∷ rest) (low_digit (n % 10) (omega arith), h))
]

digits-is_empty :
    (fuel n : ℕ) (rest : Text) → is_empty rest ≡ false → is_empty (digits fuel n rest) ≡ false
unfolding digits
digits-is_empty zero n rest h = h
digits-is_empty (suc fuel) n rest h = elim (Bool-cases (ltb n 10)) [
  | inl e ↦ rw e refl
  | inr e ↦ rw e (digits-is_empty fuel (n / 10) ((n % 10 + 48) ∷ rest) refl)
]

first-is_empty : (fuel n : ℕ) (rest : Text) → is_empty (digits (suc fuel) n rest) ≡ false
unfolding digits
first-is_empty fuel n rest = elim (Bool-cases (ltb n 10)) [
  | inl e ↦ rw e refl
  | inr e ↦ rw e (digits-is_empty fuel (n / 10) ((n % 10 + 48) ∷ rest) refl)
]

digits_from_step :
    (acc d : ℕ) (rest : Text)
    → d < 10
    → digits_from acc ((d + 48) ∷ rest) ≡ digits_from (acc * 10 + d) rest
unfolding digits_from
digits_from_step acc d rest h =
    let back : d + 48 - 48 ≡ d = omega arith in rw (low_digit d h, back) refl

digits_from-digits :
    (fuel n : ℕ) (rest : Text) → n < fuel → digits_from 0 (digits fuel n rest) ≡ digits_from n rest
unfolding digits
digits_from-digits zero n rest h = absurd (omega arith)
digits_from-digits (suc fuel) n rest h = elim (Bool-cases (ltb n 10)) [
  | inl e ↦
      rw e (digits_from_step 0 n rest (ground arith) ∙ ap (λ m. digits_from m rest) (omega arith))
  | inr e ↦
      let big : 10 ≤ n = ground arith in
      rw e (
        digits_from-digits fuel (n / 10) ((n % 10 + 48) ∷ rest) (omega arith)
        ∙ digits_from_step (n / 10) (n % 10) rest (omega arith)
        ∙ ap (λ m. digits_from m rest) (omega arith))
]

from_chars-IsDigits :
    (limit : ℕ) (s : Text)
    → IsDigits s
    → is_empty s ≡ false
    → digits_from 0 s ≤ limit
    → from_chars limit s ≡ some (pos (digits_from 0 s))
unfolding from_chars
from_chars-IsDigits limit [] h k l = absurd (cc)
from_chars-IsDigits limit (c ∷ s) h k l = ground (arith, h.0)

pub cut-IsDigits : (s t : Text) → IsDigits s → cut b'-' (s ++ (b'-' ∷ t)) ≡ some (s, t)
unfolding cut
cut-IsDigits [] t h = refl
cut-IsDigits (c ∷ s) t h =
    let other : (c == b'-') ≡ false = ground (arith, h.0) in rw (other, cut-IsDigits s t h.1) refl

pub to_string-IsDigits : (n : ℕ) → IsDigits (to_string (pos n))
unfolding to_string
to_string-IsDigits n = digits-IsDigits (suc n) n [] tt

pub to_string-is_empty : (n : ℕ) → is_empty (to_string (pos n)) ≡ false
unfolding to_string
to_string-is_empty n = first-is_empty n n []

digits_from_nil : (n : ℕ) → digits_from n [] ≡ n
unfolding digits_from
digits_from_nil n = refl

digits_from-to_string : (n : ℕ) → digits_from 0 (to_string (pos n)) ≡ n
unfolding to_string
digits_from-to_string n = digits_from-digits (suc n) n [] (omega arith) ∙ digits_from_nil n

-- A number up to the limit is read back as it was printed.
pub from_chars-to_string :
    (limit n : ℕ) → n ≤ limit → from_chars limit (to_string (pos n)) ≡ some (pos n)
from_chars-to_string limit n h =
    from_chars-IsDigits limit (to_string (pos n)) (to_string-IsDigits n) (to_string-is_empty n)
      (omega (arith, digits_from-to_string n))
    ∙ ap (λ m. some (pos m)) (digits_from-to_string n)
