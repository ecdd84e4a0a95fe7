-- ===== src/Base64/Decoded.antt =====
-- What is encoded is decoded to the same bytes.
use download_wrapper.Base.{
  ℕ, zero, suc, ◌+◌, ◌-◌, ◌*◌, ◌/◌, ◌%◌, ◌^◌, ◌<◌, ◌≡◌, refl, ap, ap₂, ◌∙◌, Bool, true, false, ◌&&◌,
  not, Option, none, some, List, [], ◌∷◌, All, ◌==◌, leb, if◌then◌else◌, arith,
}
use download_wrapper.Text.{Text}
use download_wrapper.Base64.{
  standard, url_safe, value_from, letter, encode, is_skipped, shifted, put_out, decode_from,
  or_nothing, decode, base64_encode, base64_decode, base64url_encode, base64url_decode,
}

-- A property of letters by place, tried at the places before `k`.
tried : (ℕ → Bool) → ℕ → Bool
tried reading zero = true
tried reading (suc k) = tried reading k && reading k

reading_of_tried :
    (reading : ℕ → Bool) (k v : ℕ) → v < k → tried reading k ≡ true → reading v ≡ true
unfolding tried
reading_of_tried reading zero v below e = elim below [ ]
reading_of_tried reading (suc k) v below e = ground (arith, reading_of_tried reading k v)

abbrev is_some_of : ℕ → Option ℕ → Bool
is_some_of v none = false
is_some_of v (some w) = v == w

is_some_of_sound : (v : ℕ) (o : Option ℕ) → is_some_of v o ≡ true → o ≡ some v
is_some_of_sound v none h = cc
is_some_of_sound v (some w) h = ground arith

-- Every letter of an alphabet has its place as value, and is not passed over.
abbrev reads : Text → ℕ → Bool
reads alphabet v =
    not (is_skipped (letter alphabet v)) && is_some_of v (value_from 0 alphabet (letter alphabet v))

pub record IsAlphabet (alphabet : Text) : Type 0 where
  pub every : (v : ℕ) → v < 64 → reads alphabet v ≡ true

standard_table : tried (reads standard) 64 ≡ true
unfolding tried standard value_from
standard_table = refl

url_safe_table : tried (reads url_safe) 64 ≡ true
unfolding tried url_safe value_from
url_safe_table = refl

three_equal :
    {a b c a' b' c' : ℕ} {out : List ℕ}
    → a ≡ a'
    → b ≡ b'
    → c ≡ c'
    → ◌≡◌ {A = List ℕ} (a ∷ b ∷ c ∷ out) (a' ∷ b' ∷ c' ∷ out)
three_equal e f g = cc

-- The bytes that are put out, by the six bits that came last.
first_byte :
    (accum v w : ℕ) → v < 64 → w < 64 → shifted (shifted accum v) w / 16 % 256 ≡ v * 4 + w / 16
first_byte accum v w hv hw = omega arith

second_byte :
    (accum w x : ℕ) → w < 64 → x < 64 → shifted (shifted accum w) x / 4 % 256 ≡ w % 16 * 16 + x / 4
second_byte accum w x hw hx = omega arith

third_byte :
    (accum x y : ℕ) → x < 64 → y < 64 → shifted (shifted accum x) y / 1 % 256 ≡ x % 4 * 64 + y
third_byte accum x y hx hy = omega arith

module _ (alphabet : Text) (good : IsAlphabet alphabet) where
  decode_from-letter :
      (accum bits v : ℕ) (s : Text)
      → v < 64
      → decode_from alphabet accum bits (letter alphabet v ∷ s)
        ≡ put_out (shifted accum v) bits (
            decode_from alphabet
              (shifted accum v)
              (if leb 8 (bits + 6) then bits + 6 - 8 else bits + 6)
              s)
  unfolding decode_from
  decode_from-letter accum bits v s h =
      let fine = good.every v h in
      let kept : is_skipped (letter alphabet v) ≡ false = ground (arith, fine) in
      let value : value_from 0 alphabet (letter alphabet v) ≡ some v =
        is_some_of_sound v (value_from 0 alphabet (letter alphabet v)) (ground (arith, fine)) in
      ground (arith, kept, value)

  -- Four letters give three bytes, whatever stood in the accumulator.
  decode_from-four :
      (accum v w x y : ℕ) (s : Text)
      → v < 64
      → w < 64
      → x < 64
      → y < 64
      → (out : List ℕ) → ((accum' : ℕ) → decode_from alphabet accum' 0 s ≡ some out)
      → decode_from alphabet accum 0
          (letter alphabet v ∷ letter alphabet w ∷ letter alphabet x ∷ letter alphabet y ∷ s)
        ≡ some ((v * 4 + w / 16) ∷ (w % 16 * 16 + x / 4) ∷ (x % 4 * 64 + y) ∷ out)
  decode_from-four accum v w x y s hv hw hx hy out rest =
      let a = shifted accum v in
      let b = shifted a w in
      let c = shifted b x in
      let d = shifted c y in
      simp
        (
          decode_from-letter accum 0 v
              (letter alphabet w ∷ letter alphabet x ∷ letter alphabet y ∷ s) hv,
          decode_from-letter a 6 w (letter alphabet x ∷ letter alphabet y ∷ s) hw,
          decode_from-letter b 4 x (letter alphabet y ∷ s) hx,
          decode_from-letter c 2 y s hy,
          rest d,
        )
        (ap some (
          three_equal (first_byte accum v w hv hw) (second_byte a w x hw hx)
            (third_byte b x y hx hy)))

  decode_from-nil : (accum bits : ℕ) → decode_from alphabet accum bits [] ≡ some []
  unfolding decode_from
  decode_from-nil accum bits = refl

  decode_from-one_pad :
      (pad : Bool) (accum bits : ℕ)
      → decode_from alphabet accum bits (if pad then b'=' ∷ [] else []) ≡ some []
  unfolding decode_from
  decode_from-one_pad true accum bits = refl
  decode_from-one_pad false accum bits = refl

  decode_from-padding :
      (pad : Bool) (accum bits : ℕ)
      → decode_from alphabet accum bits (if pad then b'=' ∷ b'=' ∷ [] else []) ≡ some []
  unfolding decode_from
  decode_from-padding true accum bits = refl
  decode_from-padding false accum bits = refl

  -- Two letters give a byte, and three give two; what they leave in the accumulator is dropped.
  decode_from-two :
      (accum v w : ℕ) (s : Text)
      → v < 64
      → w < 64
      → ((accum' bits : ℕ) → decode_from alphabet accum' bits s ≡ some [])
      → decode_from alphabet accum 0 (letter alphabet v ∷ letter alphabet w ∷ s)
        ≡ some ((v * 4 + w / 16) ∷ [])
  decode_from-two accum v w s hv hw rest =
      let a = shifted accum v in
      simp
        (
          decode_from-letter accum 0 v (letter alphabet w ∷ s) hv,
          decode_from-letter a 6 w s hw,
          rest (shifted a w) 4,
        )
        (ap (λ r. some (r ∷ [])) (first_byte accum v w hv hw))

  decode_from-three :
      (accum v w x : ℕ) (s : Text)
      → v < 64
      → w < 64
      → x < 64
      → ((accum' bits : ℕ) → decode_from alphabet accum' bits s ≡ some [])
      → decode_from alphabet accum 0 (letter alphabet v ∷ letter alphabet w ∷ letter alphabet x ∷ s)
        ≡ some ((v * 4 + w / 16) ∷ (w % 16 * 16 + x / 4) ∷ [])
  decode_from-three accum v w x s hv hw hx rest =
      let a = shifted accum v in
      let b = shifted a w in
      simp
        (
          decode_from-letter accum 0 v (letter alphabet w ∷ letter alphabet x ∷ s) hv,
          decode_from-letter a 6 w (letter alphabet x ∷ s) hw,
          decode_from-letter b 4 x s hx,
          rest (shifted b x) 2,
        )
        (ap₂ (λ r t. some (r ∷ t ∷ [])) (first_byte accum v w hv hw) (second_byte a w x hw hx))

  decode_from-encode :
      (pad : Bool) (bytes : List ℕ) (accum : ℕ)
      → All (λ b. b < 256) bytes
      → decode_from alphabet accum 0 (encode alphabet pad bytes) ≡ some bytes
  unfolding encode
  decode_from-encode pad [] accum h = decode_from-nil accum 0
  decode_from-encode pad (a ∷ []) accum (ha, h) =
      decode_from-two accum (a * 2 ^ 16 / 2 ^ 18 % 64) (a * 2 ^ 16 / 2 ^ 12 % 64)
        (if pad then b'=' ∷ b'=' ∷ [] else []) (omega arith) (omega arith) (decode_from-padding pad)
      ∙ ap (λ r. some (r ∷ [])) (omega arith)
  decode_from-encode pad (a ∷ b ∷ []) accum (ha, (hb, h)) =
      let n = a * 2 ^ 16 + b * 2 ^ 8 in
      decode_from-three accum (n / 2 ^ 18 % 64) (n / 2 ^ 12 % 64) (n / 2 ^ 6 % 64)
        (if pad then b'=' ∷ [] else []) (omega arith) (omega arith) (omega arith)
        (decode_from-one_pad pad)
      ∙ ap₂ (λ r t. some (r ∷ t ∷ [])) (omega arith) (omega arith)
  decode_from-encode pad (a ∷ b ∷ c ∷ rest) accum (ha, (hb, (hc, h))) =
      let n = a * 2 ^ 16 + b * 2 ^ 8 + c in
      decode_from-four accum (n / 2 ^ 18 % 64) (n / 2 ^ 12 % 64) (n / 2 ^ 6 % 64) (n % 64)
        (encode alphabet pad rest) (omega arith) (omega arith) (omega arith) (omega arith) rest
        (λ accum'. decode_from-encode pad rest accum' h)
      ∙ ap some (three_equal (omega arith) (omega arith) (omega arith))

standard-IsAlphabet : IsAlphabet standard
standard-IsAlphabet = record {
  every = λ v h. reading_of_tried (reads standard) 64 v h standard_table;
}

url_safe-IsAlphabet : IsAlphabet url_safe
url_safe-IsAlphabet = record {
  every = λ v h. reading_of_tried (reads url_safe) 64 v h url_safe_table;
}

-- For any bytes: decoding what encoding gives, in the standard alphabet with padding and in the alphabet
-- for URLs without, gives the bytes back.
pub decode-encode :
    (bytes : List ℕ)
    → All (λ b. b < 256) bytes
    → (base64_decode (base64_encode bytes) ≡ bytes)
      × (base64url_decode (base64url_encode bytes) ≡ bytes)
unfolding base64_decode base64_encode base64url_decode base64url_encode decode
decode-encode bytes h = (
  ap or_nothing (decode_from-encode standard standard-IsAlphabet true bytes 0 h),
  ap or_nothing (decode_from-encode url_safe url_safe-IsAlphabet false bytes 0 h),
)
