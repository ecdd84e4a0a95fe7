-- ===== src/Http/Split/Tiling.antt =====
-- The parts of a split lie end to end over the file.
use download_wrapper.Base.{
  ℕ, zero, suc, ◌+◌, ◌-◌, ◌*◌, ◌/◌, ◌≤◌, ◌<◌, ◌≡◌, refl, subst, ap, min, ◌⊎◌, inl, inr, List, [],
  ◌∷◌, arith, if◌then◌else◌, ◌==◌, length, get_or, false, max,
}
use download_wrapper.Base.Int.{ℤ, pos, ◌≤ℤ◌, eqb_ℤ, pos_part, ltb_ℤ, ◌-ℤ◌, ◌/ℤ◌}
use download_wrapper.Http.Part.{Part, zero_part}
use download_wrapper.Http.Split.{
  next_part, next_parts, first_part, first_size, adjusted_parts, wanted_parts, laid_out, split,
}

-- The parts, all empty so far, cover the bytes from `from` up to, not including, `to`.
abbrev pub Tiles : ℕ → List Part → ℕ → Type 0
Tiles from [] to = from ≡ to
Tiles from (p ∷ ps) to =
    (n : ℕ) × (p.start ≡ pos from)
    × (p.end ≡ pos (from + n))
    × (p.size ≡ pos (suc n))
    × (p.done ≡ pos 0)
    × Tiles (from + suc n) ps to

-- The length of part `suc j`, less one.
abbrev span : ℕ → ℕ → ℕ → ℕ → ℕ → ℕ
span s c w t j = if suc j == w - 1 then t - 1 - (s + c * j) else c - 1

next_part_lem :
    (s c w t j : ℕ)
    → 1 ≤ c
    → 2 ≤ w
    → s + c * j < t
    → let p = next_part (pos s) (pos c) (pos w) (pos t) (suc j) in
      (p.start ≡ pos (s + c * j))
      × (p.end ≡ pos (s + c * j + span s c w t j))
      × (p.size ≡ pos (suc (span s c w t j)))
      × (p.done ≡ pos 0)
unfolding next_part
next_part_lem s c w t j hc hw ht = ground arith

span_last : (s c w t j : ℕ) → suc j ≡ w - 1 → s + c * j < t → s + c * j + suc (span s c w t j) ≡ t
span_last s c w t j e h = ground arith

-- The loop, `r` rounds before its end: the last part reaches the end of the file.
next_parts-Tiles :
    (r s c w t j : ℕ)
    → 1 ≤ c
    → suc j + suc r ≡ w
    → s + c * (w - 1) ≤ t
    → Tiles (s + c * j) (next_parts (suc r) (pos s) (pos c) (pos w) (pos t) (suc j)) t
unfolding next_parts
next_parts-Tiles zero s c w t j hc hw ht =
    let below : s + c * j < t = grind arith in
    let p = next_part_lem s c w t j hc (omega arith) below in
    (span s c w t j, p.0, p.1, p.2, p.3, span_last s c w t j (omega arith) below)
next_parts-Tiles (suc r) s c w t j hc hw ht =
    let below : s + c * j < t = grind arith in
    let p = next_part_lem s c w t j hc (omega arith) below in
    let next = next_parts-Tiles r s c w t (suc j) hc (omega arith) ht in
    let shift : s + c * suc j ≡ s + c * j + suc (span s c w t j) = grind arith in
    let rest = next_parts (suc r) (pos s) (pos c) (pos w) (pos t) (suc (suc j)) in
    (span s c w t j, p.0, p.1, p.2, p.3, subst (λ k. Tiles k rest t) shift next)

-- With one part it is the file; with more, each gets a byte at least.
abbrev Fits : ℤ → ℤ → ℕ → Type 0
Fits want size0 t =
    (want ≡ pos 1)
    ⊎ ((w s : ℕ) × (want ≡ pos w)
        × (size0 ≡ pos s)
        × (2 ≤ w)
        × (1 ≤ s)
        × (min 1048576 t ≤ s)
        × (s + (w - 1) ≤ t))

laid_out_one : (t : ℕ) → 1 ≤ t → Tiles 0 (laid_out (pos 1) (pos t) (pos t)) t
unfolding laid_out first_part next_parts
laid_out_one t h = (t - 1, ground arith, ground arith, ground arith, ground arith, omega arith)

first_part_lem :
    (s t : ℕ)
    → 1 ≤ s
    → 1 ≤ t
    → let p = first_part (pos s) (pos t) in
      (p.start ≡ pos 0)
      × (p.end ≡ pos (0 + (s - 1)))
      × (p.size ≡ pos (suc (s - 1)))
      × (p.done ≡ pos 0)
unfolding first_part
first_part_lem s t h k = ground arith

div_mul_le : (a b : ℕ) → a / b * b ≤ a
div_mul_le a b = grind arith

chunk_pos : (a b : ℕ) → 1 ≤ b → b ≤ a → 1 ≤ a / b
chunk_pos a b h k = grind arith

laid_out_lem :
    (r s t : ℕ)
    → s ≤ t
    → laid_out (pos (suc (suc r))) (pos s) (pos t)
      ≡ first_part (pos s) (pos t)
        ∷ next_parts (suc r) (pos s) (pos ((t - s) / suc r)) (pos (suc (suc r))) (pos t) 1
unfolding laid_out
laid_out_lem r s t h = ground arith

laid_out_many :
    (r s t : ℕ) → 1 ≤ s → s + suc r ≤ t → Tiles 0 (laid_out (pos (suc (suc r))) (pos s) (pos t)) t
laid_out_many r s t hs ht =
    let c = (t - s) / suc r in
    let p = first_part_lem s t hs (omega arith) in
    let parts = next_parts (suc r) (pos s) (pos c) (pos (suc (suc r))) (pos t) 1 in
    let some_byte : 1 ≤ c = chunk_pos (t - s) (suc r) (omega arith) (omega arith) in
    let fits : s + c * (suc (suc r) - 1) ≤ t = grind (arith, div_mul_le (t - s) (suc r)) in
    let start : s + c * 0 ≡ 0 + suc (s - 1) = omega arith in
    let rest = next_parts-Tiles r s c (suc (suc r)) t 0 some_byte (omega arith) fits in
    rw (laid_out_lem r s t (omega arith))
      (s - 1, p.0, p.1, p.2, p.3, subst (λ k. Tiles k parts t) start rest)

adjusted-Fits :
    (d t : ℕ)
    → 1 ≤ t
    → 2 ≤ d
    → Fits
        (adjusted_parts (pos d) (first_size (pos d) (pos t)) (pos t))
        (first_size (pos d) (pos t))
        t
unfolding adjusted_parts first_size
adjusted-Fits d t h k = ground arith

many : (r : ℕ) → eqb_ℤ (pos (suc (suc r))) (pos 1) ≡ false
many r = ground arith

laid_out-Tiles :
    (want size0 : ℤ) (t : ℕ)
    → 1 ≤ t
    → Fits want size0 t
    → Tiles 0 (laid_out want (if eqb_ℤ want (pos 1) then pos t else size0) (pos t)) t
laid_out-Tiles want size0 t h (inl one) = rw one (laid_out_one t h)
laid_out-Tiles want size0 t h (inr (zero, s, e, f, two, hs, win, room)) = absurd (omega arith)
laid_out-Tiles want size0 t h (inr (suc zero, s, e, f, two, hs, win, room)) = absurd (omega arith)
laid_out-Tiles want size0 t h (inr (suc (suc r), s, e, f, two, hs, win, room)) =
    rw (e, f, many r) (laid_out_many r s t hs (omega arith))

wanted_parts_cases :
    (m d : ℤ) (t : ℕ)
    → (wanted_parts m d (pos t) ≡ pos 1)
      ⊎ ((k : ℕ) × (wanted_parts m d (pos t) ≡ pos k) × (2 ≤ k) × (d ≡ pos k))
unfolding wanted_parts
wanted_parts_cases m d t = ground arith

split-Fits :
    (m d : ℤ) (t : ℕ)
    → 1 ≤ t
    → let wanted = wanted_parts m d (pos t) in
      let size0 = first_size wanted (pos t) in Fits (adjusted_parts wanted size0 (pos t)) size0 t
split-Fits m d t h = elim (wanted_parts_cases m d t) [
  | inl e ↦ rw e (unfold first_size adjusted_parts in inl refl)
  | inr (k, e, two, _) ↦ rw e (adjusted-Fits k t h two)
]

split_lem :
    (m d total : ℤ)
    → let size0 = first_size (wanted_parts m d total) total in
      let want = adjusted_parts (wanted_parts m d total) size0 total in
      split m d total ≡ laid_out want (if eqb_ℤ want (pos 1) then total else size0) total
unfolding split
split_lem m d total = refl

-- Every byte of a file of known size lies in exactly one part: the parts are not empty, start where
-- the part before ends, the first at 0, and the last reaches the last byte.
pub split-Tiles : (m d : ℤ) (t : ℕ) → 1 ≤ t → Tiles 0 (split m d (pos t)) t
split-Tiles m d t h =
    let fits = split-Fits m d t h in rw (split_lem m d (pos t)) (laid_out-Tiles _ _ t h fits)

length-next_parts : (r : ℕ) (s c w t : ℤ) (i : ℕ) → length (next_parts r s c w t i) ≡ r
unfolding next_parts
length-next_parts zero s c w t i = refl
length-next_parts (suc r) s c w t i = ap suc (length-next_parts r s c w t (suc i))

adjusted_parts-le :
    (k : ℕ) (size0 : ℤ) (t : ℕ) → 2 ≤ k → pos_part (adjusted_parts (pos k) size0 (pos t)) ≤ k
unfolding adjusted_parts
adjusted_parts-le k size0 t h = ground arith

length-laid_out :
    (want size0 total : ℤ) → length (laid_out want size0 total) ≤ max 1 (pos_part want)
unfolding laid_out ◌-ℤ◌
length-laid_out want size0 total = ground (
  arith,
  length-next_parts (pos_part (want -ℤ pos 1)) size0
      (if ltb_ℤ (pos 1) want then (total -ℤ size0) /ℤ (want -ℤ pos 1) else pos 0) want total 1,
)

parts_le :
    (m d : ℤ) (t : ℕ)
    → let wanted = wanted_parts m d (pos t) in
      pos_part (adjusted_parts wanted (first_size wanted (pos t)) (pos t)) ≤ max 1 (pos_part d)
parts_le m d t = elim (wanted_parts_cases m d t) [
  | inl e ↦ rw e (unfold first_size adjusted_parts in omega arith)
  | inr (k, e, two, same) ↦
      rw (e, same) (omega (arith, adjusted_parts-le k (first_size (pos k) (pos t)) t two))
]

-- The engine asks for at most the configured number of parts.
pub length-split : (m d : ℤ) (t : ℕ) → length (split m d (pos t)) ≤ max 1 (pos_part d)
length-split m d t =
    rw (split_lem m d (pos t)) (omega (arith, parts_le m d t, length-laid_out _ _ _))

Fits-window :
    (want size0 : ℤ) (t : ℕ)
    → 1 ≤ t
    → Fits want size0 t
    → pos (min 1048576 t) ≤ℤ (first_part (if eqb_ℤ want (pos 1) then pos t else size0) (pos t)).size
Fits-window want size0 t h (inl one) = rw one (ground (arith, first_part_lem t t h h))
Fits-window want size0 t h (inr (w, s, e, f, two, hs, win, room)) =
    rw (e, f) (ground (arith, first_part_lem s t hs h))

-- The first part takes in the whole probe window, or the whole file where that is smaller, so no
-- byte of the probing connection is thrown away.
pub split-window :
    (m d : ℤ) (t : ℕ) → 1 ≤ t → pos (min 1048576 t) ≤ℤ (get_or (split m d (pos t)) 0 zero_part).size
unfolding laid_out
split-window m d t h = rw (split_lem m d (pos t)) (Fits-window _ _ t h (split-Fits m d t h))
