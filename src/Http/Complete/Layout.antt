-- ===== src/Http/Complete/Layout.antt =====
-- Parts that lie end to end, by their index.
use download_wrapper.Base.{
  ℕ, zero, suc, ◌+◌, ◌<◌, ◌≡◌, inl, inr, ap, List, [], ◌∷◌, length, get_or, arith,
}
use download_wrapper.Base.Int.{ℤ, pos, pos_part, neg_part, ◌+ℤ◌, ◌≤ℤ◌, ◌<ℤ◌, int_laws, dec_lt_ℤ}
use download_wrapper.Http.Part.{Part, zero_part}
use download_wrapper.Http.Split.Tiling.{Tiles}

abbrev pub part_of : List Part → ℕ → Part
part_of ps i = get_or ps i zero_part

-- No part starts before the first.
Tiles-start :
    (from : ℕ) (ps : List Part) (to i : ℕ)
    → Tiles from ps to
    → i < length ps
    → pos from ≤ℤ (part_of ps i).start
Tiles-start from [] to i h le = absurd (omega arith)
Tiles-start from (p ∷ ps) to zero (n, a, b, c, d, rest) le =
    omega (int_laws, ap pos_part a, ap neg_part a)
Tiles-start from (p ∷ ps) to (suc i) (n, a, b, c, d, rest) le =
    omega (int_laws, Tiles-start (from + suc n) ps to i rest (omega arith))

-- No part is empty.
pub Tiles-size :
    (from : ℕ) (ps : List Part) (to i : ℕ)
    → Tiles from ps to
    → i < length ps
    → pos 0 <ℤ (part_of ps i).size
Tiles-size from [] to i h le = absurd (omega arith)
Tiles-size from (p ∷ ps) to zero (n, a, b, c, d, rest) le =
    omega (int_laws, ap pos_part c, ap neg_part c)
Tiles-size from (p ∷ ps) to (suc i) (n, a, b, c, d, rest) le =
    Tiles-size (from + suc n) ps to i rest (omega arith)

-- Nothing has arrived yet.
pub Tiles-done :
    (from : ℕ) (ps : List Part) (to i : ℕ)
    → Tiles from ps to
    → i < length ps
    → (part_of ps i).done ≡ pos 0
Tiles-done from [] to i h le = absurd (omega arith)
Tiles-done from (p ∷ ps) to zero (n, a, b, c, d, rest) le = d
Tiles-done from (p ∷ ps) to (suc i) (n, a, b, c, d, rest) le =
    Tiles-done (from + suc n) ps to i rest (omega arith)

-- A part ends before a later one starts.
pub Tiles-apart :
    (from : ℕ) (ps : List Part) (to i j : ℕ)
    → Tiles from ps to
    → i < j
    → j < length ps
    → (part_of ps i).start +ℤ (part_of ps i).size ≤ℤ (part_of ps j).start
Tiles-apart from [] to i j h lt le = absurd (omega arith)
Tiles-apart from (p ∷ ps) to i zero h lt le = absurd (omega arith)
Tiles-apart from (p ∷ ps) to zero (suc j) (n, a, b, c, d, rest) lt le = omega (
  int_laws,
  Tiles-start (from + suc n) ps to j rest (omega arith),
  ap pos_part a,
  ap neg_part a,
  ap pos_part c,
  ap neg_part c,
)
Tiles-apart from (p ∷ ps) to (suc i) (suc j) (n, a, b, c, d, rest) lt le =
    Tiles-apart (from + suc n) ps to i j rest (omega arith) (omega arith)

-- Each offset lies in a part.
pub Tiles-find :
    (from : ℕ) (ps : List Part) (to : ℕ) (k : ℤ)
    → Tiles from ps to
    → pos from ≤ℤ k
    → k <ℤ pos to
    → (i : ℕ) × (i < length ps)
      × ((part_of ps i).start ≤ℤ k)
      × (k <ℤ (part_of ps i).start +ℤ (part_of ps i).size)
Tiles-find from [] to k e lo hi = absurd (omega arith)
Tiles-find from (p ∷ ps) to k (n, a, b, c, d, rest) lo hi = elim (dec_lt_ℤ k (pos (from + suc n))) [
  | inl here ↦ (
    0,
    omega arith,
    omega (int_laws, ap pos_part a, ap neg_part a),
    omega (int_laws, ap pos_part a, ap neg_part a, ap pos_part c, ap neg_part c),
  )
  | inr later ↦
      let (i, le, low, high) = Tiles-find (from + suc n) ps to k rest later hi in
      (suc i, omega arith, low, high)
]
