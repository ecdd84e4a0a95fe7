-- ===== src/Torrent/Segments/Exact.antt =====
-- The ranges hold the bytes of the pieces that have arrived, and no others.
use native.Mathlib.Nat.{mul-le-mul_right, div-mul-le_self, lt-div-mul-add}
use download_wrapper.Base.{
  ℕ, zero, suc, ◌+◌, ◌-◌, ◌*◌, ◌/◌, ◌≤◌, ◌<◌, ◌≡◌, ◌⊎◌, refl, subst, inl, inr, Bool, true, false,
  ◌&&◌, ◌||◌, List, [], ◌∷◌, ◌==◌, ltb, leb, Bool-cases, arith,
}
use download_wrapper.Torrent.Segments.{
  Segment, Layout, end_of, start_in, finish_in, extend, Progress, no_progress, add_piece,
  add_pieces, first_piece, last_piece, file_segments,
}
use download_wrapper.Torrent.Segments.Ordered.{
  Meets, MeetAll, MeetAll-of_file, IsGapped, IsBefore, div-le-div, file_segments-IsGapped,
  edge-start_in, start_in-le-finish_in, add_piece-IsBefore,
}

-- Byte `k` lies in one of the ranges.
abbrev pub covers : List Segment → ℕ → Bool
covers [] k = false
covers ((a, b) ∷ rest) k = (leb a k && leb k b) || covers rest k

-- The piece of the torrent that byte `k` of the file lies in.
abbrev pub piece_of : Layout → ℕ → ℕ
piece_of f k = (f.offset + k) / f.piece_length

-- The piece `p` is before piece `q`, is it, or is behind it, in bytes too.
compare_pieces :
    (p q l : ℕ)
    → ((p == q) ≡ false) × ((p + 1) * l ≤ q * l)
      ⊎ (p ≡ q)
      ⊎ ((p == q) ≡ false) × (q * l + l ≤ p * l)
compare_pieces p q l = elim (Bool-cases (ltb p q)) [
  | inl before ↦ let le : p + 1 ≤ q = ground arith in inl (ground arith, mul-le-mul_right l le)
  | inr after ↦ elim (Bool-cases (p == q)) [
    | inl same ↦ inr (inl (ground arith))
    | inr other ↦
        let le : q + 1 ≤ p = ground arith in inr (inr (other, omega (arith, mul-le-mul_right l le)))
  ]
]

-- Between the first and the last byte of a piece lie the bytes of that piece.
pub piece_of_iff :
    (f : Layout) (p k : ℕ)
    → Meets f p
    → k < f.size
    → (leb (start_in f p) k && leb k (finish_in f p)) ≡ (p == piece_of f k)
unfolding start_in finish_in
piece_of_iff f p k h hk =
    let low = div-mul-le_self (f.offset + k) f.piece_length in
    let high = lt-div-mul-add {a = f.offset + k} {b = f.piece_length} h.piece in
    elim (compare_pieces p (piece_of f k) f.piece_length) [
      | inl (ne, le) ↦ rw ne (ground (arith, h.size, h.above, h.below))
      | inr (inl e) ↦ ground (arith, e, h.size, h.piece, h.above, h.below)
      | inr (inr (ne, le)) ↦ rw ne (ground (arith, h.size, h.above, h.below))
    ]

covers-extend :
    (low : ℕ) (segs : List Segment) (s t k : ℕ)
    → IsGapped low segs s
    → s ≤ t
    → covers (extend segs s t) k ≡ ((leb s k && leb k t) || covers segs k)
unfolding extend
covers-extend low [] s t k g h = refl
covers-extend low ((a, b) ∷ []) s t k (x, y, z, w) h = ground arith
covers-extend low ((a, b) ∷ (c, d) ∷ rest) s t k (x, y, z, g) h =
    ground (arith, covers-extend (b + 2) ((c, d) ∷ rest) s t k g h)

covers-add_piece :
    (has : Bool) (f : Layout) (p k : ℕ) (s : Progress)
    → Meets f p
    → IsBefore f p s
    → k < f.size
    → covers (add_piece has f p s).segments k
      ≡ (((p == piece_of f k) && has) || covers s.segments k)
unfolding add_piece
covers-add_piece false f p k s h i hk = ground arith
covers-add_piece true f p k s h i hk =
    let before : IsGapped 0 s.segments (start_in f p) =
      subst (IsGapped 0 s.segments) (edge-start_in f p h) i.gapped in
    let exact =
      covers-extend 0 s.segments (start_in f p) (finish_in f p) k before
        (start_in-le-finish_in f p h) in
    ground (arith, exact, piece_of_iff f p k h hk)

-- The rounds of the loop add the bytes of the pieces that have arrived.
covers-add_pieces :
    (has : ℕ → Bool) (f : Layout) (n p k : ℕ) (s : Progress)
    → MeetAll f n p
    → IsBefore f p s
    → k < f.size
    → covers (add_pieces has f n p s).segments k ≡ (
        (leb p (piece_of f k) && ltb (piece_of f k) (p + n) && has (piece_of f k))
        || covers s.segments k)
unfolding add_pieces
covers-add_pieces has f zero p k s h i hk = ground arith
covers-add_pieces has f (suc n) p k s (m, h) i hk =
    let next = add_piece-IsBefore (has p) f p s m i in
    let rest = covers-add_pieces has f n (suc p) k (add_piece (has p) f p s) h next hk in
    let one = covers-add_piece (has p) f p k s m i hk in ground (arith, one, rest)

-- Nothing lies behind ranges that are in order.
covers-behind :
    (low : ℕ) (segs : List Segment) (bound k : ℕ)
    → IsGapped low segs bound
    → bound ≤ k
    → covers segs k ≡ false
covers-behind low [] bound k g h = refl
covers-behind low ((a, b) ∷ rest) bound k (x, y, z, g) h =
    ground (arith, covers-behind (b + 2) rest bound k g h)

-- For a file with at least a byte, in pieces of at least a byte: byte `k` of the file lies in one of
-- the computed ranges exactly when the piece of the torrent that holds the byte has arrived, and no
-- byte behind the end of the file does.
pub covers-file_segments :
    (has : ℕ → Bool) (f : Layout) (k : ℕ)
    → 1 ≤ f.size
    → 1 ≤ f.piece_length
    → covers (file_segments has f).segments k ≡ (ltb k f.size && has (piece_of f k))
unfolding file_segments
covers-file_segments has f k hs hl = elim (Bool-cases (ltb k f.size)) [
  | inl inside ↦
      let n = last_piece f + 1 - first_piece f in
      let hk : k < f.size = ground arith in
      let low : first_piece f ≤ piece_of f k =
        div-le-div f.offset (f.offset + k) f.piece_length hl (omega arith) in
      let high : piece_of f k ≤ last_piece f =
        div-le-div (f.offset + k) (end_of f) f.piece_length hl (omega arith) in
      let exact =
        covers-add_pieces has f n (first_piece f) k no_progress (MeetAll-of_file f hs hl)
          (record { gapped = tt; counted = refl }) hk in
      ground (arith, exact)
  | inr outside ↦
      let behind : f.size ≤ k = ground arith in
      rw outside (
        covers-behind 0 (file_segments has f).segments f.size k
          (file_segments-IsGapped has f hs hl).0 behind)
]
