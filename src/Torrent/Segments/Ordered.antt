-- ===== src/Torrent/Segments/Ordered.antt =====
-- The ranges are in order, apart, and within the file.
use native.Mathlib.Nat.{div-mul-le_self, lt-div-mul-add}
use download_wrapper.Base.{
  ℕ, zero, suc, ◌+◌, ◌-◌, ◌*◌, ◌/◌, ◌≤◌, ◌<◌, ◌≡◌, refl, sym, subst, Bool, true, false, List, [],
  ◌∷◌, ◌==◌, if_intro, min, max, arith,
}
use download_wrapper.Torrent.Segments.{
  Segment, Layout, end_of, start_in, finish_in, extend, Progress, no_progress, add_piece,
  add_pieces, first_piece, last_piece, file_segments,
}

-- Ranges from `low` on and before `bound`, in order, with at least one byte between one and the next.
abbrev pub IsGapped : ℕ → List Segment → ℕ → Type 0
IsGapped low [] bound = Unit
IsGapped low ((a, b) ∷ rest) bound = (low ≤ a) × (a ≤ b) × (b < bound) × IsGapped (b + 2) rest bound

-- The bytes in a list of ranges.
abbrev pub bytes_in : List Segment → ℕ
bytes_in [] = 0
bytes_in ((a, b) ∷ rest) = (b - a + 1) + bytes_in rest

pub extend-IsGapped :
    (low : ℕ) (segs : List Segment) (s f : ℕ)
    → IsGapped low segs s
    → low ≤ s
    → s ≤ f
    → IsGapped low (extend segs s f) (f + 1)
unfolding extend
extend-IsGapped low [] s f h k l = (k, l, omega arith, tt)
extend-IsGapped low ((a, b) ∷ []) s f (x, y, z, w) k l =
    if_intro (λ r. IsGapped low r (f + 1)) (b + 1 == s) ((a, f) ∷ []) ((a, b) ∷ (s, f) ∷ [])
      (λ e. (x, omega arith, omega arith, tt))
      (λ e. (x, y, omega arith, (ground arith, l, omega arith, tt)))
extend-IsGapped low ((a, b) ∷ (c, d) ∷ rest) s f (x, y, z, (u, v, w, t)) k l =
    (x, y, omega arith, extend-IsGapped (b + 2) ((c, d) ∷ rest) s f (u, v, w, t) (omega arith) l)

pub bytes_in-extend :
    (low : ℕ) (segs : List Segment) (s f : ℕ)
    → IsGapped low segs s
    → s ≤ f
    → bytes_in (extend segs s f) ≡ bytes_in segs + (f - s + 1)
unfolding extend
bytes_in-extend low [] s f h l = omega arith
bytes_in-extend low ((a, b) ∷ []) s f (x, y, z, w) l =
    if_intro (λ r. bytes_in r ≡ bytes_in ((a, b) ∷ []) + (f - s + 1)) (b + 1 == s) ((a, f) ∷ [])
      ((a, b) ∷ (s, f) ∷ []) (λ e. ground arith) (λ e. omega arith)
bytes_in-extend low ((a, b) ∷ (c, d) ∷ rest) s f (x, y, z, t) l =
    omega (arith, bytes_in-extend (b + 2) ((c, d) ∷ rest) s f t l)

pub bytes_in-le :
    (low : ℕ) (segs : List Segment) (bound : ℕ)
    → IsGapped low segs bound
    → bytes_in segs ≤ bound - low
bytes_in-le low [] bound h = omega arith
bytes_in-le low ((a, b) ∷ rest) bound (x, y, z, w) = omega (arith, bytes_in-le (b + 2) rest bound w)

-- A piece `p` that lies in the file, at least in part.
pub record Meets (f : Layout) (p : ℕ) : Type 0 where
  pub size : 1 ≤ f.size
  pub piece : 1 ≤ f.piece_length
  pub above : f.offset < (p + 1) * f.piece_length
  pub below : p * f.piece_length ≤ end_of f

pub start_in-le-finish_in : (f : Layout) (p : ℕ) → Meets f p → start_in f p ≤ finish_in f p
unfolding start_in finish_in
start_in-le-finish_in f p h =
    let wide : p * f.piece_length + f.piece_length ≡ (p + 1) * f.piece_length = omega arith in
    omega (arith, h.size, h.piece, h.above, h.below, wide)

-- The next piece starts right behind.
pub finish_in-suc :
    (f : Layout) (p : ℕ) → Meets f p → Meets f (p + 1) → finish_in f p + 1 ≡ start_in f (p + 1)
unfolding start_in finish_in
finish_in-suc f p h k = omega (arith, h.size, h.piece, h.above, h.below, k.above, k.below)

-- Where the file stands at the start of piece `p`, at its end from the piece behind the last on.
abbrev pub edge : Layout → ℕ → ℕ
edge f p = min (max (p * f.piece_length) f.offset) (f.offset + f.size) - f.offset

pub edge-start_in : (f : Layout) (p : ℕ) → Meets f p → edge f p ≡ start_in f p
unfolding start_in
edge-start_in f p h = omega (arith, h.size, h.below)

edge-finish_in : (f : Layout) (p : ℕ) → Meets f p → edge f (suc p) ≡ finish_in f p + 1
unfolding finish_in
edge-finish_in f p h = omega (arith, h.size, h.piece, h.above, h.below)

edge-le : (f : Layout) (p : ℕ) → Meets f p → edge f p ≤ edge f (suc p)
edge-le f p h =
    omega (arith, edge-start_in f p h, edge-finish_in f p h, start_in-le-finish_in f p h)

IsGapped-le :
    (low : ℕ) (segs : List Segment) (m n : ℕ) → m ≤ n → IsGapped low segs m → IsGapped low segs n
IsGapped-le low [] m n h g = tt
IsGapped-le low ((a, b) ∷ rest) m n h (x, y, z, w) =
    (x, y, omega arith, IsGapped-le (b + 2) rest m n h w)

-- What the loop keeps: the ranges lie before piece `p`, and `done` counts their bytes.
pub record IsBefore (f : Layout) (p : ℕ) (s : Progress) : Type 0 where
  pub gapped : IsGapped 0 s.segments (edge f p)
  pub counted : s.done ≡ bytes_in s.segments

pub add_piece-IsBefore :
    (has : Bool) (f : Layout) (p : ℕ) (s : Progress)
    → Meets f p
    → IsBefore f p s
    → IsBefore f (suc p) (add_piece has f p s)
unfolding add_piece
add_piece-IsBefore false f p s h i = record {
  gapped = IsGapped-le 0 s.segments (edge f p) (edge f (suc p)) (edge-le f p h) i.gapped;
  counted = i.counted;
}
add_piece-IsBefore true f p s h i =
    let ordered = start_in-le-finish_in f p h in
    let before : IsGapped 0 s.segments (start_in f p) =
      subst (IsGapped 0 s.segments) (edge-start_in f p h) i.gapped in
    record {
      gapped =
          subst (IsGapped 0 (extend s.segments (start_in f p) (finish_in f p)))
            (sym (edge-finish_in f p h))
            (extend-IsGapped 0 s.segments (start_in f p) (finish_in f p) before (omega arith)
              ordered);
      counted = omega (
        arith,
        i.counted,
        bytes_in-extend 0 s.segments (start_in f p) (finish_in f p) before ordered,
      );
    }

-- All of `n` pieces from `p` on.
abbrev pub MeetAll : Layout → ℕ → ℕ → Type 0
MeetAll f zero p = Unit
MeetAll f (suc n) p = Meets f p × MeetAll f n (suc p)

pub add_pieces-IsBefore :
    (has : ℕ → Bool) (f : Layout) (n p : ℕ) (s : Progress)
    → MeetAll f n p
    → IsBefore f p s
    → IsBefore f (p + n) (add_pieces has f n p s)
unfolding add_pieces
add_pieces-IsBefore has f zero p s h i = subst (λ q. IsBefore f q s) (omega arith) i
add_pieces-IsBefore has f (suc n) p s (m, h) i =
    subst (λ q. IsBefore f q (add_pieces has f n (suc p) (add_piece (has p) f p s))) (omega arith)
      (add_pieces-IsBefore has f n (suc p) (add_piece (has p) f p s) h
        (add_piece-IsBefore (has p) f p s m i))

pub Meets-of_range :
    (f : Layout) (p : ℕ)
    → 1 ≤ f.size
    → 1 ≤ f.piece_length
    → first_piece f ≤ p
    → p ≤ last_piece f
    → Meets f p
Meets-of_range f p hs hl low high = record {
  size = hs;
  piece = hl;
  above = grind (arith, lt-div-mul-add);
  below = grind (arith, div-mul-le_self);
}

pub div-le-div : (m n k : ℕ) → 1 ≤ k → m ≤ n → m / k ≤ n / k
div-le-div m n k h l = grind (arith, div-mul-le_self, lt-div-mul-add)

pub MeetAll-of_range :
    (f : Layout) (n p : ℕ)
    → 1 ≤ f.size
    → 1 ≤ f.piece_length
    → first_piece f ≤ p
    → p + n ≤ last_piece f + 1
    → MeetAll f n p
MeetAll-of_range f zero p hs hl low high = tt
MeetAll-of_range f (suc n) p hs hl low high = (
  Meets-of_range f p hs hl low (omega arith),
  MeetAll-of_range f n (suc p) hs hl (omega arith) (omega arith),
)

pub MeetAll-of_file :
    (f : Layout)
    → 1 ≤ f.size
    → 1 ≤ f.piece_length
    → MeetAll f (last_piece f + 1 - first_piece f) (first_piece f)
MeetAll-of_file f hs hl =
    let order : first_piece f ≤ last_piece f =
      div-le-div f.offset (end_of f) f.piece_length hl (omega arith) in
    MeetAll-of_range f (last_piece f + 1 - first_piece f) (first_piece f) hs hl (omega arith)
      (omega arith)

-- For a file with at least a byte, in pieces of at least a byte, whatever pieces have arrived: the
-- ranges are not empty, in increasing order, at least one byte apart from each other, and they end
-- within the file; the number of bytes reported as done is the number of bytes in the ranges, so it is
-- at most the size.
pub file_segments-IsGapped :
    (has : ℕ → Bool) (f : Layout)
    → 1 ≤ f.size
    → 1 ≤ f.piece_length
    → IsGapped 0 (file_segments has f).segments f.size
      × ((file_segments has f).done ≡ bytes_in (file_segments has f).segments)
      × ((file_segments has f).done ≤ f.size)
unfolding file_segments
file_segments-IsGapped has f hs hl =
    let n = last_piece f + 1 - first_piece f in
    let kept =
      add_pieces-IsBefore has f n (first_piece f) no_progress (MeetAll-of_file f hs hl)
        (record { gapped = tt; counted = refl }) in
    let whole =
      IsGapped-le 0 (add_pieces has f n (first_piece f) no_progress).segments
        (edge f (first_piece f + n)) f.size (omega arith) kept.gapped in
    (
      whole,
      kept.counted,
      omega (
        arith,
        kept.counted,
        bytes_in-le 0 (add_pieces has f n (first_piece f) no_progress).segments f.size whole,
      ),
    )
