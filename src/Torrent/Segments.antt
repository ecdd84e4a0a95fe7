-- ===== src/Torrent/Segments.antt =====
-- The loop of `handle_piece_finished` in src/torrent/torrent_engine.cpp that turns the pieces that
-- have arrived into the byte ranges of one file. Offsets and lengths are natural numbers: libtorrent
-- gives no negative ones, and the source has checked that the piece length and the size are positive.
pub mod Ordered
pub mod Exact
use download_wrapper.Base.{
  ℕ, zero, suc, ◌+◌, ◌-◌, ◌*◌, ◌/◌, Bool, true, false, ◌&&◌, ◌||◌, List, [], ◌∷◌, ◌==◌, leb,
  if◌then◌else◌, min, max,
}

abbrev pub Segment : Type 0
Segment = ℕ × ℕ

-- The layout of a file in its torrent: its offset, its size, and the length of a piece.
pub record Layout : Type 0 where
  pub offset : ℕ
  pub size : ℕ
  pub piece_length : ℕ

-- The last byte of the file, in the torrent.
abbrev pub end_of : Layout → ℕ
end_of f = f.offset + f.size - 1

-- The first and the last byte of piece `p` that lie in the file, counted in the file.
unfoldable pub start_in : Layout → ℕ → ℕ
start_in f p = max (p * f.piece_length) f.offset - f.offset

unfoldable pub finish_in : Layout → ℕ → ℕ
finish_in f p = min ((p + 1) * f.piece_length - 1) (end_of f) - f.offset

-- A range joins the last one where it follows it at once, and else comes behind it.
unfoldable pub extend : List Segment → ℕ → ℕ → List Segment
extend [] start finish = (start, finish) ∷ []
extend ((a, b) ∷ []) start finish =
    if b + 1 == start then (a, finish) ∷ [] else (a, b) ∷ (start, finish) ∷ []
extend ((a, b) ∷ c ∷ rest) start finish = (a, b) ∷ extend (c ∷ rest) start finish

-- `segments` and `done`
pub record Progress : Type 0 where
  pub segments : List Segment
  pub done : ℕ

abbrev pub no_progress : Progress
no_progress = record { segments = []; done = 0 }

-- One round of the loop, by whether the piece has arrived.
unfoldable pub add_piece : Bool → Layout → ℕ → Progress → Progress
unfolding extend
add_piece false f p s = s
add_piece true f p s = record {
  segments = extend s.segments (start_in f p) (finish_in f p);
  done = s.done + (finish_in f p - start_in f p + 1);
}

-- The loop from piece `p` on; the first argument is the number of rounds. `has` is the bitmap: false
-- behind its end.
unfoldable pub add_pieces : (ℕ → Bool) → Layout → ℕ → ℕ → Progress → Progress
unfolding add_piece
add_pieces has f zero p s = s
add_pieces has f (suc rounds) p s = add_pieces has f rounds (suc p) (add_piece (has p) f p s)

abbrev pub first_piece : Layout → ℕ
first_piece f = f.offset / f.piece_length

abbrev pub last_piece : Layout → ℕ
last_piece f = end_of f / f.piece_length

-- The ranges of a file and the number of its bytes that are there.
unfoldable pub file_segments : (ℕ → Bool) → Layout → Progress
unfolding add_pieces
file_segments has f =
    add_pieces has f (last_piece f + 1 - first_piece f) (first_piece f) no_progress
