-- ===== src/Torrent/Files/Measured.antt =====
-- What a finished piece enters for a file: the bytes that have arrived, and no others.
use download_wrapper.Base.{
  ℕ, ◌+◌, ◌/◌, ◌≤◌, ◌≡◌, refl, sym, ap, subst, ◌∙◌, ◌⊎◌, inl, inr, Bool, true, false, ◌&&◌, ◌||◌,
  Option, none, some, List, [], ◌∷◌, map, ◌==◌, ltb, Bool-cases, if_intro, if◌then◌else◌, arith,
}
use download_wrapper.Base.Int.{ℤ, pos, ltb_ℤ, eqb_ℤ}
use download_wrapper.Manager.TaskFile.{TaskFile}
use download_wrapper.Torrent.Segments.{Segment, file_segments}
use download_wrapper.Torrent.Segments.Ordered.{bytes_in, file_segments-IsGapped}
use download_wrapper.Torrent.Segments.Exact.{covers, covers-file_segments}
use download_wrapper.Torrent.Files.{
  Doubles, TorrentInfo, Snapshot, to_ℤ, layout_of, entry_at, alter_entry, measured, refresh,
  pending, piece_finished,
}

module _ {Rate : Type 0} (doubles : Doubles Rate) (info : TorrentInfo) (seen : Snapshot) where
  -- An entry that shows the bitmap: a byte is in a segment exactly when its piece has arrived, and the
  -- bytes done are those of the segments.
  pub record IsExact (i : ℕ) (f : TaskFile Rate) : Type 0 where
    pub ranges : List Segment
    pub ranges_are : f.segments ≡ map to_ℤ ranges
    pub exact :
        (k : ℕ)
        → covers ranges k
          ≡ (ltb k (info.file_size i) && seen.pieces ((info.file_offset i + k) / info.piece_length))
    pub done_is : f.total_done ≡ pos (bytes_in ranges)
    pub dirty : f.dirty ≡ true

  -- Each entry is an old one, or shows the bitmap.
  abbrev pub IsShown : List (TaskFile Rate) → List (TaskFile Rate) → Type 0
  IsShown old files =
      (j : ℕ) (f : TaskFile Rate)
      → entry_at j files ≡ some f
      → (entry_at j old ≡ some f) ⊎ IsExact j f

  measured-IsExact :
      (i : ℕ) (f : TaskFile Rate)
      → 1 ≤ info.piece_length
      → 1 ≤ info.file_size i
      → IsExact i
          (measured doubles (file_segments seen.pieces (layout_of info i)) (info.file_size i) f)
  unfolding measured
  measured-IsExact i f hp hs =
      let p = file_segments seen.pieces (layout_of info i) in
      record {
        ranges = p.segments;
        ranges_are = refl;
        exact = λ k. covers-file_segments seen.pieces (layout_of info i) k hs hp;
        done_is = ap pos (file_segments-IsGapped seen.pieces (layout_of info i) hs hp).1;
        dirty = refl;
      }

  abbrev pub edited :
      (TaskFile Rate → TaskFile Rate) → Option (TaskFile Rate) → Option (TaskFile Rate)
  edited edit none = none
  edited edit (some f) = some (edit f)

  -- An altered list has the altered entry under the index, and the old ones elsewhere.
  pub entry_at-alter_entry :
      (i j : ℕ) (edit : TaskFile Rate → TaskFile Rate) (files : List (TaskFile Rate))
      → ((g : TaskFile Rate) → (edit g).file_index ≡ g.file_index)
      → entry_at j (alter_entry i edit files)
        ≡ (if i == j then edited edit (entry_at j files) else entry_at j files)
  unfolding entry_at alter_entry
  entry_at-alter_entry i j edit [] keeps = ground arith
  entry_at-alter_entry i j edit (g ∷ gs) keeps = elim (Bool-cases (eqb_ℤ g.file_index (pos i))) [
    | inl e ↦ ground (arith, keeps g)
    | inr e ↦ ground (arith, entry_at-alter_entry i j edit gs keeps)
  ]

  -- An entry that was edited in this way shows the bitmap.
  pub edited-IsExact :
      (i : ℕ) (old : Option (TaskFile Rate)) (f : TaskFile Rate)
      → 1 ≤ info.piece_length
      → 1 ≤ info.file_size i
      → edited
          (measured doubles (file_segments seen.pieces (layout_of info i)) (info.file_size i))
          old
        ≡ some f
      → IsExact i f
  edited-IsExact i none f hp hs e = absurd (cc)
  edited-IsExact i (some g) f hp hs e =
      let edit =
        measured doubles (file_segments seen.pieces (layout_of info i)) (info.file_size i) in
      let same : edit g ≡ f = cc in subst (IsExact i) same (measured-IsExact i g hp hs)

  alter_entry-IsShown :
      (i : ℕ) (old files : List (TaskFile Rate))
      → 1 ≤ info.piece_length
      → 1 ≤ info.file_size i
      → IsShown old files
      → IsShown old (
          alter_entry i
            (measured doubles (file_segments seen.pieces (layout_of info i)) (info.file_size i))
            files)
  unfolding measured
  alter_entry-IsShown i old files hp hs shown j f e =
      let edit =
        measured doubles (file_segments seen.pieces (layout_of info i)) (info.file_size i) in
      let law = sym (entry_at-alter_entry i j edit files (λ g. refl)) ∙ e in
      elim (Bool-cases (i == j)) [
        | inl here ↦
            let same : i ≡ j = ground arith in
            inr (
              subst (λ k. IsExact k f) same
                (edited-IsExact i (entry_at j files) f hp hs (rw here at law)))
        | inr there ↦ shown j f (rw there at law)
      ]

  pub refresh-IsShown :
      (is : List ℕ) (old files : List (TaskFile Rate)) (dirty : Bool)
      → 1 ≤ info.piece_length
      → IsShown old files
      → IsShown old (refresh doubles info seen is (files, dirty)).0
  unfolding refresh
  refresh-IsShown [] old files dirty hp shown = shown
  refresh-IsShown (i ∷ is) old files dirty hp shown =
      let size = info.file_size i in
      let edit = measured doubles (file_segments seen.pieces (layout_of info i)) size in
      if_intro (λ (r : List (TaskFile Rate) × Bool). IsShown old (refresh doubles info seen is r).0)
        (size == 0) (files, dirty) (alter_entry i edit files, true)
        (λ empty. refresh-IsShown is old files dirty hp shown)
        (λ some_bytes.
          refresh-IsShown is old (alter_entry i edit files) true hp
            (alter_entry-IsShown i old files hp (ground arith) shown))

  -- When a piece has finished, each entry of the list is as it was, or it is dirty and shows the bitmap
  -- that was asked for then: byte `k` of the file lies in one of its segments exactly when the piece
  -- that holds the byte has arrived and the byte is in the file, and its bytes done are the bytes in its
  -- segments.
  pub piece_finished-IsExact :
      (piece : ℤ) (files : List (TaskFile Rate)) (j : ℕ) (f : TaskFile Rate)
      → entry_at j (piece_finished doubles info seen piece files).0 ≡ some f
      → (entry_at j files ≡ some f) ⊎ IsExact j f
  unfolding piece_finished
  piece_finished-IsExact piece files =
      if_intro (λ (r : List (TaskFile Rate) × Bool). IsShown files r.0)
        (ltb_ℤ piece (pos 0) || ltb_ℤ info.last_piece piece || info.piece_length == 0)
        (files, false)
        (refresh doubles info seen (pending doubles info seen files (info.map_block piece))
          (files, false))
        (λ refused j f e. inl e)
        (λ taken.
          refresh-IsShown (pending doubles info seen files (info.map_block piece)) files files false
            (ground arith) (λ j f e. inl e))
