-- ===== src/Torrent/Files/Reported.antt =====
-- A file that has moved by enough is brought up to date when one of its pieces finishes.
use download_wrapper.Base.{
  ℕ, ◌≤◌, ◌≡◌, refl, sym, ap, subst, ◌∙◌, inl, inr, Bool, true, false, ◌||◌, some, List, [], ◌∷◌,
  ◌==◌, Bool-cases, if_intro, arith,
}
use download_wrapper.Base.Int.{ℤ, pos, ltb_ℤ}
use download_wrapper.Manager.TaskFile.{TaskFile}
use download_wrapper.Torrent.Segments.{file_segments}
use download_wrapper.Torrent.Files.{
  Doubles, TorrentInfo, Snapshot, layout_of, entry_at, alter_entry, measured, refresh, is_pending,
  pending, piece_finished,
}
use download_wrapper.Torrent.Files.Measured.{
  IsExact, edited, entry_at-alter_entry, edited-IsExact, refresh-IsShown,
}

-- A file index is among some.
abbrev pub contains : ℕ → List ℕ → Bool
contains j [] = false
contains j (i ∷ is) = i == j || contains j is

module _ {Rate : Type 0} (doubles : Doubles Rate) (info : TorrentInfo) (seen : Snapshot) where
  contains-pending :
      (j : ℕ) (files : List (TaskFile Rate)) (is : List ℕ)
      → contains j is ≡ true
      → is_pending doubles info seen files j ≡ true
      → contains j (pending doubles info seen files is) ≡ true
  unfolding pending
  contains-pending j files [] h p = h
  contains-pending j files (i ∷ is) h p =
      let rest = pending doubles info seen files is in
      elim (Bool-cases (i == j)) [
        | inl here ↦
            let same : i ≡ j = ground arith in
            rw (ap (is_pending doubles info seen files) same ∙ p) (ground arith)
        | inr there ↦
            let later = contains-pending j files is (ground arith) p in
            if_intro (λ r. contains j r ≡ true) (is_pending doubles info seen files i) (i ∷ rest)
              rest (λ e. ground arith) (λ e. later)
      ]

  abbrev edit_of : ℕ → TaskFile Rate → TaskFile Rate
  edit_of i = measured doubles (file_segments seen.pieces (layout_of info i)) (info.file_size i)

  -- There is an entry for an index.
  abbrev IsPresent : ℕ → List (TaskFile Rate) → Type 0
  IsPresent j files = (f : TaskFile Rate) × (entry_at j files ≡ some f)

  alter_entry-IsPresent :
      (i j : ℕ) (files : List (TaskFile Rate))
      → IsPresent j files
      → IsPresent j (alter_entry i (edit_of i) files)
  unfolding measured
  alter_entry-IsPresent i j files (g, e) =
      let law = entry_at-alter_entry doubles info seen i j (edit_of i) files (λ h. refl) in
      elim (Bool-cases (i == j)) [
        | inl here ↦ (edit_of i g, rw here at law ∙ ap (edited doubles info seen (edit_of i)) e)
        | inr there ↦ (g, rw there at law ∙ e)
      ]

  refresh-IsPresent :
      (is : List ℕ) (j : ℕ) (files : List (TaskFile Rate)) (dirty : Bool)
      → IsPresent j files
      → IsPresent j (refresh doubles info seen is (files, dirty)).0
  unfolding refresh
  refresh-IsPresent [] j files dirty p = p
  refresh-IsPresent (i ∷ is) j files dirty p =
      if_intro (λ (r : List (TaskFile Rate) × Bool). IsPresent j (refresh doubles info seen is r).0)
        (info.file_size i == 0) (files, dirty) (alter_entry i (edit_of i) files, true)
        (λ empty. refresh-IsPresent is j files dirty p)
        (λ some_bytes.
          refresh-IsPresent is j (alter_entry i (edit_of i) files) true
            (alter_entry-IsPresent i j files p))

  -- Once the list was altered at an index, the entry there shows the bitmap, and stays so.
  altered-IsExact :
      (is : List ℕ) (j : ℕ) (files : List (TaskFile Rate)) (f : TaskFile Rate)
      → 1 ≤ info.piece_length
      → 1 ≤ info.file_size j
      → entry_at j (refresh doubles info seen is (alter_entry j (edit_of j) files, true)).0 ≡ some f
      → IsExact doubles info seen j f
  unfolding measured
  altered-IsExact is j files f hp hs e =
      let altered = alter_entry j (edit_of j) files in
      let law = entry_at-alter_entry doubles info seen j j (edit_of j) files (λ h. refl) in
      let here : (j == j) ≡ true = ground arith in
      elim (refresh-IsShown doubles info seen is altered altered true hp (λ i g h. inl h) j f e) [
        | inl same ↦
            edited-IsExact doubles info seen j (entry_at j files) f hp hs
              (sym (rw here at law) ∙ same)
        | inr exact ↦ exact
      ]

  -- The rest of the loop leaves an entry that shows the bitmap.
  abbrev Reports : List ℕ → ℕ → TaskFile Rate → List (TaskFile Rate) × Bool → Type 0
  Reports is j f r =
      entry_at j (refresh doubles info seen is r).0 ≡ some f → IsExact doubles info seen j f

  refresh-IsExact :
      (is : List ℕ) (j : ℕ) (files : List (TaskFile Rate)) (dirty : Bool) (f : TaskFile Rate)
      → 1 ≤ info.piece_length
      → 1 ≤ info.file_size j
      → contains j is ≡ true
      → entry_at j (refresh doubles info seen is (files, dirty)).0 ≡ some f
      → IsExact doubles info seen j f
  unfolding refresh
  refresh-IsExact [] j files dirty f hp hs h e = absurd (cc)
  refresh-IsExact (i ∷ is) j files dirty f hp hs h e = elim (Bool-cases (i == j)) [
    | inl here ↦
        let same : i ≡ j = ground arith in
        let some_bytes : (info.file_size i == 0) ≡ false = rw same (ground arith) in
        if_intro (Reports is j f) (info.file_size i == 0) (files, dirty)
          (alter_entry i (edit_of i) files, true) (λ empty e'. absurd (cc))
          (λ other e'. altered-IsExact is j files f hp hs (
            subst
              (λ k.
                entry_at j (refresh doubles info seen is (alter_entry k (edit_of k) files, true)).0
                ≡ some f)
              same e'))
          e
    | inr there ↦
        let later : contains j is ≡ true = ground arith in
        if_intro (Reports is j f) (info.file_size i == 0) (files, dirty)
          (alter_entry i (edit_of i) files, true)
          (λ empty e'. refresh-IsExact is j files dirty f hp hs later e')
          (λ some_bytes e'.
            refresh-IsExact is j (alter_entry i (edit_of i) files) true f hp hs later e')
          e
  ]

  -- When a piece of the torrent has finished, a file of at least one byte that the piece touches, that
  -- has an entry, and whose progress has moved by more than the threshold since it was last entered, has
  -- an entry that shows the bitmap asked for then: its segments hold exactly the bytes of the file whose
  -- pieces have arrived, and its bytes done are those of the segments.
  pub piece_finished-pending :
      (piece : ℤ) (files : List (TaskFile Rate)) (j : ℕ) (g : TaskFile Rate)
      → (ltb_ℤ piece (pos 0) || ltb_ℤ info.last_piece piece) ≡ false
      → 1 ≤ info.piece_length
      → 1 ≤ info.file_size j
      → contains j (info.map_block piece) ≡ true
      → entry_at j files ≡ some g
      → is_pending doubles info seen files j ≡ true
      → (f : TaskFile Rate) × (entry_at j (piece_finished doubles info seen piece files).0 ≡ some f)
        × IsExact doubles info seen j f
  unfolding piece_finished
  piece_finished-pending piece files j g inside hp hs touched present moved =
      let is = pending doubles info seen files (info.map_block piece) in
      let (f, e) = refresh-IsPresent is j files false (g, present) in
      let taken : (ltb_ℤ piece (pos 0) || ltb_ℤ info.last_piece piece || info.piece_length == 0)
          ≡ false =
        ground arith in
      (
        f,
        rw taken e,
        refresh-IsExact is j files false f hp hs
            (contains-pending j files (info.map_block piece) touched moved) e,
      )
