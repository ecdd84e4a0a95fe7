-- ===== src/Torrent/Files/Listing.antt =====
-- The list of a task's files is kept in the order of their indices, with one entry for each.
use download_wrapper.Base.{
  ℕ, zero, suc, ◌+◌, ◌≤◌, ◌<◌, ◌≡◌, refl, sym, ap, subst, ◌∙◌, inl, inr, true, ◌&&◌, not, Option,
  none, some, List, [], ◌∷◌, ◌==◌, ltb, leb, Bool-cases, if_intro, if◌then◌else◌, get_elem?, arith,
}
use download_wrapper.Base.Int.{ℤ, pos, ltb_ℤ, eqb_ℤ, ◌≤ℤ◌, pos_part}
use download_wrapper.Text.{Text}
use download_wrapper.Manager.TaskFile.{TaskFile}
use download_wrapper.Torrent.Files.{
  Doubles, TorrentInfo, Snapshot, blank, entry_at, edit_entry, described, counted, rated,
  prioritized, parsed_file, parsed_files,
}

module _ {Rate : Type 0} where
  -- From index `low` on, in increasing order, and so without a second entry for an index.
  abbrev pub IsAscending : ℕ → List (TaskFile Rate) → Type 0
  IsAscending low [] = Unit
  IsAscending low (f ∷ fs) =
      (pos low ≤ℤ f.file_index) × IsAscending (suc (pos_part f.file_index)) fs

  IsAscending-le :
      (low high : ℕ) (files : List (TaskFile Rate))
      → low ≤ high
      → IsAscending high files
      → IsAscending low files
  IsAscending-le low high [] h a = tt
  IsAscending-le low high (f ∷ fs) h (x, a) = (omega arith, a)

  entry_at-below :
      (i low : ℕ) (files : List (TaskFile Rate))
      → IsAscending low files
      → i < low
      → entry_at i files ≡ none
  unfolding entry_at
  entry_at-below i low [] a h = refl
  entry_at-below i low (f ∷ fs) (x, a) h =
      ground (arith, entry_at-below i (suc (pos_part f.file_index)) fs a)

  module _ (doubles : Doubles Rate) where
    -- The entry of an index, or a new one.
    abbrev pub entry_or_blank : ℕ → Option (TaskFile Rate) → TaskFile Rate
    entry_or_blank i none = blank doubles i
    entry_or_blank i (some f) = f

    module _ (edit : TaskFile Rate → TaskFile Rate)
        (keeps : (f : TaskFile Rate) → (edit f).file_index ≡ f.file_index) where
      edit_entry-IsAscending :
          (i low : ℕ) (files : List (TaskFile Rate))
          → low ≤ i
          → IsAscending low files
          → IsAscending low (edit_entry doubles i edit files)
      unfolding edit_entry
      edit_entry-IsAscending i low [] h a = (ground (arith, keeps (blank doubles i)), tt)
      edit_entry-IsAscending i low (f ∷ fs) h (x, a) =
          let later : ltb_ℤ f.file_index (pos i) ≡ true → suc (pos_part f.file_index) ≤ i =
            λ e. ground arith in
          if_intro (IsAscending low) (ltb_ℤ f.file_index (pos i)) (f ∷ edit_entry doubles i edit fs)
            (if eqb_ℤ f.file_index (pos i) then edit f ∷ fs else edit (blank doubles i) ∷ f ∷ fs)
            (λ e. (x, edit_entry-IsAscending i (suc (pos_part f.file_index)) fs (later e) a))
            (λ e.
              if_intro (IsAscending low) (eqb_ℤ f.file_index (pos i)) (edit f ∷ fs)
                (edit (blank doubles i) ∷ f ∷ fs)
                (λ same. (
                  ground (arith, keeps f),
                  subst (λ z. IsAscending (suc (pos_part z)) fs) (sym (keeps f)) a,
                ))
                (λ other. (
                  ground (arith, keeps (blank doubles i)),
                  (ground (arith, keeps (blank doubles i)), a),
                )))

      entry_at-edit_entry :
          (i j low : ℕ) (files : List (TaskFile Rate))
          → IsAscending low files
          → entry_at j (edit_entry doubles i edit files) ≡ (
              if i == j
              then some (edit (entry_or_blank i (entry_at i files)))
              else entry_at j files)
      unfolding entry_at edit_entry
      entry_at-edit_entry i j low [] a = ground (arith, keeps (blank doubles i))
      entry_at-edit_entry i j low (f ∷ fs) (x, a) = elim (Bool-cases (ltb_ℤ f.file_index (pos i))) [
        | inl e ↦ ground (arith, entry_at-edit_entry i j (suc (pos_part f.file_index)) fs a)
        | inr e ↦ elim (Bool-cases (eqb_ℤ f.file_index (pos i))) [
          | inl same ↦ ground (arith, keeps f)
          | inr other ↦
              ground (
                arith,
                keeps (blank doubles i),
                entry_at-below i (suc (pos_part f.file_index)) fs a,
              )
        ]
      ]

    file_index-prioritized :
        (o : Option ℤ) (f : TaskFile Rate) → (prioritized doubles o f).file_index ≡ f.file_index
    file_index-prioritized none f = refl
    file_index-prioritized (some p) f = refl

    file_index-counted :
        (o : Option ℤ) (f : TaskFile Rate) → (counted doubles o f).file_index ≡ f.file_index
    file_index-counted none f = refl
    file_index-counted (some d) f = refl

    module _ (info_hash : Text) (info : TorrentInfo) (seen : Snapshot) where
      pub file_index-parsed_file :
          (i : ℕ) (f : TaskFile Rate)
          → (parsed_file doubles info_hash info seen i f).file_index ≡ f.file_index
      unfolding parsed_file
      file_index-parsed_file i f =
          let g = described doubles info_hash info seen i f in
          file_index-prioritized (get_elem? seen.priorities i)
            (rated doubles (counted doubles (get_elem? seen.progress i) g))
          ∙ file_index-counted (get_elem? seen.progress i) g

      -- One round of the loop.
      abbrev pub round : ℕ → List (TaskFile Rate) → List (TaskFile Rate)
      round i files =
          if info.pad_file_at i
          then files
          else edit_entry doubles i (parsed_file doubles info_hash info seen i) files

      round-IsAscending :
          (i : ℕ) (files : List (TaskFile Rate))
          → IsAscending 0 files
          → IsAscending 0 (round i files)
      round-IsAscending i files a =
          if_intro (IsAscending 0) (info.pad_file_at i) files
            (edit_entry doubles i (parsed_file doubles info_hash info seen i) files) (λ e. a)
            (λ e.
              edit_entry-IsAscending (parsed_file doubles info_hash info seen i)
                (file_index-parsed_file i) i 0 files (omega arith) a)

      -- The entry that the loop leaves for a file of the torrent.
      abbrev pub listed : ℕ → Option (TaskFile Rate) → Option (TaskFile Rate)
      listed j old = some (parsed_file doubles info_hash info seen j (entry_or_blank j old))

      entry_at-round :
          (i j : ℕ) (files : List (TaskFile Rate))
          → IsAscending 0 files
          → entry_at j (round i files) ≡ (
              if i == j && not (info.pad_file_at j)
              then listed j (entry_at j files)
              else entry_at j files)
      entry_at-round i j files a =
          let law =
            entry_at-edit_entry (parsed_file doubles info_hash info seen i)
              (file_index-parsed_file i) i j 0 files a in
          elim (Bool-cases (info.pad_file_at i)) [
            | inl pad ↦ elim (Bool-cases (i == j)) [
              | inl e ↦
                  let same : i ≡ j = ground arith in
                  rw (pad, e, ap info.pad_file_at (sym same) ∙ pad) refl
              | inr e ↦ rw (pad, e) refl
            ]
            | inr file ↦ elim (Bool-cases (i == j)) [
              | inl e ↦
                  let same : i ≡ j = ground arith in
                  rw (file, e, ap info.pad_file_at (sym same) ∙ file)
                    (rw e at law ∙ ap (λ k. listed k (entry_at k files)) same)
              | inr e ↦ rw (file, e) (rw e at law)
            ]
          ]

      entry_at-parsed_files_from :
          (rounds i j : ℕ) (files : List (TaskFile Rate))
          → IsAscending 0 files
          → IsAscending 0 (parsed_files doubles info_hash info seen rounds i files)
            × (entry_at j (parsed_files doubles info_hash info seen rounds i files) ≡ (
                if leb i j && ltb j (i + rounds) && not (info.pad_file_at j)
                then listed j (entry_at j files)
                else entry_at j files))
      unfolding parsed_files
      entry_at-parsed_files_from zero i j files a = (a, ground arith)
      entry_at-parsed_files_from (suc rounds) i j files a =
          let (order, rest) =
            entry_at-parsed_files_from rounds (suc i) j (round i files)
              (round-IsAscending i files a) in
          (order, ground (arith, rest, entry_at-round i j files a))

      -- Of a list in the order of its indices, with one entry for each, the loop of `handle_parsed`
      -- leaves such a list; in it each file of the torrent that is no padding has the entry that is
      -- computed from the torrent and from the entry that it had, or from an empty one, and each other
      -- index has the entry that it had, or none.
      pub entry_at-parsed_files :
          (j : ℕ) (files : List (TaskFile Rate))
          → IsAscending 0 files
          → IsAscending 0 (parsed_files doubles info_hash info seen info.num_files 0 files)
            × (entry_at j (parsed_files doubles info_hash info seen info.num_files 0 files) ≡ (
                if ltb j info.num_files && not (info.pad_file_at j)
                then listed j (entry_at j files)
                else entry_at j files))
      entry_at-parsed_files j files a =
          let (order, rest) = entry_at-parsed_files_from info.num_files 0 j files a in
          (order, ground (arith, rest))
