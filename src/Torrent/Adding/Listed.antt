-- ===== src/Torrent/Adding/Listed.antt =====
-- The files that are shown before a torrent is added are those that its task has later.
use download_wrapper.Base.{
  ℕ, zero, suc, ◌+◌, ◌≡◌, refl, sym, ap, ◌∙◌, inl, inr, ◌&&◌, not, Option, none, some, [], ◌==◌,
  ltb, leb, Bool-cases, if◌then◌else◌, get_elem?, arith,
}
use download_wrapper.Base.Int.{ℤ}
use download_wrapper.Text.{Text}
use download_wrapper.Manager.TaskFile.{TaskFile}
use download_wrapper.Torrent.Files.{
  Doubles, TorrentInfo, Snapshot, blank, entry_at, parsed_files, parsed_file, described, counted,
  rated, prioritized,
}
use download_wrapper.Torrent.Files.Listing.{entry_at-parsed_files}
use download_wrapper.Torrent.Adding.{shown_file, shown_files}

module _ {Rate : Type 0} where
  -- What a file is: its index, its task, its path, its name, its extension, and its size.
  abbrev pub identity : TaskFile Rate → ℤ × Text × Text × Text × Text × ℤ
  identity f = (f.file_index, f.task_id, f.path, f.name, f.extension, f.total_size)

  abbrev pub identity_of : Option (TaskFile Rate) → Option (ℤ × Text × Text × Text × Text × ℤ)
  identity_of none = none
  identity_of (some f) = some (identity f)

  module _ (doubles : Doubles Rate) (hash : Text) (info : TorrentInfo) where
    entry_at-shown_files_from :
        (rounds i j : ℕ)
        → entry_at j (shown_files doubles hash info rounds i) ≡ (
            if leb i j && ltb j (i + rounds) && not (info.pad_file_at j)
            then some (shown_file doubles hash info j)
            else none)
    unfolding entry_at shown_files shown_file
    entry_at-shown_files_from zero i j = ground arith
    entry_at-shown_files_from (suc rounds) i j = elim (Bool-cases (i == j)) [
      | inl here ↦
          let same : i ≡ j = ground arith in
          ground (arith, same, ap info.pad_file_at same, entry_at-shown_files_from rounds (suc i) j)
      | inr there ↦ ground (arith, entry_at-shown_files_from rounds (suc i) j)
    ]

    identity-prioritized :
        (o : Option ℤ) (f : TaskFile Rate) → identity (prioritized doubles o f) ≡ identity f
    identity-prioritized none f = refl
    identity-prioritized (some p) f = refl

    identity-counted :
        (o : Option ℤ) (f : TaskFile Rate) → identity (counted doubles o f) ≡ identity f
    identity-counted none f = refl
    identity-counted (some d) f = refl

    identity-parsed_file :
        (seen : Snapshot) (j : ℕ)
        → identity (parsed_file doubles hash info seen j (blank doubles j))
          ≡ identity (shown_file doubles hash info j)
    unfolding parsed_file shown_file
    identity-parsed_file seen j =
        let g = described doubles hash info seen j (blank doubles j) in
        let c = counted doubles (get_elem? seen.progress j) g in
        identity-prioritized (get_elem? seen.priorities j) (rated doubles c)
        ∙ identity-counted (get_elem? seen.progress j) g

    -- At every index, the list that is shown for a torrent file before its task is added and the list that
    -- the task gets once its metadata are parsed, whatever the handle reports then, both have no file, or
    -- both have a file with the same index, task, path, name, extension and size.
    pub shown_files-parsed_files :
        (seen : Snapshot) (j : ℕ)
        → identity_of (entry_at j (shown_files doubles hash info info.num_files 0))
          ≡ identity_of (entry_at j (parsed_files doubles hash info seen info.num_files 0 []))
    unfolding entry_at
    shown_files-parsed_files seen j =
        let shown = entry_at-shown_files_from info.num_files 0 j in
        let parsed = (entry_at-parsed_files doubles hash info seen j [] tt).1 in
        elim (Bool-cases (ltb j info.num_files && not (info.pad_file_at j))) [
          | inl there ↦
              let left : entry_at j (shown_files doubles hash info info.num_files 0)
                  ≡ some (shown_file doubles hash info j) =
                ground (arith, shown) in
              ap identity_of left
              ∙ ap some (sym (identity-parsed_file seen j))
              ∙ sym (ap identity_of (rw there at parsed))
          | inr nothing ↦
              let left : entry_at j (shown_files doubles hash info info.num_files 0) ≡ none =
                ground (arith, shown) in
              ap identity_of left ∙ sym (ap identity_of (rw nothing at parsed))
        ]
