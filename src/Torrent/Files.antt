-- ===== src/Torrent/Files.antt =====
-- The files of a torrent task, in src/torrent/torrent_engine.cpp: the list that `handle_parsed` fills,
-- and the progress that `handle_piece_finished` and the `file_completed_alert` branch of `handle_alert`
-- enter in it. What libtorrent knows of a torrent is a parameter, and so are floating-point numbers.
-- Sizes and offsets are natural numbers: libtorrent gives no negative ones.
pub mod Listing
pub mod Sound
pub mod Kept
pub mod Measured
pub mod Reported
use download_wrapper.Base.{
  ℕ, zero, suc, ◌+◌, ◌-◌, Bool, true, false, ◌&&◌, ◌||◌, not, Option, none, some, List, [], ◌∷◌,
  ◌==◌, ltb, leb, if◌then◌else◌, get_elem?, map,
}
use download_wrapper.Base.Int.{ℤ, pos, ltb_ℤ, leb_ℤ, eqb_ℤ, ◌-ℤ◌}
use download_wrapper.Text.{Text, is_empty}
use download_wrapper.Http.Path.{join_path, filename_of, file_extension}
use download_wrapper.Manager.TaskFile.{TaskFile, no_file}
use download_wrapper.Torrent.Segments.{Layout, Segment, Progress, file_segments}

-- The numbers 0.0 and 1.0, the quotient of two byte counts, and `std::abs(a - b) > 0.001`.
pub record Doubles (Rate : Type 0) : Type 0 where
  pub nought : Rate
  pub one : Rate
  pub ratio : ℤ → ℤ → Rate
  pub has_moved : Rate → Rate → Bool

-- `torrent_info` and its `file_storage`: the files by index, and the files that a piece touches.
pub record TorrentInfo : Type 0 where
  pub num_files : ℕ
  pub pad_file_at : ℕ → Bool
  pub file_path : ℕ → Text
  pub file_size : ℕ → ℕ
  pub file_offset : ℕ → ℕ
  pub piece_length : ℕ
  pub last_piece : ℤ
  pub map_block : ℤ → List ℕ

-- What a handle reports: `query_save_path`, `get_file_priorities`, `file_progress`, and the bitmap of
-- `query_pieces`, false behind its end.
pub record Snapshot : Type 0 where
  pub save_path : Text
  pub priorities : List ℤ
  pub progress : List ℤ
  pub pieces : ℕ → Bool

abbrev pub clamp : ℤ → ℤ → ℤ → ℤ
clamp x low high = if ltb_ℤ x low then low else if ltb_ℤ high x then high else x

abbrev pub to_ℤ : Segment → ℤ × ℤ
to_ℤ (a, b) = (pos a, pos b)

abbrev pub layout_of : TorrentInfo → ℕ → Layout
layout_of info i = record {
  offset = info.file_offset i;
  size = info.file_size i;
  piece_length = info.piece_length;
}

module _ {Rate : Type 0} where
  -- `find_if` by the index
  unfoldable pub entry_at : ℕ → List (TaskFile Rate) → Option (TaskFile Rate)
  entry_at i [] = none
  entry_at i (f ∷ fs) = if eqb_ℤ f.file_index (pos i) then some f else entry_at i fs

  -- A change of the entry of an index, where there is one.
  unfoldable pub alter_entry :
      ℕ → (TaskFile Rate → TaskFile Rate) → List (TaskFile Rate) → List (TaskFile Rate)
  alter_entry i edit [] = []
  alter_entry i edit (f ∷ fs) =
      if eqb_ℤ f.file_index (pos i) then edit f ∷ fs else f ∷ alter_entry i edit fs

  module _ (doubles : Doubles Rate) where
    -- `emplace` of an entry for an index that has none
    abbrev pub blank : ℕ → TaskFile Rate
    blank i = record (no_file doubles.nought) { file_index = pos i }

    -- The entry of an index is edited, and made first where it is missing; `lower_bound` gives the first
    -- entry whose index is not smaller.
    unfoldable pub edit_entry :
        ℕ → (TaskFile Rate → TaskFile Rate) → List (TaskFile Rate) → List (TaskFile Rate)
    edit_entry i edit [] = edit (blank i) ∷ []
    edit_entry i edit (f ∷ fs) =
        if ltb_ℤ f.file_index (pos i)
        then f ∷ edit_entry i edit fs
        else if eqb_ℤ f.file_index (pos i)
        then edit f ∷ fs
        else edit (blank i) ∷ f ∷ fs

    -- The bytes that are done, by the reported progress; they may have become fewer.
    abbrev pub counted : Option ℤ → TaskFile Rate → TaskFile Rate
    counted none f = f
    counted (some reported) f =
        let total_done = clamp reported (pos 0) f.total_size in
        record f {
          segments = if ltb_ℤ total_done f.total_done then [] else f.segments;
          total_done = total_done;
        }

    abbrev pub rated : TaskFile Rate → TaskFile Rate
    rated f = record f {
      progress =
          if ltb_ℤ (pos 0) f.total_size
          then doubles.ratio f.total_done f.total_size
          else doubles.one;
    }

    abbrev pub prioritized : Option ℤ → TaskFile Rate → TaskFile Rate
    prioritized none f = f
    prioritized (some p) f = record f { prioritize = p }

    abbrev pub described : Text → TorrentInfo → Snapshot → ℕ → TaskFile Rate → TaskFile Rate
    described info_hash info seen i f =
        let path = info.file_path i in
        record f {
          task_id = info_hash;
          path = path;
          full_path =
              if is_empty seen.save_path then f.full_path else join_path seen.save_path path;
          name = filename_of path;
          extension = file_extension path;
          total_size = pos (info.file_size i);
        }

    unfoldable pub parsed_file : Text → TorrentInfo → Snapshot → ℕ → TaskFile Rate → TaskFile Rate
    parsed_file info_hash info seen i f =
        prioritized (get_elem? seen.priorities i)
          (rated (counted (get_elem? seen.progress i) (described info_hash info seen i f)))

    -- The loop of `handle_parsed` over the files of the torrent, from index `i` on.
    unfoldable pub parsed_files :
        Text → TorrentInfo → Snapshot → ℕ → ℕ → List (TaskFile Rate) → List (TaskFile Rate)
    unfolding edit_entry parsed_file
    parsed_files info_hash info seen zero i files = files
    parsed_files info_hash info seen (suc rounds) i files =
        parsed_files info_hash info seen rounds (suc i) (
          if info.pad_file_at i
          then files
          else edit_entry i (parsed_file info_hash info seen i) files)

    -- A file that a piece touches, if its progress has moved far enough since it was last entered.
    abbrev pub is_pending_file : Snapshot → ℕ → TaskFile Rate → Bool
    is_pending_file seen i f = ltb_ℤ (pos 0) f.total_size && (elim (get_elem? seen.progress i) [
      | none ↦ false
      | some reported ↦
          let done = clamp reported (pos 0) f.total_size in
          doubles.has_moved (doubles.ratio done f.total_size) f.progress
    ])

    unfoldable pub is_pending : TorrentInfo → Snapshot → List (TaskFile Rate) → ℕ → Bool
    unfolding entry_at
    is_pending info seen files i =
        not (info.pad_file_at i)
        && (elim (entry_at i files) [ none ↦ false | some f ↦ is_pending_file seen i f ])

    unfoldable pub pending : TorrentInfo → Snapshot → List (TaskFile Rate) → List ℕ → List ℕ
    unfolding is_pending
    pending info seen files [] = []
    pending info seen files (i ∷ is) =
        let rest = pending info seen files is in
        if is_pending info seen files i then i ∷ rest else rest

    -- The segments and the bytes of a file, from one bitmap.
    unfoldable pub measured : Progress → ℕ → TaskFile Rate → TaskFile Rate
    measured p size f = record f {
      segments = map to_ℤ p.segments;
      total_done = pos p.done;
      progress = doubles.ratio (pos p.done) (pos size);
      dirty = true;
    }

    -- The loop over the pending files, and whether one of them was changed.
    unfoldable pub refresh :
        TorrentInfo → Snapshot → List ℕ → List (TaskFile Rate) × Bool → List (TaskFile Rate) × Bool
    unfolding alter_entry measured file_segments
    refresh info seen [] s = s
    refresh info seen (i ∷ is) (files, dirty) =
        let size = info.file_size i in
        refresh info seen is (
          if size == 0 then (files, dirty) else (
            alter_entry i (measured (file_segments seen.pieces (layout_of info i)) size) files,
            true,
          ))

    -- `handle_piece_finished`, behind the lookup of the task: the files, and whether the task is dirty now.
    unfoldable pub piece_finished :
        TorrentInfo → Snapshot → ℤ → List (TaskFile Rate) → List (TaskFile Rate) × Bool
    unfolding refresh pending
    piece_finished info seen piece files =
        if ltb_ℤ piece (pos 0) || ltb_ℤ info.last_piece piece || info.piece_length == 0
        then (files, false)
        else refresh info seen (pending info seen files (info.map_block piece)) (files, false)

    -- A file that is complete: it is one segment, or none if it is empty.
    unfoldable pub completed_file : TaskFile Rate → TaskFile Rate
    completed_file f = record f {
      total_done = f.total_size;
      progress = doubles.one;
      segments = if ltb_ℤ (pos 0) f.total_size then (pos 0, f.total_size -ℤ pos 1) ∷ [] else [];
      dirty = true;
    }

    -- By what `find_if` gives for the index.
    abbrev pub completed_at :
        ℕ → List (TaskFile Rate) → Option (TaskFile Rate) → List (TaskFile Rate) × Bool
    completed_at i files none = (files, false)
    completed_at i files (some f) = (alter_entry i completed_file files, true)

    unfoldable pub file_completed : ℕ → List (TaskFile Rate) → List (TaskFile Rate) × Bool
    unfolding alter_entry completed_file entry_at
    file_completed i files = completed_at i files (entry_at i files)
