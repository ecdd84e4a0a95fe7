-- ===== src/Torrent/Files/Kept.antt =====
-- What the events of a torrent keep of the list of its files.
use download_wrapper.Base.{
  ℕ, suc, ◌-◌, ◌≤◌, ◌≡◌, refl, sym, ap, subst, ◌∙◌, inl, inr, Bool, true, false, ◌||◌, none, some,
  List, [], ◌∷◌, All, ◌==◌, ltb, Bool-cases, if_intro, arith,
}
use download_wrapper.Base.Int.{ℤ, pos, ltb_ℤ, eqb_ℤ, ◌-ℤ◌, pos_part}
use download_wrapper.Text.{Text}
use download_wrapper.Manager.TaskFile.{TaskFile}
use download_wrapper.Torrent.Segments.{file_segments}
use download_wrapper.Torrent.Segments.Ordered.{file_segments-IsGapped}
use download_wrapper.Torrent.Files.{
  Doubles, TorrentInfo, Snapshot, layout_of, entry_at, alter_entry, parsed_files, measured, refresh,
  pending, piece_finished, completed_file, completed_at, file_completed,
}
use download_wrapper.Torrent.Files.Listing.{IsAscending, entry_at-parsed_files}
use download_wrapper.Torrent.Files.Sound.{IsSound, parsed_files-IsSound, alter_entry-IsSound}

-- What happens to the files of a torrent: its metadata are parsed, a piece has arrived, a file is
-- complete; each with what the handle reports then.
pub data Event : Type 0 where
  parsed : Snapshot → Event
  piece : Snapshot → ℤ → Event
  completed : ℕ → Event

module _ {Rate : Type 0} (doubles : Doubles Rate) (info_hash : Text) (info : TorrentInfo) where
  abbrev pub after : Event → List (TaskFile Rate) → List (TaskFile Rate)
  after (parsed seen) files = parsed_files doubles info_hash info seen info.num_files 0 files
  after (piece seen p) files = (piece_finished doubles info seen p files).0
  after (completed i) files = (file_completed doubles i files).0

  abbrev pub after_all : List Event → List (TaskFile Rate) → List (TaskFile Rate)
  after_all [] files = files
  after_all (e ∷ es) files = after_all es (after e files)

  pos_injective : {m n : ℕ} → pos m ≡ pos n → m ≡ n
  pos_injective e = cc

  measured-IsSound :
      (seen : Snapshot) (i : ℕ) (f : TaskFile Rate)
      → 1 ≤ info.piece_length
      → 1 ≤ info.file_size i
      → f.file_index ≡ pos i
      → IsSound info f
      → IsSound info
          (measured doubles (file_segments seen.pieces (layout_of info i)) (info.file_size i) f)
  unfolding measured
  measured-IsSound seen i f hp hs e s =
      let p = file_segments seen.pieces (layout_of info i) in
      let (gapped, counted, within) = file_segments-IsGapped seen.pieces (layout_of info i) hs hp in
      record {
        index = i;
        size_is =
            s.size_is
            ∙ ap (λ k. pos (info.file_size k)) (pos_injective (sym s.counts.index_is ∙ e));
        counts = record {
          done = p.done;
          ranges = p.segments;
          index_is = e;
          done_is = refl;
          ranges_are = refl;
          gapped = gapped;
          held = omega (arith, counted);
          within = within;
        };
      }

  whole_range :
      {z : ℤ} {n : ℕ}
      → z ≡ pos n
      → ltb 0 n ≡ true
      → ◌≡◌ {A = List (ℤ × ℤ)} ((pos 0, z -ℤ pos 1) ∷ []) ((pos 0, pos (n - 1)) ∷ [])
  unfolding ◌-ℤ◌
  whole_range e h = ground arith

  completed_file-IsSound :
      (f : TaskFile Rate) → IsSound info f → IsSound info (completed_file doubles f)
  unfolding completed_file
  completed_file-IsSound f s =
      let size = info.file_size s.index in
      let positive : ltb_ℤ (pos 0) f.total_size ≡ ltb 0 size =
        ap (λ z. ltb_ℤ (pos 0) z) s.size_is ∙ ground arith in
      elim (Bool-cases (ltb 0 size)) [
        | inl some_bytes ↦ record {
          index = s.index;
          size_is = s.size_is;
          counts = record {
            done = size;
            ranges = (0, size - 1) ∷ [];
            index_is = s.counts.index_is;
            done_is = s.size_is;
            ranges_are = rw (positive, some_bytes) (whole_range s.size_is some_bytes);
            gapped = ground arith;
            held = ground arith;
            within = omega arith;
          };
        }
        | inr empty ↦ record {
          index = s.index;
          size_is = s.size_is;
          counts = record {
            done = size;
            ranges = [];
            index_is = s.counts.index_is;
            done_is = s.size_is;
            ranges_are = rw (positive, empty) refl;
            gapped = tt;
            held = omega arith;
            within = omega arith;
          };
        }
      ]

  refresh-IsSound :
      (seen : Snapshot) (is : List ℕ) (files : List (TaskFile Rate)) (dirty : Bool)
      → 1 ≤ info.piece_length
      → All (IsSound info) files
      → All (IsSound info) (refresh doubles info seen is (files, dirty)).0
  unfolding refresh
  refresh-IsSound seen [] files dirty hp s = s
  refresh-IsSound seen (i ∷ is) files dirty hp s =
      let size = info.file_size i in
      let edit = measured doubles (file_segments seen.pieces (layout_of info i)) size in
      if_intro
        (λ (r : List (TaskFile Rate) × Bool). All (IsSound info) (refresh doubles info seen is r).0)
        (size == 0) (files, dirty) (alter_entry i edit files, true)
        (λ empty. refresh-IsSound seen is files dirty hp s)
        (λ some_bytes. refresh-IsSound seen is (alter_entry i edit files) true hp (
          alter_entry-IsSound info doubles i edit files
            (λ f e t. measured-IsSound seen i f hp (ground arith) e t) s))

  after-IsSound :
      (e : Event) (files : List (TaskFile Rate))
      → All (IsSound info) files
      → All (IsSound info) (after e files)
  unfolding piece_finished file_completed
  after-IsSound (parsed seen) files s =
      parsed_files-IsSound info doubles info_hash seen info.num_files 0 files s
  after-IsSound (piece seen p) files s =
      if_intro (λ (r : List (TaskFile Rate) × Bool). All (IsSound info) r.0)
        (ltb_ℤ p (pos 0) || ltb_ℤ info.last_piece p || info.piece_length == 0) (files, false)
        (refresh doubles info seen (pending doubles info seen files (info.map_block p))
          (files, false))
        (λ refused. s)
        (λ taken.
          refresh-IsSound seen (pending doubles info seen files (info.map_block p)) files false
            (ground arith) s)
  after-IsSound (completed i) files s =
      elim (entry_at i files) as (λ o. All (IsSound info) (completed_at doubles i files o).0) [
        | none ↦ s
        | some f ↦
            alter_entry-IsSound info doubles i (completed_file doubles) files
              (λ g e t. completed_file-IsSound g t) s
      ]

  alter_entry-IsAscending :
      (i low : ℕ) (edit : TaskFile Rate → TaskFile Rate) (files : List (TaskFile Rate))
      → ((f : TaskFile Rate) → (edit f).file_index ≡ f.file_index)
      → IsAscending low files
      → IsAscending low (alter_entry i edit files)
  unfolding alter_entry
  alter_entry-IsAscending i low edit [] keeps a = tt
  alter_entry-IsAscending i low edit (f ∷ fs) keeps (x, a) =
      if_intro (IsAscending low) (eqb_ℤ f.file_index (pos i)) (edit f ∷ fs)
        (f ∷ alter_entry i edit fs)
        (λ e. (
          ground (arith, keeps f),
          subst (λ z. IsAscending (suc (pos_part z)) fs) (sym (keeps f)) a,
        ))
        (λ e. (x, alter_entry-IsAscending i (suc (pos_part f.file_index)) edit fs keeps a))

  refresh-IsAscending :
      (seen : Snapshot) (is : List ℕ) (files : List (TaskFile Rate)) (dirty : Bool)
      → IsAscending 0 files
      → IsAscending 0 (refresh doubles info seen is (files, dirty)).0
  unfolding refresh measured
  refresh-IsAscending seen [] files dirty a = a
  refresh-IsAscending seen (i ∷ is) files dirty a =
      let size = info.file_size i in
      let edit = measured doubles (file_segments seen.pieces (layout_of info i)) size in
      if_intro
        (λ (r : List (TaskFile Rate) × Bool). IsAscending 0 (refresh doubles info seen is r).0)
        (size == 0) (files, dirty) (alter_entry i edit files, true)
        (λ empty. refresh-IsAscending seen is files dirty a)
        (λ some_bytes.
          refresh-IsAscending seen is (alter_entry i edit files) true
            (alter_entry-IsAscending i 0 edit files (λ f. refl) a))

  after-IsAscending :
      (e : Event) (files : List (TaskFile Rate))
      → IsAscending 0 files
      → IsAscending 0 (after e files)
  unfolding piece_finished file_completed completed_file
  after-IsAscending (parsed seen) files a =
      (entry_at-parsed_files doubles info_hash info seen 0 files a).0
  after-IsAscending (piece seen p) files a =
      if_intro (λ (r : List (TaskFile Rate) × Bool). IsAscending 0 r.0)
        (ltb_ℤ p (pos 0) || ltb_ℤ info.last_piece p || info.piece_length == 0) (files, false)
        (refresh doubles info seen (pending doubles info seen files (info.map_block p))
          (files, false))
        (λ refused. a)
        (λ taken.
          refresh-IsAscending seen (pending doubles info seen files (info.map_block p)) files false
            a)
  after-IsAscending (completed i) files a =
      elim (entry_at i files) as (λ o. IsAscending 0 (completed_at doubles i files o).0) [
        | none ↦ a
        | some f ↦ alter_entry-IsAscending i 0 (completed_file doubles) files (λ g. refl) a
      ]

  -- From a list in the order of its indices, with one entry for each, whose entries are sound, any
  -- sequence of parsed metadata, finished pieces and completed files of one torrent leaves such a list:
  -- each entry has the size of its file, its segments are in order, apart and within the file, and its
  -- bytes done are at least those of the segments and at most the size.
  pub after_all-IsSound :
      (es : List Event) (files : List (TaskFile Rate))
      → IsAscending 0 files
      → All (IsSound info) files
      → IsAscending 0 (after_all es files) × All (IsSound info) (after_all es files)
  after_all-IsSound [] files a s = (a, s)
  after_all-IsSound (e ∷ es) files a s =
      after_all-IsSound es (after e files) (after-IsAscending e files a) (after-IsSound e files s)
