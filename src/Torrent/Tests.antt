-- ===== src/Torrent/Tests.antt =====
-- The theorems of the torrent engine at concrete inputs.
use download_wrapper.Base.{
  ℕ, ◌+◌, ◌/◌, ◌≤◌, ◌≡◌, refl, Bool, true, ◌&&◌, ◌||◌, none, some, List, [], ◌∷◌, All, ◌==◌, ltb,
  ◌⊎◌, if◌then◌else◌, arith, false,
}
use download_wrapper.Base.Int.{ℤ, pos}
use download_wrapper.Text.{codes}
use download_wrapper.Manager.TaskFile.{TaskFile, no_file}
use download_wrapper.Torrent.Segments.{Layout, finish_in, start_in, file_segments}
use download_wrapper.Torrent.Segments.Ordered.{IsGapped, bytes_in, file_segments-IsGapped}
use download_wrapper.Torrent.Segments.Exact.{covers, covers-file_segments}
use download_wrapper.Torrent.Files.{
  Doubles, TorrentInfo, Snapshot, entry_at, is_pending, parsed_files, piece_finished,
}
use download_wrapper.Torrent.Files.Listing.{IsAscending}
use download_wrapper.Torrent.Files.Sound.{IsSound}
use download_wrapper.Torrent.Files.Kept.{
  Event, parsed, piece, completed, after_all, after_all-IsSound,
}
use download_wrapper.Torrent.Files.Measured.{IsExact, piece_finished-IsExact}
use download_wrapper.Torrent.Files.Reported.{piece_finished-pending}
use download_wrapper.Torrent.Adding.{shown_files}
use download_wrapper.Torrent.Lifecycle.{
  EngineConfig, Lifecycle, limits_of, init, status_turns, no_limits,
}
use download_wrapper.Torrent.Lifecycle.Limited.{status_turns-limits_of}
use download_wrapper.Torrent.Adding.Listed.{identity_of, shown_files-parsed_files}

-- A file of 25 bytes at byte 5, in pieces of 10 bytes.
abbrev a_layout : Layout
a_layout = record { offset = 5; size = 25; piece_length = 10 }

abbrev outer_pieces : ℕ → Bool
outer_pieces p = p == 0 || p == 2

file_segments-IsGapped_example :
    IsGapped 0 (file_segments outer_pieces a_layout).segments 25
    × ((file_segments outer_pieces a_layout).done
        ≡ bytes_in (file_segments outer_pieces a_layout).segments)
    × ((file_segments outer_pieces a_layout).done ≤ 25)
file_segments-IsGapped_example =
    file_segments-IsGapped outer_pieces a_layout (omega arith) (omega arith)

covers-file_segments_example :
    covers (file_segments outer_pieces a_layout).segments 7
    ≡ (ltb 7 25 && outer_pieces ((5 + 7) / 10))
covers-file_segments_example =
    covers-file_segments outer_pieces a_layout 7 (omega arith) (omega arith)

-- Ratios as pairs of byte counts; every change counts as large.
abbrev pairs : Doubles (ℤ × ℤ)
pairs = record {
  nought = (pos 0, pos 1);
  one = (pos 1, pos 1);
  ratio = λ a b. (a, b);
  has_moved = λ a b. true;
}

-- Two files, a byte of padding between them.
abbrev two_files : TorrentInfo
two_files = record {
  num_files = 3;
  pad_file_at = λ i. i == 1;
  file_path = λ i. codes "d/a.mp4";
  file_size = λ i. if i == 0 then 25 else if i == 1 then 5 else 0;
  file_offset = λ i. if i == 0 then 0 else if i == 1 then 25 else 30;
  piece_length = 10;
  last_piece = pos 2;
  map_block = λ p. 0 ∷ 1 ∷ [];
}

abbrev a_snapshot : Snapshot
a_snapshot = record {
  save_path = codes "/s";
  priorities = pos 4 ∷ pos 0 ∷ pos 7 ∷ [];
  progress = pos 15 ∷ pos 5 ∷ pos 0 ∷ [];
  pieces = outer_pieces;
}

abbrev an_entry : TaskFile (ℤ × ℤ)
an_entry = record (no_file (pos 0, pos 1)) {
  file_index = pos 0;
  task_id = codes "ab";
  total_size = pos 25;
  total_done = pos 3;
  segments = (pos 0, pos 2) ∷ [];
}

an_entry-IsSound : IsSound two_files an_entry
an_entry-IsSound = record {
  index = 0;
  size_is = refl;
  counts = record {
    done = 3;
    ranges = (0, 2) ∷ [];
    index_is = refl;
    done_is = refl;
    ranges_are = refl;
    gapped = omega arith;
    held = omega arith;
    within = omega arith;
  };
}

abbrev some_events : List Event
some_events = parsed a_snapshot ∷ piece a_snapshot (pos 2) ∷ completed 2 ∷ []

after_all-IsSound_example :
    IsAscending 0 (after_all pairs (codes "ab") two_files some_events (an_entry ∷ []))
    × All (IsSound two_files) (after_all pairs (codes "ab") two_files some_events (an_entry ∷ []))
after_all-IsSound_example =
    after_all-IsSound pairs (codes "ab") two_files some_events (an_entry ∷ []) (omega arith)
      (an_entry-IsSound, tt)

-- The entry as a piece that has finished leaves it: two segments, with the middle piece missing.
abbrev after_piece : TaskFile (ℤ × ℤ)
after_piece = record an_entry {
  total_done = pos 15;
  progress = (pos 15, pos 25);
  segments = (pos 0, pos 9) ∷ (pos 20, pos 24) ∷ [];
  dirty = true;
}

after_piece_lem :
    entry_at 0 (piece_finished pairs two_files a_snapshot (pos 2) (an_entry ∷ [])).0
    ≡ some after_piece
unfolding piece_finished is_pending file_segments entry_at finish_in start_in
after_piece_lem = refl

piece_finished-IsExact_example :
    (entry_at 0 (an_entry ∷ []) ≡ some after_piece)
    ⊎ IsExact pairs two_files a_snapshot 0 after_piece
piece_finished-IsExact_example =
    piece_finished-IsExact pairs two_files a_snapshot (pos 2) (an_entry ∷ []) 0 after_piece
      after_piece_lem

an_entry_here : entry_at 0 (an_entry ∷ []) ≡ some an_entry
unfolding entry_at
an_entry_here = refl

an_entry_moved : is_pending pairs two_files a_snapshot (an_entry ∷ []) 0 ≡ true
unfolding is_pending
an_entry_moved = refl

piece_finished-pending_example :
    (f : TaskFile (ℤ × ℤ)) × (entry_at 0
        (piece_finished pairs two_files a_snapshot (pos 2) (an_entry ∷ [])).0
      ≡ some f)
    × IsExact pairs two_files a_snapshot 0 f
piece_finished-pending_example =
    piece_finished-pending pairs two_files a_snapshot (pos 2) (an_entry ∷ []) 0 an_entry refl
      (omega arith) (omega arith) refl an_entry_here an_entry_moved

shown_files-parsed_files_example :
    identity_of (entry_at 2 (shown_files pairs (codes "ab") two_files 3 0))
    ≡ identity_of (entry_at 2 (parsed_files pairs (codes "ab") two_files a_snapshot 3 0 []))
shown_files-parsed_files_example =
    shown_files-parsed_files pairs (codes "ab") two_files a_snapshot 2

abbrev limited_to : ℕ → EngineConfig
limited_to n = record {
  download_rate_limit = pos n;
  upload_rate_limit = pos 0;
  trackers = [];
  listen_port = pos 6881;
}

abbrev not_started : Lifecycle
not_started = record {
  session = none;
  running = false;
  has_manager = true;
  default_trackers = [];
  initialized = false;
  alive = 0;
}

status_turns-limits_of_example :
    (status_turns
      (limited_to 100 ∷ limited_to 100 ∷ limited_to 50 ∷ [])
      no_limits
      (init true (limited_to 7) not_started).1).1.session
    ≡ some (limits_of (limited_to 50))
status_turns-limits_of_example =
    status_turns-limits_of (limited_to 7) (limited_to 100) (limited_to 100 ∷ limited_to 50 ∷ [])
      not_started refl refl refl refl
