-- ===== src/Playback/Tests.antt =====
-- The theorems of the playback proxy at concrete inputs, and runs of its functions.
use download_wrapper.Base.{ℕ, ◌≡◌, refl, true, none, some, [], ◌∷◌, arith}
use download_wrapper.Base.Int.{◌<ℤ◌, ℤ, pos, minus_one, pos_part, ◌+ℤ◌, ◌-ℤ◌}
use download_wrapper.Text.{codes, from_chars, digits_from, cut, after_prefix, digits, to_string}
use download_wrapper.Playback.Session.{Session, new_session, at, finished}
use download_wrapper.Playback.Request.{
  Files, FileInfo, Request, parse_range_header, parse_range, range_end_of,
}
use download_wrapper.Playback.Request.Ranges.{parse_range_header-to_string}
use download_wrapper.Playback.Stream.{File, Outside, bytes_from, run}
use download_wrapper.Playback.Stream.Delivery.{OnDisk, Good, run-Good}
use download_wrapper.Playback.Stream.Completion.{Serves, run-completes}

parse_open_range : parse_range_header (codes "bytes=5-") ≡ some (pos 5, minus_one)
unfolding parse_range_header parse_range range_end_of from_chars digits_from cut after_prefix
parse_open_range = refl

parse_closed_range : parse_range_header (codes "bytes=5-12") ≡ some (pos 5, pos 12)
unfolding parse_range_header parse_range range_end_of from_chars digits_from cut after_prefix
parse_closed_range = refl

abbrev a_request : Request
a_request = record {
  target = some (
    codes "/file",
    (codes "client_id", codes "c")
        ∷ (codes "type", codes "http")
        ∷ (codes "key", codes "k")
        ∷ (codes "file", codes "0")
        ∷ [],
  );
  range = codes "bytes=5-";
}

abbrev ten_bytes : Files
ten_bytes = record {
  file_info = λ client key index. FileInfo.found (codes "/d/f") (pos 10);
  end_of_file = λ path. some (pos 10);
}

-- Two bytes of a file of ten are asked for.
abbrev two_bytes : Session
two_bytes = record new_session { range_start = pos 3; range_end = pos 4; total_size = pos 10 }

abbrev sevens : ℤ → ℕ
sevens k = 7

abbrev sevens_file : File
sevens_file = record { length = pos 10; bytes = sevens }

abbrev calm : Outside
calm = record {
  ranges = (pos 0, pos 9) ∷ [];
  file = some sevens_file;
  header_written = true;
  cut_off = none;
  still_open = true;
}

all_there : OnDisk sevens (some sevens_file) (pos 0, pos 9)
all_there = record {
  opened = sevens_file;
  there = refl;
  long = omega arith;
  right = λ k lo hi. refl;
}

run-Good_example : Good sevens (pos 3) (pos 4) (run (calm ∷ []) two_bytes (at (pos 3)))
run-Good_example =
    run-Good sevens two_bytes (omega arith) (omega arith) refl (calm ∷ []) ((all_there, tt), tt)

-- The range lies over the end of one segment and the head of the next.
abbrev in_pieces : Outside
in_pieces = record calm { ranges = (pos 8, pos 9) ∷ (pos 0, pos 3) ∷ (pos 4, pos 6) ∷ [] }

there : (low high : ℤ) → high <ℤ pos 10 → OnDisk sevens (some sevens_file) (low, high)
there low high h = record { opened = sevens_file; there = refl; long = h; right = λ k lo hi. refl }

in_pieces-Serves : Serves sevens (pos 3) (pos 4) in_pieces
in_pieces-Serves = record {
  sound = (there _ _ (omega arith), (there _ _ (omega arith), (there _ _ (omega arith), tt)));
  downloaded = λ p lo hi. ground arith;
  reads_header = refl;
  reads_body = refl;
}

run-completes_example :
    ((run (in_pieces ∷ in_pieces ∷ []) two_bytes (at (pos 3))).1 ≡ finished)
    × ((run (in_pieces ∷ in_pieces ∷ []) two_bytes (at (pos 3))).0.body
        ≡ bytes_from sevens (pos 3) (pos_part (pos 4 -ℤ pos 3 +ℤ pos 1)))
unfolding ◌+ℤ◌
run-completes_example =
    run-completes sevens two_bytes (omega arith) (omega arith) refl (in_pieces ∷ in_pieces ∷ [])
      (in_pieces-Serves, (in_pieces-Serves, tt)) (omega arith)

parse_range_header-to_string_example :
    parse_range_header (codes "bytes=5-12") ≡ some (pos 5, pos 12)
unfolding to_string digits
parse_range_header-to_string_example = parse_range_header-to_string 5 12 (omega arith) (omega arith)
