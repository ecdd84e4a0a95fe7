-- ===== src/Store/Tests.antt =====
-- The theorems of the stores at concrete inputs.
use download_wrapper.Base.{
  ℕ, ◌≡◌, refl, true, false, Option, none, some, List, [], ◌∷◌, arith, ◌==◌, if◌then◌else◌,
}
use download_wrapper.Base.Int.{pos}
use download_wrapper.Text.{Text, codes}
use download_wrapper.Manager.TaskFile.{TaskFile, no_file, Object, int64}
use download_wrapper.Store.Payload.{Json, payload_of, c_str, file_payload, read_task_file}
use download_wrapper.Store.Payload.Restore.{IsStorable, read_task_file-file_payload}
use download_wrapper.Store.Files.{Sqlite, find, erase}
use download_wrapper.Store.Files.Counted.{Counts}
use download_wrapper.Store.Files.Keys.{IsKeyed}
use download_wrapper.Store.Files.Refines.{
  Command, save_all, save_valid, change, remove, content, entries, is_live, perform_all,
  execute_all, execute_all-perform_all,
}

abbrev film : TaskFile ℕ
film = record (no_file 0) {
  file_index = pos 1;
  name = codes "a.mp4";
  path = codes "d/a.mp4";
  total_size = pos 9;
  segments = (pos 0, pos 3) ∷ (pos 6, pos 8) ∷ [];
  task_id = codes "ab";
}

abbrev notes : TaskFile ℕ
notes = record (no_file 0) {
  file_index = pos 2;
  name = codes "b";
  task_id = codes "ab";
  is_read = true;
}

-- The texts of two files, by the index of the file.
abbrev index_text : Object ℕ → Text
index_text ((key, int64 (pos n)) ∷ rest) = n ∷ []
index_text _ = []

abbrev two_texts : Text → Option (Object ℕ)
two_texts [] = none
two_texts (n ∷ s) = some (if n == 1 then payload_of film else payload_of notes)

abbrev two_files : Json ℕ
two_files = record { serialize = index_text; parse = two_texts; zero = 0; to_number = λ z. 0 }

abbrev working : Sqlite
working = record { connected = true; prepares = true; carried_out = λ r. true; erases = true }

film-IsStorable : IsStorable two_files film
unfolding c_str payload_of
film-IsStorable = record {
  name = refl;
  path = refl;
  full_path = refl;
  extension = refl;
  prioritize = omega arith;
  read_back = refl;
}

notes-IsStorable : IsStorable two_files notes
unfolding c_str payload_of
notes-IsStorable = record {
  name = refl;
  path = refl;
  full_path = refl;
  extension = refl;
  prioritize = omega arith;
  read_back = refl;
}

abbrev some_commands : List (Command ℕ)
some_commands =
    save_all (film ∷ notes ∷ [])
    ∷ save_valid film
    ∷ change (codes "ab") (pos 1) film
    ∷ remove (codes "ab")
    ∷ save_valid film
    ∷ []

read_task_file-file_payload_example :
    read_task_file two_files film.task_id (pos 1) (file_payload two_files film) true
    ≡ some (record film { is_delete = false; is_read = true; dirty = false })
read_task_file-file_payload_example =
    read_task_file-file_payload two_files film true film-IsStorable

execute_all-perform_all_example :
    (find two_files working (codes "ab") (pos 2) (execute_all two_files working some_commands []).0
      ≡ content ((perform_all some_commands (entries two_files working [])).0 (codes "ab") (pos 2)))
    × ((execute_all two_files working some_commands []).1
        ≡ (perform_all some_commands (entries two_files working [])).1)
    × Counts
        (λ j. is_live ((perform_all some_commands (entries two_files working [])).0 (codes "ab") j))
        (erase two_files working (codes "ab") (execute_all two_files working some_commands []).0).1
    × IsKeyed (execute_all two_files working some_commands []).0
execute_all-perform_all_example =
    execute_all-perform_all two_files working
      (record { connected = refl; prepares = refl; carried_out = λ r. refl; erases = refl })
      some_commands [] (codes "ab") (pos 2)
      (
        (film-IsStorable, (notes-IsStorable, tt)),
        (film-IsStorable, (film-IsStorable, (tt, (film-IsStorable, tt)))),
      )
      tt
