-- ===== src/Manager/TaskFile.antt =====
-- `TaskFile` of src/core/task_file.h and its JSON object; the values of JSON are those of Boost.JSON.
-- The progress is a floating-point number; its type is a parameter.
use download_wrapper.Base.{Bool, List, [], ◌∷◌, false}
use download_wrapper.Base.Int.{ℤ, pos, minus_one}
use download_wrapper.Text.{Text, codes}

pub record TaskFile (Rate : Type 0) : Type 0 where
  pub file_index : ℤ
  pub name : Text
  pub path : Text
  pub full_path : Text
  pub total_size : ℤ
  pub total_done : ℤ
  pub progress : Rate
  pub segments : List (ℤ × ℤ)
  pub extension : Text
  pub prioritize : ℤ
  pub task_id : Text
  pub is_delete : Bool
  pub is_read : Bool
  pub dirty : Bool

-- `TaskFile{}`; the argument is the number 0.0.
abbrev pub no_file : {Rate : Type 0} → Rate → TaskFile Rate
no_file zero = record {
  file_index = minus_one;
  name = [];
  path = [];
  full_path = [];
  total_size = pos 0;
  total_done = pos 0;
  progress = zero;
  segments = [];
  extension = [];
  prioritize = pos 4;
  task_id = [];
  is_delete = false;
  is_read = false;
  dirty = false;
}

mutual
  pub data Value (Rate : Type 0) : Type 0 where
    null : Value Rate
    truth : Bool → Value Rate
    int64 : ℤ → Value Rate
    double : Rate → Value Rate
    text : Text → Value Rate
    array : Items Rate → Value Rate

  pub data Items (Rate : Type 0) : Type 0 where
    end : Items Rate
    item : Value Rate → Items Rate → Items Rate

-- An object, in the order of its keys.
abbrev pub Object : Type 0 → Type 0
Object Rate = List (Text × Value Rate)

abbrev pub pair : {Rate : Type 0} → Value Rate → Value Rate → Value Rate
pair a b = array (item a (item b end))

-- The array of the segments.
unfoldable pub segments_json : {Rate : Type 0} → List (ℤ × ℤ) → Items Rate
segments_json [] = end
segments_json ((start, finish) ∷ rest) =
    item (pair (int64 start) (int64 finish)) (segments_json rest)

unfoldable pub to_json : {Rate : Type 0} → TaskFile Rate → Object Rate
unfolding segments_json
to_json file =
    (codes "file_index", int64 file.file_index)
    ∷ (codes "name", text file.name)
    ∷ (codes "path", text file.path)
    ∷ (codes "full_path", text file.full_path)
    ∷ (codes "total_size", int64 file.total_size)
    ∷ (codes "total_done", int64 file.total_done)
    ∷ (codes "progress", double file.progress)
    ∷ (codes "segments", array (segments_json file.segments))
    ∷ (codes "extension", text file.extension)
    ∷ (codes "prioritize", int64 file.prioritize)
    ∷ (codes "task_id", text file.task_id)
    ∷ (codes "is_delete", truth file.is_delete)
    ∷ (codes "is_read", truth file.is_read)
    ∷ []
