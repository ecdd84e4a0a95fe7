-- ===== src/Store/Payload.antt =====
-- The JSON text of a file in its row: `file_payload` and `read_task_file` of
-- src/store/task_file_store.cpp with `extract` of src/internal/json_util.h. The text that Boost.JSON
-- writes for an object and the object that it reads in a text are parameters.
pub mod Restore
use download_wrapper.Base.{
  ℕ, suc, ◌+◌, ◌-◌, ◌%◌, ◌^◌, Bool, true, false, ◌||◌, Option, none, some, List, [], ◌∷◌, ◌==◌, ltb,
  if◌then◌else◌,
}
use download_wrapper.Base.Int.{ℤ, pos, negsuc}
use download_wrapper.Text.{Text, codes, text_eq}
use download_wrapper.Manager.TaskFile.{
  TaskFile, no_file, Value, null, truth, int64, double, text, array, Items, end, item, Object,
  to_json,
}

-- `serialize` and `parse` of Boost.JSON; a text that is no object reads as `none`.
pub record Json (Rate : Type 0) : Type 0 where
  pub serialize : Object Rate → Text
  pub parse : Text → Option (Object Rate)
  pub zero : Rate
  pub to_number : ℤ → Rate

-- `static_cast<int32_t>`
unfoldable pub to_int32 : ℤ → ℤ
to_int32 (pos n) = let m = n % 2 ^ 32 in if ltb m (2 ^ 31) then pos m else negsuc (2 ^ 32 - 1 - m)
to_int32 (negsuc n) =
    let m = n % 2 ^ 32 in if ltb m (2 ^ 31) then negsuc m else pos (2 ^ 32 - 1 - m)

-- A text up to its first null, as `c_str()` hands it over.
unfoldable pub c_str : Text → Text
c_str [] = []
c_str (c ∷ s) = if c == 0 then [] else c ∷ c_str s

module _ {Rate : Type 0} where
  -- `if_contains`
  unfoldable pub if_contains : Object Rate → Text → Option (Value Rate)
  unfolding text_eq
  if_contains [] key = none
  if_contains ((k, v) ∷ rest) key = if text_eq k key then some v else if_contains rest key

  -- `erase`
  unfoldable pub erase_key : Text → Object Rate → Object Rate
  unfolding text_eq
  erase_key key [] = []
  erase_key key ((k, v) ∷ rest) = if text_eq k key then rest else (k, v) ∷ erase_key key rest

  -- `extract`, for each type of field
  unfoldable pub extract_text : Option (Value Rate) → Text → Text
  unfolding c_str
  extract_text (some (text s)) out = c_str s
  extract_text _ out = out

  unfoldable pub extract_int32 : Option (Value Rate) → ℤ → ℤ
  unfolding to_int32
  extract_int32 (some (int64 n)) out = to_int32 n
  extract_int32 _ out = out

  unfoldable pub extract_int64 : Option (Value Rate) → ℤ → ℤ
  extract_int64 (some (int64 n)) out = n
  extract_int64 _ out = out

  -- The segments that are pairs of integers; other items are passed over.
  unfoldable pub read_segments : Items Rate → List (ℤ × ℤ)
  read_segments end = []
  read_segments (item (array (item (int64 a) (item (int64 b) end))) rest) =
      (a, b) ∷ read_segments rest
  read_segments (item _ rest) = read_segments rest

  unfoldable pub extract_segments : Option (Value Rate) → List (ℤ × ℤ)
  unfolding read_segments
  extract_segments (some (array items)) = read_segments items
  extract_segments _ = []

  -- The object without the two marks that have columns of their own.
  unfoldable pub payload_of : TaskFile Rate → Object Rate
  unfolding erase_key to_json
  payload_of file = erase_key (codes "is_read") (erase_key (codes "is_delete") (to_json file))

  module _ (json : Json Rate) where
    unfoldable pub extract_progress : Option (Value Rate) → Rate
    extract_progress (some (double x)) = x
    extract_progress (some (int64 n)) = json.to_number n
    extract_progress _ = json.zero

    unfoldable pub file_payload : TaskFile Rate → Text
    file_payload file = json.serialize (payload_of file)

    -- The file in a parsed object.
    unfoldable pub read_object : Text → ℤ → Bool → Object Rate → TaskFile Rate
    unfolding if_contains extract_text extract_int32 extract_int64 extract_progress extract_segments
    read_object task_id file_index is_read obj = record (no_file json.zero) {
      task_id = task_id;
      file_index = file_index;
      is_read = is_read;
      name = extract_text (if_contains obj (codes "name")) [];
      path = extract_text (if_contains obj (codes "path")) [];
      full_path = extract_text (if_contains obj (codes "full_path")) [];
      total_size = extract_int64 (if_contains obj (codes "total_size")) (pos 0);
      total_done = extract_int64 (if_contains obj (codes "total_done")) (pos 0);
      extension = extract_text (if_contains obj (codes "extension")) [];
      prioritize = extract_int32 (if_contains obj (codes "prioritize")) (pos 4);
      progress = extract_progress (if_contains obj (codes "progress"));
      segments = extract_segments (if_contains obj (codes "segments"));
    }

    -- `read_task_file`, by the columns of the row
    unfoldable pub read_task_file : Text → ℤ → Text → Bool → Option (TaskFile Rate)
    read_task_file task_id file_index payload is_read = elim (json.parse payload) [
      | none ↦ none
      | some obj ↦ some (read_object task_id file_index is_read obj)
    ]
