-- ===== src/Store/Files.antt =====
-- `TaskFileStore`, src/store/task_file_store.cpp: the table `task_file` is a list of rows, and each SQL
-- statement of the source is a function on it. SQLite itself is a parameter: whether there is a
-- connection, whether it prepares a statement, and whether it carries one out. A query that is prepared
-- gives all its rows.
pub mod Keys
pub mod Counted
pub mod Refines
use download_wrapper.Base.{
  ℕ, zero, suc, ◌+◌, Bool, true, false, ◌&&◌, ◌||◌, not, Option, none, some, List, [], ◌∷◌, ltb,
  leb, ◌==◌, if◌then◌else◌,
}
use download_wrapper.Base.Int.{ℤ, pos, minus_one, eqb_ℤ, ltb_ℤ, leb_ℤ}
use download_wrapper.Text.{Text, text_eq, is_empty}
use download_wrapper.Manager.TaskFile.{TaskFile}
use download_wrapper.Store.Payload.{Json, file_payload, read_task_file}

pub record Row : Type 0 where
  pub task_id : Text
  pub file_index : ℤ
  pub payload : Text
  pub is_delete : Bool
  pub is_read : Bool

pub record Sqlite : Type 0 where
  pub connected : Bool
  pub prepares : Bool
  pub carried_out : Row → Bool
  pub erases : Bool

-- Whether a row has the primary key.
unfoldable pub has_key : Text → ℤ → Row → Bool
has_key task_id file_index r = text_eq r.task_id task_id && eqb_ℤ r.file_index file_index

-- The update of a conflict: `MAX` of the marks of reading; a deleted row stays as it is.
unfoldable pub on_conflict : Row → Row → Row
on_conflict new old = if old.is_delete then old else record old {
  payload = new.payload;
  is_delete = new.is_delete;
  is_read = old.is_read || new.is_read;
}

-- `INSERT … ON CONFLICT(task_id,file_index) DO UPDATE … WHERE task_file.is_delete=0`
unfoldable pub insert_row : Row → List Row → List Row
insert_row new [] = new ∷ []
insert_row new (old ∷ rows) =
    if has_key new.task_id new.file_index old
    then on_conflict new old ∷ rows
    else old ∷ insert_row new rows

-- `UPDATE task_file SET … WHERE task_id=? AND file_index=? AND is_delete=0`
unfoldable pub update_row : Row → List Row → List Row
update_row new [] = []
update_row new (old ∷ rows) =
    let rest = update_row new rows in
    if has_key new.task_id new.file_index old && not old.is_delete then new ∷ rest else old ∷ rest

-- The row that a query for a key finds: the first, and the only one, that is not deleted.
unfoldable pub select_row : Text → ℤ → List Row → Option Row
select_row task_id file_index [] = none
select_row task_id file_index (r ∷ rows) =
    if has_key task_id file_index r && not r.is_delete
    then some r
    else select_row task_id file_index rows

-- `UPDATE task_file SET is_delete=1 WHERE task_id=? AND is_delete=0`, and `sqlite3_changes`
unfoldable pub delete_rows : Text → List Row → List Row
delete_rows task_id [] = []
delete_rows task_id (r ∷ rows) =
    let rest = delete_rows task_id rows in
    if text_eq r.task_id task_id && not r.is_delete
    then record r { is_delete = true } ∷ rest
    else r ∷ rest

unfoldable pub live_count : Text → List Row → ℕ
unfolding text_eq
live_count task_id [] = 0
live_count task_id (r ∷ rows) =
    let rest = live_count task_id rows in
    if text_eq r.task_id task_id && not r.is_delete then rest + 1 else rest

-- `ORDER BY file_index`
unfoldable pub insert_by_index : Row → List Row → List Row
insert_by_index r [] = r ∷ []
insert_by_index r (s ∷ rows) =
    if leb_ℤ r.file_index s.file_index then r ∷ s ∷ rows else s ∷ insert_by_index r rows

unfoldable pub select_rows : Text → List Row → List Row
unfolding text_eq insert_by_index
select_rows task_id [] = []
select_rows task_id (r ∷ rows) =
    let rest = select_rows task_id rows in
    if text_eq r.task_id task_id && not r.is_delete then insert_by_index r rest else rest

-- Whether a statement had a row to change.
abbrev pub found : Option Row → Bool
found none = false
found (some r) = true

-- The segments of a valid file: none of them empty, in order, apart, and within the file.
unfoldable pub valid_segments : ℤ → ℤ → List (ℤ × ℤ) → Bool
valid_segments total_size previous_end [] = true
valid_segments total_size previous_end ((start, end) ∷ rest) =
    not (ltb_ℤ start (pos 0) || leb_ℤ start previous_end || ltb_ℤ end start || leb_ℤ total_size end)
    && valid_segments total_size end rest

module _ {Rate : Type 0} where
  -- `TaskFileStore::valid`
  unfoldable pub valid : TaskFile Rate → Bool
  unfolding valid_segments
  valid file =
      not (
        is_empty file.task_id
        || ltb_ℤ file.file_index (pos 0)
        || ltb_ℤ file.total_size (pos 0)
        || ltb_ℤ file.total_done (pos 0)
        || ltb_ℤ file.total_size file.total_done)
      && (eqb_ℤ file.prioritize (pos 0)
          || eqb_ℤ file.prioritize (pos 1)
          || eqb_ℤ file.prioritize (pos 4)
          || eqb_ℤ file.prioritize (pos 7))
      && valid_segments file.total_size minus_one file.segments

  unfoldable pub row_of : Json Rate → TaskFile Rate → Row
  row_of json file = record {
    task_id = file.task_id;
    file_index = file.file_index;
    payload = file_payload json file;
    is_delete = file.is_delete;
    is_read = file.is_read;
  }

  module _ (json : Json Rate) (sqlite : Sqlite) where
    abbrev pub ready : Bool
    ready = sqlite.connected && sqlite.prepares

    -- The loop of `save`: it ends at the first file that has no key, or that SQLite refuses.
    unfoldable pub save_rows : List (TaskFile Rate) → List Row → List Row × Bool
    unfolding insert_row
    save_rows [] rows = (rows, true)
    save_rows (file ∷ files) rows =
        let rest = save_rows files (insert_row (row_of json file) rows) in
        if is_empty file.task_id || ltb_ℤ file.file_index (pos 0)
        then (rows, false)
        else if sqlite.carried_out (row_of json file)
        then rest
        else (rows, false)

    unfoldable pub save : List (TaskFile Rate) → List Row → List Row × Bool
    unfolding save_rows
    save files rows = if ready then save_rows files rows else (rows, false)

    unfoldable pub upsert : TaskFile Rate → List Row → List Row × Bool
    unfolding valid save
    upsert file rows = if valid file then save (file ∷ []) rows else (rows, false)

    -- The file of the row that a query found.
    abbrev pub read_row : Text → Option Row → Option (TaskFile Rate)
    read_row task_id none = none
    read_row task_id (some r) = read_task_file json task_id r.file_index r.payload r.is_read

    unfoldable pub find : Text → ℤ → List Row → Option (TaskFile Rate)
    unfolding select_row
    find task_id file_index rows =
        if ready then read_row task_id (select_row task_id file_index rows) else none

    -- The files of rows, without those whose text is no object.
    unfoldable pub read_rows : Text → List Row → List (TaskFile Rate)
    read_rows task_id [] = []
    read_rows task_id (r ∷ rows) =
        elim (read_task_file json task_id r.file_index r.payload r.is_read) [
          | none ↦ read_rows task_id rows
          | some file ↦ file ∷ read_rows task_id rows
        ]

    unfoldable pub get : Text → List Row → List (TaskFile Rate)
    unfolding select_rows read_rows
    get task_id rows = if ready then read_rows task_id (select_rows task_id rows) else []

    unfoldable pub update : Text → ℤ → TaskFile Rate → List Row → List Row × Bool
    unfolding valid update_row select_row
    update task_id file_index file rows =
        let keyed = record file { task_id = task_id; file_index = file_index } in
        if not (valid keyed)
        then (rows, false)
        else if not (ready && sqlite.carried_out (row_of json keyed))
        then (rows, false)
        else (update_row (row_of json keyed) rows, found (select_row task_id file_index rows))

    unfoldable pub erase : Text → List Row → List Row × ℕ
    unfolding delete_rows live_count
    erase task_id rows =
        if ready && sqlite.erases
        then (delete_rows task_id rows, live_count task_id rows)
        else (rows, 0)
