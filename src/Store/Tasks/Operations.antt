-- ===== src/Store/Tasks/Operations.antt =====
-- The operations of `TaskStore`, src/store/task_store.h.
use download_wrapper.Base.{
  Bool, true, false, ◌&&◌, ◌||◌, not, Option, none, some, List, [], ◌∷◌, if◌then◌else◌,
}
use download_wrapper.Api.{TaskStatus}
use download_wrapper.Text.{Text, is_empty}
use download_wrapper.Store.Files as Files
use download_wrapper.Store.Tasks.{
  StoredTask, Row, Database, Steps, row_of, read_task, delete_task_rows, insert_row, select_row,
  mark_read, mark_deleted, fires, select_rows, read_all, delete_file_rows,
}

abbrev pub is_any : TaskStatus → Bool
is_any s = true

-- `status IN (…)`, where `same` compares two states.
unfoldable pub is_among : (TaskStatus → TaskStatus → Bool) → List TaskStatus → TaskStatus → Bool
is_among same [] s = false
is_among same (t ∷ ts) s = same t s || is_among same ts s

abbrev pub has_none : List TaskStatus → Bool
has_none [] = true
has_none (t ∷ ts) = false

module _ {Rate : Type 0} where
  -- The tables after the three statements of `replace_task`, if all of them are carried out.
  unfoldable pub replaced : Steps → StoredTask Rate → Database Rate → Option (Database Rate)
  unfolding delete_task_rows insert_row row_of delete_file_rows
  replaced steps (t, d) db =
      if steps.deletes_task && steps.deletes_files && steps.inserts
      then elim (insert_row (row_of (t, d)) (delete_task_rows t.task_id db.tasks)) [
        | none ↦ none
        | some rows ↦ some (record { tasks = rows; files = delete_file_rows t.task_id db.files })
      ]
      else none

  -- The end of `replace_task`: release the savepoint, or roll back to it.
  abbrev pub released : Bool → Database Rate → Option (Database Rate) → Database Rate × Bool
  released ok db none = (db, false)
  released ok db (some db') = if ok then (db', true) else (db, false)

  unfoldable pub replace_task :
      Bool → Steps → StoredTask Rate → Database Rate → Database Rate × Bool
  unfolding replaced
  replace_task connected steps (t, d) db =
      if not connected || is_empty t.task_id
      then (db, false)
      else if steps.savepoint
      then released steps.releases db (replaced steps (t, d) db)
      else (db, false)

  -- `runs` is whether the statement is prepared and carried out; the trigger runs with it.
  unfoldable pub delete_task : Bool → Bool → Text → Database Rate → Database Rate × Bool
  unfolding mark_deleted fires
  delete_task connected runs id db =
      if not connected || is_empty id || not runs then (db, false) else (
        record {
          tasks = mark_deleted id db.tasks;
          files = if fires id db.tasks then Files.delete_rows id db.files else db.files;
        },
        true,
      )

  unfoldable pub update_read : Bool → Bool → Text → Bool → Database Rate → Database Rate × Bool
  unfolding mark_read
  update_read connected runs id is_read db =
      if not connected || not runs
      then (db, false)
      else (record db { tasks = mark_read id is_read db.tasks }, true)

  abbrev pub read_found : Option (Row Rate) → Option (StoredTask Rate)
  read_found none = none
  read_found (some r) = some (read_task r)

  unfoldable pub find_by_task_id :
      Bool → Bool → Text → Bool → Database Rate → Option (StoredTask Rate)
  unfolding select_row read_task
  find_by_task_id connected runs id include_deleted db =
      if not connected || is_empty id || not runs
      then none
      else read_found (select_row include_deleted id db.tasks)

  unfoldable pub find_all : Bool → Bool → Database Rate → List (StoredTask Rate)
  unfolding select_rows read_task
  find_all connected runs db =
      if not connected || not runs then [] else read_all (select_rows is_any db.tasks)

  unfoldable pub find_by_status :
      Bool
      → Bool
      → (TaskStatus → TaskStatus → Bool)
      → List TaskStatus
      → Database Rate
      → List (StoredTask Rate)
  unfolding select_rows is_among read_task
  find_by_status connected runs same statuses db =
      if not connected || has_none statuses || not runs
      then []
      else read_all (select_rows (is_among same statuses) db.tasks)
