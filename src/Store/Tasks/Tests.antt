-- ===== src/Store/Tasks/Tests.antt =====
-- The theorems on the store of tasks at concrete inputs, and runs of its operations.
use download_wrapper.Base.{List, ℕ, ◌≡◌, refl, ◌⊎◌, true, false, ◌&&◌, not, [], ◌∷◌, map, arith}
use download_wrapper.Base.Int.{pos}
use download_wrapper.Api.{Protocol, TaskStatus}
use download_wrapper.Text.{Text, codes, is_empty, text_eq}
use download_wrapper.Text.Ints.{join_ints, split_ints}
use download_wrapper.Manager.TaskFile.{TaskFile}
use download_wrapper.Manager.Task.{Task, no_task}
use download_wrapper.Store.Tasks.{
  select_row, select_rows, insert_by_time, read_task, Details, Database, Steps, row_of,
  delete_task_rows, insert_row, fires, delete_file_rows,
}
use download_wrapper.Store.Tasks.Operations.{
  replaced, replace_task, delete_task, find_by_status, is_among,
}
use download_wrapper.Store.Tasks.Replaced.{Replaces, is_carried_out, replace_task-Replaces}
use download_wrapper.Store.Tasks.Restarted.{
  taken_over, row_at, IsKeyed, resumed, some_filed, find_task-taken_over,
}
use download_wrapper.Manager.Control.{find_task, restored_tasks}
use download_wrapper.Store.Files as Files

abbrev film : Task ℕ
film = record (no_task 0) {
  task_id = codes "ab";
  task_protocol = Protocol.torrent;
  select_file_indexes = pos 3 ∷ pos 12 ∷ [];
}

abbrev nothing_more : Details
nothing_more = record {
  id = pos 0;
  original_root_name = [];
  root_name = [];
  file_type = true;
  ext = [];
  parsed = false;
  support_range = pos 0;
  etag = [];
  last_modified = [];
}

-- An older task and a file under the same identifier.
abbrev db : Database ℕ
db = record {
  tasks = row_of (record film { status = TaskStatus.paused }, nothing_more) ∷ [];
  files =
      record {
        task_id = codes "ab";
        file_index = pos 0;
        payload = [];
        is_delete = false;
        is_read = false;
      }
      ∷ [];
}

abbrev all_well : Steps
all_well = record {
  savepoint = true;
  deletes_task = true;
  deletes_files = true;
  inserts = true;
  releases = true;
}

-- The commas of the selection.
three_and_twelve : join_ints (pos 3 ∷ pos 12 ∷ []) ≡ codes "3,12"
unfolding join_ints
three_and_twelve = refl

read_back : split_ints (codes "3,,12,x") ≡ pos 3 ∷ pos 12 ∷ []
unfolding split_ints
read_back = refl

-- A release that fails leaves the old task.
rolled_back :
    (replace_task true (record all_well { releases = false }) (film, nothing_more) db) ≡ (db, false)
unfolding replace_task replaced row_of delete_task_rows insert_row delete_file_rows
rolled_back = refl

-- The deletion of a torrent task deletes its files.
files_follow :
    (delete_task true true (codes "ab") db).0.files ≡ Files.delete_rows (codes "ab") db.files
unfolding delete_task fires row_of
files_follow = refl

replace_task-Replaces_example :
    (((true && not (is_empty (codes "ab")) && is_carried_out all_well) ≡ true)
      × ((replace_task true all_well (film, nothing_more) db).1 ≡ true)
      × Replaces (film, nothing_more) db (replace_task true all_well (film, nothing_more) db).0)
    ⊎ (((true && not (is_empty (codes "ab")) && is_carried_out all_well) ≡ false)
        × (replace_task true all_well (film, nothing_more) db ≡ (db, false)))
replace_task-Replaces_example =
    replace_task-Replaces true all_well (film, nothing_more) db (omega arith)

-- A torrent that was resolving, and one that was paused.
abbrev left_behind : Database ℕ
left_behind = record db {
  tasks =
      row_of (record film { status = TaskStatus.resolving }, nothing_more)
      ∷ row_of (record film { task_id = codes "cd"; status = TaskStatus.paused }, nothing_more)
      ∷ [];
}

abbrev no_files : Text → List (TaskFile ℕ)
no_files id = []

left_behind-IsKeyed : IsKeyed left_behind.tasks
unfolding row_of select_row text_eq
left_behind-IsKeyed = (refl, (refl, tt))

find_task-taken_over_example :
    find_task (codes "ab") (taken_over true true no_files (pos 50) left_behind)
    ≡ some_filed no_files (resumed (pos 50) (row_at (codes "ab") left_behind.tasks))
find_task-taken_over_example =
    find_task-taken_over no_files (pos 50) left_behind (codes "ab") left_behind-IsKeyed

-- Only the first is taken over.
one_resumed :
    map (λ (t : Task ℕ). t.task_id) (taken_over true true no_files (pos 50) left_behind)
    ≡ codes "ab" ∷ []
unfolding taken_over find_by_status select_rows insert_by_time read_task is_among restored_tasks
    row_of
one_resumed = refl
