-- ===== src/Store/Tasks.antt =====
-- `TaskStore`, src/store/task_store.h, with `read_task` of src/store/task_store.cpp and the trigger of
-- src/store/task_file_store.cpp: the table `tasks` is a list of rows, and each SQL statement of the
-- source is a function on it. SQLite is a parameter: whether there is a connection, and whether it
-- carries a statement out; rolling back to a savepoint gives the tables as they were there. Texts hold
-- no NUL byte, and an enumeration stands for its number.
pub mod Operations
pub mod Replaced
pub mod Restarted
mod Tests
use download_wrapper.Base.{
  Bool, true, false, ◌&&◌, ◌||◌, not, Option, none, some, List, [], ◌∷◌, ◌++◌, if◌then◌else◌,
}
use download_wrapper.Base.Int.{ℤ, pos, leb_ℤ}
use download_wrapper.Api.{Protocol, TaskStatus, Reason}
use download_wrapper.Text.{Text, text_eq, is_empty}
use download_wrapper.Text.Ints.{join_ints, split_ints}
use download_wrapper.Manager.Task.{Task, is_download}
use download_wrapper.Store.Files as Files

-- The members of `Task` that only the store reads and writes.
pub record Details : Type 0 where
  pub id : ℤ
  pub original_root_name : Text
  pub root_name : Text
  pub file_type : Bool
  pub ext : Text
  pub parsed : Bool
  pub support_range : ℤ
  pub etag : Text
  pub last_modified : Text

abbrev pub StoredTask : Type 0 → Type 0
StoredTask Rate = Task Rate × Details

-- The columns; `priority_file_indexes` is always empty.
pub record Row (Rate : Type 0) : Type 0 where
  pub protocol : Protocol
  pub task_id : Text
  pub id : ℤ
  pub client_id : Text
  pub is_remote : Bool
  pub save_path : Text
  pub original_root_name : Text
  pub root_name : Text
  pub full_path : Text
  pub file_type : Bool
  pub ext : Text
  pub parsed : Bool
  pub url : Text
  pub info_hash : Text
  pub magnet_link : Text
  pub torrent_file : Text
  pub status : TaskStatus
  pub total_size : ℤ
  pub total_done : ℤ
  pub priority : ℤ
  pub reason : Reason
  pub message : Text
  pub created_at : ℤ
  pub modified_at : ℤ
  pub support_range : ℤ
  pub etag : Text
  pub last_modified : Text
  pub force : Bool
  pub dirty : Bool
  pub is_delete : Bool
  pub is_read : Bool
  pub download_rate : Rate
  pub upload_rate : Rate
  pub select_file_indexes : Text

pub record Database (Rate : Type 0) : Type 0 where
  pub tasks : List (Row Rate)
  pub files : List Files.Row

-- Whether SQLite carries out each step of `replace_task`.
pub record Steps : Type 0 where
  pub savepoint : Bool
  pub deletes_task : Bool
  pub deletes_files : Bool
  pub inserts : Bool
  pub releases : Bool

module _ {Rate : Type 0} where
  -- What `insert_task` binds.
  unfoldable pub row_of : StoredTask Rate → Row Rate
  unfolding join_ints
  row_of (t, d) = record {
    protocol = t.task_protocol;
    task_id = t.task_id;
    id = d.id;
    client_id = t.client_id;
    is_remote = t.is_remote;
    save_path = t.save_path;
    original_root_name = d.original_root_name;
    root_name = d.root_name;
    full_path = t.full_path;
    file_type = d.file_type;
    ext = d.ext;
    parsed = d.parsed;
    url = t.url;
    info_hash = t.info_hash;
    magnet_link = t.magnet_link;
    torrent_file = t.torrent_file;
    status = t.status;
    total_size = t.total_size;
    total_done = t.total_done;
    priority = t.priority;
    reason = t.reason;
    message = t.message;
    created_at = t.created_at;
    modified_at = t.modified_at;
    support_range = d.support_range;
    etag = d.etag;
    last_modified = d.last_modified;
    force = t.force;
    dirty = t.dirty;
    is_delete = t.is_delete;
    is_read = t.is_read;
    download_rate = t.download_rate;
    upload_rate = t.upload_rate;
    select_file_indexes = join_ints t.select_file_indexes;
  }

  -- `read_task`; a member without a column has its default.
  unfoldable pub read_task : Row Rate → StoredTask Rate
  unfolding split_ints
  read_task r = (
    record {
      task_id = r.task_id;
      client_id = r.client_id;
      is_remote = r.is_remote;
      name = [];
      wrapper_name = [];
      save_path = r.save_path;
      full_path = r.full_path;
      url = r.url;
      info_hash = r.info_hash;
      magnet_link = r.magnet_link;
      torrent_file = r.torrent_file;
      task_protocol = r.protocol;
      status = r.status;
      total_size = r.total_size;
      total_done = r.total_done;
      priority = r.priority;
      reason = r.reason;
      message = r.message;
      created_at = r.created_at;
      modified_at = r.modified_at;
      is_delete = r.is_delete;
      is_read = r.is_read;
      files = [];
      select_file_indexes = split_ints r.select_file_indexes;
      priority_file_indexes = [];
      force = r.force;
      dirty = r.dirty;
      need_delete_session = false;
      need_delete_file = false;
      download_rate = r.download_rate;
      upload_rate = r.upload_rate;
    },
    record {
      id = r.id;
      original_root_name = r.original_root_name;
      root_name = r.root_name;
      file_type = r.file_type;
      ext = r.ext;
      parsed = r.parsed;
      support_range = r.support_range;
      etag = r.etag;
      last_modified = r.last_modified;
    },
  )

  -- `DELETE FROM tasks WHERE task_id=?`
  unfoldable pub delete_task_rows : Text → List (Row Rate) → List (Row Rate)
  unfolding text_eq
  delete_task_rows id [] = []
  delete_task_rows id (r ∷ rows) =
      let rest = delete_task_rows id rows in if text_eq r.task_id id then rest else r ∷ rest

  -- Whether a row has the primary key.
  unfoldable pub has_row : Text → List (Row Rate) → Bool
  unfolding text_eq
  has_row id [] = false
  has_row id (r ∷ rows) = text_eq r.task_id id || has_row id rows

  -- `INSERT INTO tasks`, which fails where the primary key is taken.
  unfoldable pub insert_row : Row Rate → List (Row Rate) → Option (List (Row Rate))
  unfolding has_row
  insert_row r rows = if has_row r.task_id rows then none else some (rows ++ (r ∷ []))

  -- The row that a query for a key finds.
  unfoldable pub select_row : Bool → Text → List (Row Rate) → Option (Row Rate)
  unfolding text_eq
  select_row include_deleted id [] = none
  select_row include_deleted id (r ∷ rows) =
      if text_eq r.task_id id && (not r.is_delete || include_deleted)
      then some r
      else select_row include_deleted id rows

  -- `UPDATE tasks SET is_read=? WHERE task_id=? AND is_delete=0`
  unfoldable pub mark_read : Text → Bool → List (Row Rate) → List (Row Rate)
  unfolding text_eq
  mark_read id is_read [] = []
  mark_read id is_read (r ∷ rows) =
      let rest = mark_read id is_read rows in
      if text_eq r.task_id id && not r.is_delete
      then record r { is_read = is_read } ∷ rest
      else r ∷ rest

  -- `UPDATE tasks SET is_delete=1 WHERE task_id=? AND is_delete=0`
  unfoldable pub mark_deleted : Text → List (Row Rate) → List (Row Rate)
  unfolding text_eq
  mark_deleted id [] = []
  mark_deleted id (r ∷ rows) =
      let rest = mark_deleted id rows in
      if text_eq r.task_id id && not r.is_delete
      then record r { is_delete = true } ∷ rest
      else r ∷ rest

  -- Whether that update fires the trigger `sync_task_file_deletion`.
  unfoldable pub fires : Text → List (Row Rate) → Bool
  unfolding text_eq
  fires id [] = false
  fires id (r ∷ rows) =
      (text_eq r.task_id id && not r.is_delete && is_download r.protocol) || fires id rows

  -- `ORDER BY modified_at DESC`
  unfoldable pub insert_by_time : Row Rate → List (Row Rate) → List (Row Rate)
  insert_by_time r [] = r ∷ []
  insert_by_time r (s ∷ rows) =
      if leb_ℤ s.modified_at r.modified_at then r ∷ s ∷ rows else s ∷ insert_by_time r rows

  unfoldable pub select_rows : (TaskStatus → Bool) → List (Row Rate) → List (Row Rate)
  unfolding insert_by_time
  select_rows wanted [] = []
  select_rows wanted (r ∷ rows) =
      let rest = select_rows wanted rows in
      if not r.is_delete && wanted r.status then insert_by_time r rest else rest

  abbrev pub read_all : List (Row Rate) → List (StoredTask Rate)
  read_all [] = []
  read_all (r ∷ rows) = read_task r ∷ read_all rows

-- `DELETE FROM task_file WHERE task_id=?`
unfoldable pub delete_file_rows : Text → List Files.Row → List Files.Row
unfolding text_eq
delete_file_rows id [] = []
delete_file_rows id (r ∷ rows) =
    let rest = delete_file_rows id rows in if text_eq r.task_id id then rest else r ∷ rest
