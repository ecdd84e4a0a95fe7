-- ===== src/Manager/Control.antt =====
-- The public operations of `TaskManager` in src/core/task_manager.cpp, and one turn of its
-- maintenance loop. The stores of the database and the engines are a state `E`.
pub mod Usable
use Prim.Native.String.{String}
use download_wrapper.Base.{
  ℕ, Bool, true, false, ◌&&◌, ◌||◌, not, Option, none, some, List, [], ◌∷◌, ◌++◌, if◌then◌else◌,
}
use download_wrapper.Base.Int.{ℤ, pos, ltb_ℤ, eqb_ℤ}
use download_wrapper.Api.{Protocol, TaskStatus, Reason, is_http, is_torrent, is_queued}
use download_wrapper.Text.{Text, is_empty, text_eq}
use download_wrapper.Manager.Task.{Task, TaskParams, SubmitResult, success, failure, is_download}

-- `Config`, as `apply_config` reads it.
pub record Config : Type 0 where
  pub client_id : Text
  pub save_path : Text
  pub max_concurrent_downloads : ℤ
  pub network_type : ℤ
  pub allow_mobile_data : Bool

-- `config_` and `net_allowed_`
pub record Settings : Type 0 where
  pub config : Config
  pub net_allowed : Bool

-- `TaskManager::apply_config`
unfoldable pub apply_config : Config → Settings → SubmitResult × Settings
apply_config cfg s = if is_empty cfg.client_id then (failure [], s) else (
  success,
  record {
    config = record cfg {
      max_concurrent_downloads =
          if ltb_ℤ cfg.max_concurrent_downloads (pos 0)
          then pos 3
          else cfg.max_concurrent_downloads;
    };
    net_allowed = not (eqb_ℤ cfg.network_type (pos 2) && not cfg.allow_mobile_data);
  },
)

-- The operations of one `IDownloadEngine`.
pub record Engine (E : Type 0) : Type 0 where
  pub add_task : TaskParams → E → SubmitResult × E
  pub pause_task : TaskParams → E → SubmitResult × E
  pub resume_task : TaskParams → E → SubmitResult × E
  pub delete_task : TaskParams → E → SubmitResult × E

module _ {E : Type 0} (http torrent : Engine E) where
  -- `engine_of`
  abbrev pub engine_of : Protocol → Engine E
  engine_of p = if is_http p then http else torrent

  -- `TaskManager::add`; a client id means another client's task, which is not taken here.
  unfoldable pub add : Config → TaskParams → E → SubmitResult × E
  add config params e =
      if is_http params.protocol && is_empty params.url
      then (failure [], e)
      else if is_torrent params.protocol
          && (is_empty params.magnet_link || is_empty params.torrent_file)
      then (failure [], e)
      else if is_empty params.client_id
      then (engine_of params.protocol).add_task (record params { save_path = config.save_path }) e
      else (failure [], e)

  -- `TaskManager::pause`
  unfoldable pub pause : TaskParams → E → SubmitResult × E
  pause params e =
      if is_empty params.client_id
      then (engine_of params.protocol).pause_task params e
      else (failure [], e)

  -- `TaskManager::resume`
  unfoldable pub resume : TaskParams → E → SubmitResult × E
  resume params e =
      if is_empty params.client_id
      then (engine_of params.protocol).resume_task params e
      else (failure [], e)

  -- `TaskManager::remove`
  unfoldable pub remove : TaskParams → E → SubmitResult × E
  remove params e =
      if is_empty params.client_id
      then (engine_of params.protocol).delete_task params e
      else (failure [], e)

abbrev pub is_local : Protocol → Bool
is_local Protocol.local = true
is_local _ = false

-- What the maintenance loop asks of the database.
pub data Saved (Rate : Type 0) : Type 0 where
  delete_by_path : Text → Saved Rate
  remove_record : Text → Protocol → Text → Saved Rate
  update_record : Task Rate → Saved Rate
  update_read : Text → Bool → Saved Rate

-- What a turn of the maintenance loop has done: the calls of the store in their order, the snapshots
-- that are reported, and the tasks.
pub record Upkept (Rate : Type 0) : Type 0 where
  pub saved : List (Saved Rate)
  pub dirty_records : List (Task Rate)
  pub tasks : List (Task Rate)

module _ {Rate : Type 0} where
  -- `tasks_.find(key)`
  unfoldable pub find_task : Text → List (Task Rate) → Option (Task Rate)
  unfolding text_eq
  find_task key [] = none
  find_task key (t ∷ ts) = if text_eq t.task_id key then some t else find_task key ts

  -- The task that is held, and else the stored one, which is held from then on.
  abbrev pub held_or_stored :
      Option (Task Rate)
      → Option (Task Rate)
      → List (Task Rate)
      → Option (Task Rate) × List (Task Rate)
  held_or_stored (some t) stored tasks = (some t, tasks)
  held_or_stored none (some t) tasks = (some t, tasks ++ (t ∷ []))
  held_or_stored none none tasks = (none, tasks)

  -- `TaskManager::get_engine_task`: a task that is not held is fetched from the store, if it is there.
  unfoldable pub get_engine_task :
      (Text → Option (Task Rate)) → Text → List (Task Rate) → Option (Task Rate) × List (Task Rate)
  unfolding find_task
  get_engine_task store key tasks = held_or_stored (find_task key tasks) (store key) tasks

  -- The tasks that were active in the last run wait again, in the loop of `TaskManager::start`.
  abbrev pub requeued : ℤ → Task Rate → Task Rate
  requeued now t =
      if is_queued t.status
      then t
      else record t { status = TaskStatus.queued; modified_at = now; dirty = true }

  unfoldable pub restored_tasks : ℤ → List (Task Rate) → List (Task Rate)
  restored_tasks now [] = []
  restored_tasks now (t ∷ ts) =
      let rest = restored_tasks now ts in
      if is_download t.task_protocol then requeued now t ∷ rest else rest

  -- The calls of the store for one dirty task.
  unfoldable pub saves : Task Rate → List (Saved Rate)
  saves t =
      if t.is_delete
      then if is_local t.task_protocol
        then (if is_empty t.full_path then [] else Saved.delete_by_path t.full_path ∷ [])
        else Saved.remove_record t.client_id t.task_protocol t.task_id ∷ []
      else if is_local t.task_protocol
      then Saved.update_record t ∷ []
      else Saved.update_record t ∷ Saved.update_read t.task_id t.is_read ∷ []

  -- One round of the loop over `tasks_`, by whether the task is dirty, before the rest.
  unfoldable pub upkept : Bool → Task Rate → Upkept Rate → Upkept Rate
  unfolding saves
  upkept true t rest = record {
    saved = saves t ++ rest.saved;
    dirty_records = t ∷ rest.dirty_records;
    tasks = record t { dirty = false } ∷ rest.tasks;
  }
  upkept false t rest = record rest { tasks = t ∷ rest.tasks }

  -- The loop over `tasks_` in `maintenance_loop`.
  unfoldable pub maintain : List (Task Rate) → Upkept Rate
  unfolding upkept
  maintain [] = record { saved = []; dirty_records = []; tasks = [] }
  maintain (t ∷ ts) = upkept t.dirty t (maintain ts)
