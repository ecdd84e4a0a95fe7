-- ===== src/Http/Engine.antt =====
-- `HttpEngine` of src/http/http_engine.cpp: the transfers under their URLs. `g_tasks` is the list of
-- its entries, each URL once, in the order of iteration; a worker thread is joined in no time, as the
-- contexts that are dropped belong to threads that end.
pub mod Registry
pub mod Sweep
mod Tests
use Prim.Native.String.{String}
use download_wrapper.Base.{
  ℕ, zero, suc, Bool, true, false, ◌&&◌, ◌||◌, not, Option, none, some, List, [], ◌∷◌, ◌++◌, map,
  if◌then◌else◌,
}
use download_wrapper.Base.Int.{ℤ, pos, ◌-ℤ◌, ltb_ℤ, leb_ℤ, eqb_ℤ}
use download_wrapper.Api.{TaskStatus, Reason, is_error, is_completed}
use download_wrapper.Text.{Text, is_empty, text_eq, codes}
use download_wrapper.Http.Path.{parent_path, filename_of}
use download_wrapper.Http.Part.{Part}
use download_wrapper.Http.Task.{PartCtx, TaskCtx, task_create_new, new_part_ctx}
use download_wrapper.Http.Resume.{HttpResumeData}

abbrev pub Registry : Type 0
Registry = List (Text × TaskCtx)

-- `g_tasks.find(url)`
unfoldable pub lookup : Text → Registry → Option TaskCtx
lookup url [] = none
lookup url ((u, t) ∷ rest) = if text_eq u url then some t else lookup url rest

-- `g_tasks.erase(url)`
unfoldable pub erase : Text → Registry → Registry
erase url [] = []
erase url ((u, t) ∷ rest) =
    let kept = erase url rest in if text_eq u url then kept else (u, t) ∷ kept

-- A change of the context under a URL.
unfoldable pub alter : Text → (TaskCtx → TaskCtx) → Registry → Registry
alter url f [] = []
alter url f ((u, t) ∷ rest) =
    let others = alter url f rest in if text_eq u url then (u, f t) ∷ others else (u, t) ∷ others

-- The result of an operation: its code, and its message where the source gives one.
pub record Answer : Type 0 where
  pub code : Reason
  pub message : String

abbrev pub done : Answer
done = record { code = Reason.success; message = "" }

abbrev pub failure : Reason → String → Answer
failure code message = record { code = code; message = message }

-- `HttpEngine::pause_task`; `ready` is the answer of `ensure_running`.
unfoldable pub pause_task : Bool → Text → Registry → Answer × Registry
unfolding alter
pause_task ready id tasks =
    if is_empty id
    then (failure Reason.general "入参为空", tasks)
    else if not ready
    then (failure Reason.general "ensure_running failed", tasks)
    else (done, alter id (λ t. record t { pause_req = true }) tasks)

-- `HttpEngine::delete_task`
unfoldable pub delete_task : Bool → Text → Registry → Answer × Registry
unfolding alter
delete_task ready id tasks =
    if is_empty id
    then (failure Reason.general "入参为空", tasks)
    else if not ready
    then (failure Reason.general "ensure_running failed", tasks)
    else (done, alter id (λ t. record t { cancel_req = true; delete_req = true }) tasks)

-- Whether `sweep` reclaims a context.
unfoldable pub is_reclaimed : ℤ → TaskCtx → Bool
unfolding ◌-ℤ◌
is_reclaimed now t =
    t.thread_done
    && (t.delete_req
        || (if is_completed t.status || is_error t.status
            then leb_ℤ (pos 4000) (now -ℤ t.finished_at_ms)
            else t.pause_req))

-- The loop that collects `to_reclaim`.
unfoldable pub to_reclaim : ℤ → Registry → List Text
unfolding is_reclaimed
to_reclaim now [] = []
to_reclaim now ((u, t) ∷ rest) =
    let more = to_reclaim now rest in if is_reclaimed now t then u ∷ more else more

-- The loop that takes them out of the map.
unfoldable pub reclaim : List Text → Registry → Registry
unfolding erase
reclaim [] tasks = tasks
reclaim (u ∷ us) tasks = reclaim us (erase u tasks)

-- `HttpEngine::sweep`; `active` is `initialized_ && g_running`.
unfoldable pub sweep : Bool → ℤ → Registry → Registry
unfolding to_reclaim reclaim
sweep active now tasks = if active then reclaim (to_reclaim now tasks) tasks else tasks

-- What `start_download` asks of its surroundings: the manager's client, `ensure_running`, whether the task manager is
-- there, whether its record of the task is being deleted, the directory, the existing file, the
-- resume data as they are decoded, and whether the record is stored.
pub record Host : Type 0 where
  pub client_id : Text
  pub ensure_running : Bool
  pub manager : Bool
  pub deleting : Bool
  pub mkdir_recursive : Text → Bool
  pub can_open : Text → Bool
  pub decode : Text → HttpResumeData
  pub replace_task : Bool

abbrev with_index : ℕ → List Part → List PartCtx
with_index i [] = []
with_index i (p ∷ ps) = new_part_ctx i ∷ with_index (suc i) ps

-- The context that goes on with an existing file.
unfoldable pub refilled : TaskCtx → HttpResumeData → TaskCtx
unfolding parent_path filename_of
refilled t rd = record t {
  full_file_path = rd.full_file_path;
  output_path = parent_path rd.full_file_path;
  filename = filename_of rd.full_file_path;
  total_size = rd.total_size;
  support_range = not (eqb_ℤ rd.support_range (pos 0));
  etag = rd.etag;
  last_modified = rd.last_modified;
  parts = rd.parts;
  part_ctx = with_index 0 rd.parts;
  probing = false;
}

-- The resume data, if there are any and the file can be opened.
unfoldable pub resumed : Host → Text → TaskCtx → TaskCtx
unfolding refilled
resumed h [] t = t
resumed h (c ∷ s) t =
    let rd = h.decode (c ∷ s) in
    let t' : TaskCtx = record t { is_resume = true } in
    if rd.ok && not (is_empty rd.full_file_path) && h.can_open rd.full_file_path
    then refilled t' rd
    else t'

-- The new context is entered, and its record stored if `replace_record` asks for it.
unfoldable pub launched : Host → Bool → Text → TaskCtx → Registry → Answer × Registry
launched h replace_record url t tasks =
    if replace_record && not h.replace_task
    then (failure Reason.general "HTTP 任务持久化失败", tasks)
    else (done, (url, t) ∷ tasks)

-- What follows once a leftover context under the URL is gone.
unfoldable pub restarted : Host → Bool → Text → Text → Text → Registry → Answer × Registry
unfolding launched resumed task_create_new
restarted h replace_record url save_path resume_data tasks =
    if h.mkdir_recursive save_path
    then launched h replace_record url
        (resumed h resume_data (task_create_new url h.client_id save_path)) tasks
    else (failure Reason.general "目录创建失败", tasks)

-- The check for a transfer under the same URL: one that runs and is not being deleted goes on; any
-- other is dropped.
unfoldable pub deduplicated :
    Host → Bool → Text → Text → Text → Registry → Option TaskCtx → Answer × Registry
unfolding restarted erase
deduplicated h replace_record url save_path resume_data tasks none =
    restarted h replace_record url save_path resume_data tasks
deduplicated h replace_record url save_path resume_data tasks (some t) =
    if not t.thread_done && not t.delete_req
    then (done, tasks)
    else restarted h replace_record url save_path resume_data (erase url tasks)

-- `validate_add_input`, as its message where the input is refused
unfoldable pub validate_add_input : Text → Text → Option String
validate_add_input url output_path =
    if is_empty url
    then some "url is empty"
    else if is_empty output_path
    then some "output_path is empty"
    else none

-- The checks before the map is looked at, by the answer of `validate_add_input`.
unfoldable pub validated :
    Host → Bool → Text → Text → Text → Registry → Option String → Answer × Registry
unfolding deduplicated lookup
validated h replace_record url save_path resume_data tasks (some err) =
    (failure Reason.general err, tasks)
validated h replace_record url save_path resume_data tasks none =
    if not h.manager
    then (failure Reason.general "HTTP 引擎未启动", tasks)
    else if replace_record && h.deleting
    then (failure Reason.general "HTTP 任务正在删除", tasks)
    else deduplicated h replace_record url save_path resume_data tasks (lookup url tasks)

-- `HttpEngine::start_download`. `save_path` is that of the parameters, or else that of the
-- configuration.
unfoldable pub start_download : Host → Bool → Text → Text → Text → Registry → Answer × Registry
unfolding validated validate_add_input
start_download h replace_record url save_path resume_data tasks =
    if not h.ensure_running
    then (failure Reason.general "ensure_running failed", tasks)
    else validated h replace_record url save_path resume_data tasks
        (validate_add_input url save_path)

-- `HttpEngine::do_resume`: `record_path` is the save path of the manager's record of the task, empty
-- where there is none.
unfoldable pub do_resume : Host → Text → Text → Text → Text → Registry → Answer × Registry
unfolding start_download lookup
do_resume h client_id natural_key record_path resume_data tasks =
    if not h.manager || is_empty natural_key || is_empty client_id
    then (failure Reason.general "HTTP 恢复参数无效或引擎未启动", tasks)
    else if elim (lookup natural_key tasks) [
      | none ↦ false
      | some t ↦ t.pause_req && not t.thread_done
    ]
    then (failure Reason.retry "HTTP 任务正在暂停", tasks)
    else if is_empty record_path
    then (failure Reason.general "HTTP 任务或保存路径不存在", tasks)
    else start_download h false natural_key record_path resume_data tasks
