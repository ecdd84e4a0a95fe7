-- ===== src/Torrent/Control.antt =====
-- The operations of `TorrentEngine` on a task that is there, src/torrent/torrent_engine.cpp. Each
-- holds the lock of the manager from its first use of the tasks to its end.
use download_wrapper.Base.{
  ℕ, Bool, true, false, ◌&&◌, ◌||◌, not, Option, none, some, List, [], ◌∷◌, ◌++◌, map,
  if◌then◌else◌,
}
use download_wrapper.Base.Int.{ℤ, pos, ltb_ℤ, leb_ℤ, eqb_ℤ}
use download_wrapper.Api.{TaskStatus, is_torrent}
use download_wrapper.Text.{Text, utf8, text_eq}
use download_wrapper.Manager.Task.{Task, TaskParams, SubmitResult, success, failure}
use download_wrapper.Manager.Control.{get_engine_task}
use download_wrapper.Torrent.Session.{
  Session, Call, file_priority, save_resume_data, add_tracker, leave_upload_mode, resume, pause,
  post_torrent_updates, remove_torrent, info_hash_hex, find_handle, act_all,
}

-- The session and what goes with it, and the tasks that the manager holds.
pub record Engine (S Rate : Type 0) : Type 0 where
  pub session : S
  pub tasks : List (Task Rate)

-- Rates: the number 0.0, the share ratio of two byte counts against a limit, and the configured limit.
pub record Ratios (Rate : Type 0) : Type 0 where
  pub zero : Rate
  pub ratio : ℤ → ℤ → Rate
  pub reaches : Rate → Rate → Bool
  pub is_negative : Rate → Bool
  pub is_zero : Rate → Bool
  pub three : Rate
  pub seed_ratio_limit : Rate

module _ {S H Rate : Type 0} (lib : Session S H Rate) where
  -- A change of the task of a key.
  unfoldable pub alter_task : Text → (Task Rate → Task Rate) → List (Task Rate) → List (Task Rate)
  alter_task key edit [] = []
  alter_task key edit (t ∷ ts) =
      if text_eq t.task_id key then edit t ∷ ts else t ∷ alter_task key edit ts

  abbrev pub torrent_task : Option (Task Rate) → Option (Task Rate)
  torrent_task none = none
  torrent_task (some t) = if is_torrent t.task_protocol then some t else none

  -- `get_task`: the manager may fetch the task from the store.
  unfoldable pub get_task : Text → Engine S Rate → Option (Task Rate) × Engine S Rate
  unfolding get_engine_task
  get_task key e =
      let (found, tasks) = get_engine_task (λ k. lib.stored_task k e.session) key e.tasks in
      (torrent_task found, record e { tasks = tasks })

  abbrev pub edit_found :
      Text → (Task Rate → Task Rate) → Option (Task Rate) × Engine S Rate → Engine S Rate
  edit_found key edit (none, e) = e
  edit_found key edit (some t, e) = record e { tasks = alter_task key edit e.tasks }

  -- A change of a task, if it is there: `if (auto *task = get_task(key)) { … }`
  unfoldable pub with_task : Text → (Task Rate → Task Rate) → Engine S Rate → Engine S Rate
  unfolding get_task alter_task
  with_task key edit e = edit_found key edit (get_task key e)

  -- `insert_or_assign` of one priority
  unfoldable pub assign : ℤ × ℤ → List (ℤ × ℤ) → List (ℤ × ℤ)
  assign (index, priority) [] = (index, priority) ∷ []
  assign (index, priority) ((i, p) ∷ rest) =
      if eqb_ℤ i index then (i, priority) ∷ rest else (i, p) ∷ assign (index, priority) rest

  unfoldable pub assign_all : List (ℤ × ℤ) → List (ℤ × ℤ) → List (ℤ × ℤ)
  unfolding assign
  assign_all [] m = m
  assign_all (p ∷ ps) m = assign_all ps (assign p m)

  abbrev pub resumed : TaskParams → ℤ → Task Rate → Task Rate
  resumed params now t = record t {
    priority_file_indexes = assign_all params.file_priorities t.priority_file_indexes;
    force = params.force;
    status = TaskStatus.queued;
    modified_at = now;
    dirty = true;
  }

  abbrev resume_found :
      Text → TaskParams → Option (Task Rate) → Engine S Rate → SubmitResult × Engine S Rate
  resume_found key params none e = (failure [], e)
  resume_found key params (some t) e = if t.is_delete then (failure [], e) else (
    success,
    record e { tasks = alter_task key (resumed params (lib.now_unix_ms e.session)) e.tasks },
  )

  -- `resume_task`; `key` is `params->task_key()`.
  unfoldable pub resume_task : Text → TaskParams → Engine S Rate → SubmitResult × Engine S Rate
  unfolding get_task alter_task assign_all
  resume_task key params e = let (found, e') = get_task key e in resume_found key params found e'

  -- The calls that set the priorities of the files, for the indices that are in range.
  unfoldable pub priority_calls : H → ℕ → List (ℤ × ℤ) → List (Call H)
  priority_calls h n [] = []
  priority_calls h n ((index, priority) ∷ rest) =
      let later = priority_calls h n rest in
      if leb_ℤ (pos 0) index && ltb_ℤ index (pos n)
      then file_priority h index priority ∷ later
      else later

  abbrev set_priorities : H → Option ℕ → List (ℤ × ℤ) → List (Call H)
  set_priorities h known [] = []
  set_priorities h none (p ∷ ps) = []
  set_priorities h (some n) (p ∷ ps) = priority_calls h n (p ∷ ps) ++ (save_resume_data h ∷ [])

  abbrev resume_calls : H → TaskParams → S → List (Call H)
  resume_calls h params s =
      set_priorities h (lib.num_files h s) params.file_priorities
      ++ (map (add_tracker h) lib.default_trackers ++ (leave_upload_mode h ∷ resume h ∷ []))

  abbrev pub running_task : Task Rate → Task Rate
  running_task t = record t { status = TaskStatus.downloading; dirty = true }

  -- Behind the calls: an exception makes the operation fail, else the task is changed.
  abbrev settled :
      Text
      → (Task Rate → Task Rate)
      → (Text → Text)
      → List (Task Rate)
      → Option Text × S
      → SubmitResult × Engine S Rate
  settled key edit told tasks (some what, s) =
      (failure (told what), record { session = s; tasks = tasks })
  settled key edit told tasks (none, s) =
      (success, with_task key edit (record { session = s; tasks = tasks }))

  abbrev do_resume_with :
      Text → TaskParams → List (Task Rate) → Option H × S → SubmitResult × Engine S Rate
  do_resume_with key params tasks (none, s) = (failure [], record { session = s; tasks = tasks })
  do_resume_with key params tasks (some h, s) =
      settled key running_task (λ what. what) tasks (act_all lib (resume_calls h params s) s)

  unfoldable pub do_resume : Text → TaskParams → Engine S Rate → SubmitResult × Engine S Rate
  unfolding find_handle priority_calls act_all with_task
  do_resume key params e =
      if lib.is_running e.session
      then do_resume_with key params e.tasks (find_handle lib key true e.session)
      else (failure [], e)

  -- A task that is there and marked as deleted.
  abbrev pub is_gone : Option (Task Rate) → Bool
  is_gone none = false
  is_gone (some t) = t.is_delete

  module _ (ratios : Ratios Rate) where
    abbrev pub paused_task : Task Rate → Task Rate
    paused_task t = record t {
      download_rate = ratios.zero;
      upload_rate = ratios.zero;
      status = TaskStatus.paused;
      dirty = true;
    }

    abbrev pause_with : Text → List (Task Rate) → Option H × S → SubmitResult × Engine S Rate
    pause_with key tasks (none, s) = (failure (utf8 "任务不存在"), record { session = s; tasks = tasks })
    pause_with key tasks (some h, s) =
        settled key paused_task (λ what. utf8 "暂停失败") tasks
          (act_all lib (pause h ∷ post_torrent_updates ∷ []) s)

    unfoldable pub pause_task : Text → Engine S Rate → SubmitResult × Engine S Rate
    unfolding find_handle act_all with_task
    pause_task key e =
        if lib.is_running e.session
        then pause_with key e.tasks (find_handle lib key true e.session)
        else (failure (utf8 "引擎未启动"), e)

    -- The limit of the share ratio: three where none is configured.
    abbrev pub ratio_limit : Rate
    ratio_limit =
        if ratios.is_zero ratios.seed_ratio_limit then ratios.three else ratios.seed_ratio_limit

    -- A handle that has shared enough.
    abbrev pub has_shared : H → S → Bool
    has_shared h s =
        not (ratios.is_negative ratio_limit)
        && lib.is_seeding h s
        && ltb_ℤ (pos 0) (lib.total_done h s)
        && ratios.reaches (ratios.ratio (lib.all_time_upload h s) (lib.total_done h s)) ratio_limit

    -- The handles that `sweep` takes out of the session, in their order; a task that is not held may be
    -- fetched on the way.
    unfoldable pub swept : List H → Engine S Rate → Engine S Rate
    unfolding get_task info_hash_hex
    swept [] e = e
    swept (h ∷ hs) e =
        let (found, e') = get_task (info_hash_hex lib h e.session) e in
        let kept = e' in
        let removed = record e' { session = (lib.act (remove_torrent h false) e'.session).1 } in
        swept hs (
          if not (lib.is_valid h e.session)
          then e
          else if is_gone found || has_shared h e.session
          then removed
          else kept)

    unfoldable pub sweep : Engine S Rate → Engine S Rate
    unfolding swept
    sweep e = if lib.is_running e.session then swept (lib.get_torrents e.session) e else e

  abbrev pub deleted_task : Task Rate → Task Rate
  deleted_task t = record t { is_delete = true; dirty = true }

  abbrev removed : Bool → Option H × S → Option Text × S
  removed delete_files (none, s) = (none, s)
  removed delete_files (some h, s) = lib.act (remove_torrent h delete_files) s

  abbrev delete_settled :
      Text → Option (Task Rate) → List (Task Rate) → Option Text × S → SubmitResult × Engine S Rate
  delete_settled key found tasks (some what, s) =
      (failure [], record { session = s; tasks = tasks })
  delete_settled key none tasks (none, s) = (success, record { session = s; tasks = tasks })
  delete_settled key (some t) tasks (none, s) =
      (success, record { session = s; tasks = alter_task key deleted_task tasks })

  abbrev delete_found :
      Text → TaskParams → Option (Task Rate) → Engine S Rate → SubmitResult × Engine S Rate
  delete_found key params found e =
      delete_settled key found e.tasks
        (removed params.delete_files (find_handle lib key params.delete_files e.session))

  unfoldable pub delete_task : Text → TaskParams → Engine S Rate → SubmitResult × Engine S Rate
  unfolding get_task find_handle alter_task
  delete_task key params e =
      let (found, e') = get_task key e in
      if is_gone found then (success, e') else delete_found key params found e'
