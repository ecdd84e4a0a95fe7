-- ===== src/Manager/Scheduler.antt =====
-- `scheduler_loop` of src/core/task_manager.cpp, one turn of its outer loop. `tasks_` is the list of
-- its tasks in the order of iteration, which the source leaves open; each stands under its `task_id`.
-- The engines, the clock and `running_` are a state `E` that every use may change. The engines' own
-- writes to the task that they are called for are those that the scheduler makes anyway.
pub mod Choice
pub mod Admission
use download_wrapper.Base.{
  ℕ, zero, suc, ◌+◌, Bool, true, false, ◌&&◌, ◌||◌, not, Option, none, some, List, [], ◌∷◌, set,
  if◌then◌else◌,
}
use download_wrapper.Base.Int.{ℤ, pos, ltb_ℤ, leb_ℤ, eqb_ℤ}
use download_wrapper.Api.{
  Protocol, TaskStatus, Reason, is_http, is_torrent, is_queued, is_downloading, is_success,
  is_retry,
}
use download_wrapper.Text.{Text, is_empty}
use download_wrapper.Manager.Task.{
  Task, TaskParams, no_params, SubmitResult, is_download, status_occupies_slot,
}

-- `IDownloadEngine`, as the scheduler uses it, with the order of rates and the clock.
pub record Engines (E Rate : Type 0) : Type 0 where
  pub has_http : Bool
  pub has_torrent : Bool
  pub pause_task : TaskParams → E → SubmitResult × E
  pub do_resume : TaskParams → E → SubmitResult × E
  pub now_unix_ms : E → ℤ × E
  pub running : E → Bool × E
  pub zero_rate : Rate
  pub slower : Rate → Rate → Bool

-- `config_`, and `net_allowed_`
pub record SchedulerConfig : Type 0 where
  pub client_id : Text
  pub max_concurrent_downloads : ℤ
  pub net_allowed : Bool

-- What a turn of the inner loop does.
pub data Turn (E Rate : Type 0) : Type 0 where
  stop : List (Task Rate) → E → Turn E Rate
  again : List (Task Rate) → E → Turn E Rate

abbrev pub select {ℓ} : {A : Type ℓ} → (A → Bool) → List A → List A
select p [] = []
select p (a ∷ rest) = let kept = select p rest in if p a then a ∷ kept else kept

-- The loops that look for the best task: a task that is `fit` takes the place of the one found
-- before if it is `better`. With the task goes its place.
module _ {ℓ} {A : Type ℓ} (fit : A → Bool) (better : A → A → Bool) where
  abbrev pub improved : ℕ → A → Option (ℕ × A) → Option (ℕ × A)
  improved i a none = some (i, a)
  improved i a (some (j, b)) = if better a b then some (i, a) else some (j, b)

  unfoldable pub pick : ℕ → Option (ℕ × A) → List A → Option (ℕ × A)
  pick i best [] = best
  pick i best (a ∷ rest) = pick (suc i) (if fit a then improved i a best else best) rest

module _ {E Rate : Type 0} (engines : Engines E Rate) (config : SchedulerConfig) where
  -- `engine_of(proto) != nullptr`
  abbrev pub has_engine : Protocol → Bool
  has_engine p = if is_http p then engines.has_http else engines.has_torrent

  -- The tasks that `std::erase_if` drops.
  abbrev pub is_collectable : Task Rate → Bool
  is_collectable t =
      t.is_delete
      && not t.dirty
      && (not (is_torrent t.task_protocol) || (t.need_delete_session && t.need_delete_file))

  abbrev pub is_waiting : Task Rate → Bool
  is_waiting t =
      not t.is_delete
      && is_queued t.status
      && is_download t.task_protocol
      && has_engine t.task_protocol

  abbrev pub is_pausable : Task Rate → Bool
  is_pausable t =
      not t.is_delete
      && is_downloading t.status
      && is_download t.task_protocol
      && has_engine t.task_protocol

  abbrev pub is_active : Task Rate → Bool
  is_active t = not t.is_delete && is_download t.task_protocol && status_occupies_slot t.status

  -- Forced tasks first, then by priority, then the older.
  abbrev pub goes_before : Task Rate → Task Rate → Bool
  goes_before a b =
      (a.force && not b.force)
      || ((if a.force then b.force else not b.force) && ltb_ℤ b.priority a.priority)
      || ((if a.force then b.force else not b.force)
          && eqb_ℤ a.priority b.priority
          && ltb_ℤ a.created_at b.created_at)

  abbrev pub is_slower : Task Rate → Task Rate → Bool
  is_slower a b = engines.slower a.download_rate b.download_rate

  -- `active_count_locked`
  unfoldable pub active_count : List (Task Rate) → ℕ
  active_count [] = 0
  active_count (t ∷ ts) = (if is_active t then 1 else 0) + active_count ts

  -- The lambda `task_params`
  abbrev pub task_params : Task Rate → TaskParams
  task_params t = record no_params {
    protocol = t.task_protocol;
    client_id = if is_empty t.client_id then config.client_id else t.client_id;
    natural_key = t.task_id;
  }

  abbrev pub paused_task : Task Rate → ℤ → Task Rate
  paused_task t now = record t {
    status = TaskStatus.paused;
    download_rate = engines.zero_rate;
    upload_rate = engines.zero_rate;
    modified_at = now;
    dirty = true;
  }

  abbrev pub started_task : Task Rate → SubmitResult → ℤ → Task Rate
  started_task t r now = record t {
    force = false;
    status = if is_success r.code then TaskStatus.downloading else TaskStatus.error;
    reason = r.code;
    message = r.message;
    modified_at = now;
    dirty = true;
  }

  -- The slowest download, if there is one, makes room for a forced task.
  unfoldable pub make_room_by : List (Task Rate) → E → Option (ℕ × Task Rate) → Turn E Rate
  make_room_by tasks e none = stop tasks e
  make_room_by tasks e (some (j, slowest)) =
      let (r, e1) = engines.pause_task (task_params slowest) e in
      let (now, e2) = engines.now_unix_ms e1 in
      if is_success r.code then again (set tasks j (paused_task slowest now)) e2 else stop tasks e1

  unfoldable pub make_room : List (Task Rate) → E → Turn E Rate
  make_room tasks e = make_room_by tasks e (pick is_pausable is_slower 0 none tasks)

  -- The chosen task is handed to its engine.
  unfoldable pub dispatch : List (Task Rate) → ℕ → Task Rate → E → Turn E Rate
  dispatch tasks i next e =
      let params : TaskParams = record (task_params next) {
        file_priorities = next.priority_file_indexes;
      } in
      let (r, e1) = engines.do_resume params e in
      let (now, e2) = engines.now_unix_ms e1 in
      if is_retry r.code then stop tasks e1 else again (set tasks i (started_task next r now)) e2

  unfoldable pub admit_next : List (Task Rate) → ℕ → Task Rate → E → Turn E Rate
  admit_next tasks i next e =
      if leb_ℤ config.max_concurrent_downloads (pos (active_count tasks))
      then (if next.force then make_room tasks e else stop tasks e)
      else dispatch tasks i next e

  unfoldable pub admit_choice : List (Task Rate) → E → Option (ℕ × Task Rate) → Turn E Rate
  admit_choice tasks e none = stop tasks e
  admit_choice tasks e (some (i, next)) = admit_next tasks i next e

  -- One turn of `while (running_.load() && config_.max_concurrent_downloads > 0)`.
  unfoldable pub turn : List (Task Rate) → E → Turn E Rate
  turn tasks e =
      let (on, e1) = engines.running e in
      if on && ltb_ℤ (pos 0) config.max_concurrent_downloads
      then admit_choice tasks e1 (pick is_waiting goes_before 0 none tasks)
      else stop tasks e1

  -- The loop, on fuel; `none` means that the fuel ran out.
  pub admit : ℕ → List (Task Rate) → E → Option (List (Task Rate) × E)
  admit zero tasks e = none
  admit (suc fuel) tasks e = elim (turn tasks e) [
    | stop tasks' e' ↦ some (tasks', e')
    | again tasks' e' ↦ admit fuel tasks' e'
  ]

  -- `to_pause`, where the network is not allowed
  abbrev pub must_pause : Task Rate → Bool
  must_pause t = not t.is_delete && is_download t.task_protocol && status_occupies_slot t.status

  -- The calls `engine->pause_task` after the lock is released; their results are not looked at.
  pub pause_all : List (Task Rate) → E → E
  pause_all [] e = e
  pause_all (t ∷ ts) e =
      pause_all ts
        (if has_engine t.task_protocol then (engines.pause_task (task_params t) e).1 else e)

  -- One turn of the outer loop up to its sleep.
  pub scheduler_turn : ℕ → List (Task Rate) → E → Option (List (Task Rate) × E)
  scheduler_turn fuel tasks e =
      let kept = select (λ t. not (is_collectable t)) tasks in
      if config.net_allowed
      then admit fuel kept e
      else some (kept, pause_all (select must_pause kept) e)
