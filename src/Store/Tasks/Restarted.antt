-- ===== src/Store/Tasks/Restarted.antt =====
-- What a start takes over from the table of tasks, in `TaskManager::start` of src/core/task_manager.cpp.
use download_wrapper.Base.{
  ℕ, ◌≡◌, refl, sym, subst, ap, ◌∙◌, inl, inr, Bool, true, false, ◌&&◌, ◌||◌, not, ◌==◌, Option,
  none, some, List, [], ◌∷◌, Bool-cases, if◌then◌else◌, arith,
}
use download_wrapper.Base.Int.{ℤ, leb_ℤ}
use download_wrapper.Api.{TaskStatus, is_queued, is_resolving, is_downloading}
use download_wrapper.Text.{Text, text_eq}
use download_wrapper.Manager.TaskFile.{TaskFile}
use download_wrapper.Manager.Task.{Task, is_download}
use download_wrapper.Manager.Control.{restored_tasks, requeued, find_task}
use download_wrapper.Store.Files.Keys.{text_eq_sound, text_eq_refl}
use download_wrapper.Store.Tasks.{
  StoredTask, Row, Database, read_task, select_row, insert_by_time, select_rows, read_all,
}
use download_wrapper.Store.Tasks.Replaced.{apart_text}
use download_wrapper.Store.Tasks.Operations.{is_among, find_by_status}

-- The number of a state.
abbrev pub number : TaskStatus → ℕ
number TaskStatus.downloading = 0
number TaskStatus.paused = 1
number TaskStatus.completed = 2
number TaskStatus.error = 3
number TaskStatus.queued = 4
number TaskStatus.resolving = 5
number TaskStatus.invalidated = 7
number TaskStatus.deleting = 8
number TaskStatus.fail = 9

abbrev pub same_status : TaskStatus → TaskStatus → Bool
same_status s t = number s == number t

abbrev pub active_statuses : List TaskStatus
active_statuses = TaskStatus.resolving ∷ TaskStatus.queued ∷ TaskStatus.downloading ∷ []

active_lem :
    (s : TaskStatus)
    → is_among same_status active_statuses s ≡ (is_resolving s || is_queued s || is_downloading s)
unfolding is_among
active_lem TaskStatus.downloading = refl
active_lem TaskStatus.paused = refl
active_lem TaskStatus.completed = refl
active_lem TaskStatus.error = refl
active_lem TaskStatus.queued = refl
active_lem TaskStatus.resolving = refl
active_lem TaskStatus.invalidated = refl
active_lem TaskStatus.deleting = refl
active_lem TaskStatus.fail = refl

module _ {Rate : Type 0} where
  abbrev pub tasks_of : List (StoredTask Rate) → List (Task Rate)
  tasks_of [] = []
  tasks_of (s ∷ ss) = s.0 ∷ tasks_of ss

  -- `task.files = task_file_store_.get(key)`
  abbrev pub filed : (Text → List (TaskFile Rate)) → Task Rate → Task Rate
  filed get t = record t { files = get t.task_id }

  abbrev pub all_filed : (Text → List (TaskFile Rate)) → List (Task Rate) → List (Task Rate)
  all_filed get [] = []
  all_filed get (t ∷ ts) = filed get t ∷ all_filed get ts

  -- The tasks that `start` enters; `get` is that of the store of files.
  unfoldable pub taken_over :
      Bool → Bool → (Text → List (TaskFile Rate)) → ℤ → Database Rate → List (Task Rate)
  unfolding find_by_status restored_tasks
  taken_over connected runs get now db =
      all_filed get (
        restored_tasks now
          (tasks_of (find_by_status connected runs same_status active_statuses db)))

  -- The row of an identifier, deleted or not.
  abbrev pub row_at : Text → List (Row Rate) → Option (Row Rate)
  row_at id rows = select_row true id rows

  -- Each identifier stands once.
  abbrev pub IsKeyed : List (Row Rate) → Type 0
  IsKeyed [] = Unit
  IsKeyed (r ∷ rows) = (row_at r.task_id rows ≡ none) × IsKeyed rows

  abbrev filtered : (TaskStatus → Bool) → Option (Row Rate) → Option (Row Rate)
  filtered wanted none = none
  filtered wanted (some r) = if not r.is_delete && wanted r.status then some r else none

  row_at-head :
      (id : Text) (r : Row Rate) (rows : List (Row Rate))
      → row_at id (r ∷ rows) ≡ (if text_eq r.task_id id then some r else row_at id rows)
  unfolding select_row
  row_at-head id r rows = ground arith

  gone :
      (id : Text) (r : Row Rate) (rows : List (Row Rate))
      → text_eq r.task_id id ≡ true
      → row_at r.task_id rows ≡ none
      → row_at id rows ≡ none
  gone id r rows e h = subst (λ x. row_at x rows ≡ none) (text_eq_sound r.task_id id e) h

  tail :
      (id : Text) (r : Row Rate) (rows : List (Row Rate))
      → row_at id (r ∷ rows) ≡ none
      → (text_eq r.task_id id ≡ false) × (row_at id rows ≡ none)
  tail id r rows h = tail_of (text_eq r.task_id id) (sym (row_at-head id r rows) ∙ h)
    where
      tail_of :
          (b : Bool)
          → (if b then some r else row_at id rows) ≡ none
          → (b ≡ false) × (row_at id rows ≡ none)
      tail_of true h = absurd (cc)
      tail_of false h = (refl, h)

  row_at-insert_by_time :
      (id : Text) (r : Row Rate) (rows : List (Row Rate))
      → row_at r.task_id rows ≡ none
      → row_at id (insert_by_time r rows)
        ≡ (if text_eq r.task_id id then some r else row_at id rows)
  unfolding insert_by_time
  row_at-insert_by_time id r [] h = row_at-head id r []
  row_at-insert_by_time id r (s ∷ rows) h = elim (Bool-cases (leb_ℤ s.modified_at r.modified_at)) [
    | inl e ↦ rw e (row_at-head id r (s ∷ rows))
    | inr e ↦
        let (apart, free) = tail r.task_id s rows h in
        rw e (
          row_at-head id s (insert_by_time r rows)
          ∙ ap (λ o. if text_eq s.task_id id then some s else o)
              (row_at-insert_by_time id r rows free)
          ∙ swapped id r s (row_at id rows) apart
          ∙ ap (λ o. if text_eq r.task_id id then some r else o) (sym (row_at-head id s rows)))
  ]
    where
      swapped :
          (id : Text) (r s : Row Rate) (o : Option (Row Rate))
          → text_eq s.task_id r.task_id ≡ false
          → (if text_eq s.task_id id then some s else if text_eq r.task_id id then some r else o)
            ≡ (if text_eq r.task_id id then some r else if text_eq s.task_id id then some s else o)
      swapped id r s o apart = elim (Bool-cases (text_eq s.task_id id)) [
        | inl e ↦ rw (e, apart_text s.task_id r.task_id id apart e) refl
        | inr e ↦ rw e refl
      ]

  taken :
      (wanted : TaskStatus → Bool) (r : Row Rate) (x : Bool) (o o' : Option (Row Rate))
      → (not r.is_delete && wanted r.status) ≡ true
      → o' ≡ filtered wanted o
      → (if x then some r else o') ≡ filtered wanted (if x then some r else o)
  taken wanted r true o o' e h = rw e refl
  taken wanted r false o o' e h = h

  dropped :
      (wanted : TaskStatus → Bool) (r : Row Rate) (x : Bool) (o : Option (Row Rate))
      → (not r.is_delete && wanted r.status) ≡ false
      → (x ≡ true → o ≡ none)
      → filtered wanted o ≡ filtered wanted (if x then some r else o)
  dropped wanted r true o e h = ap (filtered wanted) (h refl) ∙ rw e refl
  dropped wanted r false o e h = refl

  row_at-select_rows :
      (wanted : TaskStatus → Bool) (id : Text) (rows : List (Row Rate))
      → IsKeyed rows
      → row_at id (select_rows wanted rows) ≡ filtered wanted (row_at id rows)
  unfolding select_rows select_row
  row_at-select_rows wanted id [] k = refl
  row_at-select_rows wanted id (r ∷ rows) (h, k) =
      let rest = row_at-select_rows wanted id rows k in
      let free : row_at r.task_id (select_rows wanted rows) ≡ none =
        row_at-select_rows wanted r.task_id rows k ∙ ap (filtered wanted) h in
      elim (Bool-cases (not r.is_delete && wanted r.status)) [
        | inl e ↦ rw e (
            row_at-insert_by_time id r (select_rows wanted rows) free
            ∙ taken wanted r (text_eq r.task_id id) _ _ e rest
            ∙ ap (filtered wanted) (sym (row_at-head id r rows)))
        | inr e ↦ rw e (
            rest
            ∙ dropped wanted r (text_eq r.task_id id) (row_at id rows) e
                (λ here. gone id r rows here h)
            ∙ ap (filtered wanted) (sym (row_at-head id r rows)))
      ]

  insert_by_time-IsKeyed :
      (r : Row Rate) (rows : List (Row Rate))
      → row_at r.task_id rows ≡ none
      → IsKeyed rows
      → IsKeyed (insert_by_time r rows)
  unfolding insert_by_time
  insert_by_time-IsKeyed r [] h k = (h, tt)
  insert_by_time-IsKeyed r (s ∷ rows) h (free, k) =
      elim (Bool-cases (leb_ℤ s.modified_at r.modified_at)) [
        | inl e ↦ rw e (h, (free, k))
        | inr e ↦
            let (apart, later) = tail r.task_id s rows h in
            rw e (
              row_at-insert_by_time s.task_id r rows later
                  ∙ rw (apart_text s.task_id r.task_id s.task_id apart (text_eq_refl s.task_id))
                      free,
              insert_by_time-IsKeyed r rows later k,
            )
      ]

  select_rows-IsKeyed :
      (wanted : TaskStatus → Bool) (rows : List (Row Rate))
      → IsKeyed rows
      → IsKeyed (select_rows wanted rows)
  unfolding select_rows
  select_rows-IsKeyed wanted [] k = tt
  select_rows-IsKeyed wanted (r ∷ rows) (h, k) =
      let rest = select_rows-IsKeyed wanted rows k in
      elim (Bool-cases (not r.is_delete && wanted r.status)) [
        | inl e ↦ rw e (
            insert_by_time-IsKeyed r (select_rows wanted rows)
              (row_at-select_rows wanted r.task_id rows k ∙ ap (filtered wanted) h) rest)
        | inr e ↦ rw e rest
      ]

  -- A download as it waits.
  abbrev pub waiting : ℤ → Row Rate → Task Rate
  waiting now r = record (read_task r).0 {
    status = TaskStatus.queued;
    modified_at = if is_queued r.status then r.modified_at else now;
    dirty = if is_queued r.status then r.dirty else true;
  }

  abbrev pub entered : ℤ → Option (Row Rate) → Option (Task Rate)
  entered now none = none
  entered now (some r) = if is_download r.protocol then some (waiting now r) else none

  requeued_of :
      (now : ℤ) (s : TaskStatus) (t : Task Rate)
      → requeued now (record t { status = s }) ≡ record t {
        status = TaskStatus.queued;
        modified_at = if is_queued s then t.modified_at else now;
        dirty = if is_queued s then t.dirty else true;
      }
  requeued_of now TaskStatus.downloading t = refl
  requeued_of now TaskStatus.paused t = refl
  requeued_of now TaskStatus.completed t = refl
  requeued_of now TaskStatus.error t = refl
  requeued_of now TaskStatus.queued t = refl
  requeued_of now TaskStatus.resolving t = refl
  requeued_of now TaskStatus.invalidated t = refl
  requeued_of now TaskStatus.deleting t = refl
  requeued_of now TaskStatus.fail t = refl

  requeued-waiting : (now : ℤ) (r : Row Rate) → requeued now (read_task r).0 ≡ waiting now r
  unfolding read_task
  requeued-waiting now r = requeued_of now r.status (read_task r).0

  -- The head of the list, by whether it is a download.
  entered_head :
      (now : ℤ) (id : Text) (r : Row Rate) (ts : List (Task Rate)) (o : Option (Row Rate))
      → find_task id ts ≡ entered now o
      → (text_eq r.task_id id ≡ true → o ≡ none)
      → find_task id (if is_download r.protocol then requeued now (read_task r).0 ∷ ts else ts)
        ≡ entered now (if text_eq r.task_id id then some r else o)
  unfolding find_task read_task
  entered_head now id r ts o ih alone = elim (Bool-cases (is_download r.protocol)) [
    | inl d ↦
        rw (d, requeued-waiting now r)
          (elim (Bool-cases (text_eq r.task_id id)) [ inl e ↦ rw (e, d) refl | inr e ↦ rw e ih ])
    | inr d ↦ rw d (elim (Bool-cases (text_eq r.task_id id)) [
      | inl e ↦ rw (e, d) (ih ∙ ap (entered now) (alone e))
      | inr e ↦ rw e ih
    ])
  ]

  find_task-restored_tasks :
      (now : ℤ) (id : Text) (rows : List (Row Rate))
      → IsKeyed rows
      → find_task id (restored_tasks now (tasks_of (read_all rows))) ≡ entered now (row_at id rows)
  unfolding find_task restored_tasks read_task select_row
  find_task-restored_tasks now id [] k = refl
  find_task-restored_tasks now id (r ∷ rows) (h, k) =
      entered_head now id r (restored_tasks now (tasks_of (read_all rows))) (row_at id rows)
        (find_task-restored_tasks now id rows k) (λ e. gone id r rows e h)
      ∙ ap (entered now) (sym (row_at-head id r rows))

  -- What a start makes of the row of an identifier.
  abbrev pub resumed : ℤ → Option (Row Rate) → Option (Task Rate)
  resumed now none = none
  resumed now (some r) =
      if not r.is_delete
        && (is_resolving r.status || is_queued r.status || is_downloading r.status)
        && is_download r.protocol
      then some (waiting now r)
      else none

  resumed_of :
      (now : ℤ) (o : Option (Row Rate))
      → entered now (filtered (is_among same_status active_statuses) o) ≡ resumed now o
  resumed_of now none = refl
  resumed_of now (some r) =
      ap (λ b. entered now (if not r.is_delete && b then some r else none)) (active_lem r.status)
      ∙ checked r.is_delete (is_resolving r.status || is_queued r.status || is_downloading r.status)
          r
    where
      checked :
          (d b : Bool) (r : Row Rate)
          → entered now (if not d && b then some r else none)
            ≡ (if not d && b && is_download r.protocol then some (waiting now r) else none)
      checked d b r = ground arith

  abbrev pub some_filed : (Text → List (TaskFile Rate)) → Option (Task Rate) → Option (Task Rate)
  some_filed get none = none
  some_filed get (some t) = some (filed get t)

  find_task-all_filed :
      (get : Text → List (TaskFile Rate)) (id : Text) (ts : List (Task Rate))
      → find_task id (all_filed get ts) ≡ some_filed get (find_task id ts)
  unfolding find_task
  find_task-all_filed get id [] = refl
  find_task-all_filed get id (t ∷ ts) = elim (Bool-cases (text_eq t.task_id id)) [
    | inl e ↦ rw e refl
    | inr e ↦ rw e (find_task-all_filed get id ts)
  ]

  -- Where the database works and no two rows have the same identifier, a start takes over exactly the
  -- tasks that are not deleted, that were resolving, waiting or downloading, and that are downloads: for
  -- each identifier it has the task of the row as the table has it, with the files of the store of files,
  -- but that it waits in the queue, and where it did not wait before, has the time of the start and is to
  -- be saved; for every other identifier it has no task.
  pub find_task-taken_over :
      (get : Text → List (TaskFile Rate)) (now : ℤ) (db : Database Rate) (id : Text)
      → IsKeyed db.tasks
      → find_task id (taken_over true true get now db)
        ≡ some_filed get (resumed now (row_at id db.tasks))
  unfolding taken_over find_by_status
  find_task-taken_over get now db id k =
      let wanted = is_among same_status active_statuses in
      let rows = select_rows wanted db.tasks in
      find_task-all_filed get id (restored_tasks now (tasks_of (read_all rows)))
      ∙ ap (some_filed get) (
          find_task-restored_tasks now id rows (select_rows-IsKeyed wanted db.tasks k)
          ∙ ap (entered now) (row_at-select_rows wanted id db.tasks k)
          ∙ resumed_of now (row_at id db.tasks))
