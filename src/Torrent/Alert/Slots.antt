-- ===== src/Torrent/Alert/Slots.antt =====
-- What an event of libtorrent does to the slots of the scheduler.
use download_wrapper.Base.{
  ◌≤◌, refl, true, ◌||◌, not, ◌+◌, length, Option, none, some, List, [], ◌∷◌, if_intro,
  if◌then◌else◌, arith,
}
use download_wrapper.Base.Int.{ℤ}
use download_wrapper.Api.{TaskStatus}
use download_wrapper.Http.Path.{join_path}
use download_wrapper.Text.{Text, is_empty}
use download_wrapper.Manager.Task.{Task}
use download_wrapper.Manager.Scheduler.{Engines, SchedulerConfig, active_count}
use download_wrapper.UniqueName.{FileSystem, acquire_wrapper_name}
use download_wrapper.Torrent.Files
use download_wrapper.Torrent.Files.{Doubles, TorrentInfo}
use download_wrapper.Torrent.Errors.{ErrorCode, failed_task}
use download_wrapper.Torrent.Session.{Session, move_storage, info_hash_hex, hash_hex, AddParams}
use download_wrapper.Torrent.Control.{Engine, get_task, with_task}
use download_wrapper.Torrent.Alert.Yields.{
  slot, Calm, Yields, slots-alter_task, slots-get_task, slots-with_task, failed_task-Yields,
  slot_idle,
}
use download_wrapper.Torrent.Alert.{
  Torrents, Alert, TorrentStatus, handle_task_error, handle_parsed, handle_alert, update_states,
  added, added_ready, resume_ready, resume_saved, resume_with, moved, moved_to, placed, queued_task,
  parsed_task, parsed_live, parsed_found, with_files, measured_task, linked_task, filed,
  piece_added, conflicting_task,
}

module _ {E S H Rate : Type 0} (engines : Engines E Rate) (config : SchedulerConfig)
    (lib : Session S H Rate) (more : Torrents S H Rate) (fs : FileSystem S)
    (doubles : Doubles Rate) where
  slots-handle_task_error :
      (key : Text) (error : ErrorCode) (e : Engine S Rate)
      → Calm engines config e.tasks (handle_task_error lib more fs doubles key error e).tasks
  unfolding handle_task_error
  slots-handle_task_error key error e =
      if_intro (λ (r : Engine S Rate). Calm engines config e.tasks r.tasks)
        (is_empty key || not error.is_set) e
        (with_task lib key (λ t. failed_task doubles.nought t error) e) (λ nothing. omega arith)
        (λ set.
          slots-with_task engines config lib key (λ t. failed_task doubles.nought t error) e
            (failed_task-Yields engines config lib doubles.nought error))

  moved-Yields :
      (wrapper_name : Text) (r : Option Text × S)
      → Yields engines config (moved lib more fs doubles wrapper_name r).0
  moved-Yields wrapper_name (some what, s) t = omega arith
  moved-Yields wrapper_name (none, s) t = omega arith

  placed-Yields :
      (h : H) (t : Task Rate) (s : S) → Yields engines config (placed lib more fs doubles h t s).0
  placed-Yields h t s =
      if_intro (λ (r : (Task Rate → Task Rate) × S). Yields engines config r.0)
        (not (is_empty t.wrapper_name)) (queued_task lib more fs doubles, s)
        (if fs.exists (join_path t.save_path t.name) s
          then moved_to lib more fs doubles h t.save_path
              (acquire_wrapper_name fs t.save_path t.name s)
          else (queued_task lib more fs doubles, s))
        (λ named u.
          slot_idle engines config lib (queued_task lib more fs doubles u) (slot engines config u)
            refl)
        (λ unnamed.
          if_intro (λ (r : (Task Rate → Task Rate) × S). Yields engines config r.0)
            (fs.exists (join_path t.save_path t.name) s)
            (moved_to lib more fs doubles h t.save_path
              (acquire_wrapper_name fs t.save_path t.name s))
            (queued_task lib more fs doubles, s)
            (λ taken.
              let (wrapper_name, message, s') = acquire_wrapper_name fs t.save_path t.name s in
              moved-Yields wrapper_name
                (lib.act (move_storage h (join_path t.save_path wrapper_name)) s'))
            (λ free u.
              slot_idle engines config lib (queued_task lib more fs doubles u)
                (slot engines config u) refl))

  slots-parsed_found :
      (key : Text) (h : H) (found : Option (Task Rate)) (e : Engine S Rate)
      → Calm engines config e.tasks (parsed_found lib more fs doubles key h (found, e)).tasks
  slots-parsed_found key h none e = omega arith
  slots-parsed_found key h (some t) e =
      let listed =
        with_files lib more fs doubles key h e.session t.files (more.metadata h e.session) in
      let put = placed lib more fs doubles h t listed.1 in
      if_intro (λ (r : Engine S Rate). Calm engines config e.tasks r.tasks) t.is_delete e
        (parsed_live lib more fs doubles key h t e) (λ gone. omega arith)
        (λ live.
          slots-alter_task engines config lib key (parsed_task lib more fs doubles listed.0 put.0)
            e.tasks (λ u. placed-Yields h t listed.1 (record u { files = listed.0 })))

  slots-handle_parsed :
      (h : H) (e : Engine S Rate)
      → Calm engines config e.tasks (handle_parsed lib more fs doubles h e).tasks
  unfolding handle_parsed
  slots-handle_parsed h e =
      let key = info_hash_hex lib h e.session in
      if_intro (λ (r : Engine S Rate). Calm engines config e.tasks r.tasks) (is_empty key) e
        (parsed_found lib more fs doubles key h (get_task lib key e)) (λ nothing. omega arith)
        (λ named. omega (
          arith,
          slots-parsed_found key h (get_task lib key e).0 (get_task lib key e).1,
          slots-get_task engines config lib key e,
        ))

  slots-update_states :
      (ss : List (TorrentStatus H Rate)) (e : Engine S Rate)
      → Calm engines config e.tasks (update_states lib more fs doubles ss e).tasks
  unfolding update_states
  slots-update_states [] e = omega arith
  slots-update_states (s ∷ ss) e =
      let key = info_hash_hex lib s.handle e.session in
      let one : Engine S Rate =
        if s.errc.is_set
        then handle_task_error lib more fs doubles key s.errc e
        else with_task lib key (measured_task lib more fs doubles s) e in
      let first : Calm engines config e.tasks one.tasks =
        if_intro (λ (r : Engine S Rate). Calm engines config e.tasks r.tasks) s.errc.is_set
          (handle_task_error lib more fs doubles key s.errc e)
          (with_task lib key (measured_task lib more fs doubles s) e)
          (λ set. slots-handle_task_error key s.errc e)
          (λ fine.
            slots-with_task engines config lib key (measured_task lib more fs doubles s) e
              (λ t. omega arith)) in
      omega (arith, slots-update_states ss one)

  linked_task-Yields :
      (params : AddParams) → Yields engines config (linked_task lib more fs doubles params)
  linked_task-Yields params t = ground arith

  slots-added_ready :
      (params : AddParams) (key : Text) (h : H) (e : Engine S Rate) (o : Option TorrentInfo)
      → Calm engines config e.tasks (added_ready lib more fs doubles params key h e o).tasks
  slots-added_ready params key h e none = omega arith
  slots-added_ready params key h e (some info) = omega (
    arith,
    slots-with_task engines config lib key (linked_task lib more fs doubles params)
        (handle_parsed lib more fs doubles h e) (linked_task-Yields params),
    slots-handle_parsed h e,
  )

  slots-piece_added :
      (h : H) (piece : ℤ) (e : Engine S Rate) (o : Option TorrentInfo)
      → Calm engines config e.tasks (piece_added lib more fs doubles h piece e o).tasks
  slots-piece_added h piece e none = omega arith
  slots-piece_added h piece e (some info) =
      slots-with_task engines config lib (info_hash_hex lib h e.session)
        (filed lib more fs doubles
          (Files.piece_finished doubles info (more.snapshot h e.session) piece))
        e (λ t. omega arith)

  slots-resume_saved :
      (key payload : Text) (found : Option (Task Rate)) (e : Engine S Rate)
      → Calm engines config e.tasks (resume_saved lib more fs doubles key payload (found, e)).tasks
  slots-resume_saved key payload none e = omega arith
  slots-resume_saved key payload (some t) e = ground arith

  slots-resume_with :
      (key : Text) (e : Engine S Rate) (o : Option TorrentInfo) (written : Option Text)
      → Calm engines config e.tasks (resume_with lib more fs doubles key e o written).tasks
  slots-resume_with key e none written = omega arith
  slots-resume_with key e (some info) none = omega arith
  slots-resume_with key e (some info) (some payload) =
      if_intro (λ (r : Engine S Rate). Calm engines config e.tasks r.tasks) (is_empty payload) e
        (resume_saved lib more fs doubles key payload (get_task lib key e)) (λ nothing. omega arith)
        (λ written. omega (
          arith,
          slots-resume_saved key payload (get_task lib key e).0 (get_task lib key e).1,
          slots-get_task engines config lib key e,
        ))

  slots-resume_ready :
      (h : H) (e : Engine S Rate)
      → Calm engines config e.tasks (resume_ready lib more fs doubles h e).tasks
  unfolding resume_ready
  slots-resume_ready h e =
      slots-resume_with (info_hash_hex lib h e.session) e (more.metadata h e.session)
        (more.resume_data h e.session)

  -- Whatever happens in libtorrent, handling the event never takes a slot of the scheduler for a task
  -- that the manager holds: the number of active tasks that the scheduler counts grows at most by the
  -- number of tasks that the handling takes over from the store.
  pub active_count-handle_alert :
      (a : Alert H Rate) (e : Engine S Rate)
      → active_count engines config (handle_alert lib more fs doubles a e).tasks + length e.tasks
        ≤ active_count engines config e.tasks + length (handle_alert lib more fs doubles a e).tasks
  unfolding handle_alert added
  active_count-handle_alert (Alert.state_update ss) e = slots-update_states ss e
  active_count-handle_alert (Alert.torrent_finished h) e =
      slots-with_task engines config lib (info_hash_hex lib h e.session)
        (λ t. record t { status = TaskStatus.completed; dirty = true }) e
        (λ t.
          slot_idle engines config lib (record t { status = TaskStatus.completed; dirty = true })
            (slot engines config t) refl)
  active_count-handle_alert (Alert.add_torrent params error h) e =
      let key = hash_hex params.info_hashes in
      if_intro (λ (r : Engine S Rate). Calm engines config e.tasks r.tasks) error.is_set
        (handle_task_error lib more fs doubles key error e)
        (added_ready lib more fs doubles params key h e (more.metadata h e.session))
        (λ set. slots-handle_task_error key error e)
        (λ fine. slots-added_ready params key h e (more.metadata h e.session))
  active_count-handle_alert (Alert.metadata_received h) e = slots-handle_parsed h e
  active_count-handle_alert (Alert.piece_finished h piece) e =
      if_intro (λ (r : Engine S Rate). Calm engines config e.tasks r.tasks)
        (is_empty (info_hash_hex lib h e.session)) e
        (piece_added lib more fs doubles h piece e (more.metadata h e.session))
        (λ nothing. omega arith) (λ named. slots-piece_added h piece e (more.metadata h e.session))
  active_count-handle_alert (Alert.file_completed h i) e =
      let key = info_hash_hex lib h e.session in
      let edit = filed lib more fs doubles (Files.file_completed doubles i) in
      if_intro (λ (r : Engine S Rate). Calm engines config e.tasks r.tasks) (is_empty key) e
        (with_task lib key edit e) (λ nothing. omega arith)
        (λ named. slots-with_task engines config lib key edit e (λ t. omega arith))
  active_count-handle_alert (Alert.torrent_error h error) e =
      slots-handle_task_error (info_hash_hex lib h e.session) error e
  active_count-handle_alert (Alert.file_error h error) e =
      slots-handle_task_error (info_hash_hex lib h e.session) error e
  active_count-handle_alert (Alert.torrent_conflict h) e =
      slots-with_task engines config lib (info_hash_hex lib h e.session)
        (conflicting_task lib more fs doubles) e
        (λ t.
          slot_idle engines config lib (conflicting_task lib more fs doubles t)
            (slot engines config t) refl)
  active_count-handle_alert (Alert.metadata_failed h) e = omega arith
  active_count-handle_alert (Alert.storage_moved_failed h error) e =
      let key = info_hash_hex lib h e.session in
      let unnamed = with_task lib key (λ t. record t { wrapper_name = [] }) e in
      omega (
        arith,
        slots-handle_task_error key error unnamed,
        slots-with_task engines config lib key (λ (t : Task Rate). record t { wrapper_name = [] }) e
            (λ (t : Task Rate). (omega arith)),
      )
  active_count-handle_alert (Alert.save_resume_data h) e = slots-resume_ready h e
  active_count-handle_alert (Alert.storage_moved h) e = slots-handle_parsed h e
  active_count-handle_alert Alert.torrent_removed e = omega arith
  active_count-handle_alert Alert.torrent_deleted e = omega arith
  active_count-handle_alert Alert.torrent_delete_failed e = omega arith
