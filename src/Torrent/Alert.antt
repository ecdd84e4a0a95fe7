-- ===== src/Torrent/Alert.antt =====
-- `handle_parsed` and `handle_alert` of src/torrent/torrent_engine.cpp: what the events of libtorrent
-- make of the tasks. An alert is a value with what the source reads in it. An exception that leaves
-- `handle_alert` is logged by its caller; the state is what it was then.
pub mod Yields
pub mod Slots
mod Tests
use download_wrapper.Base.{
  ℕ, Bool, true, false, ◌&&◌, ◌||◌, not, Option, none, some, List, [], ◌∷◌, if◌then◌else◌,
}
use download_wrapper.Base.Int.{ℤ}
use download_wrapper.Api.{TaskStatus}
use download_wrapper.Text.{Text, utf8, is_empty}
use download_wrapper.Http.Path.{join_path}
use download_wrapper.Manager.Task.{Task}
use download_wrapper.Manager.TaskFile.{TaskFile}
use download_wrapper.UniqueName.{FileSystem, acquire_wrapper_name}
use download_wrapper.Torrent.Files
use download_wrapper.Torrent.Files.{Doubles, TorrentInfo, Snapshot, parsed_files}
use download_wrapper.Torrent.Errors.{ErrorCode, failed_task}
use download_wrapper.Torrent.Session.{
  Session, InfoHashes, AddParams, Call, move_storage, info_hash_hex, hash_hex,
}
use download_wrapper.Torrent.Control.{Engine, get_task, with_task, alter_task, is_gone}

-- What else libtorrent and the stores give: the metadata of a torrent, what its handle reports of its
-- files, the link of a torrent, and the resume data, or `none` where the call throws.
pub record Torrents (S H Rate : Type 0) : Type 0 where
  pub metadata : H → S → Option TorrentInfo
  pub snapshot : H → S → Snapshot
  pub make_magnet_uri : AddParams → Text
  pub resume_data : H → S → Option Text
  pub save_files : List (TaskFile Rate) → S → S
  pub save_resume : Text → Text → S → S

pub record TorrentStatus (H Rate : Type 0) : Type 0 where
  pub handle : H
  pub errc : ErrorCode
  pub total_wanted : ℤ
  pub total_wanted_done : ℤ
  pub download_rate : Rate
  pub upload_rate : Rate

pub data Alert (H Rate : Type 0) : Type 0 where
  state_update : List (TorrentStatus H Rate) → Alert H Rate
  torrent_finished : H → Alert H Rate
  add_torrent : AddParams → ErrorCode → H → Alert H Rate
  metadata_received : H → Alert H Rate
  piece_finished : H → ℤ → Alert H Rate
  file_completed : H → ℕ → Alert H Rate
  torrent_error : H → ErrorCode → Alert H Rate
  file_error : H → ErrorCode → Alert H Rate
  torrent_conflict : H → Alert H Rate
  metadata_failed : H → Alert H Rate
  storage_moved_failed : H → ErrorCode → Alert H Rate
  save_resume_data : H → Alert H Rate
  storage_moved : H → Alert H Rate
  torrent_removed : Alert H Rate
  torrent_deleted : Alert H Rate
  torrent_delete_failed : Alert H Rate

module _ {S H Rate : Type 0} (lib : Session S H Rate) (more : Torrents S H Rate) (fs : FileSystem S)
    (doubles : Doubles Rate) where
  -- `handle_task_error`
  unfoldable pub handle_task_error : Text → ErrorCode → Engine S Rate → Engine S Rate
  unfolding with_task failed_task
  handle_task_error key error e =
      if is_empty key || not error.is_set
      then e
      else with_task lib key (λ t. failed_task doubles.nought t error) e

  abbrev pub queued_task : Task Rate → Task Rate
  queued_task t = record t { status = TaskStatus.queued; dirty = true }

  -- The files of the task, where the metadata are there; they are saved.
  abbrev pub with_files :
      Text → H → S → List (TaskFile Rate) → Option TorrentInfo → List (TaskFile Rate) × S
  with_files key h s files none = (files, s)
  with_files key h s files (some info) =
      let listed = parsed_files doubles key info (more.snapshot h s) info.num_files 0 files in
      (listed, more.save_files listed s)

  -- The storage is moved to a free name; a call that throws leaves the name of the task as it is.
  abbrev pub moved : Text → Option Text × S → (Task Rate → Task Rate) × S
  moved wrapper_name (some what, s) = (λ t. t, s)
  moved wrapper_name (none, s) = (λ t. record t { wrapper_name = wrapper_name }, s)

  abbrev pub moved_to : H → Text → Text × Option Text × S → (Task Rate → Task Rate) × S
  moved_to h save_path (wrapper_name, message, s) =
      moved wrapper_name (lib.act (move_storage h (join_path save_path wrapper_name)) s)

  -- A task without a wrapper name: its storage is moved first if its name is taken.
  abbrev pub unnamed_placed : H → Task Rate → S → (Task Rate → Task Rate) × S
  unnamed_placed h t s =
      if fs.exists (join_path t.save_path t.name) s
      then moved_to h t.save_path (acquire_wrapper_name fs t.save_path t.name s)
      else (queued_task, s)

  -- Behind the files: the task is queued, or its storage is moved.
  abbrev pub placed : H → Task Rate → S → (Task Rate → Task Rate) × S
  placed h t s = if not (is_empty t.wrapper_name) then (queued_task, s) else unnamed_placed h t s

  abbrev pub parsed_task : List (TaskFile Rate) → (Task Rate → Task Rate) → Task Rate → Task Rate
  parsed_task files edit t = edit (record t { files = files })

  abbrev pub parsed_live : Text → H → Task Rate → Engine S Rate → Engine S Rate
  parsed_live key h t e =
      let (files, s) = with_files key h e.session t.files (more.metadata h e.session) in
      let (edit, s') = placed h t s in
      record { session = s'; tasks = alter_task lib key (parsed_task files edit) e.tasks }

  abbrev pub parsed_found : Text → H → Option (Task Rate) × Engine S Rate → Engine S Rate
  parsed_found key h (none, e) = e
  parsed_found key h (some t, e) = if t.is_delete then e else parsed_live key h t e

  -- `handle_parsed`
  unfoldable pub handle_parsed : H → Engine S Rate → Engine S Rate
  unfolding info_hash_hex get_task parsed_files acquire_wrapper_name alter_task
  handle_parsed h e =
      let key = info_hash_hex lib h e.session in
      if is_empty key then e else parsed_found key h (get_task lib key e)

  -- One status of a `state_update_alert`
  abbrev pub measured_task : TorrentStatus H Rate → Task Rate → Task Rate
  measured_task s t = record t {
    total_size = s.total_wanted;
    total_done = s.total_wanted_done;
    download_rate = s.download_rate;
    upload_rate = s.upload_rate;
    dirty = true;
  }

  unfoldable pub update_states : List (TorrentStatus H Rate) → Engine S Rate → Engine S Rate
  unfolding info_hash_hex with_task handle_task_error
  update_states [] e = e
  update_states (s ∷ ss) e =
      let key = info_hash_hex lib s.handle e.session in
      update_states ss (
        if s.errc.is_set
        then handle_task_error key s.errc e
        else with_task lib key (measured_task s) e)

  abbrev pub linked_task : AddParams → Task Rate → Task Rate
  linked_task params t =
      let magnet = more.make_magnet_uri params in
      if is_empty t.magnet_link && not (is_empty magnet)
      then record t { magnet_link = magnet; dirty = true }
      else t

  -- By whether the metadata are there.
  abbrev pub added_ready : AddParams → Text → H → Engine S Rate → Option TorrentInfo → Engine S Rate
  added_ready params key h e none = e
  added_ready params key h e (some info) =
      with_task lib key (linked_task params) (handle_parsed h e)

  unfoldable pub added : AddParams → ErrorCode → H → Engine S Rate → Engine S Rate
  unfolding hash_hex handle_task_error handle_parsed with_task
  added params error h e =
      let key = hash_hex params.info_hashes in
      if error.is_set
      then handle_task_error key error e
      else added_ready params key h e (more.metadata h e.session)

  -- `handle_piece_finished` and the completion of a file, on the files of the task
  abbrev pub filed : (List (TaskFile Rate) → List (TaskFile Rate) × Bool) → Task Rate → Task Rate
  filed change t =
      let (files, dirty) = change t.files in record t { files = files; dirty = t.dirty || dirty }

  abbrev pub piece_added : H → ℤ → Engine S Rate → Option TorrentInfo → Engine S Rate
  piece_added h piece e none = e
  piece_added h piece e (some info) =
      with_task lib (info_hash_hex lib h e.session)
        (filed (Files.piece_finished doubles info (more.snapshot h e.session) piece)) e

  abbrev pub resume_saved : Text → Text → Option (Task Rate) × Engine S Rate → Engine S Rate
  resume_saved key payload (none, e) = e
  resume_saved key payload (some t, e) =
      if t.is_delete then e else record e { session = more.save_resume key payload e.session }

  -- By whether the metadata are there, and the data that were written, if the call did not throw.
  abbrev pub resume_with : Text → Engine S Rate → Option TorrentInfo → Option Text → Engine S Rate
  resume_with key e none written = e
  resume_with key e (some info) none = e
  resume_with key e (some info) (some payload) =
      if is_empty payload then e else resume_saved key payload (get_task lib key e)

  unfoldable pub resume_ready : H → Engine S Rate → Engine S Rate
  unfolding info_hash_hex get_task
  resume_ready h e =
      resume_with (info_hash_hex lib h e.session) e (more.metadata h e.session)
        (more.resume_data h e.session)

  abbrev pub conflicting_task : Task Rate → Task Rate
  conflicting_task t = record t { status = TaskStatus.error; message = utf8 "种子任务冲突"; dirty = true }

  -- `handle_alert`
  unfoldable pub handle_alert : Alert H Rate → Engine S Rate → Engine S Rate
  unfolding update_states added handle_parsed handle_task_error with_task resume_ready
  handle_alert (Alert.state_update ss) e = update_states ss e
  handle_alert (Alert.torrent_finished h) e =
      with_task lib (info_hash_hex lib h e.session)
        (λ t. record t { status = TaskStatus.completed; dirty = true }) e
  handle_alert (Alert.add_torrent params error h) e = added params error h e
  handle_alert (Alert.metadata_received h) e = handle_parsed h e
  handle_alert (Alert.piece_finished h piece) e =
      if is_empty (info_hash_hex lib h e.session)
      then e
      else piece_added h piece e (more.metadata h e.session)
  handle_alert (Alert.file_completed h i) e =
      let key = info_hash_hex lib h e.session in
      if is_empty key then e else with_task lib key (filed (Files.file_completed doubles i)) e
  handle_alert (Alert.torrent_error h error) e =
      handle_task_error (info_hash_hex lib h e.session) error e
  handle_alert (Alert.file_error h error) e =
      handle_task_error (info_hash_hex lib h e.session) error e
  handle_alert (Alert.torrent_conflict h) e =
      with_task lib (info_hash_hex lib h e.session) conflicting_task e
  handle_alert (Alert.metadata_failed h) e = e
  handle_alert (Alert.storage_moved_failed h error) e =
      let key = info_hash_hex lib h e.session in
      handle_task_error key error (with_task lib key (λ t. record t { wrapper_name = [] }) e)
  handle_alert (Alert.save_resume_data h) e = resume_ready h e
  handle_alert (Alert.storage_moved h) e = handle_parsed h e
  handle_alert Alert.torrent_removed e = e
  handle_alert Alert.torrent_deleted e = e
  handle_alert Alert.torrent_delete_failed e = e
