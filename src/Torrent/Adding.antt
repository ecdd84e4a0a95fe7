-- ===== src/Torrent/Adding.antt =====
-- `add_task`, `parse_magnet` and `parse_torrent_file` of src/torrent/torrent_engine.cpp. A link that
-- cannot be parsed leaves the parameters of the torrent as they were.
pub mod Listed
use download_wrapper.Base.{
  ℕ, zero, suc, Bool, true, false, ◌&&◌, ◌||◌, not, Option, none, some, List, [], ◌∷◌, map, ◌==◌,
  length, if◌then◌else◌,
}
use download_wrapper.Base.Int.{ℤ, pos}
use download_wrapper.Api.{Protocol, TaskStatus}
use download_wrapper.Text.{Text, utf8, is_empty}
use download_wrapper.Http.Path.{filename_of, file_extension}
use download_wrapper.Manager.Task.{Task, no_task, TaskParams, SubmitResult, success, failure}
use download_wrapper.Manager.TaskFile.{TaskFile, no_file}
use download_wrapper.Torrent.Files.{Doubles, TorrentInfo}
use download_wrapper.Torrent.Session.{
  Session, InfoHashes, AddParams, Call, add_tracker, post_torrent_updates, hash_hex, no_hashes,
  find_handle, act_all,
}
use download_wrapper.Torrent.Control.{Engine, get_task, with_task, is_gone}

-- `add_torrent_params{}`
abbrev pub empty_params : AddParams
empty_params = record {
  name = [];
  save_path = [];
  info_hashes = no_hashes;
  ti = none;
  flags = record {
    update_subscribe = false;
    need_save_resume = false;
    upload_mode = false;
    paused = false;
    auto_managed = false;
  };
  rest = [];
}

-- `atp.ti ? atp.ti->info_hashes() : atp.info_hashes`
abbrev pub hashes_of : AddParams → InfoHashes
hashes_of atp = elim atp.ti [ some hashes ↦ hashes | none ↦ atp.info_hashes ]

module _ {Rate : Type 0} (doubles : Doubles Rate) where
  -- A file as it is shown before the torrent is added.
  unfoldable pub shown_file : Text → TorrentInfo → ℕ → TaskFile Rate
  shown_file hash info i = record (no_file doubles.nought) {
    file_index = pos i;
    task_id = hash;
    path = info.file_path i;
    name = filename_of (info.file_path i);
    total_size = pos (info.file_size i);
    progress = if info.file_size i == 0 then doubles.one else doubles.nought;
    extension = file_extension (info.file_path i);
  }

  -- The loop over the files, from index `i` on.
  unfoldable pub shown_files : Text → TorrentInfo → ℕ → ℕ → List (TaskFile Rate)
  unfolding shown_file
  shown_files hash info zero i = []
  shown_files hash info (suc rounds) i =
      let rest = shown_files hash info rounds (suc i) in
      if info.pad_file_at i then rest else shown_file hash info i ∷ rest

module _ {S H Rate : Type 0} (lib : Session S H Rate) where
  abbrev pub or_source : Option AddParams → Option AddParams → Option AddParams
  or_source (some atp) other = some atp
  or_source none other = other

  abbrev with_metadata : Option AddParams → Option AddParams
  with_metadata none = none
  with_metadata (some loaded) = some (record empty_params { ti = loaded.ti })

  abbrev hash_v1 : Option Text → Option AddParams
  hash_v1 none = none
  hash_v1 (some hash) =
      some (record empty_params { info_hashes = record { v1 = some hash; v2 = none } })

  abbrev hash_v2 : Option Text → Option AddParams
  hash_v2 none = none
  hash_v2 (some hash) =
      some (record empty_params { info_hashes = record { v1 = none; v2 = some hash } })

  -- The text of the link read as a hash, of 40 digits or of 64.
  abbrev hash_source : Text → Option AddParams
  hash_source link =
      if length link == 40
      then hash_v1 (lib.from_hex link)
      else if length link == 64
      then hash_v2 (lib.from_hex link)
      else none

  -- What is added: by the link, by the file, or by the link as a hash.
  unfoldable pub source_of : TaskParams → S → Option AddParams
  source_of params s =
      or_source
        (if is_empty params.magnet_link then none else lib.parse_magnet_uri params.magnet_link)
        (or_source
          (if is_empty params.torrent_file
            then none
            else with_metadata (lib.load_torrent_file params.torrent_file s))
          (if is_empty params.magnet_link then none else hash_source params.magnet_link))

  module _ (doubles : Doubles Rate) where
    -- The record of a new task. Its name is that of parameters that nothing has named.
    unfoldable pub new_task : TaskParams → AddParams → Text → ℤ → Task Rate
    new_task params atp info_hash now = record (no_task doubles.nought) {
      client_id = params.client_id;
      is_remote = true;
      task_protocol = Protocol.torrent;
      task_id = info_hash;
      info_hash = info_hash;
      save_path = params.save_path;
      magnet_link = params.magnet_link;
      torrent_file = params.torrent_file;
      select_file_indexes = params.file_indexes;
      priority_file_indexes = map (λ p. (p.0, pos 4)) params.file_priorities;
      priority = params.queue_priority;
      force = params.force;
      status = TaskStatus.resolving;
      created_at = now;
      modified_at = now;
    }

    -- The task that a failed call leaves.
    abbrev failed_add : Text → ℤ → Task Rate → Task Rate
    failed_add what now t = record t {
      status = TaskStatus.error;
      message = what;
      modified_at = now;
      dirty = true;
    }

    abbrev tracked : Text → List (Task Rate) → Option Text × S → SubmitResult × Engine S Rate
    tracked key tasks (some what, s) = (
      failure [],
      with_task lib key (failed_add what (lib.now_unix_ms s))
          (record { session = s; tasks = tasks }),
    )
    tracked key tasks (none, s) = (success, record { session = s; tasks = tasks })

    abbrev with_handle : Text → List (Task Rate) → Option H × S → SubmitResult × Engine S Rate
    with_handle key tasks (none, s) = (failure [], record { session = s; tasks = tasks })
    with_handle key tasks (some h, s) =
        tracked key tasks (act_all lib (map (add_tracker h) lib.default_trackers) s)

    -- The task is stored and taken over by the manager, and its handle is made.
    abbrev registered : Text → Engine S Rate → Bool × S → SubmitResult × Engine S Rate
    registered key e (false, s) = (failure [], record e { session = s })
    registered key e (true, s) =
        let held = (get_task lib key (record e { session = s })).1 in
        with_handle key held.tasks
          (find_handle lib key true (lib.act post_torrent_updates held.session).1)

    abbrev is_leaving : Option (Task Rate) → Bool
    is_leaving none = false
    is_leaving (some t) = t.is_delete && (not t.need_delete_session || not t.need_delete_file)

    abbrev is_staying : Option (Task Rate) → Bool
    is_staying none = false
    is_staying (some t) = not t.is_delete

    abbrev is_handle : Option H → Bool
    is_handle none = false
    is_handle (some h) = true

    -- By the task that is there already.
    abbrev add_to :
        Text
        → TaskParams
        → AddParams
        → Option (Task Rate) × Engine S Rate
        → SubmitResult × Engine S Rate
    add_to key params atp (existing, e) =
        if is_leaving existing
        then (failure (utf8 "BT 任务正在删除"), e)
        else if is_staying existing && is_handle (find_handle lib key false e.session).0
        then (success, e)
        else registered key e
            (lib.replace_task (new_task params atp key (lib.now_unix_ms e.session)) e.session)

    abbrev add_source : TaskParams → Option AddParams → Engine S Rate → SubmitResult × Engine S Rate
    add_source params none e = (failure [], e)
    add_source params (some atp) e =
        let key = hash_hex (hashes_of atp) in
        if is_empty key then (failure [], e) else add_to key params atp (get_task lib key e)

    unfoldable pub add_task : TaskParams → Engine S Rate → SubmitResult × Engine S Rate
    unfolding source_of new_task get_task find_handle act_all with_task hash_hex
    add_task params e =
        if lib.is_running e.session
        then add_source params (source_of params e.session) e
        else (failure [], e)

    -- A result with the hash and the files of what was parsed.
    pub record Parsed : Type 0 where
      pub result : SubmitResult
      pub info_hash : Text
      pub files : List (TaskFile Rate)

    abbrev pub unparsed : Parsed
    unparsed = record { result = failure []; info_hash = []; files = [] }

    abbrev hashed : Text → List (TaskFile Rate) → Parsed
    hashed hash files =
        if is_empty hash
        then unparsed
        else record { result = success; info_hash = hash; files = files }

    abbrev parsed_link : Option AddParams → Parsed
    parsed_link none = unparsed
    parsed_link (some atp) = hashed (hash_hex atp.info_hashes) []

    unfoldable pub parse_magnet : Text → Parsed
    unfolding hash_hex
    parse_magnet link = if is_empty link then unparsed else parsed_link (lib.parse_magnet_uri link)

    abbrev parsed_metadata : Option (InfoHashes × TorrentInfo) → Parsed
    parsed_metadata none = unparsed
    parsed_metadata (some (hashes, info)) =
        hashed (hash_hex hashes) (shown_files doubles (hash_hex hashes) info info.num_files 0)

    -- `parse_torrent_file`; `load` reads the hashes and the files of a torrent file.
    unfoldable pub parse_torrent_file : (Text → Option (InfoHashes × TorrentInfo)) → Text → Parsed
    unfolding hash_hex shown_files
    parse_torrent_file load path = if is_empty path then unparsed else parsed_metadata (load path)
