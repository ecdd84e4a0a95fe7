-- ===== src/Torrent/Alert/Tests.antt =====
-- The theorems on alerts at concrete inputs.
use download_wrapper.Base.{ℕ, suc, ◌+◌, length, ◌≤◌, true, false, none, some, [], ◌∷◌, ltb, ◌==◌}
use download_wrapper.Base.Int.{pos}
use download_wrapper.Api.{Protocol, TaskStatus, Reason}
use download_wrapper.Text.{codes}
use download_wrapper.Manager.Task.{Task, success}
use download_wrapper.Manager.Scheduler.{Engines, SchedulerConfig, active_count}
use download_wrapper.UniqueName.{FileSystem, Kind}
use download_wrapper.Torrent.Files.{Doubles, TorrentInfo}
use download_wrapper.Torrent.Session.{Session}
use download_wrapper.Torrent.Control.{Engine}
use download_wrapper.Torrent.Alert.{Torrents, Alert, handle_alert}
use download_wrapper.Torrent.Alert.Slots.{active_count-handle_alert}

-- A session whose only torrent is "ab"; its state counts the calls.
abbrev a_session : Session ℕ ℕ ℕ
a_session = record {
  is_running = λ s. true;
  get_torrents = λ s. 1 ∷ [];
  is_valid = λ h s. true;
  info_hashes = λ h s. some (record { v1 = some (codes "ab"); v2 = none });
  find_v1 = λ key s. none;
  find_v2 = λ key s. none;
  add_torrent = λ atp s. (none, suc s);
  act = λ c s. (none, suc s);
  num_files = λ h s. some 1;
  is_seeding = λ h s. false;
  total_done = λ h s. pos 0;
  all_time_upload = λ h s. pos 0;
  from_hex = λ t. some t;
  read_resume_data = λ payload. none;
  parse_magnet_uri = λ link. none;
  load_torrent_file = λ path s. none;
  stored_resume = λ key s. none;
  stored_task = λ key s. none;
  any_stored_task = λ key s. none;
  replace_task = λ t s. (true, suc s);
  now_unix_ms = λ s. pos s;
  default_trackers = [];
}

abbrev one_file : TorrentInfo
one_file = record {
  num_files = 1;
  pad_file_at = λ i. false;
  file_path = λ i. codes "d/a.mp4";
  file_size = λ i. 25;
  file_offset = λ i. 0;
  piece_length = 10;
  last_piece = pos 2;
  map_block = λ p. 0 ∷ [];
}

abbrev some_torrents : Torrents ℕ ℕ ℕ
some_torrents = record {
  metadata = λ h s. some one_file;
  snapshot = λ h s. record {
    save_path = codes "/s";
    priorities = pos 4 ∷ [];
    progress = pos 10 ∷ [];
    pieces = λ p. p == 0;
  };
  make_magnet_uri = λ params. codes "magnet:";
  resume_data = λ h s. some (codes "r");
  save_files = λ files s. suc s;
  save_resume = λ key payload s. suc s;
}

abbrev empty_disk : FileSystem ℕ
empty_disk = record {
  exists = λ p f. false;
  create_directories = λ p f. (none, f);
  open_append = λ p f. (true, f);
  symlink_status = λ p f. Kind.unknown;
  remove = λ p f. (false, f);
  now = λ f. f;
}

abbrev whole_rates : Doubles ℕ
whole_rates = record { nought = 0; one = 1; ratio = λ a b. 0; has_moved = λ a b. true }

abbrev paused_torrent : Task ℕ
paused_torrent = record {
  task_id = codes "ab";
  client_id = [];
  is_remote = true;
  name = codes "a";
  wrapper_name = codes "a(1)";
  save_path = codes "/s";
  full_path = [];
  url = [];
  info_hash = codes "ab";
  magnet_link = [];
  torrent_file = [];
  task_protocol = Protocol.torrent;
  status = TaskStatus.paused;
  total_size = pos 25;
  total_done = pos 0;
  priority = pos 0;
  reason = Reason.success;
  message = [];
  created_at = pos 1;
  modified_at = pos 1;
  is_delete = false;
  is_read = false;
  files = [];
  select_file_indexes = [];
  priority_file_indexes = [];
  force = false;
  dirty = false;
  need_delete_session = false;
  need_delete_file = false;
  download_rate = 0;
  upload_rate = 0;
}

abbrev nothing_held : Engine ℕ ℕ
nothing_held = record { session = 0; tasks = [] }

abbrev idle_engines : Engines ℕ ℕ
idle_engines = record {
  has_http = true;
  has_torrent = true;
  pause_task = λ p n. (success, suc n);
  do_resume = λ p n. (success, suc n);
  now_unix_ms = λ n. (pos n, n);
  running = λ n. (true, n);
  zero_rate = 0;
  slower = ltb;
}

abbrev a_config : SchedulerConfig
a_config = record { client_id = codes "c"; max_concurrent_downloads = pos 2; net_allowed = true }

-- After a start the manager holds nothing; the store has the torrent as it was added.
abbrev stored_session : Session ℕ ℕ ℕ
stored_session = record a_session {
  stored_task = λ key s. some (record paused_torrent { status = TaskStatus.resolving });
}

active_count-handle_alert_example :
    active_count idle_engines a_config
        (handle_alert stored_session some_torrents empty_disk whole_rates
          (Alert.metadata_received 1)
          nothing_held).tasks
      + 0
    ≤ active_count idle_engines a_config nothing_held.tasks
      + length
          (handle_alert stored_session some_torrents empty_disk whole_rates
            (Alert.metadata_received 1)
            nothing_held).tasks
active_count-handle_alert_example =
    active_count-handle_alert idle_engines a_config stored_session some_torrents empty_disk
      whole_rates (Alert.metadata_received 1) nothing_held
