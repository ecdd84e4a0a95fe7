-- ===== src/Manager/Tests.antt =====
-- The theorems of the task manager at concrete inputs.
use download_wrapper.Base.{
  ℕ, suc, ◌≤◌, ◌≡◌, refl, true, false, some, List, [], ◌∷◌, arith, get_elem?, max, ltb,
}
use download_wrapper.Base.Int.{ℤ, minus_one, pos}
use download_wrapper.Api.{Protocol, TaskStatus, Reason}
use download_wrapper.Text.{Text, codes}
use download_wrapper.Manager.Task.{Task, success}
use download_wrapper.Manager.Scheduler.{
  Engines, SchedulerConfig, pick, is_waiting, active_count, admit,
}
use download_wrapper.Manager.Control.{Config, maintain, upkept, saves}
use download_wrapper.Manager.Scheduler.Choice.{Leads, pick-Leads}
use download_wrapper.Manager.Scheduler.Admission.{admit-limit}

-- Engines that accept every call; their state counts the calls.
abbrev willing : Engines ℕ ℕ
willing = record {
  has_http = true;
  has_torrent = true;
  pause_task = λ p n. (success, suc n);
  do_resume = λ p n. (success, suc n);
  now_unix_ms = λ n. (pos n, n);
  running = λ n. (true, n);
  zero_rate = 0;
  slower = ltb;
}

abbrev two_at_once : SchedulerConfig
two_at_once = record { client_id = codes "c"; max_concurrent_downloads = pos 2; net_allowed = true }

abbrev a_task : Text → TaskStatus → ℤ → ℤ → Task ℕ
a_task id status priority created_at = record {
  task_id = id;
  client_id = [];
  is_remote = false;
  name = [];
  wrapper_name = [];
  save_path = codes "/d";
  full_path = [];
  url = codes "http://a/b";
  info_hash = [];
  magnet_link = [];
  torrent_file = [];
  task_protocol = Protocol.http;
  status = status;
  total_size = minus_one;
  total_done = pos 0;
  priority = priority;
  reason = Reason.success;
  message = [];
  created_at = created_at;
  modified_at = created_at;
  is_delete = false;
  is_read = false;
  files = [];
  select_file_indexes = [];
  priority_file_indexes = [];
  force = false;
  dirty = false;
  need_delete_session = false;
  need_delete_file = false;
  download_rate = 9;
  upload_rate = 0;
}

abbrev waiting : Task ℕ
waiting = a_task (codes "w") TaskStatus.queued (pos 1) (pos 20)

abbrev urgent : Task ℕ
urgent = a_task (codes "u") TaskStatus.queued (pos 5) (pos 30)

abbrev finished : Task ℕ
finished = a_task (codes "f") TaskStatus.completed (pos 9) (pos 10)

abbrev some_tasks : List (Task ℕ)
some_tasks = waiting ∷ finished ∷ urgent ∷ []

pick-Leads_example :
    (get_elem? some_tasks 2 ≡ some urgent)
    × (is_waiting willing two_at_once urgent ≡ true)
    × Leads urgent waiting
unfolding pick
pick-Leads_example = pick-Leads willing two_at_once some_tasks 2 urgent refl 0 waiting refl refl

admit-limit_example :
    (r : List (Task ℕ) × ℕ) × (admit willing two_at_once 9 some_tasks 0 ≡ some r)
    × (active_count willing two_at_once r.0 ≤ max (active_count willing two_at_once some_tasks) 2)
admit-limit_example = admit-limit willing two_at_once 9 some_tasks 0 (omega arith)

abbrev changed : Task ℕ
changed = record waiting { dirty = true }

-- A turn of the maintenance loop reports the dirty task alone, and cleans it.
only_dirty : (maintain (changed ∷ finished ∷ [])).dirty_records ≡ changed ∷ []
unfolding maintain upkept saves
only_dirty = refl

all_clean : (maintain (changed ∷ finished ∷ [])).tasks ≡ waiting ∷ finished ∷ []
unfolding maintain upkept saves
all_clean = refl

abbrev unset_config : Config
unset_config = record {
  client_id = [];
  save_path = codes "/d";
  max_concurrent_downloads = pos 3;
  network_type = pos 1;
  allow_mobile_data = false;
}
