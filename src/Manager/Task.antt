-- ===== src/Manager/Task.antt =====
-- `Task` of src/core/task.h, `TaskParams` of src/internal/task_params.h and `dw_submit_result_t` of
-- src/internal/submit_result.h: the fields that the manager reads or writes. A transfer rate is a
-- floating-point number; its type is a parameter.
use download_wrapper.Base.{Bool, true, false, ◌||◌, List, []}
use download_wrapper.Base.Int.{ℤ, pos, minus_one}
use download_wrapper.Api.{Protocol, TaskStatus, Reason, is_downloading, is_resolving}
use download_wrapper.Text.{Text}
use download_wrapper.Manager.TaskFile.{TaskFile}

pub record Task (Rate : Type 0) : Type 0 where
  pub task_id : Text
  pub client_id : Text
  pub is_remote : Bool
  pub name : Text
  pub wrapper_name : Text
  pub save_path : Text
  pub full_path : Text
  pub url : Text
  pub info_hash : Text
  pub magnet_link : Text
  pub torrent_file : Text
  pub task_protocol : Protocol
  pub status : TaskStatus
  pub total_size : ℤ
  pub total_done : ℤ
  pub priority : ℤ
  pub reason : Reason
  pub message : Text
  pub created_at : ℤ
  pub modified_at : ℤ
  pub is_delete : Bool
  pub is_read : Bool
  pub files : List (TaskFile Rate)
  pub select_file_indexes : List ℤ
  pub priority_file_indexes : List (ℤ × ℤ)
  pub force : Bool
  pub dirty : Bool
  pub need_delete_session : Bool
  pub need_delete_file : Bool
  pub download_rate : Rate
  pub upload_rate : Rate

-- `Task{}`; the argument is the number 0.0.
abbrev pub no_task : {Rate : Type 0} → Rate → Task Rate
no_task zero = record {
  task_id = [];
  client_id = [];
  is_remote = false;
  name = [];
  wrapper_name = [];
  save_path = [];
  full_path = [];
  url = [];
  info_hash = [];
  magnet_link = [];
  torrent_file = [];
  task_protocol = Protocol.local;
  status = TaskStatus.downloading;
  total_size = minus_one;
  total_done = pos 0;
  priority = pos 0;
  reason = Reason.success;
  message = [];
  created_at = pos 0;
  modified_at = pos 0;
  is_delete = false;
  is_read = false;
  files = [];
  select_file_indexes = [];
  priority_file_indexes = [];
  force = false;
  dirty = false;
  need_delete_session = false;
  need_delete_file = false;
  download_rate = zero;
  upload_rate = zero;
}

pub record TaskParams : Type 0 where
  pub client_id : Text
  pub protocol : Protocol
  pub natural_key : Text
  pub save_path : Text
  pub url : Text
  pub info_hash : Text
  pub magnet_link : Text
  pub torrent_file : Text
  pub file_indexes : List ℤ
  pub file_priorities : List (ℤ × ℤ)
  pub queue_priority : ℤ
  pub force : Bool
  pub delete_files : Bool
  pub resume_data : Text

abbrev pub no_params : TaskParams
no_params = record {
  client_id = [];
  protocol = Protocol.http;
  natural_key = [];
  save_path = [];
  url = [];
  info_hash = [];
  magnet_link = [];
  torrent_file = [];
  file_indexes = [];
  file_priorities = [];
  queue_priority = pos 0;
  force = false;
  delete_files = false;
  resume_data = [];
}

-- The code and the message of a result.
pub record SubmitResult : Type 0 where
  pub code : Reason
  pub message : Text

-- `success()`, and `failure()` with its default arguments
abbrev pub success : SubmitResult
success = record { code = Reason.success; message = [] }

abbrev pub failure : Text → SubmitResult
failure message = record { code = Reason.general; message = message }

-- `is_download_task`, by the protocol
abbrev pub is_download : Protocol → Bool
is_download Protocol.http = true
is_download Protocol.torrent = true
is_download Protocol.local = false

-- `status_occupies_slot`
abbrev pub status_occupies_slot : TaskStatus → Bool
status_occupies_slot s = is_downloading s || is_resolving s
