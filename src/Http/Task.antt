-- ===== src/Http/Task.antt =====
-- `dl_task_ctx` and `dl_part_ctx` of src/http/http_engine_internal.h, without the handles of
-- libcurl and of the file system and without the speed samples. The flags that the source keeps as
-- `int` 0 or 1 are Booleans.
use Prim.Native.String.{String}
use download_wrapper.Base.{ℕ, Bool, true, false, List, [], ◌∷◌, get_or, set}
use download_wrapper.Base.Int.{ℤ, pos, minus_one}
use download_wrapper.Api.{TaskStatus, Reason}
use download_wrapper.Text.{Text}
use download_wrapper.Http.Part.{Part, zero_part}

pub record PartCtx : Type 0 where
  pub index : ℕ
  pub retry_count : ℤ
  pub probe_window : Bool
  pub seen_total_size : ℤ
  pub seen_etag : Text
  pub seen_last_modified : Text
  pub seen_http_code : ℤ

pub record TaskCtx : Type 0 where
  pub url : Text
  pub client_id : Text
  pub output_path : Text
  pub filename : Text
  pub full_file_path : Text
  pub total_size : ℤ
  pub status : TaskStatus
  pub support_range : Bool
  pub etag : Text
  pub last_modified : Text
  pub reason : Reason
  pub message : String
  pub parts : List Part
  pub part_ctx : List PartCtx
  pub pause_req : Bool
  pub cancel_req : Bool
  pub delete_req : Bool
  pub thread_done : Bool
  pub finished_at_ms : ℤ
  pub probing : Bool
  pub is_resume : Bool
  pub last_emit_done : ℤ

-- `dl_part_ctx ctx{}` with its index
abbrev pub new_part_ctx : ℕ → PartCtx
new_part_ctx i = record {
  index = i;
  retry_count = pos 0;
  probe_window = false;
  seen_total_size = pos 0;
  seen_etag = [];
  seen_last_modified = [];
  seen_http_code = pos 0;
}

-- `task_create_new`: one part of unknown length, still probing.
unfoldable pub task_create_new : Text → Text → Text → TaskCtx
task_create_new url client_id output_path = record {
  url = url;
  client_id = client_id;
  output_path = output_path;
  filename = [];
  full_file_path = [];
  total_size = minus_one;
  status = TaskStatus.downloading;
  support_range = false;
  etag = [];
  last_modified = [];
  reason = Reason.success;
  message = "";
  parts = record zero_part { end = minus_one } ∷ [];
  part_ctx = new_part_ctx 0 ∷ [];
  pause_req = false;
  cancel_req = false;
  delete_req = false;
  thread_done = false;
  finished_at_ms = pos 0;
  probing = true;
  is_resume = false;
  last_emit_done = minus_one;
}

-- `tCtx->parts[i]`
abbrev pub part_at : TaskCtx → ℕ → Part
part_at t i = get_or t.parts i zero_part

abbrev pub set_part : TaskCtx → ℕ → Part → TaskCtx
set_part t i p = record t { parts = set t.parts i p }

abbrev pub set_part_ctx : TaskCtx → ℕ → PartCtx → TaskCtx
set_part_ctx t i c = record t { part_ctx = set t.part_ctx i c }

-- `message.empty()`, and the message where none is set yet
abbrev pub or_message : String → String → String
or_message String.[] m = m
or_message (String.◌∷◌ c s) m = String.◌∷◌ c s

-- `tCtx->status`, `reason` and `message` of an error that is not retried
abbrev pub failed : TaskCtx → String → TaskCtx
failed t m = record t { status = TaskStatus.error; reason = Reason.general; message = m }
