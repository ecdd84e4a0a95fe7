-- ===== src/Http/Transfer/Thread.antt =====
-- `task_thread_func` of src/http/http_engine_impl.cpp: the loop of a transfer, then the verdict on its
-- parts.

use download_wrapper.Base.{ℕ, Bool, true, false, ◌&&◌, not, List, if◌then◌else◌}
use download_wrapper.Base.Int.{ℤ}
use download_wrapper.Api.{TaskStatus, Reason, is_completed}
use download_wrapper.Text.{Text}
use download_wrapper.Http.Task.{TaskCtx, or_message}
use download_wrapper.Http.Write.{Disk}
use download_wrapper.Http.Probe.{Storage, SplitConfig}
use download_wrapper.Http.Resume.{maybe_emit_resume}
use download_wrapper.Http.Aggregate.{aggregate_status}
use download_wrapper.Http.Transfer.{Flags, Turn, noticed, run_parts_multi}

-- `run_parts_multi`, where it fails.
unfoldable pub without_multi : TaskCtx → TaskCtx
without_multi t = record t {
  status = TaskStatus.error;
  reason = Reason.general;
  message = or_message t.message "下载过程中出现异常";
}

-- The end of the thread: `DoneGuard`.
abbrev pub thread_ended : ℤ → TaskCtx → TaskCtx
thread_ended now t = record t { finished_at_ms = now; thread_done = true }

-- What follows on the loop: the verdict on the parts, whether resume data is written, and the pause.
unfoldable pub concluded : Flags → TaskCtx → TaskCtx × Bool
unfolding aggregate_status maybe_emit_resume
concluded flags t =
    let t' = aggregate_status (noticed flags t) in
    let (kept, written) = maybe_emit_resume t' in
    if is_completed t'.status
    then (
      if not flags.cancel && flags.pause then record t' { status = TaskStatus.paused } else t',
      true,
    )
    else if not flags.cancel && flags.pause
    then (record kept { status = TaskStatus.paused }, written)
    else (t', false)

module _ (fs : Storage) (cfg : SplitConfig) (by_url : Text) (max_retries : ℤ) where
  -- `task_thread_func`: the flags at its start and at its end, whether `curl_multi_init` succeeds, and
  -- the clock. The second part of the result says whether resume data is written.
  unfoldable pub task_thread_func :
      Flags → Flags → Bool → ℤ → (ℕ → Bool) → List Turn → TaskCtx → Disk → TaskCtx × Bool
  unfolding run_parts_multi without_multi concluded maybe_emit_resume
  task_thread_func first last multi_ok now builds turns t disk =
      let ran =
        (run_parts_multi fs cfg by_url max_retries builds turns (noticed first t) disk).0.task in
      let (t', written) =
        concluded last (if multi_ok then ran else without_multi (noticed first t)) in
      let (paused, saved) =
        maybe_emit_resume (record (noticed first t) { status = TaskStatus.paused }) in
      if first.cancel
      then (thread_ended now (noticed first t), false)
      else if first.pause
      then (thread_ended now paused, saved)
      else (thread_ended now t', written)
