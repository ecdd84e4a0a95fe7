-- ===== src/Http/Result.antt =====
-- `handle_part_result` of src/http/http_engine_impl.cpp: what one finished request means for its
-- part. The result says whether the part is requested again.
pub mod Progress
use Prim.Native.String.{String}
use download_wrapper.Base.{ℕ, Bool, true, false, ◌&&◌, not, if◌then◌else◌}
use download_wrapper.Base.Int.{ℤ, pos, ◌+ℤ◌, leb_ℤ, ltb_ℤ, eqb_ℤ}
use download_wrapper.Api.{TaskStatus, Reason, is_error}
use download_wrapper.Http.Part.{Part}
use download_wrapper.Http.Task.{PartCtx, TaskCtx, part_at, set_part, set_part_ctx, or_message}
use download_wrapper.Http.Failure.{CurlCode, classify_failure, is_ok}

abbrev pub is_2xx : ℤ → Bool
is_2xx code = leb_ℤ (pos 200) code && ltb_ℤ code (pos 300)

-- The message for a part that failed for good.
unfoldable pub failure_message : Reason → String
failure_message Reason.auth = "认证失败"
failure_message Reason.general = "资源不存在或已失效"
failure_message Reason.retry = "下载失败，将自动重试"
failure_message Reason.network = "网络连接异常"
failure_message _ = "下载过程中出现异常"

abbrev pub completed_part : Part → Part
completed_part p = record p { status = TaskStatus.completed; reason = Reason.success }

abbrev pub error_part : Part → Reason → Part
error_part p r = record p { status = TaskStatus.error; reason = r }

-- `retry_count++`
abbrev pub count_retry : TaskCtx → PartCtx → TaskCtx
count_retry t c = set_part_ctx t c.index (record c { retry_count = c.retry_count +ℤ pos 1 })

-- The length of the part becomes known: the connection ended and no total was announced.
abbrev pub finish_unsized : TaskCtx → ℕ → Part → TaskCtx
finish_unsized t i p =
    let t' = set_part t i (record (completed_part p) { size = p.done }) in
    record t' { total_size = if leb_ℤ t.total_size (pos 0) then p.done else t.total_size }

-- A response 2xx that ended before the part was full.
unfoldable pub cut_short : ℤ → TaskCtx → PartCtx → Part → TaskCtx × Bool
cut_short max_retries t c p =
    if leb_ℤ max_retries c.retry_count
    then (set_part t c.index (error_part p Reason.network), false)
    else (count_retry t c, true)

-- Any other end.
unfoldable pub broken : ℤ → TaskCtx → PartCtx → Part → Reason × Bool → TaskCtx × Bool
broken max_retries t c p (reason, retryable) =
    if retryable && ltb_ℤ c.retry_count max_retries then (count_retry t c, true) else (
      record (set_part t c.index (error_part p reason)) {
        message = or_message t.message (failure_message reason);
      },
      false,
    )

-- The part is not full, and the probe window is not what ended.
unfoldable pub unfinished : ℤ → TaskCtx → PartCtx → Part → CurlCode → ℤ → TaskCtx × Bool
unfinished max_retries t c p rc http_code =
    if is_ok rc && is_2xx http_code && leb_ℤ p.size (pos 0)
    then (finish_unsized t c.index p, false)
    else if is_ok rc && is_2xx http_code
    then cut_short max_retries t c p
    else broken max_retries t c p (classify_failure rc http_code)

-- The part context is the one at its own index.
unfoldable pub handle_part_result : ℤ → TaskCtx → PartCtx → CurlCode → ℤ → TaskCtx × Bool
handle_part_result max_retries t c rc http_code =
    let p = part_at t c.index in
    if is_error p.status
    then (t, false)
    else if ltb_ℤ (pos 0) p.size && leb_ℤ p.size p.done
    then (set_part t c.index (completed_part p), false)
    else if c.probe_window && is_ok rc && eqb_ℤ http_code (pos 206) && ltb_ℤ (pos 0) p.done
    then (set_part_ctx t c.index (record c { probe_window = false }), true)
    else unfinished max_retries t c p rc http_code
