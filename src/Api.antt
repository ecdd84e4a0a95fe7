-- ===== src/Api.antt =====
-- The enumerations of include/download_wrapper/download_wrapper.h.
use download_wrapper.Base.{Bool, true, false}

-- `dw_protocol_t`
pub data Protocol : Type 0 where
  http torrent local : Protocol

-- `dw_task_status_t`
pub data TaskStatus : Type 0 where
  downloading paused completed error queued resolving invalidated deleting fail : TaskStatus

-- `dw_reason_t`; `success` is DW_REASON_NONE.
pub data Reason : Type 0 where
  success internal network invalid_input auth general retry : Reason

-- Equality tests of the enumerations, where the code writes `==`.
abbrev pub is_downloading : TaskStatus → Bool
is_downloading TaskStatus.downloading = true
is_downloading _ = false

abbrev pub is_completed : TaskStatus → Bool
is_completed TaskStatus.completed = true
is_completed _ = false

abbrev pub is_error : TaskStatus → Bool
is_error TaskStatus.error = true
is_error _ = false

abbrev pub is_queued : TaskStatus → Bool
is_queued TaskStatus.queued = true
is_queued _ = false

abbrev pub is_resolving : TaskStatus → Bool
is_resolving TaskStatus.resolving = true
is_resolving _ = false

abbrev pub is_deleting : TaskStatus → Bool
is_deleting TaskStatus.deleting = true
is_deleting _ = false

abbrev pub is_general : Reason → Bool
is_general Reason.general = true
is_general _ = false

abbrev pub is_success : Reason → Bool
is_success Reason.success = true
is_success _ = false

abbrev pub is_retry : Reason → Bool
is_retry Reason.retry = true
is_retry _ = false

abbrev pub is_http : Protocol → Bool
is_http Protocol.http = true
is_http _ = false

abbrev pub is_torrent : Protocol → Bool
is_torrent Protocol.torrent = true
is_torrent _ = false
