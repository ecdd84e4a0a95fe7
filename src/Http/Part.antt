-- ===== src/Http/Part.antt =====
-- `dw_part_state_t` of src/http/http_engine_internal.h. The two floating-point fields `progress`
-- and `download_rate`, which are only reported, are left out.
use download_wrapper.Base.{ℕ}
use download_wrapper.Base.Int.{ℤ, pos}
use download_wrapper.Api.{TaskStatus, Reason}

pub record Part : Type 0 where
  pub index : ℕ
  pub start : ℤ
  pub end : ℤ
  pub size : ℤ
  pub done : ℤ
  pub status : TaskStatus
  pub reason : Reason

-- What `dw_part_state_t part{}` holds; status 0 is DOWNLOADING, reason 0 is NONE.
abbrev pub zero_part : Part
zero_part = record {
  index = 0;
  start = pos 0;
  end = pos 0;
  size = pos 0;
  done = pos 0;
  status = TaskStatus.downloading;
  reason = Reason.success;
}
