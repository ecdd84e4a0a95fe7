-- ===== src/Http/Aggregate.antt =====
-- `aggregate_status` of src/http/http_engine_impl.cpp: the state of a task from its parts.
pub mod Verdict
use download_wrapper.Base.{
  ℕ, Bool, true, false, ◌&&◌, List, [], ◌∷◌, Option, none, some, if◌then◌else◌, ltb,
}
use download_wrapper.Base.Int.{ℤ, pos, minus_one, ltb_ℤ}
use download_wrapper.Api.{TaskStatus, Reason, is_error, is_general}
use download_wrapper.Http.Part.{Part}
use download_wrapper.Http.Task.{TaskCtx}

-- The variables of the loop.
pub record Tally : Type 0 where
  pub has_downloading : Bool
  pub has_error : Bool
  pub all_completed : Bool
  pub best : Reason
  pub best_rank : ℤ

abbrev pub rank : Reason → ℤ
rank Reason.auth = pos 4
rank Reason.general = pos 3
rank Reason.retry = pos 2
rank Reason.network = pos 1
rank _ = pos 0

abbrev pub first_tally : Tally
first_tally = record {
  has_downloading = false;
  has_error = false;
  all_completed = true;
  best = Reason.success;
  best_rank = minus_one;
}

abbrev better : Tally → Reason → Tally
better s r = if ltb_ℤ s.best_rank (rank r) then record s { best = r; best_rank = rank r } else s

-- One round of the loop.
unfoldable pub tally_part : TaskStatus → Reason → Tally → Tally
tally_part TaskStatus.downloading r s = record s { has_downloading = true; all_completed = false }
tally_part TaskStatus.error r s = better (record s { has_error = true; all_completed = false }) r
tally_part TaskStatus.completed r s = s
tally_part _ r s = record s { all_completed = false }

unfoldable pub tally : Tally → List Part → Tally
tally s [] = s
tally s (p ∷ ps) = tally (tally_part p.status p.reason s) ps

-- What the tally says of the task.
unfoldable pub verdict : Tally → TaskCtx → TaskCtx
verdict s t =
    if s.has_downloading
    then record t { status = TaskStatus.downloading; reason = Reason.success }
    else if s.all_completed
    then record t { status = TaskStatus.completed; reason = Reason.success }
    else if s.has_error
    then record t { status = TaskStatus.error; reason = s.best }
    else t

unfoldable pub aggregate_status : TaskCtx → TaskCtx
aggregate_status t =
    if is_error t.status && is_general t.reason then t else verdict (tally first_tally t.parts) t
