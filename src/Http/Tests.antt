-- ===== src/Http/Tests.antt =====
-- The theorems of the HTTP engine at concrete inputs, and runs of its functions.
use download_wrapper.Base.{
  ℕ, ◌<◌, ◌≡◌, refl, ◌↔◌, Option, some, true, false, [], ◌∷◌, All, arith, map,
}
use download_wrapper.Base.Int.{ℤ, pos, ◌≤ℤ◌, ◌+ℤ◌, ◌-ℤ◌, ◌*ℤ◌, ◌/ℤ◌}
use download_wrapper.Api.{TaskStatus, Reason}
use download_wrapper.Text.{Text, codes}
use download_wrapper.Http.Part.{Part, zero_part}
use download_wrapper.Http.Task.{PartCtx, TaskCtx, task_create_new, new_part_ctx, part_at}
use download_wrapper.Http.Failure.{CurlCode, classify_failure, classify_http}
use download_wrapper.Http.Split.{
  split, wanted_parts, first_size, adjusted_parts, first_part, next_part, next_parts, laid_out,
}
use download_wrapper.Http.Split.Tiling.{Tiles, split-Tiles}
use download_wrapper.Http.Write.{WriteAnswer, write_length, write_part, stored, received, write_cb}
use download_wrapper.Http.Write.Content.{Took, write_cb-Stored}
use download_wrapper.Http.Result.{handle_part_result, unfinished, broken}
use download_wrapper.Http.Result.Progress.{
  budget, ctx_at, IsFinal, handle_part_result-budget, handle_part_result-IsFinal,
}
use download_wrapper.Http.Aggregate.{aggregate_status, tally, tally_part, verdict, rank}
use download_wrapper.Http.Aggregate.Verdict.{
  IsCompleted, aggregate_status-completed, aggregate_status-reason,
}
use download_wrapper.Http.Header.{header_cb}
use download_wrapper.Http.Header.Identity.{Stays, header_cb-Stays}
use download_wrapper.Http.Request.{range_hdr}
use download_wrapper.Http.Request.Missing.{range_hdr-parse_range}
use download_wrapper.Playback.Request.{parse_range}
use download_wrapper.Http.Resume.{Dict, resume_entry, serialize_resume, deserialize_resume}
use download_wrapper.Http.Resume.Restore.{IsPlain, Restores, deserialize-serialize}

-- Ten megabytes in four parts.
split_four :
    map (λ (p : Part). p.start) (split (pos 1048576) (pos 4) (pos 10000000))
    ≡ pos 0 ∷ pos 2500000 ∷ pos 5000000 ∷ pos 7500000 ∷ []
unfolding split wanted_parts first_size adjusted_parts laid_out first_part next_parts next_part ◌+ℤ◌
    ◌-ℤ◌ ◌*ℤ◌ ◌/ℤ◌
split_four = refl

split-Tiles_example : Tiles 0 (split (pos 1048576) (pos 4) (pos 10000000)) 10000000
split-Tiles_example = split-Tiles (pos 1048576) (pos 4) 10000000 (omega arith)

-- A part of ten bytes, of which two have arrived.
abbrev half_part : Part
half_part = record zero_part { end = pos 9; size = pos 10; done = pos 2 }

abbrev half_ctx : PartCtx
half_ctx = record (new_part_ctx 0) { probe_window = true }

abbrev half_task : TaskCtx
half_task = record (task_create_new (codes "http://a/b") [] (codes "/d")) {
  parts = half_part ∷ [];
  part_ctx = half_ctx ∷ [];
  total_size = pos 10;
  probing = false;
}

abbrev sevens : ℤ → ℕ
sevens k = 7

abbrev ready : WriteAnswer
ready = record { file_exists = true; errno = 0; landed = 0 }

write_three : (write_cb (λ t. t) ready half_task 0 sevens (7 ∷ 7 ∷ 7 ∷ [])).0 ≡ 3
unfolding write_cb received write_part write_length stored task_create_new ◌-ℤ◌
write_three = refl

write_cb-Stored_example :
    Took sevens half_task 0 sevens
      (7 ∷ 7 ∷ 7 ∷ [])
      (write_cb (λ t. t) ready half_task 0 sevens (7 ∷ 7 ∷ 7 ∷ []))
unfolding task_create_new
write_cb-Stored_example =
    write_cb-Stored sevens half_task 0 sevens (7 ∷ 7 ∷ 7 ∷ []) (omega arith) (λ k lo hi. refl)
      (omega arith) (refl, (refl, (refl, tt))) (λ t. t) ready refl

-- A probe window that ends after two bytes is gone on with.
handle_part_result-budget_example :
    budget
      (pos 3)
      (ctx_at (handle_part_result (pos 3) half_task half_ctx CurlCode.ok (pos 206)).0 0)
    < budget (pos 3) half_ctx
unfolding task_create_new handle_part_result
handle_part_result-budget_example =
    handle_part_result-budget (pos 3) half_task half_ctx (omega arith) CurlCode.ok (pos 206) refl

-- A missing file is not asked for again.
handle_part_result-IsFinal_example : IsFinal (
    part_at
      (handle_part_result (pos 3) half_task half_ctx CurlCode.http_returned_error (pos 404)).0
      0)
unfolding task_create_new handle_part_result unfinished broken classify_failure classify_http
handle_part_result-IsFinal_example =
    handle_part_result-IsFinal (pos 3) half_task half_ctx (omega arith) CurlCode.http_returned_error
      (pos 404) refl

aggregate_status-completed_example :
    ((aggregate_status half_task).status ≡ TaskStatus.completed) ↔ All IsCompleted half_task.parts
unfolding task_create_new
aggregate_status-completed_example = aggregate_status-completed half_task refl

abbrev refused_task : TaskCtx
refused_task = record half_task {
  parts =
      record half_part { status = TaskStatus.error; reason = Reason.network }
      ∷ record half_part { status = TaskStatus.error; reason = Reason.auth }
      ∷ [];
}

aggregate_status-reason_example : rank Reason.network ≤ℤ rank (aggregate_status refused_task).reason
unfolding task_create_new aggregate_status tally tally_part verdict
aggregate_status-reason_example =
    aggregate_status-reason refused_task refl refl 0
      (record half_part { status = TaskStatus.error; reason = Reason.network }) refl refl

abbrev known_task : TaskCtx
known_task = record half_task { etag = codes "x"; last_modified = codes "Mon" }

-- A total of eleven bytes in place of ten is drift.
header_cb-Stays_example :
    Stays known_task (header_cb known_task 0 (codes "Content-Range: bytes 0-9/11"))
unfolding task_create_new
header_cb-Stays_example =
    header_cb-Stays known_task 0 (omega arith) refl refl (codes "Content-Range: bytes 0-9/11") refl
      refl refl

abbrev a_coding : Dict → Text
a_coding d = codes "d"

abbrev its_decoding : Text → Option Dict
its_decoding s = some (resume_entry half_task)

half_part-IsPlain : IsPlain half_part
unfolding ◌+ℤ◌ ◌-ℤ◌
half_part-IsPlain = record { sized = refl; state = refl; no_reason = refl }

deserialize-serialize_example :
    Restores half_task
      (deserialize_resume a_coding its_decoding (serialize_resume a_coding its_decoding half_task))
unfolding task_create_new
deserialize-serialize_example =
    deserialize-serialize a_coding its_decoding half_task half_part [] refl refl refl
      (half_part-IsPlain, tt)

range_hdr-parse_range_example :
    parse_range (range_hdr half_task half_part) ≡ some (pos 0 +ℤ pos 2, pos 9)
unfolding task_create_new
range_hdr-parse_range_example =
    range_hdr-parse_range half_task half_part 0 2 9 refl refl refl refl (omega arith) (omega arith)
