-- ===== src/Http/Result/Progress.antt =====
-- What a finished request changes: a new one uses up what the part has left, and else the part is
-- final.
use download_wrapper.Base.{
  ℕ, ◌+◌, ◌<◌, ◌≡◌, refl, Bool, true, false, ◌&&◌, arith, length, get_or, get_or-set_self,
  if◌then◌else◌,
}
use download_wrapper.Base.Int.{ℤ, pos, pos_part, ◌-ℤ◌, ◌+ℤ◌, ◌≤ℤ◌, ltb_ℤ, leb_ℤ}
use download_wrapper.Api.{TaskStatus, Reason, is_error}
use download_wrapper.Http.Part.{Part, zero_part}
use download_wrapper.Http.Task.{PartCtx, TaskCtx, part_at, set_part, set_part_ctx, new_part_ctx}
use download_wrapper.Http.Failure.{CurlCode, classify_failure}
use download_wrapper.Http.Result.{
  handle_part_result, unfinished, count_retry, cut_short, broken, error_part, completed_part,
  finish_unsized,
}

-- The retries that a part has left, and one more for the end of the probe window.
abbrev pub budget : ℤ → PartCtx → ℕ
budget max_retries c = pos_part (max_retries -ℤ c.retry_count) + (if c.probe_window then 1 else 0)

abbrev pub ctx_at : TaskCtx → ℕ → PartCtx
ctx_at t i = get_or t.part_ctx i (new_part_ctx i)

retry-budget :
    (m : ℤ) (c : PartCtx)
    → ltb_ℤ c.retry_count m ≡ true
    → budget m (record c { retry_count = c.retry_count +ℤ pos 1 }) < budget m c
unfolding ◌-ℤ◌ ◌+ℤ◌
retry-budget m c e = ground arith

-- Of the answer to a retry: the budget of the part has fallen.
abbrev Falls : ℤ → PartCtx → TaskCtx × Bool → Type 0
Falls m c r = r.1 ≡ true → budget m (ctx_at r.0 c.index) < budget m c

module _ (m : ℤ) (t : TaskCtx) (c : PartCtx) (p : Part) (there : c.index < length t.part_ctx) where
  count_retry-budget :
      ltb_ℤ c.retry_count m ≡ true → budget m (ctx_at (count_retry t c) c.index) < budget m c
  unfolding ◌+ℤ◌
  count_retry-budget e =
      rw (get_or-set_self t.part_ctx c.index _ (new_part_ctx c.index) there) (retry-budget m c e)

  broken-Falls : (r : Reason) (retryable : Bool) → Falls m c (broken m t c p (r, retryable))
  unfolding broken
  broken-Falls r retryable = ground (arith, count_retry-budget)

  cut_short-Falls : Falls m c (cut_short m t c p)
  unfolding cut_short
  cut_short-Falls = ground (arith, count_retry-budget)

probe-budget :
    (m : ℤ) (c : PartCtx)
    → c.probe_window ≡ true
    → budget m (record c { probe_window = false }) < budget m c
probe-budget m c e = ground arith

module _ (m : ℤ) (t : TaskCtx) (c : PartCtx) (there : c.index < length t.part_ctx) where
  continue-budget :
      c.probe_window ≡ true
      → budget m (ctx_at (set_part_ctx t c.index (record c { probe_window = false })) c.index)
        < budget m c
  continue-budget e =
      rw (get_or-set_self t.part_ctx c.index _ (new_part_ctx c.index) there) (probe-budget m c e)

  unfinished-Falls :
      (p : Part) (rc : CurlCode) (http_code : ℤ) → Falls m c (unfinished m t c p rc http_code)
  unfolding unfinished
  unfinished-Falls p rc http_code = ground (
    arith,
    broken-Falls m t c p there (classify_failure rc http_code).0 (classify_failure rc http_code).1,
    cut_short-Falls m t c p there,
  )

  -- Each time a part is to be requested again, what it has left has fallen: its retries, and one
  -- for the end of its probe window.
  pub handle_part_result-budget :
      (rc : CurlCode) (http_code : ℤ)
      → (handle_part_result m t c rc http_code).1 ≡ true
      → budget m (ctx_at (handle_part_result m t c rc http_code).0 c.index) < budget m c
  unfolding handle_part_result
  handle_part_result-budget rc http_code =
      ground (arith, continue-budget, unfinished-Falls (part_at t c.index) rc http_code)

-- A part is final when it is completed, with all its bytes, or in error.
pub data IsFinal (p : Part) : Type 0 where
  completed : p.status ≡ TaskStatus.completed → p.size ≤ℤ p.done → IsFinal p
  in_error : p.status ≡ TaskStatus.error → IsFinal p

abbrev Ends : ℕ → TaskCtx × Bool → Type 0
Ends i r = r.1 ≡ false → IsFinal (part_at r.0 i)

module _ (m : ℤ) (t : TaskCtx) (c : PartCtx) (there : c.index < length t.parts) where
  abbrev p : Part
  p = part_at t c.index

  set-IsFinal : (q : Part) → IsFinal q → IsFinal (part_at (set_part t c.index q) c.index)
  set-IsFinal q h = rw (get_or-set_self t.parts c.index q zero_part there) h

  error-IsFinal : (r : Reason) → IsFinal (part_at (set_part t c.index (error_part p r)) c.index)
  error-IsFinal r = set-IsFinal (error_part p r) (in_error refl)

  broken-Ends : (r : Reason) (retryable : Bool) → Ends c.index (broken m t c p (r, retryable))
  unfolding broken
  broken-Ends r retryable = ground (arith, error-IsFinal r)

  cut_short-Ends : Ends c.index (cut_short m t c p)
  unfolding cut_short
  cut_short-Ends = ground (arith, error-IsFinal Reason.network)

  already-IsFinal : is_error p.status ≡ true → IsFinal p
  already-IsFinal e = in_error (ground arith)

  full-IsFinal :
      (ltb_ℤ (pos 0) p.size && leb_ℤ p.size p.done) ≡ true
      → IsFinal (part_at (set_part t c.index (completed_part p)) c.index)
  full-IsFinal e = set-IsFinal (completed_part p) (completed refl (ground arith))

  unsized-IsFinal : IsFinal (part_at (finish_unsized t c.index p) c.index)
  unsized-IsFinal =
      rw
        (get_or-set_self t.parts c.index (record (completed_part p) { size = p.done }) zero_part
          there)
        (completed refl (omega arith))

  unfinished-Ends : (rc : CurlCode) (http_code : ℤ) → Ends c.index (unfinished m t c p rc http_code)
  unfolding unfinished
  unfinished-Ends rc http_code = ground (
    arith,
    unsized-IsFinal,
    cut_short-Ends,
    broken-Ends (classify_failure rc http_code).0 (classify_failure rc http_code).1,
  )

  -- A request that is not repeated leaves its part completed with no byte missing, or in error.
  pub handle_part_result-IsFinal :
      (rc : CurlCode) (http_code : ℤ)
      → (handle_part_result m t c rc http_code).1 ≡ false
      → IsFinal (part_at (handle_part_result m t c rc http_code).0 c.index)
  unfolding handle_part_result
  handle_part_result-IsFinal rc http_code =
      ground (arith, already-IsFinal, full-IsFinal, unfinished-Ends rc http_code)
