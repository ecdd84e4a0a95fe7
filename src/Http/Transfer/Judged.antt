-- ===== src/Http/Transfer/Judged.antt =====
-- `handle_part_result` leaves the other parts of a task and their contexts alone.
use download_wrapper.Base.{
  get_or, get_or-set_like, get_or-set_ne, length-set, set, ℕ, ◌≡◌, refl, ap, ◌∙◌, Bool, true, false,
  ◌&&◌, length, if_intro, if◌then◌else◌, arith,
}
use download_wrapper.Base.Int.{ℤ, pos, leb_ℤ, ltb_ℤ, eqb_ℤ}
use download_wrapper.Api.{Reason, is_error}
use download_wrapper.Http.Part.{Part, zero_part}
use download_wrapper.Http.Task.{PartCtx, TaskCtx, part_at, set_part, set_part_ctx, new_part_ctx}
use download_wrapper.Http.Failure.{CurlCode, classify_failure, is_ok}
use download_wrapper.Http.Header.{ctx_of}
use download_wrapper.Http.Result.{
  handle_part_result, unfinished, count_retry, cut_short, broken, completed_part, finish_unsized,
  is_2xx,
}
use download_wrapper.Http.Transfer.Own.{role, same-Own, set_part-Own}
use download_wrapper.Http.Transfer.Shape.{Apart, Own-Apart}

-- The context of a part is written, and still belongs to that part.
pub set_part_ctx-Apart :
    (i : ℕ) (t t' : TaskCtx) (c : PartCtx)
    → t'.parts ≡ t.parts
    → t'.part_ctx ≡ set t.part_ctx i c
    → t'.probing ≡ t.probing
    → c.index ≡ (ctx_of t i).index
    → Apart i t t'
set_part_ctx-Apart i t t' c a b e r = record {
  parts = ap length a;
  contexts = ap length b ∙ length-set t.part_ctx i c;
  others = λ j n. ap (λ ps. get_or ps j zero_part) a;
  indexed = λ j.
      ap (λ cs. (get_or cs j (new_part_ctx j)).index) b
      ∙ get_or-set_like (λ (d : PartCtx). d.index) t.part_ctx i j c (new_part_ctx i)
          (new_part_ctx j) r;
  roles = λ j n.
      ap (λ cs. role (get_or cs j (new_part_ctx j))) b
      ∙ ap role (get_or-set_ne t.part_ctx c (new_part_ctx j) n);
  probing = e;
}

module _ (m : ℤ) (t : TaskCtx) (c : PartCtx) (at : c.index ≡ (ctx_of t c.index).index) where
  abbrev Judged : TaskCtx × Bool → Type 0
  Judged r = Apart c.index t r.0

  wrote :
      (t' : TaskCtx) (p : Part)
      → t'.parts ≡ set t.parts c.index p
      → t'.part_ctx ≡ t.part_ctx
      → t'.probing ≡ t.probing
      → Apart c.index t t'
  wrote t' p a b e = Own-Apart (set_part-Own c.index t t' p a b e)

  retried : Apart c.index t (count_retry t c)
  retried = set_part_ctx-Apart c.index t _ _ refl refl refl at

  cut_short-Apart : (p : Part) → Apart c.index t (cut_short m t c p).0
  unfolding cut_short
  cut_short-Apart p =
      if_intro Judged (leb_ℤ m c.retry_count) _ _ (λ e. wrote _ _ refl refl refl) (λ e. retried)

  broken-Apart : (p : Part) (r : Reason × Bool) → Apart c.index t (broken m t c p r).0
  unfolding broken
  broken-Apart p (reason, retryable) =
      if_intro Judged (retryable && ltb_ℤ c.retry_count m) _ _ (λ e. retried)
        (λ e. wrote _ _ refl refl refl)

  unfinished-Apart :
      (p : Part) (rc : CurlCode) (http_code : ℤ)
      → Apart c.index t (unfinished m t c p rc http_code).0
  unfolding unfinished
  unfinished-Apart p rc http_code =
      let ended = is_ok rc && is_2xx http_code in
      let r : TaskCtx × Bool =
        if ended then cut_short m t c p else broken m t c p (classify_failure rc http_code) in
      if_intro Judged (ended && leb_ℤ p.size (pos 0)) (finish_unsized t c.index p, false) r
        (λ e. wrote _ _ refl refl refl)
        (λ e. if_intro Judged ended _ _ (λ e. cut_short-Apart p) (λ e. broken-Apart p _))

  -- A request that is not repeated leaves the contexts as they are.
  abbrev pub Keeps : TaskCtx × Bool → Type 0
  Keeps r = r.1 ≡ false → r.0.part_ctx ≡ t.part_ctx

  cut_short-Keeps : (p : Part) → Keeps (cut_short m t c p)
  unfolding cut_short
  cut_short-Keeps p = ground arith

  broken-Keeps : (p : Part) (r : Reason × Bool) → Keeps (broken m t c p r)
  unfolding broken
  broken-Keeps p (reason, retryable) = ground arith

  unfinished-Keeps :
      (p : Part) (rc : CurlCode) (http_code : ℤ) → Keeps (unfinished m t c p rc http_code)
  unfolding unfinished
  unfinished-Keeps p rc http_code =
      ground (arith, cut_short-Keeps p, broken-Keeps p (classify_failure rc http_code))

  pub handle_part_result-Keeps :
      (rc : CurlCode) (http_code : ℤ) → Keeps (handle_part_result m t c rc http_code)
  unfolding handle_part_result
  handle_part_result-Keeps rc http_code =
      ground (arith, unfinished-Keeps (part_at t c.index) rc http_code)

  pub handle_part_result-Apart :
      (rc : CurlCode) (http_code : ℤ) → Apart c.index t (handle_part_result m t c rc http_code).0
  unfolding handle_part_result
  handle_part_result-Apart rc http_code =
      let p = part_at t c.index in
      let rest = unfinished m t c p rc http_code in
      let over : TaskCtx × Bool =
        (set_part_ctx t c.index (record c { probe_window = false }), true) in
      let probe = c.probe_window && is_ok rc && eqb_ℤ http_code (pos 206) && ltb_ℤ (pos 0) p.done in
      let is_full = ltb_ℤ (pos 0) p.size && leb_ℤ p.size p.done in
      let next : TaskCtx × Bool = if probe then over else rest in
      let filled : TaskCtx × Bool = (set_part t c.index (completed_part p), false) in
      if_intro Judged (is_error p.status) (t, false) (if is_full then filled else next)
        (λ e. Own-Apart (same-Own c.index t t refl refl refl))
        (λ e.
          if_intro Judged is_full filled next (λ e. wrote _ _ refl refl refl)
            (λ e.
              if_intro Judged probe over rest
                (λ e. set_part_ctx-Apart c.index t _ _ refl refl refl at)
                (λ e. unfinished-Apart p rc http_code)))
