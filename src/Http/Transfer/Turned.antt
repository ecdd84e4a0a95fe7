-- ===== src/Http/Transfer/Turned.antt =====
-- The invariant of the loop of `run_parts_multi` over the ends of requests and over a turn.
use download_wrapper.Base.{
  ℕ, suc, ◌<◌, ◌≡◌, refl, sym, subst, ap, ◌∙◌, Bool, true, false, ◌||◌, List, [], ◌∷◌, length,
  length-set, if_intro, arith,
}
use download_wrapper.Base.Int.{ℤ, pos, int_laws, eq_of_parts}
use download_wrapper.Api.{Reason}
use download_wrapper.Http.Task.{TaskCtx, part_at}
use download_wrapper.Http.Failure.{CurlCode}
use download_wrapper.Http.Header.{ctx_of}
use download_wrapper.Http.Result.{handle_part_result}
use download_wrapper.Http.Result.Progress.{IsFinal, handle_part_result-IsFinal}
use download_wrapper.Http.Transfer.{
  Message, other_message, unknown_handle, finished, Turn, Loop, noticed, drop_easy, add_part,
  count_down, spawn_new_parts, judged, handle_message, handle_messages, turned,
}
use download_wrapper.Http.Transfer.Shape.{is_live, Apart, nowhere, only, Inv, Apart-Shape}
use download_wrapper.Http.Transfer.Judged.{handle_part_result-Apart}
use download_wrapper.Http.Transfer.Handled.{
  Open, open-Shape, close-Shape, failed-Shape, request-Shape, length-drop_easy,
}
use download_wrapper.Http.Transfer.Spawned.{
  same-Shape, maybe_emit_resume-parts, emitted-Inv, Ready, spawn_new_parts-Ready,
}

-- A message ends the request of a part that has a handle, while no thread asks to pause or to cancel.
abbrev pub IsAnswer : Message → Loop → Type 0
IsAnswer other_message l = Unit
IsAnswer unknown_handle l = Unit
IsAnswer (finished i flags rc http_code builds) l =
    (is_live i l.live ≡ true) × ((flags.cancel || flags.pause) ≡ false)

module _ (max_retries : ℤ) where
  judged-Ready :
      (builds again : Bool) (i : ℕ) (l : Loop) (t : TaskCtx)
      → Open (pos (suc (length l.live))) i (record l { task = t })
      → l.spawned ≡ length t.part_ctx
      → (again ≡ false → IsFinal (part_at t i))
      → Ready (judged builds i l (t, again))
  unfolding judged add_part
  judged-Ready true true i l t o all h = record {
    inv = record { counted = o.count; shape = request-Shape i t l.live l.spawned o.shape o.low };
    all = all ∙ sym (length-set t.part_ctx i _);
  }
  judged-Ready false true i l t o all h = record {
    inv = record {
      counted = rw o.count (eq_of_parts _ _ (omega int_laws));
      shape = failed-Shape i t l.live l.spawned Reason.general o.shape o.low;
    };
    all = all;
  }
  judged-Ready builds false i l t o all h = record {
    inv = record {
      counted = rw o.count (eq_of_parts _ _ (omega int_laws));
      shape = close-Shape i t l.live l.spawned o.shape (h refl);
    };
    all = all;
  }

  -- What `handle_part_result` makes of the part at its place.
  pub result-Apart :
      (t : TaskCtx) (i : ℕ) (rc : CurlCode) (http_code : ℤ)
      → (ctx_of t i).index ≡ i
      → Apart i t (handle_part_result max_retries t (ctx_of t i) rc http_code).0
  result-Apart t i rc http_code at =
      let c = ctx_of t i in
      subst (λ k. Apart k t (handle_part_result max_retries t c rc http_code).0) at
        (handle_part_result-Apart max_retries t c (ap (λ k. (ctx_of t k).index) (sym at)) rc
          http_code)

  result-IsFinal :
      (t : TaskCtx) (i : ℕ) (rc : CurlCode) (http_code : ℤ)
      → (ctx_of t i).index ≡ i
      → i < length t.parts
      → (handle_part_result max_retries t (ctx_of t i) rc http_code).1 ≡ false
      → IsFinal (part_at (handle_part_result max_retries t (ctx_of t i) rc http_code).0 i)
  result-IsFinal t i rc http_code at there e =
      let c = ctx_of t i in
      subst (λ k. IsFinal (part_at (handle_part_result max_retries t c rc http_code).0 k)) at
        (handle_part_result-IsFinal max_retries t c (subst (λ k. k < length t.parts) (sym at) there)
          rc http_code e)

  pub handle_message-Ready :
      (m : Message) (l : Loop) → IsAnswer m l → Ready l → Ready (handle_message max_retries m l)
  unfolding handle_message
  handle_message-Ready other_message l a r = r
  handle_message-Ready unknown_handle l a r = r
  handle_message-Ready (finished i flags rc http_code builds) l (at, quiet) r =
      let v = r.inv in
      let t = noticed flags l.task in
      let l' : Loop = record l { task = t; live = drop_easy i l.live } in
      let s = same-Shape nowhere l.task t l.live l.spawned v.shape refl refl refl in
      let low = s.within i at in
      let here = s.indexed i in
      let result = handle_part_result max_retries t (ctx_of t i) rc http_code in
      let a = result-Apart t i rc http_code here in
      let o : Open (pos (suc (length l'.live))) i (record l' { task = result.0 }) = record {
        count = v.counted ∙ ap pos (length-drop_easy i l.live at);
        low = low;
        shape =
            Apart-Shape (only i) i t result.0 l'.live l.spawned (open-Shape i t l.live l.spawned s)
              low (ground arith) a;
      } in
      if_intro Ready (flags.cancel || flags.pause) (count_down l') (judged builds i l' result)
        (λ e. cc)
        (λ e.
          judged-Ready builds result.1 i l' result.0 o (r.all ∙ sym a.contexts)
            (result-IsFinal t i rc http_code here (omega (arith, s.paired, s.reached))))

  -- Each message is an answer when its turn comes.
  abbrev pub Answers : List Message → Loop → Type 0
  Answers [] l = Unit
  Answers (m ∷ ms) l = IsAnswer m l × Answers ms (handle_message max_retries m l)

  handle_messages-Ready :
      (ms : List Message) (l : Loop)
      → Answers ms l
      → Ready l
      → Ready (handle_messages max_retries ms l)
  unfolding handle_messages
  handle_messages-Ready [] l a r = r
  handle_messages-Ready (m ∷ ms) l a r =
      handle_messages-Ready ms (handle_message max_retries m l) a.1 (handle_message-Ready m l a.0 r)

  pub turned-Ready :
      (turn : Turn) (l : Loop)
      → Inv l
      → Answers turn.messages (spawn_new_parts turn.builds l)
      → Ready (turned max_retries turn l)
  unfolding turned
  turned-Ready turn l v a =
      let r =
        handle_messages-Ready turn.messages (spawn_new_parts turn.builds l) a
          (spawn_new_parts-Ready turn.builds l v) in
      let done = handle_messages max_retries turn.messages (spawn_new_parts turn.builds l) in
      let (x, y, z) = maybe_emit_resume-parts done.task in
      record { inv = emitted-Inv done r.inv; all = r.all ∙ ap length (sym y) }
