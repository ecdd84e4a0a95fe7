-- ===== src/Http/Transfer/Lowered.antt =====
-- Each end of a request uses up what is left to ask for.
use download_wrapper.Base.{
  ℕ, suc, ◌+◌, ◌-◌, ◌≤◌, ◌<◌, ◌≡◌, refl, ◌∙◌, Bool, true, false, ◌||◌, List, [], ◌∷◌, length,
  if_intro, if◌then◌else◌, arith,
}
use download_wrapper.Base.Int.{ℤ}
use download_wrapper.Text.{Text}
use download_wrapper.Http.Task.{TaskCtx, set_part_ctx}
use download_wrapper.Http.Header.{ctx_of}
use download_wrapper.Http.Write.{Disk, WriteAnswer, is_stopped, received, write_cb}
use download_wrapper.Http.Probe.{Storage, SplitConfig}
use download_wrapper.Http.Request.{requested}
use download_wrapper.Http.Result.{handle_part_result}
use download_wrapper.Http.Result.Progress.{budget}
use download_wrapper.Http.Transfer.{
  Callback, header_line, body, Message, other_message, unknown_handle, finished, Loop, noticed,
  drop_easy, add_part, count_down, spawn_parts, spawn_new_parts, called, perform, judged,
  handle_message, handle_messages,
}
use download_wrapper.Http.Transfer.Own.{Own, role, header_cb-Own, write_part-Own, same-Own}
use download_wrapper.Http.Transfer.Spawned.{Ready}
use download_wrapper.Http.Transfer.Turned.{IsAnswer, Answers, handle_message-Ready, result-Apart}
use download_wrapper.Http.Transfer.Budget.{
  weight, weight_mono, weight-drop_easy, requested-budget, result_falls, result-budget,
}

-- Nothing that the measure reads has changed.
pub record Calm (t t' : TaskCtx) : Type 0 where
  pub contexts : length t'.part_ctx ≡ length t.part_ctx
  pub roles : (j : ℕ) → role (ctx_of t' j) ≡ role (ctx_of t j)
  pub probing : t'.probing ≡ t.probing

Own-Calm : {i : ℕ} {t t' : TaskCtx} → Own i t t' → Calm t t'
Own-Calm o = record { contexts = o.contexts; roles = o.roles; probing = o.probing }

Calm-trans : {t u v : TaskCtx} → Calm t u → Calm u v → Calm t v
Calm-trans a b = record {
  contexts = b.contexts ∙ a.contexts;
  roles = λ j. b.roles j ∙ a.roles j;
  probing = b.probing ∙ a.probing;
}

module _ (fs : Storage) (cfg : SplitConfig) (by_url : Text) where
  received-Calm :
      (stop probing : Bool) (probe : TaskCtx → TaskCtx) (answer : WriteAnswer) (t : TaskCtx) (i : ℕ)
      (disk : Disk) (bytes : Text)
      → probing ≡ false
      → Calm t (received stop probing probe answer t i disk bytes).1
  unfolding received
  received-Calm true probing probe answer t i disk bytes e =
      Own-Calm (same-Own i t t refl refl refl)
  received-Calm false false probe answer t i disk bytes e =
      Own-Calm (write_part-Own i t answer disk bytes)
  received-Calm false true probe answer t i disk bytes e = absurd (cc)

  called-Calm :
      (c : Callback) (l : Loop)
      → l.task.probing ≡ false
      → Calm l.task (called fs cfg by_url c l).task
        × ((called fs cfg by_url c l).spawned ≡ l.spawned)
        × ((called fs cfg by_url c l).live ≡ l.live)
  unfolding called write_cb
  called-Calm (header_line i buffer) l e = (Own-Calm (header_cb-Own i l.task buffer), refl, refl)
  called-Calm (body i answer bytes) l e = (
    received-Calm (is_stopped l.task bytes) l.task.probing _ answer l.task i l.disk bytes e,
    refl,
    refl,
  )

  pub perform-Calm :
      (cs : List Callback) (l : Loop)
      → l.task.probing ≡ false
      → Calm l.task (perform fs cfg by_url cs l).task
        × ((perform fs cfg by_url cs l).spawned ≡ l.spawned)
        × ((perform fs cfg by_url cs l).live ≡ l.live)
  unfolding perform
  perform-Calm [] l e = (Own-Calm (same-Own 0 l.task l.task refl refl refl), refl, refl)
  perform-Calm (c ∷ cs) l e =
      let (a, b, d) = called-Calm c l e in
      let (a', b', d') = perform-Calm cs (called fs cfg by_url c l) (a.probing ∙ e) in
      (Calm-trans a a', b' ∙ b, d' ∙ d)

-- Once all parts have been asked for, nothing new is asked for.
pub spawn_none :
    (builds : ℕ → Bool) (l : Loop)
    → l.spawned ≡ length l.task.part_ctx
    → spawn_new_parts builds l ≡ l
unfolding spawn_new_parts spawn_parts
spawn_none builds l e =
    let none_left : length l.task.part_ctx - l.spawned ≡ 0 = omega arith in rw none_left refl

abbrev pub loop_weight : ℤ → Loop → ℕ
loop_weight m l = weight m l.task l.live

-- Whether a message is the end of a request.
abbrev pub ends : Message → Bool
ends other_message = false
ends unknown_handle = false
ends (finished i flags rc http_code builds) = true

abbrev pub has_end : List Message → Bool
has_end [] = false
has_end (msg ∷ ms) = ends msg || has_end ms

module _ (m : ℤ) where
  judged-weight :
      (builds again : Bool) (i : ℕ) (l : Loop) (t : TaskCtx) (bound : ℕ)
      → t.probing ≡ false
      → i < length t.part_ctx
      → (again ≡ true → suc (budget m (ctx_of t i)) + weight m t l.live < bound)
      → weight m t l.live < bound
      → (loop_weight m (judged builds i l (t, again)) < bound)
        × ((judged builds i l (t, again)).task.probing ≡ false)
  unfolding judged add_part weight
  judged-weight true true i l t bound over there h k =
      let less = λ (j : ℕ). requested-budget m t i j over there in
      let t' = set_part_ctx t i (requested t (ctx_of t i)) in
      (omega (arith, h refl, less i, weight_mono m t t' l.live less), over)
  judged-weight false true i l t bound over there h k = (k, over)
  judged-weight builds false i l t bound over there h k = (k, over)

  -- The end of a request lowers what is left; another message leaves it as it is.
  handle_message-weight :
      (msg : Message) (l : Loop)
      → IsAnswer msg l
      → Ready l
      → l.task.probing ≡ false
      → (loop_weight m (handle_message m msg l) + (if ends msg then 1 else 0) ≤ loop_weight m l)
        × ((handle_message m msg l).task.probing ≡ false)
  unfolding handle_message
  handle_message-weight other_message l a r over = (omega arith, over)
  handle_message-weight unknown_handle l a r over = (omega arith, over)
  handle_message-weight (finished i flags rc http_code builds) l (at, quiet) r over =
      let t = noticed flags l.task in
      let l' : Loop = record l { task = t; live = drop_easy i l.live } in
      let s = r.inv.shape in
      let here = s.indexed i in
      let there : i < length t.part_ctx = omega (arith, s.within i at, s.reached) in
      let result = handle_part_result m t (ctx_of t i) rc http_code in
      let a = result-Apart m t i rc http_code here in
      let rest =
        weight_mono m t result.0 (drop_easy i l.live)
          (result-budget m t i rc http_code here there) in
      let whole = weight-drop_easy m t i l.live at in
      let (fewer, still) =
        judged-weight builds result.1 i l' result.0 (weight m t l.live) (a.probing ∙ over)
          (omega (arith, there, a.contexts))
          (λ again. omega (arith, rest, whole, result_falls m t i rc http_code here there again))
          (omega (arith, rest, whole)) in
      let fewer' : loop_weight m (judged builds i l' result) < weight m t l.live = fewer in
      let same = weight_mono m l.task t l.live (λ j. omega arith) in
      if_intro (λ (k : Loop). (loop_weight m k + 1 ≤ loop_weight m l) × (k.task.probing ≡ false))
        (flags.cancel || flags.pause) (count_down l') (judged builds i l' result) (λ e. cc)
        (λ e. (omega (arith, fewer', same), still))

  pub handle_messages-weight :
      (ms : List Message) (l : Loop)
      → Answers m ms l
      → Ready l
      → l.task.probing ≡ false
      → (loop_weight m (handle_messages m ms l) + (if has_end ms then 1 else 0) ≤ loop_weight m l)
        × ((handle_messages m ms l).task.probing ≡ false)
  unfolding handle_messages
  handle_messages-weight [] l a r over = (omega arith, over)
  handle_messages-weight (msg ∷ ms) l a r over =
      let first = handle_message-weight msg l a.0 r over in
      let rest =
        handle_messages-weight ms (handle_message m msg l) a.1 (handle_message-Ready m msg l a.0 r)
          first.1 in
      (ground (arith, first.0, rest.0), rest.1)
