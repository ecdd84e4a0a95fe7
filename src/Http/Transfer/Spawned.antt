-- ===== src/Http/Transfer/Spawned.antt =====
-- The invariant of the loop of `run_parts_multi` over new parts and over changes outside
-- the parts.
use download_wrapper.Base.{
  ℕ, zero, suc, ◌+◌, ◌-◌, ◌<◌, ◌≡◌, refl, sym, subst, ◌∙◌, Bool, true, false, List, length,
  length-set, if_intro, arith,
}
use download_wrapper.Api.{TaskStatus, is_completed}
use download_wrapper.Http.Task.{TaskCtx, part_at}
use download_wrapper.Http.Header.{ctx_of}
use download_wrapper.Http.Result.Progress.{IsFinal, completed}
use download_wrapper.Http.Resume.{maybe_emit_resume}
use download_wrapper.Http.Transfer.{
  Flags, Loop, noticed, add_part, count_up, spawn_part, spawn_parts, spawn_new_parts, emitted,
}
use download_wrapper.Http.Transfer.Shape.{Shape, nowhere, Inv}
use download_wrapper.Http.Transfer.Handled.{next-Shape, close-Shape, count_up-Inv}

-- The task changes outside its parts.
pub same-Shape :
    (free : ℕ → Bool) (t t' : TaskCtx) (live : List ℕ) (spawned : ℕ)
    → Shape free t live spawned
    → t'.parts ≡ t.parts
    → t'.part_ctx ≡ t.part_ctx
    → t'.probing ≡ t.probing
    → Shape free t' live spawned
same-Shape free t t' live spawned s a b c = record {
  paired = rw (a, b) s.paired;
  indexed = λ j. rw b (s.indexed j);
  reached = rw b s.reached;
  within = s.within;
  probed = λ e. rw a (s.probed (sym c ∙ e));
  full = λ j. rw a (s.full j);
  final = λ j. rw a (s.final j);
}

same-Inv :
    (l : Loop) (t' : TaskCtx)
    → Inv l
    → t'.parts ≡ l.task.parts
    → t'.part_ctx ≡ l.task.part_ctx
    → t'.probing ≡ l.task.probing
    → Inv (record l { task = t' })
same-Inv l t' v a b c = record {
  counted = v.counted;
  shape = same-Shape nowhere l.task t' l.live l.spawned v.shape a b c;
}

pub noticed-Inv : (f : Flags) (l : Loop) → Inv l → Inv (record l { task = noticed f l.task })
noticed-Inv f l v = same-Inv l (noticed f l.task) v refl refl refl

pub maybe_emit_resume-parts :
    (t : TaskCtx)
    → ((maybe_emit_resume t).0.parts ≡ t.parts)
      × ((maybe_emit_resume t).0.part_ctx ≡ t.part_ctx)
      × ((maybe_emit_resume t).0.probing ≡ t.probing)
unfolding maybe_emit_resume
maybe_emit_resume-parts t = ground arith

pub emitted-Inv : (l : Loop) → Inv l → Inv (emitted l)
emitted-Inv l v =
    let (a, b, c) = maybe_emit_resume-parts l.task in
    same-Inv l (maybe_emit_resume l.task).0 v a b c

completed_of : (st : TaskStatus) → is_completed st ≡ true → st ≡ TaskStatus.completed
completed_of st e = ground arith

-- One round of `spawn_new_parts`.
spawn_part-Inv :
    (builds : ℕ → Bool) (l : Loop)
    → Inv l
    → l.spawned < length l.task.part_ctx
    → Inv (spawn_part builds l)
unfolding spawn_part
spawn_part-Inv builds l v more =
    let i = l.spawned in
    let l' : Loop = record l { spawned = suc i } in
    let s = next-Shape l.task l.live i v.shape more in
    let at = v.shape.indexed i in
    let skip : Bool = is_completed (part_at l.task (ctx_of l.task i).index).status in
    let skipped : skip ≡ true → IsFinal (part_at l.task i) = λ e.
      let e' = subst (λ k. is_completed (part_at l.task k).status ≡ true) at e in
      let h = completed_of (part_at l.task i).status e' in
      completed h (v.shape.full i (omega arith) h) in
    if_intro Inv skip l' (count_up (add_part (builds i) i l'))
      (λ e. record {
        counted = v.counted;
        shape = close-Shape i l.task l.live (suc i) s (skipped e);
      })
      (λ e.
        count_up-Inv (builds i) i l' (record { count = v.counted; low = omega arith; shape = s }))

count_up-spawned :
    (builds : Bool) (i : ℕ) (l : Loop)
    → ((count_up (add_part builds i l)).spawned ≡ l.spawned)
      × (length (count_up (add_part builds i l)).task.part_ctx ≡ length l.task.part_ctx)
      × ((count_up (add_part builds i l)).task.probing ≡ l.task.probing)
unfolding add_part
count_up-spawned true i l = (refl, length-set l.task.part_ctx i _, refl)
count_up-spawned false i l = (refl, refl, refl)

spawn_part-spawned :
    (builds : ℕ → Bool) (l : Loop)
    → ((spawn_part builds l).spawned ≡ suc l.spawned)
      × (length (spawn_part builds l).task.part_ctx ≡ length l.task.part_ctx)
      × ((spawn_part builds l).task.probing ≡ l.task.probing)
unfolding spawn_part
spawn_part-spawned builds l =
    let i = l.spawned in
    let l' : Loop = record l { spawned = suc i } in
    if_intro
      (λ (k : Loop).
        (k.spawned ≡ suc i)
        × (length k.task.part_ctx ≡ length l.task.part_ctx)
        × (k.task.probing ≡ l.task.probing))
      (is_completed (part_at l.task (ctx_of l.task i).index).status) l'
      (count_up (add_part (builds i) i l')) (λ e. (refl, refl, refl))
      (λ e. count_up-spawned (builds i) i l')

-- The invariant at the head of the loop, where all parts have been asked for.
pub record Ready (l : Loop) : Type 0 where
  pub inv : Inv l
  pub all : l.spawned ≡ length l.task.part_ctx

spawn_parts-Ready :
    (n : ℕ) (builds : ℕ → Bool) (l : Loop)
    → Inv l
    → l.spawned + n ≡ length l.task.part_ctx
    → Ready (spawn_parts n builds l)
unfolding spawn_parts
spawn_parts-Ready zero builds l v e = record { inv = v; all = omega arith }
spawn_parts-Ready (suc n) builds l v e =
    let (next, same, probing) = spawn_part-spawned builds l in
    spawn_parts-Ready n builds (spawn_part builds l) (spawn_part-Inv builds l v (omega arith))
      (omega arith)

spawn_parts-probing :
    (n : ℕ) (builds : ℕ → Bool) (l : Loop) → (spawn_parts n builds l).task.probing ≡ l.task.probing
unfolding spawn_parts
spawn_parts-probing zero builds l = refl
spawn_parts-probing (suc n) builds l =
    spawn_parts-probing n builds (spawn_part builds l) ∙ (spawn_part-spawned builds l).2

pub spawn_new_parts-probing :
    (builds : ℕ → Bool) (l : Loop) → (spawn_new_parts builds l).task.probing ≡ l.task.probing
unfolding spawn_new_parts
spawn_new_parts-probing builds l = spawn_parts-probing (length l.task.part_ctx - l.spawned) builds l

pub spawn_new_parts-Ready :
    (builds : ℕ → Bool) (l : Loop) → Inv l → Ready (spawn_new_parts builds l)
unfolding spawn_new_parts
spawn_new_parts-Ready builds l v =
    spawn_parts-Ready (length l.task.part_ctx - l.spawned) builds l v
      (omega (arith, v.shape.reached))
