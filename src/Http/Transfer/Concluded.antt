-- ===== src/Http/Transfer/Concluded.antt =====
-- The verdict on a task whose parts are all final, and what the thread of a transfer comes to.
use download_wrapper.Base.{
  ℕ, ◌≡◌, refl, sym, subst, ◌∙◌, ◌⊎◌, inl, inr, Bool, true, false, ◌&&◌, ◌||◌, not, List, [], ◌∷◌,
  All, Bool-cases, if_intro, if◌then◌else◌, arith,
}
use download_wrapper.Base.Int.{ℤ}
use download_wrapper.Api.{TaskStatus, is_error, is_general, is_completed}
use download_wrapper.Text.{Text}
use download_wrapper.Http.Part.{Part}
use download_wrapper.Http.Task.{TaskCtx}
use download_wrapper.Http.Write.{Disk}
use download_wrapper.Http.Probe.{Storage, SplitConfig}
use download_wrapper.Http.Result.Progress.{IsFinal, completed, in_error}
use download_wrapper.Http.Aggregate.{
  Tally, first_tally, tally_part, tally, verdict, aggregate_status,
}
use download_wrapper.Http.Aggregate.Verdict.{IsCompleted, tally-IsCompleted}
use download_wrapper.Http.Resume.{maybe_emit_resume}
use download_wrapper.Http.Transfer.{
  Flags, Turn, settled, noticed, spawn_new_parts, first_loop, run_parts_multi,
}
use download_wrapper.Http.Transfer.Thread.{thread_ended, concluded, task_thread_func}
use download_wrapper.Http.Transfer.Spawned.{spawn_new_parts-Ready}
use download_wrapper.Http.Transfer.Settled.{
  IsFull, IsFresh, IsFair, Ended, first_loop-Inv, loop-Ended, Ready-IsFinal,
}

-- No thread asks to pause or to cancel.
abbrev pub quiet : Flags
quiet = record { cancel = false; pause = false }

-- A tally of final parts: no part runs, and there is an error or all are completed.
tally_part-Sound :
    (p : Part) (s : Tally)
    → IsFinal p
    → s.has_downloading ≡ false
    → (s.has_error || s.all_completed) ≡ true
    → ((tally_part p.status p.reason s).has_downloading ≡ false)
      × (((tally_part p.status p.reason s).has_error
            || (tally_part p.status p.reason s).all_completed)
          ≡ true)
unfolding tally_part
tally_part-Sound p s (completed e f) a b = ground arith
tally_part-Sound p s (in_error e) a b = ground arith

tally-Sound :
    (s : Tally) (ps : List Part)
    → All IsFinal ps
    → s.has_downloading ≡ false
    → (s.has_error || s.all_completed) ≡ true
    → ((tally s ps).has_downloading ≡ false)
      × (((tally s ps).has_error || (tally s ps).all_completed) ≡ true)
unfolding tally
tally-Sound s [] h a b = (a, b)
tally-Sound s (p ∷ ps) h a b =
    let (a', b') = tally_part-Sound p s h.0 a b in
    tally-Sound (tally_part p.status p.reason s) ps h.1 a' b'

IsFinal-IsFull : (ps : List Part) → All IsFinal ps → All IsCompleted ps → All IsFull ps
IsFinal-IsFull [] h k = tt
IsFinal-IsFull (p ∷ ps) (completed e f, h) k = (f, IsFinal-IsFull ps h k.1)
IsFinal-IsFull (p ∷ ps) (in_error e, h) k =
    let clash : TaskStatus.completed ≡ TaskStatus.error = sym k.0 ∙ e in absurd (cc)

-- The transfer is completed, and no byte of a part is missing, or it is in error.
abbrev pub Concludes : TaskCtx → Type 0
Concludes t =
    ((t.status ≡ TaskStatus.completed) × All IsFull t.parts) ⊎ (t.status ≡ TaskStatus.error)

verdict-Concludes :
    (s : Tally) (t : TaskCtx)
    → s.has_downloading ≡ false
    → (s.has_error || s.all_completed) ≡ true
    → (s.all_completed ≡ true → All IsFull t.parts)
    → Concludes (verdict s t)
unfolding verdict
verdict-Concludes s t a b f = elim (Bool-cases s.all_completed) [
  | inl e ↦ rw (a, e) (inl (refl, f e))
  | inr e ↦ let failed : s.has_error ≡ true = ground arith in rw (a, e, failed) (inr refl)
]

aggregate_status-Concludes : (t : TaskCtx) → All IsFinal t.parts → Concludes (aggregate_status t)
unfolding aggregate_status
aggregate_status-Concludes t h =
    let s = tally first_tally t.parts in
    let (still, known) = tally-Sound first_tally t.parts h refl refl in
    if_intro Concludes (is_error t.status && is_general t.reason) t (verdict s t)
      (λ e. inr (ground arith))
      (λ e.
        verdict-Concludes s t still known
          (λ all. IsFinal-IsFull t.parts h (tally-IsCompleted first_tally t.parts all).0))

chosen :
    (b paused : Bool) (x y : TaskCtx) (z : TaskCtx × Bool) (w : Bool)
    → paused ≡ false
    → (if b then (if paused then x else y, true) else if paused then z else (y, w)).0 ≡ y
chosen b true x y z w h = absurd (cc)
chosen true false x y z w h = refl
chosen false false x y z w h = refl

-- With no pause asked for, the thread leaves the verdict as it is.
concluded_quiet :
    (flags : Flags) (t : TaskCtx)
    → flags.pause ≡ false
    → (concluded flags t).0 ≡ aggregate_status (noticed flags t)
unfolding concluded
concluded_quiet flags t still =
    let t' = aggregate_status (noticed flags t) in
    let kept = maybe_emit_resume t' in
    chosen (is_completed t'.status) (not flags.cancel && flags.pause)
      (record t' { status = TaskStatus.paused }) t'
      (record kept.0 { status = TaskStatus.paused }, kept.1) false (ground arith)

module _ (fs : Storage) (cfg : SplitConfig) (by_url : Text) (max_retries : ℤ) where
  run_parts_multi-Ended :
      (builds : ℕ → Bool) (turns : List Turn) (t : TaskCtx) (disk : Disk)
      → IsFresh t
      → IsFair fs cfg by_url max_retries turns (spawn_new_parts builds (first_loop t disk))
      → Ended (run_parts_multi fs cfg by_url max_retries builds turns t disk)
  unfolding run_parts_multi
  run_parts_multi-Ended builds turns t disk fresh fair =
      loop-Ended fs cfg by_url max_retries turns (spawn_new_parts builds (first_loop t disk)) fair
        (spawn_new_parts-Ready builds (first_loop t disk) (first_loop-Inv t disk fresh))

  -- When the loop of a transfer ends because no request is left, and no thread has asked to pause or to
  -- cancel: the thread leaves the task completed, with no byte of a part missing, or in error. The
  -- transfer starts with a context for each part, a probe with one part, and with full parts among
  -- those marked as completed; libcurl calls back, and ends requests, for handles that are there.
  pub task_thread_func-Concludes :
      (last : Flags) (now : ℤ) (builds : ℕ → Bool) (turns : List Turn) (t : TaskCtx) (disk : Disk)
      → IsFresh t
      → IsFair fs cfg by_url max_retries turns
          (spawn_new_parts builds (first_loop (noticed quiet t) disk))
      → (run_parts_multi fs cfg by_url max_retries builds turns (noticed quiet t) disk).1 ≡ settled
      → last.pause ≡ false
      → Concludes
          (task_thread_func fs cfg by_url max_retries quiet last true now builds turns t disk).0
  unfolding task_thread_func
  task_thread_func-Concludes last now builds turns t disk fresh fair ended still =
      let fresh' : IsFresh (noticed quiet t) = record {
        paired = fresh.paired;
        indexed = fresh.indexed;
        probed = fresh.probed;
        full = fresh.full;
      } in
      let ran = run_parts_multi fs cfg by_url max_retries builds turns (noticed quiet t) disk in
      let (ready, over) =
        run_parts_multi-Ended builds turns (noticed quiet t) disk fresh' fair ended in
      let final = Ready-IsFinal ran.0 ready over in
      let good = aggregate_status-Concludes (noticed last ran.0.task) final in
      subst (λ u. Concludes (thread_ended now u)) (sym (concluded_quiet last ran.0.task still)) good
