-- ===== src/Http/Aggregate/Verdict.antt =====
-- What the state of a task says of its parts.
use download_wrapper.Base.{
  ℕ, ◌≡◌, refl, sym, ◌∙◌, ap, ◌⊎◌, inr, ◌↔◌, true, false, List, [], ◌∷◌, some, All, All-get_elem?,
  get_elem?, arith,
}
use download_wrapper.Base.Int.{ℤ, minus_one, ◌≤ℤ◌}
use download_wrapper.Api.{TaskStatus, Reason}
use download_wrapper.Http.Part.{Part}
use download_wrapper.Http.Task.{TaskCtx}
use download_wrapper.Http.Aggregate.{
  Tally, rank, first_tally, tally_part, tally, verdict, aggregate_status,
}

abbrev pub IsCompleted : Part → Type 0
IsCompleted p = p.status ≡ TaskStatus.completed

tally_part-IsCompleted :
    (st : TaskStatus) (r : Reason) (s : Tally)
    → (tally_part st r s).all_completed ≡ true
    → (st ≡ TaskStatus.completed) × (s.all_completed ≡ true)
unfolding tally_part
tally_part-IsCompleted st r s h = ground arith

pub tally-IsCompleted :
    (s : Tally) (ps : List Part)
    → (tally s ps).all_completed ≡ true
    → All IsCompleted ps × (s.all_completed ≡ true)
unfolding tally
tally-IsCompleted s [] h = (tt, h)
tally-IsCompleted s (p ∷ ps) h =
    let rest = tally-IsCompleted (tally_part p.status p.reason s) ps h in
    let here = tally_part-IsCompleted p.status p.reason s rest.1 in ((here.0, rest.0), here.1)

completed-tally : (s : Tally) (ps : List Part) → All IsCompleted ps → tally s ps ≡ s
unfolding tally tally_part
completed-tally s [] h = refl
completed-tally s (p ∷ ps) h = rw h.0 (completed-tally s ps h.1)

verdict-completed :
    (s : Tally) (t : TaskCtx)
    → t.status ≡ TaskStatus.downloading
    → (verdict s t).status ≡ TaskStatus.completed
    → s.all_completed ≡ true
unfolding verdict
verdict-completed s t d h = ground arith

verdict-none : (t : TaskCtx) → (verdict first_tally t).status ≡ TaskStatus.completed
unfolding verdict
verdict-none t = refl

running :
    (t : TaskCtx)
    → t.status ≡ TaskStatus.downloading
    → aggregate_status t ≡ verdict (tally first_tally t.parts) t
unfolding aggregate_status
running t d = ground arith

-- A task that was running is completed exactly when all its parts are.
pub aggregate_status-completed :
    (t : TaskCtx)
    → t.status ≡ TaskStatus.downloading
    → ((aggregate_status t).status ≡ TaskStatus.completed) ↔ All IsCompleted t.parts
aggregate_status-completed t d = (
  λ h.
      (tally-IsCompleted first_tally t.parts (
        verdict-completed (tally first_tally t.parts) t d
          (ap (λ u. u.status) (sym (running t d)) ∙ h))).0,
  λ h.
      ap (λ u. u.status) (running t d)
      ∙ ap (λ s. (verdict s t).status) (completed-tally first_tally t.parts h)
      ∙ verdict-none t,
)

-- The tally's reason is the weightiest of the parts in error.
abbrev IsRanked : Tally → Type 0
IsRanked s =
    ((s.has_error ≡ true) × (s.best_rank ≡ rank s.best))
    ⊎ ((s.has_error ≡ false) × (s.best_rank ≡ minus_one))

tally_part-IsRanked :
    (st : TaskStatus) (r : Reason) (s : Tally) → IsRanked s → IsRanked (tally_part st r s)
unfolding tally_part
tally_part-IsRanked st r s h = ground arith

tally_part-rank :
    (st : TaskStatus) (r : Reason) (s : Tally)
    → (s.best_rank ≤ℤ (tally_part st r s).best_rank)
      × (st ≡ TaskStatus.error → rank r ≤ℤ (tally_part st r s).best_rank)
unfolding tally_part
tally_part-rank st r s = ground arith

abbrev Outranked : ℤ → Part → Type 0
Outranked k p = p.status ≡ TaskStatus.error → rank p.reason ≤ℤ k

tally-rank :
    (s : Tally) (ps : List Part)
    → (s.best_rank ≤ℤ (tally s ps).best_rank) × All (Outranked (tally s ps).best_rank) ps
unfolding tally
tally-rank s [] = (omega arith, tt)
tally-rank s (p ∷ ps) =
    let first = tally_part-rank p.status p.reason s in
    let rest = tally-rank (tally_part p.status p.reason s) ps in
    (omega (arith, first.0, rest.0), ((λ e. omega (arith, first.1 e, rest.0)), rest.1))

tally-IsRanked : (s : Tally) (ps : List Part) → IsRanked s → IsRanked (tally s ps)
unfolding tally
tally-IsRanked s [] h = h
tally-IsRanked s (p ∷ ps) h =
    tally-IsRanked (tally_part p.status p.reason s) ps (tally_part-IsRanked p.status p.reason s h)

verdict-error :
    (s : Tally) (t : TaskCtx)
    → IsRanked s
    → t.status ≡ TaskStatus.downloading
    → (verdict s t).status ≡ TaskStatus.error
    → rank (verdict s t).reason ≡ s.best_rank
unfolding verdict
verdict-error s t r d h = ground arith

-- A task that ran and ends in error carries a reason that is at least as weighty as that of each of
-- its parts in error: refused access before a lost resource, before a failure to be retried, before
-- the network.
pub aggregate_status-reason :
    (t : TaskCtx)
    → t.status ≡ TaskStatus.downloading
    → (aggregate_status t).status ≡ TaskStatus.error
    → (i : ℕ) (p : Part) → get_elem? t.parts i ≡ some p
    → p.status ≡ TaskStatus.error
    → rank p.reason ≤ℤ rank (aggregate_status t).reason
aggregate_status-reason t d h i p found =
    let e = running t d in
    let s = tally first_tally t.parts in
    let ranked = tally-IsRanked first_tally t.parts (inr (refl, refl)) in
    let weight = verdict-error s t ranked d (ap (λ u. u.status) (sym e) ∙ h) in
    rw (e, weight)
      (All-get_elem? (Outranked s.best_rank) t.parts i p (tally-rank first_tally t.parts).1 found)
