-- ===== src/Manager/Scheduler/Admission.antt =====
-- The admission loop: it ends, keeps to the limit of running tasks, and leaves other tasks alone.
use download_wrapper.Base.{
  ℕ, zero, suc, ◌+◌, ◌≤◌, ◌<◌, ◌≡◌, refl, sym, ap, ◌∙◌, ◌⊎◌, inl, inr, ◌&&◌, true, false, Option,
  none, some, List, [], ◌∷◌, if_intro, arith, get_elem?, get_elem?-set_ne, set, max, ℕ_discrete,
  if◌then◌else◌,
}
use download_wrapper.Base.Int.{ℤ, pos, pos_part, leb_ℤ, ltb_ℤ}
use download_wrapper.Api.{is_success, is_retry}
use download_wrapper.Manager.Task.{Task, TaskParams, SubmitResult}
use download_wrapper.Manager.Scheduler.{
  Engines, SchedulerConfig, Turn, stop, again, pick, goes_before, is_slower, is_waiting,
  is_pausable, is_active, active_count, paused_task, started_task, make_room, make_room_by,
  task_params, dispatch, admit_next, admit_choice, turn, admit,
}
use download_wrapper.Manager.Scheduler.Choice.{pick-get_elem?}

-- A measure of a list, entry by entry.
abbrev pub total {ℓ} : {A : Type ℓ} → (A → ℕ) → List A → ℕ
total w [] = 0
total w (x ∷ xs) = w x + total w xs

total-set {ℓ} :
    {A : Type ℓ} (w : A → ℕ) (xs : List A) (i : ℕ) (a b : A)
    → get_elem? xs i ≡ some a
    → total w (set xs i b) + w a ≡ total w xs + w b
total-set w [] i a b h = absurd (cc)
total-set w (x ∷ xs) zero a b h = ground arith
total-set w (x ∷ xs) (suc i) a b h = omega (arith, total-set w xs i a b h)

below : (m : ℤ) (n : ℕ) → leb_ℤ m (pos n) ≡ false → n < pos_part m
below m n h = ground arith

module _ {E Rate : Type 0} (engines : Engines E Rate) (config : SchedulerConfig) where
  -- What the loop may do to a task: pause it while it runs, or start it while it waits and the
  -- limit leaves room.
  data Change (tasks : List (Task Rate)) (a b : Task Rate) : Type 0 where
    pauses :
        (now : ℤ)
        → is_pausable engines config a ≡ true
        → b ≡ paused_task engines config a now
        → Change tasks a b
    starts :
        (r : SubmitResult) (now : ℤ)
        → is_waiting engines config a ≡ true
        → active_count engines config tasks < pos_part config.max_concurrent_downloads
        → is_retry r.code ≡ false
        → b ≡ started_task engines config a r now
        → Change tasks a b

  data Moves (tasks : List (Task Rate)) : Turn E Rate → Type 0 where
    stays : (e : E) → Moves tasks (stop tasks e)
    moves :
        (i : ℕ) (a b : Task Rate) (e : E)
        → get_elem? tasks i ≡ some a
        → Change tasks a b
        → Moves tasks (again (set tasks i b) e)

  module _ (tasks : List (Task Rate)) where
    room_for :
        (o : Option (ℕ × Task Rate)) (e : E)
        → pick (is_pausable engines config) (is_slower engines config) 0 none tasks ≡ o
        → Moves tasks (make_room_by engines config tasks e o)
    unfolding make_room_by
    room_for none e h = stays e
    room_for (some (j, a)) e h =
        let (r, e1) = engines.pause_task (task_params engines config a) e in
        let (now, e2) = engines.now_unix_ms e1 in
        let (found, fit) =
          pick-get_elem? (is_pausable engines config) (is_slower engines config) tasks j a h in
        let b = paused_task engines config a now in
        if_intro (Moves tasks) (is_success r.code) (again (set tasks j b) e2) (stop tasks e1)
          (λ ok. moves j a b e2 found (pauses now fit refl)) (λ no_room. stays e1)

    dispatch-Moves :
        (i : ℕ) (a : Task Rate) (e : E)
        → get_elem? tasks i ≡ some a
        → is_waiting engines config a ≡ true
        → active_count engines config tasks < pos_part config.max_concurrent_downloads
        → Moves tasks (dispatch engines config tasks i a e)
    unfolding dispatch
    dispatch-Moves i a e found w room =
        let params : TaskParams = record (task_params engines config a) {
          file_priorities = a.priority_file_indexes;
        } in
        let (r, e1) = engines.do_resume params e in
        let (now, e2) = engines.now_unix_ms e1 in
        let b = started_task engines config a r now in
        if_intro (Moves tasks) (is_retry r.code) (stop tasks e1) (again (set tasks i b) e2)
          (λ later. stays e1) (λ done. moves i a b e2 found (starts r now w room done refl))

    admit_next-Moves :
        (i : ℕ) (a : Task Rate) (e : E)
        → get_elem? tasks i ≡ some a
        → is_waiting engines config a ≡ true
        → Moves tasks (admit_next engines config tasks i a e)
    unfolding admit_next make_room
    admit_next-Moves i a e found w =
        let room = make_room engines config tasks e in
        if_intro (Moves tasks)
          (leb_ℤ config.max_concurrent_downloads (pos (active_count engines config tasks)))
          (if a.force then room else stop tasks e) (dispatch engines config tasks i a e)
          (λ full.
            if_intro (Moves tasks) a.force room (stop tasks e) (λ f. room_for _ e refl)
              (λ f. stays e))
          (λ h.
            dispatch-Moves i a e found w
              (below config.max_concurrent_downloads (active_count engines config tasks) h))

    choice-Moves :
        (o : Option (ℕ × Task Rate)) (e : E)
        → pick (is_waiting engines config) (goes_before engines config) 0 none tasks ≡ o
        → Moves tasks (admit_choice engines config tasks e o)
    unfolding admit_choice
    choice-Moves none e h = stays e
    choice-Moves (some (i, a)) e h =
        let (found, fit) =
          pick-get_elem? (is_waiting engines config) (goes_before engines config) tasks i a h in
        admit_next-Moves i a e found fit

    turn-Moves : (e : E) → Moves tasks (turn engines config tasks e)
    unfolding turn
    turn-Moves e =
        let (on, e1) = engines.running e in
        let choice = pick (is_waiting engines config) (goes_before engines config) 0 none tasks in
        if_intro (Moves tasks) (on && ltb_ℤ (pos 0) config.max_concurrent_downloads)
          (admit_choice engines config tasks e1 choice) (stop tasks e1)
          (λ yes_run. choice-Moves choice e1 refl) (λ no_run. stays e1)

  -- What a turn leaves to do: a waiting task counts two, a running one counts one.
  abbrev pub weight : Task Rate → ℕ
  weight t =
      if is_waiting engines config t then 2 else if is_pausable engines config t then 1 else 0

  abbrev pub active : Task Rate → ℕ
  active t = if is_active engines config t then 1 else 0

  active_count-total : (ts : List (Task Rate)) → active_count engines config ts ≡ total active ts
  unfolding active_count
  active_count-total [] = refl
  active_count-total (t ∷ ts) = omega (arith, active_count-total ts)

  Change-weight :
      (tasks : List (Task Rate)) (a b : Task Rate) → Change tasks a b → weight b < weight a
  Change-weight tasks a b (pauses now fit e) = rw e (ground arith)
  Change-weight tasks a b (starts r now fit room ok e) = rw e (ground arith)

  Change-active :
      (tasks : List (Task Rate)) (a b : Task Rate)
      → Change tasks a b
      → (active b ≤ active a)
        ⊎ ((active b ≤ active a + 1)
            × (active_count engines config tasks < pos_part config.max_concurrent_downloads))
  Change-active tasks a b (pauses now fit e) = rw e (inl (ground arith))
  Change-active tasks a b (starts r now fit room ok e) = rw e (inr (ground arith, room))

  -- What the loop keeps to.
  record Kept (tasks tasks' : List (Task Rate)) : Type 0 where
    pub limit :
        active_count engines config tasks'
        ≤ max (active_count engines config tasks) (pos_part config.max_concurrent_downloads)
    pub others :
        (j : ℕ) (t : Task Rate)
        → get_elem? tasks j ≡ some t
        → is_waiting engines config t ≡ false
        → is_pausable engines config t ≡ false
        → get_elem? tasks' j ≡ some t

  Change-moved :
      (tasks : List (Task Rate)) (a b : Task Rate)
      → Change tasks a b
      → is_waiting engines config a ≡ false
      → is_pausable engines config a ≡ false
      → ⊥
  Change-moved tasks a b (pauses now fit e) h k = absurd (cc)
  Change-moved tasks a b (starts r now fit room ok e) h k = absurd (cc)

  step-limit :
      (tasks : List (Task Rate)) (i : ℕ) (a b : Task Rate)
      → get_elem? tasks i ≡ some a
      → Change tasks a b
      → active_count engines config (set tasks i b)
        ≤ max (active_count engines config tasks) (pos_part config.max_concurrent_downloads)
  step-limit tasks i a b found c = omega (
    arith,
    active_count-total (set tasks i b),
    active_count-total tasks,
    total-set active tasks i a b found,
    Change-active tasks a b c,
  )

  step-others :
      (tasks : List (Task Rate)) (i : ℕ) (a b : Task Rate)
      → get_elem? tasks i ≡ some a
      → Change tasks a b
      → (j : ℕ) (t : Task Rate) → get_elem? tasks j ≡ some t
      → is_waiting engines config t ≡ false
      → is_pausable engines config t ≡ false
      → get_elem? (set tasks i b) j ≡ some t
  step-others tasks i a b found c j t at_j h k = elim (ℕ_discrete i j) [
    | no apart ↦ get_elem?-set_ne tasks b apart ∙ at_j
    | yes same ↦
        let e : some a ≡ some t = sym found ∙ ap (get_elem? tasks) same ∙ at_j in
        let f : a ≡ t = cc in
        absurd (
          Change-moved tasks a b c (ap (is_waiting engines config) f ∙ h)
            (ap (is_pausable engines config) f ∙ k))
  ]

  Kept-refl : (tasks : List (Task Rate)) → Kept tasks tasks
  Kept-refl tasks = record { limit = omega arith; others = λ j t h w p. h }

  admit_step :
      (fuel : ℕ)
      → ((tasks : List (Task Rate)) (e : E)
          → total weight tasks < fuel
          → (r : List (Task Rate) × E) × (admit engines config fuel tasks e ≡ some r)
            × Kept tasks r.0)
      → (tasks : List (Task Rate)) (e : E) (o : Turn E Rate) → turn engines config tasks e ≡ o
      → Moves tasks o
      → total weight tasks < suc fuel
      → (r : List (Task Rate) × E) × (admit engines config (suc fuel) tasks e ≡ some r)
        × Kept tasks r.0
  unfolding admit
  admit_step fuel ih tasks e o h (stays e') m = ((tasks, e'), rw (h, admit) refl, Kept-refl tasks)
  admit_step fuel ih tasks e o h (moves i a b e' found c) m =
      let less = total-set weight tasks i a b found in
      let (r, run, kept) = ih (set tasks i b) e' (omega (arith, less, Change-weight tasks a b c)) in
      (
        r,
        rw (h, admit) run,
        record {
          limit = omega (arith, kept.limit, step-limit tasks i a b found c);
          others =
              λ j t at_j w p. kept.others j t (step-others tasks i a b found c j t at_j w p) w p;
        },
      )

  admit-Kept :
      (fuel : ℕ) (tasks : List (Task Rate)) (e : E)
      → total weight tasks < fuel
      → (r : List (Task Rate) × E) × (admit engines config fuel tasks e ≡ some r) × Kept tasks r.0
  admit-Kept zero tasks e h = absurd (omega arith)
  admit-Kept (suc fuel) tasks e h =
      admit_step fuel (admit-Kept fuel) tasks e (turn engines config tasks e) refl
        (turn-Moves tasks e) h

  -- The admission loop ends: on any tasks, whatever the engines answer and the clock shows, more turns
  -- than the weight of the tasks are enough. It leaves no more tasks running at once than the limit
  -- allows, or than ran before.
  pub admit-limit :
      (fuel : ℕ) (tasks : List (Task Rate)) (e : E)
      → total weight tasks < fuel
      → (r : List (Task Rate) × E) × (admit engines config fuel tasks e ≡ some r)
        × (active_count engines config r.0
            ≤ max (active_count engines config tasks) (pos_part config.max_concurrent_downloads))
  admit-limit fuel tasks e h =
      let (r, run, kept) = admit-Kept fuel tasks e h in (r, run, kept.limit)
