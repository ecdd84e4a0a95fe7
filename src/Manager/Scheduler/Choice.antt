-- ===== src/Manager/Scheduler/Choice.antt =====
-- The task that the scheduler chooses.
use download_wrapper.Base.{
  ℕ, suc, ◌+◌, ◌≡◌, refl, sym, ap, ◌∙◌, ◌⊎◌, inl, inr, Bool, true, false, Bool-cases, Option, none,
  some, List, [], ◌∷◌, All, All-get_elem?, subst, arith, get_elem?, if◌then◌else◌,
}
use download_wrapper.Base.Int.{◌≤ℤ◌, ◌<ℤ◌, eq_of_parts, dec_lt_ℤ}
use download_wrapper.Manager.Task.{Task}
use download_wrapper.Manager.Scheduler.{
  Engines, SchedulerConfig, improved, pick, goes_before, is_waiting,
}

module _ {ℓ} {A : Type ℓ} (fit : A → Bool) (better : A → A → Bool) where
  -- One round of the loop.
  abbrev round : ℕ → A → Option (ℕ × A) → Option (ℕ × A)
  round i x best = if fit x then improved fit better i x best else best

  round_place :
      (i : ℕ) (x : A) (best : Option (ℕ × A)) (j : ℕ) (a : A)
      → round i x best ≡ some (j, a)
      → (best ≡ some (j, a)) ⊎ ((j ≡ i) × (x ≡ a) × (fit a ≡ true))
  round_place i x none j a h = ground arith
  round_place i x (some (k, b)) j a h = ground arith

  -- The result is the best so far, or a fit task of the rest at its place.
  pick-place :
      (i : ℕ) (best : Option (ℕ × A)) (xs : List A) (j : ℕ) (a : A)
      → pick fit better i best xs ≡ some (j, a)
      → (best ≡ some (j, a)) ⊎ ((k : ℕ) × (j ≡ i + k) × (get_elem? xs k ≡ some a) × (fit a ≡ true))
  unfolding pick
  pick-place i best [] j a h = inl h
  pick-place i best (x ∷ xs) j a h = elim (pick-place (suc i) (round i x best) xs j a h) [
    | inr (k, e, f, g) ↦ inr (suc k, omega arith, f, g)
    | inl e ↦ elim (round_place i x best j a e) [
      | inl f ↦ inl f
      | inr (f, g, ok) ↦ inr (0, omega arith, ap some g, ok)
    ]
  ]

  pub pick-get_elem? :
      (xs : List A) (j : ℕ) (a : A)
      → pick fit better 0 none xs ≡ some (j, a)
      → (get_elem? xs j ≡ some a) × (fit a ≡ true)
  pick-get_elem? xs j a h = elim (pick-place 0 none xs j a h) [
    | inl e ↦ absurd (cc)
    | inr (k, e, f, g) ↦ (rw (here k e) f, g)
  ]
    where
      here : (k : ℕ) → j ≡ 0 + k → j ≡ k
      here k e = omega arith

  -- No task is chosen only where none is fit.
  pick-none :
      (i : ℕ) (best : Option (ℕ × A)) (xs : List A)
      → pick fit better i best xs ≡ none
      → (best ≡ none) × All (λ x. fit x ≡ false) xs
  unfolding pick
  pick-none i best [] h = (h, tt)
  pick-none i none (x ∷ xs) h =
      let rest = pick-none (suc i) (round i x none) xs h in (refl, (ground arith, rest.1))
  pick-none i (some (k, b)) (x ∷ xs) h =
      let rest = pick-none (suc i) (round i x (some (k, b))) xs h in absurd (ground arith)

  -- Nothing that came before is better than the best so far.
  abbrev Unbeaten : Option (ℕ × A) → A → Type 0
  Unbeaten none x = fit x ≡ false
  Unbeaten (some (k, b)) x = fit x ≡ true → better x b ≡ false

  module _ (irreflexive : (x : A) → better x x ≡ false)
      (transitive : (x y z : A) → better x y ≡ true → better y z ≡ true → better x z ≡ true) where
    round-Unbeaten :
        (i : ℕ) (x : A) (best : Option (ℕ × A)) (y : A)
        → Unbeaten best y
        → Unbeaten (round i x best) y
    round-Unbeaten i x none y h = elim (Bool-cases (fit x)) [
      | inl e ↦ rw e (λ f. cc)
      | inr e ↦ rw e h
    ]
    round-Unbeaten i x (some (k, b)) y h = elim (Bool-cases (fit x)) [
      | inr e ↦ rw e h
      | inl e ↦ elim (Bool-cases (better x b)) [
        | inr f ↦ rw (e, f) h
        | inl f ↦ rw (e, f) (λ g. ground (arith, h g, transitive y x b))
      ]
    ]

    round_self : (i : ℕ) (x : A) (best : Option (ℕ × A)) → Unbeaten (round i x best) x
    round_self i x none = elim (Bool-cases (fit x)) [
      | inl e ↦ rw e (λ f. irreflexive x)
      | inr e ↦ rw e e
    ]
    round_self i x (some (k, b)) = elim (Bool-cases (fit x)) [
      | inr e ↦ rw e (λ f. cc)
      | inl e ↦ elim (Bool-cases (better x b)) [
        | inr f ↦ rw (e, f) (λ g. f)
        | inl f ↦ rw (e, f) (λ g. irreflexive x)
      ]
    ]

    pick_keeps :
        (i : ℕ) (best : Option (ℕ × A)) (xs : List A) (y : A)
        → Unbeaten best y
        → Unbeaten (pick fit better i best xs) y
    unfolding pick
    pick_keeps i best [] y h = h
    pick_keeps i best (x ∷ xs) y h =
        pick_keeps (suc i) (round i x best) xs y (round-Unbeaten i x best y h)

    pick-Unbeaten :
        (i : ℕ) (best : Option (ℕ × A)) (xs : List A)
        → All (Unbeaten (pick fit better i best xs)) xs
    unfolding pick
    pick-Unbeaten i best [] = tt
    pick-Unbeaten i best (x ∷ xs) = (
      pick_keeps (suc i) (round i x best) xs x (round_self i x best),
      pick-Unbeaten (suc i) (round i x best) xs,
    )

-- `a` is served before `b`, or they rank the same: forced tasks first, then the higher priority,
-- then the older.
pub data Leads {Rate : Type 0} (a b : Task Rate) : Type 0 where
  by_force : a.force ≡ true → b.force ≡ false → Leads a b
  by_priority : a.force ≡ b.force → b.priority <ℤ a.priority → Leads a b
  by_age : a.force ≡ b.force → a.priority ≡ b.priority → a.created_at ≤ℤ b.created_at → Leads a b

module _ {E Rate : Type 0} (engines : Engines E Rate) (config : SchedulerConfig) where
  goes_before_irreflexive : (a : Task Rate) → goes_before engines config a a ≡ false
  goes_before_irreflexive a = ground arith

  goes_before_transitive :
      (a b c : Task Rate)
      → goes_before engines config a b ≡ true
      → goes_before engines config b c ≡ true
      → goes_before engines config a c ≡ true
  goes_before_transitive a b c h k = ground arith

  -- Among tasks of one kind, forced or not, the priority decides, then the age.
  abbrev Ranks : Task Rate → Task Rate → Type 0
  Ranks a b =
      (b.priority <ℤ a.priority) ⊎ ((a.priority ≡ b.priority) × (a.created_at ≤ℤ b.created_at))

  Ranks-Leads : (a b : Task Rate) → a.force ≡ b.force → Ranks a b → Leads a b
  Ranks-Leads a b e (inl k) = Leads.by_priority e k
  Ranks-Leads a b e (inr (k, m)) = Leads.by_age e k m

  not_before-Ranks :
      (a b : Task Rate) → a.force ≡ b.force → goes_before engines config b a ≡ false → Ranks a b
  not_before-Ranks a b e h = elim (dec_lt_ℤ b.priority a.priority) [
    | inl more ↦ inl more
    | inr less ↦ inr (eq_of_parts a.priority b.priority (ground arith), ground arith)
  ]

  not_before-Leads : (a b : Task Rate) → goes_before engines config b a ≡ false → Leads a b
  not_before-Leads a b h = elim (Bool-cases a.force) [
    | inl f ↦ elim (Bool-cases b.force) [
      | inl g ↦ Ranks-Leads a b (f ∙ sym g) (not_before-Ranks a b (f ∙ sym g) h)
      | inr g ↦ Leads.by_force f g
    ]
    | inr f ↦ elim (Bool-cases b.force) [
      | inl g ↦ absurd (ground arith)
      | inr g ↦ Ranks-Leads a b (f ∙ sym g) (not_before-Ranks a b (f ∙ sym g) h)
    ]
  ]

  -- The task that the scheduler takes up next stands in the list and waits for a slot, and it leads
  -- every task of the list that waits.
  pub pick-Leads :
      (tasks : List (Task Rate)) (i : ℕ) (next : Task Rate)
      → pick (is_waiting engines config) (goes_before engines config) 0 none tasks ≡ some (i, next)
      → (k : ℕ) (t : Task Rate) → get_elem? tasks k ≡ some t
      → is_waiting engines config t ≡ true
      → (get_elem? tasks i ≡ some next) × (is_waiting engines config next ≡ true) × Leads next t
  pick-Leads tasks i next h k t at_k waits =
      let fit = is_waiting engines config in
      let better = goes_before engines config in
      let found = pick-get_elem? fit better tasks i next h in
      let unbeaten =
        pick-Unbeaten fit better goes_before_irreflexive goes_before_transitive 0 none tasks in
      let best = subst (λ o. All (Unbeaten fit better o) tasks) h unbeaten in
      (
        found.0,
        found.1,
        not_before-Leads next t
            (All-get_elem? (Unbeaten fit better (some (i, next))) tasks k t best at_k waits),
      )
