-- ===== src/Http/Engine/Sweep.antt =====
-- What `sweep` leaves.
use download_wrapper.Base.{
  sym, subst, ◌↔◌, ◌||◌, Option, some, ◌≡◌, refl, ap, ◌∙◌, inl, inr, true, false, Bool-cases, none,
  List, [], ◌∷◌, All, if◌then◌else◌, arith,
}
use download_wrapper.Base.Int.{ℤ, pos, ◌<ℤ◌, leb_ℤ, ◌+ℤ◌, ◌-ℤ◌, int_laws}
use download_wrapper.Api.{is_completed, is_error}
use download_wrapper.Text.{Text, text_eq}
use download_wrapper.Http.Task.{TaskCtx}
use download_wrapper.Http.Engine.{Registry, lookup, erase, is_reclaimed, to_reclaim, reclaim, sweep}
use download_wrapper.Store.Files.Keys.{text_eq_sound}
use download_wrapper.Http.Engine.Registry.{text_eq_self}

-- Each URL stands once.
abbrev pub IsMap : Registry → Type 0
IsMap [] = Unit
IsMap ((u, t) ∷ rest) = (lookup u rest ≡ none) × IsMap rest

-- The entries that are not to be reclaimed, in their order.
pub survivors : ℤ → Registry → Registry
survivors now [] = []
survivors now ((u, t) ∷ rest) =
    let kept = survivors now rest in if is_reclaimed now t then kept else (u, t) ∷ kept

abbrev Absent : Text → List Text → Type 0
Absent u us = All (λ v. text_eq u v ≡ false) us

text_eq_sym : (a b : Text) → text_eq a b ≡ text_eq b a
unfolding text_eq
text_eq_sym [] [] = refl
text_eq_sym [] (y ∷ b) = refl
text_eq_sym (x ∷ a) [] = refl
text_eq_sym (x ∷ a) (y ∷ b) = ground (arith, text_eq_sym a b)

lookup_rest :
    (u v : Text) (t : TaskCtx) (rest : Registry)
    → lookup u ((v, t) ∷ rest) ≡ none
    → (text_eq v u ≡ false) × (lookup u rest ≡ none)
unfolding lookup
lookup_rest u v t rest h = ground arith

to_reclaim-Absent :
    (now : ℤ) (u : Text) (tasks : Registry)
    → lookup u tasks ≡ none
    → Absent u (to_reclaim now tasks)
unfolding to_reclaim
to_reclaim-Absent now u [] h = tt
to_reclaim-Absent now u ((v, t) ∷ rest) h =
    let (apart, later) = lookup_rest u v t rest h in
    let more = to_reclaim-Absent now u rest later in
    let other : text_eq u v ≡ false = text_eq_sym u v ∙ apart in
    elim (Bool-cases (is_reclaimed now t)) [ inl e ↦ rw e (other, more) | inr e ↦ rw e more ]

erase_absent : (u : Text) (tasks : Registry) → lookup u tasks ≡ none → erase u tasks ≡ tasks
unfolding erase
erase_absent u [] h = refl
erase_absent u ((v, t) ∷ rest) h =
    let (apart, later) = lookup_rest u v t rest h in
    rw apart (ap (λ r. (v, t) ∷ r) (erase_absent u rest later))

erase_head :
    (u v : Text) (t : TaskCtx) (rest : Registry)
    → text_eq u v ≡ false
    → erase v ((u, t) ∷ rest) ≡ (u, t) ∷ erase v rest
unfolding erase
erase_head u v t rest h = rw h refl

erase_here : (u : Text) (t : TaskCtx) (rest : Registry) → erase u ((u, t) ∷ rest) ≡ erase u rest
unfolding erase
erase_here u t rest = rw (text_eq_self u) refl

reclaim_past :
    (us : List Text) (u : Text) (t : TaskCtx) (rest : Registry)
    → Absent u us
    → reclaim us ((u, t) ∷ rest) ≡ (u, t) ∷ reclaim us rest
unfolding reclaim
reclaim_past [] u t rest h = refl
reclaim_past (v ∷ us) u t rest h =
    ap (reclaim us) (erase_head u v t rest h.0) ∙ reclaim_past us u t (erase v rest) h.1

reclaim_first :
    (us : List Text) (u : Text) (t : TaskCtx) (rest : Registry)
    → lookup u rest ≡ none
    → reclaim (u ∷ us) ((u, t) ∷ rest) ≡ reclaim us rest
unfolding reclaim
reclaim_first us u t rest h = ap (reclaim us) (erase_here u t rest ∙ erase_absent u rest h)

reclaim_none : reclaim [] [] ≡ []
unfolding reclaim
reclaim_none = refl

reclaim-survivors :
    (now : ℤ) (tasks : Registry)
    → IsMap tasks
    → reclaim (to_reclaim now tasks) tasks ≡ survivors now tasks
unfolding to_reclaim survivors
reclaim-survivors now [] h = reclaim_none
reclaim-survivors now ((u, t) ∷ rest) h =
    let ih = reclaim-survivors now rest h.1 in
    elim (Bool-cases (is_reclaimed now t)) [
      | inl e ↦ rw e (reclaim_first (to_reclaim now rest) u t rest h.0 ∙ ih)
      | inr e ↦ rw e (
          reclaim_past (to_reclaim now rest) u t rest (to_reclaim-Absent now u rest h.0)
          ∙ ap (λ r. (u, t) ∷ r) ih)
    ]

keep : ℤ → Option TaskCtx → Option TaskCtx
keep now none = none
keep now (some t) = if is_reclaimed now t then none else some t

lookup-survivors :
    (now : ℤ) (u : Text) (tasks : Registry)
    → IsMap tasks
    → lookup u (survivors now tasks) ≡ keep now (lookup u tasks)
unfolding lookup survivors keep
lookup-survivors now u [] h = refl
lookup-survivors now u ((v, t) ∷ rest) (once, h) =
    let ih = lookup-survivors now u rest h in
    elim (Bool-cases (text_eq v u)) [
      | inl here ↦
          let gone : lookup u rest ≡ none =
            subst (λ x. lookup x rest ≡ none) (text_eq_sound v u here) once in
          elim (Bool-cases (is_reclaimed now t)) [
            | inl e ↦ rw (e, here, e) (ih ∙ ap (keep now) gone)
            | inr e ↦ rw (e, here, e) refl
          ]
      | inr apart ↦ elim (Bool-cases (is_reclaimed now t)) [
        | inl e ↦ rw (e, apart) ih
        | inr e ↦ rw (e, apart) ih
      ]
    ]

-- A transfer stays in the map: its thread runs; or nobody has asked for its deletion, and it has ended
-- less than four seconds ago, or has neither ended nor is to pause.
pub data Stays (now : ℤ) (t : TaskCtx) : Type 0 where
  runs : t.thread_done ≡ false → Stays now t
  is_shown :
      t.delete_req ≡ false
      → (is_completed t.status || is_error t.status) ≡ true
      → now <ℤ t.finished_at_ms +ℤ pos 4000
      → Stays now t
  is_wanted :
      t.delete_req ≡ false
      → (is_completed t.status || is_error t.status) ≡ false
      → t.pause_req ≡ false
      → Stays now t

late : (now ended : ℤ) → leb_ℤ (pos 4000) (now -ℤ ended) ≡ false → now <ℤ ended +ℤ pos 4000
late now ended h = grind int_laws

early : (now ended : ℤ) → now <ℤ ended +ℤ pos 4000 → leb_ℤ (pos 4000) (now -ℤ ended) ≡ false
early now ended h = grind int_laws

is_reclaimed-Stays : (now : ℤ) (t : TaskCtx) → is_reclaimed now t ≡ false → Stays now t
unfolding is_reclaimed
is_reclaimed-Stays now t h = elim (Bool-cases t.thread_done) [
  | inr e ↦ runs e
  | inl e ↦ elim (Bool-cases (is_completed t.status || is_error t.status)) [
    | inl ended ↦ is_shown (ground arith) ended (late now t.finished_at_ms (ground arith))
    | inr going ↦ is_wanted (ground arith) going (ground arith)
  ]
]

Stays-is_reclaimed : (now : ℤ) (t : TaskCtx) → Stays now t → is_reclaimed now t ≡ false
unfolding is_reclaimed
Stays-is_reclaimed now t (runs e) = ground arith
Stays-is_reclaimed now t (is_shown e f g) =
    let recent = early now t.finished_at_ms g in ground (arith, recent)
Stays-is_reclaimed now t (is_wanted e f g) = ground arith

kept_found :
    (now : ℤ) (o : Option TaskCtx) (t : TaskCtx) → keep now o ≡ some t → (o ≡ some t) × Stays now t
unfolding keep
kept_found now none t h = absurd (cc)
kept_found now (some v) t h = elim (Bool-cases (is_reclaimed now v)) [
  | inl e ↦ absurd (cc (rw e at h))
  | inr e ↦
      let same : v ≡ t = cc (rw e at h) in (ap some same, is_reclaimed-Stays now t (rw same at e))
]

found_kept : (now : ℤ) (t : TaskCtx) → is_reclaimed now t ≡ false → keep now (some t) ≡ some t
unfolding keep
found_kept now t h = rw h refl

-- In an engine that runs, and where each URL stands once in the map, a sweep leaves exactly the
-- transfers whose thread still runs, those that nobody has asked to delete and that ended less than
-- four seconds ago, and those that are neither deleted nor paused and have not ended: under a URL a
-- transfer is found after it if and only if it was found there before and is one of these.
pub sweep-Stays :
    (now : ℤ) (tasks : Registry)
    → IsMap tasks
    → (u : Text) (t : TaskCtx)
    → (lookup u (sweep true now tasks) ≡ some t) ↔ ((lookup u tasks ≡ some t) × Stays now t)
unfolding sweep
sweep-Stays now tasks h u t =
    let law : lookup u (sweep true now tasks) ≡ keep now (lookup u tasks) =
      ap (lookup u) (reclaim-survivors now tasks h) ∙ lookup-survivors now u tasks h in
    (
      λ found. kept_found now (lookup u tasks) t (sym law ∙ found),
      λ r. law ∙ ap (keep now) r.0 ∙ found_kept now t (Stays-is_reclaimed now t r.1),
    )
