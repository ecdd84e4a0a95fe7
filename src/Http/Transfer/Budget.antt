-- ===== src/Http/Transfer/Budget.antt =====
-- What a transfer has left to ask for: for each handle its own request, the retries of its part, and
-- the end of its probe window.
use download_wrapper.Base.{
  ℕ, suc, ◌+◌, ◌≤◌, ◌<◌, ◌≡◌, ◌≢◌, refl, sym, subst, ap, Bool, true, false, List, [], ◌∷◌, length,
  get_or, get_or-set_self, get_or-set_ne, Bool-cases, ◌==◌, inl, inr, if◌then◌else◌, arith,
}
use download_wrapper.Base.Int.{ℤ, pos_part, ◌-ℤ◌}
use download_wrapper.Http.Task.{PartCtx, TaskCtx, set_part_ctx, new_part_ctx}
use download_wrapper.Http.Failure.{CurlCode}
use download_wrapper.Http.Header.{ctx_of}
use download_wrapper.Http.Request.{requested}
use download_wrapper.Http.Result.{handle_part_result}
use download_wrapper.Http.Result.Progress.{budget, handle_part_result-budget}
use download_wrapper.Http.Transfer.{drop_easy}
use download_wrapper.Http.Transfer.Own.{role}
use download_wrapper.Http.Transfer.Shape.{is_live}
use download_wrapper.Http.Transfer.Judged.{handle_part_result-Keeps}
use download_wrapper.Http.Transfer.Turned.{result-Apart}

unfoldable pub weight : ℤ → TaskCtx → List ℕ → ℕ
weight m t [] = 0
weight m t (i ∷ live) = suc (budget m (ctx_of t i)) + weight m t live

pub role-budget : (m : ℤ) (c d : PartCtx) → role c ≡ role d → budget m c ≡ budget m d
role-budget m c d e = ap (λ (r : ℕ × ℤ × Bool). pos_part (m -ℤ r.1) + (if r.2 then 1 else 0)) e

pub weight_mono :
    (m : ℤ) (t t' : TaskCtx) (live : List ℕ)
    → ((j : ℕ) → budget m (ctx_of t' j) ≤ budget m (ctx_of t j))
    → weight m t' live ≤ weight m t live
unfolding weight
weight_mono m t t' [] h = omega arith
weight_mono m t t' (i ∷ live) h = omega (arith, h i, weight_mono m t t' live h)

pub weight-drop_easy :
    (m : ℤ) (t : TaskCtx) (i : ℕ) (live : List ℕ)
    → is_live i live ≡ true
    → weight m t live ≡ suc (budget m (ctx_of t i)) + weight m t (drop_easy i live)
unfolding weight is_live drop_easy
weight-drop_easy m t i [] h = cc
weight-drop_easy m t i (k ∷ live) h = elim (Bool-cases (k == i)) [
  | inl e ↦ let same : k ≡ i = ground arith in rw (e, drop_easy) (rw same refl)
  | inr e ↦
      let rest = weight-drop_easy m t i live (ground arith) in
      rw (e, drop_easy) (omega (arith, rest))
]

-- A new request gives nothing back once the probe is over.
pub requested-budget :
    (m : ℤ) (t : TaskCtx) (i j : ℕ)
    → t.probing ≡ false
    → i < length t.part_ctx
    → budget m (ctx_of (set_part_ctx t i (requested t (ctx_of t i))) j) ≤ budget m (ctx_of t j)
unfolding requested
requested-budget m t i j over there = elim (Bool-cases (i == j)) [
  | inl e ↦
      let same : i ≡ j = ground arith in
      subst
        (λ k.
          budget m (ctx_of (set_part_ctx t i (requested t (ctx_of t i))) k) ≤ budget m (ctx_of t k))
        same
        (rw (get_or-set_self t.part_ctx i (requested t (ctx_of t i)) (new_part_ctx i) there)
          (rw over (omega arith)))
  | inr e ↦
      let apart : i ≢ j = λ same. ground arith in
      rw (get_or-set_ne t.part_ctx (requested t (ctx_of t i)) (new_part_ctx j) apart) (omega arith)
]

module _ (m : ℤ) (t : TaskCtx) (i : ℕ) (rc : CurlCode) (http_code : ℤ) (at : (ctx_of t i).index ≡ i)
    (there : i < length t.part_ctx) where
  abbrev result : TaskCtx × Bool
  result = handle_part_result m t (ctx_of t i) rc http_code

  pub result_falls : result.1 ≡ true → budget m (ctx_of result.0 i) < budget m (ctx_of t i)
  result_falls e =
      let c = ctx_of t i in
      subst (λ k. budget m (ctx_of result.0 k) < budget m c) at
        (handle_part_result-budget m t c (subst (λ k. k < length t.part_ctx) (sym at) there) rc
          http_code e)

  abbrev Falls : ℕ → Type 0
  Falls j = budget m (ctx_of result.0 j) ≤ budget m (ctx_of t j)

  pub result-budget : (j : ℕ) → budget m (ctx_of result.0 j) ≤ budget m (ctx_of t j)
  result-budget j = elim (Bool-cases (i == j)) [
    | inl e ↦
        let same : i ≡ j = ground arith in
        subst Falls same (elim (Bool-cases result.1) [
          | inl again ↦ let less = result_falls again in omega arith
          | inr once ↦
              let kept =
                handle_part_result-Keeps m t (ctx_of t i) (ap (λ k. (ctx_of t k).index) (sym at)) rc
                  http_code once in
              subst (λ cs. budget m (get_or cs i (new_part_ctx i)) ≤ budget m (ctx_of t i))
                (sym kept) (omega arith)
        ])
    | inr e ↦
        let apart : i ≢ j = λ same. ground arith in
        let a = result-Apart m t i rc http_code at in
        omega (arith, role-budget m (ctx_of result.0 j) (ctx_of t j) (a.roles j apart))
  ]
