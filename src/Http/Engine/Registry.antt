-- ===== src/Http/Engine/Registry.antt =====
-- What the operations of the engine do to the contexts.
use Prim.Native.String.{String}
use download_wrapper.Base.{
  ◌≡◌, ◌≢◌, refl, ◌∙◌, ◌⊎◌, inl, inr, Bool, true, false, ◌&&◌, not, Bool-cases, if_intro, Option,
  none, some, [], ◌∷◌, arith,
}
use download_wrapper.Api.{Reason}
use download_wrapper.Text.{Text, text_eq}
use download_wrapper.Http.Task.{TaskCtx, task_create_new}
use download_wrapper.Http.Engine.{
  Registry, lookup, erase, alter, Host, launched, restarted, deduplicated, validated,
  start_download, done, failure, resumed, validate_add_input, Answer,
}

text_eq_trans : (a b c : Text) → text_eq a b ≡ true → text_eq a c ≡ text_eq b c
unfolding text_eq
text_eq_trans [] [] c h = refl
text_eq_trans [] (y ∷ b) c h = absurd (cc)
text_eq_trans (x ∷ a) [] c h = absurd (cc)
text_eq_trans (x ∷ a) (y ∷ b) [] h = refl
text_eq_trans (x ∷ a) (y ∷ b) (z ∷ c) h = ground (arith, text_eq_trans a b c)

-- An erased URL is not found, and no other is lost.
lookup-erase_self : (url : Text) (tasks : Registry) → lookup url (erase url tasks) ≡ none
unfolding lookup erase
lookup-erase_self url [] = refl
lookup-erase_self url ((u, t) ∷ rest) = ground (arith, lookup-erase_self url rest)

lookup-erase_other :
    (url other : Text) (tasks : Registry)
    → text_eq url other ≡ false
    → lookup other (erase url tasks) ≡ lookup other tasks
unfolding lookup erase
lookup-erase_other url other [] h = refl
lookup-erase_other url other ((u, t) ∷ rest) h =
    ground (arith, lookup-erase_other url other rest h, text_eq_trans u url other)

lookup-alter_other :
    (url other : Text) (f : TaskCtx → TaskCtx) (tasks : Registry)
    → text_eq url other ≡ false
    → lookup other (alter url f tasks) ≡ lookup other tasks
unfolding lookup alter
lookup-alter_other url other f [] h = refl
lookup-alter_other url other f ((u, t) ∷ rest) h =
    ground (arith, lookup-alter_other url other f rest h, text_eq_trans u url other)

pub text_eq_self : (a : Text) → text_eq a a ≡ true
unfolding text_eq
text_eq_self [] = refl
text_eq_self (x ∷ a) = ground (arith, text_eq_self a)

-- Of an answer to `start_download`: the other transfers are as they were, and on success there is one
-- under the URL.
pub record Started (url : Text) (tasks : Registry) (r : Answer × Registry) : Type 0 where
  pub others : (other : Text) → (text_eq url other ≡ true) ⊎ (lookup other r.1 ≡ lookup other tasks)
  pub present : (r.0.code ≢ Reason.success) ⊎ ((t : TaskCtx) × (lookup url r.1 ≡ some t))

module _ (url : Text) where
  -- Nothing but the entry of the URL differs.
  abbrev Others : Registry → Registry → Type 0
  Others before after =
      (other : Text) → (text_eq url other ≡ true) ⊎ (lookup other after ≡ lookup other before)

  Others-refl : (tasks : Registry) → Others tasks tasks
  Others-refl tasks other = inr refl

  Others-erase : (tasks : Registry) → Others tasks (erase url tasks)
  Others-erase tasks other = elim (Bool-cases (text_eq url other)) [
    | inl e ↦ inl e
    | inr e ↦ inr (lookup-erase_other url other tasks e)
  ]

  Others-add : (t : TaskCtx) (tasks : Registry) → Others tasks ((url, t) ∷ tasks)
  unfolding lookup
  Others-add t tasks other = elim (Bool-cases (text_eq url other)) [
    | inl e ↦ inl e
    | inr e ↦ inr (rw e refl)
  ]

  found_added : (t : TaskCtx) (tasks : Registry) → lookup url ((url, t) ∷ tasks) ≡ some t
  unfolding lookup
  found_added t tasks = rw (text_eq_self url) refl

  Others-trans : (a b c : Registry) → Others a b → Others b c → Others a c
  Others-trans a b c h k other = elim (h other) [
    | inl e ↦ inl e
    | inr e ↦ elim (k other) [ inl f ↦ inl f | inr f ↦ inr (f ∙ e) ]
  ]

  kept : (tasks : Registry) (m : String) → Started url tasks (failure Reason.general m, tasks)
  kept tasks m = record { others = Others-refl tasks; present = inl (λ e. cc) }

  launched-Started :
      (h : Host) (replace_record : Bool) (t : TaskCtx) (tasks before : Registry)
      → Others before tasks
      → Started url before (launched h replace_record url t tasks)
  unfolding launched
  launched-Started h replace_record t tasks before same =
      if_intro (Started url before) (replace_record && not h.replace_task)
        (failure Reason.general "HTTP 任务持久化失败", tasks) (done, (url, t) ∷ tasks)
        (λ e. record { others = same; present = inl (λ e. cc) })
        (λ e. record {
          others = Others-trans before tasks ((url, t) ∷ tasks) same (Others-add t tasks);
          present = inr (t, found_added t tasks);
        })

  restarted-Started :
      (h : Host) (replace_record : Bool) (save_path resume_data : Text) (tasks before : Registry)
      → Others before tasks
      → Started url before (restarted h replace_record url save_path resume_data tasks)
  unfolding restarted
  restarted-Started h replace_record save_path resume_data tasks before same =
      if_intro (Started url before) (h.mkdir_recursive save_path)
        (launched h replace_record url
          (resumed h resume_data (task_create_new url h.client_id save_path)) tasks)
        (failure Reason.general "目录创建失败", tasks)
        (λ e. launched-Started h replace_record _ tasks before same)
        (λ e. record { others = same; present = inl (λ e. cc) })

  deduplicated-Started :
      (h : Host) (replace_record : Bool) (save_path resume_data : Text) (tasks : Registry)
      (o : Option TaskCtx)
      → lookup url tasks ≡ o
      → Started url tasks (deduplicated h replace_record url save_path resume_data tasks o)
  unfolding deduplicated
  deduplicated-Started h replace_record save_path resume_data tasks none e =
      restarted-Started h replace_record save_path resume_data tasks tasks (Others-refl tasks)
  deduplicated-Started h replace_record save_path resume_data tasks (some t) e =
      if_intro (Started url tasks) (not t.thread_done && not t.delete_req) (done, tasks)
        (restarted h replace_record url save_path resume_data (erase url tasks))
        (λ goes_on. record { others = Others-refl tasks; present = inr (t, e) })
        (λ over.
          restarted-Started h replace_record save_path resume_data (erase url tasks) tasks
            (Others-erase tasks))

  validated-Started :
      (h : Host) (replace_record : Bool) (save_path resume_data : Text) (tasks : Registry)
      (o : Option String)
      → Started url tasks (validated h replace_record url save_path resume_data tasks o)
  unfolding validated
  validated-Started h replace_record save_path resume_data tasks (some err) = kept tasks err
  validated-Started h replace_record save_path resume_data tasks none = ground (
    arith,
    kept tasks "HTTP 引擎未启动",
    kept tasks "HTTP 任务正在删除",
    deduplicated-Started h replace_record save_path resume_data tasks (lookup url tasks) refl,
  )

  -- Whatever happens, starting a download leaves the transfers under other URLs as they were. If it
  -- reports success, there is a transfer under its URL.
  pub start_download-Started :
      (h : Host) (replace_record : Bool) (save_path resume_data : Text) (tasks : Registry)
      → Started url tasks (start_download h replace_record url save_path resume_data tasks)
  unfolding start_download
  start_download-Started h replace_record save_path resume_data tasks = ground (
    arith,
    kept tasks "ensure_running failed",
    validated-Started h replace_record save_path resume_data tasks
        (validate_add_input url save_path),
  )
