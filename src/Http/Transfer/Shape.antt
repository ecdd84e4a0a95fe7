-- ===== src/Http/Transfer/Shape.antt =====
-- The invariant of the loop of `run_parts_multi`: each part that was asked for has a handle or is
-- final.
use download_wrapper.Base.{
  ℕ, zero, suc, ◌≤◌, ◌<◌, ◌≡◌, ◌≢◌, refl, sym, subst, ap, ◌∙◌, Bool, true, false, ◌||◌, List, [],
  ◌∷◌, length, All, if_intro, ◌==◌, arith,
}
use download_wrapper.Base.Int.{pos, ◌≤ℤ◌}
use download_wrapper.Api.{TaskStatus, is_error}
use download_wrapper.Text.{Text}
use download_wrapper.Http.Task.{TaskCtx, part_at}
use download_wrapper.Http.Header.{ctx_of}
use download_wrapper.Http.Write.{Disk, WriteAnswer, is_stopped, received, write_part, write_cb}
use download_wrapper.Http.Probe.{Storage, SplitConfig, finalize_probing}
use download_wrapper.Http.Result.Progress.{IsFinal}
use download_wrapper.Http.Transfer.{Callback, header_line, body, Loop, called, perform}
use download_wrapper.Http.Transfer.Own.{Own, role, header_cb-Own, write_part-Own}
use download_wrapper.Http.Transfer.Probed.{Single, Divided, finalize_probing-Divided}

-- Whether a part has a handle.
unfoldable pub is_live : ℕ → List ℕ → Bool
is_live i [] = false
is_live i (j ∷ live) = j == i || is_live i live

-- What the end of a request leaves alone: the other parts and their contexts.
pub record Apart (i : ℕ) (t t' : TaskCtx) : Type 0 where
  pub parts : length t'.parts ≡ length t.parts
  pub contexts : length t'.part_ctx ≡ length t.part_ctx
  pub others : (j : ℕ) → i ≢ j → part_at t' j ≡ part_at t j
  pub indexed : (j : ℕ) → (ctx_of t' j).index ≡ (ctx_of t j).index
  pub roles : (j : ℕ) → i ≢ j → role (ctx_of t' j) ≡ role (ctx_of t j)
  pub probing : t'.probing ≡ t.probing

pub Own-Apart : {i : ℕ} {t t' : TaskCtx} → Own i t t' → Apart i t t'
Own-Apart o = record {
  parts = o.parts;
  contexts = o.contexts;
  others = o.others;
  indexed = λ j. ap (λ r. r.0) (o.roles j);
  roles = λ j n. o.roles j;
  probing = o.probing;
}

-- The invariant but for the count; `free` are parts of which nothing is known.
pub record Shape (free : ℕ → Bool) (t : TaskCtx) (live : List ℕ) (spawned : ℕ) : Type 0 where
  pub paired : length t.parts ≡ length t.part_ctx
  pub indexed : (j : ℕ) → (ctx_of t j).index ≡ j
  pub reached : spawned ≤ length t.part_ctx
  pub within : (j : ℕ) → is_live j live ≡ true → j < spawned
  pub probed : t.probing ≡ true → length t.parts ≡ 1
  pub full :
      (j : ℕ)
      → spawned ≤ j
      → (part_at t j).status ≡ TaskStatus.completed
      → (part_at t j).size ≤ℤ (part_at t j).done
  pub final :
      (j : ℕ) → j < spawned → is_live j live ≡ false → free j ≡ false → IsFinal (part_at t j)

abbrev pub nowhere : ℕ → Bool
nowhere j = false

abbrev pub only : ℕ → ℕ → Bool
only i j = i == j

-- The invariant.
pub record Inv (l : Loop) : Type 0 where
  pub counted : l.active ≡ pos (length l.live)
  pub shape : Shape nowhere l.task l.live l.spawned

-- A change to a part that has a handle or of which nothing is known.
pub Apart-Shape :
    (free : ℕ → Bool) (i : ℕ) (t t' : TaskCtx) (live : List ℕ) (spawned : ℕ)
    → Shape free t live spawned
    → i < spawned
    → (is_live i live || free i) ≡ true
    → Apart i t t'
    → Shape free t' live spawned
Apart-Shape free i t t' live spawned s low at a = record {
  paired = a.parts ∙ s.paired ∙ sym a.contexts;
  indexed = λ j. a.indexed j ∙ s.indexed j;
  reached = omega (arith, s.reached, a.contexts);
  within = s.within;
  probed = λ e. a.parts ∙ s.probed (sym a.probing ∙ e);
  full = λ j far done.
      let e = a.others j (λ same. absurd (omega arith)) in
      rw e (s.full j far (ap (λ p. p.status) (sym e) ∙ done));
  final = λ j near idle known.
      let apart : i ≢ j =
        λ same. let at' = subst (λ k. (is_live k live || free k) ≡ true) same at in ground arith in
      rw (a.others j apart) (s.final j near idle known);
}

divided-full :
    (t : TaskCtx)
    → Divided t
    → (j : ℕ) → 0 < j
    → (part_at t j).status ≡ TaskStatus.completed
    → (part_at t j).size ≤ℤ (part_at t j).done
divided-full t d zero h e = absurd (omega arith)
divided-full t d (suc k) h e =
    let clash : TaskStatus.completed ≡ TaskStatus.downloading = sym e ∙ d.running k in cc

-- The division of the file, while the one part has a handle.
Divided-Shape :
    (i : ℕ) (t t' : TaskCtx) (live : List ℕ) (spawned : ℕ)
    → Shape nowhere t live spawned
    → is_live i live ≡ true
    → t.probing ≡ true
    → Divided t'
    → Shape nowhere t' live spawned
Divided-Shape i t t' live spawned s at probing d =
    let low = s.within i at in
    let single = s.probed probing in
    let one : spawned ≡ 1 = omega (arith, s.reached, s.paired) in
    let first : i ≡ 0 = omega arith in
    record {
      paired = d.paired;
      indexed = d.indexed;
      reached = omega (arith, d.some_part);
      within = s.within;
      probed = λ e. cc (d.probing);
      full = λ j far e. divided-full t' d j (omega arith) e;
      final = λ j near idle known.
          let same : i ≡ j = omega arith in
          let at' = subst (λ k. is_live k live ≡ true) same at in cc;
    }

Single-Shape :
    (t : TaskCtx) (live : List ℕ) (spawned : ℕ)
    → Shape nowhere t live spawned
    → t.probing ≡ true
    → Single t
Single-Shape t live spawned s probing = record {
  parts = s.probed probing;
  contexts = sym s.paired ∙ s.probed probing;
  indexed = s.indexed 0;
}

abbrev pub callee : Callback → ℕ
callee (header_line i buffer) = i
callee (body i answer bytes) = i

-- The calls are for parts that have a handle.
abbrev pub IsCalled : List ℕ → List Callback → Type 0
IsCalled live = All (λ c. is_live (callee c) live ≡ true)

module _ (fs : Storage) (cfg : SplitConfig) (by_url : Text) where
  module _ (i : ℕ) (live : List ℕ) (spawned : ℕ) (at : is_live i live ≡ true) where
    Own-Shape :
        (t t' : TaskCtx) → Shape nowhere t live spawned → Own i t t' → Shape nowhere t' live spawned
    Own-Shape t t' s o =
        Apart-Shape nowhere i t t' live spawned s (s.within i at) (rw at refl) (Own-Apart o)

    received-Shape :
        (stop probing : Bool) (answer : WriteAnswer) (t : TaskCtx) (disk : Disk) (bytes : Text)
        → Shape nowhere t live spawned
        → t.probing ≡ probing
        → Shape nowhere
            (received stop probing
              (λ u. finalize_probing fs cfg by_url u (ctx_of u i))
              answer
              t
              i
              disk
              bytes).1
            live
            spawned
    unfolding received
    received-Shape true probing answer t disk bytes s e = s
    received-Shape false false answer t disk bytes s e =
        Own-Shape t _ s (write_part-Own i t answer disk bytes)
    received-Shape false true answer t disk bytes s e =
        let u = finalize_probing fs cfg by_url t (ctx_of t i) in
        let d =
          finalize_probing-Divided fs cfg by_url t (ctx_of t i) (Single-Shape t live spawned s e) in
        let s' = Divided-Shape i t u live spawned s at e d in
        if_intro (λ (r : ℕ × TaskCtx × Disk). Shape nowhere r.1 live spawned) (is_error u.status)
          (0, u, disk) (write_part answer u i disk bytes) (λ h. s')
          (λ h. Own-Shape u _ s' (write_part-Own i u answer disk bytes))

  called-Shape :
      (c : Callback) (l : Loop)
      → is_live (callee c) l.live ≡ true
      → Shape nowhere l.task l.live l.spawned
      → Shape nowhere (called fs cfg by_url c l).task l.live l.spawned
  unfolding called write_cb
  called-Shape (header_line i buffer) l at s =
      Own-Shape i l.live l.spawned at l.task _ s (header_cb-Own i l.task buffer)
  called-Shape (body i answer bytes) l at s =
      received-Shape i l.live l.spawned at (is_stopped l.task bytes) l.task.probing answer l.task
        l.disk bytes s refl

  called-Inv :
      (c : Callback) (l : Loop)
      → is_live (callee c) l.live ≡ true
      → Inv l
      → Inv (called fs cfg by_url c l)
  unfolding called
  called-Inv (header_line i buffer) l at v = record {
    counted = v.counted;
    shape = called-Shape (header_line i buffer) l at v.shape;
  }
  called-Inv (body i answer bytes) l at v = record {
    counted = v.counted;
    shape = called-Shape (body i answer bytes) l at v.shape;
  }

  pub called-live : (c : Callback) (l : Loop) → (called fs cfg by_url c l).live ≡ l.live
  unfolding called
  called-live (header_line i buffer) l = refl
  called-live (body i answer bytes) l = refl

  pub perform-Inv :
      (cs : List Callback) (l : Loop)
      → IsCalled l.live cs
      → Inv l
      → Inv (perform fs cfg by_url cs l)
  unfolding perform
  perform-Inv [] l h v = v
  perform-Inv (c ∷ cs) l h v =
      perform-Inv cs (called fs cfg by_url c l)
        (subst (λ live. IsCalled live cs) (sym (called-live c l)) h.1) (called-Inv c l h.0 v)
