-- ===== src/Http/Transfer/Handled.antt =====
-- The invariant of the loop of `run_parts_multi` while one part is handled.
use download_wrapper.Base.{
  ℕ, suc, ◌<◌, ◌≡◌, refl, subst, Bool, true, false, List, [], ◌∷◌, length, Bool-cases,
  get_or-set_self, inl, inr, ◌==◌, arith,
}
use download_wrapper.Base.Int.{ℤ, pos, int_laws, eq_of_parts}
use download_wrapper.Api.{Reason}
use download_wrapper.Http.Part.{zero_part}
use download_wrapper.Http.Task.{TaskCtx, part_at, set_part, set_part_ctx}
use download_wrapper.Http.Header.{ctx_of}
use download_wrapper.Http.Request.{requested}
use download_wrapper.Http.Result.{error_part}
use download_wrapper.Http.Result.Progress.{IsFinal, in_error}
use download_wrapper.Http.Transfer.{Loop, drop_easy, add_part, count_up}
use download_wrapper.Http.Transfer.Own.{set_part-Own}
use download_wrapper.Http.Transfer.Shape.{
  is_live, Own-Apart, Shape, nowhere, only, Inv, Apart-Shape,
}
use download_wrapper.Http.Transfer.Judged.{set_part_ctx-Apart}

-- A part that is requested again has a handle.
pub request-Shape :
    (i : ℕ) (t : TaskCtx) (live : List ℕ) (spawned : ℕ)
    → Shape (only i) t live spawned
    → i < spawned
    → Shape nowhere (set_part_ctx t i (requested t (ctx_of t i))) (i ∷ live) spawned
unfolding is_live requested
request-Shape i t live spawned s low =
    let a =
      set_part_ctx-Apart i t (set_part_ctx t i (requested t (ctx_of t i))) _ refl refl refl refl in
    let s' = Apart-Shape (only i) i t _ live spawned s low (ground arith) a in
    record {
      paired = s'.paired;
      indexed = s'.indexed;
      reached = s'.reached;
      within = λ j h. elim (Bool-cases (i == j)) [
        | inl e ↦ ground arith
        | inr e ↦ s'.within j (ground arith)
      ];
      probed = s'.probed;
      full = s'.full;
      final = λ j near idle known. s'.final j near (ground arith) (ground arith);
    }

-- The part at hand is final, so it needs no handle.
pub close-Shape :
    (i : ℕ) (t : TaskCtx) (live : List ℕ) (spawned : ℕ)
    → Shape (only i) t live spawned
    → IsFinal (part_at t i)
    → Shape nowhere t live spawned
close-Shape i t live spawned s h = record {
  paired = s.paired;
  indexed = s.indexed;
  reached = s.reached;
  within = s.within;
  probed = s.probed;
  full = s.full;
  final = λ j near idle known. elim (Bool-cases (i == j)) [
    | inl e ↦ let same : i ≡ j = ground arith in subst (λ k. IsFinal (part_at t k)) same h
    | inr e ↦ s.final j near idle e
  ];
}

is_live-drop_easy :
    (i j : ℕ) (live : List ℕ) → is_live j (drop_easy i live) ≡ true → is_live j live ≡ true
unfolding is_live drop_easy
is_live-drop_easy i j [] h = h
is_live-drop_easy i j (k ∷ live) h = ground (arith, is_live-drop_easy i j live)

pub drop_easy_other :
    (i j : ℕ) (live : List ℕ)
    → only i j ≡ false
    → is_live j (drop_easy i live) ≡ false
    → is_live j live ≡ false
unfolding is_live drop_easy
drop_easy_other i j [] n h = h
drop_easy_other i j (k ∷ live) n h = ground (arith, drop_easy_other i j live)

pub length-drop_easy :
    (i : ℕ) (live : List ℕ) → is_live i live ≡ true → length live ≡ suc (length (drop_easy i live))
unfolding is_live drop_easy
length-drop_easy i [] h = cc
length-drop_easy i (k ∷ live) h = ground (arith, length-drop_easy i live)

-- A part that has no handle any more, and of which nothing is known yet.
pub open-Shape :
    (i : ℕ) (t : TaskCtx) (live : List ℕ) (spawned : ℕ)
    → Shape nowhere t live spawned
    → Shape (only i) t (drop_easy i live) spawned
open-Shape i t live spawned s = record {
  paired = s.paired;
  indexed = s.indexed;
  reached = s.reached;
  within = λ j h. s.within j (is_live-drop_easy i j live h);
  probed = s.probed;
  full = s.full;
  final = λ j near idle known. s.final j near (drop_easy_other i j live known idle) refl;
}

-- A part that was not asked for yet.
pub next-Shape :
    (t : TaskCtx) (live : List ℕ) (spawned : ℕ)
    → Shape nowhere t live spawned
    → spawned < length t.part_ctx
    → Shape (only spawned) t live (suc spawned)
next-Shape t live spawned s more = record {
  paired = s.paired;
  indexed = s.indexed;
  reached = omega arith;
  within = λ j h. omega (arith, s.within j h);
  probed = s.probed;
  full = λ j far e. s.full j (omega arith) e;
  final = λ j near idle known. s.final j (ground arith) idle refl;
}

-- What is known while one part is handled: the count of the others, and of this one if it is counted.
pub record Open (n : ℤ) (i : ℕ) (l : Loop) : Type 0 where
  pub count : l.active ≡ n
  pub low : i < l.spawned
  pub shape : Shape (only i) l.task l.live l.spawned

pub failed-Shape :
    (i : ℕ) (t : TaskCtx) (live : List ℕ) (spawned : ℕ) (r : Reason)
    → Shape (only i) t live spawned
    → i < spawned
    → Shape nowhere
        (set_part t (ctx_of t i).index (error_part (part_at t (ctx_of t i).index) r))
        live
        spawned
failed-Shape i t live spawned r s low =
    let at = s.indexed i in
    let p = error_part (part_at t i) r in
    let t' = set_part t i p in
    let s' =
      Apart-Shape (only i) i t t' live spawned s low (ground arith)
        (Own-Apart (set_part-Own i t t' p refl refl refl)) in
    rw at (
      close-Shape i t' live spawned s' (
        rw (get_or-set_self t.parts i p zero_part (omega (arith, s.paired, s.reached)))
          (in_error refl)))

-- A new part is asked for, or fails at once.
pub count_up-Inv :
    (builds : Bool) (i : ℕ) (l : Loop)
    → Open (pos (length l.live)) i l
    → Inv (count_up (add_part builds i l))
unfolding add_part
count_up-Inv true i l o = record {
  counted = rw o.count (eq_of_parts _ _ (omega int_laws));
  shape = request-Shape i l.task l.live l.spawned o.shape o.low;
}
count_up-Inv false i l o = record {
  counted = o.count;
  shape = failed-Shape i l.task l.live l.spawned Reason.general o.shape o.low;
}
