-- ===== src/Http/Transfer/Settled.antt =====
-- What a transfer has come to when its loop ends because no request is left.
use download_wrapper.Base.{
  ℕ, suc, ◌<◌, ◌≡◌, refl, sym, subst, Bool, true, false, ◌||◌, not, List, [], ◌∷◌, length, All,
  get_or, if_intro, if◌then◌else◌, arith,
}
use download_wrapper.Base.Int.{ℤ, pos, ◌≤ℤ◌, leb_ℤ}
use download_wrapper.Api.{TaskStatus}
use download_wrapper.Text.{Text}
use download_wrapper.Http.Part.{Part, zero_part}
use download_wrapper.Http.Task.{TaskCtx, part_at}
use download_wrapper.Http.Header.{ctx_of}
use download_wrapper.Http.Write.{Disk}
use download_wrapper.Http.Probe.{Storage, SplitConfig}
use download_wrapper.Http.Result.Progress.{IsFinal}
use download_wrapper.Http.Transfer.{
  Turn, Loop, Ending, settled, interrupted, noticed, performed, breaks, spawn_new_parts, turned,
  loop, first_loop,
}
use download_wrapper.Http.Transfer.Shape.{is_live, Inv, IsCalled, perform-Inv}
use download_wrapper.Http.Transfer.Spawned.{noticed-Inv, Ready}
use download_wrapper.Http.Transfer.Turned.{Answers, turned-Ready}

-- No byte of the part is missing.
abbrev pub IsFull : Part → Type 0
IsFull p = p.size ≤ℤ p.done

-- Where a transfer may start: each part context belongs to the part at its place, a probe has one part,
-- and parts that are marked as completed are full.
pub record IsFresh (t : TaskCtx) : Type 0 where
  pub paired : length t.parts ≡ length t.part_ctx
  pub indexed : (j : ℕ) → (ctx_of t j).index ≡ j
  pub probed : t.probing ≡ true → length t.parts ≡ 1
  pub full : (j : ℕ) → (part_at t j).status ≡ TaskStatus.completed → IsFull (part_at t j)

pub first_loop-Inv : (t : TaskCtx) (disk : Disk) → IsFresh t → Inv (first_loop t disk)
unfolding is_live
first_loop-Inv t disk f = record {
  counted = refl;
  shape = record {
    paired = f.paired;
    indexed = f.indexed;
    reached = omega arith;
    within = λ j h. cc;
    probed = f.probed;
    full = λ j far. f.full j;
    final = λ j near. absurd (omega arith);
  };
}

-- Whether a turn is not carried out in full.
abbrev pub stops : Turn → Loop → Bool
stops turn l = leb_ℤ l.active (pos 0) || breaks turn.flags l.task || not turn.performs

abbrev pub Unless : Bool → Type 0 → Type 0
Unless true P = Unit
Unless false P = P

pub unless : (b : Bool) (P : Type 0) → Unless b P → b ≡ false → P
unless true P h e = absurd (cc)
unless false P h e = h

pub carried_out :
    (turn : Turn) (l : Loop)
    → leb_ℤ l.active (pos 0) ≡ false
    → breaks turn.flags l.task ≡ false
    → turn.performs ≡ true
    → stops turn l ≡ false
carried_out turn l a b c = rw (a, b, c) refl

-- What a loop that ended for want of requests has left.
abbrev pub Ended : Loop × Ending → Type 0
Ended (l, ending) = ending ≡ settled → Ready l × (leb_ℤ l.active (pos 0) ≡ true)

module _ (fs : Storage) (cfg : SplitConfig) (by_url : Text) (max_retries : ℤ) where
  -- While turns are carried out: libcurl calls back, and ends requests, only for parts that have a
  -- handle, and no thread asks to pause or to cancel while the ends are handled.
  abbrev pub IsFair : List Turn → Loop → Type 0
  IsFair [] l = Unit
  IsFair (turn ∷ turns) l = Unless (stops turn l) (
      IsCalled l.live turn.callbacks
      × Answers max_retries turn.messages
          (spawn_new_parts turn.builds (performed fs cfg by_url turn l))
      × IsFair turns (turned max_retries turn (performed fs cfg by_url turn l)))

  pub turn-Ready :
      (turn : Turn) (l : Loop)
      → IsCalled l.live turn.callbacks
      → Answers max_retries turn.messages
          (spawn_new_parts turn.builds (performed fs cfg by_url turn l))
      → Ready l
      → Ready (turned max_retries turn (performed fs cfg by_url turn l))
  turn-Ready turn l called answers r =
      turned-Ready max_retries turn (performed fs cfg by_url turn l)
        (perform-Inv fs cfg by_url turn.callbacks (record l { task = noticed turn.flags l.task })
          called (noticed-Inv turn.flags l r.inv))
        answers

  pub loop-Ended :
      (turns : List Turn) (l : Loop)
      → IsFair turns l
      → Ready l
      → Ended (loop fs cfg by_url max_retries turns l)
  unfolding loop
  loop-Ended [] l f r = λ e. (r, ground arith)
  loop-Ended (turn ∷ turns) l f r =
      let l' = performed fs cfg by_url turn l in
      let next = turned max_retries turn l' in
      let rest : Loop × Ending = loop fs cfg by_url max_retries turns next in
      let broken : Loop × Ending = (record l { task = noticed turn.flags l.task }, interrupted) in
      let done = leb_ℤ l.active (pos 0) in
      if_intro Ended done (l, settled)
        (if breaks turn.flags l.task
          then broken
          else if turn.performs
          then rest
          else (l', interrupted))
        (λ h e. (r, h))
        (λ h.
          if_intro Ended (breaks turn.flags l.task) broken _ (λ k e. cc)
            (λ k.
              if_intro Ended turn.performs rest (l', interrupted)
                (λ p.
                  let f' = unless (stops turn l) _ f (carried_out turn l h k p) in
                  loop-Ended turns next f'.2 (turn-Ready turn l f'.0 f'.1 r))
                (λ p e. cc)))

no_elements {ℓ} :
    {A : Type ℓ} (xs : List A) (n : ℤ) → n ≡ pos (length xs) → leb_ℤ n (pos 0) ≡ true → xs ≡ []
no_elements [] n e h = refl
no_elements (x ∷ xs) n e h = absurd (ground arith)

All-get_or :
    (P : Part → Type 0) (ps : List Part)
    → ((j : ℕ) → j < length ps → P (get_or ps j zero_part))
    → All P ps
All-get_or P [] h = tt
All-get_or P (p ∷ ps) h = (h 0 (omega arith), All-get_or P ps (λ j less. h (suc j) (omega arith)))

-- No handle is left, so all parts are final.
pub Ready-IsFinal : (l : Loop) → Ready l → leb_ℤ l.active (pos 0) ≡ true → All IsFinal l.task.parts
unfolding is_live
Ready-IsFinal l r h =
    let v = r.inv in
    let none_live = no_elements l.live l.active v.counted h in
    All-get_or IsFinal l.task.parts (λ j less.
      v.shape.final j (omega (arith, r.all, v.shape.paired))
        (subst (λ live. is_live j live ≡ false) (sym none_live) refl) refl)
