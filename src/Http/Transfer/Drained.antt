-- ===== src/Http/Transfer/Drained.antt =====
-- That the loop of a transfer comes to an end.
use download_wrapper.Base.{
  ℕ, ◌≤◌, ◌<◌, ◌≡◌, ◌≢◌, refl, sym, subst, ap, ◌∙◌, Bool, true, false, List, [], ◌∷◌, length,
  get_or, if_intro, if◌then◌else◌, arith,
}
use download_wrapper.Base.Int.{ℤ, pos, leb_ℤ}
use download_wrapper.Text.{Text}
use download_wrapper.Http.Task.{TaskCtx, new_part_ctx}
use download_wrapper.Http.Header.{ctx_of}
use download_wrapper.Http.Write.{Disk}
use download_wrapper.Http.Probe.{Storage, SplitConfig}
use download_wrapper.Http.Result.Progress.{budget}
use download_wrapper.Http.Transfer.{
  Turn, Loop, Ending, settled, interrupted, waiting, noticed, spawn_new_parts, called, performed,
  emitted, handle_messages, turned, breaks, loop, first_loop, run_parts_multi,
}
use download_wrapper.Http.Transfer.Shape.{IsCalled, perform-Inv}
use download_wrapper.Http.Transfer.Spawned.{
  Ready, maybe_emit_resume-parts, spawn_new_parts-Ready, spawn_new_parts-probing, noticed-Inv,
}
use download_wrapper.Http.Transfer.Turned.{Answers}
use download_wrapper.Http.Transfer.Budget.{weight, role-budget, weight_mono}
use download_wrapper.Http.Transfer.Settled.{
  IsFair, IsFresh, Unless, unless, stops, carried_out, first_loop-Inv, turn-Ready,
}
use download_wrapper.Http.Transfer.Lowered.{
  perform-Calm, spawn_none, loop_weight, has_end, handle_messages-weight,
}

abbrev Ends : Loop × Ending → Type 0
Ends r = r.1 ≢ waiting

module _ (fs : Storage) (cfg : SplitConfig) (by_url : Text) (m : ℤ) where
  -- In each turn that is carried out at least one request ends.
  abbrev pub IsBusy : List Turn → Loop → Type 0
  IsBusy [] l = Unit
  IsBusy (turn ∷ turns) l = Unless (stops turn l) (
      (has_end turn.messages ≡ true)
      × IsBusy turns (turned m turn (performed fs cfg by_url turn l)))

  turn-weight :
      (turn : Turn) (l : Loop)
      → IsCalled l.live turn.callbacks
      → Answers m turn.messages (spawn_new_parts turn.builds (performed fs cfg by_url turn l))
      → Ready l
      → l.task.probing ≡ false
      → has_end turn.messages ≡ true
      → (loop_weight m (turned m turn (performed fs cfg by_url turn l)) < loop_weight m l)
        × ((turned m turn (performed fs cfg by_url turn l)).task.probing ≡ false)
  unfolding turned
  turn-weight turn l called answers r over busy =
      let n : Loop = record l { task = noticed turn.flags l.task } in
      let p = performed fs cfg by_url turn l in
      let (calm, same, live) = perform-Calm fs cfg by_url turn.callbacks n over in
      let none = spawn_none turn.builds p (same ∙ r.all ∙ sym calm.contexts) in
      let q = spawn_new_parts turn.builds p in
      let ready =
        spawn_new_parts-Ready turn.builds p
          (perform-Inv fs cfg by_url turn.callbacks n called (noticed-Inv turn.flags l r.inv)) in
      let before : loop_weight m q ≤ loop_weight m l = omega (
        arith,
        ap (loop_weight m) none,
        ap (weight m p.task) live,
        weight_mono m l.task p.task l.live
            (λ j. omega (arith, role-budget m (ctx_of p.task j) (ctx_of l.task j) (calm.roles j))),
      ) in
      let probed : q.task.probing ≡ false =
        ap (λ (k : Loop). k.task.probing) none ∙ calm.probing ∙ over in
      let (fewer, still) = handle_messages-weight m turn.messages q answers ready probed in
      let done = handle_messages m turn.messages q in
      let (x, y, z) = maybe_emit_resume-parts done.task in
      let after = weight_mono m done.task (emitted done).task done.live (λ j.
        subst (λ cs. budget m (get_or cs j (new_part_ctx j)) ≤ budget m (ctx_of done.task j))
          (sym y) (omega arith)) in
      (ground (arith, before, fewer, after, busy), z ∙ still)

  weight_none : (t : TaskCtx) (live : List ℕ) → weight m t live ≤ 0 → live ≡ []
  unfolding weight
  weight_none t [] h = refl
  weight_none t (i ∷ live) h = absurd (omega arith)

  loop-Drains :
      (turns : List Turn) (l : Loop)
      → IsFair fs cfg by_url m turns l
      → IsBusy turns l
      → Ready l
      → l.task.probing ≡ false
      → loop_weight m l ≤ length turns
      → (loop fs cfg by_url m turns l).1 ≢ waiting
  unfolding loop
  loop-Drains [] l f b r over h =
      let none_live = weight_none l.task l.live h in
      let idle : l.active ≡ pos 0 =
        r.inv.counted ∙ ap (λ (xs : List ℕ). pos (length xs)) none_live in
      rw idle (λ e. cc)
  loop-Drains (turn ∷ turns) l f b r over h =
      let l' = performed fs cfg by_url turn l in
      let next = turned m turn l' in
      let rest : Loop × Ending = loop fs cfg by_url m turns next in
      let broken : Loop × Ending = (record l { task = noticed turn.flags l.task }, interrupted) in
      let stopped : Loop × Ending = (l', interrupted) in
      if_intro Ends (leb_ℤ l.active (pos 0)) (l, settled)
        (if breaks turn.flags l.task then broken else if turn.performs then rest else stopped)
        (λ e k. cc)
        (λ e.
          if_intro Ends (breaks turn.flags l.task) broken (if turn.performs then rest else stopped)
            (λ p k. cc)
            (λ p.
              if_intro Ends turn.performs rest stopped
                (λ q.
                  let full = carried_out turn l e p q in
                  let f' = unless (stops turn l) _ f full in
                  let b' = unless (stops turn l) _ b full in
                  let (fewer, still) = turn-weight turn l f'.0 f'.1 r over b'.0 in
                  loop-Drains turns next f'.2 b'.1 (turn-Ready fs cfg by_url m turn l f'.0 f'.1 r)
                    still (omega (arith, fewer, h)))
                (λ q k. cc)))

  -- The loop of a transfer whose file is already divided does not wait for ever: where libcurl calls
  -- back, and ends requests, for handles that are there, where no thread asks to pause or to cancel
  -- while the ends are handled, and where in each turn that is carried out at least one request ends:
  -- it is over, for want of requests or broken off, within as many turns as there are requests, retries and ends of probe
  -- windows left at its start.
  pub run_parts_multi-Drains :
      (builds : ℕ → Bool) (turns : List Turn) (t : TaskCtx) (disk : Disk)
      → IsFresh t
      → t.probing ≡ false
      → IsFair fs cfg by_url m turns (spawn_new_parts builds (first_loop t disk))
      → IsBusy turns (spawn_new_parts builds (first_loop t disk))
      → loop_weight m (spawn_new_parts builds (first_loop t disk)) ≤ length turns
      → (run_parts_multi fs cfg by_url m builds turns t disk).1 ≢ waiting
  unfolding run_parts_multi
  run_parts_multi-Drains builds turns t disk fresh over fair busy enough =
      let l = first_loop t disk in
      loop-Drains turns (spawn_new_parts builds l) fair busy
        (spawn_new_parts-Ready builds l (first_loop-Inv t disk fresh))
        (spawn_new_parts-probing builds l ∙ over) enough
