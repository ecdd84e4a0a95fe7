-- ===== src/Http/Transfer/Probed.antt =====
-- What `finalize_probing` makes of a task with its one part: each part context belongs to the part at
-- its place, and all parts but the first are still to be asked for.
use Prim.Native.String.{String}
use download_wrapper.Base.{
  ℕ, zero, suc, ◌+◌, ◌<◌, ◌≡◌, refl, sym, ap, ◌∙◌, Bool, true, false, Option, none, some, List, [],
  ◌∷◌, length, get_or, map, if_intro, if◌then◌else◌, arith,
}
use download_wrapper.Base.Int.{ℤ, pos, eqb_ℤ, ltb_ℤ}
use download_wrapper.Api.{TaskStatus}
use download_wrapper.Text.{Text}
use download_wrapper.Http.Part.{Part, zero_part}
use download_wrapper.Http.Task.{PartCtx, TaskCtx, part_at, new_part_ctx, failed}
use download_wrapper.Http.Split.{
  wanted_parts, first_size, adjusted_parts, next_part, next_parts, laid_out, split,
}
use download_wrapper.Http.Header.{ctx_of}
use download_wrapper.Http.Probe.{
  Storage, SplitConfig, put_parts, whole_first, storage_failed, divided, created, finalize_probing,
}

pub record Divided (t : TaskCtx) : Type 0 where
  pub probing : t.probing ≡ false
  pub paired : length t.parts ≡ length t.part_ctx
  pub some_part : 0 < length t.part_ctx
  pub indexed : (j : ℕ) → (ctx_of t j).index ≡ j
  pub running : (j : ℕ) → (part_at t (suc j)).status ≡ TaskStatus.downloading

-- The part contexts of new parts.
abbrev contexts : List Part → List PartCtx
contexts = map (λ (q : Part). new_part_ctx q.index)

length-contexts : (ps : List Part) → length (contexts ps) ≡ length ps
length-contexts [] = refl
length-contexts (p ∷ ps) = ap suc (length-contexts ps)

module _ (size0 chunk want total : ℤ) where
  next_parts-index :
      (rounds i j k : ℕ)
      → k ≡ i + j
      → (get_or (contexts (next_parts rounds size0 chunk want total i)) j (new_part_ctx k)).index
        ≡ k
  unfolding next_parts next_part
  next_parts-index zero i j k e = refl
  next_parts-index (suc rounds) i zero k e = omega arith
  next_parts-index (suc rounds) i (suc j) k e = next_parts-index rounds (suc i) j k (omega arith)

  next_parts-running :
      (rounds i j : ℕ)
      → (get_or (next_parts rounds size0 chunk want total i) j zero_part).status
        ≡ TaskStatus.downloading
  unfolding next_parts next_part
  next_parts-running zero i j = refl
  next_parts-running (suc rounds) i zero = refl
  next_parts-running (suc rounds) i (suc j) = next_parts-running rounds (suc i) j

one_element {ℓ} : {A : Type ℓ} (xs : List A) → length xs ≡ 1 → (x : A) × (xs ≡ x ∷ [])
one_element [] h = absurd (omega arith)
one_element (x ∷ []) h = (x, refl)
one_element (x ∷ y ∷ xs) h = absurd (omega arith)

-- The contexts of a list are indexed if the first is and the others are.
indexed-cons :
    (c : PartCtx) (cs : List PartCtx)
    → c.index ≡ 0
    → ((j : ℕ) → (get_or cs j (new_part_ctx (suc j))).index ≡ suc j)
    → (j : ℕ) → (get_or (c ∷ cs) j (new_part_ctx j)).index ≡ j
indexed-cons c cs h k zero = h
indexed-cons c cs h k (suc j) = k j

-- The state before the division: one part with its context.
pub record Single (t : TaskCtx) : Type 0 where
  pub parts : length t.parts ≡ 1
  pub contexts : length t.part_ctx ≡ 1
  pub indexed : (ctx_of t 0).index ≡ 0

module _ (t : TaskCtx) (single : Single t) (over : t.probing ≡ false) where
  -- The division fails, and the part stays.
  same-Divided :
      (t' : TaskCtx)
      → length t'.parts ≡ 1
      → t'.part_ctx ≡ t.part_ctx
      → t'.probing ≡ false
      → Divided t'
  same-Divided t' a b c =
      let (p, whole) = one_element t'.parts a in
      let (d, only) = one_element t.part_ctx single.contexts in
      let here : d.index ≡ 0 =
        ap (λ cs. (get_or cs 0 (new_part_ctx 0)).index) (sym only) ∙ single.indexed in
      record {
        probing = c;
        paired = rw (b, single.contexts) a;
        some_part = rw (b, only) (omega arith);
        indexed = λ j. rw (b, only) (indexed-cons d [] here (λ k. refl) j);
        running = λ j. rw whole refl;
      }

  put_parts-Divided : (want size0 total : ℤ) → Divided (put_parts t (laid_out want size0 total))
  unfolding laid_out
  put_parts-Divided want size0 total =
      let (p, whole) = one_element t.parts single.parts in
      let (d, only) = one_element t.part_ctx single.contexts in
      let here : d.index ≡ 0 =
        ap (λ cs. (get_or cs 0 (new_part_ctx 0)).index) (sym only) ∙ single.indexed in
      record {
        probing = over;
        paired = rw (whole, only) (ap suc (sym (length-contexts _)));
        some_part = rw only (omega arith);
        indexed = λ j. rw only (
            indexed-cons _ _ here
              (λ k. next_parts-index size0 _ want total _ 1 k (suc k) (omega arith)) j);
        running = λ j. rw whole (next_parts-running size0 _ want total _ 1 j);
      }

length-whole_first : (ps : List Part) (total : ℤ) → length (whole_first ps total) ≡ length ps
length-whole_first [] total = refl
length-whole_first (p ∷ ps) total = refl

divided-Divided :
    (cfg : SplitConfig) (code : ℤ) (t : TaskCtx)
    → Single t
    → t.probing ≡ false
    → Divided (divided cfg code t)
unfolding divided split
divided-Divided cfg code t single over =
    let total = t.total_size in
    let wanted = wanted_parts cfg.min_size_for_split cfg.default_parts total in
    let u : TaskCtx = record t { support_range = true } in
    let v : TaskCtx = record t { support_range = false; parts = whole_first t.parts total } in
    if_intro Divided (eqb_ℤ code (pos 206))
      (put_parts u (split cfg.min_size_for_split cfg.default_parts total)) v
      (λ e.
        put_parts-Divided u
          (record { parts = single.parts; contexts = single.contexts; indexed = single.indexed })
          over (adjusted_parts wanted (first_size wanted total) total) _ total)
      (λ e.
        same-Divided t single over v (length-whole_first t.parts total ∙ single.parts) refl over)

failed-Divided : (t : TaskCtx) (m : String) → Single t → t.probing ≡ false → Divided (failed t m)
failed-Divided t m single over = same-Divided t single over (failed t m) single.parts refl over

-- After an answer of the file system: an error, or the next step.
answered-Divided :
    (answer : Option Bool) (t u : TaskCtx)
    → Single t
    → t.probing ≡ false
    → Divided u
    → Divided (elim answer [ some no_space ↦ storage_failed t no_space | none ↦ u ])
answered-Divided none t u single over h = h
answered-Divided (some no_space) t u single over h = failed-Divided t _ single over

created-Divided :
    (fs : Storage) (cfg : SplitConfig) (code : ℤ) (dir : Text) (t : TaskCtx)
    → Single t
    → t.probing ≡ false
    → Divided (created fs cfg code dir t)
unfolding created
created-Divided fs cfg code dir t single over =
    let grown = if ltb_ℤ (pos 0) t.total_size then fs.truncate_error t.total_size else none in
    let v : TaskCtx = elim grown [
      | some no_space ↦ storage_failed t no_space
      | none ↦ divided cfg code t
    ] in
    let u : TaskCtx = elim fs.open_error [ some no_space ↦ storage_failed t no_space | none ↦ v ] in
    if_intro Divided (fs.mkdir_recursive dir) u (failed t "目录创建失败")
      (λ e. answered-Divided fs.open_error t v single over (
        answered-Divided grown t (divided cfg code t) single over
          (divided-Divided cfg code t single over)))
      (λ e. failed-Divided t _ single over)

pub finalize_probing-Divided :
    (fs : Storage) (cfg : SplitConfig) (by_url : Text) (t : TaskCtx) (c : PartCtx)
    → Single t
    → Divided (finalize_probing fs cfg by_url t c)
unfolding finalize_probing
finalize_probing-Divided fs cfg by_url t c single =
    created-Divided fs cfg c.seen_http_code _ _
      (record { parts = single.parts; contexts = single.contexts; indexed = single.indexed }) refl
