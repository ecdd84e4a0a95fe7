-- ===== src/Http/Complete/Whole.antt =====
-- What full parts amount to.
use download_wrapper.Base.{
  ℕ, ℕ_discrete, ◌≤◌, ◌<◌, ◌≡◌, ◌≢◌, refl, sym, subst, ap, ◌∙◌, ◌⊎◌, inl, inr, Bool, true, false,
  List, [], ◌∷◌, length, arith,
}
use download_wrapper.Base.Int.{ℤ, pos, pos_part, neg_part, ◌+ℤ◌, ◌≤ℤ◌, ◌<ℤ◌, int_laws}
use download_wrapper.Text.{Text}
use download_wrapper.Http.Part.{Part}
use download_wrapper.Http.Task.{TaskCtx, part_at}
use download_wrapper.Http.Split.{split}
use download_wrapper.Http.Split.Tiling.{Tiles, split-Tiles}
use download_wrapper.Http.Write.{Disk, WriteAnswer, write_cb, received, is_stopped}
use download_wrapper.Http.Write.Content.{Serves, Holds, InBounds, Took, write_cb-Stored}
use download_wrapper.Http.Complete.{Call, write_all, IsGenuine}
use download_wrapper.Http.Complete.Layout.{part_of, Tiles-size, Tiles-done, Tiles-apart, Tiles-find}
use download_wrapper.Http.Transfer.Own.{Own, same-Own, write_part-Own}

order : (i j : ℕ) → i ≢ j → (i < j) ⊎ (j < i)
order i j ne = omega arith

same_or_not : (i j : ℕ) → (i ≡ j) ⊎ (i ≢ j)
same_or_not i j = elim (ℕ_discrete i j) [ yes e ↦ inl e | no n ↦ inr n ]

received-Own :
    (stop : Bool) (probe : TaskCtx → TaskCtx) (answer : WriteAnswer) (t : TaskCtx) (i : ℕ)
    (disk : Disk) (bytes : Text)
    → Own i t (received stop false probe answer t i disk bytes).1
unfolding received
received-Own true probe answer t i disk bytes = same-Own i t t refl refl refl
received-Own false probe answer t i disk bytes = write_part-Own i t answer disk bytes

write_cb-Own :
    (probe : TaskCtx → TaskCtx) (answer : WriteAnswer) (t : TaskCtx) (i : ℕ) (disk : Disk)
    (bytes : Text)
    → t.probing ≡ false
    → Own i t (write_cb probe answer t i disk bytes).1
unfolding write_cb
write_cb-Own probe answer t i disk bytes over =
    subst (λ b. Own i t (received (is_stopped t bytes) b probe answer t i disk bytes).1) (sym over)
      (received-Own (is_stopped t bytes) probe answer t i disk bytes)

module _ (source : ℤ → ℕ) (total : ℕ) (layout : List Part) (tiles : Tiles 0 layout total) where
  -- A part stands where the layout has it, and holds true content as far as it has come.
  record Stands (disk : Disk) (p q : Part) : Type 0 where
    start : p.start ≡ q.start
    size : p.size ≡ q.size
    fits : InBounds p
    holds : Holds source disk p

  record Kept (t : TaskCtx) (disk : Disk) : Type 0 where
    over : t.probing ≡ false
    parts : length t.parts ≡ length layout
    stands : (j : ℕ) → j < length layout → Stands disk (part_at t j) (part_of layout j)

  starts :
      {disk : Disk} {p q : Part}
      → Stands disk p q
      → (pos_part p.start ≡ pos_part q.start) × (neg_part p.start ≡ neg_part q.start)
  starts s = (ap pos_part s.start, ap neg_part s.start)

  sizes :
      {disk : Disk} {p q : Part}
      → Stands disk p q
      → (pos_part p.size ≡ pos_part q.size) × (neg_part p.size ≡ neg_part q.size)
  sizes s = (ap pos_part s.size, ap neg_part s.size)

  -- What a call for part `i` touches is not what part `j` holds.
  untouched :
      (i j m : ℕ) (p q : Part) (disk disk' : Disk)
      → i ≢ j
      → i < length layout
      → j < length layout
      → Stands disk p (part_of layout i)
      → Stands disk q (part_of layout j)
      → (pos 0 <ℤ p.size → p.done +ℤ pos m ≤ℤ p.size)
      → ((k : ℤ) → (k <ℤ p.start +ℤ p.done) ⊎ (p.start +ℤ p.done +ℤ pos m ≤ℤ k) → disk' k ≡ disk k)
      → Stands disk' q (part_of layout j)
  untouched i j m p q disk disk' ne li lj a b room same = record {
    start = b.start;
    size = b.size;
    fits = b.fits;
    holds = λ k lo hi. same k (away k lo hi) ∙ b.holds k lo hi;
  }
    where
      away :
          (k : ℤ)
          → q.start ≤ℤ k
          → k <ℤ q.start +ℤ q.done
          → (k <ℤ p.start +ℤ p.done) ⊎ (p.start +ℤ p.done +ℤ pos m ≤ℤ k)
      away k lo hi = elim (order i j ne) [
        | inl lt ↦
            let apart = Tiles-apart 0 layout total i j tiles lt lj in
            let full = room (rw a.size (Tiles-size 0 layout total i tiles li)) in
            inr (omega (int_laws, apart, full, sizes a, starts a, starts b))
        | inr gt ↦
            let apart = Tiles-apart 0 layout total j i tiles gt li in
            let full = b.fits.1 (rw b.size (Tiles-size 0 layout total j tiles lj)) in
            inl (omega (int_laws, apart, full, a.fits.0, sizes b, starts a, starts b))
      ]

  call-Kept :
      (probe : TaskCtx → TaskCtx) (answer : WriteAnswer) (t : TaskCtx) (i : ℕ) (disk : Disk)
      (bytes : Text)
      → i < length t.parts
      → Serves source bytes ((part_at t i).start +ℤ (part_at t i).done)
      → Kept t disk
      → Kept (write_cb probe answer t i disk bytes).1 (write_cb probe answer t i disk bytes).2
  call-Kept probe answer t i disk bytes there serves kept =
      let li : i < length layout = subst (λ n. i < n) kept.parts there in
      let here = kept.stands i li in
      let own = write_cb-Own probe answer t i disk bytes kept.over in
      let took : Took source t i disk bytes (write_cb probe answer t i disk bytes) =
        write_cb-Stored source t i disk bytes there here.holds here.fits serves probe answer
          kept.over in
      record {
        over = own.probing ∙ kept.over;
        parts = own.parts ∙ kept.parts;
        stands = λ j lj. elim (same_or_not i j) [
          | inl e ↦
              subst
                (λ n.
                  Stands (write_cb probe answer t i disk bytes).2
                    (part_at (write_cb probe answer t i disk bytes).1 n) (part_of layout n))
                e
                (record {
                  start = took.stored.start ∙ here.start;
                  size = took.stored.size ∙ here.size;
                  fits = took.stored.bounded;
                  holds = took.stored.holds;
                })
          | inr ne ↦
              subst (λ p. Stands (write_cb probe answer t i disk bytes).2 p (part_of layout j))
                (sym (own.others j ne))
                (untouched i j took.touched (part_at t i) (part_at t j) disk
                  (write_cb probe answer t i disk bytes).2 ne li lj here (kept.stands j lj)
                  took.stored.within took.stored.elsewhere)
        ];
      }

  write_all-Kept :
      (probe : TaskCtx → TaskCtx) (cs : List Call) (t : TaskCtx) (disk : Disk)
      → IsGenuine source probe cs t disk
      → Kept t disk
      → Kept (write_all probe cs t disk).0 (write_all probe cs t disk).1
  unfolding write_all
  write_all-Kept probe [] t disk g kept = kept
  write_all-Kept probe (c ∷ cs) t disk (there, serves, rest) kept =
      write_all-Kept probe cs _ _ rest
        (call-Kept probe c.answer t c.index disk c.bytes there serves kept)

  whole :
      (t : TaskCtx) (disk : Disk)
      → Kept t disk
      → ((i : ℕ) → i < length t.parts → (part_at t i).size ≤ℤ (part_at t i).done)
      → (k : ℤ) → pos 0 ≤ℤ k
      → k <ℤ pos total
      → disk k ≡ source k
  whole t disk kept full k lo hi =
      let (i, li, low, high) = Tiles-find 0 layout total k tiles lo hi in
      let s = kept.stands i li in
      let done = full i (subst (λ n. i < n) (sym kept.parts) li) in
      s.holds k (omega (int_laws, starts s, low)) (omega (int_laws, starts s, sizes s, high, done))

  laid_out-Kept : (t : TaskCtx) (disk : Disk) → t.probing ≡ false → t.parts ≡ layout → Kept t disk
  laid_out-Kept t disk over laid = record {
    over = over;
    parts = ap length laid;
    stands = λ j lj.
        let q = part_of layout j in
        let done = Tiles-done 0 layout total j tiles lj in
        subst (λ ps. Stands disk (part_of ps j) (part_of layout j)) (sym laid)
          (record {
            start = refl;
            size = refl;
            fits = omega (
              int_laws,
              ap pos_part done,
              ap neg_part done,
              Tiles-size 0 layout total j tiles lj,
            );
            holds =
                λ k lo hi. absurd (omega (int_laws, ap pos_part done, ap neg_part done, lo, hi));
          });
  }

-- A file of a known size whose parts are laid out as `split` lays them out, and a disk with anything on
-- it: after any sequence of calls of `write_cb`, for whatever parts, in whatever order, cut into whatever
-- pieces, with whatever writes that fail, where each call brings the bytes of the source from where its
-- part stands: when all parts are full, the file agrees with the source at every offset.
pub write_all-split :
    (source : ℤ → ℕ) (min_size most : ℤ) (total : ℕ)
    → 1 ≤ total
    → (t : TaskCtx) (disk : Disk) → t.probing ≡ false
    → t.parts ≡ split min_size most (pos total)
    → (probe : TaskCtx → TaskCtx) (cs : List Call) → IsGenuine source probe cs t disk
    → ((i : ℕ)
        → i < length (write_all probe cs t disk).0.parts
        → (part_at (write_all probe cs t disk).0 i).size
          ≤ℤ (part_at (write_all probe cs t disk).0 i).done)
    → (k : ℤ) → pos 0 ≤ℤ k
    → k <ℤ pos total
    → (write_all probe cs t disk).1 k ≡ source k
write_all-split source m d total some_size t disk over laid probe cs genuine full k lo hi =
    let layout = split m d (pos total) in
    let tiles = split-Tiles m d total some_size in
    whole source total layout tiles (write_all probe cs t disk).0 (write_all probe cs t disk).1
      (write_all-Kept source total layout tiles probe cs t disk genuine
        (laid_out-Kept source total layout tiles t disk over laid))
      full k lo hi
