-- ===== src/Http/Write/Content.antt =====
-- What `write_cb` leaves in the file.
use Prim.Native.String.{String}
use download_wrapper.Base.{
  ℕ, zero, suc, ◌≤◌, ◌<◌, ◌≡◌, refl, sym, subst, ap, ◌∙◌, ◌⊎◌, inl, inr, Bool, true, false,
  Bool-cases, Option-cases, some, [], ◌∷◌, arith, length, min, get_or-set_self,
}
use download_wrapper.Base.Int.{
  ℤ, pos, pos_part, neg_part, ◌+ℤ◌, ◌≤ℤ◌, ◌<ℤ◌, eqb_ℤ, int_laws, eq_of_parts, +ℤ_parts, -ℤ_parts,
  dec_lt_ℤ,
}
use download_wrapper.Text.{Text}
use download_wrapper.Http.Part.{Part, zero_part}
use download_wrapper.Http.Task.{TaskCtx, part_at, set_part}
use download_wrapper.Http.Write.{
  write_message, Disk, put, pwrite, WriteAnswer, part_failed, part_error, write_length, stored,
  received, is_stopped, write_part, write_cb,
}

-- The bytes are those of `source` from `off` on.
abbrev pub Serves : (ℤ → ℕ) → Text → ℤ → Type 0
Serves source [] off = Unit {0}
Serves source (b ∷ bytes) off = (b ≡ source off) × Serves source bytes (off +ℤ pos 1)

-- The file holds what the part has received so far.
abbrev pub Holds : (ℤ → ℕ) → Disk → Part → Type 0
Holds source disk p = (k : ℤ) → p.start ≤ℤ k → k <ℤ p.start +ℤ p.done → disk k ≡ source k

eqb_iff : (a b : ℤ) → eqb_ℤ a b ≡ true → a ≡ b
eqb_iff a b h = ground (arith, eq_of_parts a b)

eqb_ne : (a b : ℤ) → (a <ℤ b) ⊎ (b <ℤ a) → eqb_ℤ a b ≡ false
eqb_ne a b (inl h) = ground arith
eqb_ne a b (inr h) = ground arith

eqb_away : (a b : ℤ) → eqb_ℤ a b ≡ false → (a <ℤ b) ⊎ (b <ℤ a)
eqb_away a b h = ground arith

pwrite_outside :
    (disk : Disk) (n : ℕ) (bytes : Text) (off k : ℤ)
    → (k <ℤ off) ⊎ (off +ℤ pos n ≤ℤ k)
    → pwrite disk n bytes off k ≡ disk k
unfolding pwrite
pwrite_outside disk zero bytes off k h = refl
pwrite_outside disk (suc n) [] off k h = refl
pwrite_outside disk (suc n) (b ∷ bytes) off k (inl h) =
    pwrite_outside (put disk off b) n bytes (off +ℤ pos 1) k (inl (omega int_laws))
    ∙ rw (eqb_ne k off (inl h))
pwrite_outside disk (suc n) (b ∷ bytes) off k (inr h) =
    pwrite_outside (put disk off b) n bytes (off +ℤ pos 1) k (inr (omega int_laws))
    ∙ rw (eqb_ne k off (inr (omega int_laws)))

pwrite_inside :
    (source : ℤ → ℕ) (disk : Disk) (n : ℕ) (bytes : Text) (off k : ℤ)
    → Serves source bytes off
    → n ≤ length bytes
    → off ≤ℤ k
    → k <ℤ off +ℤ pos n
    → pwrite disk n bytes off k ≡ source k
unfolding pwrite
pwrite_inside source disk zero bytes off k s h lo hi = absurd (omega int_laws)
pwrite_inside source disk (suc n) [] off k s h lo hi = absurd (omega arith)
pwrite_inside source disk (suc n) (b ∷ bytes) off k s h lo hi = elim (Bool-cases (eqb_ℤ k off)) [
  | inl here ↦
      let e : k ≡ off = eqb_iff k off here in
      pwrite_outside (put disk off b) n bytes (off +ℤ pos 1) k
        (inl (omega (int_laws, ap pos_part e, ap neg_part e)))
      ∙ rw here (s.0 ∙ ap source (sym e))
  | inr away ↦
      pwrite_inside source (put disk off b) n bytes (off +ℤ pos 1) k s.1 (omega arith)
        (omega (int_laws, eqb_away k off away)) (omega int_laws)
]

-- The part is not over-full.
abbrev pub InBounds : Part → Type 0
InBounds p = (pos 0 ≤ℤ p.done) × (pos 0 <ℤ p.size → p.done ≤ℤ p.size)

write_length_lem :
    (p : Part) (len n : ℕ)
    → write_length p len ≡ some n
    → (n ≤ len) × (pos 0 <ℤ p.size → p.done +ℤ pos n ≤ℤ p.size)
unfolding write_length
write_length_lem p len n h = ground (arith, -ℤ_parts p.size p.done, +ℤ_parts p.done (pos n))

-- What a call leaves: `n` bytes more in the part, all of them right; behind what the part holds, it has
-- touched at most `m` bytes, and they lie in the part.
pub record Stored (source : ℤ → ℕ) (disk disk' : Disk) (p p' : Part) (n m : ℕ) : Type 0 where
  pub start : p'.start ≡ p.start
  pub size : p'.size ≡ p.size
  pub advanced : p'.done ≡ p.done +ℤ pos n
  pub bounded : InBounds p'
  pub holds : Holds source disk' p'
  pub within : pos 0 <ℤ p.size → p.done +ℤ pos m ≤ℤ p.size
  pub elsewhere :
      (k : ℤ) → (k <ℤ p.start +ℤ p.done) ⊎ (p.start +ℤ p.done +ℤ pos m ≤ℤ k) → disk' k ≡ disk k

module _ (source : ℤ → ℕ) (disk : Disk) (p : Part) (held : Holds source disk p)
    (fits : InBounds p) where
  unchanged :
      (p' : Part)
      → p'.start ≡ p.start
      → p'.size ≡ p.size
      → p'.done ≡ p.done
      → Stored source disk disk p p' 0 0
  unchanged p' a b c = record {
    start = a;
    size = b;
    advanced = rw c (eq_of_parts _ _ (omega int_laws));
    bounded = rw (b, c) fits;
    holds = rw (a, c) held;
    within = λ h. omega (int_laws, fits.1 h);
    elsewhere = λ k h. refl;
  }

  -- A write that fails touches nothing that the part holds.
  broken_off :
      (p' : Part) (m : ℕ) (bytes : Text)
      → p'.start ≡ p.start
      → p'.size ≡ p.size
      → p'.done ≡ p.done
      → (pos 0 <ℤ p.size → p.done +ℤ pos m ≤ℤ p.size)
      → Stored source disk (pwrite disk m bytes (p.start +ℤ p.done)) p p' 0 m
  broken_off p' m bytes a b c room = record {
    start = a;
    size = b;
    advanced = rw c (eq_of_parts _ _ (omega int_laws));
    bounded = rw (b, c) fits;
    holds =
        rw (a, c)
          λ k lo hi. pwrite_outside disk m bytes (p.start +ℤ p.done) k (inl hi) ∙ held k lo hi;
    within = room;
    elsewhere = λ k h. pwrite_outside disk m bytes (p.start +ℤ p.done) k h;
  }

  written :
      (p' : Part) (n : ℕ) (bytes : Text)
      → p'.start ≡ p.start
      → p'.size ≡ p.size
      → p'.done ≡ p.done +ℤ pos n
      → Serves source bytes (p.start +ℤ p.done)
      → n ≤ length bytes
      → (pos 0 <ℤ p.size → p.done +ℤ pos n ≤ℤ p.size)
      → Stored source disk (pwrite disk n bytes (p.start +ℤ p.done)) p p' n n
  written p' n bytes a b c serves short room = record {
    start = a;
    size = b;
    advanced = c;
    bounded = rw (b, c) (omega (int_laws, fits.0), room);
    holds =
        rw (a, c)
          λ k lo hi. elim (dec_lt_ℤ k (p.start +ℤ p.done)) [
            | inl before ↦ pwrite_outside disk n bytes _ k (inl before) ∙ held k lo before
            | inr behind ↦
                pwrite_inside source disk n bytes _ k serves short behind (omega int_laws)
          ];
    within = room;
    elsewhere = λ k h. pwrite_outside disk n bytes _ k h;
  }

-- Of a call's result: what it says it took is what it stored, and it touches no more bytes than it is
-- handed.
pub record Took (source : ℤ → ℕ) (t : TaskCtx) (i : ℕ) (disk : Disk) (bytes : Text)
    (r : ℕ × TaskCtx × Disk) : Type 0 where
  pub touched : ℕ
  pub stored : Stored source disk r.2 (part_at t i) (part_at r.1 i) r.0 touched
  pub taken : r.0 ≤ touched
  pub short : touched ≤ length bytes

module _ (source : ℤ → ℕ) (t : TaskCtx) (i : ℕ) (disk : Disk) (bytes : Text)
    (there : i < length t.parts) (held : Holds source disk (part_at t i))
    (fits : InBounds (part_at t i))
    (serves : Serves source bytes ((part_at t i).start +ℤ (part_at t i).done)) where
  abbrev Right : ℕ × TaskCtx × Disk → Type 0
  Right = Took source t i disk bytes

  nothing-Right : Right (0, t, disk)
  nothing-Right = record {
    touched = 0;
    taken = omega arith;
    stored = unchanged source disk (part_at t i) held fits (part_at t i) refl refl refl;
    short = omega arith;
  }

  -- A failed write marks the part; what has arrived of it lies behind what the part holds.
  failed-Right :
      (m : String) (n : ℕ)
      → n ≤ length bytes
      → (pos 0 <ℤ (part_at t i).size → (part_at t i).done +ℤ pos n ≤ℤ (part_at t i).size)
      → Right (
        0,
        part_failed t i (part_at t i) m,
        pwrite disk n bytes ((part_at t i).start +ℤ (part_at t i).done),
      )
  failed-Right m n short room = record {
    touched = n;
    taken = omega arith;
    stored = broken_off source disk (part_at t i) held fits _ n bytes (rw e) (rw e) (rw e) room;
    short = short;
  }
    where
      e : part_at (part_failed t i (part_at t i) m) i ≡ part_error (part_at t i)
      e = get_or-set_self t.parts i _ zero_part there

  stored-Right :
      (n : ℕ)
      → n ≤ length bytes
      → (pos 0 <ℤ (part_at t i).size → (part_at t i).done +ℤ pos n ≤ℤ (part_at t i).size)
      → Right (
        n,
        set_part t i (record (part_at t i) { done = (part_at t i).done +ℤ pos n }),
        pwrite disk n bytes ((part_at t i).start +ℤ (part_at t i).done),
      )
  stored-Right n short room = record {
    touched = n;
    taken = omega arith;
    stored =
        written source disk (part_at t i) held fits _ n bytes (rw e) (rw e) (rw e) serves short
          room;
    short = short;
  }
    where
      p' : Part
      p' = record (part_at t i) { done = (part_at t i).done +ℤ pos n }

      e : part_at (set_part t i p') i ≡ p'
      e = get_or-set_self t.parts i p' zero_part there

  missing-Right : (m : String) → Right (0, part_failed t i (part_at t i) m, disk)
  unfolding pwrite
  missing-Right m = failed-Right m 0 (omega arith) (λ h. omega (int_laws, fits.1 h))

  any-Right :
      (present done : Bool) (errno landed n : ℕ)
      → n ≤ length bytes
      → (pos 0 <ℤ (part_at t i).size → (part_at t i).done +ℤ pos n ≤ℤ (part_at t i).size)
      → Right (stored present done errno landed t i disk bytes n)
  unfolding stored
  any-Right false _ errno landed n short room = missing-Right "文件不存在"
  any-Right true false errno landed n short room =
      failed-Right (write_message errno) (min landed n) (omega arith)
        (λ h. omega (int_laws, room h))
  any-Right true true errno landed n short room = stored-Right n short room

  write_part-Right : (answer : WriteAnswer) → Right (write_part answer t i disk bytes)
  unfolding write_part
  write_part-Right answer = elim (Option-cases (write_length (part_at t i) (length bytes))) [
    | inl e ↦ rw (e, write_part) nothing-Right
    | inr (n, e) ↦
        let fit = write_length_lem (part_at t i) (length bytes) n e in
        rw (e, write_part) (any-Right _ _ _ _ n fit.0 fit.1)
  ]

  received-Right :
      (stop : Bool) (probe : TaskCtx → TaskCtx) (answer : WriteAnswer)
      → Right (received stop false probe answer t i disk bytes)
  unfolding received
  received-Right true probe answer = nothing-Right
  received-Right false probe answer = write_part-Right answer

  -- Once the probe is over, for a part that there is, that holds a prefix of the true content and is not
  -- over-full, and bytes that are those of the source from where the part stands: a call stores the
  -- first of the bytes at the part's place, as many as it reports, and the part goes on holding a prefix of the true content, whatever the file
  -- system answers. It never touches a byte that the part holds already, nor one behind the end of the
  -- part, nor more bytes than it is handed; a write that fails may leave some of them in the file, and
  -- reports none.
  pub write_cb-Stored :
      (probe : TaskCtx → TaskCtx) (answer : WriteAnswer)
      → t.probing ≡ false
      → Right (write_cb probe answer t i disk bytes)
  unfolding write_cb
  write_cb-Stored probe answer over =
      subst (λ b. Right (received (is_stopped t bytes) b probe answer t i disk bytes)) (sym over)
        (received-Right (is_stopped t bytes) probe answer)
