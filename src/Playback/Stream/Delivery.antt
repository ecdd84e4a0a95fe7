-- ===== src/Playback/Stream/Delivery.antt =====
-- What a client has been sent, whatever the session meets.
use Prim.Native.String.{String}
use download_wrapper.Base.{
  ℕ, zero, suc, ◌+◌, ◌≡◌, refl, sym, ap, ◌∙◌, inl, inr, Bool, true, false, ◌&&◌, Bool-cases,
  if_intro, subst, Option, none, some, Option-cases, List, [], ◌∷◌, ◌++◌, All, arith, min,
  if◌then◌else◌,
}
use download_wrapper.Base.Int.{
  ℤ, pos, pos_part, neg_part, ◌+ℤ◌, ◌-ℤ◌, ◌≤ℤ◌, ◌<ℤ◌, ltb_ℤ, leb_ℤ, min_ℤ, int_laws, eq_of_parts,
}
use download_wrapper.Text.{Text}
use download_wrapper.Playback.Session.{Session, HttpStatus, Next, at, finished, send_error, closed}
use download_wrapper.Playback.Stream.{
  File, Outside, chunk_size, bytes_from, read_file_data, find_segment, send_end, take,
  do_write_body, write_data, stream_header, deliver, do_stream, run,
}

move : (a : ℤ) (m : ℕ) → a +ℤ pos (suc m) ≡ (a +ℤ pos 1) +ℤ pos m
move a m = eq_of_parts _ _ (omega int_laws)

bytes_from-append :
    (f : ℤ → ℕ) (off : ℤ) (m n : ℕ)
    → bytes_from f off (m + n) ≡ bytes_from f off m ++ bytes_from f (off +ℤ pos m) n
unfolding bytes_from
bytes_from-append f off zero n =
    let e : off ≡ off +ℤ pos 0 = eq_of_parts _ _ (omega int_laws) in
    let none_before : zero + n ≡ n = omega arith in rw none_before (ap (λ k. bytes_from f k n) e)
bytes_from-append f off (suc m) n =
    let one : suc m + n ≡ suc (m + n) = omega arith in
    rw one (
      ap (λ r. f off ∷ r)
        (bytes_from-append f (off +ℤ pos 1) m n
          ∙ ap (λ k. bytes_from f (off +ℤ pos 1) m ++ bytes_from f k n) (sym (move off m))))

bytes_from_none : (f : ℤ → ℕ) (off : ℤ) → bytes_from f off 0 ≡ []
unfolding bytes_from
bytes_from_none f off = refl

bytes_from-take :
    (f : ℤ → ℕ) (off : ℤ) (k m : ℕ) → take k (bytes_from f off m) ≡ bytes_from f off (min k m)
unfolding bytes_from
bytes_from-take f off zero m = let e : min zero m ≡ zero = omega arith in rw e refl
bytes_from-take f off (suc k) zero = let e : min (suc k) zero ≡ zero = omega arith in rw e refl
bytes_from-take f off (suc k) (suc m) =
    let e : min (suc k) (suc m) ≡ suc (min k m) = omega arith in
    rw e (ap (λ r. f off ∷ r) (bytes_from-take f (off +ℤ pos 1) k m))

bytes_from-agree :
    (f g : ℤ → ℕ) (off : ℤ) (m : ℕ)
    → ((k : ℤ) → off ≤ℤ k → k <ℤ off +ℤ pos m → f k ≡ g k)
    → bytes_from f off m ≡ bytes_from g off m
unfolding bytes_from
bytes_from-agree f g off zero h = refl
bytes_from-agree f g off (suc m) h =
    let here : f off ≡ g off = h off (omega arith) (omega int_laws) in
    rw
      (
        here,
        bytes_from-agree f g (off +ℤ pos 1) m (λ k lo hi. h k (omega int_laws) (omega int_laws)),
      )
      refl

-- The bytes of a segment are on disk, and they are those of `source`.
pub record OnDisk (source : ℤ → ℕ) (file : Option File) (segment : ℤ × ℤ) : Type 0 where
  pub opened : File
  pub there : file ≡ some opened
  pub long : segment.1 <ℤ opened.length
  pub right : (k : ℤ) → segment.0 ≤ℤ k → k ≤ℤ segment.1 → opened.bytes k ≡ source k

-- What is listed as downloaded is on disk.
abbrev pub IsSound : (ℤ → ℕ) → Outside → Type 0
IsSound source o = All (OnDisk source o.file) o.ranges

pub find_segment-OnDisk :
    (source : ℤ → ℕ) (file : Option File) (segments : List (ℤ × ℤ)) (p seg_end : ℤ)
    → All (OnDisk source file) segments
    → find_segment segments p ≡ some seg_end
    → (p ≤ℤ seg_end) × OnDisk source file (p, seg_end)
unfolding find_segment
find_segment-OnDisk source file [] p e h found = absurd (cc)
find_segment-OnDisk source file ((a, b) ∷ rest) p e h found =
    elim (Bool-cases (leb_ℤ a p && leb_ℤ p b)) [
      | inl here ↦
          let same : b ≡ e = ground arith in
          let d = h.0 in
          (
            ground arith,
            record {
              opened = d.opened;
              there = d.there;
              long = omega (arith, d.long, ap pos_part same, ap neg_part same);
              right = λ k lo hi.
                  d.right k (ground arith) (omega (arith, ap pos_part same, ap neg_part same));
            },
          )
      | inr away ↦ find_segment-OnDisk source file rest p e h.1 (ground arith)
    ]

-- `n` bytes of the range have been sent, and no byte else.
pub record Sent (source : ℤ → ℕ) (start end : ℤ) (s : Session) (n : ℕ) : Type 0 where
  pub from : s.range_start ≡ start
  pub to : s.range_end ≡ end
  pub body : s.body ≡ bytes_from source start n
  pub within : start +ℤ pos n ≤ℤ end +ℤ pos 1

-- A session that goes on does so right behind what it has sent, and one that has finished has sent
-- the whole range. One that stopped has sent a beginning of it.
pub data Good (source : ℤ → ℕ) (start end : ℤ) : Session × Next → Type 0 where
  going :
      (s : Session) (n : ℕ) (p : ℤ)
      → Sent source start end s n
      → p ≡ start +ℤ pos n
      → p ≤ℤ end
      → Good source start end (s, at p)
  over :
      (s : Session) (n : ℕ)
      → Sent source start end s n
      → start +ℤ pos n ≡ end +ℤ pos 1
      → Good source start end (s, finished)
  gone : (s : Session) (n : ℕ) → Sent source start end s n → Good source start end (s, closed)
  unread :
      (s : Session) (n : ℕ) (m : String)
      → Sent source start end s n
      → Good source start end (s, send_error HttpStatus.internal_server_error m)

module _ (source : ℤ → ℕ) (start end : ℤ) (nonneg : pos 0 ≤ℤ start) where
  more :
      (s : Session) (n m : ℕ) (p : ℤ)
      → Sent source start end s n
      → p ≡ start +ℤ pos n
      → s.body ++ bytes_from source p m ≡ bytes_from source start (n + m)
  more s n m p h e =
      ap (λ b. b ++ bytes_from source p m) h.body
      ∙ ap (λ k. bytes_from source start n ++ bytes_from source k m) e
      ∙ sym (bytes_from-append source start n m)

  met :
      {a : ℤ} (k m : ℕ) (p next : ℤ)
      → a ≡ end
      → start +ℤ pos k ≡ p +ℤ pos m
      → next ≡ p +ℤ pos m
      → next ≤ℤ end +ℤ pos 1
      → a <ℤ next
      → start +ℤ pos k ≡ end +ℤ pos 1
  met k m p next a e f room lt =
      e ∙ sym f ∙ eq_of_parts _ _ (omega (int_laws, ap pos_part a, ap neg_part a))

  body-Good :
      (cut_off : Option ℕ) (s : Session) (n m : ℕ) (p next : ℤ)
      → Sent source start end s n
      → p ≡ start +ℤ pos n
      → next ≡ p +ℤ pos m
      → next ≤ℤ end +ℤ pos 1
      → Good source start end (do_write_body cut_off s next (bytes_from source p m))
  unfolding do_write_body
  body-Good (some k) s n m p next h e f room = gone _ (n + min k m) (record {
    from = h.from;
    to = h.to;
    body = ap (λ t. s.body ++ t) (bytes_from-take source p k m) ∙ more s n (min k m) p h e;
    within = omega (int_laws, ap pos_part e, ap neg_part e, ap pos_part f, ap neg_part f);
  })
  body-Good none s n m p next h e f room =
      let step : start +ℤ pos (n + m) ≡ p +ℤ pos m =
        eq_of_parts _ _ (omega (int_laws, ap pos_part e, ap neg_part e)) in
      let s' : Session = record s { body = s.body ++ bytes_from source p m } in
      let sent : Sent source start end s' (n + m) = record {
        from = h.from;
        to = h.to;
        body = more s n m p h e;
        within = omega (int_laws, ap pos_part e, ap neg_part e, ap pos_part f, ap neg_part f);
      } in
      if_intro (λ x. Good source start end (s', x)) (ltb_ℤ s.range_end next) finished (at next)
        (λ t. over s' (n + m) sent (met (n + m) m p next h.to step f room (ground arith)))
        (λ t.
          going s' (n + m) next sent (f ∙ sym step)
            (ground (arith, ap pos_part h.to, ap neg_part h.to)))

  write-Good :
      (sent written : Bool) (cut_off : Option ℕ) (s : Session) (n m : ℕ) (p next : ℤ) (c : Text)
      → c ≡ bytes_from source p m
      → Sent source start end s n
      → p ≡ start +ℤ pos n
      → next ≡ p +ℤ pos m
      → next ≤ℤ end +ℤ pos 1
      → Good source start end (write_data sent written cut_off s next c)
  unfolding write_data
  write-Good true written cut_off s n m p next c same h e f room =
      subst (λ t. Good source start end (do_write_body cut_off s next t)) (sym same)
        (body-Good cut_off s n m p next h e f room)
  write-Good false true cut_off s n m p next c same h e f room =
      let s1 : Session = record s { header_sent = true; header = some (stream_header s) } in
      subst (λ t. Good source start end (do_write_body cut_off s1 next t)) (sym same)
        (body-Good cut_off s1 n m p next
          (record { from = h.from; to = h.to; body = h.body; within = h.within }) e f room)
  write-Good false false cut_off s n m p next c same h e f room =
      gone _ n (record { from = h.from; to = h.to; body = h.body; within = h.within })

  deliver-Good :
      (o : Outside) (s : Session) (n m : ℕ) (p next : ℤ) (c : Text)
      → c ≡ bytes_from source p m
      → Sent source start end s n
      → p ≡ start +ℤ pos n
      → next ≡ p +ℤ pos m
      → next ≤ℤ end +ℤ pos 1
      → Good source start end (deliver o s next c)
  unfolding deliver
  deliver-Good o s n m p next [] same h e f room =
      if_intro (λ x. Good source start end (s, x)) s.header_sent closed
        (send_error HttpStatus.internal_server_error "File read failed") (λ t. gone s n h)
        (λ t. unread s n "File read failed" h)
  deliver-Good o s n m p next (b ∷ c) same h e f room =
      write-Good s.header_sent o.header_written o.cut_off s n m p next (b ∷ c) same h e f room

pub neg_part_lem : (a : ℤ) → pos 0 ≤ℤ a → neg_part a ≡ 0
neg_part_lem a h = ground arith

ltb_lt : (a b : ℤ) → ltb_ℤ a b ≡ true → a <ℤ b
ltb_lt a b h = ground arith

pub ltb_ge : (a b : ℤ) → ltb_ℤ a b ≡ false → b ≤ℤ a
ltb_ge a b h = ground arith

min_ℤ_lem : (a b p : ℤ) → p ≤ℤ a → p ≤ℤ b → (p ≤ℤ min_ℤ a b) × (min_ℤ a b ≤ℤ a) × (min_ℤ a b ≤ℤ b)
min_ℤ_lem a b p h k = ground arith

-- What a chunk of at most `c` bytes from `p` on ends with.
chunk_lem :
    (c l p : ℤ)
    → pos 0 <ℤ c
    → p ≤ℤ l
    → (let x : ℤ = if ltb_ℤ c (l -ℤ p +ℤ pos 1) then p +ℤ c -ℤ pos 1 else l in
        (p ≤ℤ x) × (x ≤ℤ l) × (x <ℤ p +ℤ c))
chunk_lem c l p positive h =
    if_intro (λ x. (p ≤ℤ x) × (x ≤ℤ l) × (x <ℤ p +ℤ c)) (ltb_ℤ c (l -ℤ p +ℤ pos 1))
      (p +ℤ c -ℤ pos 1) l
      (λ t.
        let u = ltb_lt c (l -ℤ p +ℤ pos 1) t in (omega int_laws, omega int_laws, omega int_laws))
      (λ t. let u = ltb_ge c (l -ℤ p +ℤ pos 1) t in (h, omega int_laws, omega int_laws))

pub send_end_lem :
    (e r p : ℤ)
    → p ≤ℤ e
    → p ≤ℤ r
    → (p ≤ℤ send_end e r p)
      × (send_end e r p ≤ℤ e)
      × (send_end e r p ≤ℤ r)
      × (send_end e r p <ℤ p +ℤ chunk_size)
unfolding send_end
send_end_lem e r p h k =
    let (lo, left, right) = min_ℤ_lem e r p h k in
    let (a, b, c) = chunk_lem chunk_size (min_ℤ e r) p (omega arith) lo in
    (a, omega (arith, b, left), omega (arith, b, right), c)

read_full :
    (f : File) (p size : ℤ)
    → pos 0 ≤ℤ p
    → pos 0 <ℤ size
    → p +ℤ size ≤ℤ f.length
    → read_file_data (some f) p size ≡ bytes_from f.bytes p (pos_part size)
unfolding read_file_data
read_full f p size h k l =
    let a : leb_ℤ size (pos 0) ≡ false = ground arith in
    let b : ltb_ℤ p (pos 0) ≡ false = ground arith in
    let c : size ≤ℤ f.length -ℤ p = omega int_laws in
    let d : ltb_ℤ (f.length -ℤ p) size ≡ false = ground arith in rw (a, b, d) refl

pub read_file_data_lem :
    (source : ℤ → ℕ) (file : Option File) (p e last : ℤ)
    → OnDisk source file (p, e)
    → pos 0 ≤ℤ p
    → p ≤ℤ last
    → last ≤ℤ e
    → read_file_data file p (last -ℤ p +ℤ pos 1)
      ≡ bytes_from source p (pos_part (last -ℤ p +ℤ pos 1))
read_file_data_lem source file p e last d nonneg lo hi =
    let size = last -ℤ p +ℤ pos 1 in
    let signless : neg_part size ≡ 0 = neg_part_lem size (omega int_laws) in
    ap (λ o. read_file_data o p size) d.there
    ∙ read_full d.opened p size nonneg (omega int_laws) (omega (int_laws, d.long))
    ∙ bytes_from-agree d.opened.bytes source p (pos_part size)
        (λ k a b. d.right k a (omega int_laws))

module _ (source : ℤ → ℕ) (start end : ℤ) (nonneg : pos 0 ≤ℤ start) where
  do_stream-Good :
      (o : Outside) (s : Session) (n : ℕ) (p : ℤ)
      → IsSound source o
      → Sent source start end s n
      → p ≡ start +ℤ pos n
      → p ≤ℤ end
      → Good source start end (do_stream o s p)
  unfolding do_stream
  do_stream-Good o s n p sound h e room = elim (Option-cases (find_segment o.ranges p)) [
    | inl none_found ↦
        rw (none_found, do_stream)
          (if_intro (λ x. Good source start end (s, x)) o.still_open (at p) closed
            (λ t. going s n p h e room) (λ t. gone s n h))
    | inr (seg_end, found) ↦
        let (below, d) = find_segment-OnDisk source o.file o.ranges p seg_end sound found in
        let (a, b, c, short) =
          send_end_lem seg_end s.range_end p below
            (omega (arith, room, ap pos_part h.to, ap neg_part h.to)) in
        let last = send_end seg_end s.range_end p in
        let from_zero : pos 0 ≤ℤ p = omega (int_laws, nonneg, ap pos_part e, ap neg_part e) in
        let signless : neg_part (last -ℤ p +ℤ pos 1) ≡ 0 = neg_part_lem _ (omega int_laws) in
        let same = read_file_data_lem source o.file p seg_end last d from_zero a b in
        rw (found, do_stream)
          (deliver-Good source start end nonneg o s n (pos_part (last -ℤ p +ℤ pos 1)) p
            (last +ℤ pos 1) (read_file_data o.file p (last -ℤ p +ℤ pos 1)) same h e
            (eq_of_parts _ _ (omega int_laws))
            (omega (int_laws, ap pos_part h.to, ap neg_part h.to)))
  ]

  run_at :
      (os : List Outside)
      → ((r : Session × Next) → Good source start end r → Good source start end (run os r.0 r.1))
      → (o : Outside) (s : Session) (n : ℕ) (p : ℤ) → IsSound source o
      → Sent source start end s n
      → p ≡ start +ℤ pos n
      → p ≤ℤ end
      → Good source start end (run (o ∷ os) s (at p))
  unfolding run
  run_at os ih o s n p sound h e room = ih (do_stream o s p) (do_stream-Good o s n p sound h e room)

  runs-Good :
      (os : List Outside) (r : Session × Next)
      → All (IsSound source) os
      → Good source start end r
      → Good source start end (run os r.0 r.1)
  unfolding run
  runs-Good [] r sound g = g
  runs-Good (o ∷ os) r sound (going s n p h e room) =
      run_at os (λ r' g. runs-Good os r' sound.1 g) o s n p sound.0 h e room
  runs-Good (o ∷ os) r sound (over s n h e) = over s n h e
  runs-Good (o ∷ os) r sound (gone s n h) = gone s n h
  runs-Good (o ∷ os) r sound (unread s n m h) = unread s n m h

-- A stream that starts at the head of its range sends the bytes of the range in order, none twice
-- and none left out, as long as what is listed as downloaded is on disk: whatever it meets, it has
-- sent a beginning of the range, and if it has finished, all of it.
pub run-Good :
    (source : ℤ → ℕ) (s : Session)
    → pos 0 ≤ℤ s.range_start
    → s.range_start ≤ℤ s.range_end
    → s.body ≡ []
    → (os : List Outside) → All (IsSound source) os
    → Good source s.range_start s.range_end (run os s (at s.range_start))
run-Good source s nonneg room empty os sound =
    runs-Good source s.range_start s.range_end nonneg os (s, at s.range_start) sound
      (going s 0 s.range_start
        (record {
          from = refl;
          to = refl;
          body = empty ∙ sym (bytes_from_none source s.range_start);
          within = omega int_laws;
        })
        (eq_of_parts _ _ (omega int_laws)) room)
