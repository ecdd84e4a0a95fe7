-- ===== src/Playback/Stream/Completion.antt =====
-- A stream comes to its end.
use download_wrapper.Base.{
  ℕ, suc, ◌≡◌, refl, sym, ap, ◌∙◌, Bool, true, false, if_intro, subst, none, some, List, [], ◌∷◌,
  All, All-imp, inl, inr, Bool-cases, ◌&&◌, ◌||◌, arith, length, if◌then◌else◌,
}
use download_wrapper.Base.Int.{
  ℤ, pos, pos_part, neg_part, ◌+ℤ◌, ◌-ℤ◌, ◌≤ℤ◌, ◌<ℤ◌, ltb_ℤ, leb_ℤ, int_laws,
}
use download_wrapper.Text.{Text}
use download_wrapper.Playback.Session.{Session, Next, at, finished}
use download_wrapper.Playback.Stream.{
  Outside, bytes_from, read_file_data, find_segment, send_end, do_write_body, write_data, deliver,
  do_stream, run,
}
use download_wrapper.Playback.Stream.Delivery.{
  IsSound, Good, going, over, gone, unread, run-Good, send_end_lem, read_file_data_lem,
  neg_part_lem, ltb_ge, find_segment-OnDisk,
}

-- Whether one of the downloaded ranges has the offset.
abbrev pub is_downloaded : List (ℤ × ℤ) → ℤ → Bool
is_downloaded [] p = false
is_downloaded ((low, high) ∷ ranges) p = (leb_ℤ low p && leb_ℤ p high) || is_downloaded ranges p

-- Each byte of the whole range is downloaded, and the client reads on.
pub record Serves (source : ℤ → ℕ) (start end : ℤ) (o : Outside) : Type 0 where
  pub sound : IsSound source o
  pub downloaded : (p : ℤ) → start ≤ℤ p → p ≤ℤ end → is_downloaded o.ranges p ≡ true
  pub reads_header : o.header_written ≡ true
  pub reads_body : o.cut_off ≡ none

after : ℤ → ℤ → Next
after end next = if ltb_ℤ end next then finished else at next

-- What a session does next, with the end of its range, which stays.
abbrev GoesOn : Session → ℤ → Session × Next → Type 0
GoesOn s next r = (r.1 ≡ after s.range_end next) × (r.0.range_end ≡ s.range_end)

write-GoesOn :
    (sent : Bool) (s : Session) (next : ℤ) (c : Text)
    → GoesOn s next (write_data sent true none s next c)
unfolding write_data do_write_body after
write-GoesOn true s next c = (refl, refl)
write-GoesOn false s next c = (refl, refl)

deliver-GoesOn :
    (source : ℤ → ℕ) (o : Outside) (s : Session) (p next : ℤ) (m : ℕ) (c : Text)
    → c ≡ bytes_from source p (suc m)
    → o.header_written ≡ true
    → o.cut_off ≡ none
    → GoesOn s next (deliver o s next c)
unfolding deliver bytes_from
deliver-GoesOn source o s p next m [] same h k = absurd (cc)
deliver-GoesOn source o s p next m (b ∷ c) same h k =
    subst (λ w. GoesOn s next (write_data s.header_sent w o.cut_off s next (b ∷ c))) (sym h)
      (subst (λ w. GoesOn s next (write_data s.header_sent true w s next (b ∷ c))) (sym k)
        (write-GoesOn s.header_sent s next (b ∷ c)))

-- A segment is found for an offset that is downloaded, whichever it is.
find_downloaded :
    (ranges : List (ℤ × ℤ)) (p : ℤ)
    → is_downloaded ranges p ≡ true
    → (high : ℤ) × (p ≤ℤ high) × (find_segment ranges p ≡ some high)
unfolding find_segment
find_downloaded [] p h = absurd (cc)
find_downloaded ((low, high) ∷ ranges) p h = elim (Bool-cases (leb_ℤ low p && leb_ℤ p high)) [
  | inl here ↦ (high, ground arith, ground arith)
  | inr away ↦
      let (top, above, found) = find_downloaded ranges p (ground arith) in
      (top, above, ground (arith, found))
]

module _ (source : ℤ → ℕ) (start end : ℤ) (nonneg : pos 0 ≤ℤ start) where
  do_stream-GoesOn :
      (o : Outside) (s : Session) (p : ℤ)
      → Serves source start end o
      → s.range_end ≡ end
      → start ≤ℤ p
      → p ≤ℤ end
      → (next : ℤ) × (p <ℤ next) × GoesOn s next (do_stream o s p)
  unfolding do_stream
  do_stream-GoesOn o s p serves e lo hi =
      let (high, q, found) = find_downloaded o.ranges p (serves.downloaded p lo hi) in
      let d = (find_segment-OnDisk source o.file o.ranges p high serves.sound found).1 in
      let (a, b, c, short) =
        send_end_lem high s.range_end p q (omega (arith, ap pos_part e, ap neg_part e)) in
      let last = send_end high s.range_end p in
      let size = last -ℤ p +ℤ pos 1 in
      let signless : neg_part size ≡ 0 = neg_part_lem size (omega int_laws) in
      let m = pos_part (last -ℤ p) in
      let signless_m : neg_part (last -ℤ p) ≡ 0 = neg_part_lem (last -ℤ p) (omega int_laws) in
      let count : pos_part size ≡ suc m = omega int_laws in
      let same = read_file_data_lem source o.file p high last d (omega (int_laws, nonneg)) a b in
      (
        last +ℤ pos 1,
        omega int_laws,
        rw (found, do_stream)
            (deliver-GoesOn source o s p (last +ℤ pos 1) m (read_file_data o.file p size)
              (same ∙ ap (bytes_from source p) count) serves.reads_header serves.reads_body),
      )

  run_over : (os : List Outside) (s : Session) → (run os s finished).1 ≡ finished
  unfolding run
  run_over [] s = refl
  run_over (o ∷ os) s = refl

  run-after :
      (os : List Outside) (s : Session) (a next : ℤ)
      → (next ≤ℤ a → (run os s (at next)).1 ≡ finished)
      → (run os s (after a next)).1 ≡ finished
  unfolding after
  run-after os s a next ih =
      if_intro (λ x. (run os s x).1 ≡ finished) (ltb_ℤ a next) finished (at next)
        (λ t. run_over os s) (λ t. ih (ltb_ge a next t))

  run-finished :
      (os : List Outside) (s : Session) (p : ℤ)
      → All (Serves source start end) os
      → s.range_end ≡ end
      → start ≤ℤ p
      → p ≤ℤ end
      → end <ℤ p +ℤ pos (length os)
      → (run os s (at p)).1 ≡ finished
  unfolding run
  run-finished [] s p serves e lo hi enough = absurd (omega int_laws)
  run-finished (o ∷ os) s p serves e lo hi enough =
      let (next, on, goes) = do_stream-GoesOn o s p serves.0 e lo hi in
      let s' = (do_stream o s p).0 in
      ap (λ x. (run os s' x).1) goes.0
      ∙ run-after os s' s.range_end next (λ t.
        run-finished os s' next serves.1 (goes.1 ∙ e) (omega (arith, on))
          (omega (arith, t, ap pos_part e, ap neg_part e)) (omega (int_laws, on)))

Good-body :
    (source : ℤ → ℕ) (start end : ℤ) (r : Session × Next)
    → pos 0 ≤ℤ start
    → start ≤ℤ end
    → Good source start end r
    → r.1 ≡ finished
    → r.0.body ≡ bytes_from source start (pos_part (end -ℤ start +ℤ pos 1))
Good-body source start end r nonneg room (going s n p h e f) over_now = absurd (cc)
Good-body source start end r nonneg room (over s n h e) over_now =
    let signless : neg_part (end -ℤ start +ℤ pos 1) ≡ 0 = neg_part_lem _ (omega int_laws) in
    let all : n ≡ pos_part (end -ℤ start +ℤ pos 1) =
      omega (int_laws, ap pos_part e, ap neg_part e) in
    h.body ∙ ap (bytes_from source start) all
Good-body source start end r nonneg room (gone s n h) over_now = absurd (cc)
Good-body source start end r nonneg room (unread s n m h) over_now = absurd (cc)

All-IsSound :
    (source : ℤ → ℕ) (start end : ℤ) (os : List Outside)
    → All (Serves source start end) os
    → All (IsSound source) os
All-IsSound source start end os h = All-imp _ _ os (λ o serves. serves.sound) h

-- Once each byte of the range is downloaded, in whatever segments, and while the client reads, a stream finishes within as many
-- calls as the range has bytes, and the client has then been sent exactly the bytes of the range.
pub run-completes :
    (source : ℤ → ℕ) (s : Session)
    → pos 0 ≤ℤ s.range_start
    → s.range_start ≤ℤ s.range_end
    → s.body ≡ []
    → (os : List Outside) → All (Serves source s.range_start s.range_end) os
    → s.range_end <ℤ s.range_start +ℤ pos (length os)
    → ((run os s (at s.range_start)).1 ≡ finished)
      × ((run os s (at s.range_start)).0.body
          ≡ bytes_from source s.range_start (pos_part (s.range_end -ℤ s.range_start +ℤ pos 1)))
run-completes source s nonneg room empty os serves enough =
    let sound = All-IsSound source s.range_start s.range_end os serves in
    let ends =
      run-finished source s.range_start s.range_end nonneg os s s.range_start serves refl
        (omega arith) room enough in
    (
      ends,
      Good-body source s.range_start s.range_end (run os s (at s.range_start)) nonneg room
          (run-Good source s nonneg room empty os sound) ends,
    )
