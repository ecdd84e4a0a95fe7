-- ===== src/Playback/Stream.antt =====
-- `do_stream`, `do_write_header`, `do_write_body`, `wait_for_data` and `read_file_data`.
pub mod Delivery
pub mod Completion
use download_wrapper.Base.{
  ℕ, zero, suc, ◌+◌, Bool, true, false, ◌&&◌, not, Option, none, some, List, [], ◌∷◌, ◌++◌,
  if◌then◌else◌, min,
}
use download_wrapper.Base.Int.{ℤ, pos, pos_part, ◌+ℤ◌, ◌-ℤ◌, ltb_ℤ, leb_ℤ, min_ℤ}
use download_wrapper.Text.{Text, codes, to_string}
use download_wrapper.Playback.Session.{
  Header, Session, HttpStatus, Next, at, finished, send_error, closed,
}

-- `kChunkSize`
abbrev pub chunk_size : ℤ
chunk_size = pos 65536

-- A file on disk: its length, and its bytes by their offset.
pub record File : Type 0 where
  pub length : ℤ
  pub bytes : ℤ → ℕ

-- What a session meets from one call of `do_stream` to the next: the segments that
-- `dw_get_file_ranges` lists (none where it fails), the file unless it cannot be opened, whether the
-- header is written, how much of the body is if not all of it, and whether the wait ends with an open
-- socket.
pub record Outside : Type 0 where
  pub ranges : List (ℤ × ℤ)
  pub file : Option File
  pub header_written : Bool
  pub cut_off : Option ℕ
  pub still_open : Bool

-- `n` bytes from an offset on.
unfoldable pub bytes_from : (ℤ → ℕ) → ℤ → ℕ → Text
unfolding ◌+ℤ◌
bytes_from f off zero = []
bytes_from f off (suc n) = f off ∷ bytes_from f (off +ℤ pos 1) n

-- `read_file_data`: as much as there is; nothing on any failure.
unfoldable pub read_file_data : Option File → ℤ → ℤ → Text
unfolding ◌-ℤ◌ bytes_from
read_file_data none offset size = []
read_file_data (some f) offset size =
    if leb_ℤ size (pos 0)
    then []
    else if ltb_ℤ offset (pos 0)
    then []
    else bytes_from f.bytes offset (pos_part (min_ℤ size (f.length -ℤ offset)))

-- The end of the first segment that holds the position.
unfoldable pub find_segment : List (ℤ × ℤ) → ℤ → Option ℤ
find_segment [] p = none
find_segment ((start, end) ∷ rest) p =
    if leb_ℤ start p && leb_ℤ p end then some end else find_segment rest p

-- `send_end`
unfoldable pub send_end : ℤ → ℤ → ℤ → ℤ
unfolding ◌+ℤ◌ ◌-ℤ◌
send_end seg_end range_end p =
    let last = min_ℤ seg_end range_end in
    if ltb_ℤ chunk_size (last -ℤ p +ℤ pos 1) then p +ℤ chunk_size -ℤ pos 1 else last

-- The header of the response.
unfoldable pub stream_header : Session → Header
unfolding ◌+ℤ◌ ◌-ℤ◌ to_string
stream_header s = record {
  content_range =
      codes "bytes "
      ++ to_string s.range_start
      ++ codes "-"
      ++ to_string s.range_end
      ++ codes "/"
      ++ (if ltb_ℤ (pos 0) s.total_size then to_string s.total_size else codes "*");
  content_length = s.range_end -ℤ s.range_start +ℤ pos 1;
}

abbrev pub take : ℕ → Text → Text
take zero s = []
take (suc n) [] = []
take (suc n) (c ∷ s) = c ∷ take n s

-- `do_write_body`: on an error the client has gone, with a part of the data.
unfoldable pub do_write_body : Option ℕ → Session → ℤ → Text → Session × Next
do_write_body (some n) s next_pos chunk = (record s { body = s.body ++ take n chunk }, closed)
do_write_body none s next_pos chunk = (
  record s { body = s.body ++ chunk },
  if ltb_ℤ s.range_end next_pos then finished else at next_pos,
)

-- The end of `do_stream`, with `do_write_header` the first time: the tests are `header_sent_` and
-- whether the header is written.
unfoldable pub write_data : Bool → Bool → Option ℕ → Session → ℤ → Text → Session × Next
unfolding stream_header do_write_body
write_data true _ cut_off s next_pos chunk = do_write_body cut_off s next_pos chunk
write_data false written cut_off s next_pos chunk =
    let s1 : Session = record s { header_sent = true; header = some (stream_header s) } in
    if written
    then do_write_body cut_off s1 next_pos chunk
    else (record s { header_sent = true }, closed)

-- What was read is sent, if anything was.
unfoldable pub deliver : Outside → Session → ℤ → Text → Session × Next
unfolding write_data
deliver o s next_pos [] = (
  s,
  if s.header_sent then closed else send_error HttpStatus.internal_server_error "File read failed",
)
deliver o s next_pos (b ∷ chunk) =
    write_data s.header_sent o.header_written o.cut_off s next_pos (b ∷ chunk)

-- `do_stream`, with `wait_for_data` where no segment holds the position
unfoldable pub do_stream : Outside → Session → ℤ → Session × Next
unfolding find_segment send_end read_file_data deliver ◌+ℤ◌ ◌-ℤ◌
do_stream o s p = elim (find_segment o.ranges p) [
  | none ↦ (s, if o.still_open then at p else closed)
  | some seg_end ↦
      let last = send_end seg_end s.range_end p in
      deliver o s (last +ℤ pos 1) (read_file_data o.file p (last -ℤ p +ℤ pos 1))
]

-- The calls one after another, each with what it meets.
unfoldable pub run : List Outside → Session → Next → Session × Next
unfolding do_stream
run [] s next = (s, next)
run (o ∷ os) s (at p) = let (s', next) = do_stream o s p in run os s' next
run (o ∷ os) s next = (s, next)
