-- ===== src/Http/Split.antt =====
-- The division of a file into parts, at the end of `finalize_probing` in
-- src/http/http_engine_impl.cpp, once the status line of the probe is known.
pub mod Tiling
use download_wrapper.Base.{
  ℕ, zero, suc, ◌+◌, ◌-◌, ◌*◌, Bool, List, [], ◌∷◌, ◌++◌, ◌&&◌, if◌then◌else◌, leb, ltb, ◌==◌,
}
use download_wrapper.Base.Int.{
  ℤ, pos, minus_one, pos_part, ◌+ℤ◌, ◌-ℤ◌, ◌*ℤ◌, ◌/ℤ◌, ltb_ℤ, leb_ℤ, eqb_ℤ, min_ℤ, max_ℤ,
}
use download_wrapper.Api.{TaskStatus, Reason}
use download_wrapper.Http.Part.{Part, zero_part}

-- `kProbeWindowBytes`
abbrev pub probe_window_bytes : ℤ
probe_window_bytes = pos 1048576

-- `want_parts` before the adjustment to the bytes that are left.
unfoldable pub wanted_parts : ℤ → ℤ → ℤ → ℤ
wanted_parts min_size default_parts total =
    if leb_ℤ min_size total && ltb_ℤ (pos 1) default_parts then default_parts else pos 1

-- `part0_size` before the adjustment.
unfoldable pub first_size : ℤ → ℤ → ℤ
unfolding ◌/ℤ◌
first_size want total =
    if ltb_ℤ (pos 1) want then max_ℤ (total /ℤ want) (min_ℤ probe_window_bytes total) else total

-- The degradation to one part, or to two.
unfoldable pub adjusted_parts : ℤ → ℤ → ℤ → ℤ
unfolding ◌-ℤ◌
adjusted_parts want part0_size total =
    if ltb_ℤ (pos 1) want
    then if leb_ℤ (total -ℤ part0_size) (pos 0)
      then pos 1
      else if ltb_ℤ (total -ℤ part0_size) (want -ℤ pos 1)
      then pos 2
      else want
    else want

-- `parts[0]`: `end` and `size` are -1 and 0 where the total is unknown.
unfoldable pub first_part : ℤ → ℤ → Part
unfolding ◌-ℤ◌ ◌+ℤ◌
first_part part0_size total =
    let end : ℤ = if ltb_ℤ (pos 0) total then part0_size -ℤ pos 1 else minus_one in
    record {
      index = 0;
      start = pos 0;
      end = end;
      size = if leb_ℤ (pos 0) end then end +ℤ pos 1 else pos 0;
      done = pos 0;
      status = TaskStatus.downloading;
      reason = Reason.success;
    }

-- One round of the loop `for (i = 1; i < want_parts; ++i)`; the last part takes the remainder.
unfoldable pub next_part : ℤ → ℤ → ℤ → ℤ → ℕ → Part
unfolding ◌-ℤ◌ ◌+ℤ◌ ◌*ℤ◌
next_part part0_size chunk want total i =
    let start = part0_size +ℤ chunk *ℤ (pos i -ℤ pos 1) in
    let end : ℤ =
      if eqb_ℤ (pos i) (want -ℤ pos 1) then total -ℤ pos 1 else start +ℤ chunk -ℤ pos 1 in
    record zero_part {
      index = i;
      start = start;
      end = end;
      size = if leb_ℤ start end then end -ℤ start +ℤ pos 1 else pos 0;
      status = TaskStatus.downloading;
      reason = Reason.success;
    }

-- The loop from `i` on; the first argument is the number of rounds that are left.
unfoldable pub next_parts : ℕ → ℤ → ℤ → ℤ → ℤ → ℕ → List Part
next_parts zero part0_size chunk want total i = []
next_parts (suc rounds) part0_size chunk want total i =
    next_part part0_size chunk want total i ∷ next_parts rounds part0_size chunk want total (suc i)

-- `parts` after the loop; `chunk` is 0 where there is one part.
unfoldable pub laid_out : ℤ → ℤ → ℤ → List Part
unfolding ◌-ℤ◌ ◌/ℤ◌
laid_out want part0_size total =
    let chunk : ℤ =
      if ltb_ℤ (pos 1) want then (total -ℤ part0_size) /ℤ (want -ℤ pos 1) else pos 0 in
    first_part part0_size total
    ∷ next_parts (pos_part (want -ℤ pos 1)) part0_size chunk want total 1

-- The parts after a response 206: what is left behind `part0_size` is shared out evenly.
unfoldable pub split : ℤ → ℤ → ℤ → List Part
unfolding wanted_parts first_size adjusted_parts laid_out first_part next_parts next_part
split min_size default_parts total =
    let wanted = wanted_parts min_size default_parts total in
    let size0 = first_size wanted total in
    let want = adjusted_parts wanted size0 total in
    laid_out want (if eqb_ℤ want (pos 1) then total else size0) total

-- After any other response one part takes the whole stream; `done`, `status`, `reason` and `index`
-- stay as they are.
unfoldable pub whole_part : ℤ → Part → Part
unfolding ◌-ℤ◌
whole_part total part = record part {
  start = pos 0;
  end = if ltb_ℤ (pos 0) total then total -ℤ pos 1 else minus_one;
  size = if ltb_ℤ (pos 0) total then total else pos 0;
}
