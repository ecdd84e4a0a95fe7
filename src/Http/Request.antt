-- ===== src/Http/Request.antt =====
-- What `build_easy_for_part` of src/http/http_engine_impl.cpp asks the server for: the range and the
-- condition of the request. The options of libcurl that only pass the configuration on are left out.
pub mod Missing
use download_wrapper.Base.{
  ℕ, Bool, true, false, ◌&&◌, ◌||◌, not, Option, none, some, List, [], ◌∷◌, ◌++◌, if◌then◌else◌,
}
use download_wrapper.Base.Int.{ℤ, pos, ◌+ℤ◌, ◌-ℤ◌, leb_ℤ}
use download_wrapper.Text.{Text, codes, is_empty, to_string}
use download_wrapper.Http.Part.{Part}
use download_wrapper.Http.Task.{PartCtx, TaskCtx}
use download_wrapper.Http.Split.{probe_window_bytes}

-- `range_hdr`; the first request of a task asks for the probe window.
unfoldable pub range_hdr : TaskCtx → Part → Text
unfolding to_string
range_hdr t part =
    let restart = part.start +ℤ part.done in
    if t.probing
    then codes "0-" ++ to_string (probe_window_bytes -ℤ pos 1)
    else if leb_ℤ restart part.end
    then to_string restart ++ (b'-' ∷ to_string part.end)
    else to_string restart ++ codes "-"

-- The header `If-Range`, with the ETag or else the date.
unfoldable pub if_range : TaskCtx → Option Text
if_range t =
    if not t.probing && (not (is_empty t.etag) || not (is_empty t.last_modified))
    then some (codes "If-Range: " ++ (if is_empty t.etag then t.last_modified else t.etag))
    else none

-- The context of the part while the request runs.
unfoldable pub requested : TaskCtx → PartCtx → PartCtx
requested t c = record c {
  seen_total_size = pos 0;
  seen_etag = [];
  seen_last_modified = [];
  seen_http_code = pos 0;
  probe_window = t.probing;
}
