-- ===== src/Playback/Request.antt =====
-- `parse_range_header` and `handle_request`.
pub mod Ranges
use download_wrapper.Base.{
  ◌>>=◌, ℕ, Bool, true, false, ◌&&◌, ◌||◌, not, Option, none, some, List, [], ◌∷◌, if◌then◌else◌,
  ◌==◌, leb,
}
use download_wrapper.Base.Int.{ℤ, pos, minus_one, ◌-ℤ◌, ltb_ℤ}
use download_wrapper.Api.{Protocol}
use download_wrapper.Text.{
  Text, codes, text_eq, is_empty, is_digit, after_prefix, cut, from_chars, int32_max, int64_max,
}
use download_wrapper.Playback.Session.{
  Session, new_session, HttpStatus, Next, at, send_error, send_range_error,
}

-- The end of a range: an absent one is -1.
unfoldable pub range_end_of : Text → Option ℤ
unfolding from_chars
range_end_of [] = some minus_one
range_end_of (c ∷ s) = from_chars int64_max (c ∷ s)

-- The part of a range header behind "bytes=".
unfoldable pub parse_range : Text → Option (ℤ × ℤ)
unfolding cut from_chars range_end_of
parse_range spec = do
  (first, last) ← cut b'-' spec
  start ← if is_empty first then none else from_chars int64_max first
  end ← range_end_of last
  some (start, end)

-- `parse_range_header`
unfoldable pub parse_range_header : Text → Option (ℤ × ℤ)
unfolding after_prefix parse_range
parse_range_header value = do spec ← after_prefix (codes "bytes=") value; parse_range spec

-- The request as boost::urls and boost::beast hand it over: the path and the parameters of the
-- target, unless that is no relative reference, and the value of the Range header.
pub record Request : Type 0 where
  pub target : Option (Text × List (Text × Text))
  pub range : Text

-- `params.find(key)`
unfoldable pub find_param : Text → List (Text × Text) → Option Text
unfolding text_eq
find_param key [] = none
find_param key ((k, v) ∷ rest) = if text_eq k key then some v else find_param key rest

-- The answer of `dw_get_task_file_info`: none at all, one that cannot be parsed, one with an error
-- code, or the path and the size of the file.
pub data FileInfo : Type 0 where
  no_response malformed refused : FileInfo
  found : Text → ℤ → FileInfo

-- What the handler asks of the rest of the program and of the file system. `end_of_file` is
-- `tellg()` of the file opened at its end, `none` where it cannot be opened.
pub record Files : Type 0 where
  pub file_info : Text → Text → ℤ → FileInfo
  pub end_of_file : Text → Option ℤ

abbrev pub protocol_of : Text → Option Protocol
protocol_of type =
    if text_eq type (codes "http")
    then some Protocol.http
    else if text_eq type (codes "bt")
    then some Protocol.torrent
    else none

abbrev all_digits : Text → Bool
all_digits [] = true
all_digits (c ∷ s) = is_digit c && all_digits s

-- `from_chars` that must reach the end of the text.
unfoldable pub whole_number : ℕ → Text → Option ℤ
unfolding from_chars
whole_number limit [] = none
whole_number limit (c ∷ s) =
    if (c == b'-' || is_digit c) && all_digits s then from_chars limit (c ∷ s) else none

-- The four parameters of the query.
pub record Query : Type 0 where
  pub client_id : Text
  pub type : Text
  pub key : Text
  pub file : Text

unfoldable pub query_of : List (Text × Text) → Option Query
unfolding find_param
query_of params = do
  client_id ← find_param (codes "client_id") params
  type ← find_param (codes "type") params
  key ← find_param (codes "key") params
  file ← find_param (codes "file") params
  some (record { client_id = client_id; type = type; key = key; file = file })

-- The open end of a range, from the size or else from the file on disk.
unfoldable pub completed_end : Files → Session → Option ℤ
unfolding ◌-ℤ◌
completed_end files s =
    if ltb_ℤ s.range_end (pos 0)
    then if ltb_ℤ (pos 0) s.total_size
      then some (s.total_size -ℤ pos 1)
      else elim (files.end_of_file s.file_path) [
        | some n ↦ if ltb_ℤ (pos 0) n then some (n -ℤ pos 1) else none
        | none ↦ none
      ]
    else some s.range_end

-- The checks once the file is known, by the completed end of the range.
unfoldable pub range_checked : Session → Option ℤ → Session × Next
range_checked s none = (
  s,
  send_error HttpStatus.internal_server_error "Cannot determine file size for open-ended range",
)
range_checked s (some end) =
    if ltb_ℤ end s.range_start
    then (
      record s { range_end = end },
      send_range_error (if ltb_ℤ (pos 0) s.total_size then some s.total_size else none),
    )
    else (record s { range_end = end }, at s.range_start)

-- The answer of `dw_get_task_file_info`
unfoldable pub with_file : Files → Session → FileInfo → Session × Next
unfolding range_checked completed_end
with_file files s FileInfo.no_response =
    (s, send_error HttpStatus.not_found "Task or file not found")
with_file files s FileInfo.refused = (s, send_error HttpStatus.not_found "Task or file not found")
with_file files s FileInfo.malformed =
    (s, send_error HttpStatus.internal_server_error "Parse response failed")
with_file files s (FileInfo.found path size) =
    let s' : Session = record s { file_path = path; total_size = size } in
    range_checked s' (completed_end files s')

-- The range of the request, if its header can be read. What an error leaves in a session that has
-- ended is not kept.
unfoldable pub with_range : Files → Session → Option (ℤ × ℤ) → Session × Next
unfolding with_file
with_range files s none = (s, send_error HttpStatus.bad_request "Invalid Range header")
with_range files s (some (start, end)) =
    with_file files (record s { range_start = start; range_end = end })
      (files.file_info s.client_id s.natural_key s.file_index)

-- The index of the file
unfoldable pub with_index : Files → Text → Session → Option ℤ → Session × Next
unfolding with_range parse_range_header
with_index files range s none =
    (s, send_error HttpStatus.bad_request "Invalid type/key/file parameter")
with_index files range s (some i) =
    if is_empty range
    then (record s { file_index = i }, send_error HttpStatus.bad_request "Missing Range header")
    else with_range files (record s { file_index = i }) (parse_range_header range)

-- The protocol, by the parameter `type`
unfoldable pub with_protocol : Files → Text → Query → Option Protocol → Session × Next
unfolding with_index whole_number
with_protocol files range q none = (
  record new_session { client_id = q.client_id },
  send_error HttpStatus.bad_request "Invalid type parameter",
)
with_protocol files range q (some p) =
    with_index files range
      (record new_session { client_id = q.client_id; protocol = p; natural_key = q.key })
      (whole_number int32_max q.file)

-- The four parameters
unfoldable pub with_query : Files → Text → Option Query → Session × Next
unfolding with_protocol
with_query files range none =
    (new_session, send_error HttpStatus.bad_request "Missing client_id/type/key/file parameter")
with_query files range (some q) = with_protocol files range q (protocol_of q.type)

-- The target
unfoldable pub with_target : Files → Text → Option (Text × List (Text × Text)) → Session × Next
unfolding with_query query_of
with_target files range none = (new_session, send_error HttpStatus.not_found "Not Found")
with_target files range (some (path, params)) =
    if text_eq path (codes "/file")
    then with_query files range (query_of params)
    else (new_session, send_error HttpStatus.not_found "Not Found")

-- `handle_request` of a new session
unfoldable pub handle_request : Files → Request → Session × Next
unfolding with_target
handle_request files r = with_target files r.range r.target
