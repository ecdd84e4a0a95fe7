-- ===== src/Http/UrlName.antt =====
-- `sanitize_basename` and `extract_filename_from_url` of src/http/http_engine_impl.cpp. The parser of
-- URLs and the decoder of percent escapes, which throws on an escape that is none, are parameters. The
-- source reads the parsed URL through a view of a string that is gone by then; the model takes what
-- these reads give, any texts at all, as the value of the parser.
pub mod Named
mod Tests
use download_wrapper.Base.{
  ℕ, Bool, true, false, ◌&&◌, ◌||◌, not, Option, none, some, List, [], ◌∷◌, ◌==◌, if◌then◌else◌,
}
use download_wrapper.Text.{Text, is_empty, codes, iequals}
use download_wrapper.Http.Path.{is_slash, behind_last}

-- What the parser gives: the decoded parameters of the query, and the encoded segments of the path.
pub record Uri : Type 0 where
  pub params : List (Text × Text)
  pub segments : List Text

abbrev pub is_separator : ℕ → Bool
is_separator c = is_slash c || c == b'\\'

unfoldable pub sanitize_basename : Text → Text
unfolding behind_last
sanitize_basename s = behind_last is_separator s s

-- A turn of the loop on `by_filename` and `by_name`.
unfoldable pub name_param : Text × Text → Text × Text → Text × Text
unfolding sanitize_basename iequals
name_param (key, val) (by_filename, by_name) =
    if is_empty val
    then (by_filename, by_name)
    else if is_empty by_filename && iequals key (codes "filename")
    then (sanitize_basename val, by_name)
    else if is_empty by_name && iequals key (codes "name")
    then (by_filename, sanitize_basename val)
    else (by_filename, by_name)

unfoldable pub scan_params : List (Text × Text) → Text × Text → Text × Text
unfolding name_param
scan_params [] names = names
scan_params (p ∷ params) names = scan_params params (name_param p names)

-- `segments.back()`
abbrev pub last_segment : List Text → Text
last_segment [] = []
last_segment (s ∷ []) = s
last_segment (s ∷ t ∷ rest) = last_segment (t ∷ rest)

-- A URL that the parser does not take.
abbrev pub by_decoding : Option Text → Option Text
by_decoding none = none
by_decoding (some name) = some (sanitize_basename name)

unfoldable pub unparsed_name : (Text → Option Text) → Text → Option Text
unfolding sanitize_basename behind_last
unparsed_name decode url =
    let name = behind_last is_slash [] url in
    if is_empty name then some [] else by_decoding (decode name)

unfoldable pub parsed_name : Uri → Text
unfolding scan_params sanitize_basename
parsed_name uri =
    let names = scan_params uri.params ([], []) in
    if not (is_empty names.0)
    then names.0
    else if not (is_empty names.1)
    then names.1
    else sanitize_basename (last_segment uri.segments)

abbrev pub extracted : Option Uri → Option Text → Option Text
extracted none unparsed = unparsed
extracted (some uri) unparsed = some (parsed_name uri)

-- `none` is the exception of the decoder.
unfoldable pub extract_filename_from_url :
    (Text → Option Uri) → (Text → Option Text) → Text → Option Text
unfolding parsed_name unparsed_name
extract_filename_from_url parse decode url = extracted (parse url) (unparsed_name decode url)
