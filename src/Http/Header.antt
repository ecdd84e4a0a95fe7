-- ===== src/Http/Header.antt =====
-- `header_cb` of src/http/http_engine_impl.cpp: one line of the header of a response, and
-- `parse_content_disposition_filename`. The result says whether the line is consumed; otherwise the
-- connection ends. Exceptions, which only a lack of memory raises here, are left out.
pub mod Identity
use download_wrapper.Base.{
  ℕ, Bool, true, false, ◌&&◌, ◌||◌, not, Option, none, some, List, [], ◌∷◌, if◌then◌else◌, get_or,
  length, leb, ◌==◌,
}
use download_wrapper.Base.Int.{ℤ, pos, ltb_ℤ, leb_ℤ, eqb_ℤ}
use download_wrapper.Api.{TaskStatus, Reason, is_error}
use download_wrapper.Text.{
  Text, codes, is_empty, text_eq, iequals, after_prefix, after_first, cut, trim_view, sv_to_int,
  int64_max,
}
use download_wrapper.Http.Part.{Part}
use download_wrapper.Http.Task.{
  PartCtx, TaskCtx, part_at, set_part, set_part_ctx, new_part_ctx, failed,
}

abbrev pub ctx_of : TaskCtx → ℕ → PartCtx
ctx_of t i = get_or t.part_ctx i (new_part_ctx i)

-- Drops a tail of carriage returns and line feeds.
unfoldable pub strip_eol : Text → Text
strip_eol [] = []
strip_eol (c ∷ s) = elim (strip_eol s) [
  | [] ↦ if c == 13 || c == 10 then [] else c ∷ []
  | d ∷ t ↦ c ∷ d ∷ t
]

-- What stands between a leading and a trailing quotation mark, if there are both.
unfoldable pub drop_last : Text → Text
drop_last [] = []
drop_last (c ∷ []) = []
drop_last (c ∷ d ∷ s) = c ∷ drop_last (d ∷ s)

unfoldable pub ends_in_quote : Text → Bool
ends_in_quote [] = false
ends_in_quote (c ∷ []) = c == b'"'
ends_in_quote (c ∷ d ∷ s) = ends_in_quote (d ∷ s)

unfoldable pub unquoted : Text → Text
unfolding drop_last ends_in_quote
unquoted [] = []
unquoted (c ∷ s) = if c == b'"' && ends_in_quote s then drop_last s else c ∷ s

-- The text behind the second apostrophe, if there are two.
abbrev behind_language : Text → Text
behind_language s = elim (cut 39 s) [
  | none ↦ s
  | some (before, behind) ↦ elim (cut 39 behind) [ none ↦ s | some (charset, rest) ↦ rest ]
]

-- `parse_content_disposition_filename`
unfoldable pub parse_content_disposition_filename : Text → Text
unfolding after_first trim_view cut unquoted
parse_content_disposition_filename value = elim (after_first (codes "filename*=") value) [
  | some encoded ↦ unquoted (behind_language (trim_view encoded))
  | none ↦ elim (after_first (codes "filename=") value) [
    | some name ↦ unquoted (trim_view name)
    | none ↦ []
  ]
]

-- A line: the status line, with the code if it can be read; a field with its name and its value; or
-- anything else.
pub data Line : Type 0 where
  status : Option ℤ → Line
  field : Text → Text → Line
  other : Line

unfoldable pub field_of : Option (Text × Text) → Line
unfolding trim_view
field_of none = Line.other
field_of (some (name, value)) = Line.field (trim_view name) (trim_view value)

unfoldable pub status_of : Option (Text × Text) → Option ℤ
unfolding sv_to_int
status_of none = none
status_of (some (version, rest)) = sv_to_int int64_max rest

unfoldable pub parse_line : Text → Line
unfolding after_prefix cut field_of status_of
parse_line [] = Line.other
parse_line (c ∷ s) = elim (after_prefix (codes "HTTP/") (c ∷ s)) [
  | some rest ↦ Line.status (status_of (cut b' ' (c ∷ s)))
  | none ↦ field_of (cut b':' (c ∷ s))
]

-- `mark_drift_error`
unfoldable pub mark_drift_error : TaskCtx → ℕ → TaskCtx × Bool
mark_drift_error t i = (
  failed
      (set_part t i (record (part_at t i) { status = TaskStatus.error; reason = Reason.general }))
      "文件已变更，需重新下载",
  false,
)

-- The end of each check for drift.
unfoldable pub consumed_unless : Bool → TaskCtx → ℕ → TaskCtx × Bool
unfolding mark_drift_error
consumed_unless drift t i = if drift then mark_drift_error t i else (t, true)

-- Whether a stream of the whole file can be stored: one part, of which nothing has arrived.
abbrev pub full_stream_ok : TaskCtx → ℕ → Bool
full_stream_ok t i = leb (length t.parts) 1 && eqb_ℤ (part_at t i).done (pos 0)

unfoldable pub on_status : TaskCtx → ℕ → Option ℤ → TaskCtx × Bool
on_status t i none = (t, true)
on_status t i (some code) =
    let t' = set_part_ctx t i (record (ctx_of t i) { seen_http_code = code }) in
    consumed_unless (eqb_ℤ code (pos 200) && not (full_stream_ok t i)) t' i

-- The total behind the slash of a Content-Range, if there is a positive one.
unfoldable pub announced_total : Option (Text × Text) → Option ℤ
unfolding sv_to_int
announced_total none = none
announced_total (some (range, [])) = none
announced_total (some (range, c ∷ s)) =
    if c == b'*' then none else elim (sv_to_int int64_max (c ∷ s)) [
      | none ↦ none
      | some total ↦ if ltb_ℤ (pos 0) total then some total else none
    ]

unfoldable pub on_content_range : TaskCtx → ℕ → Option ℤ → TaskCtx × Bool
on_content_range t i none = (t, true)
on_content_range t i (some total) =
    let known = if leb_ℤ t.total_size (pos 0) then total else t.total_size in
    let t' : TaskCtx = record (set_part_ctx t i (record (ctx_of t i) { seen_total_size = total })) {
      total_size = known;
    } in
    consumed_unless (ltb_ℤ (pos 0) known && not (eqb_ℤ total known)) t' i

unfoldable pub on_content_length : TaskCtx → ℕ → Option ℤ → TaskCtx
on_content_length t i none = t
on_content_length t i (some n) =
    let c = ctx_of t i in
    if ltb_ℤ (pos 0) n
      && leb_ℤ c.seen_total_size (pos 0)
      && t.probing
      && not (eqb_ℤ c.seen_http_code (pos 206))
    then set_part_ctx t i (record c { seen_total_size = n })
    else t

unfoldable pub on_etag : TaskCtx → ℕ → Text → TaskCtx × Bool
unfolding text_eq
on_etag t i value =
    let known = if is_empty t.etag then value else t.etag in
    let t' : TaskCtx = record (set_part_ctx t i (record (ctx_of t i) { seen_etag = value })) {
      etag = known;
    } in
    consumed_unless (not (is_empty known) && not (text_eq value known)) t' i

unfoldable pub on_last_modified : TaskCtx → ℕ → Text → TaskCtx × Bool
unfolding text_eq
on_last_modified t i value =
    let known = if is_empty t.last_modified then value else t.last_modified in
    let t' : TaskCtx =
      record (set_part_ctx t i (record (ctx_of t i) { seen_last_modified = value })) {
        last_modified = known;
      } in
    consumed_unless (not (is_empty known) && not (text_eq value known)) t' i

-- An empty name leaves the name empty, as in the source.
unfoldable pub on_disposition : TaskCtx → Text → TaskCtx
unfolding parse_content_disposition_filename
on_disposition t value =
    if is_empty t.filename
    then record t { filename = parse_content_disposition_filename value }
    else t

unfoldable pub on_field : TaskCtx → ℕ → Text → Text → TaskCtx × Bool
unfolding on_content_range announced_total on_content_length on_disposition on_etag on_last_modified
    iequals cut sv_to_int
on_field t i name value =
    if iequals name (codes "Content-Range")
    then on_content_range t i (announced_total (cut b'/' value))
    else if iequals name (codes "Content-Length")
    then (on_content_length t i (sv_to_int int64_max value), true)
    else if iequals name (codes "Content-Disposition")
    then (on_disposition t value, true)
    else if iequals name (codes "ETag")
    then on_etag t i value
    else if iequals name (codes "Last-Modified")
    then on_last_modified t i value
    else (t, true)

unfoldable pub on_line : TaskCtx → ℕ → Line → TaskCtx × Bool
unfolding on_status on_field
on_line t i (Line.status code) = on_status t i code
on_line t i (Line.field name value) = on_field t i name value
on_line t i Line.other = (t, true)

unfoldable pub header_cb : TaskCtx → ℕ → Text → TaskCtx × Bool
unfolding on_line parse_line strip_eol
header_cb t i buffer =
    if is_error t.status || t.cancel_req || is_empty buffer
    then (t, false)
    else on_line t i (parse_line (strip_eol buffer))
