-- ===== src/Http/Resume.antt =====
-- `serialize_resume`, `deserialize_resume` and `maybe_emit_resume` of src/http/http_engine_impl.cpp.
-- The coding of a value as bytes is libtorrent's bencode, a parameter.
pub mod Restore
use download_wrapper.Base.{
  ℕ, Bool, true, false, ◌&&◌, not, Option, none, some, List, [], ◌∷◌, ◌++◌, map, if◌then◌else◌,
}
use download_wrapper.Base.Int.{ℤ, pos, minus_one, pos_part, ◌+ℤ◌, ◌-ℤ◌, leb_ℤ, ltb_ℤ}
use download_wrapper.Api.{TaskStatus, Reason}
use download_wrapper.Text.{Text, codes, text_eq}
use download_wrapper.Http.Part.{Part, zero_part}
use download_wrapper.Http.Task.{TaskCtx}

-- `lt::entry` and `lt::bdecode_node`, with lists of numbers as their own kind.
pub data Entry : Type 0 where
  integer : ℤ → Entry
  string : Text → Entry
  table : List (List ℤ) → Entry
  none_such : Entry

abbrev pub Dict : Type 0
Dict = List (Text × Entry)

unfoldable pub find : Text → Dict → Entry
unfolding text_eq
find key [] = Entry.none_such
find key ((k, e) ∷ rest) = if text_eq k key then e else find key rest

-- `dict_find_int_value` and `dict_find_string_value`, with their defaults
abbrev pub int_value : ℤ → Entry → ℤ
int_value default (Entry.integer n) = n
int_value default _ = default

abbrev pub string_value : Entry → Text
string_value (Entry.string s) = s
string_value _ = []

abbrev pub part_item : Part → List ℤ
part_item p = pos p.index ∷ p.start ∷ p.end ∷ p.done ∷ []

-- The dictionary that `serialize_resume` builds.
unfoldable pub resume_entry : TaskCtx → Dict
resume_entry t =
    (codes "total_size", Entry.integer t.total_size)
    ∷ (codes "support_range", Entry.integer (if t.support_range then pos 1 else pos 0))
    ∷ (codes "etag", Entry.string t.etag)
    ∷ (codes "last_modified", Entry.string t.last_modified)
    ∷ (codes "path", Entry.string t.full_file_path)
    ∷ (codes "parts", Entry.table (map part_item t.parts))
    ∷ []

-- `HttpResumeData`
pub record HttpResumeData : Type 0 where
  pub ok : Bool
  pub total_size : ℤ
  pub support_range : ℤ
  pub etag : Text
  pub last_modified : Text
  pub full_file_path : Text
  pub parts : List Part

abbrev pub no_resume : HttpResumeData
no_resume = record {
  ok = false;
  total_size = minus_one;
  support_range = pos 0;
  etag = [];
  last_modified = [];
  full_file_path = [];
  parts = [];
}

-- The part of one item: its size and its state follow from its bounds and its count.
unfoldable pub restored_part : ℤ → ℤ → ℤ → ℤ → Part
unfolding ◌-ℤ◌ ◌+ℤ◌
restored_part index start end done =
    let size : ℤ = if leb_ℤ start end then end -ℤ start +ℤ pos 1 else pos 0 in
    record {
      index = pos_part index;
      start = start;
      end = end;
      size = size;
      done = done;
      status =
          if ltb_ℤ (pos 0) size && leb_ℤ size done
          then TaskStatus.completed
          else TaskStatus.downloading;
      reason = Reason.success;
    }

-- The loop over the items; one with fewer than four numbers is passed over.
unfoldable pub restored_parts : List (List ℤ) → List Part
unfolding restored_part
restored_parts [] = []
restored_parts ((index ∷ start ∷ end ∷ done ∷ more) ∷ rest) =
    restored_part index start end done ∷ restored_parts rest
restored_parts (_ ∷ rest) = restored_parts rest

abbrev pub table_of : Entry → List (List ℤ)
table_of (Entry.table items) = items
table_of _ = []

abbrev pub has_any : List Part → Bool
has_any [] = false
has_any (p ∷ ps) = true

-- `deserialize_resume`, once the bytes are decoded to a dictionary
unfoldable pub restored : Option Dict → HttpResumeData
unfolding find restored_parts
restored none = no_resume
restored (some d) =
    let parts = restored_parts (table_of (find (codes "parts") d)) in
    record {
      ok = has_any parts;
      total_size = int_value minus_one (find (codes "total_size") d);
      support_range = int_value (pos 0) (find (codes "support_range") d);
      etag = string_value (find (codes "etag") d);
      last_modified = string_value (find (codes "last_modified") d);
      full_file_path = string_value (find (codes "path") d);
      parts = parts;
    }

module _ (bencode : Dict → Text) (bdecode : Text → Option Dict) where
  -- `serialize_resume`
  unfoldable pub serialize_resume : TaskCtx → Text
  unfolding resume_entry
  serialize_resume t = bencode (resume_entry t)

  -- `deserialize_resume`
  unfoldable pub deserialize_resume : Text → HttpResumeData
  unfolding restored
  deserialize_resume [] = no_resume
  deserialize_resume (c ∷ s) = restored (bdecode (c ∷ s))

-- `total_done`
unfoldable pub total_done : List Part → ℤ
unfolding ◌+ℤ◌
total_done [] = pos 0
total_done (p ∷ ps) = p.done +ℤ total_done ps

-- `maybe_emit_resume`: whether the resume data is written, and the task afterwards.
unfoldable pub maybe_emit_resume : TaskCtx → TaskCtx × Bool
unfolding total_done
maybe_emit_resume t =
    if not t.support_range
    then (t, false)
    else if leb_ℤ (total_done t.parts) t.last_emit_done
    then (t, false)
    else (record t { last_emit_done = total_done t.parts }, true)
