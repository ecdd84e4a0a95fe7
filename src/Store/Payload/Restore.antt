-- ===== src/Store/Payload/Restore.antt =====
-- What is written for a file is read back.
use download_wrapper.Base.{◌<◌, ◌≡◌, refl, ap, Bool, false, some, List, [], ◌∷◌, arith}
use download_wrapper.Base.Int.{ℤ, pos, negsuc}
use download_wrapper.Manager.TaskFile.{TaskFile, segments_json}
use download_wrapper.Store.Payload.{
  Json, to_int32, c_str, read_segments, payload_of, file_payload, read_object, read_task_file,
}

-- A value that an `int32_t` holds.
abbrev pub FitsInt32 : ℤ → Type 0
FitsInt32 (pos n) = n < 2147483648
FitsInt32 (negsuc n) = n < 2147483648

to_int32_lem : (z : ℤ) → FitsInt32 z → to_int32 z ≡ z
unfolding to_int32
to_int32_lem (pos n) h = ground arith
to_int32_lem (negsuc n) h = ground arith

read_segments-segments_json :
    (Rate : Type 0) (l : List (ℤ × ℤ)) → read_segments {Rate = Rate} (segments_json l) ≡ l
unfolding read_segments segments_json
read_segments-segments_json Rate [] = refl
read_segments-segments_json Rate ((a, b) ∷ l) =
    ap (λ r. (a, b) ∷ r) (read_segments-segments_json Rate l)

module _ {Rate : Type 0} (json : Json Rate) where
  -- A file that can stand in a row: its texts hold no null, its priority is an `int32_t`, and its object
  -- is read back from the text written for it.
  pub record IsStorable (f : TaskFile Rate) : Type 0 where
    pub name : c_str f.name ≡ f.name
    pub path : c_str f.path ≡ f.path
    pub full_path : c_str f.full_path ≡ f.full_path
    pub extension : c_str f.extension ≡ f.extension
    pub prioritize : FitsInt32 f.prioritize
    pub read_back : json.parse (json.serialize (payload_of f)) ≡ some (payload_of f)

  read_object-payload_of :
      (f : TaskFile Rate) (is_read : Bool)
      → IsStorable f
      → read_object json f.task_id f.file_index is_read (payload_of f)
        ≡ record f { is_delete = false; is_read = is_read; dirty = false }
  unfolding read_object payload_of
  read_object-payload_of f is_read h = ground (
    arith,
    h.name,
    h.path,
    h.full_path,
    h.extension,
    to_int32_lem f.prioritize h.prioritize,
    read_segments-segments_json Rate f.segments,
  )

  -- A file written under a key and read back under it is the same file, but for what the row does not
  -- keep in the text: it is not deleted and not dirty, and whether it was read is the row's mark.
  pub read_task_file-file_payload :
      (f : TaskFile Rate) (is_read : Bool)
      → IsStorable f
      → read_task_file json f.task_id f.file_index (file_payload json f) is_read
        ≡ some (record f { is_delete = false; is_read = is_read; dirty = false })
  unfolding file_payload read_task_file
  read_task_file-file_payload f is_read h =
      rw (h.read_back, read_task_file) (ap some (read_object-payload_of f is_read h))
