-- ===== src/Http/Resume/Restore.antt =====
-- Resume data brings a task back.
use download_wrapper.Base.{
  ◌≡◌, refl, sym, ap, ap₂, subst, ◌∙◌, true, false, ◌&&◌, Option, some, List, [], ◌∷◌, All, map,
  if◌then◌else◌,
}
use download_wrapper.Base.Int.{ℤ, pos, ◌+ℤ◌, ◌-ℤ◌, leb_ℤ, ltb_ℤ}
use download_wrapper.Api.{TaskStatus, Reason}
use download_wrapper.Text.{Text, text_eq, is_empty}
use download_wrapper.Http.Part.{Part}
use download_wrapper.Http.Task.{TaskCtx}
use download_wrapper.Http.Resume.{
  has_any, Dict, find, part_item, resume_entry, HttpResumeData, restored_part, restored_parts,
  restored, serialize_resume, deserialize_resume,
}

-- A part that runs or has ended well, as the division of a file leaves it: its size fits its bounds.
pub record IsPlain (p : Part) : Type 0 where
  pub sized : p.size ≡ (if leb_ℤ p.start p.end then p.end -ℤ p.start +ℤ pos 1 else pos 0)
  pub state : p.status ≡ (
      if ltb_ℤ (pos 0) p.size && leb_ℤ p.size p.done
      then TaskStatus.completed
      else TaskStatus.downloading)
  pub no_reason : p.reason ≡ Reason.success

restored_part-plain : (p : Part) → IsPlain p → restored_part (pos p.index) p.start p.end p.done ≡ p
unfolding restored_part
restored_part-plain p h =
    let made : ℤ → TaskStatus → Reason → Part =
      λ size status reason. record p { size = size; status = status; reason = reason } in
    let state : ℤ → TaskStatus = λ size.
      if ltb_ℤ (pos 0) size && leb_ℤ size p.done
      then TaskStatus.completed
      else TaskStatus.downloading in
    ap (λ size. made size (state size) Reason.success) (sym h.sized)
    ∙ ap₂ (λ status reason. made p.size status reason) (sym h.state) (sym h.no_reason)

restored_parts-plain : (ps : List Part) → All IsPlain ps → restored_parts (map part_item ps) ≡ ps
unfolding restored_parts
restored_parts-plain [] h = refl
restored_parts-plain (p ∷ ps) h =
    ap₂ (λ a b. a ∷ b) (restored_part-plain p h.0) (restored_parts-plain ps h.1)

deserialize_written :
    (bencode : Dict → Text) (bdecode : Text → Option Dict) (s : Text)
    → is_empty s ≡ false
    → deserialize_resume bencode bdecode s ≡ restored (bdecode s)
unfolding deserialize_resume
deserialize_written bencode bdecode [] h = absurd (cc)
deserialize_written bencode bdecode (c ∷ s) h = refl

-- What a restart finds of a task.
pub record Restores (t : TaskCtx) (rd : HttpResumeData) : Type 0 where
  pub ok : rd.ok ≡ true
  pub total_size : rd.total_size ≡ t.total_size
  pub etag : rd.etag ≡ t.etag
  pub last_modified : rd.last_modified ≡ t.last_modified
  pub full_file_path : rd.full_file_path ≡ t.full_file_path
  pub parts : rd.parts ≡ t.parts

restored-Restores :
    (t : TaskCtx) (p : Part) (ps : List Part)
    → t.parts ≡ p ∷ ps
    → All IsPlain t.parts
    → Restores t (restored (some (resume_entry t)))
unfolding restored resume_entry find text_eq
restored-Restores t p ps some_part h =
    let same = restored_parts-plain t.parts h in
    record {
      ok = ap has_any (same ∙ some_part);
      total_size = refl;
      etag = refl;
      last_modified = refl;
      full_file_path = refl;
      parts = same;
    }

-- Resume data written for a task with parts, each sized by its bounds, completed exactly when it is
-- full and else running, reads back as that task's file: its size, its tags, its path and all its
-- parts, where the coding is not empty and is decoded to what was encoded.
pub deserialize-serialize :
    (bencode : Dict → Text) (bdecode : Text → Option Dict)
    → (t : TaskCtx) (p : Part) (ps : List Part)
    → bdecode (bencode (resume_entry t)) ≡ some (resume_entry t)
    → is_empty (bencode (resume_entry t)) ≡ false
    → t.parts ≡ p ∷ ps
    → All IsPlain t.parts
    → Restores t (deserialize_resume bencode bdecode (serialize_resume bencode bdecode t))
unfolding serialize_resume
deserialize-serialize bencode bdecode t p ps decodes written some_part h =
    let d = resume_entry t in
    subst (Restores t)
      (sym (deserialize_written bencode bdecode (bencode d) written ∙ ap restored decodes))
      (restored-Restores t p ps some_part h)
