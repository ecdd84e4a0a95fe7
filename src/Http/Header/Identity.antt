-- ===== src/Http/Header/Identity.antt =====
-- The headers of a response never change what is known of the file.
use download_wrapper.Base.{
  ℕ, ◌≡◌, refl, ◌⊎◌, inl, inr, Bool, true, false, ◌&&◌, not, if_intro, Option, none, some,
  if◌then◌else◌, arith,
}
use download_wrapper.Base.Int.{ℤ, pos, ◌<ℤ◌, ltb_ℤ, leb_ℤ, eqb_ℤ}
use download_wrapper.Api.{TaskStatus, is_error}
use download_wrapper.Text.{Text, is_empty, cut, sv_to_int, int64_max}
use download_wrapper.Http.Task.{TaskCtx, set_part_ctx}
use download_wrapper.Http.Header.{
  Line, mark_drift_error, consumed_unless, ctx_of, parse_content_disposition_filename, on_status,
  on_content_range, announced_total, on_content_length, on_etag, on_last_modified, on_disposition,
  on_field, on_line, parse_line, strip_eol, header_cb,
}

-- What identifies the file is as before, and a line that is not consumed has put the task in error.
pub record Stays (t : TaskCtx) (r : TaskCtx × Bool) : Type 0 where
  pub total_size : r.0.total_size ≡ t.total_size
  pub etag : r.0.etag ≡ t.etag
  pub last_modified : r.0.last_modified ≡ t.last_modified
  pub refused : (r.1 ≡ true) ⊎ (r.0.status ≡ TaskStatus.error)

module _ (t : TaskCtx) (i : ℕ) (sized : pos 0 <ℤ t.total_size) (tagged : is_empty t.etag ≡ false)
    (dated : is_empty t.last_modified ≡ false) where
  same :
      (t' : TaskCtx)
      → t'.total_size ≡ t.total_size
      → t'.etag ≡ t.etag
      → t'.last_modified ≡ t.last_modified
      → Stays t (t', true)
  same t' a b c = record { total_size = a; etag = b; last_modified = c; refused = inl refl }

  drifted :
      (t' : TaskCtx)
      → t'.total_size ≡ t.total_size
      → t'.etag ≡ t.etag
      → t'.last_modified ≡ t.last_modified
      → Stays t (mark_drift_error t' i)
  unfolding mark_drift_error
  drifted t' a b c = record { total_size = a; etag = b; last_modified = c; refused = inr refl }

  either :
      (b : Bool) (t' : TaskCtx)
      → t'.total_size ≡ t.total_size
      → t'.etag ≡ t.etag
      → t'.last_modified ≡ t.last_modified
      → Stays t (consumed_unless b t' i)
  unfolding consumed_unless
  either true t' a b c = drifted t' a b c
  either false t' a b c = same t' a b c

  keep_size :
      (total : ℤ) → (if leb_ℤ t.total_size (pos 0) then total else t.total_size) ≡ t.total_size
  keep_size total = let e : leb_ℤ t.total_size (pos 0) ≡ false = ground arith in rw e refl

  on_status-Stays : (o : Option ℤ) → Stays t (on_status t i o)
  unfolding on_status
  on_status-Stays none = same t refl refl refl
  on_status-Stays (some code) = either _ _ refl refl refl

  on_content_range-Stays : (o : Option ℤ) → Stays t (on_content_range t i o)
  unfolding on_content_range
  on_content_range-Stays none = same t refl refl refl
  on_content_range-Stays (some total) = either _ _ (keep_size total) refl refl

  on_content_length-Stays : (o : Option ℤ) → Stays t (on_content_length t i o, true)
  unfolding on_content_length
  on_content_length-Stays none = same t refl refl refl
  on_content_length-Stays (some n) =
      let c = ctx_of t i in
      let t' = set_part_ctx t i (record c { seen_total_size = n }) in
      if_intro (λ u. Stays t (u, true))
        (ltb_ℤ (pos 0) n
          && leb_ℤ c.seen_total_size (pos 0)
          && t.probing
          && not (eqb_ℤ c.seen_http_code (pos 206)))
        t' t (λ e. same t' refl refl refl) (λ e. same t refl refl refl)

  on_etag-Stays : (value : Text) → Stays t (on_etag t i value)
  unfolding on_etag
  on_etag-Stays value = either _ _ refl (rw tagged refl) refl

  on_last_modified-Stays : (value : Text) → Stays t (on_last_modified t i value)
  unfolding on_last_modified
  on_last_modified-Stays value = either _ _ refl refl (rw dated refl)

  on_disposition-Stays : (value : Text) → Stays t (on_disposition t value, true)
  unfolding on_disposition
  on_disposition-Stays value =
      let t' : TaskCtx = record t { filename = parse_content_disposition_filename value } in
      if_intro (λ u. Stays t (u, true)) (is_empty t.filename) t' t (λ e. same t' refl refl refl)
        (λ e. same t refl refl refl)

  on_field-Stays : (name value : Text) → Stays t (on_field t i name value)
  unfolding on_field
  on_field-Stays name value = ground (
    arith,
    on_content_range-Stays (announced_total (cut b'/' value)),
    on_content_length-Stays (sv_to_int int64_max value),
    on_disposition-Stays value,
    on_etag-Stays value,
    on_last_modified-Stays value,
    same t refl refl refl,
  )

  on_line-Stays : (l : Line) → Stays t (on_line t i l)
  unfolding on_line
  on_line-Stays (Line.status code) = on_status-Stays code
  on_line-Stays (Line.field name value) = on_field-Stays name value
  on_line-Stays Line.other = same t refl refl refl

  -- Once the total size, the ETag and the date of a file are known, no header line changes them. A
  -- line that is refused while the download goes on has put the task in error.
  pub header_cb-Stays :
      (buffer : Text)
      → is_error t.status ≡ false
      → t.cancel_req ≡ false
      → is_empty buffer ≡ false
      → Stays t (header_cb t i buffer)
  unfolding header_cb
  header_cb-Stays buffer a b c = ground (arith, on_line-Stays (parse_line (strip_eol buffer)))
