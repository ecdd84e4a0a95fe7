-- ===== src/Http/Transfer/Own.antt =====
-- What the callbacks of one part leave alone: the other parts, and what a part context says of its
-- part and of its retries.
use download_wrapper.Base.{
  ℕ, ◌≡◌, ◌≢◌, refl, ap, ◌∙◌, Bool, true, false, ◌&&◌, ◌||◌, not, Option, none, some, length,
  length-set, get_or, get_or-set_ne, get_or-set_like, set, if_intro, Option-cases, inl, inr, ◌==◌,
  if◌then◌else◌,
}
use download_wrapper.Base.Int.{ℤ, pos, ltb_ℤ, leb_ℤ, eqb_ℤ}
use download_wrapper.Api.{is_error}
use download_wrapper.Text.{Text, is_empty, codes, iequals, cut, sv_to_int, int64_max}
use download_wrapper.Http.Part.{Part, zero_part}
use download_wrapper.Http.Task.{PartCtx, TaskCtx, part_at, set_part_ctx, new_part_ctx}
use download_wrapper.Http.Header.{
  Line, mark_drift_error, consumed_unless, ctx_of, parse_content_disposition_filename, on_status,
  on_content_range, announced_total, on_content_length, on_etag, on_last_modified, on_disposition,
  on_field, on_line, parse_line, strip_eol, header_cb,
}
use download_wrapper.Http.Write.{Disk, WriteAnswer, write_length, write_part, stored}

-- Whose part it is, how often it was retried, and whether the request is that of the probe.
abbrev pub role : PartCtx → ℕ × ℤ × Bool
role c = (c.index, c.retry_count, c.probe_window)

pub record Own (i : ℕ) (t t' : TaskCtx) : Type 0 where
  pub parts : length t'.parts ≡ length t.parts
  pub contexts : length t'.part_ctx ≡ length t.part_ctx
  pub others : (j : ℕ) → i ≢ j → part_at t' j ≡ part_at t j
  pub roles : (j : ℕ) → role (ctx_of t' j) ≡ role (ctx_of t j)
  pub probing : t'.probing ≡ t.probing

pub Own-trans : {i : ℕ} {t u v : TaskCtx} → Own i t u → Own i u v → Own i t v
Own-trans a b = record {
  parts = b.parts ∙ a.parts;
  contexts = b.contexts ∙ a.contexts;
  others = λ j n. b.others j n ∙ a.others j n;
  roles = λ j. b.roles j ∙ a.roles j;
  probing = b.probing ∙ a.probing;
}

module _ (i : ℕ) (t : TaskCtx) where
  -- The parts and the part contexts are as before.
  pub same-Own :
      (t' : TaskCtx)
      → t'.parts ≡ t.parts
      → t'.part_ctx ≡ t.part_ctx
      → t'.probing ≡ t.probing
      → Own i t t'
  same-Own t' a b c = record {
    parts = ap length a;
    contexts = ap length b;
    others = λ j n. ap (λ ps. get_or ps j zero_part) a;
    roles = λ j. ap (λ cs. role (get_or cs j (new_part_ctx j))) b;
    probing = c;
  }

  -- The part is written.
  pub set_part-Own :
      (t' : TaskCtx) (p : Part)
      → t'.parts ≡ set t.parts i p
      → t'.part_ctx ≡ t.part_ctx
      → t'.probing ≡ t.probing
      → Own i t t'
  set_part-Own t' p a b c = record {
    parts = ap length a ∙ length-set t.parts i p;
    contexts = ap length b;
    others = λ j n. ap (λ ps. get_or ps j zero_part) a ∙ get_or-set_ne t.parts p zero_part n;
    roles = λ j. ap (λ cs. role (get_or cs j (new_part_ctx j))) b;
    probing = c;
  }

  -- The part context is written, with its role as before.
  pub set_part_ctx-Own :
      (t' : TaskCtx) (c : PartCtx)
      → t'.parts ≡ t.parts
      → t'.part_ctx ≡ set t.part_ctx i c
      → t'.probing ≡ t.probing
      → role c ≡ role (ctx_of t i)
      → Own i t t'
  set_part_ctx-Own t' c a b e r = record {
    parts = ap length a;
    contexts = ap length b ∙ length-set t.part_ctx i c;
    others = λ j n. ap (λ ps. get_or ps j zero_part) a;
    roles = λ j.
        ap (λ cs. role (get_or cs j (new_part_ctx j))) b
        ∙ get_or-set_like role t.part_ctx i j c (new_part_ctx i) (new_part_ctx j) r;
    probing = e;
  }

consumed_unless-Own :
    (i : ℕ) (t : TaskCtx) (b : Bool) (t' : TaskCtx)
    → Own i t t'
    → Own i t (consumed_unless b t' i).0
unfolding consumed_unless mark_drift_error
consumed_unless-Own i t false t' h = h
consumed_unless-Own i t true t' h = Own-trans h (set_part-Own i t' _ _ refl refl refl)

module _ (i : ℕ) (t : TaskCtx) where
  on_status-Own : (o : Option ℤ) → Own i t (on_status t i o).0
  unfolding on_status
  on_status-Own none = same-Own i t t refl refl refl
  on_status-Own (some code) =
      consumed_unless-Own i t _ _ (set_part_ctx-Own i t _ _ refl refl refl refl)

  on_content_range-Own : (o : Option ℤ) → Own i t (on_content_range t i o).0
  unfolding on_content_range
  on_content_range-Own none = same-Own i t t refl refl refl
  on_content_range-Own (some total) =
      consumed_unless-Own i t _ _ (set_part_ctx-Own i t _ _ refl refl refl refl)

  on_content_length-Own : (o : Option ℤ) → Own i t (on_content_length t i o)
  unfolding on_content_length
  on_content_length-Own none = same-Own i t t refl refl refl
  on_content_length-Own (some n) =
      let c = ctx_of t i in
      let t' = set_part_ctx t i (record c { seen_total_size = n }) in
      if_intro (Own i t)
        (ltb_ℤ (pos 0) n
          && leb_ℤ c.seen_total_size (pos 0)
          && t.probing
          && not (eqb_ℤ c.seen_http_code (pos 206)))
        t' t (λ e. set_part_ctx-Own i t t' _ refl refl refl refl)
        (λ e. same-Own i t t refl refl refl)

  on_etag-Own : (value : Text) → Own i t (on_etag t i value).0
  unfolding on_etag
  on_etag-Own value = consumed_unless-Own i t _ _ (set_part_ctx-Own i t _ _ refl refl refl refl)

  on_last_modified-Own : (value : Text) → Own i t (on_last_modified t i value).0
  unfolding on_last_modified
  on_last_modified-Own value =
      consumed_unless-Own i t _ _ (set_part_ctx-Own i t _ _ refl refl refl refl)

  on_disposition-Own : (value : Text) → Own i t (on_disposition t value)
  unfolding on_disposition
  on_disposition-Own value =
      let t' : TaskCtx = record t { filename = parse_content_disposition_filename value } in
      if_intro (Own i t) (is_empty t.filename) t' t (λ e. same-Own i t t' refl refl refl)
        (λ e. same-Own i t t refl refl refl)

  -- Five tests in a row.
  first-Own :
      (a b c d e : Bool) (u v w x y z : TaskCtx × Bool)
      → Own i t u.0
      → Own i t v.0
      → Own i t w.0
      → Own i t x.0
      → Own i t y.0
      → Own i t z.0
      → Own i t
          (if a then u else if b then v else if c then w else if d then x else if e then y else z).0
  first-Own true b c d e u v w x y z hu hv hw hx hy hz = hu
  first-Own false true c d e u v w x y z hu hv hw hx hy hz = hv
  first-Own false false true d e u v w x y z hu hv hw hx hy hz = hw
  first-Own false false false true e u v w x y z hu hv hw hx hy hz = hx
  first-Own false false false false true u v w x y z hu hv hw hx hy hz = hy
  first-Own false false false false false u v w x y z hu hv hw hx hy hz = hz

  on_field-Own : (name value : Text) → Own i t (on_field t i name value).0
  unfolding on_field
  on_field-Own name value =
      first-Own (iequals name (codes "Content-Range")) (iequals name (codes "Content-Length"))
        (iequals name (codes "Content-Disposition")) (iequals name (codes "ETag"))
        (iequals name (codes "Last-Modified"))
        (on_content_range t i (announced_total (cut b'/' value)))
        (on_content_length t i (sv_to_int int64_max value), true) (on_disposition t value, true)
        (on_etag t i value) (on_last_modified t i value) (t, true) (on_content_range-Own _)
        (on_content_length-Own (sv_to_int int64_max value)) (on_disposition-Own value)
        (on_etag-Own value) (on_last_modified-Own value) (same-Own i t t refl refl refl)

  on_line-Own : (line : Line) → Own i t (on_line t i line).0
  unfolding on_line
  on_line-Own (Line.status code) = on_status-Own code
  on_line-Own (Line.field name value) = on_field-Own name value
  on_line-Own Line.other = same-Own i t t refl refl refl

  pub header_cb-Own : (buffer : Text) → Own i t (header_cb t i buffer).0
  unfolding header_cb
  header_cb-Own buffer =
      if_intro (λ (r : TaskCtx × Bool). Own i t r.0)
        (is_error t.status || t.cancel_req || is_empty buffer) (t, false)
        (on_line t i (parse_line (strip_eol buffer))) (λ e. same-Own i t t refl refl refl)
        (λ e. on_line-Own (parse_line (strip_eol buffer)))

  stored-Own :
      (there well : Bool) (errno landed : ℕ) (disk : Disk) (bytes : Text) (n : ℕ)
      → Own i t (stored there well errno landed t i disk bytes n).1
  unfolding stored
  stored-Own false well errno landed disk bytes n = set_part-Own i t _ _ refl refl refl
  stored-Own true false errno landed disk bytes n = set_part-Own i t _ _ refl refl refl
  stored-Own true true errno landed disk bytes n = set_part-Own i t _ _ refl refl refl

  pub write_part-Own :
      (answer : WriteAnswer) (disk : Disk) (bytes : Text)
      → Own i t (write_part answer t i disk bytes).1
  unfolding write_part
  write_part-Own answer disk bytes =
      elim (Option-cases (write_length (part_at t i) (length bytes))) [
        | inl e ↦ rw (e, write_part) (same-Own i t t refl refl refl)
        | inr (n, e) ↦
            rw (e, write_part)
              (stored-Own answer.file_exists (answer.errno == 0) answer.errno answer.landed disk
                bytes n)
      ]
