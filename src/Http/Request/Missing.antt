-- ===== src/Http/Request/Missing.antt =====
-- A request asks for the bytes that its part still lacks.
use download_wrapper.Base.{
  ℕ, ◌+◌, ◌≤◌, ◌≡◌, refl, sym, ap, ap₂, ◌∙◌, true, false, some, ◌∷◌, ◌++◌, arith,
}
use download_wrapper.Base.Int.{pos, pos_part, neg_part, ◌+ℤ◌, leb_ℤ, eq_of_parts, int_laws}
use download_wrapper.Text.{to_string, int64_max}
use download_wrapper.Http.Part.{Part}
use download_wrapper.Http.Task.{TaskCtx}
use download_wrapper.Http.Request.{range_hdr}
use download_wrapper.Playback.Request.{parse_range}
use download_wrapper.Playback.Request.Ranges.{parse_range-to_string}

leb_lem : (a b : ℕ) → a ≤ b → leb_ℤ (pos a) (pos b) ≡ true
leb_lem a b h = ground arith

range_hdr_lem :
    (t : TaskCtx) (p : Part)
    → t.probing ≡ false
    → leb_ℤ (p.start +ℤ p.done) p.end ≡ true
    → range_hdr t p ≡ to_string (p.start +ℤ p.done) ++ (b'-' ∷ to_string p.end)
unfolding range_hdr
range_hdr_lem t p h k = rw (h, k) refl

-- Once the probe is over, the request for a part that is not full reads, as a range, from the first
-- byte that the part lacks to its last byte, for offsets up to the greatest 64-bit number.
pub range_hdr-parse_range :
    (t : TaskCtx) (p : Part) (a d e : ℕ)
    → t.probing ≡ false
    → p.start ≡ pos a
    → p.done ≡ pos d
    → p.end ≡ pos e
    → a + d ≤ e
    → e ≤ int64_max
    → parse_range (range_hdr t p) ≡ some (p.start +ℤ p.done, p.end)
range_hdr-parse_range t p a d e over at_a has_d to_e some_left small =
    let next : p.start +ℤ p.done ≡ pos (a + d) = eq_of_parts _ _ (
      omega (int_laws, ap pos_part at_a, ap neg_part at_a, ap pos_part has_d, ap neg_part has_d)) in
    let lacks : leb_ℤ (p.start +ℤ p.done) p.end ≡ true =
      ap₂ leb_ℤ next to_e ∙ leb_lem (a + d) e some_left in
    ap parse_range (range_hdr_lem t p over lacks)
    ∙ ap₂ (λ x y. parse_range (to_string x ++ (b'-' ∷ to_string y))) next to_e
    ∙ parse_range-to_string (a + d) e (omega arith) small
    ∙ ap₂ (λ x y. some (x, y)) (sym next) (sym to_e)
