-- ===== src/Http/UrlName/Named.antt =====
-- Which name a URL gives, and that it is no path.
use mathlib.Core.List.{append_assoc, append-nil}
use download_wrapper.Base.{
  ◌≡◌, refl, sym, subst, ap, ◌∙◌, inl, inr, Bool, true, false, ◌&&◌, not, Option, none, some, List,
  [], ◌∷◌, ◌++◌, All, Bool-cases, if◌then◌else◌, arith,
}
use download_wrapper.Text.{Text, is_empty, codes, iequals}
use download_wrapper.Http.Path.{is_slash, behind_last}
use download_wrapper.Http.UrlName.{
  Uri, is_separator, sanitize_basename, name_param, scan_params, last_segment, parsed_name,
  unparsed_name, by_decoding, extracted, extract_filename_from_url,
}

-- A text without slashes of either kind.
abbrev pub IsPlain : Text → Type 0
IsPlain = All (λ c. is_separator c ≡ false)

-- The values of the parameters with a name.
abbrev pub values : Text → List (Text × Text) → List Text
values key [] = []
values key ((k, v) ∷ params) =
    let rest = values key params in if iequals k key then v ∷ rest else rest

-- The first name that is left when the directories before it are cut off.
abbrev pub first_named : List Text → Text
first_named [] = []
first_named (v ∷ rest) =
    let later = first_named rest in
    if is_empty (sanitize_basename v) then later else sanitize_basename v

-- The candidates, by their rank.
abbrev pub candidates : Uri → List Text
candidates uri =
    values (codes "filename") uri.params
    ++ (values (codes "name") uri.params ++ (last_segment uri.segments ∷ []))

IsPlain-append : (s t : Text) → IsPlain s → IsPlain t → IsPlain (s ++ t)
IsPlain-append [] t h k = k
IsPlain-append (c ∷ s) t h k = (h.0, IsPlain-append s t h.1 k)

behind_last-IsPlain :
    (before kept s : Text)
    → IsPlain before
    → kept ≡ before ++ s
    → IsPlain (behind_last is_separator kept s)
unfolding behind_last
behind_last-IsPlain before kept [] h e = subst IsPlain (sym (e ∙ append-nil before)) h
behind_last-IsPlain before kept (c ∷ s) h e = elim (Bool-cases (is_separator c)) [
  | inl stops ↦ rw stops (behind_last-IsPlain [] s s tt refl)
  | inr plain ↦ rw plain (
      behind_last-IsPlain (before ++ (c ∷ [])) kept s (IsPlain-append before (c ∷ []) h (plain, tt))
        (e ∙ sym (append_assoc before (c ∷ []) s)))
]

sanitize_basename-IsPlain : (s : Text) → IsPlain (sanitize_basename s)
unfolding sanitize_basename
sanitize_basename-IsPlain s = behind_last-IsPlain [] s s tt refl

first_named-IsPlain : (vs : List Text) → IsPlain (first_named vs)
first_named-IsPlain [] = tt
first_named-IsPlain (v ∷ rest) = elim (Bool-cases (is_empty (sanitize_basename v))) [
  | inl e ↦ rw e (first_named-IsPlain rest)
  | inr e ↦ rw e (sanitize_basename-IsPlain v)
]

first_named-append :
    (vs ws : List Text)
    → first_named (vs ++ ws)
      ≡ (if is_empty (first_named vs) then first_named ws else first_named vs)
first_named-append [] ws = refl
first_named-append (v ∷ vs) ws = ground (arith, first_named-append vs ws)

-- No parameter has both names.
one_name : (k : Text) → iequals k (codes "filename") ≡ true → iequals k (codes "name") ≡ false
unfolding iequals
one_name [] h = refl
one_name (c ∷ k) h = ground arith

sanitize_basename-nil : (v : Text) → is_empty v ≡ true → is_empty (sanitize_basename v) ≡ true
unfolding sanitize_basename behind_last
sanitize_basename-nil [] h = refl
sanitize_basename-nil (c ∷ v) h = absurd (cc)

abbrev or_named : Text → List Text → Text
or_named name vs = if is_empty name then first_named vs else name

-- What a parameter makes of a name, if it has it.
abbrev filled : Bool → Text → Text → Text
filled named a v = if is_empty a && named then sanitize_basename v else a

name_param_lem :
    (k v a b : Text)
    → name_param (k, v) (a, b)
      ≡ (filled (iequals k (codes "filename")) a v, filled (iequals k (codes "name")) b v)
unfolding name_param sanitize_basename behind_last
name_param_lem k [] [] [] = ground arith
name_param_lem k [] [] (d ∷ b) = ground arith
name_param_lem k [] (c ∷ a) [] = ground arith
name_param_lem k [] (c ∷ a) (d ∷ b) = ground arith
name_param_lem k (x ∷ v) a b = elim (Bool-cases (iequals k (codes "filename"))) [
  | inl e ↦ rw (e, one_name k e) ground arith
  | inr e ↦ rw e ground arith
]

or_named-filled :
    (named : Bool) (a v : Text) (rest : List Text)
    → or_named (filled named a v) rest ≡ or_named a (if named then v ∷ rest else rest)
or_named-filled true [] v rest = refl
or_named-filled false [] v rest = refl
or_named-filled true (c ∷ a) v rest = refl
or_named-filled false (c ∷ a) v rest = refl

scan_params_lem :
    (params : List (Text × Text)) (a b : Text)
    → scan_params params (a, b)
      ≡ (or_named a (values (codes "filename") params), or_named b (values (codes "name") params))
unfolding scan_params
scan_params_lem [] [] [] = refl
scan_params_lem [] [] (d ∷ b) = refl
scan_params_lem [] (c ∷ a) [] = refl
scan_params_lem [] (c ∷ a) (d ∷ b) = refl
scan_params_lem ((k, v) ∷ params) a b =
    let is_file = iequals k (codes "filename") in
    let is_name = iequals k (codes "name") in
    let files = values (codes "filename") params in
    let names = values (codes "name") params in
    ap (scan_params params) (name_param_lem k v a b)
    ∙ scan_params_lem params (filled is_file a v) (filled is_name b v)
    ∙ ap (λ x. (x, or_named (filled is_name b v) names)) (or_named-filled is_file a v files)
    ∙ ap (λ y. (or_named a (if is_file then v ∷ files else files), y))
        (or_named-filled is_name b v names)

last-named : (s : Text) → first_named (s ∷ []) ≡ sanitize_basename s
last-named s = elim_empty (sanitize_basename s)
  where
    elim_empty : (t : Text) → (if is_empty t then [] else t) ≡ t
    elim_empty [] = refl
    elim_empty (c ∷ t) = refl

first_left :
    (x y z : Text)
    → (if not (is_empty x) then x else if not (is_empty y) then y else z)
      ≡ (if is_empty x then (if is_empty y then z else y) else x)
first_left x y z = ground arith

parsed_name-first_named : (uri : Uri) → parsed_name uri ≡ first_named (candidates uri)
unfolding parsed_name
parsed_name-first_named uri =
    let files = values (codes "filename") uri.params in
    let names = values (codes "name") uri.params in
    let last = last_segment uri.segments ∷ [] in
    let name = sanitize_basename (last_segment uri.segments) in
    rw (scan_params_lem uri.params [] []) (
      first_left (first_named files) (first_named names) name
      ∙ sym (
          first_named-append files (names ++ last)
          ∙ rw (first_named-append names last, last-named (last_segment uri.segments)) refl))

-- Where there is a name, it is plain.
abbrev pub IsPlainName : Option Text → Type 0
IsPlainName none = Unit
IsPlainName (some name) = IsPlain name

by_decoding-IsPlainName : (decoded : Option Text) → IsPlainName (by_decoding decoded)
by_decoding-IsPlainName none = tt
by_decoding-IsPlainName (some name) = sanitize_basename-IsPlain name

unparsed_name-IsPlainName :
    (decode : Text → Option Text) (url : Text) → IsPlainName (unparsed_name decode url)
unfolding unparsed_name
unparsed_name-IsPlainName decode url = elim (Bool-cases (is_empty (behind_last is_slash [] url))) [
  | inl e ↦ rw e tt
  | inr e ↦ rw e (by_decoding-IsPlainName (decode (behind_last is_slash [] url)))
]

-- The name of a URL that the parser takes is the first of its candidates, and that of another is `other`.
abbrev pub named_by : Option Uri → Option Text → Option Text
named_by none other = other
named_by (some uri) other = some (first_named (candidates uri))

extracted-IsPlainName :
    (parsed : Option Uri) (other : Option Text)
    → IsPlainName other
    → (extracted parsed other ≡ named_by parsed other) × IsPlainName (extracted parsed other)
extracted-IsPlainName none other h = (refl, h)
extracted-IsPlainName (some uri) other h =
    let same = parsed_name-first_named uri in
    (ap some same, subst IsPlain (sym same) (first_named-IsPlain (candidates uri)))

-- Where the parser takes a URL, its name is the first that is not empty, without the directories before
-- it, of the values of its parameters `filename`, then of its parameters `name`, then its last segment
-- as it is encoded; otherwise it comes from the text of the URL. In both cases it holds no slash of
-- either kind.
pub extract_filename_from_url-IsPlainName :
    (parse : Text → Option Uri) (decode : Text → Option Text) (url : Text)
    → (extract_filename_from_url parse decode url ≡ named_by (parse url) (unparsed_name decode url))
      × IsPlainName (extract_filename_from_url parse decode url)
unfolding extract_filename_from_url
extract_filename_from_url-IsPlainName parse decode url =
    extracted-IsPlainName (parse url) (unparsed_name decode url)
      (unparsed_name-IsPlainName decode url)
