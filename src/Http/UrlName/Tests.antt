-- ===== src/Http/UrlName/Tests.antt =====
-- The theorem on the names of URLs at a concrete input, and runs of the extraction.
use download_wrapper.Base.{if◌then◌else◌, ◌≡◌, refl, Option, some, none, [], ◌∷◌}
use download_wrapper.Text.{Text, codes, is_empty, iequals}
use download_wrapper.Http.Path.{behind_last}
use download_wrapper.Http.UrlName.{
  Uri, sanitize_basename, name_param, scan_params, parsed_name, unparsed_name,
  extract_filename_from_url,
}
use download_wrapper.Http.UrlName.Named.{
  IsPlainName, named_by, extract_filename_from_url-IsPlainName,
}

abbrev escaping : Uri
escaping = record {
  params =
      (codes "Name", codes "b.mp4")
      ∷ (codes "filename", codes "x/")
      ∷ (codes "FileName", codes "../a.mp4")
      ∷ [];
  segments = codes "films" ∷ codes "c%20d.mp4" ∷ [];
}

abbrev parse_example : Text → Option Uri
parse_example url = if is_empty url then none else some escaping

-- A parameter `filename` goes before `name`, wherever it stands, and its directories are cut off.
directories_cut : extract_filename_from_url parse_example some (codes "u") ≡ some (codes "a.mp4")
unfolding extract_filename_from_url parsed_name scan_params name_param sanitize_basename behind_last
    iequals
directories_cut = refl

-- The last segment keeps its percent escapes.
still_encoded : parsed_name (record escaping { params = [] }) ≡ codes "c%20d.mp4"
unfolding parsed_name scan_params sanitize_basename behind_last
still_encoded = refl

-- Without the parser, the escape `%2F` ends a directory.
decoded_slash :
    unparsed_name (λ s. some (codes "e/f.mp4")) (codes "h/e%2Ff.mp4") ≡ some (codes "f.mp4")
unfolding unparsed_name sanitize_basename behind_last
decoded_slash = refl

extract_filename_from_url-IsPlainName_example :
    (extract_filename_from_url parse_example some (codes "u")
      ≡ named_by (parse_example (codes "u")) (unparsed_name some (codes "u")))
    × IsPlainName (extract_filename_from_url parse_example some (codes "u"))
extract_filename_from_url-IsPlainName_example =
    extract_filename_from_url-IsPlainName parse_example some (codes "u")
