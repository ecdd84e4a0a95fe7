-- ===== src/Http/Path.antt =====
-- The operations of `std::filesystem::path` that the engine uses, in their POSIX form, over bytes,
-- and `file_extension` and `strip_extension` of src/utils/string_util.cpp.
use download_wrapper.Base.{
  ℕ, Bool, true, false, ◌||◌, Option, none, some, [], ◌∷◌, ◌++◌, if◌then◌else◌, ◌==◌,
}
use download_wrapper.Text.{Text, is_empty, text_eq, codes}

-- What stands before the last byte that `stop` accepts.
unfoldable pub before_last : (ℕ → Bool) → Text → Option Text
before_last stop [] = none
before_last stop (c ∷ s) = elim (before_last stop s) [
  | some b ↦ some (c ∷ b)
  | none ↦ if stop c then some [] else none
]

-- What stands behind the last byte that `stop` accepts; `kept` where there is none.
unfoldable pub behind_last : (ℕ → Bool) → Text → Text → Text
behind_last stop kept [] = kept
behind_last stop kept (c ∷ s) = behind_last stop (if stop c then s else kept) s

abbrev pub is_slash : ℕ → Bool
is_slash c = c == b'/'

abbrev pub is_dot : ℕ → Bool
is_dot c = c == b'.'

-- `p.filename()`
unfoldable pub filename_of : Text → Text
unfolding behind_last
filename_of p = behind_last is_slash p p

-- `p.parent_path()`, of a path with one slash between its names.
unfoldable pub parent_path : Text → Text
unfolding before_last
parent_path p = elim (before_last is_slash p) [
  | none ↦ []
  | some [] ↦ b'/' ∷ []
  | some (c ∷ b) ↦ c ∷ b
]

abbrev is_dots : Text → Bool
is_dots name = text_eq name (codes ".") || text_eq name (codes "..")

-- `path(name).stem()`, of a file name: a dot at its head begins no extension.
unfoldable pub stem : Text → Text
unfolding before_last text_eq
stem name =
    if is_dots name
    then name
    else elim (before_last is_dot name) [ none ↦ name | some [] ↦ name | some (c ∷ b) ↦ c ∷ b ]

-- `strip_extension`
unfoldable pub strip_extension : Text → Text
unfolding stem filename_of
strip_extension name =
    if is_empty name
    then name
    else if is_empty (stem (filename_of name))
    then name
    else stem (filename_of name)

-- `file_extension`
unfoldable pub file_extension : Text → Text
unfolding before_last behind_last filename_of text_eq
file_extension name =
    let f = filename_of name in
    if is_dots f then [] else elim (before_last is_dot f) [
      | none ↦ []
      | some [] ↦ []
      | some (c ∷ b) ↦ behind_last is_dot [] f
    ]

-- `a / b`: an absolute `b` replaces `a`.
unfoldable pub ends_in_slash : Text → Bool
ends_in_slash [] = true
ends_in_slash (c ∷ []) = is_slash c
ends_in_slash (c ∷ d ∷ s) = ends_in_slash (d ∷ s)

abbrev starts_in_slash : Text → Bool
starts_in_slash [] = false
starts_in_slash (c ∷ s) = is_slash c

unfoldable pub join_path : Text → Text → Text
unfolding ends_in_slash
join_path a b = if starts_in_slash b then b else if ends_in_slash a then a ++ b else a ++ (b'/' ∷ b)
