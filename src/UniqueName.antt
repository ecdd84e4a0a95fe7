-- ===== src/UniqueName.antt =====
-- src/utils/unique_name.cpp: a name that is free in a directory is taken by creating its entry.
pub mod Fresh
mod Tests
use download_wrapper.Base.{
  ℕ, zero, suc, ◌+◌, Bool, true, false, not, Option, none, some, List, [], ◌∷◌, ◌++◌, if◌then◌else◌,
}
use download_wrapper.Base.Int.{ℤ, pos}
use download_wrapper.Text.{Text, codes, is_empty, to_string}
use download_wrapper.Http.Path.{join_path, parent_path}

-- What stands under a path, without following symbolic links.
pub data Kind : Type 0 where
  unknown directory other_entry : Kind
  regular_file : Option ℕ → Kind

-- The file system, with a state `F`: `std::filesystem::exists`; `create_directories`, whose answer is
-- the message of an error; whether a file can be opened for appending; the kind of an entry, with the
-- size of a file; `remove`; the clock in milliseconds.
pub record FileSystem (F : Type 0) : Type 0 where
  pub exists : Text → F → Bool
  pub create_directories : Text → F → Option Text × F
  pub open_append : Text → F → Bool × F
  pub symlink_status : Text → F → Kind
  pub remove : Text → F → Bool × F
  pub now : F → ℕ

module _ {F : Type 0} (fs : FileSystem F) where
  -- `entry_exists`
  unfoldable pub entry_exists : Text → F → Bool
  entry_exists p f = fs.exists p f

  -- The creation of an empty file, once its directory is there.
  unfoldable pub create_file : Text → Option Text × F → Option Text × F
  create_file p (some error, f) = (some error, f)
  create_file p (none, f) =
      let (ok, f') = fs.open_append p f in
      ((if ok then none else some (codes "Input/output error")), f')

  -- `create_entry`: the message of the error, if there is one
  unfoldable pub create_entry : Text → Bool → F → Option Text × F
  unfolding create_file parent_path
  create_entry p true f = fs.create_directories p f
  create_entry p false f = create_file p (fs.create_directories (parent_path p) f)

  -- `name(n)`
  unfoldable pub candidate : Text → ℕ → Text
  unfolding to_string
  candidate name n = name ++ codes "(" ++ to_string (pos n) ++ codes ")"

  -- The loop over the numbers: the first whose candidate is free.
  unfoldable pub first_free : Text → Text → F → ℕ → ℕ → Option ℕ
  unfolding candidate join_path entry_exists
  first_free dir name f zero n = none
  first_free dir name f (suc rounds) n =
      let later = first_free dir name f rounds (suc n) in
      if entry_exists (join_path dir (candidate name n)) f then later else some n

  -- The creation of an entry; an error is reported and does not hold the name back.
  unfoldable pub held : Text → Text → Bool → F → Text × Option Text × F
  unfolding join_path create_entry
  held dir name is_dir f =
      let (error, f') = create_entry (join_path dir name) is_dir f in (name, error, f')

  -- The end of the search: a numbered name, or else one with the time.
  unfoldable pub numbered : Text → Text → F → Option ℕ → Text × Option Text × F
  unfolding held candidate to_string
  numbered dir name f (some n) = held dir (candidate name n) true f
  numbered dir name f none = held dir (name ++ codes "_" ++ to_string (pos (fs.now f))) true f

  -- `acquire_unique_name`: the name, the error that is reported, and the file system.
  unfoldable pub acquire_unique_name : Text → Text → Bool → F → Text × Option Text × F
  unfolding numbered first_free held entry_exists
  acquire_unique_name dir name multi_file f =
      if is_empty name
      then (name, none, f)
      else if not (entry_exists (join_path dir name) f)
      then held dir name multi_file f
      else numbered dir name f (first_free dir name f 9999 1)

  -- `acquire_wrapper_name`
  unfoldable pub acquire_wrapper_name : Text → Text → F → Text × Option Text × F
  unfolding acquire_unique_name
  acquire_wrapper_name dir name f = acquire_unique_name dir name true f

  -- `ensure_placeholder`
  unfoldable pub ensure_placeholder : Text → Text → Bool → F → F
  unfolding join_path create_entry entry_exists
  ensure_placeholder dir name multi_file f =
      if is_empty name
      then f
      else if entry_exists (join_path dir name) f
      then f
      else (create_entry (join_path dir name) multi_file f).1

  -- `release_placeholder`, by the kind of the entry: an empty directory or an empty file is removed.
  unfoldable pub released : Text → F → Kind → Bool × F
  released target f Kind.directory = fs.remove target f
  released target f (Kind.regular_file (some zero)) = fs.remove target f
  released target f _ = (false, f)

  unfoldable pub release_placeholder : Text → Text → F → Bool × F
  unfolding released join_path
  release_placeholder dir name f =
      if is_empty name
      then (false, f)
      else released (join_path dir name) f (fs.symlink_status (join_path dir name) f)
