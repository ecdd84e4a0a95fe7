-- ===== src/UniqueName/Tests.antt =====
-- The theorem on acquired names at a concrete input.
use download_wrapper.Base.{ℕ, true, false, none}
use download_wrapper.Text.{codes, text_eq}
use download_wrapper.UniqueName.{FileSystem, Kind, acquire_unique_name}
use download_wrapper.UniqueName.Fresh.{Acquired, acquire_unique_name-Acquired}

-- One entry is there, and creations are not looked at.
abbrev one_entry : FileSystem ℕ
one_entry = record {
  exists = λ p n. text_eq p (codes "/d/f");
  create_directories = λ p n. (none, n);
  open_append = λ p n. (true, n);
  symlink_status = λ p n. Kind.unknown;
  remove = λ p n. (false, n);
  now = λ n. n;
}

acquire_unique_name-Acquired_example :
    Acquired one_entry
      (codes "/d")
      (codes "f")
      0
      (acquire_unique_name one_entry (codes "/d") (codes "f") true 0).0
acquire_unique_name-Acquired_example =
    acquire_unique_name-Acquired one_entry (codes "/d") (codes "f") 0 true
