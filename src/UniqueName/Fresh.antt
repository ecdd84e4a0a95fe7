-- ===== src/UniqueName/Fresh.antt =====
-- The name that is acquired.
use download_wrapper.Base.{
  ℕ, zero, suc, ◌≡◌, Bool, true, false, not, if_intro, Option, none, some, ◌++◌, arith,
  if◌then◌else◌,
}
use download_wrapper.Base.Int.{pos}
use download_wrapper.Text.{Text, codes, is_empty, to_string}
use download_wrapper.Http.Path.{join_path}
use download_wrapper.UniqueName.{
  entry_exists, FileSystem, candidate, first_free, held, numbered, acquire_unique_name,
}

module _ {F : Type 0} (fs : FileSystem F) (dir name : Text) (f : F) where
  abbrev taken : Text → Bool
  taken n = entry_exists fs (join_path dir n) f

  -- From a number on, `n` is the first one whose candidate is free.
  pub data FirstFree (n : ℕ) : ℕ → Type 0 where
    here : taken (candidate fs name n) ≡ false → FirstFree n n
    later : (k : ℕ) → taken (candidate fs name k) ≡ true → FirstFree n (suc k) → FirstFree n k

  -- From a number on, that many candidates are taken.
  pub data AllTaken : ℕ → ℕ → Type 0 where
    no_more : (k : ℕ) → AllTaken 0 k
    one_more :
        (rounds k : ℕ)
        → taken (candidate fs name k) ≡ true
        → AllTaken rounds (suc k)
        → AllTaken (suc rounds) k

  -- What `acquire_unique_name` returns: no name for no name; the name itself where it is free; else
  -- the first free candidate; or, with all candidates taken, the name with the time.
  pub data Acquired : Text → Type 0 where
    unnamed : is_empty name ≡ true → Acquired name
    original : taken name ≡ false → Acquired name
    next : (n : ℕ) → taken name ≡ true → FirstFree n 1 → Acquired (candidate fs name n)
    fallback :
        taken name ≡ true
        → AllTaken 9999 1
        → Acquired (name ++ codes "_" ++ to_string (pos (fs.now f)))

  abbrev Found : ℕ → ℕ → Option ℕ → Type 0
  Found rounds k none = AllTaken rounds k
  Found rounds k (some n) = FirstFree n k

  grown :
      (rounds k : ℕ) (o : Option ℕ)
      → taken (candidate fs name k) ≡ true
      → Found rounds (suc k) o
      → Found (suc rounds) k o
  grown rounds k none e h = one_more rounds k e h
  grown rounds k (some n) e h = later k e h

  first_free-Found : (rounds k : ℕ) → Found rounds k (first_free fs dir name f rounds k)
  unfolding first_free
  first_free-Found zero k = no_more k
  first_free-Found (suc rounds) k =
      if_intro (Found (suc rounds) k) (taken (candidate fs name k))
        (first_free fs dir name f rounds (suc k)) (some k)
        (λ e.
          grown rounds k (first_free fs dir name f rounds (suc k)) e
            (first_free-Found rounds (suc k)))
        (λ e. here e)

  numbered-Acquired :
      (o : Option ℕ) → taken name ≡ true → Found 9999 1 o → Acquired (numbered fs dir name f o).0
  unfolding numbered held
  numbered-Acquired none e h = fallback e h
  numbered-Acquired (some n) e h = next n e h

  -- The name that is acquired was free when it was asked for: the name itself, or else the first free
  -- one among its numbered candidates. Only where there is no name, or where the name and all 9999
  -- candidates are taken, this is not so; in the latter case the name carries the time.
  pub acquire_unique_name-Acquired :
      (multi_file : Bool) → Acquired (acquire_unique_name fs dir name multi_file f).0
  unfolding acquire_unique_name held
  acquire_unique_name-Acquired multi_file =
      let Right : Text × Option Text × F → Type 0 = λ r. Acquired r.0 in
      let later = numbered fs dir name f (first_free fs dir name f 9999 1) in
      let own = held fs dir name multi_file f in
      if_intro Right (is_empty name) (name, none, f) (if not (taken name) then own else later)
        (λ e. unnamed e)
        (λ e.
          if_intro Right (not (taken name)) own later (λ t. original (ground arith))
            (λ t.
              numbered-Acquired (first_free fs dir name f 9999 1) (ground arith)
                (first_free-Found 9999 1)))
