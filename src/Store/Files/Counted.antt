-- ===== src/Store/Files/Counted.antt =====
-- The number of files that a deletion answers with.
use download_wrapper.Base.{
  ℕ, ◌≡◌, refl, subst, ap, ◌∙◌, inl, inr, Bool, false, ◌&&◌, ◌||◌, not, none, List, [], ◌∷◌, length,
  Bool-cases, if◌then◌else◌, arith,
}
use download_wrapper.Base.Int.{ℤ, eqb_ℤ}
use download_wrapper.Text.{Text, text_eq}
use download_wrapper.Store.Files.{Row, has_key, select_row, live_count, found}
use download_wrapper.Store.Files.Keys.{text_eq_sound, lookup_row, IsKeyed, select_row-none}

abbrev pub contains : ℤ → List ℤ → Bool
contains i [] = false
contains i (j ∷ js) = eqb_ℤ j i || contains i js

-- No index stands twice.
abbrev pub IsDistinct : List ℤ → Type 0
IsDistinct [] = Unit
IsDistinct (j ∷ js) = (contains j js ≡ false) × IsDistinct js

-- `n` indices, and no others, pass a test.
pub record Counts (test : ℤ → Bool) (n : ℕ) : Type 0 where
  pub indices : List ℤ
  pub count : length indices ≡ n
  pub distinct : IsDistinct indices
  pub listed : (i : ℤ) → contains i indices ≡ test i

live_indices : Text → List Row → List ℤ
live_indices t [] = []
live_indices t (r ∷ rows) =
    let rest = live_indices t rows in
    if text_eq r.task_id t && not r.is_delete then r.file_index ∷ rest else rest

length-live_indices :
    (t : Text) (rows : List Row) → length (live_indices t rows) ≡ live_count t rows
unfolding live_indices live_count
length-live_indices t [] = refl
length-live_indices t (r ∷ rows) = ground (arith, length-live_indices t rows)

contains-live_indices :
    (t : Text) (i : ℤ) (rows : List Row)
    → contains i (live_indices t rows) ≡ found (select_row t i rows)
unfolding live_indices select_row has_key
contains-live_indices t i [] = refl
contains-live_indices t i (r ∷ rows) = ground (arith, contains-live_indices t i rows)

live_indices-IsDistinct :
    (t : Text) (rows : List Row) → IsKeyed rows → IsDistinct (live_indices t rows)
unfolding live_indices
live_indices-IsDistinct t [] h = tt
live_indices-IsDistinct t (r ∷ rows) (once, h) =
    let rest = live_indices-IsDistinct t rows h in
    elim (Bool-cases (text_eq r.task_id t && not r.is_delete)) [
      | inr e ↦ rw e rest
      | inl e ↦
          let same : r.task_id ≡ t = text_eq_sound r.task_id t (ground arith) in
          let free : lookup_row t r.file_index rows ≡ none =
            subst (λ x. lookup_row x r.file_index rows ≡ none) same once in
          rw e (
            contains-live_indices t r.file_index rows
                ∙ ap found (select_row-none t r.file_index rows free),
            rest,
          )
    ]

-- The count of the live rows of a task is the number of its indices under which there is a row.
pub live_count-Counts :
    (t : Text) (rows : List Row)
    → IsKeyed rows
    → Counts (λ i. found (select_row t i rows)) (live_count t rows)
live_count-Counts t rows h = record {
  indices = live_indices t rows;
  count = length-live_indices t rows;
  distinct = live_indices-IsDistinct t rows h;
  listed = λ i. contains-live_indices t i rows;
}
