-- ===== src/Store/Files/Keys.antt =====
-- The table `task_file` by its primary key.
use download_wrapper.Base.{
  ◌≡◌, refl, ap, ap₂, ◌∙◌, inl, inr, Bool, true, false, ◌&&◌, not, Option, none, some, List, [],
  ◌∷◌, Bool-cases, if_intro, if◌then◌else◌, arith,
}
use download_wrapper.Base.Int.{ℤ, eqb_ℤ, eq_of_parts}
use download_wrapper.Text.{Text, text_eq}
use download_wrapper.Store.Files.{
  Row, has_key, on_conflict, insert_row, update_row, select_row, delete_rows,
}

pub text_eq_refl : (s : Text) → text_eq s s ≡ true
unfolding text_eq
text_eq_refl [] = refl
text_eq_refl (c ∷ s) = ground (arith, text_eq_refl s)

pub text_eq_sound : (s t : Text) → text_eq s t ≡ true → s ≡ t
unfolding text_eq
text_eq_sound [] [] h = refl
text_eq_sound [] (d ∷ t) h = cc
text_eq_sound (c ∷ s) [] h = cc
text_eq_sound (c ∷ s) (d ∷ t) h = ground (arith, text_eq_sound s t)

-- Two keys are the same.
abbrev pub same_key : Text → ℤ → Text → ℤ → Bool
same_key a j t i = text_eq a t && eqb_ℤ j i

pub same_key_sound : (a t : Text) (j i : ℤ) → same_key a j t i ≡ true → (a ≡ t) × (j ≡ i)
same_key_sound a t j i h = (text_eq_sound a t (ground arith), eq_of_parts j i (ground arith))

pub has_key_sound :
    (t : Text) (i : ℤ) (r : Row) → has_key t i r ≡ true → (r.task_id ≡ t) × (r.file_index ≡ i)
unfolding has_key
has_key_sound t i r h = same_key_sound r.task_id t r.file_index i h

has_key_lem : (t : Text) (i : ℤ) (r : Row) → has_key t i r ≡ same_key r.task_id r.file_index t i
unfolding has_key
has_key_lem t i r = refl

-- A row with a key has another key exactly when the two keys are the same.
has_key_move :
    (a t : Text) (j i : ℤ) (r : Row) → has_key a j r ≡ true → has_key t i r ≡ same_key a j t i
has_key_move a t j i r h = let (e, f) = has_key_sound a j r h in rw (has_key_lem t i r, e, f) refl

-- So two keys are different where a row has the one and not the other.
has_key_apart :
    (a t : Text) (j i : ℤ) (r : Row)
    → has_key a j r ≡ false
    → has_key t i r ≡ true
    → same_key a j t i ≡ false
has_key_apart a t j i r h k = elim (Bool-cases (same_key a j t i)) [
  | inl e ↦ let (same_id, same_index) = same_key_sound a t j i e in cc
  | inr e ↦ e
]

has_key-on_conflict :
    (t : Text) (i : ℤ) (new old : Row) → has_key t i (on_conflict new old) ≡ has_key t i old
unfolding has_key on_conflict
has_key-on_conflict t i new old = ground arith

-- The row of a key, deleted or not.
unfoldable pub lookup_row : Text → ℤ → List Row → Option Row
lookup_row t i [] = none
lookup_row t i (r ∷ rows) = if has_key t i r then some r else lookup_row t i rows

unfoldable pub merged : Row → Option Row → Row
merged new none = new
merged new (some old) = on_conflict new old

pub lookup_row-insert_row :
    (t : Text) (i : ℤ) (new : Row) (rows : List Row)
    → lookup_row t i (insert_row new rows) ≡ (
        if same_key new.task_id new.file_index t i
        then some (merged new (lookup_row t i rows))
        else lookup_row t i rows)
unfolding lookup_row insert_row merged
lookup_row-insert_row t i new [] = ground (arith, has_key_lem t i new)
lookup_row-insert_row t i new (old ∷ rows) =
    elim (Bool-cases (has_key new.task_id new.file_index old)) [
      | inl h ↦ ground (
        arith,
        has_key-on_conflict t i new old,
        has_key_move new.task_id t new.file_index i old h,
      )
      | inr h ↦ elim (Bool-cases (has_key t i old)) [
        | inl k ↦ ground (
          arith,
          has_key_apart new.task_id t new.file_index i old,
          lookup_row-insert_row t i new rows,
        )
        | inr k ↦ ground (arith, lookup_row-insert_row t i new rows)
      ]
    ]

-- The row of a key after an update.
unfoldable pub updated : Row → Option Row → Option Row
updated new none = none
updated new (some old) = if old.is_delete then some old else some new

pub lookup_row-update_row :
    (t : Text) (i : ℤ) (new : Row) (rows : List Row)
    → lookup_row t i (update_row new rows) ≡ (
        if same_key new.task_id new.file_index t i
        then updated new (lookup_row t i rows)
        else lookup_row t i rows)
unfolding lookup_row update_row updated
lookup_row-update_row t i new [] = ground arith
lookup_row-update_row t i new (old ∷ rows) =
    elim (Bool-cases (has_key new.task_id new.file_index old)) [
      | inl h ↦ ground (
        arith,
        has_key_lem t i new,
        has_key_move new.task_id t new.file_index i old h,
        lookup_row-update_row t i new rows,
      )
      | inr h ↦ elim (Bool-cases (has_key t i old)) [
        | inl k ↦ ground (
          arith,
          has_key_apart new.task_id t new.file_index i old,
          lookup_row-update_row t i new rows,
        )
        | inr k ↦ ground (arith, lookup_row-update_row t i new rows)
      ]
    ]

-- The row of a key after the deletion of a task's files.
unfoldable pub tombstone : Option Row → Option Row
tombstone none = none
tombstone (some r) = if r.is_delete then some r else some (record r { is_delete = true })

has_key_task :
    (t : Text) (i : ℤ) (a : Text) (r : Row)
    → has_key t i r ≡ true
    → text_eq r.task_id a ≡ text_eq t a
has_key_task t i a r h = let (e, f) = has_key_sound t i r h in ap (λ b. text_eq b a) e

has_key_mark :
    (t : Text) (i : ℤ) (r : Row) → has_key t i (record r { is_delete = true }) ≡ has_key t i r
unfolding has_key
has_key_mark t i r = refl

pub lookup_row-delete_rows :
    (t : Text) (i : ℤ) (a : Text) (rows : List Row)
    → lookup_row t i (delete_rows a rows)
      ≡ (if text_eq t a then tombstone (lookup_row t i rows) else lookup_row t i rows)
unfolding lookup_row delete_rows tombstone
lookup_row-delete_rows t i a [] = ground arith
lookup_row-delete_rows t i a (r ∷ rows) = elim (Bool-cases (has_key t i r)) [
  | inl h ↦ ground (arith, has_key_mark t i r, has_key_task t i a r h)
  | inr h ↦ ground (arith, has_key_mark t i r, lookup_row-delete_rows t i a rows)
]

-- The primary key: no two rows have the same key.
abbrev pub IsKeyed : List Row → Type 0
IsKeyed [] = Unit
IsKeyed (r ∷ rows) = (lookup_row r.task_id r.file_index rows ≡ none) × IsKeyed rows

unfoldable pub live_row : Option Row → Option Row
live_row none = none
live_row (some r) = if r.is_delete then none else some r

pub select_row-none :
    (t : Text) (i : ℤ) (rows : List Row) → lookup_row t i rows ≡ none → select_row t i rows ≡ none
unfolding lookup_row select_row
select_row-none t i [] h = refl
select_row-none t i (r ∷ rows) h = ground (arith, select_row-none t i rows)

lookup_row_same :
    (t : Text) (i : ℤ) (r : Row) (rows : List Row)
    → has_key t i r ≡ true
    → lookup_row r.task_id r.file_index rows ≡ lookup_row t i rows
lookup_row_same t i r rows h =
    let (e, f) = has_key_sound t i r h in ap₂ (λ a j. lookup_row a j rows) e f

-- A query finds the row of its key, if it is not deleted.
pub select_row-lookup_row :
    (t : Text) (i : ℤ) (rows : List Row)
    → IsKeyed rows
    → select_row t i rows ≡ live_row (lookup_row t i rows)
unfolding lookup_row select_row live_row
select_row-lookup_row t i [] h = refl
select_row-lookup_row t i (r ∷ rows) (h, k) = elim (Bool-cases (has_key t i r)) [
  | inl e ↦ ground (arith, select_row-none t i rows, lookup_row_same t i r rows e)
  | inr e ↦ ground (arith, select_row-lookup_row t i rows k)
]

pub text_eq_comm : (s t : Text) → text_eq s t ≡ text_eq t s
unfolding text_eq
text_eq_comm [] [] = refl
text_eq_comm [] (d ∷ t) = refl
text_eq_comm (c ∷ s) [] = refl
text_eq_comm (c ∷ s) (d ∷ t) = ground (arith, text_eq_comm s t)

on_conflict_key :
    (new old : Row)
    → ((on_conflict new old).task_id ≡ old.task_id)
      × ((on_conflict new old).file_index ≡ old.file_index)
unfolding on_conflict
on_conflict_key new old = ground arith

pub insert_row-IsKeyed :
    (new : Row) (rows : List Row) → IsKeyed rows → IsKeyed (insert_row new rows)
unfolding insert_row lookup_row
insert_row-IsKeyed new [] h = (refl, tt)
insert_row-IsKeyed new (old ∷ rows) (h, k) =
    if_intro IsKeyed (has_key new.task_id new.file_index old) (on_conflict new old ∷ rows)
      (old ∷ insert_row new rows)
      (λ e.
        let (same_id, same_index) = on_conflict_key new old in
        (ap₂ (λ a j. lookup_row a j rows) same_id same_index ∙ h, k))
      (λ e.
        let apart : same_key new.task_id new.file_index old.task_id old.file_index ≡ false =
          ground (
            arith,
            has_key_lem new.task_id new.file_index old,
            text_eq_comm new.task_id old.task_id,
          ) in
        (
          ground (arith, lookup_row-insert_row old.task_id old.file_index new rows),
          insert_row-IsKeyed new rows k,
        ))

pub update_row-IsKeyed :
    (new : Row) (rows : List Row) → IsKeyed rows → IsKeyed (update_row new rows)
unfolding update_row updated
update_row-IsKeyed new [] h = tt
update_row-IsKeyed new (old ∷ rows) (h, k) =
    let rest = update_row-IsKeyed new rows k in
    if_intro IsKeyed (has_key new.task_id new.file_index old && not old.is_delete)
      (new ∷ update_row new rows) (old ∷ update_row new rows)
      (λ e.
        let same : has_key new.task_id new.file_index old ≡ true = ground arith in
        (
          ground (
            arith,
            lookup_row-update_row new.task_id new.file_index new rows,
            lookup_row_same new.task_id new.file_index old rows same,
          ),
          rest,
        ))
      (λ e. (ground (arith, lookup_row-update_row old.task_id old.file_index new rows), rest))

pub delete_rows-IsKeyed : (a : Text) (rows : List Row) → IsKeyed rows → IsKeyed (delete_rows a rows)
unfolding delete_rows tombstone
delete_rows-IsKeyed a [] h = tt
delete_rows-IsKeyed a (r ∷ rows) (h, k) =
    let rest = delete_rows-IsKeyed a rows k in
    let gone : lookup_row r.task_id r.file_index (delete_rows a rows) ≡ none =
      ground (arith, lookup_row-delete_rows r.task_id r.file_index a rows) in
    if_intro IsKeyed (text_eq r.task_id a && not r.is_delete)
      (record r { is_delete = true } ∷ delete_rows a rows) (r ∷ delete_rows a rows)
      (λ e. (gone, rest)) (λ e. (gone, rest))
