-- ===== src/Store/Tasks/Replaced.antt =====
-- What `replace_task` leaves: the task with no file under its identifier, or the tables as they were.
use download_wrapper.Base.{
  ◌≡◌, refl, sym, subst, ap, ◌∙◌, ◌⊎◌, inl, inr, Bool, true, false, ◌&&◌, ◌||◌, not, Option, none,
  some, List, [], ◌∷◌, ◌++◌, All, Bool-cases, if◌then◌else◌, arith,
}
use download_wrapper.Base.Int.{ℤ}
use download_wrapper.Text.{Text, text_eq, is_empty}
use download_wrapper.Text.Ints.{IsIndex, split_ints-join_ints}
use download_wrapper.Store.Files as Files
use download_wrapper.Store.Files.{has_key}
use download_wrapper.Store.Files.Keys.{lookup_row, text_eq_refl, text_eq_sound}
use download_wrapper.Store.Tasks.{
  StoredTask, Row, Database, Steps, row_of, read_task, delete_task_rows, has_row, insert_row,
  select_row, delete_file_rows,
}
use download_wrapper.Store.Tasks.Operations.{
  replaced, released, replace_task, read_found, find_by_task_id,
}

same_text : (r a id : Text) → text_eq r a ≡ true → text_eq r id ≡ text_eq a id
same_text r a id h = ap (λ x. text_eq x id) (text_eq_sound r a h)

pub apart_text : (r a id : Text) → text_eq r a ≡ false → text_eq r id ≡ true → text_eq a id ≡ false
apart_text r a id h k = elim (Bool-cases (text_eq a id)) [
  | inl e ↦
      let same : r ≡ a = text_eq_sound r id k ∙ sym (text_eq_sound a id e) in
      let met : text_eq r a ≡ true = ap (λ x. text_eq x a) same ∙ text_eq_refl a in cc
  | inr e ↦ e
]

module _ {Rate : Type 0} where
  -- What the table keeps of a task.
  abbrev pub kept : StoredTask Rate → StoredTask Rate
  kept (t, d) = (
    record t {
      name = [];
      wrapper_name = [];
      files = [];
      priority_file_indexes = [];
      need_delete_session = false;
      need_delete_file = false;
    },
    d,
  )

  read_task-row_of :
      (s : StoredTask Rate) → All IsIndex s.0.select_file_indexes → read_task (row_of s) ≡ kept s
  unfolding read_task row_of
  read_task-row_of (t, d) h =
      ap (λ ns. (record (kept (t, d)).0 { select_file_indexes = ns }, d))
        (split_ints-join_ints t.select_file_indexes h)

  deleted-has_row :
      (id : Text) (rows : List (Row Rate)) → has_row id (delete_task_rows id rows) ≡ false
  unfolding has_row delete_task_rows
  deleted-has_row id [] = refl
  deleted-has_row id (r ∷ rows) = ground (arith, deleted-has_row id rows)

  -- A query for a key after the deletion of one.
  select_row-delete_task_rows :
      (all : Bool) (id a : Text) (rows : List (Row Rate))
      → select_row all id (delete_task_rows a rows)
        ≡ (if text_eq a id then none else select_row all id rows)
  unfolding select_row delete_task_rows
  select_row-delete_task_rows all id a [] = ground arith
  select_row-delete_task_rows all id a (r ∷ rows) =
      let rest = select_row-delete_task_rows all id a rows in
      elim (Bool-cases (text_eq r.task_id a)) [
        | inl e ↦ ground (arith, same_text r.task_id a id e, rest)
        | inr e ↦ elim (Bool-cases (text_eq r.task_id id)) [
          | inl k ↦ ground (arith, apart_text r.task_id a id e k, rest)
          | inr k ↦ ground (arith, rest)
        ]
      ]

  -- What a query finds in a row, behind what it finds before it.
  abbrev or_row : Bool → Text → Row Rate → Option (Row Rate) → Option (Row Rate)
  or_row all id r (some found) = some found
  or_row all id r none = if text_eq r.task_id id && (not r.is_delete || all) then some r else none

  select_row-append :
      (all : Bool) (id : Text) (r : Row Rate) (rows : List (Row Rate))
      → select_row all id (rows ++ (r ∷ [])) ≡ or_row all id r (select_row all id rows)
  unfolding select_row
  select_row-append all id r [] = refl
  select_row-append all id r (s ∷ rows) = ground (arith, select_row-append all id r rows)

  abbrev after : StoredTask Rate → Database Rate → Database Rate
  after (t, d) db = record {
    tasks = delete_task_rows t.task_id db.tasks ++ (row_of (t, d) ∷ []);
    files = delete_file_rows t.task_id db.files;
  }

  replaced_lem :
      (steps : Steps) (s : StoredTask Rate) (db : Database Rate)
      → replaced steps s db ≡ (
          if steps.deletes_task && steps.deletes_files && steps.inserts
          then some (after s db)
          else none)
  unfolding replaced insert_row row_of
  replaced_lem steps (t, d) db = rw (deleted-has_row t.task_id db.tasks, insert_row) refl

lookup_row-delete_file_rows :
    (t : Text) (i : ℤ) (a : Text) (rows : List Files.Row)
    → lookup_row t i (delete_file_rows a rows) ≡ (if text_eq a t then none else lookup_row t i rows)
unfolding lookup_row delete_file_rows has_key
lookup_row-delete_file_rows t i a [] = ground arith
lookup_row-delete_file_rows t i a (r ∷ rows) =
    let rest = lookup_row-delete_file_rows t i a rows in
    elim (Bool-cases (text_eq r.task_id a)) [
      | inl e ↦ ground (arith, same_text r.task_id a t e, rest)
      | inr e ↦ elim (Bool-cases (text_eq r.task_id t)) [
        | inl k ↦ ground (arith, apart_text r.task_id a t e k, rest)
        | inr k ↦ ground (arith, rest)
      ]
    ]

-- Whether SQLite carries out all that the replacement of a task takes.
abbrev pub is_carried_out : Steps → Bool
is_carried_out steps =
    steps.savepoint
    && (steps.deletes_task && steps.deletes_files && steps.inserts)
    && steps.releases

-- The tables hold the task, without its files, and everything else as before.
pub record Replaces {Rate : Type 0} (s : StoredTask Rate) (db db' : Database Rate) : Type 0 where
  pub found :
      (all : Bool)
      → find_by_task_id true true s.0.task_id all db'
        ≡ (if s.0.is_delete && not all then none else some (kept s))
  pub others :
      (all : Bool) (id : Text)
      → text_eq s.0.task_id id ≡ false
      → find_by_task_id true true id all db' ≡ find_by_task_id true true id all db
  pub no_files : (i : ℤ) → lookup_row s.0.task_id i db'.files ≡ none
  pub other_files :
      (id : Text) (i : ℤ)
      → text_eq s.0.task_id id ≡ false
      → lookup_row id i db'.files ≡ lookup_row id i db.files

module _ {Rate : Type 0} where
  find_lem :
      (id : Text) (all : Bool) (db : Database Rate)
      → find_by_task_id true true id all db
        ≡ (if is_empty id then none else read_found (select_row all id db.tasks))
  unfolding find_by_task_id
  find_lem id all db = ground arith

  or_row_other :
      (all : Bool) (id : Text) (r : Row Rate) (o : Option (Row Rate))
      → text_eq r.task_id id ≡ false
      → or_row all id r o ≡ o
  or_row_other all id r none h = rw h refl
  or_row_other all id r (some found) h = refl

  shown :
      (here deleted all : Bool) (r : Row Rate) (s : StoredTask Rate)
      → here ≡ true
      → read_task r ≡ s
      → read_found (if here && (not deleted || all) then some r else none)
        ≡ (if deleted && not all then none else some s)
  shown false deleted all r s h e = absurd (cc)
  shown true false all r s h e = ap some e
  shown true true false r s h e = refl
  shown true true true r s h e = ap some e

  after-Replaces :
      (s : StoredTask Rate) (db : Database Rate)
      → is_empty s.0.task_id ≡ false
      → All IsIndex s.0.select_file_indexes
      → Replaces s db (after s db)
  unfolding row_of
  after-Replaces (t, d) db named indices =
      let s : StoredTask Rate = (t, d) in
      let row = row_of s in
      let gone =
        λ (all : Bool) (id : Text). select_row-delete_task_rows all id t.task_id db.tasks in
      let added = λ (all : Bool) (id : Text).
        select_row-append all id row (delete_task_rows t.task_id db.tasks) in
      record {
        found = λ all.
            find_lem t.task_id all (after s db)
            ∙ rw (named, added all t.task_id, gone all t.task_id, text_eq_refl t.task_id)
                (shown (text_eq t.task_id t.task_id) t.is_delete all row (kept s)
                  (text_eq_refl t.task_id) (read_task-row_of s indices));
        others = λ all id apart.
            find_lem id all (after s db)
            ∙ ap (λ o. if is_empty id then none else read_found o)
                (added all id ∙ or_row_other all id row _ apart ∙ gone all id ∙ rw apart refl)
            ∙ sym (find_lem id all db);
        no_files = λ i.
            lookup_row-delete_file_rows t.task_id i t.task_id db.files
            ∙ rw (text_eq_refl t.task_id) refl;
        other_files =
            λ id i apart. lookup_row-delete_file_rows id i t.task_id db.files ∙ rw apart refl;
      }

  chain :
      (c e sp dd rel : Bool) (x y : Database Rate)
      → (if not c || e
          then (y, false)
          else if sp
          then released rel y (if dd then some x else none)
          else (y, false))
        ≡ (if c && not e && (sp && dd && rel) then (x, true) else (y, false))
  chain c e sp dd rel x y = ground arith

  outcome :
      (connected : Bool) (steps : Steps) (s : StoredTask Rate) (db : Database Rate)
      → replace_task connected steps s db ≡ (
          if connected && not (is_empty s.0.task_id) && is_carried_out steps
          then (after s db, true)
          else (db, false))
  unfolding replace_task
  outcome connected steps (t, d) db = rw (replaced_lem steps (t, d) db) (
      chain connected (is_empty t.task_id) steps.savepoint
        (steps.deletes_task && steps.deletes_files && steps.inserts) steps.releases
        (after (t, d) db) db)

  -- Replacing a task with file indices is all or nothing. Where there is a connection, the task has an
  -- identifier, and SQLite carries out every step, it reports success: the table then has the task, but
  -- for its names, its file priorities and the marks of its removal, which have no column; no file is
  -- left under its identifier, and every other task and file is found as before. In every other case it
  -- reports failure and leaves both tables as they were.
  pub replace_task-Replaces :
      (connected : Bool) (steps : Steps) (s : StoredTask Rate) (db : Database Rate)
      → All IsIndex s.0.select_file_indexes
      → (((connected && not (is_empty s.0.task_id) && is_carried_out steps) ≡ true)
          × ((replace_task connected steps s db).1 ≡ true)
          × Replaces s db (replace_task connected steps s db).0)
        ⊎ (((connected && not (is_empty s.0.task_id) && is_carried_out steps) ≡ false)
            × (replace_task connected steps s db ≡ (db, false)))
  replace_task-Replaces connected steps (t, d) db indices =
      let s : StoredTask Rate = (t, d) in
      let works = connected && not (is_empty t.task_id) && is_carried_out steps in
      let same = outcome connected steps s db in
      elim (Bool-cases works) [
        | inl e ↦
            let named : is_empty t.task_id ≡ false = ground arith in
            let done : replace_task connected steps s db ≡ (after s db, true) = same ∙ rw e refl in
            inl (
              e,
              ap (λ (r : Database Rate × Bool). r.1) done,
              subst (λ (r : Database Rate × Bool). Replaces s db r.0) (sym done)
                  (after-Replaces s db named indices),
            )
        | inr e ↦ inr (e, same ∙ rw e refl)
      ]
