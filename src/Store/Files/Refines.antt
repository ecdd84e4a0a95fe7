-- ===== src/Store/Files/Refines.antt =====
-- The store as a map from keys to files, and that the table behaves like it.
use mathlib.Core.Path.{fun_ext}
use download_wrapper.Base.{
  ◌≡◌, refl, ap, ap₂, subst, ◌∙◌, inl, inr, Bool, true, false, ◌||◌, Option, none, some, List, [],
  ◌∷◌, All, Bool-cases, if◌then◌else◌, arith,
}
use download_wrapper.Base.Int.{ℤ, pos, ltb_ℤ}
use download_wrapper.Text.{Text, text_eq, is_empty}
use download_wrapper.Manager.TaskFile.{TaskFile}
use download_wrapper.Store.Payload.{Json, read_task_file}
use download_wrapper.Store.Payload.Restore.{IsStorable, read_task_file-file_payload}
use download_wrapper.Store.Files.{
  Row, Sqlite, has_key, on_conflict, insert_row, update_row, select_row, delete_rows, found,
  read_row, row_of, valid, save, save_rows, upsert, update, erase, find,
}
use download_wrapper.Store.Files.Counted.{Counts, live_count-Counts}
use download_wrapper.Store.Files.Keys.{
  same_key, same_key_sound, has_key_sound, lookup_row, merged, updated, tombstone, live_row,
  IsKeyed, lookup_row-insert_row, lookup_row-update_row, lookup_row-delete_rows,
  select_row-lookup_row, insert_row-IsKeyed, update_row-IsKeyed, delete_rows-IsKeyed,
}

-- The operations that write.
pub data Command (Rate : Type 0) : Type 0 where
  save_all : List (TaskFile Rate) → Command Rate
  save_valid : TaskFile Rate → Command Rate
  change : Text → ℤ → TaskFile Rate → Command Rate
  remove : Text → Command Rate

-- What the store knows under a key: nothing, that the file was deleted, or the file, with the mark that
-- it was read.
pub data Entry (Rate : Type 0) : Type 0 where
  absent : Entry Rate
  deleted : Entry Rate
  live : Bool → Option (TaskFile Rate) → Entry Rate

abbrev pub Entries : Type 0 → Type 0
Entries Rate = Text → ℤ → Entry Rate

module _ {Rate : Type 0} where
  -- A file as it is kept.
  abbrev pub kept : TaskFile Rate → Bool → Entry Rate
  kept f is_read =
      if f.is_delete
      then deleted
      else live is_read (some (record f { is_delete = false; is_read = is_read; dirty = false }))

  -- A saved file replaces the one under its key and does not forget that that was read; a deleted one
  -- stays deleted.
  abbrev pub put : TaskFile Rate → Entry Rate → Entry Rate
  put f absent = kept f f.is_read
  put f deleted = deleted
  put f (live is_read old) = kept f (is_read || f.is_read)

  -- A changed file replaces the one under its key, if there is one.
  abbrev pub replace : TaskFile Rate → Entry Rate → Entry Rate
  replace f absent = absent
  replace f deleted = deleted
  replace f (live is_read old) = kept f f.is_read

  abbrev pub is_live : Entry Rate → Bool
  is_live absent = false
  is_live deleted = false
  is_live (live is_read f) = true

  abbrev pub bury : Entry Rate → Entry Rate
  bury absent = absent
  bury deleted = deleted
  bury (live is_read f) = deleted

  abbrev pub content : Entry Rate → Option (TaskFile Rate)
  content absent = none
  content deleted = none
  content (live is_read f) = f

  -- The operations on the map, each with its answer.
  abbrev pub put_all : List (TaskFile Rate) → Entries Rate → Entries Rate × Bool
  put_all [] m = (m, true)
  put_all (f ∷ fs) m =
      let rest =
        put_all fs (λ t i. if same_key f.task_id f.file_index t i then put f (m t i) else m t i) in
      if is_empty f.task_id || ltb_ℤ f.file_index (pos 0) then (m, false) else rest

  abbrev pub keyed : Text → ℤ → TaskFile Rate → TaskFile Rate
  keyed task_id file_index f = record f { task_id = task_id; file_index = file_index }

  abbrev pub perform : Command Rate → Entries Rate → Entries Rate × Bool
  perform (save_all files) m = put_all files m
  perform (save_valid f) m = if valid f then put_all (f ∷ []) m else (m, false)
  perform (change a j f) m =
      if valid (keyed a j f)
      then (
        λ t i. if same_key a j t i then replace (keyed a j f) (m t i) else m t i,
        is_live (m a j),
      )
      else (m, false)
  perform (remove a) m = (λ t i. if text_eq t a then bury (m t i) else m t i, true)

  abbrev pub perform_all : List (Command Rate) → Entries Rate → Entries Rate × List Bool
  perform_all [] m = (m, [])
  perform_all (c ∷ cs) m =
      let (m', answer) = perform c m in
      let (m'', answers) = perform_all cs m' in (m'', answer ∷ answers)

  module _ (json : Json Rate) (sqlite : Sqlite) where
    -- The same operations on the table; `true` stands for the answer of a deletion, which is
    -- a count.
    abbrev pub execute : Command Rate → List Row → List Row × Bool
    execute (save_all files) rows = save json sqlite files rows
    execute (save_valid f) rows = upsert json sqlite f rows
    execute (change a j f) rows = update json sqlite a j f rows
    execute (remove a) rows = ((erase json sqlite a rows).0, true)

    abbrev pub execute_all : List (Command Rate) → List Row → List Row × List Bool
    execute_all [] rows = (rows, [])
    execute_all (c ∷ cs) rows =
        let (rows', answer) = execute c rows in
        let (rows'', answers) = execute_all cs rows' in (rows'', answer ∷ answers)

    -- The entry that a row stands for.
    abbrev pub entry_of : Text → ℤ → Option Row → Entry Rate
    entry_of t i none = absent
    entry_of t i (some r) =
        if r.is_delete
        then deleted
        else live r.is_read (read_task_file json t i r.payload r.is_read)

    -- The map that a table stands for.
    abbrev pub entries : List Row → Entries Rate
    entries rows t i = entry_of t i (lookup_row t i rows)

    -- SQLite has a connection, prepares every statement and carries it out.
    pub record Works : Type 0 where
      pub connected : sqlite.connected ≡ true
      pub prepares : sqlite.prepares ≡ true
      pub carried_out : (r : Row) → sqlite.carried_out r ≡ true
      pub erases : sqlite.erases ≡ true

    -- The files of a command can stand in rows.
    abbrev pub Storable : Command Rate → Type 0
    Storable (save_all files) = All (IsStorable json) files
    Storable (save_valid f) = IsStorable json f
    Storable (change a j f) = IsStorable json (keyed a j f)
    Storable (remove a) = Unit

    entry_of-merged :
        (f : TaskFile Rate) (old : Option Row)
        → IsStorable json f
        → entry_of f.task_id f.file_index (some (merged (row_of json f) old))
          ≡ put f (entry_of f.task_id f.file_index old)
    unfolding merged row_of on_conflict
    entry_of-merged f none h = ground (arith, read_task_file-file_payload json f f.is_read h)
    entry_of-merged f (some r) h = elim (Bool-cases r.is_delete) [
      | inl e ↦ ground arith
      | inr e ↦ ground (arith, read_task_file-file_payload json f (r.is_read || f.is_read) h)
    ]

    entry_of-updated :
        (f : TaskFile Rate) (old : Option Row)
        → IsStorable json f
        → entry_of f.task_id f.file_index (updated (row_of json f) old)
          ≡ replace f (entry_of f.task_id f.file_index old)
    unfolding updated row_of
    entry_of-updated f none h = refl
    entry_of-updated f (some r) h = elim (Bool-cases r.is_delete) [
      | inl e ↦ ground arith
      | inr e ↦ ground (arith, read_task_file-file_payload json f f.is_read h)
    ]

    entry_of-tombstone :
        (t : Text) (i : ℤ) (old : Option Row)
        → entry_of t i (tombstone old) ≡ bury (entry_of t i old)
    unfolding tombstone
    entry_of-tombstone t i none = refl
    entry_of-tombstone t i (some r) = ground arith

    -- What holds at the key of a file holds at each key that is the same.
    at_key :
        (P : Text → ℤ → Type 0) (a t : Text) (j i : ℤ) → same_key a j t i ≡ true → P a j → P t i
    at_key P a t j i e h =
        let (same_id, same_index) = same_key_sound a t j i e in
        subst (λ k. P t k) same_index (subst (λ b. P b j) same_id h)

    entries-insert_row :
        (f : TaskFile Rate) (rows : List Row) (t : Text) (i : ℤ)
        → IsStorable json f
        → entries (insert_row (row_of json f) rows) t i ≡ (
            if same_key f.task_id f.file_index t i
            then put f (entries rows t i)
            else entries rows t i)
    unfolding row_of
    entries-insert_row f rows t i h =
        let law = lookup_row-insert_row t i (row_of json f) rows in
        elim (Bool-cases (same_key f.task_id f.file_index t i)) [
          | inl e ↦
              let here =
                at_key
                  (λ b k.
                    entry_of b k (some (merged (row_of json f) (lookup_row b k rows)))
                    ≡ put f (entries rows b k))
                  f.task_id t f.file_index i e
                  (entry_of-merged f (lookup_row f.task_id f.file_index rows) h) in
              rw (law, e) here
          | inr e ↦ rw (law, e) refl
        ]

    entries-update_row :
        (f : TaskFile Rate) (rows : List Row) (t : Text) (i : ℤ)
        → IsStorable json f
        → entries (update_row (row_of json f) rows) t i ≡ (
            if same_key f.task_id f.file_index t i
            then replace f (entries rows t i)
            else entries rows t i)
    unfolding row_of
    entries-update_row f rows t i h =
        let law = lookup_row-update_row t i (row_of json f) rows in
        elim (Bool-cases (same_key f.task_id f.file_index t i)) [
          | inl e ↦
              let here =
                at_key
                  (λ b k.
                    entry_of b k (updated (row_of json f) (lookup_row b k rows))
                    ≡ replace f (entries rows b k))
                  f.task_id t f.file_index i e
                  (entry_of-updated f (lookup_row f.task_id f.file_index rows) h) in
              rw (law, e) here
          | inr e ↦ rw (law, e) refl
        ]

    entries-delete_rows :
        (a : Text) (rows : List Row) (t : Text) (i : ℤ)
        → entries (delete_rows a rows) t i
          ≡ (if text_eq t a then bury (entries rows t i) else entries rows t i)
    entries-delete_rows a rows t i =
        let law = lookup_row-delete_rows t i a rows in
        elim (Bool-cases (text_eq t a)) [
          | inl e ↦ rw (law, e) (entry_of-tombstone t i (lookup_row t i rows))
          | inr e ↦ rw (law, e) refl
        ]

    -- A step of the table shows as the step of the map.
    abbrev Agrees : List Row × Bool → Entries Rate × Bool → Type 0
    Agrees r m = (entries r.0 ≡ m.0) × (r.1 ≡ m.1) × IsKeyed r.0

    if-Agrees :
        (b : Bool) (x y : List Row × Bool) (m n : Entries Rate × Bool)
        → (b ≡ true → Agrees x m)
        → (b ≡ false → Agrees y n)
        → Agrees (if b then x else y) (if b then m else n)
    if-Agrees true x y m n h k = h refl
    if-Agrees false x y m n h k = k refl

    stays-Agrees :
        (rows : List Row) (answer : Bool)
        → IsKeyed rows
        → Agrees (rows, answer) (entries rows, answer)
    stays-Agrees rows answer k = (refl, refl, k)

    save_rows-Agrees :
        Works
        → (files : List (TaskFile Rate)) (rows : List Row) → All (IsStorable json) files
        → IsKeyed rows
        → Agrees (save_rows json sqlite files rows) (put_all files (entries rows))
    unfolding save_rows
    save_rows-Agrees w [] rows h k = (refl, refl, k)
    save_rows-Agrees w (f ∷ files) rows (h, hs) k =
        let new = row_of json f in
        let written = fun_ext (λ t. fun_ext (λ i. entries-insert_row f rows t i h)) in
        let rest =
          save_rows-Agrees w files (insert_row new rows) hs (insert_row-IsKeyed new rows k) in
        if-Agrees (is_empty f.task_id || ltb_ℤ f.file_index (pos 0)) (rows, false)
          (if sqlite.carried_out new
            then save_rows json sqlite files (insert_row new rows)
            else (rows, false))
          (entries rows, false)
          (put_all files (λ t i.
            if same_key f.task_id f.file_index t i
            then put f (entries rows t i)
            else entries rows t i))
          (λ e. stays-Agrees rows false k)
          (λ e. rw (w.carried_out new) (
            subst
              (λ m. Agrees (save_rows json sqlite files (insert_row new rows)) (put_all files m))
              written rest))

    save-Agrees :
        Works
        → (files : List (TaskFile Rate)) (rows : List Row) → All (IsStorable json) files
        → IsKeyed rows
        → Agrees (save json sqlite files rows) (put_all files (entries rows))
    unfolding save
    save-Agrees w files rows h k =
        simp (w.connected, w.prepares) (save_rows-Agrees w files rows h k)

    answer-select_row :
        (t : Text) (i : ℤ) (rows : List Row)
        → IsKeyed rows
        → found (select_row t i rows) ≡ is_live (entries rows t i)
    unfolding live_row
    answer-select_row t i rows k =
        rw (select_row-lookup_row t i rows k)
          (elim (lookup_row t i rows) as (λ o. found (live_row o) ≡ is_live (entry_of t i o)) [
            | none ↦ refl
            | some r ↦ ground arith
          ])

    update-Agrees :
        Works
        → (a : Text) (j : ℤ) (f : TaskFile Rate) (rows : List Row) → IsStorable json (keyed a j f)
        → IsKeyed rows
        → Agrees (update json sqlite a j f rows) (perform (change a j f) (entries rows))
    unfolding update
    update-Agrees w a j f rows h k =
        let new = row_of json (keyed a j f) in
        let written = fun_ext (λ t. fun_ext (λ i. entries-update_row (keyed a j f) rows t i h)) in
        elim (Bool-cases (valid (keyed a j f))) [
          | inl e ↦
              simp (e, w.connected, w.prepares, w.carried_out)
                (written, answer-select_row a j rows k, update_row-IsKeyed new rows k)
          | inr e ↦ rw e (stays-Agrees rows false k)
        ]

    -- Each command does to the table what it does to the map.
    execute-Agrees :
        Works
        → (c : Command Rate) (rows : List Row) → Storable c
        → IsKeyed rows
        → Agrees (execute c rows) (perform c (entries rows))
    unfolding upsert erase
    execute-Agrees w (save_all files) rows h k = save-Agrees w files rows h k
    execute-Agrees w (save_valid f) rows h k =
        if-Agrees (valid f) (save json sqlite (f ∷ []) rows) (rows, false)
          (put_all (f ∷ []) (entries rows)) (entries rows, false)
          (λ e. save-Agrees w (f ∷ []) rows (h, tt) k) (λ e. stays-Agrees rows false k)
    execute-Agrees w (change a j f) rows h k = update-Agrees w a j f rows h k
    execute-Agrees w (remove a) rows h k =
        simp (w.connected, w.prepares, w.erases)
          (
            fun_ext (λ t. fun_ext (λ i. entries-delete_rows a rows t i)),
            refl,
            delete_rows-IsKeyed a rows k,
          )

    read_row_lem :
        (t : Text) (i : ℤ) (rows : List Row)
        → read_row json sqlite t (live_row (lookup_row t i rows)) ≡ content (entries rows t i)
    unfolding lookup_row live_row
    read_row_lem t i [] = refl
    read_row_lem t i (r ∷ rows) = elim (Bool-cases (has_key t i r)) [
      | inl e ↦
          let index = (has_key_sound t i r e).1 in
          rw (e, ← index)
            (elim (Bool-cases r.is_delete) [ inl d ↦ ground arith | inr d ↦ ground arith ])
      | inr e ↦ ground (arith, read_row_lem t i rows)
    ]

    find-entries :
        Works
        → (t : Text) (i : ℤ) (rows : List Row) → IsKeyed rows
        → find json sqlite t i rows ≡ content (entries rows t i)
    unfolding find
    find-entries w t i rows k =
        simp (w.connected, w.prepares, select_row-lookup_row t i rows k) (read_row_lem t i rows)

    execute_all-Agrees :
        Works
        → (cs : List (Command Rate)) (rows : List Row) → All Storable cs
        → IsKeyed rows
        → (entries (execute_all cs rows).0 ≡ (perform_all cs (entries rows)).0)
          × ((execute_all cs rows).1 ≡ (perform_all cs (entries rows)).1)
          × IsKeyed (execute_all cs rows).0
    execute_all-Agrees w [] rows h k = (refl, refl, k)
    execute_all-Agrees w (c ∷ cs) rows (h, hs) k =
        let (same_map, same_answer, keyed_rows) = execute-Agrees w c rows h k in
        let (maps, answers, last) = execute_all-Agrees w cs (execute c rows).0 hs keyed_rows in
        (
          maps ∙ ap (λ m. (perform_all cs m).0) same_map,
          ap₂ (λ a rest. a ∷ rest) same_answer (answers ∙ ap (λ m. (perform_all cs m).1) same_map),
          last,
        )

    erase-Counts :
        Works
        → (t : Text) (rows : List Row) → IsKeyed rows
        → Counts (λ i. is_live (entries rows t i)) (erase json sqlite t rows).1
    unfolding erase
    erase-Counts w t rows k =
        let law = live_count-Counts t rows k in
        simp (w.connected, w.prepares, w.erases)
          (record {
            indices = law.indices;
            count = law.count;
            distinct = law.distinct;
            listed = λ i. law.listed i ∙ answer-select_row t i rows k;
          })

    -- While SQLite works and every file that is written can stand in a row, and no two rows of the table
    -- have the same key: any sequence of saves, changes and deletions of files leaves a table in which
    -- each key has the file, or no file, that the same sequence leaves in a map from keys to files; each
    -- save and each change answers as it does on the map; the deletion of a task that follows answers
    -- with the number of keys of the task that have a file in the map; and again no two rows have the
    -- same key.
    pub execute_all-perform_all :
        Works
        → (cs : List (Command Rate)) (rows : List Row) (t : Text) (i : ℤ) → All Storable cs
        → IsKeyed rows
        → (find json sqlite t i (execute_all cs rows).0
            ≡ content ((perform_all cs (entries rows)).0 t i))
          × ((execute_all cs rows).1 ≡ (perform_all cs (entries rows)).1)
          × Counts
              (λ j. is_live ((perform_all cs (entries rows)).0 t j))
              (erase json sqlite t (execute_all cs rows).0).1
          × IsKeyed (execute_all cs rows).0
    execute_all-perform_all w cs rows t i h k =
        let (maps, answers, last) = execute_all-Agrees w cs rows h k in
        let now = (execute_all cs rows).0 in
        (
          find-entries w t i now last ∙ ap (λ m. content (m t i)) maps,
          answers,
          subst (λ (m : Entries Rate). Counts (λ j. is_live (m t j)) (erase json sqlite t now).1)
              maps (erase-Counts w t now last),
          last,
        )
