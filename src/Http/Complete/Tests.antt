-- ===== src/Http/Complete/Tests.antt =====
-- The theorem on whole files at a concrete input.
use download_wrapper.Base.{ℕ, zero, suc, ◌<◌, ◌≡◌, refl, true, false, [], ◌∷◌, List, length, arith}
use download_wrapper.Base.Int.{ℤ, pos, ◌≤ℤ◌, ◌+ℤ◌, ◌-ℤ◌, ◌*ℤ◌, ◌/ℤ◌}
use download_wrapper.Text.{codes}
use download_wrapper.Http.Task.{TaskCtx, part_at, task_create_new}
use download_wrapper.Http.Split.{
  split, wanted_parts, first_size, adjusted_parts, first_part, next_part, next_parts, laid_out,
}
use download_wrapper.Http.Write.{
  Disk, WriteAnswer, pwrite, write_length, write_part, stored, received, write_cb,
}
use download_wrapper.Http.Complete.{Call, write_all, IsGenuine}
use download_wrapper.Http.Complete.Whole.{write_all-split}

abbrev sevens : ℤ → ℕ
sevens k = 7

-- A file of three bytes, which is one part.
abbrev laid : TaskCtx
laid = record (task_create_new (codes "u") (codes "c") (codes "/d")) {
  probing = false;
  parts = split (pos 1) (pos 2) (pos 3);
}

abbrev well : WriteAnswer
well = record { file_exists = true; errno = 0; landed = 0 }

-- The first write fails halfway; the last call brings more than the part lacks.
abbrev calls : List Call
calls =
    record { index = 0; bytes = 7 ∷ 7 ∷ []; answer = record well { errno = 28; landed = 1 } }
    ∷ record { index = 0; bytes = 7 ∷ []; answer = well }
    ∷ record { index = 0; bytes = 7 ∷ 7 ∷ 7 ∷ []; answer = well }
    ∷ []

abbrev no_probe : TaskCtx → TaskCtx
no_probe t = t

abbrev empty : Disk
empty k = 0

calls-IsGenuine : IsGenuine sevens no_probe calls laid empty
unfolding task_create_new write_all write_cb received write_part write_length stored pwrite split
    wanted_parts first_size adjusted_parts laid_out first_part next_parts next_part ◌+ℤ◌ ◌-ℤ◌ ◌*ℤ◌
    ◌/ℤ◌
calls-IsGenuine = (
  omega arith,
  (refl, (refl, tt)),
  (omega arith, (refl, tt), (omega arith, (refl, (refl, (refl, tt))), tt)),
)

all_full :
    (i : ℕ)
    → i < length (write_all no_probe calls laid empty).0.parts
    → (part_at (write_all no_probe calls laid empty).0 i).size
      ≤ℤ (part_at (write_all no_probe calls laid empty).0 i).done
unfolding task_create_new write_all write_cb received write_part write_length stored pwrite split
    wanted_parts first_size adjusted_parts laid_out first_part next_parts next_part ◌+ℤ◌ ◌-ℤ◌ ◌*ℤ◌
    ◌/ℤ◌
all_full zero h = omega arith
all_full (suc i) h = absurd (omega arith)

write_all-split_example : (write_all no_probe calls laid empty).1 (pos 2) ≡ sevens (pos 2)
write_all-split_example =
    write_all-split sevens (pos 1) (pos 2) 3 (omega arith) laid empty refl refl no_probe calls
      calls-IsGenuine all_full (pos 2) (omega arith) (omega arith)
