-- ===== src/Http/Complete.antt =====
-- A sequence of calls of `write_cb` of src/http/http_engine_impl.cpp over the parts of one file.
pub mod Layout
pub mod Whole
mod Tests
use download_wrapper.Base.{ℕ, ◌<◌, List, [], ◌∷◌, length}
use download_wrapper.Base.Int.{ℤ, ◌+ℤ◌}
use download_wrapper.Text.{Text}
use download_wrapper.Http.Task.{TaskCtx, part_at}
use download_wrapper.Http.Write.{Disk, WriteAnswer, write_cb}
use download_wrapper.Http.Write.Content.{Serves}

-- A call: for which part, with what, and what the file system answers.
pub record Call : Type 0 where
  pub index : ℕ
  pub bytes : Text
  pub answer : WriteAnswer

-- The calls in the order in which libcurl makes them, whatever parts they are for.
unfoldable pub write_all : (TaskCtx → TaskCtx) → List Call → TaskCtx → Disk → TaskCtx × Disk
unfolding write_cb
write_all probe [] t disk = (t, disk)
write_all probe (c ∷ cs) t disk =
    let (taken, t', disk') = write_cb probe c.answer t c.index disk c.bytes in
    write_all probe cs t' disk'

-- Each call is for a part that there is, and brings the bytes of the source from where the part stands.
abbrev pub IsGenuine : (ℤ → ℕ) → (TaskCtx → TaskCtx) → List Call → TaskCtx → Disk → Type 0
IsGenuine source probe [] t disk = Unit {0}
IsGenuine source probe (c ∷ cs) t disk =
    (c.index < length t.parts)
    × Serves source c.bytes ((part_at t c.index).start +ℤ (part_at t c.index).done)
    × IsGenuine source probe cs (write_cb probe c.answer t c.index disk c.bytes).1
        (write_cb probe c.answer t c.index disk c.bytes).2
