-- ===== src/Http/Write.antt =====
-- `write_cb` of src/http/http_engine_impl.cpp: the bytes of a response go to their part's place in
-- the file.
pub mod Content
use Prim.Native.String.{String, ◌++◌}
use download_wrapper.Base.{
  ◌/◌, ◌%◌, ltb, get_or, ℕ, Bool, true, false, Option, none, some, List, [], ◌∷◌, zero, suc, length,
  min, ◌||◌, ◌&&◌, not, if◌then◌else◌, ◌==◌,
}
use download_wrapper.Base.Int.{ℤ, pos, ◌+ℤ◌, ◌-ℤ◌, leb_ℤ, ltb_ℤ, eqb_ℤ, pos_part}
use download_wrapper.Api.{TaskStatus, Reason, is_error}
use download_wrapper.Text.{Text}
use download_wrapper.Http.Part.{Part}
use download_wrapper.Http.Task.{PartCtx, TaskCtx, part_at, set_part, or_message}

-- The bytes of the target file by their offset.
abbrev pub Disk : Type 0
Disk = ℤ → ℕ

abbrev pub put : Disk → ℤ → ℕ → Disk
put disk off b k = if eqb_ℤ k off then b else disk k

-- What `DwFile::pwrite_at` leaves: the first `n` bytes of `bytes` from offset `off` on.
unfoldable pub pwrite : Disk → ℕ → Text → ℤ → Disk
unfolding ◌+ℤ◌
pwrite disk zero bytes off = disk
pwrite disk (suc n) [] off = disk
pwrite disk (suc n) (b ∷ bytes) off = pwrite (put disk off b) n bytes (off +ℤ pos 1)

-- What the file system answers: whether the file is there, the `errno` of the write, and how many
-- bytes a write that fails has put in the file before.
pub record WriteAnswer : Type 0 where
  pub file_exists : Bool
  pub errno : ℕ
  pub landed : ℕ

-- ENOSPC
abbrev no_space : ℕ
no_space = 28

-- `std::to_string` of an error number, on fuel for its digits.
abbrev digit_text : ℕ → String
digit_text d = get_or ("0" ∷ "1" ∷ "2" ∷ "3" ∷ "4" ∷ "5" ∷ "6" ∷ "7" ∷ "8" ∷ "9" ∷ []) d ""

unfoldable pub errno_text : ℕ → ℕ → String
errno_text zero e = ""
errno_text (suc fuel) e =
    let more = errno_text fuel (e / 10) ++ digit_text (e % 10) in
    if ltb e 10 then digit_text e else more

-- The message of a failed write.
unfoldable pub write_message : ℕ → String
unfolding errno_text
write_message e = if e == no_space then "存储空间不足" else "保存失败 [" ++ errno_text (suc e) e ++ "]"

-- `write_len`: at most what the part still lacks, if its size is known; `none` if it is full.
unfoldable pub write_length : Part → ℕ → Option ℕ
unfolding ◌-ℤ◌
write_length p len =
    if ltb_ℤ (pos 0) p.size
    then if leb_ℤ (p.size -ℤ p.done) (pos 0)
      then none
      else if ltb_ℤ (p.size -ℤ p.done) (pos len)
      then some (pos_part (p.size -ℤ p.done))
      else some len
    else some len

abbrev part_error : Part → Part
part_error p = record p { status = TaskStatus.error; reason = Reason.general }

abbrev part_failed : TaskCtx → ℕ → Part → String → TaskCtx
part_failed t i p m = record (set_part t i (part_error p)) { message = or_message t.message m }

-- The write itself, and `part.done += write_len`. The tests are whether the file exists and whether
-- the write succeeds; a write that fails leaves what it has put in the file.
unfoldable pub stored : Bool → Bool → ℕ → ℕ → TaskCtx → ℕ → Disk → Text → ℕ → ℕ × TaskCtx × Disk
unfolding pwrite ◌+ℤ◌ write_message
stored false _ errno landed t i disk bytes n = (0, part_failed t i (part_at t i) "文件不存在", disk)
stored true false errno landed t i disk bytes n =
    let p = part_at t i in
    (
      0,
      part_failed t i p (write_message errno),
      pwrite disk (min landed n) bytes (p.start +ℤ p.done),
    )
stored true true errno landed t i disk bytes n =
    let p = part_at t i in
    (n, set_part t i (record p { done = p.done +ℤ pos n }), pwrite disk n bytes (p.start +ℤ p.done))

-- The part's share of the bytes, once the probe is over.
unfoldable pub write_part : WriteAnswer → TaskCtx → ℕ → Disk → Text → ℕ × TaskCtx × Disk
unfolding write_length stored
write_part answer t i disk bytes = elim (write_length (part_at t i) (length bytes)) [
  | none ↦ (0, t, disk)
  | some n ↦
      stored answer.file_exists (answer.errno == 0) answer.errno answer.landed t i disk bytes n
]

-- Whether the call takes nothing: the task is in error, cancelled or paused, or there is no byte.
abbrev pub is_stopped : TaskCtx → Text → Bool
is_stopped t bytes = is_error t.status || t.cancel_req || t.pause_req || length bytes == 0

-- The body of the callback, by `is_stopped` and by `tCtx->probing`.
unfoldable pub received :
    Bool → Bool → (TaskCtx → TaskCtx) → WriteAnswer → TaskCtx → ℕ → Disk → Text → ℕ × TaskCtx × Disk
unfolding write_part
received true _ probe answer t i disk bytes = (0, t, disk)
received false false probe answer t i disk bytes = write_part answer t i disk bytes
received false true probe answer t i disk bytes =
    if is_error (probe t).status
    then (0, probe t, disk)
    else write_part answer (probe t) i disk bytes

-- `probe` is `finalize_probing` for this part.
unfoldable pub write_cb :
    (TaskCtx → TaskCtx) → WriteAnswer → TaskCtx → ℕ → Disk → Text → ℕ × TaskCtx × Disk
unfolding received
write_cb probe answer t i disk bytes =
    received (is_stopped t bytes) t.probing probe answer t i disk bytes
