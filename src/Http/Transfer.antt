-- ===== src/Http/Transfer.antt =====
-- `run_parts_multi` and `task_thread_func` of src/http/http_engine_impl.cpp: the thread of a transfer,
-- which drives one libcurl handle for each part. What libcurl and the other threads do in a turn of
-- the loop is a value; the callbacks and the end of a request are those of the source. Exceptions,
-- which only a lack of memory raises here, and speeds are left out.

pub mod Own
pub mod Probed
pub mod Shape
pub mod Judged
pub mod Handled
pub mod Spawned
pub mod Turned
pub mod Settled
pub mod Thread
pub mod Concluded
pub mod Budget
pub mod Lowered
pub mod Drained
mod Tests
use download_wrapper.Base.{
  ℕ, zero, suc, ◌-◌, Bool, true, false, ◌&&◌, ◌||◌, not, List, [], ◌∷◌, length, ◌==◌, if◌then◌else◌,
}
use download_wrapper.Base.Int.{ℤ, pos, ◌+ℤ◌, ◌-ℤ◌, leb_ℤ}
use download_wrapper.Api.{TaskStatus, Reason, is_completed, is_error, is_general}
use download_wrapper.Text.{Text}
use download_wrapper.Http.Task.{PartCtx, TaskCtx, part_at, set_part, set_part_ctx, or_message}
use download_wrapper.Http.Failure.{CurlCode}
use download_wrapper.Http.Header.{ctx_of, header_cb}
use download_wrapper.Http.Write.{Disk, WriteAnswer, write_cb}
use download_wrapper.Http.Probe.{Storage, SplitConfig, finalize_probing}
use download_wrapper.Http.Request.{requested}
use download_wrapper.Http.Result.{handle_part_result, error_part}
use download_wrapper.Http.Resume.{maybe_emit_resume}
use download_wrapper.Http.Aggregate.{aggregate_status}

-- `cancel_req` and `pause_req`, as other threads have set them.
pub record Flags : Type 0 where
  pub cancel : Bool
  pub pause : Bool

-- A call that libcurl makes while it performs, for the part context at a position.
pub data Callback : Type 0 where
  header_line : ℕ → Text → Callback
  body : ℕ → WriteAnswer → Text → Callback

-- What `curl_multi_info_read` returns: a message that is no end, the end of a handle without a part
-- context, or the end of the request of a part, with the flags at that time, its code and status, and
-- whether a new handle can be built.
pub data Message : Type 0 where
  other_message unknown_handle : Message
  finished : ℕ → Flags → CurlCode → ℤ → Bool → Message

-- One turn: the flags at its head, what libcurl does, whether it succeeds, which handles for new parts
-- can be built, and the messages.
pub record Turn : Type 0 where
  pub flags : Flags
  pub callbacks : List Callback
  pub performs : Bool
  pub builds : ℕ → Bool
  pub messages : List Message

-- The variables of the loop; `live` are the positions of the part contexts with a handle (`easy`).
pub record Loop : Type 0 where
  pub task : TaskCtx
  pub disk : Disk
  pub live : List ℕ
  pub spawned : ℕ
  pub active : ℤ

-- Why the loop is over: no handle is active; it broke off; or it still waits.
pub data Ending : Type 0 where
  settled interrupted waiting : Ending

abbrev pub noticed : Flags → TaskCtx → TaskCtx
noticed f t = record t { cancel_req = f.cancel; pause_req = f.pause }

-- `drop_easy`
unfoldable pub drop_easy : ℕ → List ℕ → List ℕ
drop_easy i [] = []
drop_easy i (j ∷ live) = if j == i then live else j ∷ drop_easy i live

-- `--active`
abbrev pub count_down : Loop → Loop
count_down l = record l { active = l.active -ℤ pos 1 }

-- `add_part`
unfoldable pub add_part : Bool → ℕ → Loop → Loop × Bool
unfolding requested
add_part builds i l =
    let c = ctx_of l.task i in
    if builds
    then (record l { task = set_part_ctx l.task i (requested l.task c); live = i ∷ l.live }, true)
    else (
      record l {
        task = set_part l.task c.index (error_part (part_at l.task c.index) Reason.general);
      },
      false,
    )

abbrev pub count_up : Loop × Bool → Loop
count_up (l, ok) = if ok then record l { active = l.active +ℤ pos 1 } else l

-- One round of `spawn_new_parts`; a part that is completed needs no request.
unfoldable pub spawn_part : (ℕ → Bool) → Loop → Loop
unfolding add_part
spawn_part builds l =
    let i = l.spawned in
    let l' : Loop = record l { spawned = suc i } in
    if is_completed (part_at l.task (ctx_of l.task i).index).status
    then l'
    else count_up (add_part (builds i) i l')

unfoldable pub spawn_parts : ℕ → (ℕ → Bool) → Loop → Loop
spawn_parts zero builds l = l
spawn_parts (suc n) builds l = spawn_parts n builds (spawn_part builds l)

-- `spawn_new_parts`; a round leaves the number of part contexts as it is.
unfoldable pub spawn_new_parts : (ℕ → Bool) → Loop → Loop
unfolding spawn_parts
spawn_new_parts builds l = spawn_parts (length l.task.part_ctx - l.spawned) builds l

module _ (fs : Storage) (cfg : SplitConfig) (by_url : Text) where
  unfoldable pub called : Callback → Loop → Loop
  called (header_line i buffer) l = record l { task = (header_cb l.task i buffer).0 }
  called (body i answer bytes) l =
      let probe = λ (t : TaskCtx). finalize_probing fs cfg by_url t (ctx_of t i) in
      let (taken, t, disk) = write_cb probe answer l.task i l.disk bytes in
      record l { task = t; disk = disk }

  -- `curl_multi_perform`
  unfoldable pub perform : List Callback → Loop → Loop
  unfolding called
  perform [] l = l
  perform (c ∷ cs) l = perform cs (called c l)

  abbrev pub performed : Turn → Loop → Loop
  performed turn l = perform turn.callbacks (record l { task = noticed turn.flags l.task })

-- What follows on `handle_part_result`.
unfoldable pub judged : Bool → ℕ → Loop → TaskCtx × Bool → Loop
unfolding add_part
judged builds i l (t, again) =
    let l' : Loop = record l { task = t } in
    let (added, ok) = add_part builds i l' in
    if again then (if ok then added else count_down added) else count_down l'

abbrev pub emitted : Loop → Loop
emitted l = record l { task = (maybe_emit_resume l.task).0 }

abbrev pub breaks : Flags → TaskCtx → Bool
breaks f t = f.cancel || f.pause || (is_error t.status && is_general t.reason)

abbrev pub first_loop : TaskCtx → Disk → Loop
first_loop t disk = record { task = t; disk = disk; live = []; spawned = 0; active = pos 0 }

module _ (max_retries : ℤ) where
  -- One round of the loop over the messages.
  unfoldable pub handle_message : Message → Loop → Loop
  unfolding drop_easy judged
  handle_message other_message l = l
  handle_message unknown_handle l = l
  handle_message (finished i flags rc http_code builds) l =
      let t = noticed flags l.task in
      let l' : Loop = record l { task = t; live = drop_easy i l.live } in
      if flags.cancel || flags.pause
      then count_down l'
      else judged builds i l' (handle_part_result max_retries t (ctx_of t i) rc http_code)

  unfoldable pub handle_messages : List Message → Loop → Loop
  unfolding handle_message
  handle_messages [] l = l
  handle_messages (m ∷ ms) l = handle_messages ms (handle_message m l)

  -- The turn of the loop behind the calls of libcurl.
  unfoldable pub turned : Turn → Loop → Loop
  unfolding spawn_new_parts handle_messages
  turned turn l = emitted (handle_messages turn.messages (spawn_new_parts turn.builds l))

module _ (fs : Storage) (cfg : SplitConfig) (by_url : Text) (max_retries : ℤ) where
  -- `while (active > 0)`
  unfoldable pub loop : List Turn → Loop → Loop × Ending
  unfolding perform turned
  loop [] l = (l, if leb_ℤ l.active (pos 0) then settled else waiting)
  loop (turn ∷ turns) l =
      let l' = performed fs cfg by_url turn l in
      let rest = loop turns (turned max_retries turn l') in
      if leb_ℤ l.active (pos 0)
      then (l, settled)
      else if breaks turn.flags l.task
      then (record l { task = noticed turn.flags l.task }, interrupted)
      else if turn.performs
      then rest
      else (l', interrupted)

  -- `run_parts_multi`, where `curl_multi_init` succeeds.
  unfoldable pub run_parts_multi : (ℕ → Bool) → List Turn → TaskCtx → Disk → Loop × Ending
  unfolding spawn_new_parts loop
  run_parts_multi builds turns t disk = loop turns (spawn_new_parts builds (first_loop t disk))
