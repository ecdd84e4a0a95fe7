-- ===== src/Http/Transfer/Tests.antt =====
-- The theorems on the thread of a transfer at a concrete input, and runs of its loop.
use download_wrapper.Base.{
  ℕ, zero, suc, ◌≤◌, Bool, ◌≡◌, ◌≢◌, refl, true, false, none, [], ◌∷◌, List, arith,
}
use download_wrapper.Base.Int.{pos, ◌+ℤ◌, ◌-ℤ◌, ◌≤ℤ◌}
use download_wrapper.Api.{TaskStatus}
use download_wrapper.Text.{codes}
use download_wrapper.Http.Part.{zero_part}
use download_wrapper.Http.Task.{TaskCtx, task_create_new, new_part_ctx, part_at}
use download_wrapper.Http.Failure.{CurlCode, classify_failure}
use download_wrapper.Http.Header.{ctx_of}
use download_wrapper.Http.Write.{
  Disk, WriteAnswer, pwrite, write_length, write_part, stored, received, write_cb,
}
use download_wrapper.Http.Probe.{Storage, SplitConfig}
use download_wrapper.Http.Request.{requested}
use download_wrapper.Http.Result.{handle_part_result, unfinished, broken}
use download_wrapper.Http.Resume.{maybe_emit_resume, total_done}
use download_wrapper.Http.Aggregate.{aggregate_status, tally, tally_part, verdict}
use download_wrapper.Http.Transfer.{
  body, finished, Turn, Loop, waiting, drop_easy, add_part, spawn_part, spawn_parts,
  spawn_new_parts, called, perform, judged, handle_message, handle_messages, turned, loop,
  first_loop, run_parts_multi,
}
use download_wrapper.Http.Transfer.Thread.{concluded, task_thread_func}
use download_wrapper.Http.Transfer.Shape.{is_live}
use download_wrapper.Http.Transfer.Settled.{IsFresh, IsFair}
use download_wrapper.Http.Transfer.Concluded.{quiet, Concludes, task_thread_func-Concludes}
use download_wrapper.Http.Transfer.Budget.{weight}
use download_wrapper.Http.Transfer.Lowered.{loop_weight}
use download_wrapper.Http.Transfer.Drained.{IsBusy, run_parts_multi-Drains}

-- A file system that is not asked here.
abbrev fs : Storage
fs = record {
  acquire_wrapper_name = λ dir name. name;
  mkdir_recursive = λ dir. true;
  open_error = none;
  truncate_error = λ size. none;
}

abbrev cfg : SplitConfig
cfg = record { min_size_for_split = pos 1048576; default_parts = pos 4 }

-- A transfer of ten bytes, of which two are there.
abbrev resumed : TaskCtx
resumed = record (task_create_new (codes "http://a/b") [] (codes "/d")) {
  parts = record zero_part { end = pos 9; size = pos 10; done = pos 2 } ∷ [];
  part_ctx = new_part_ctx 0 ∷ [];
  total_size = pos 10;
  probing = false;
}

abbrev empty_disk : Disk
empty_disk k = 0

abbrev well : WriteAnswer
well = record { file_exists = true; errno = 0; landed = 0 }

abbrev builds : ℕ → Bool
builds i = true

-- The other eight bytes arrive, and the request ends.
abbrev last_turn : Turn
last_turn = record {
  flags = quiet;
  callbacks = body 0 well (1 ∷ 2 ∷ 3 ∷ 4 ∷ 5 ∷ 6 ∷ 7 ∷ 8 ∷ []) ∷ [];
  performs = true;
  builds = builds;
  messages = finished 0 quiet CurlCode.ok (pos 206) true ∷ [];
}

-- The connection is lost.
abbrev lost_turn : Turn
lost_turn = record last_turn {
  callbacks = [];
  messages = finished 0 quiet CurlCode.recv_error (pos 0) true ∷ [];
}

abbrev run : List Turn → TaskCtx
run turns =
    (task_thread_func fs cfg (codes "b") (pos 1) quiet quiet true (pos 7) builds turns resumed
      empty_disk).0

completes : (run (lost_turn ∷ last_turn ∷ [])).status ≡ TaskStatus.completed
unfolding task_thread_func run_parts_multi spawn_new_parts spawn_parts spawn_part add_part requested
    loop perform called write_cb received write_part write_length stored pwrite turned
    handle_messages handle_message drop_easy judged handle_part_result unfinished broken
    classify_failure maybe_emit_resume total_done concluded aggregate_status tally tally_part
    verdict task_create_new ◌+ℤ◌ ◌-ℤ◌
completes = refl

gives_up : (run (lost_turn ∷ lost_turn ∷ [])).status ≡ TaskStatus.error
unfolding task_thread_func run_parts_multi spawn_new_parts spawn_parts spawn_part add_part requested
    loop perform called write_cb received write_part write_length stored pwrite turned
    handle_messages handle_message drop_easy judged handle_part_result unfinished broken
    classify_failure maybe_emit_resume total_done concluded aggregate_status tally tally_part
    verdict task_create_new ◌+ℤ◌ ◌-ℤ◌
gives_up = refl

resumed-IsFresh : IsFresh resumed
unfolding task_create_new
resumed-IsFresh = record { paired = refl; indexed = at; probed = λ e. cc; full = full }
  where
    at : (j : ℕ) → (ctx_of resumed j).index ≡ j
    at zero = refl
    at (suc j) = refl

    full :
        (j : ℕ)
        → (part_at resumed j).status ≡ TaskStatus.completed
        → (part_at resumed j).size ≤ℤ (part_at resumed j).done
    full zero e = cc
    full (suc j) e = cc

abbrev spawned : Loop
spawned = spawn_new_parts builds (first_loop resumed empty_disk)

abbrev two_turns : List Turn
two_turns = lost_turn ∷ last_turn ∷ []

is_fair : IsFair fs cfg (codes "b") (pos 1) two_turns spawned
unfolding run_parts_multi spawn_new_parts spawn_parts spawn_part add_part requested loop perform
    called write_cb received write_part write_length stored pwrite turned handle_messages
    handle_message drop_easy judged handle_part_result unfinished broken classify_failure
    maybe_emit_resume total_done task_create_new is_live ◌+ℤ◌ ◌-ℤ◌
is_fair = (tt, ((refl, refl), tt), ((refl, tt), ((refl, refl), tt), tt))

task_thread_func-Concludes_example :
    Concludes
      (task_thread_func fs cfg
        (codes "b")
        (pos 1)
        quiet
        quiet
        true
        (pos 7)
        builds
        two_turns
        resumed
        empty_disk).0
unfolding run_parts_multi spawn_new_parts spawn_parts spawn_part add_part requested loop perform
    called write_cb received write_part write_length stored pwrite turned handle_messages
    handle_message drop_easy judged handle_part_result unfinished broken classify_failure
    maybe_emit_resume total_done task_create_new is_live ◌+ℤ◌ ◌-ℤ◌
task_thread_func-Concludes_example =
    task_thread_func-Concludes fs cfg (codes "b") (pos 1) quiet (pos 7) builds two_turns resumed
      empty_disk resumed-IsFresh is_fair refl refl

is_busy : IsBusy fs cfg (codes "b") (pos 1) two_turns spawned
unfolding run_parts_multi spawn_new_parts spawn_parts spawn_part add_part requested loop perform
    called write_cb received write_part write_length stored pwrite turned handle_messages
    handle_message drop_easy judged handle_part_result unfinished broken classify_failure
    maybe_emit_resume total_done task_create_new is_live ◌+ℤ◌ ◌-ℤ◌
is_busy = (refl, (refl, tt))

is_enough : loop_weight (pos 1) spawned ≤ 2
unfolding run_parts_multi spawn_new_parts spawn_parts spawn_part add_part requested loop perform
    called write_cb received write_part write_length stored pwrite turned handle_messages
    handle_message drop_easy judged handle_part_result unfinished broken classify_failure
    maybe_emit_resume total_done task_create_new is_live weight ◌+ℤ◌ ◌-ℤ◌
is_enough = omega arith

run_parts_multi-Drains_example :
    (run_parts_multi fs cfg (codes "b") (pos 1) builds two_turns resumed empty_disk).1 ≢ waiting
unfolding task_create_new
run_parts_multi-Drains_example =
    run_parts_multi-Drains fs cfg (codes "b") (pos 1) builds two_turns resumed empty_disk
      resumed-IsFresh refl is_fair is_busy is_enough
