-- ===== src/Lib.antt =====
-- The download manager: HTTP and torrent downloads under one scheduler, with a local playback
-- proxy. This library models the parts of it that decide what is downloaded when and what the
-- bytes of a file become, and proves that they do so correctly. Paths are those of the
-- repository.
--
-- Each file below models the part of the program named with it.
--
-- - Base, Base/Tests, Base/Lists, Base/Int: shared names; Boolean tests, lists measured by
--   native numbers, signed integers. The C++ types int32_t and int64_t are integers without a
--   bound: sizes of files and counters of retries stay far below 2^63.
-- - Api: the enumerations of include/download_wrapper/download_wrapper.h.
-- - Text: byte strings, with trim_view and sv_to_int of src/http/http_engine_impl.cpp and
--   iequals of src/utils/string_util.cpp.
-- - Http/Path: the operations of std::filesystem::path that the engine uses, in POSIX form,
--   with file_extension and strip_extension.
-- - Http/UrlName: sanitize_basename and extract_filename_from_url of
--   src/http/http_engine_impl.cpp, with the parser of URLs and the decoder of percent escapes
--   as parameters; Http/UrlName/Named holds the theorem, Http/UrlName/Tests applies it.
-- - Http/Part, Http/Task: dw_part_state_t, dl_part_ctx and dl_task_ctx of
--   src/http/http_engine_internal.h and task_create_new; the handles of libcurl and of the
--   file, and the speed samples, are left out.
-- - Http/Split, Http/Probe: finalize_probing of src/http/http_engine_impl.cpp; the file system
--   is a parameter. Http/Split/Tiling holds the theorems on the division.
-- - Http/Write: write_cb; the file is a function from offsets to bytes. Http/Write/Content says
--   what a call leaves there. Http/Complete: calls of write_cb one after another over the parts
--   of a file; Http/Complete/Layout is on parts by their index, Http/Complete/Whole holds the
--   theorem, Http/Complete/Tests applies it.
-- - Http/Failure, Http/Result: classify_failure and handle_part_result; Http/Result/Progress
--   holds their theorems.
-- - Http/Aggregate: aggregate_status; Http/Aggregate/Verdict holds its theorems.
-- - Http/Header: header_cb and parse_content_disposition_filename; Http/Header/Identity holds
--   its theorem.
-- - Http/Resume: serialize_resume, deserialize_resume and maybe_emit_resume; the bencode coder
--   is a parameter. Http/Resume/Restore holds the round trip.
-- - Http/Engine: the operations of src/http/http_engine.cpp on the map of transfers; the
--   directory, the existing file, the decoder and the manager are parameters.
--   Http/Engine/Registry and Http/Engine/Sweep hold the theorems.
-- - Http/Request: the range and the condition that build_easy_for_part asks for;
--   Http/Request/Missing says that the range is what the part lacks. Text/Decimal holds the
--   lemmas on printed numbers.
-- - Http/Transfer: run_parts_multi; what libcurl, the file system and the other threads do in a
--   turn of its loop is a value. Http/Transfer/Thread: task_thread_func. Http/Transfer/Own,
--   Http/Transfer/Probed, Http/Transfer/Judged, Http/Transfer/Handled, Http/Transfer/Spawned
--   and Http/Transfer/Turned say what each step leaves alone, and that it keeps the invariant
--   of Http/Transfer/Shape; Http/Transfer/Settled and Http/Transfer/Concluded what a thread
--   comes to; Http/Transfer/Budget, Http/Transfer/Lowered and Http/Transfer/Drained that its
--   loop ends.
-- - UniqueName: src/utils/unique_name.cpp, with the file system as a parameter;
--   UniqueName/Fresh holds its theorem.
-- - Playback/Session, Playback/Request: the members of session and handle_request of
--   src/playback/playback_proxy.cpp; Playback/Request/Ranges what a printed range is read as.
-- - Playback/Stream: do_stream and the functions behind it, one call after another, each with
--   what it meets outside. Playback/Stream/Delivery and Playback/Stream/Completion hold the
--   theorems. Playback/Server: start, stop, address.
-- - Manager/Task: Task, TaskParams and dw_submit_result_t.
-- - Manager/Scheduler: scheduler_loop of src/core/task_manager.cpp; engines, clock and running_
--   are parameters with a state. Manager/Scheduler/Choice and Manager/Scheduler/Admission hold
--   the theorems.
-- - Manager/Control: apply_config, add, pause, resume, remove, get_engine_task, start and
--   maintenance_loop of src/core/task_manager.cpp, with the calls of the database as values.
--   Manager/Control/Usable is on the configuration.
-- - Base64: src/utils/base64_util.cpp; Base64/Decoded holds the round trip, Base64/Tests
--   applies it.
-- - Manager/TaskFile: TaskFile of src/core/task_file.h with its JSON object.
-- - Store/Payload, Store/Files: TaskFileStore of src/store/task_file_store.cpp; the table is a
--   list of rows, and each SQL statement of the source is a function on it.
--   Store/Payload/Restore holds the round trip through the text of a row, Store/Files/Keys the
--   laws of the primary key, Store/Files/Counted what a deletion counts, Store/Files/Refines
--   the refinement.
-- - Text/Ints: join_ints and split_ints of src/utils/string_util.cpp, the texts of lists of
--   file indices.
-- - Store/Tasks: the table and the statements of TaskStore, src/store/task_store.h, with its
--   read_task and the trigger of src/store/task_file_store.cpp on it. Store/Tasks/Operations
--   holds its operations, Store/Tasks/Replaced and Store/Tasks/Restarted the theorems; the
--   latter is on what TaskManager::start takes over. Store/Tasks/Tests applies them.
-- - Torrent/Segments: the loop of handle_piece_finished of src/torrent/torrent_engine.cpp over
--   the pieces of a file; Torrent/Segments/Ordered and Torrent/Segments/Exact hold its
--   theorems.
-- - Torrent/Files: what handle_parsed, handle_piece_finished and a file_completed_alert enter
--   in the files of a task; libtorrent is a parameter. Torrent/Files/Listing,
--   Torrent/Files/Sound, Torrent/Files/Kept, Torrent/Files/Measured and Torrent/Files/Reported
--   hold the theorems.
-- - Torrent/Errors: handle_task_error. Torrent/Session: info_hash_hex and find_handle, with the
--   session of libtorrent as a parameter. Torrent/Control: resume_task, do_resume, pause_task,
--   delete_task and sweep.
-- - Torrent/Adding: add_task, parse_magnet and parse_torrent_file; Torrent/Adding/Listed holds
--   the theorem on the files that are shown.
-- - Torrent/Lifecycle: init and destroy, and the turn of status_loop that passes on the limits
--   of the rates; Torrent/Lifecycle/Limited holds its theorem.
-- - Torrent/Alert: handle_parsed and handle_alert. Torrent/Alert/Yields and Torrent/Alert/Slots
--   are on the slots of the scheduler.
-- - Http/Tests, Http/Transfer/Tests, Http/Engine/Tests, Torrent/Alert/Tests, Playback/Tests,
--   UniqueName/Tests, Manager/Tests, Store/Tests, Torrent/Tests: the theorems applied to
--   concrete inputs.
--
-- The loop of a transfer runs over a list of turns; one that has no turn left and still waits
-- says so, and a theorem gives the number of turns that is enough. The admission loop of the
-- scheduler runs on fuel. A waiting task counts two and a running one counts one; every turn
-- that goes on lowers the sum, so more fuel than the sum is always enough, and the theorem on
-- the loop says that it returns.
--
-- Not modelled: the loops of the threads of the torrent engine but for the limits that the
-- status loop passes on, the threads and locks around the scheduler (a turn holds the lock from
-- end to end), libcurl, libtorrent, SQLite and WebRTC, the older tables of
-- src/store/task_store.cpp, the writing of JSON, and floating-point speeds.
pub mod Base
pub mod Api
pub mod Text
pub mod Base64
pub mod Http
pub mod Manager
pub mod Playback
pub mod Store
pub mod Torrent
pub mod UniqueName
