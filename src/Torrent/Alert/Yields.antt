-- ===== src/Torrent/Alert/Yields.antt =====
-- Changes of tasks and the slots of the scheduler.
use download_wrapper.Base.{
  ℕ, ◌+◌, ◌≤◌, ◌≡◌, refl, inl, inr, Bool, true, false, Option, none, some, length, List, [], ◌∷◌,
  ◌++◌, Option-cases, if_intro, if◌then◌else◌, arith,
}
use download_wrapper.Api.{TaskStatus}
use download_wrapper.Text.{Text, utf8, text_eq}
use download_wrapper.Manager.Task.{Task, status_occupies_slot}
use download_wrapper.Manager.Scheduler.{Engines, SchedulerConfig, is_active, active_count}
use download_wrapper.Manager.Control.{find_task, held_or_stored, get_engine_task}
use download_wrapper.Torrent.Errors.{
  ErrorCode, TorrentErrc, system_errors, system_error, torrent_error, by_value, classified,
  failed_task,
}
use download_wrapper.Torrent.Session.{Session}
use download_wrapper.Torrent.Control.{Engine, alter_task, get_task, edit_found, with_task}

module _ {E Rate : Type 0} (engines : Engines E Rate) (config : SchedulerConfig) where
  abbrev pub slots : List (Task Rate) → ℕ
  slots = active_count engines config

  abbrev pub slot : Task Rate → ℕ
  slot t = if is_active engines config t then 1 else 0

  slots-append : (ts us : List (Task Rate)) → slots (ts ++ us) ≡ slots ts + slots us
  unfolding active_count
  slots-append [] us = omega arith
  slots-append (t ∷ ts) us = omega (arith, slots-append ts us)

  -- From `ts` to `us`, no task has stopped to be idle: the slots have grown by no more than the tasks.
  abbrev pub Calm : List (Task Rate) → List (Task Rate) → Type 0
  Calm ts us = slots us + length ts ≤ slots ts + length us

  -- A change that takes no slot.
  abbrev pub Yields : (Task Rate → Task Rate) → Type 0
  Yields edit = (t : Task Rate) → slot (edit t) ≤ slot t

  slots_one : (t : Task Rate) → slots (t ∷ []) ≤ 1
  unfolding active_count
  slots_one t = ground arith

  length-append : (ts us : List (Task Rate)) → length (ts ++ us) ≡ length ts + length us
  length-append [] us = omega arith
  length-append (t ∷ ts) us = omega (arith, length-append ts us)

  module _ {S H : Type 0} (lib : Session S H Rate) where
    pub slots-alter_task :
        (key : Text) (edit : Task Rate → Task Rate) (ts : List (Task Rate))
        → Yields edit
        → Calm ts (alter_task lib key edit ts)
    unfolding active_count alter_task
    slots-alter_task key edit [] y = omega arith
    slots-alter_task key edit (t ∷ ts) y =
        if_intro (Calm (t ∷ ts)) (text_eq t.task_id key) (edit t ∷ ts)
          (t ∷ alter_task lib key edit ts) (λ e. omega (arith, y t))
          (λ e. omega (arith, slots-alter_task key edit ts y))

    pub slots-get_task :
        (key : Text) (e : Engine S Rate) → Calm e.tasks (get_task lib key e).1.tasks
    unfolding get_task get_engine_task
    slots-get_task key e =
        elim (find_task key e.tasks)
          as (λ o. Calm e.tasks (held_or_stored o (lib.stored_task key e.session) e.tasks).1) [
            | some t ↦ omega arith
            | none ↦ elim (Option-cases (lib.stored_task key e.session)) [
              | inl nothing ↦ rw nothing (omega arith)
              | inr (t, found) ↦ rw found (
                  omega (
                    arith,
                    slots-append e.tasks (t ∷ []),
                    length-append e.tasks (t ∷ []),
                    slots_one t,
                  ))
            ]
          ]

    slots-edit_found :
        (key : Text) (edit : Task Rate → Task Rate) (found : Option (Task Rate)) (e : Engine S Rate)
        → Yields edit
        → Calm e.tasks (edit_found lib key edit (found, e)).tasks
    slots-edit_found key edit none e y = omega arith
    slots-edit_found key edit (some t) e y = slots-alter_task key edit e.tasks y

    pub slots-with_task :
        (key : Text) (edit : Task Rate → Task Rate) (e : Engine S Rate)
        → Yields edit
        → Calm e.tasks (with_task lib key edit e).tasks
    unfolding with_task
    slots-with_task key edit e y =
        let (found, e') = get_task lib key e in
        omega (arith, slots-edit_found key edit found e' y, slots-get_task key e)

    torrent_error_status :
        (zero : Rate) (t : Task Rate) (value : TorrentErrc)
        → status_occupies_slot t.status ≡ false
        → status_occupies_slot (torrent_error zero t value).status ≡ false
    unfolding torrent_error
    torrent_error_status zero t TorrentErrc.failed_hash_check h = refl
    torrent_error_status zero t TorrentErrc.timed_out h = refl
    torrent_error_status zero t _ h = h

    classified_status :
        (zero : Rate) (t : Task Rate) (error : ErrorCode) (entry : Option (Text × Bool))
        → status_occupies_slot t.status ≡ false
        → status_occupies_slot (classified zero t error entry).status ≡ false
    unfolding classified
    classified_status zero t error (some (message, true)) h = refl
    classified_status zero t error (some (message, false)) h = refl
    classified_status zero t error none h =
        elim error.libtorrent as (λ o. status_occupies_slot (by_value zero t o).status ≡ false) [
          | none ↦ h
          | some value ↦ torrent_error_status zero t value h
        ]

    pub slot_idle : (t : Task Rate) (n : ℕ) → status_occupies_slot t.status ≡ false → slot t ≤ n
    slot_idle t n h = ground arith

    pub failed_task-Yields :
        (zero : Rate) (error : ErrorCode) → Yields (λ t. failed_task zero t error)
    unfolding failed_task
    failed_task-Yields zero error t =
        let failed = record t {
          status = TaskStatus.error;
          message = utf8 "下载失败";
          download_rate = zero;
          upload_rate = zero;
          dirty = true;
        } in
        slot_idle (classified zero failed error (system_error error system_errors)) (slot t)
          (classified_status zero failed error (system_error error system_errors) refl)
