-- ===== src/Torrent/Session.antt =====
-- The session of libtorrent as src/torrent/torrent_engine.cpp uses it, `info_hash_hex` and
-- `find_handle`. libtorrent, the stores and the clock are a parameter with a state. A call that can
-- throw gives the message of the exception; a query gives what it gives.
use download_wrapper.Base.{
  ℕ, Bool, true, false, ◌||◌, not, Option, none, some, List, [], ◌∷◌, ◌==◌, length, if◌then◌else◌,
}
use download_wrapper.Base.Int.{ℤ}
use download_wrapper.Api.{is_torrent}
use download_wrapper.Text.{Text, is_empty, text_eq}
use download_wrapper.Manager.Task.{Task}

-- `info_hash_t`, each hash in hex where it is there
pub record InfoHashes : Type 0 where
  pub v1 : Option Text
  pub v2 : Option Text

-- The flags of `add_torrent_params` that the engine sets or clears.
pub record Flags : Type 0 where
  pub update_subscribe : Bool
  pub need_save_resume : Bool
  pub upload_mode : Bool
  pub paused : Bool
  pub auto_managed : Bool

-- `add_torrent_params`; `ti` are the hashes of the metadata, where they are there, and `rest` is what the
-- engine does not touch.
pub record AddParams : Type 0 where
  pub name : Text
  pub save_path : Text
  pub info_hashes : InfoHashes
  pub ti : Option InfoHashes
  pub flags : Flags
  pub rest : Text

-- The calls of a handle or of the session that change them.
pub data Call (H : Type 0) : Type 0 where
  file_priority : H → ℤ → ℤ → Call H
  save_resume_data : H → Call H
  add_tracker : H → Text → Call H
  leave_upload_mode : H → Call H
  resume : H → Call H
  pause : H → Call H
  post_torrent_updates : Call H
  remove_torrent : H → Bool → Call H
  move_storage : H → Text → Call H

pub record Session (S H Rate : Type 0) : Type 0 where
  pub is_running : S → Bool
  pub get_torrents : S → List H
  pub is_valid : H → S → Bool
  pub info_hashes : H → S → Option InfoHashes
  pub find_v1 : Text → S → Option H
  pub find_v2 : Text → S → Option H
  pub add_torrent : AddParams → S → Option H × S
  pub act : Call H → S → Option Text × S
  pub num_files : H → S → Option ℕ
  pub is_seeding : H → S → Bool
  pub total_done : H → S → ℤ
  pub all_time_upload : H → S → ℤ
  pub from_hex : Text → Option Text
  pub read_resume_data : Text → Option AddParams
  pub parse_magnet_uri : Text → Option AddParams
  pub load_torrent_file : Text → S → Option AddParams
  pub stored_resume : Text → S → Option Text
  pub stored_task : Text → S → Option (Task Rate)
  pub any_stored_task : Text → S → Option (Task Rate)
  pub replace_task : Task Rate → S → Bool × S
  pub now_unix_ms : S → ℤ
  pub default_trackers : List Text

-- `info_hash_hex`: the second version's hash before the first's
unfoldable pub hash_hex : InfoHashes → Text
hash_hex hashes = elim hashes.v2 [ some h ↦ h | none ↦ elim hashes.v1 [ some h ↦ h | none ↦ [] ] ]

abbrev pub no_hashes : InfoHashes
no_hashes = record { v1 = none; v2 = none }

-- The parameters of a torrent that is rebuilt: it stays in upload mode until `do_resume`.
abbrev pub rebuilt : AddParams → AddParams
rebuilt atp = record atp {
  flags = record {
    update_subscribe = true;
    need_save_resume = true;
    upload_mode = true;
    paused = false;
    auto_managed = false;
  };
}

module _ {S H Rate : Type 0} (lib : Session S H Rate) where
  -- `info_hash_hex` of a handle: empty if the handle is invalid or the call throws
  unfoldable pub info_hash_hex : H → S → Text
  unfolding hash_hex
  info_hash_hex h s =
      if lib.is_valid h s
      then (elim (lib.info_hashes h s) [ none ↦ [] | some hashes ↦ hash_hex hashes ])
      else []

  -- The first handle with a hash.
  unfoldable pub handle_of : Text → List H → S → Option H
  unfolding text_eq
  handle_of key [] s = none
  handle_of key (h ∷ hs) s = if text_eq (info_hash_hex h s) key then some h else handle_of key hs s

  abbrev pub or_else : Option H → Option H → Option H
  or_else (some h) other = some h
  or_else none other = other

  -- The handle that the session has.
  unfoldable pub present_handle : Text → S → Option H
  unfolding handle_of
  present_handle key s = or_else (if length key == 40 then lib.find_v1 key s else none) (
      or_else (if length key == 64 then lib.find_v2 key s else none)
        (handle_of key (lib.get_torrents s) s))

  -- A handle, or what is tried next.
  abbrev pub or_next : Option H × S → (S → Option H × S) → Option H × S
  or_next (some h, s) next = (some h, s)
  or_next (none, s) next = next s

  abbrev pub add_rebuilt : Option AddParams → S → Option H × S
  add_rebuilt none s = (none, s)
  add_rebuilt (some atp) s = lib.add_torrent (rebuilt atp) s

  abbrev pub saved_at : Text → Option AddParams → Option AddParams
  saved_at path none = none
  saved_at path (some atp) = some (record atp { save_path = path })

  -- From the resume data, if there are any.
  abbrev pub from_resume : Text → S → Option H × S
  from_resume key s = elim (lib.stored_resume key s) [
    | none ↦ (none, s)
    | some resume_data ↦
        if is_empty resume_data then (none, s) else add_rebuilt (lib.read_resume_data resume_data) s
  ]

  -- From the link or the file of the stored task.
  abbrev pub from_task : Option (Task Rate) → S → Option H × S
  from_task none s = (none, s)
  from_task (some t) s =
      or_next
        (if is_empty t.magnet_link
          then (none, s)
          else add_rebuilt (saved_at t.save_path (lib.parse_magnet_uri t.magnet_link)) s)
        (λ s'.
          if is_empty t.torrent_file
          then (none, s')
          else add_rebuilt (saved_at t.save_path (lib.load_torrent_file t.torrent_file s')) s')

  -- The stored task, if it is a torrent.
  abbrev pub torrent_only : Option (Task Rate) → Option (Task Rate)
  torrent_only none = none
  torrent_only (some t) = if is_torrent t.task_protocol then some t else none

  abbrev pub is_deleted : Option (Task Rate) → Bool
  is_deleted none = false
  is_deleted (some t) = t.is_delete

  unfoldable pub find_handle : Text → Bool → S → Option H × S
  unfolding present_handle
  find_handle key allow_rebuild s =
      if is_empty key || not (lib.is_running s) then (none, s) else elim (present_handle key s) [
        | some h ↦ (some h, s)
        | none ↦
            let stored = torrent_only (lib.any_stored_task key s) in
            if not allow_rebuild || is_deleted stored
            then (none, s)
            else or_next (from_resume key s) (from_task stored)
      ]

  abbrev pub and_next : Option Text × S → (S → Option Text × S) → Option Text × S
  and_next (some what, s) next = (some what, s)
  and_next (none, s) next = next s

  -- Calls one after another, up to the first that throws.
  unfoldable pub act_all : List (Call H) → S → Option Text × S
  act_all [] s = (none, s)
  act_all (c ∷ cs) s = and_next (lib.act c s) (act_all cs)
