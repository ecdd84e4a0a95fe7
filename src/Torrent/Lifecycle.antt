-- ===== src/Torrent/Lifecycle.antt =====
-- The start and the end of the torrent engine, and the turn of `status_loop` that passes on the limits
-- of the rates, in src/torrent/torrent_engine.cpp. Whether libtorrent makes a session is a parameter.
pub mod Limited
use download_wrapper.Base.{
  ℕ, Bool, true, false, ◌||◌, not, Option, none, some, List, [], ◌∷◌, if◌then◌else◌,
}
use download_wrapper.Base.Int.{ℤ, pos, negsuc, minus_one, eqb_ℤ, ltb_ℤ}
use download_wrapper.Text.{Text}
use download_wrapper.Store.Payload.{to_int32}

-- What `init` reads of the configuration.
pub record EngineConfig : Type 0 where
  pub download_rate_limit : ℤ
  pub upload_rate_limit : ℤ
  pub trackers : List Text
  pub listen_port : ℤ

-- The limits that the session has.
pub record Limits : Type 0 where
  pub down : ℤ
  pub up : ℤ

-- The globals of the file: the session with its limits, `g_running`, whether `g_task_manager` is set,
-- `g_default_trackers`, and the member `initialized_`. `alive` counts the three threads.
pub record Lifecycle : Type 0 where
  pub session : Option Limits
  pub running : Bool
  pub has_manager : Bool
  pub default_trackers : List Text
  pub initialized : Bool
  pub alive : ℕ

-- The settings that `init` and `status_loop` give: `static_cast<int>` of the limits
abbrev pub limits_of : EngineConfig → Limits
limits_of cfg = record {
  down = to_int32 cfg.download_rate_limit;
  up = to_int32 cfg.upload_rate_limit;
}

-- `init`: `created` is whether there is a valid session in the end, and `thrown` whether the constructor
-- threw. The trackers are set before the session is made.
unfoldable pub init : Bool → EngineConfig → Lifecycle → ℤ × Lifecycle
init created cfg s =
    if s.initialized
    then (pos 0, s)
    else if created
    then (
      pos 0,
      record s {
        session = some (limits_of cfg);
        running = true;
        default_trackers = cfg.trackers;
        initialized = true;
        alive = 3;
      },
    )
    else (minus_one, record s { default_trackers = cfg.trackers; session = none })

-- `destroy`: the threads are joined before the session goes.
unfoldable pub destroy : Lifecycle → Lifecycle
destroy s =
    if s.initialized
    then record s {
      session = none;
      running = false;
      has_manager = false;
      default_trackers = [];
      initialized = false;
      alive = 0;
    }
    else s

-- A limit is passed on only where it is not the one that was passed on last.
abbrev pub passed_on : ℤ → ℤ → ℤ → ℤ
passed_on wanted last now = if eqb_ℤ wanted last then now else to_int32 wanted

abbrev pub with_limits : EngineConfig → Limits → Option Limits → Option Limits
with_limits cfg last none = none
with_limits cfg last (some now) = some (record {
  down = passed_on cfg.download_rate_limit last.down now.down;
  up = passed_on cfg.upload_rate_limit last.up now.up;
})

-- A turn of `status_loop` with `last_down_limit` and `last_up_limit`, where no call throws.
abbrev pub turned : EngineConfig → Limits → Lifecycle → Option Limits → Limits × Lifecycle
turned cfg last s none = (last, s)
turned cfg last s (some now) =
    if s.has_manager
    then (
      record { down = cfg.download_rate_limit; up = cfg.upload_rate_limit },
      record s { session = with_limits cfg last (some now) },
    )
    else (last, s)

unfoldable pub status_turn : EngineConfig → Limits → Lifecycle → Limits × Lifecycle
status_turn cfg last s = turned cfg last s s.session

-- The loop, over the configurations that its turns find.
unfoldable pub status_turns : List EngineConfig → Limits → Lifecycle → Limits × Lifecycle
unfolding status_turn
status_turns [] last s = (last, s)
status_turns (cfg ∷ cfgs) last s =
    let (last', s') = status_turn cfg last s in status_turns cfgs last' s'

-- `last_down_limit` and `last_up_limit` at the start of the loop
abbrev pub no_limits : Limits
no_limits = record { down = minus_one; up = minus_one }
