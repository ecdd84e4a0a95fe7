-- ===== src/Torrent/Lifecycle/Limited.antt =====
-- The session has the limits of the configuration.
use download_wrapper.Base.{
  ◌≡◌, refl, sym, ap, ap₂, ◌∙◌, inl, inr, true, false, some, List, [], ◌∷◌, Bool-cases,
  if◌then◌else◌, arith,
}
use download_wrapper.Base.Int.{ℤ, pos, minus_one, eqb_ℤ, eq_of_parts}
use download_wrapper.Store.Payload.{to_int32}
use download_wrapper.Torrent.Lifecycle.{
  EngineConfig, Limits, Lifecycle, limits_of, passed_on, with_limits, turned, status_turn,
  status_turns, init, no_limits,
}

abbrev wanted : EngineConfig → Limits
wanted cfg = record { down = cfg.download_rate_limit; up = cfg.upload_rate_limit }

-- The session has what was passed on last.
record IsPassedOn (last : Limits) (s : Lifecycle) : Type 0 where
  has_manager : s.has_manager ≡ true
  session : s.session ≡ some (record { down = to_int32 last.down; up = to_int32 last.up })

passed_on_lem : (w last : ℤ) → passed_on w last (to_int32 last) ≡ to_int32 w
passed_on_lem w last = elim (Bool-cases (eqb_ℤ w last)) [
  | inl same ↦ let e : w ≡ last = eq_of_parts w last (ground arith) in rw same (ap to_int32 (sym e))
  | inr other ↦ rw other refl
]

status_turn_eq :
    (cfg : EngineConfig) (last : Limits) (s : Lifecycle)
    → IsPassedOn last s
    → status_turn cfg last s ≡ (wanted cfg, record s { session = some (limits_of cfg) })
unfolding status_turn
status_turn_eq cfg last s p =
    ap (turned cfg last s) p.session
    ∙ ap
        (λ b.
          if b
          then (
            wanted cfg,
            record s {
              session =
                  with_limits cfg last
                    (some (record { down = to_int32 last.down; up = to_int32 last.up }));
            },
          )
          else (last, s))
        p.has_manager
    ∙ ap₂ (λ d u. (wanted cfg, record s { session = some (record { down = d; up = u }) }))
        (passed_on_lem cfg.download_rate_limit last.down)
        (passed_on_lem cfg.upload_rate_limit last.up)

turn-IsPassedOn :
    (cfg : EngineConfig) (s : Lifecycle)
    → s.has_manager ≡ true
    → IsPassedOn (wanted cfg) (record s { session = some (limits_of cfg) })
turn-IsPassedOn cfg s m = record { has_manager = m; session = refl }

-- The configuration of the last turn.
abbrev pub last_of : EngineConfig → List EngineConfig → EngineConfig
last_of cfg [] = cfg
last_of cfg (c ∷ cs) = last_of c cs

status_turns_from :
    (cfgs : List EngineConfig) (cfg : EngineConfig) (s : Lifecycle)
    → s.has_manager ≡ true
    → (status_turns cfgs (wanted cfg) (record s { session = some (limits_of cfg) })).1.session
      ≡ some (limits_of (last_of cfg cfgs))
unfolding status_turns
status_turns_from [] cfg s m = refl
status_turns_from (c ∷ cs) cfg s m =
    ap (λ (r : Limits × Lifecycle). (status_turns cs r.0 r.1).1.session)
      (status_turn_eq c (wanted cfg) (record s { session = some (limits_of cfg) })
        (turn-IsPassedOn cfg s m))
    ∙ status_turns_from cs c s m

abbrev started : EngineConfig → Lifecycle → Lifecycle
started cfg s = record s {
  session = some (limits_of cfg);
  running = true;
  default_trackers = cfg.trackers;
  initialized = true;
  alive = 3;
}

init_lem :
    (cfg : EngineConfig) (s : Lifecycle)
    → s.initialized ≡ false
    → (init true cfg s).1 ≡ started cfg s
unfolding init
init_lem cfg s fresh =
    ap (λ b. let r : ℤ × Lifecycle = if b then (pos 0, s) else (pos 0, started cfg s) in r.1) fresh

first_turn :
    (cfg : EngineConfig) (s : Lifecycle) (now : Limits)
    → s.has_manager ≡ true
    → s.session ≡ some now
    → eqb_ℤ cfg.download_rate_limit minus_one ≡ false
    → eqb_ℤ cfg.upload_rate_limit minus_one ≡ false
    → status_turn cfg no_limits s ≡ (wanted cfg, record s { session = some (limits_of cfg) })
unfolding status_turn
first_turn cfg s now m e down up =
    ap (turned cfg no_limits s) e
    ∙ ap
        (λ b.
          if b
          then (wanted cfg, record s { session = with_limits cfg no_limits (some now) })
          else (no_limits, s))
        m
    ∙ ap₂
        (λ d u. (
          wanted cfg,
          record s {
            session = some (record {
              down = if d then now.down else to_int32 cfg.download_rate_limit;
              up = if u then now.up else to_int32 cfg.upload_rate_limit;
            });
          },
        ))
        down up

-- After a first start of the engine, and from the first turn of the status loop on: where no limit of
-- that turn's configuration is -1, the session has at the end of any number of turns the limits of the
-- configuration that the last turn found, as 32-bit integers, whatever the limits of the start and of
-- the turns between were.
pub status_turns-limits_of :
    (at_start cfg : EngineConfig) (cfgs : List EngineConfig) (s : Lifecycle)
    → s.initialized ≡ false
    → s.has_manager ≡ true
    → eqb_ℤ cfg.download_rate_limit minus_one ≡ false
    → eqb_ℤ cfg.upload_rate_limit minus_one ≡ false
    → (status_turns (cfg ∷ cfgs) no_limits (init true at_start s).1).1.session
      ≡ some (limits_of (last_of cfg cfgs))
unfolding status_turns
status_turns-limits_of at_start cfg cfgs s fresh m down up =
    let begun = started at_start s in
    ap (λ t. (status_turns (cfg ∷ cfgs) no_limits t).1.session) (init_lem at_start s fresh)
    ∙ ap (λ (r : Limits × Lifecycle). (status_turns cfgs r.0 r.1).1.session)
        (first_turn cfg begun (limits_of at_start) m refl down up)
    ∙ status_turns_from cfgs cfg begun m
