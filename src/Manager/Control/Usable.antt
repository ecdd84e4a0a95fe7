-- ===== src/Manager/Control/Usable.antt =====
-- What the configuration of the manager guarantees.
use download_wrapper.Base.{◌≡◌, refl, ◌⊎◌, inl, inr, false, Bool-cases, [], arith}
use download_wrapper.Base.Int.{pos, ◌≤ℤ◌}
use download_wrapper.Text.{is_empty}
use download_wrapper.Manager.Task.{failure}
use download_wrapper.Manager.Control.{Config, Settings, apply_config}

-- The settings are usable: a client, and a limit that is not negative.
pub record IsUsable (s : Settings) : Type 0 where
  pub client : is_empty s.config.client_id ≡ false
  pub limit : pos 0 ≤ℤ s.config.max_concurrent_downloads

-- A configuration that is accepted makes the settings usable, and one that is refused leaves them as
-- they were.
pub apply_config-IsUsable :
    (cfg : Config) (s : Settings)
    → IsUsable (apply_config cfg s).1 ⊎ ((apply_config cfg s) ≡ (failure [], s))
unfolding apply_config
apply_config-IsUsable cfg s = elim (Bool-cases (is_empty cfg.client_id)) [
  | inl e ↦ inr (rw e refl)
  | inr e ↦ inl (rw e (record { client = e; limit = ground arith }))
]
