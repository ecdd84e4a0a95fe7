-- ===== src/Http/Engine/Tests.antt =====
-- The theorems of the engine's registry at concrete inputs.
use download_wrapper.Base.{◌≡◌, refl, ◌↔◌, some, true, false, [], ◌∷◌}
use download_wrapper.Base.Int.{pos}
use download_wrapper.Text.{codes, text_eq}
use download_wrapper.Http.Task.{TaskCtx, task_create_new}
use download_wrapper.Http.Resume.{no_resume}
use download_wrapper.Http.Engine.{Registry, Host, lookup, sweep, start_download}
use download_wrapper.Http.Engine.Registry.{Started, start_download-Started}
use download_wrapper.Http.Engine.Sweep.{IsMap, Stays, sweep-Stays}

abbrev running_ctx : TaskCtx
running_ctx = task_create_new (codes "a") (codes "c") (codes "/d")

abbrev paused_ctx : TaskCtx
paused_ctx = record (task_create_new (codes "b") (codes "c") (codes "/d")) {
  pause_req = true;
  thread_done = true;
}

abbrev two_transfers : Registry
two_transfers = (codes "a", running_ctx) ∷ (codes "b", paused_ctx) ∷ []

two_transfers-IsMap : IsMap two_transfers
unfolding lookup text_eq
two_transfers-IsMap = (refl, (refl, tt))

-- The transfer that runs stays.
sweep-Stays_example :
    (lookup (codes "a") (sweep true (pos 9000) two_transfers) ≡ some running_ctx)
    ↔ ((lookup (codes "a") two_transfers ≡ some running_ctx) × Stays (pos 9000) running_ctx)
sweep-Stays_example =
    sweep-Stays (pos 9000) two_transfers two_transfers-IsMap (codes "a") running_ctx

abbrev a_host : Host
a_host = record {
  client_id = codes "c";
  ensure_running = true;
  manager = true;
  deleting = false;
  mkdir_recursive = λ p. true;
  can_open = λ p. false;
  decode = λ s. no_resume;
  replace_task = true;
}

start_download-Started_example :
    Started
      (codes "b")
      two_transfers
      (start_download a_host true (codes "b") (codes "/d") [] two_transfers)
start_download-Started_example =
    start_download-Started (codes "b") a_host true (codes "/d") [] two_transfers
