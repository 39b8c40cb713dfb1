-- ===== src/Cmd/Run/Turns.antt =====
-- How the process of `src/cmd/cpi/main.go` keeps to its turn with the throttle.
use bosh_lxd_cpi_release.Base.{String, true, ◌≡◌, arith}
use bosh_lxd_cpi_release.Base.Go.{Result, ok, err, panic, M, Done}
use bosh_lxd_cpi_release.Config.{Config}
use bosh_lxd_cpi_release.Cpi.Factory.{new_factory}
use bosh_lxd_cpi_release.Throttle.Client.{ThrottleClient, unlock}
use bosh_lxd_cpi_release.Cmd.Run.{Calls, exit_status, run_cpi}

module _ {W : Type 0} (calls : Calls W) (load_config : M W Config) {config : Config}
    {w w₁ w₂ w₃ : W} {transaction_id : String} (loaded : load_config w ≡ (ok config, w₁))
    (throttled : config.throttle_config.enabled ≡ true) {client : ThrottleClient W}
    (connected : calls.new_client config.throttle_config w₁ ≡ (ok client, w₂))
    (locked : calls.lock_and_wait client w₂ ≡ (ok transaction_id, w₃)) where
  -- A throttled process that got its transaction ends it if the request was served without an
  -- error; after an error the process exits with 1 at once, and the transaction is left to expire.
  pub run_cpi-served :
      (served : Result Done) {v : W}
      → calls.serve_once (new_factory config) w₃ ≡ (served, v)
      → run_cpi calls load_config w ≡ (elim served [
        | ok _ ↦ exit_status (unlock calls.join_path client transaction_id) v
        | err e ↦ (ok 1, v)
        | panic ↦ (panic, v)
      ])
  unfolding run_cpi
  run_cpi-served (ok _) h = ground arith
  run_cpi-served (err _) h = ground arith
  run_cpi-served panic h = ground arith
