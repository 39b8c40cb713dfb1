-- ===== src/Cmd/Run.antt =====
-- `src/cmd/cpi/main.go`, after the options are read: the exit status of the process.
pub mod Turns
pub mod GivesBack
use bosh_lxd_cpi_release.Base.{ℕ, String, inl, inr, if◌then◌else◌}
use bosh_lxd_cpi_release.Base.Go.{Result, M, Done, pure, attempt, ◌>>=◌}
use bosh_lxd_cpi_release.Config.{Config, ThrottleConfig}
use bosh_lxd_cpi_release.Cpi.Factory.{CpiFactory, new_factory}
use bosh_lxd_cpi_release.Throttle.Client.{ThrottleClient, unlock}

-- `serve_once` is `ServeOnce` of the command-line server that `bosh-cpi-go` makes over a factory;
-- `new_client` is `NewThrottleClient`; `lock_and_wait` waits as long as it takes; `join_path` is
-- `url.JoinPath`.
pub record Calls (W : Type 0) : Type 0 where
  pub serve_once : CpiFactory → M W Done
  pub new_client : ThrottleConfig → M W (ThrottleClient W)
  pub lock_and_wait : ThrottleClient W → M W String
  pub join_path : String → String → Result String

-- Zero if the call did not fail; otherwise `os.Exit(1)`.
abbrev pub exit_status : {W : Type 0} → M W Done → M W ℕ
exit_status m = do done ← attempt m; pure (elim done [ inl _ ↦ 1 | inr _ ↦ 0 ])

module _ {W : Type 0} (calls : Calls W) where
  unfoldable pub serve_throttled : ThrottleConfig → CpiFactory → M W ℕ
  unfolding unlock
  serve_throttled config cpi_factory = do
    connected ← attempt (calls.new_client config)
    elim connected [
      | inl _ ↦ pure 1
      | inr client ↦ do
        locked ← attempt (calls.lock_and_wait client)
        elim locked [
          | inl _ ↦ pure 1
          | inr transaction_id ↦ do
            served ← attempt (calls.serve_once cpi_factory)
            elim served [
              | inl _ ↦ pure 1
              | inr _ ↦ exit_status (unlock calls.join_path client transaction_id)
            ]
        ]
    ]

  -- `load_config` is `NewConfigFromPath` on the option `configPath`.
  unfoldable pub run_cpi : M W Config → M W ℕ
  unfolding serve_throttled new_factory
  run_cpi load_config = do
    loaded ← attempt load_config
    elim loaded [
      | inl _ ↦ pure 1
      | inr config ↦
          if config.throttle_config.enabled
          then serve_throttled config.throttle_config (new_factory config)
          else exit_status (calls.serve_once (new_factory config))
    ]
