-- ===== src/Cmd/Throttle.antt =====
-- `src/cmd/throttle/main.go`, after the options are read: the exit status of the process.
use bosh_lxd_cpi_release.Base.{ℕ, String, Bool, inl, inr}
use bosh_lxd_cpi_release.Base.Go.{Result, M, Done, pure, attempt, ◌>>=◌}
use bosh_lxd_cpi_release.Config.{Config}
use bosh_lxd_cpi_release.Throttle.Server.{new_throttle_server}
use bosh_lxd_cpi_release.Throttle.Server.Socket.{Sockets, listen_and_serve}

-- `log.Fatal` ends the process with 1 whatever `Serve` returns.
unfoldable pub run_throttle :
    {W S : Type 0}
    → (String → Result ℕ)
    → (String → M W Bool)
    → (String → M W Done)
    → Sockets W S
    → M W Config
    → M W ℕ
unfolding new_throttle_server listen_and_serve
run_throttle parse_duration exists remove sockets load_config = do
  loaded ← attempt load_config
  elim loaded [
    | inl _ ↦ pure 1
    | inr config ↦ do
      made ← attempt (new_throttle_server parse_duration exists remove config.throttle_config)
      elim made [
        | inl _ ↦ pure 2
        | inr server ↦ do served ← attempt (listen_and_serve sockets server); pure 1
      ]
  ]
