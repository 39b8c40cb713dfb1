-- ===== src/Cpi/Factory.antt =====
-- `src/cpi/factory.go`: the factory of CPIs that `bosh-cpi-go` is given. The makers of clients,
-- agent managers, locks and ids, and the parser of durations, belong to libraries or to the parts
-- that have a module of their own.
pub mod Made
use bosh_lxd_cpi_release.Base.{ℕ, String}
use bosh_lxd_cpi_release.Base.Go.{Result, M, ◌>>=◌}
use bosh_lxd_cpi_release.Config.{Config, AgentManagerConfig}
use bosh_lxd_cpi_release.Adapter.Factory.{Connector, new_adapter}
use bosh_lxd_cpi_release.Adapter.Lxd.Client.{LxdClient}
use bosh_lxd_cpi_release.Adapter.Incus.Client.{IncusClient}
use bosh_lxd_cpi_release.Cpi.State.{Cpi, AgentManager, FileLock, Library, new_cpi}

-- `CPIFactory`
pub record CpiFactory : Type 0 where
  pub config : Config

-- `NewFactory`
unfoldable pub new_factory : Config → CpiFactory
new_factory config = record { config = config }

-- `CPIFactory.New`
unfoldable pub new_from_factory :
    {W E : Type 0}
    → Connector W (LxdClient W)
    → Connector W (IncusClient W)
    → (AgentManagerConfig → Result (AgentManager W E))
    → (String → Result ℕ)
    → (String → FileLock W)
    → M W String
    → Library E
    → CpiFactory
    → M W (Cpi W E)
unfolding new_adapter new_cpi
new_from_factory lxd incus new_agent_manager parse_duration new_lock uuid_gen library f = do
  api_adapter ← new_adapter lxd incus f.config.server
  new_cpi new_agent_manager parse_duration new_lock uuid_gen library api_adapter f.config
