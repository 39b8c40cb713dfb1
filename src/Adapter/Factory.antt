-- ===== src/Adapter/Factory.antt =====
-- `NewLXDAdapter`, `NewIncusAdapter` and `NewAdapter`, in `src/adapter/lxd/factory.go`,
-- `src/adapter/incus/factory.go` and `src/adapter/factory/factory.go`.
use bosh_lxd_cpi_release.Base.{String, Bool, ◌==◌, ◌<>◌, if◌then◌else◌}
use bosh_lxd_cpi_release.Base.Go.{error, M, fail, pure, ◌>>=◌}
use bosh_lxd_cpi_release.Config.{AdapterConfig}
use bosh_lxd_cpi_release.Adapter.Interface.{ApiAdapter}
use bosh_lxd_cpi_release.Adapter.Lxd.{lxd_adapter}
use bosh_lxd_cpi_release.Adapter.Lxd.Client.{LxdClient}
use bosh_lxd_cpi_release.Adapter.Incus.{incus_adapter}
use bosh_lxd_cpi_release.Adapter.Incus.Client.{IncusClient}

pub record ConnectionArgs : Type 0 where
  pub tls_client_cert : String
  pub tls_client_key : String
  pub insecure_skip_verify : Bool

-- What a client library offers to make a client `C`.
pub record Connector (W C : Type 0) : Type 0 where
  pub connect : String → ConnectionArgs → M W C
  pub use_project : String → C → C
  pub use_target : String → C → C

module _ {W : Type 0} where
  unfoldable pub new_lxd_adapter : Connector W (LxdClient W) → AdapterConfig → M W (ApiAdapter W)
  new_lxd_adapter k config = do
    c ← k.connect config.url (record {
      tls_client_cert = config.tls_client_cert;
      tls_client_key = config.tls_client_key;
      insecure_skip_verify = config.insecure_skip_verify;
    })
    let c' = if config.project == "" then c else k.use_project config.project c
    pure (lxd_adapter (if config.target == "" then c' else k.use_target config.target c'))

  unfoldable pub new_incus_adapter :
      Connector W (IncusClient W) → AdapterConfig → M W (ApiAdapter W)
  new_incus_adapter k config = do
    c ← k.connect config.url (record {
      tls_client_cert = config.tls_client_cert;
      tls_client_key = config.tls_client_key;
      insecure_skip_verify = config.insecure_skip_verify;
    })
    let c' = if config.project == "" then c else k.use_project config.project c
    pure (incus_adapter (if config.target == "" then c' else k.use_target config.target c'))

  unfoldable pub new_adapter :
      Connector W (LxdClient W) → Connector W (IncusClient W) → AdapterConfig → M W (ApiAdapter W)
  unfolding new_lxd_adapter new_incus_adapter
  new_adapter lxd incus config =
      if config.adapter_type == "lxd"
      then new_lxd_adapter lxd config
      else if config.adapter_type == "incus"
      then new_incus_adapter incus config
      else fail (error ("unknown adapter type: '" <> config.adapter_type <> "'"))
