-- ===== src/Config.antt =====
-- The configuration of the process: `src/adapter/config.go`, `src/agentmgr/config.go`,
-- `src/throttle/config.go` and `src/config/config.go`. The JSON decoder and the file system are
-- parameters; the agent's options are only passed on, as a text.
use bosh_lxd_cpi_release.Base.{ℕ, String, Bool, false, [], ◌<>◌}
use bosh_lxd_cpi_release.Base.Dict.{Dict}
use bosh_lxd_cpi_release.Base.Go.{M, Result, ok, pure, lift, wrapped, ◌>>=◌, ◌>>◌, Done}

pub record CreateVmLockConfig : Type 0 where
  pub enabled : Bool
  pub timeout : String
  pub path : String

pub record AdapterConfig : Type 0 where
  pub adapter_type : String
  pub url : String
  pub tls_client_cert : String
  pub tls_client_key : String
  pub insecure_skip_verify : Bool
  pub project : String
  pub profile : String
  pub target : String
  pub managed_network_assignment : String
  pub network : String
  pub storage_pool : String
  pub predeploy_stemcell : Bool
  pub create_vm_lock : CreateVmLockConfig
  pub instance_config : Dict (Dict String)

pub record AgentManagerConfig : Type 0 where
  pub source_type : String
  pub label : String
  pub metadata_path : String
  pub userdata_path : String
  pub file_store_path : String

pub record ThrottleConfig : Type 0 where
  pub enabled : Bool
  pub path : String
  pub limit : ℕ
  pub hold : String

pub record Config : Type 0 where
  pub server : AdapterConfig
  pub agent : String
  pub agent_config : AgentManagerConfig
  pub throttle_config : ThrottleConfig

-- `adapter.Config.Validate` and `Config.Validate`
unfoldable pub validate_adapter : AdapterConfig → Result Done
validate_adapter lxd = ok tt

unfoldable pub validate : {W : Type 0} → Config → M W Done
unfolding validate_adapter
validate c = wrapped "Validating Actions configuration" (lift (validate_adapter c.server))

-- The values that `NewConfigFromPath` starts from; what it does not name is a zero value.
abbrev pub default_config : Config
default_config = record {
  server = record {
    adapter_type = "lxd";
    url = "https://localhost:8443";
    tls_client_cert = "";
    tls_client_key = "";
    insecure_skip_verify = false;
    project = "default";
    profile = "default";
    target = "";
    managed_network_assignment = "";
    network = "lxdbr0";
    storage_pool = "default";
    predeploy_stemcell = false;
    create_vm_lock = record { enabled = false; timeout = ""; path = "" };
    instance_config = [];
  };
  agent = "";
  agent_config = record {
    source_type = "";
    label = "";
    metadata_path = "";
    userdata_path = "";
    file_store_path = "";
  };
  throttle_config = record { enabled = false; path = ""; limit = 0; hold = "" };
}

-- `read_file` is the file system's, and `unmarshal` is `json.Unmarshal` onto a value.
unfoldable pub new_config_from_path :
    {W : Type 0} → (String → M W String) → (String → Config → Result Config) → String → M W Config
unfolding validate
new_config_from_path read_file unmarshal path = do
  bytes ← wrapped ("Reading config '" <> path <> "'") (read_file path)
  config ← wrapped "Unmarshalling config" (lift (unmarshal bytes default_config))
  wrapped "Validating config" (validate config)
  pure config
