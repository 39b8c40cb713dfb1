-- ===== src/Cpi/State.antt =====
-- `src/cpi/cpi.go`, `cloud.go` and `meta.go`: what an operation works with. `W` is the world
-- outside of the process and `E` the type of an agent environment, which belongs to
-- `bosh-cpi-go`. A CID is its text.
use bosh_lxd_cpi_release.Base.{ℕ, String, Bool, Option, List}
use bosh_lxd_cpi_release.Base.Dict.{Dict}
use bosh_lxd_cpi_release.Base.Go.{Error, M, Result, lift, ◌>>=◌, Done}
use bosh_lxd_cpi_release.Config.{Config, AgentManagerConfig}
use bosh_lxd_cpi_release.Adapter.Interface.{ApiAdapter}

-- `LXDCloudProperties`
pub record StemcellProperties : Type 0 where
  pub architecture : String
  pub container_format : String
  pub disk : ℕ
  pub disk_format : String
  pub hypervisor : String
  pub infrastructure : String
  pub name : String
  pub os_distro : String
  pub os_type : String
  pub root_device_name : String
  pub version : String

-- `LXDVMCloudProperties`; a size that is not above zero makes no disk, so a negative one is read as 0.
pub record VmProperties : Type 0 where
  pub instance_type : String
  pub ephemeral_disk : ℕ
  pub target : String
  pub network : String

-- `ActualVMMeta` and `ActualDiskMeta`; a time is its text.
pub record ActualVmMeta : Type 0 where
  pub instance_group : String
  pub job : String
  pub director : String
  pub deployment : String
  pub index : String
  pub created_at : String

pub record ActualDiskMeta : Type 0 where
  pub director : String
  pub deployment : String
  pub instance_id : String
  pub instance_index : String
  pub instance_group : String
  pub attached_at : String

pub data DiskHint : Type 0 where
  hint_text : String → DiskHint
  hint_path : String → DiskHint

-- What the program reads of a network of `bosh-cpi-go`. `cloud_target` is the `Target` that
-- `CloudProps().As` leaves in a zero `LXDNetworkCloudProperties`.
pub record Network : Type 0 where
  pub network_type : String
  pub ip : String
  pub netmask : String
  pub gateway : String
  pub dns : List String
  pub default_for : List String
  pub cloud_target : String

pub record NetworkOpts : Type 0 where
  pub network_type : String
  pub ip : String
  pub netmask : String
  pub gateway : String
  pub dns : List String
  pub default_for : List String

-- The functions of `bosh-cpi-go` and of the JSON decoder that the operations call. The methods
-- that change an agent environment in place return the new one.
pub record Library (E : Type 0) : Type 0 where
  pub error_text : Error → String
  pub is_dynamic : Network → Bool
  pub new_network : NetworkOpts → Network
  pub for_vm : String → String → Dict Network → String → String → E
  pub attach_system_disk : DiskHint → E → E
  pub attach_ephemeral_disk : DiskHint → E → E
  pub attach_persistent_disk : String → DiskHint → E → E
  pub detach_persistent_disk : String → E → E
  pub as_bytes : E → Result String
  pub unmarshal_vm_meta : String → Result ActualVmMeta
  pub unmarshal_disk_meta : String → Result ActualDiskMeta

-- `AgentManager`, in `src/agentmgr/agent_manager.go`
pub record AgentManager (W E : Type 0) : Type 0 where
  pub read : String → M W E
  pub write : String → E → M W String
  pub delete : String → M W Done

-- A lock on a file: `try_lock` waits no longer than the first number and tries again after each
-- period of the second. It returns both of its results in every case.
pub record FileLock (W : Type 0) : Type 0 where
  pub try_lock : ℕ → ℕ → M W (Bool × Option Error)
  pub unlock : M W Done

-- `CPI`
pub record Cpi (W E : Type 0) : Type 0 where
  pub adapter : ApiAdapter W
  pub uuid_gen : M W String
  pub config : Config
  pub agent_mgr : AgentManager W E
  pub create_vm_lock : FileLock W
  pub create_vm_lock_timeout : ℕ
  pub library : Library E

-- `NewActualVMMeta` and `NewActualDiskMeta`, of what `MarshalJSON` returned.
module _ {W E : Type 0} (c : Cpi W E) where
  unfoldable pub new_actual_vm_meta : Result String → M W ActualVmMeta
  new_actual_vm_meta metadata = do bytes ← lift metadata; lift (c.library.unmarshal_vm_meta bytes)

  unfoldable pub new_actual_disk_meta : Result String → M W ActualDiskMeta
  new_actual_disk_meta metadata = do
    bytes ← lift metadata
    lift (c.library.unmarshal_disk_meta bytes)

-- `NewCPI`; the parsers of durations and the maker of a lock are the libraries'.
unfoldable pub new_cpi :
    {W E : Type 0}
    → (AgentManagerConfig → Result (AgentManager W E))
    → (String → Result ℕ)
    → (String → FileLock W)
    → M W String
    → Library E
    → ApiAdapter W
    → Config
    → M W (Cpi W E)
new_cpi new_agent_manager parse_duration new_lock uuid_gen library adapter cfg = do
  am ← lift (new_agent_manager cfg.agent_config)
  timeout ← lift (parse_duration cfg.server.create_vm_lock.timeout)
  lift (
      Result.ok (record {
        adapter = adapter;
        uuid_gen = uuid_gen;
        config = cfg;
        agent_mgr = am;
        create_vm_lock = new_lock cfg.server.create_vm_lock.path;
        create_vm_lock_timeout = timeout;
        library = library;
      }))
