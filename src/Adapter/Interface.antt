-- ===== src/Adapter/Interface.antt =====
-- `src/adapter/adapter.go`. A device and a set of devices are maps of texts. `tar_file` stands
-- for the bytes that reading `TarFile` yields.
use bosh_lxd_cpi_release.Base.{ℕ, String, Bool, List}
use bosh_lxd_cpi_release.Base.Dict.{Dict}
use bosh_lxd_cpi_release.Base.Go.{M, Done}

abbrev pub Device : Type 0
Device = Dict String

abbrev pub Devices : Type 0
Devices = Dict Device

pub record ImageMetadata : Type 0 where
  pub alias : String
  pub description : String
  pub os_distro : String
  pub image_path : String
  pub architecture : String
  pub create_date : ℕ
  pub root_device_name : String
  pub disk_in_mb : ℕ
  pub tar_file : String

pub record InstanceMetadata : Type 0 where
  pub name : String
  pub stemcell_alias : String
  pub instance_type : String
  pub project : String
  pub profiles : List String
  pub target : String
  pub devices : Devices
  pub config : Dict String

pub data Action : Type 0 where
  start_action stop_action restart_action : Action

abbrev pub action_text : Action → String
action_text start_action = "start"
action_text stop_action = "stop"
action_text restart_action = "restart"

-- `ApiAdapter`
pub record ApiAdapter (W : Type 0) : Type 0 where
  pub find_existing_image : String → M W String
  pub create_and_upload_image : ImageMetadata → M W Done
  pub delete_image : String → M W Done
  pub get_stemcell_description : String → M W String
  pub is_managed_network : String → M W Bool
  pub create_instance : InstanceMetadata → M W Done
  pub delete_instance : String → M W Done
  pub get_instance_location : String → M W String
  pub update_instance_description : String → String → M W Done
  pub set_instance_action : String → Action → M W Done
  pub is_instance_stopped : String → M W Bool
  pub delete_storage_pool_volume : String → String → M W Done
  pub get_storage_pool_volume : String → String → M W String
  pub get_storage_pool_volume_usage : String → M W (Dict ℕ)
  pub resize_storage_pool_volume : String → String → ℕ → M W Done
  pub create_storage_pool_volume_from_iso : String → String → String → String → M W Done
  pub create_storage_pool_volume : String → String → String → ℕ → M W Done
  pub update_storage_pool_volume_description : String → String → String → M W Done
  pub colocate_storage_pool_volume_with_instance : String → String → String → M W Done
  pub delete_storage_pool_volume_snapshot : String → String → String → M W Done
  pub create_storage_pool_volume_snapshot : String → String → String → String → M W Done
  pub attach_device : String → String → Device → M W Done
  pub detach_device_by_name : String → String → M W Done
  pub detach_device_by_source : String → String → M W Done
  pub get_devices : String → M W Devices
  pub is_connected : M W Done
  pub disconnect : M W Done
