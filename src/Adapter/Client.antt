-- ===== src/Adapter/Client.antt =====
-- What the adapters use of the client libraries of LXD and Incus, which are not part of the
-- program. A call takes the state of the world; an operation that a call has started is waited for
-- by an action of its own. `Handle` tells a plain client from one that `UseTarget` returned.
use bosh_lxd_cpi_release.Base.{ℕ, String, Bool, Option, List}
use bosh_lxd_cpi_release.Base.Dict.{Dict}
use bosh_lxd_cpi_release.Base.Go.{Error, M, Result, Done}
use bosh_lxd_cpi_release.Adapter.Interface.{Devices}

pub data Handle : Type 0 where
  plain : Handle
  use_target : String → Handle

-- `fingerprint` reads the text under "fingerprint" of the operation's metadata.
pub record Operation (W : Type 0) : Type 0 where
  pub await : M W Done
  pub fingerprint : M W (Option String)

-- The fields of the libraries' types that the program reads or writes; a server gives maps that are
-- not nil, so that a store into one does not panic.
pub record InstancePut : Type 0 where
  pub architecture : String
  pub config : Dict String
  pub devices : Devices
  pub ephemeral : Bool
  pub profiles : List String
  pub stateful : Bool
  pub description : String

pub record Instance : Type 0 where
  pub location : String
  pub put : InstancePut

pub record InstanceSource : Type 0 where
  pub source_type : String
  pub alias : String
  pub project : String

pub record InstancesPost : Type 0 where
  pub put : InstancePut
  pub name : String
  pub instance_type : String
  pub source : InstanceSource
  pub post_type : String

pub record InstanceStatePut : Type 0 where
  pub action : String
  pub timeout : ℕ
  pub force : Bool
  pub stateful : Bool

pub record VolumePut : Type 0 where
  pub config : Dict String
  pub description : String

pub record Volume : Type 0 where
  pub name : String
  pub location : String
  pub used_by : List String
  pub put : VolumePut

pub record VolumesPost : Type 0 where
  pub name : String
  pub volume_type : String
  pub content_type : String
  pub put : VolumePut

pub record VolumeBackupArgs : Type 0 where
  pub name : String
  pub backup_file : String

pub record VolumeCopyArgs : Type 0 where
  pub name : String
  pub mode : String
  pub volume_only : Bool

pub record SnapshotsPost : Type 0 where
  pub name : String
  pub description : String

-- `expires_at` is a time, printed.
pub record SnapshotPut : Type 0 where
  pub description : String
  pub expires_at : String

pub record Image : Type 0 where
  pub properties : Dict String
  pub aliases : List String

pub record ImagesPost : Type 0 where
  pub is_public : Bool
  pub auto_update : Bool
  pub filename : String

pub record ImageProperties : Type 0 where
  pub architecture : String
  pub creation_date : ℕ
  pub properties : Dict String

pub record ImageCreateArgs : Type 0 where
  pub meta_file : String
  pub rootfs_file : String
  pub image_type : String

pub record ImageAliasesPost : Type 0 where
  pub description : String
  pub target : String
  pub name : String

pub record TarHeader : Type 0 where
  pub name : String
  pub mode : ℕ
  pub size : ℕ

-- Title casing, YAML, the tar writer (each step takes and returns what is in the buffer) and
-- `path.Base`.
pub record Encoders : Type 0 where
  pub title : String → String
  pub marshal_yaml : ImageProperties → Result String
  pub write_header : TarHeader → String → Result String
  pub write : String → String → Result String
  pub close : String → Result String
  pub base : String → String

-- The calls that both libraries offer in one form. A pair holds the ETag.
pub record Client (W : Type 0) : Type 0 where
  pub error_text : Error → String
  pub encoders : Encoders
  pub get_server_auth : M W String
  pub disconnect : M W Done
  pub get_images : M W (List Image)
  pub get_image_alias : String → M W String
  pub get_image : String → M W Image
  pub create_image : ImagesPost → ImageCreateArgs → M W (Operation W)
  pub create_image_alias : ImageAliasesPost → M W Done
  pub delete_image : String → M W (Operation W)
  pub get_network_managed : String → M W Bool
  pub create_instance : Handle → InstancesPost → M W (Operation W)
  pub delete_instance : String → M W (Operation W)
  pub get_instance : String → M W (Instance × String)
  pub update_instance : String → InstancePut → String → M W (Operation W)
  pub get_instance_state : String → M W ℕ
  pub update_instance_state : String → InstanceStatePut → String → M W (Operation W)
  pub get_volume : String → String → String → M W (Volume × String)
  pub get_volumes : String → M W (List Volume)
  pub create_volume_from_iso : Handle → String → VolumeBackupArgs → M W (Operation W)
  pub copy_volume : Handle → String → Handle → String → Volume → VolumeCopyArgs → M W (Operation W)
  pub delete_snapshot : String → String → String → String → M W (Operation W)
  pub create_snapshot : String → String → String → SnapshotsPost → M W (Operation W)

-- The instance types and the state codes of the libraries' API.
abbrev pub instance_type_vm : String
instance_type_vm = "virtual-machine"

abbrev pub started : ℕ
started = 101

abbrev pub stopped : ℕ
stopped = 102

abbrev pub running : ℕ
running = 103

abbrev pub starting : ℕ
starting = 106

abbrev pub stopping : ℕ
stopping = 107
