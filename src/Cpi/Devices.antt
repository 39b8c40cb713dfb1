-- ===== src/Cpi/Devices.antt =====
-- `src/cpi/utils_disk.go`
use bosh_lxd_cpi_release.Base.{String, [], ◌∷◌, ◌==◌, if◌then◌else◌}
use bosh_lxd_cpi_release.Base.Dict.{get}
use bosh_lxd_cpi_release.Base.Go.{M, Done, pure, ◌>>=◌}
use bosh_lxd_cpi_release.Adapter.Interface.{Device, Devices}
use bosh_lxd_cpi_release.Cpi.State.{Cpi}

abbrev pub disk_ephemeral_prefix : String
disk_ephemeral_prefix = "vol-e-"

abbrev pub disk_persistent_prefix : String
disk_persistent_prefix = "vol-p-"

abbrev pub disk_configuration_prefix : String
disk_configuration_prefix = "vol-c-"

abbrev pub snapshot_prefix : String
snapshot_prefix = "snap-"

abbrev pub disk_device_config : String
disk_device_config = "config"

abbrev pub disk_device_ephemeral : String
disk_device_ephemeral = "ephemeral"

abbrev pub disk_device_persistent1 : String
disk_device_persistent1 = "persistent-1"

abbrev pub disk_device_persistent2 : String
disk_device_persistent2 = "persistent-2"

abbrev pub disk_device : String → String → Device
disk_device pool disk_id = ("type", "disk") ∷ ("pool", pool) ∷ ("source", disk_id) ∷ []

-- The loop of `findDisksAttachedToVm`; the names of a Go map are distinct.
unfoldable pub disks_of : Devices → Devices
unfolding get
disks_of [] = []
disks_of ((name, device) ∷ devices) =
    if get "type" device == "disk" then (name, device) ∷ disks_of devices else disks_of devices

module _ {W E : Type 0} (c : Cpi W E) where
  unfoldable pub attach_disk_device_to_vm : String → String → String → M W Done
  attach_disk_device_to_vm vm_cid name disk_id =
      c.adapter.attach_device vm_cid name (disk_device c.config.server.storage_pool disk_id)

  unfoldable pub find_disks_attached_to_vm : String → M W Devices
  unfolding disks_of
  find_disks_attached_to_vm vm_cid = do
    devices ← c.adapter.get_devices vm_cid
    pure (disks_of devices)
