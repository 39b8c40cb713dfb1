-- ===== src/Cpi/Disk.antt =====
-- The operations on disks: `create_disk.go`, `delete_disk.go`, `has_disk.go`, `resize_disk.go`,
-- `get_disks.go`, `attach_disk.go`, `detach_disk.go` and `set_disk_metadata.go` of `src/cpi`.
pub mod Attach
pub mod Detach
use bosh_lxd_cpi_release.Base.{
  ℕ, String, Bool, not, Option, none, some, List, [], ◌∷◌, ◌==◌, ◌<>◌, if◌then◌else◌,
}
use bosh_lxd_cpi_release.Base.Text.{contains}
use bosh_lxd_cpi_release.Base.Go.{
  error, Result, panic, M, Done, pure, fail, lift, wrapped, ◌>>=◌, ◌>>◌,
}
use bosh_lxd_cpi_release.Adapter.Interface.{Devices}
use bosh_lxd_cpi_release.Cpi.State.{Cpi, DiskHint, hint_path, new_actual_disk_meta}
use bosh_lxd_cpi_release.Cpi.Devices.{
  disk_persistent_prefix, disk_device_persistent1, disk_device_persistent2,
  attach_disk_device_to_vm, find_disks_attached_to_vm,
}
use bosh_lxd_cpi_release.Cpi.Agent.{write_agent_file_to_vm}

-- The `for` loop of `GetDisks`: the names of the devices.
unfoldable pub device_names : Devices → List String
device_names [] = []
device_names ((name, device) ∷ disks) = name ∷ device_names disks

-- The choice of `AttachDiskV2`: the path in the guest, and the name of the device.
unfoldable pub free_device : String → Option (String × String)
free_device json =
    if not (contains json "/dev/sdc")
    then some ("/dev/sdc", disk_device_persistent1)
    else if not (contains json "/dev/sdd")
    then some ("/dev/sdd", disk_device_persistent2)
    else none

module _ {W E : Type 0} (c : Cpi W E) where
  abbrev pool : String
  pool = c.config.server.storage_pool

  -- The VM is a pointer, which may be nil; then `AsString` panics.
  unfoldable pub create_disk : ℕ → Option String → M W String
  create_disk size associated_vm_cid = do
    c.adapter.is_connected
    id ← wrapped "Creating Disk id" c.uuid_gen
    let the_cid = disk_persistent_prefix <> id
    vm_cid ← elim associated_vm_cid [ none ↦ lift panic | some vm ↦ pure vm ]
    target ← wrapped "Finding disk location" (c.adapter.get_instance_location vm_cid)
    wrapped "Creating volume" (c.adapter.create_storage_pool_volume target pool the_cid size)
    pure the_cid

  unfoldable pub delete_disk : String → M W Done
  delete_disk cid = do
    c.adapter.is_connected
    wrapped "Deleting volume" (c.adapter.delete_storage_pool_volume pool cid)

  unfoldable pub has_disk : String → M W Bool
  has_disk cid = do
    c.adapter.is_connected
    etag ← wrapped "Locating storage volume" (c.adapter.get_storage_pool_volume pool cid)
    pure (not (etag == ""))

  unfoldable pub resize_disk : String → ℕ → M W Done
  resize_disk cid size = do
    c.adapter.is_connected
    c.adapter.resize_storage_pool_volume pool cid size

  unfoldable pub get_disks : String → M W (List String)
  unfolding find_disks_attached_to_vm device_names
  get_disks cid = do
    c.adapter.is_connected
    disks ← wrapped "GetDisks - locating disks" (find_disks_attached_to_vm c cid)
    pure (device_names disks)

  unfoldable pub attach_disk_v2 : String → String → M W DiskHint
  unfolding free_device attach_disk_device_to_vm
  attach_disk_v2 vm_cid disk_cid = do
    c.adapter.is_connected
    agent_env ← wrapped "Read AgentEnv" (c.agent_mgr.read vm_cid)
    json ← lift (c.library.as_bytes agent_env)
    elim (free_device json) [
      | none ↦ fail (error "Unable to find device for persistent disk")
      | some (path, name) ↦ do
        wrapped "Colocate disk"
            (c.adapter.colocate_storage_pool_volume_with_instance vm_cid pool disk_cid)
        wrapped "Attach disk" (attach_disk_device_to_vm c vm_cid name disk_cid)
        let disk_hint = hint_path path
        wrapped "Write AgentEnv" (
            write_agent_file_to_vm c vm_cid
              (c.library.attach_persistent_disk disk_cid disk_hint agent_env))
        pure disk_hint
    ]

  unfoldable pub attach_disk : String → String → M W Done
  unfolding attach_disk_v2
  attach_disk vm_cid disk_cid = do attach_disk_v2 vm_cid disk_cid; pure tt

  unfoldable pub detach_disk : String → String → M W Done
  detach_disk vm_cid disk_cid = do
    c.adapter.is_connected
    wrapped "Detach Device" (c.adapter.detach_device_by_source vm_cid disk_cid)
    agent_env ← wrapped "Retrieve AgentEnv" (c.agent_mgr.read vm_cid)
    wrapped "Write AgentEnv"
        (write_agent_file_to_vm c vm_cid (c.library.detach_persistent_disk disk_cid agent_env))

  -- The metadata is what its `MarshalJSON` returns.
  unfoldable pub set_disk_metadata : String → Result String → M W Done
  unfolding new_actual_disk_meta
  set_disk_metadata cid metadata = do
    c.adapter.is_connected
    actual ← wrapped "Unmarshalling DiskMeta" (new_actual_disk_meta c metadata)
    wrapped "Update storage volume description" (
        c.adapter.update_storage_pool_volume_description pool cid
          (actual.instance_group <> "/" <> actual.instance_index))
