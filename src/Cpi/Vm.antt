-- ===== src/Cpi/Vm.antt =====
-- The operations on VMs but for their creation: `has_vm.go`, `delete_vm.go`, `reboot_vm.go`,
-- `set_vm_metadata.go`, `calculate_vm_cloud_properties.go` and `info.go` of `src/cpi`.
pub mod Delete
pub mod Sizes
use bosh_lxd_cpi_release.Base.{
  ℕ, ◌/◌, String, Bool, false, not, none, some, List, [], ◌∷◌, ◌==◌, ◌||◌, inl, inr, ◌<>◌,
  if◌then◌else◌,
}
use bosh_lxd_cpi_release.Base.Text.{decimal}
use bosh_lxd_cpi_release.Base.Dict.{lookup, get}
use bosh_lxd_cpi_release.Base.Go.{
  wrap_error, Result, M, Done, pure, fail, wrapped, attempt, ◌>>=◌, ◌>>◌,
}
use bosh_lxd_cpi_release.Adapter.Interface.{Devices, stop_action, restart_action}
use bosh_lxd_cpi_release.Cpi.State.{Cpi, new_actual_vm_meta}
use bosh_lxd_cpi_release.Cpi.Errors.{clean_instance_not_found_error}
use bosh_lxd_cpi_release.Cpi.Devices.{
  disk_device_config, disk_device_ephemeral, find_disks_attached_to_vm,
}

-- `apiv1.VMResources`, and the map that is made of it.
pub record VmResources : Type 0 where
  pub ram : ℕ
  pub cpu : ℕ
  pub ephemeral_disk_size : ℕ

pub record CalculatedProps : Type 0 where
  pub instance_type : String
  pub ephemeral_disk : ℕ

unfoldable pub calculate_vm_cloud_properties : VmResources → CalculatedProps
calculate_vm_cloud_properties res = record {
  instance_type = "c" <> decimal res.cpu <> "-m" <> decimal (res.ram / 1024);
  ephemeral_disk = res.ephemeral_disk_size;
}

-- `Info`
unfoldable pub stemcell_formats : List String
stemcell_formats = "openstack-qcow2" ∷ []

module _ {W E : Type 0} (c : Cpi W E) where
  -- Both adapters return an empty location beside an error.
  unfoldable pub has_vm : String → M W Bool
  unfolding clean_instance_not_found_error
  has_vm cid = do
    c.adapter.is_connected
    located ← attempt (c.adapter.get_instance_location cid)
    elim located [
      | inl e ↦ elim (clean_instance_not_found_error c.library.error_text (some e)) [
        | none ↦ pure false
        | some _ ↦ fail (wrap_error e "HasVM")
      ]
      | inr location ↦ pure (not (location == ""))
    ]

  -- The loop over the disks of a deleted VM. A failure leaves the later disks alone.
  unfoldable pub delete_owned_disks : Devices → M W Done
  unfolding get
  delete_owned_disks [] = pure tt
  delete_owned_disks ((name, disk) ∷ disks) =
      let rest = delete_owned_disks disks in
      let disk_id = get "source" disk in
      if name == disk_device_config || name == disk_device_ephemeral
      then wrapped ("Delete VM - attached disk - " <> disk_id)
          (c.adapter.delete_storage_pool_volume c.config.server.storage_pool disk_id)
        >> rest
      else rest

  -- `DeleteVM` from the deletion of the instance on, with the disks that were found.
  unfoldable pub delete_with_disks : String → Devices → M W Done
  delete_with_disks vm_cid disks = do
    wrapped "Delete VM" (c.adapter.delete_instance vm_cid)
    delete_owned_disks disks
    c.agent_mgr.delete vm_cid

  -- `DeleteVM` for a VM that exists.
  unfoldable pub delete_existing : String → M W Done
  unfolding find_disks_attached_to_vm delete_with_disks
  delete_existing vm_cid = do
    wrapped "Delete VM - stop" (c.adapter.set_instance_action vm_cid stop_action)
    disks ← wrapped "Delete VM - enumerate disks" (find_disks_attached_to_vm c vm_cid)
    delete_with_disks vm_cid disks

  unfoldable pub delete_vm : String → M W Done
  unfolding has_vm delete_existing
  delete_vm vm_cid = do
    c.adapter.is_connected
    found ← has_vm vm_cid
    if not found then c.agent_mgr.delete vm_cid else delete_existing vm_cid

  unfoldable pub reboot_vm : String → M W Done
  reboot_vm cid = do c.adapter.is_connected; c.adapter.set_instance_action cid restart_action

  -- The metadata is what its `MarshalJSON` returns.
  unfoldable pub set_vm_metadata : String → Result String → M W Done
  unfolding new_actual_vm_meta find_disks_attached_to_vm lookup get
  set_vm_metadata cid metadata = do
    c.adapter.is_connected
    actual ←
        wrapped "SetVMMetadata - Unmarshal VMMeta to ActualVMMeta" (new_actual_vm_meta c metadata)
    let description = actual.job <> "/" <> actual.index
    wrapped "SetVMMetadata - update instance description"
        (c.adapter.update_instance_description cid description)
    disks ← wrapped "SetVMMetadata - enumerate disks" (find_disks_attached_to_vm c cid)
    elim (lookup disk_device_ephemeral disks) [
      | none ↦ pure tt
      | some device ↦ wrapped "SetVMMetadata - Update storage volume description" (
          c.adapter.update_storage_pool_volume_description c.config.server.storage_pool
            (get "source" device) description)
    ]
