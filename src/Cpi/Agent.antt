-- ===== src/Cpi/Agent.antt =====
-- `src/cpi/utils_agent.go`
pub mod Removed
pub mod Replace
use bosh_lxd_cpi_release.Base.{String, none, some, ◌==◌, ◌<>◌, if◌then◌else◌}
use bosh_lxd_cpi_release.Base.Dict.{lookup, get}
use bosh_lxd_cpi_release.Base.Go.{error, M, Done, pure, wrapped, ◌>>=◌, ◌>>◌}
use bosh_lxd_cpi_release.Adapter.Interface.{Devices}
use bosh_lxd_cpi_release.Cpi.State.{Cpi}
use bosh_lxd_cpi_release.Cpi.Errors.{fail_if}
use bosh_lxd_cpi_release.Cpi.Devices.{
  disk_configuration_prefix, disk_device_config, attach_disk_device_to_vm,
  find_disks_attached_to_vm,
}

abbrev agent_message : String → String → String
agent_message vm_cid what = "writeAgentFileToVm(" <> vm_cid <> ") - " <> what

module _ {W E : Type 0} (c : Cpi W E) where
  -- The `if` on the configuration disk that is attached already.
  unfoldable pub remove_config_disk : String → Devices → M W Done
  unfolding lookup get
  remove_config_disk vm_cid disks = elim (lookup disk_device_config disks) [
    | none ↦ pure tt
    | some disk ↦ do
      wrapped (agent_message vm_cid "Remove")
          (c.adapter.detach_device_by_name vm_cid disk_device_config)
      stopped ← wrapped (agent_message vm_cid "Check State") (c.adapter.is_instance_stopped vm_cid)
      if stopped
          then wrapped (agent_message vm_cid "Delete") (
              c.adapter.delete_storage_pool_volume c.config.server.storage_pool (get "source" disk))
          else pure tt
  ]

  unfoldable pub write_agent_file_to_vm : String → E → M W Done
  unfolding remove_config_disk attach_disk_device_to_vm find_disks_attached_to_vm
  write_agent_file_to_vm vm_cid agent_env = do
    uuid ← wrapped (agent_message vm_cid "UUID") c.uuid_gen
    disk_image ← wrapped (agent_message vm_cid "Write") (c.agent_mgr.write vm_cid agent_env)
    fail_if (disk_image == "") (error "ISO image is empty")
    target ← wrapped (agent_message vm_cid "Location") (c.adapter.get_instance_location vm_cid)
    let disk_name = disk_configuration_prefix <> uuid
    wrapped (agent_message vm_cid "Create") (
        c.adapter.create_storage_pool_volume_from_iso target c.config.server.storage_pool disk_name
          disk_image)
    disks ← wrapped (agent_message vm_cid "Find") (find_disks_attached_to_vm c vm_cid)
    remove_config_disk vm_cid disks
    wrapped (agent_message vm_cid "Attach")
        (attach_disk_device_to_vm c vm_cid disk_device_config disk_name)
