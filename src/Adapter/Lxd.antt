-- ===== src/Adapter/Lxd.antt =====
-- `src/adapter/lxd`: the adapter over LXD's client, and `src/adapter/lxd/misc.go`,
-- `network.go` and `snapshot.go`.
pub mod Client
pub mod Wait
pub mod Device
pub mod Instance
pub mod Image
pub mod Volume
use bosh_lxd_cpi_release.Adapter.Lxd.Client.{LxdClient}
use bosh_lxd_cpi_release.Adapter.Lxd.Wait.{wait}
use bosh_lxd_cpi_release.Adapter.Lxd.Device.{
  attach_device, detach_device_by_name, detach_device_by_source, get_devices,
}
use bosh_lxd_cpi_release.Adapter.Lxd.Instance.{
  create_instance, delete_instance, get_instance_location, update_instance_description,
  set_instance_action, is_instance_stopped,
}
use bosh_lxd_cpi_release.Adapter.Lxd.Image.{
  find_existing_image, create_and_upload_image, delete_image, get_stemcell_description,
}
use bosh_lxd_cpi_release.Adapter.Lxd.Volume.{
  delete_storage_pool_volume, get_storage_pool_volume, get_storage_pool_volume_usage,
  resize_storage_pool_volume, create_storage_pool_volume_from_iso, create_storage_pool_volume,
  update_storage_pool_volume_description, colocate_storage_pool_volume_with_instance,
}
use bosh_lxd_cpi_release.Base.{String, Bool, ◌==◌, ◌<>◌, if◌then◌else◌}
use bosh_lxd_cpi_release.Base.Go.{error, M, fail, pure, Done, ◌>>=◌}
use bosh_lxd_cpi_release.Adapter.Interface.{ApiAdapter}

module _ {W : Type 0} (c : LxdClient W) where
  unfoldable pub is_connected : M W Done
  is_connected = do
    auth ← c.get_server_auth
    if "trusted" == auth
        then pure tt
        else fail (error ("not connected with trusted connection; using '" <> auth <> "'"))

  unfoldable pub disconnect : M W Done
  disconnect = c.disconnect

  unfoldable pub is_managed_network : String → M W Bool
  is_managed_network name = c.get_network_managed name

  unfoldable pub delete_storage_pool_volume_snapshot : String → String → String → M W Done
  delete_storage_pool_volume_snapshot pool volume_name snapshot_name =
      wait c.client (c.delete_snapshot pool "custom" volume_name snapshot_name)

  unfoldable pub create_storage_pool_volume_snapshot : String → String → String → String → M W Done
  create_storage_pool_volume_snapshot pool volume_name snapshot_name description = wait c.client (
      c.create_snapshot pool "custom" volume_name
        (record { name = snapshot_name; description = description }))

  abbrev pub lxd_adapter : ApiAdapter W
  lxd_adapter = record {
    find_existing_image = find_existing_image c.client;
    create_and_upload_image = create_and_upload_image c.client;
    delete_image = delete_image c.client;
    get_stemcell_description = get_stemcell_description c.client;
    is_managed_network = is_managed_network;
    create_instance = create_instance c.client;
    delete_instance = delete_instance c.client;
    get_instance_location = get_instance_location c.client;
    update_instance_description = update_instance_description c.client;
    set_instance_action = set_instance_action c.client;
    is_instance_stopped = is_instance_stopped c.client;
    delete_storage_pool_volume = delete_storage_pool_volume c;
    get_storage_pool_volume = get_storage_pool_volume c;
    get_storage_pool_volume_usage = get_storage_pool_volume_usage c;
    resize_storage_pool_volume = resize_storage_pool_volume c;
    create_storage_pool_volume_from_iso = create_storage_pool_volume_from_iso c;
    create_storage_pool_volume = create_storage_pool_volume c;
    update_storage_pool_volume_description = update_storage_pool_volume_description c;
    colocate_storage_pool_volume_with_instance = colocate_storage_pool_volume_with_instance c;
    delete_storage_pool_volume_snapshot = delete_storage_pool_volume_snapshot;
    create_storage_pool_volume_snapshot = create_storage_pool_volume_snapshot;
    attach_device = attach_device c.client;
    detach_device_by_name = detach_device_by_name c.client;
    detach_device_by_source = detach_device_by_source c.client;
    get_devices = get_devices c.client;
    is_connected = is_connected;
    disconnect = disconnect;
  }
