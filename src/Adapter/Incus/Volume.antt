-- ===== src/Adapter/Incus/Volume.antt =====
-- `src/adapter/incus/volume.go`
use bosh_lxd_cpi_release.Base.{
  ℕ, String, false, List, [], ◌∷◌, ◌==◌, ◌||◌, ◌<>◌, length, if◌then◌else◌,
}
use bosh_lxd_cpi_release.Base.Text.{decimal}
use bosh_lxd_cpi_release.Base.Dict.{Dict, insert}
use bosh_lxd_cpi_release.Base.Go.{M, pure, Done, ◌>>=◌, ◌>>◌}
use bosh_lxd_cpi_release.Adapter.Client.{use_target, Volume, VolumePut, VolumesPost, plain}
use bosh_lxd_cpi_release.Adapter.Incus.Client.{IncusClient}
use bosh_lxd_cpi_release.Adapter.Incus.Wait.{wait}
use bosh_lxd_cpi_release.Adapter.Incus.Instance.{handle_for, get_instance_location}

-- `fmt.Sprintf("%dMiB", size)`
abbrev pub mebibytes : ℕ → String
mebibytes size = decimal size <> "MiB"

unfoldable pub volumes_post : String → ℕ → VolumesPost
volumes_post name size = record {
  name = name;
  volume_type = "custom";
  content_type = "block";
  put = record { config = ("size", mebibytes size) ∷ []; description = "" };
}

abbrev pub with_size : ℕ → VolumePut → VolumePut
with_size new_size put = record put { config = insert "size" (mebibytes new_size) put.config }

-- The loop of `GetStoragePoolVolumeUsage`.
unfoldable pub usage_onto : Dict ℕ → List Volume → Dict ℕ
usage_onto usage [] = usage
usage_onto usage (volume ∷ volumes) =
    usage_onto (insert volume.name (length volume.used_by) usage) volumes

module _ {W : Type 0} (c : IncusClient W) where
  unfoldable pub delete_storage_pool_volume : String → String → M W Done
  delete_storage_pool_volume pool name = c.delete_volume plain pool "custom" name

  unfoldable pub get_storage_pool_volume : String → String → M W String
  get_storage_pool_volume pool name = do (_, etag) ← c.get_volume pool "custom" name; pure etag

  unfoldable pub resize_storage_pool_volume : String → String → ℕ → M W Done
  resize_storage_pool_volume pool name new_size = do
    (volume, etag) ← c.get_volume pool "custom" name
    c.update_volume pool "custom" name (with_size new_size volume.put) etag

  unfoldable pub create_storage_pool_volume : String → String → String → ℕ → M W Done
  unfolding volumes_post
  create_storage_pool_volume target pool name size =
      c.create_volume (handle_for target) pool (volumes_post name size)

  unfoldable pub create_storage_pool_volume_from_iso : String → String → String → String → M W Done
  create_storage_pool_volume_from_iso target pool disk_name backup_file = wait c.client (
      c.create_volume_from_iso (handle_for target) pool
        (record { name = disk_name; backup_file = backup_file }))

  unfoldable pub update_storage_pool_volume_description : String → String → String → M W Done
  update_storage_pool_volume_description pool disk_name description = do
    (volume, etag) ← c.get_volume pool "custom" disk_name
    c.update_volume pool "custom" disk_name
        (record { config = volume.put.config; description = description }) etag

  unfoldable pub get_storage_pool_volume_usage : String → M W (Dict ℕ)
  unfolding usage_onto
  get_storage_pool_volume_usage pool = do volumes ← c.get_volumes pool; pure (usage_onto [] volumes)

  unfoldable pub colocate_storage_pool_volume_with_instance : String → String → String → M W Done
  unfolding get_instance_location
  colocate_storage_pool_volume_with_instance instance_name pool disk_name = do
    instance_loc ← get_instance_location c.client instance_name
    (volume, _) ← c.get_volume pool "custom" disk_name
    if instance_loc == volume.location || volume.location == "" then pure tt else do
      wait c.client (
          c.copy_volume (use_target instance_loc) pool (use_target volume.location) pool volume
            (record { name = volume.name; mode = "move"; volume_only = false }))
      c.delete_volume (use_target volume.location) pool "custom" disk_name
