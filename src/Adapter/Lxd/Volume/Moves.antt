-- ===== src/Adapter/Lxd/Volume/Moves.antt =====
-- `ColocateStoragePoolVolumeWithInstance` of `src/adapter/lxd/volume.go`.
use bosh_lxd_cpi_release.Base.{false, String, ◌≡◌, ◌≢◌, ◌⊎◌, arith, eq_iff}
use bosh_lxd_cpi_release.Base.Go.{ok, M, Done}
use bosh_lxd_cpi_release.Adapter.Client.{Volume, use_target}
use bosh_lxd_cpi_release.Adapter.Lxd.Client.{LxdClient}
use bosh_lxd_cpi_release.Adapter.Lxd.Wait.{wait}
use bosh_lxd_cpi_release.Adapter.Lxd.Instance.{get_instance_location}
use bosh_lxd_cpi_release.Adapter.Lxd.Volume.{colocate_storage_pool_volume_with_instance}

module _ {W : Type 0} (c : LxdClient W) (pool disk_name : String) where
  abbrev pub copy_to : String → Volume → M W Done
  copy_to loc volume = wait c.client (
      c.copy_volume (use_target loc) pool (use_target volume.location) pool volume
        (record { name = volume.name; mode = "move"; volume_only = false }))

  abbrev pub delete_from : Volume → M W Done
  delete_from volume =
      wait c.client (c.delete_volume (use_target volume.location) pool "custom" disk_name)

  -- ColocateStoragePoolVolumeWithInstance leaves a volume that is beside the instance or has no
  -- location; any other it copies to the instance's location first, and deletes the original only
  -- if the copy was reported as done.
  pub colocate_outcomes :
      (instance_name loc etag : String) (volume : Volume) (w w₁ w₂ : W)
      → get_instance_location c.client instance_name w ≡ (ok loc, w₁)
      → c.get_volume pool "custom" disk_name w₁ ≡ (ok (volume, etag), w₂)
      → let out = colocate_storage_pool_volume_with_instance c instance_name pool disk_name w in
        (((loc ≡ volume.location) ⊎ (volume.location ≡ "")) × (out ≡ (ok tt, w₂)))
        ⊎ ((loc ≢ volume.location)
            × (volume.location ≢ "")
            × (((copy_to loc volume w₂).0 ≢ ok tt) × (out ≡ copy_to loc volume w₂)
                ⊎ ((copy_to loc volume w₂).0 ≡ ok tt)
                  × (out ≡ delete_from volume (copy_to loc volume w₂).1)))
  unfolding colocate_storage_pool_volume_with_instance
  colocate_outcomes instance_name loc etag volume w w₁ w₂ located found =
      ground (arith, eq_iff loc volume.location, eq_iff volume.location "")
