-- ===== src/Cpi/Snapshot.antt =====
-- `src/cpi/snapshot_disk.go` and `delete_snapshot.go`.
pub mod RoundTrip
use bosh_lxd_cpi_release.Base.{
  String, Option, none, some, [], ◌∷◌, ◌==◌, ◌||◌, inl, inr, ◌<>◌, if◌then◌else◌, List,
}
use bosh_lxd_cpi_release.Base.Text.{split}
use bosh_lxd_cpi_release.Base.Go.{
  Error, error, M, Result, ok, err, Done, pure, attempt, lift, ◌>>=◌, ◌>>◌,
}
use bosh_lxd_cpi_release.Cpi.State.{Cpi}
use bosh_lxd_cpi_release.Cpi.Devices.{snapshot_prefix}

-- `volumeName` and `snapshotName` of a snapshot's CID.
unfoldable pub snapshot_parts : List String → Result (String × String)
snapshot_parts (volume_name ∷ snapshot_name ∷ []) =
    if volume_name == "" || snapshot_name == ""
    then err (error "expecting snapshot CID to include both volume and snapshot names")
    else ok (volume_name, snapshot_name)
snapshot_parts _ = err (error "expecting snapshot CID to be two parts separated by '/'")

module _ {W E : Type 0} (c : Cpi W E) where
  -- The last return hands out the CID whether or not the call failed.
  unfoldable pub snapshot_disk : String → M W (String × Option Error)
  snapshot_disk disk_cid = do
    c.adapter.is_connected
    id ← c.uuid_gen
    let snapshot_id = snapshot_prefix <> id
    created ← attempt (
        c.adapter.create_storage_pool_volume_snapshot c.config.server.storage_pool disk_cid
          snapshot_id disk_cid)
    pure (disk_cid <> "_" <> snapshot_id, elim created [ inl e ↦ some e | inr _ ↦ none ])

  unfoldable pub delete_snapshot : String → M W Done
  delete_snapshot snapshot_cid = do
    c.adapter.is_connected
    (volume_name, snapshot_name) ← lift (snapshot_parts (split b'_' snapshot_cid))
    c.adapter.delete_storage_pool_volume_snapshot c.config.server.storage_pool volume_name
        snapshot_name
