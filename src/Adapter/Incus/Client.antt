-- ===== src/Adapter/Incus/Client.antt =====
-- What Incus's client offers in a form of its own: most changes of volumes, and the change of a
-- snapshot, are done when the call returns.
use bosh_lxd_cpi_release.Base.{String}
use bosh_lxd_cpi_release.Base.Go.{M, Done}
use bosh_lxd_cpi_release.Adapter.Client.{Client, Handle, SnapshotPut, VolumePut, VolumesPost}

pub record IncusClient (W : Type 0) : Type 0 where
  pub client : Client W
  pub open client use *
  pub delete_volume : Handle → String → String → String → M W Done
  pub update_volume : String → String → String → VolumePut → String → M W Done
  pub create_volume : Handle → String → VolumesPost → M W Done
  pub get_snapshot : String → String → String → String → M W (SnapshotPut × String)
  pub update_snapshot : String → String → String → String → SnapshotPut → String → M W Done
