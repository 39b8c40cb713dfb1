-- ===== src/Adapter/Lxd/Client.antt =====
-- What LXD's client offers in a form of its own: the changes of volumes are operations.
use bosh_lxd_cpi_release.Base.{String}
use bosh_lxd_cpi_release.Base.Go.{M}
use bosh_lxd_cpi_release.Adapter.Client.{Client, Handle, Operation, VolumePut, VolumesPost}

pub record LxdClient (W : Type 0) : Type 0 where
  pub client : Client W
  pub open client use *
  pub delete_volume : Handle → String → String → String → M W (Operation W)
  pub update_volume : String → String → String → VolumePut → String → M W (Operation W)
  pub create_volume : Handle → String → VolumesPost → M W (Operation W)
