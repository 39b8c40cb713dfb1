-- ===== src/Cpi/Disk/Attach.antt =====
-- The place that `AttachDiskV2` (`src/cpi/attach_disk.go`) finds for a persistent disk.
use bosh_lxd_cpi_release.Base.{String, true, false, ◌≡◌, ◌⊎◌, Option, none, some, arith, refl}
use bosh_lxd_cpi_release.Base.Text.{contains}
use bosh_lxd_cpi_release.Base.Go.{error, ok, err}
use bosh_lxd_cpi_release.Cpi.State.{Cpi, DiskHint, hint_path}
use bosh_lxd_cpi_release.Cpi.Devices.{
  disk_device_persistent1, disk_device_persistent2, attach_disk_device_to_vm,
}
use bosh_lxd_cpi_release.Cpi.Agent.{write_agent_file_to_vm}
use bosh_lxd_cpi_release.Cpi.Disk.{free_device, attach_disk_v2}

-- A path in the guest that the agent's settings do not mention, with the device's name that belongs
-- to it.
abbrev pub IsFree : String → String → String → Type 0
IsFree json path name =
    (contains json path ≡ false)
    × (((path ≡ "/dev/sdc") × (name ≡ disk_device_persistent1))
        ⊎ ((path ≡ "/dev/sdd") × (name ≡ disk_device_persistent2)))

free_device-IsFree :
    (json path name : String) → free_device json ≡ some (path, name) → IsFree json path name
unfolding free_device
free_device-IsFree json path name h = ground arith

module _ {W E : Type 0} (c : Cpi W E) (vm_cid disk_cid : String) (agent_env : E) where
  -- The steps of an attachment as `name` and `path`, from the world `w` in which a place was found.
  abbrev pub Attaches : String → String → DiskHint → W → W → Type 0
  Attaches path name hint w w' =
      (hint ≡ hint_path path)
      × (u : W) × (v : W) × (c.adapter.colocate_storage_pool_volume_with_instance vm_cid
            c.config.server.storage_pool disk_cid w
          ≡ (ok tt, u))
      × (attach_disk_device_to_vm c vm_cid name disk_cid u ≡ (ok tt, v))
      × (write_agent_file_to_vm c vm_cid (c.library.attach_persistent_disk disk_cid hint agent_env)
            v
          ≡ (ok tt, w'))

module _ {W E : Type 0} (c : Cpi W E) (vm_cid disk_cid json : String) (agent_env : E) (w w₁ w₂ : W)
    (connected : c.adapter.is_connected w ≡ (ok tt, w₁))
    (read : c.agent_mgr.read vm_cid w₁ ≡ (ok agent_env, w₂))
    (printed : c.library.as_bytes agent_env ≡ ok json) where
  -- If AttachDiskV2 succeeds, the hint is /dev/sdc or /dev/sdd and was not mentioned in the agent's
  -- settings, and the volume was moved to the VM, attached under the device name that belongs to
  -- the path, and then the settings with the disk at that path were written.
  pub attach_disk_v2-IsFree :
      (hint : DiskHint) (w' : W)
      → attach_disk_v2 c vm_cid disk_cid w ≡ (ok hint, w')
      → (path : String) × (name : String) × IsFree json path name
        × Attaches c vm_cid disk_cid agent_env path name hint w₂ w'
  unfolding attach_disk_v2
  attach_disk_v2-IsFree hint w' h = go (free_device json) refl
    where
      go :
          (place : Option (String × String))
          → free_device json ≡ place
          → (path : String) × (name : String) × IsFree json path name
            × Attaches c vm_cid disk_cid agent_env path name hint w₂ w'
      go none e = ground arith
      go (some (path, name)) e =
          let u : W =
            (c.adapter.colocate_storage_pool_volume_with_instance vm_cid
              c.config.server.storage_pool disk_cid w₂).1 in
          let v : W = (attach_disk_device_to_vm c vm_cid name disk_cid u).1 in
          (
            path,
            name,
            free_device-IsFree json path name e,
            (ground arith, u, v, ground arith, ground arith, ground arith),
          )

  -- With both paths in use the operation fails, and nothing is changed.
  pub attach_disk_v2-full :
      contains json "/dev/sdc" ≡ true
      → contains json "/dev/sdd" ≡ true
      → attach_disk_v2 c vm_cid disk_cid w
        ≡ (err (error "Unable to find device for persistent disk"), w₂)
  unfolding attach_disk_v2 free_device
  attach_disk_v2-full sdc sdd = ground arith
