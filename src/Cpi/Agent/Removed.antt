-- ===== src/Cpi/Agent/Removed.antt =====
-- What the removal of the old configuration disk in `writeAgentFileToVM`
-- (`src/cpi/utils_agent.go`) asks for.
use bosh_lxd_cpi_release.Base.{
  String, Bool, true, false, ◌≡◌, refl, ap, Option, none, some, List, [], ◌∷◌, ◌++◌, ◌==◌, arith,
  if◌then◌else◌, ◌&&◌,
}
use bosh_lxd_cpi_release.Base.Dict.{lookup, get}
use bosh_lxd_cpi_release.Base.Go.{Result, ok, err, panic, wrapped}
use bosh_lxd_cpi_release.Adapter.Interface.{Device, Devices}
use bosh_lxd_cpi_release.Cpi.State.{Cpi}
use bosh_lxd_cpi_release.Cpi.Requests.{Request, detach_name, delete_volume, Logged, logged_cpi}
use bosh_lxd_cpi_release.Cpi.Devices.{disk_device_config, find_disks_attached_to_vm, disks_of}
use bosh_lxd_cpi_release.Cpi.Agent.{remove_config_disk}

-- The first device of that name whose type is "disk".
abbrev pub disk_named : String → Devices → Option Device
disk_named name [] = none
disk_named name ((n, device) ∷ devices) =
    if n == name && get "type" device == "disk" then some device else disk_named name devices

pub lookup-disks_of :
    (name : String) (devices : Devices) → lookup name (disks_of devices) ≡ disk_named name devices
unfolding lookup disks_of
lookup-disks_of name [] = refl
lookup-disks_of name ((n, device) ∷ devices) = ground (arith, lookup-disks_of name devices)

module _ {W E : Type 0} (c : Cpi W E) (vm_cid : String) where
  abbrev pool_name : String
  pool_name = c.config.server.storage_pool

  -- The requests (newest first) by which a configuration disk that was attached when the disks were
  -- listed, which left the world `v`, went away: it was detached, and its volume deleted if the VM
  -- was stopped then.
  abbrev pub Removes : Option Device → W → List Request → Type 0
  Removes none v rs = rs ≡ []
  Removes (some disk) v rs =
      let detached : W = (c.adapter.detach_device_by_name vm_cid disk_device_config v).1 in
      (stopped : Bool) × ((c.adapter.is_instance_stopped vm_cid detached).0 ≡ ok stopped)
      × (rs
          ≡ (if stopped then delete_volume pool_name (get "source" disk) ∷ [] else [])
            ++ (detach_name vm_cid disk_device_config ∷ []))

  pub remove_config_disk-Removes :
      (disks : Devices) (s s' : Logged W)
      → remove_config_disk (logged_cpi c) vm_cid disks s ≡ (ok tt, s')
      → (rs : List Request) × Removes (lookup disk_device_config disks) s.world rs
        × (s'.requests ≡ rs ++ s.requests)
  unfolding remove_config_disk
  remove_config_disk-Removes disks s s' h = go (lookup disk_device_config disks) refl
    where
      Goal : Option Device → Type 0
      Goal o = (rs : List Request) × Removes o s.world rs × (s'.requests ≡ rs ++ s.requests)

      detached : W
      detached = (c.adapter.detach_device_by_name vm_cid disk_device_config s.world).1

      gone :
          (disk : Device) (out : Result Bool × W)
          → c.adapter.is_instance_stopped vm_cid detached ≡ out
          → lookup disk_device_config disks ≡ some disk
          → Goal (some disk)
      gone disk (ok true, v) e k = (
        delete_volume pool_name (get "source" disk) ∷ detach_name vm_cid disk_device_config ∷ [],
        (true, ap (λ p. p.0) e, refl),
        ground arith,
      )
      gone disk (ok false, v) e k =
          (detach_name vm_cid disk_device_config ∷ [], (false, ap (λ p. p.0) e, refl), ground arith)
      gone disk (err x, v) e k = ground arith
      gone disk (panic, v) e k = ground arith

      go : (o : Option Device) → lookup disk_device_config disks ≡ o → Goal o
      go none e = ([], refl, ground arith)
      go (some disk) e = gone disk (c.adapter.is_instance_stopped vm_cid detached) refl e

  pub find_disks-listed :
      (message : String) (s s' : Logged W) (disks : Devices)
      → wrapped message (find_disks_attached_to_vm (logged_cpi c) vm_cid) s ≡ (ok disks, s')
      → (devices : Devices) × (c.adapter.get_devices vm_cid s.world ≡ (ok devices, s'.world))
        × (disks ≡ disks_of devices)
        × (s'.requests ≡ s.requests)
  unfolding find_disks_attached_to_vm
  find_disks-listed message s s' disks h = go (c.adapter.get_devices vm_cid s.world) refl
    where
      go :
          (out : Result Devices × W)
          → c.adapter.get_devices vm_cid s.world ≡ out
          → (devices : Devices) × (c.adapter.get_devices vm_cid s.world ≡ (ok devices, s'.world))
            × (disks ≡ disks_of devices)
            × (s'.requests ≡ s.requests)
      go (ok devices, v) e = (devices, ground arith, ground arith, ground arith)
      go (err x, v) e = ground arith
      go (panic, v) e = ground arith
