-- ===== src/Cpi/Guard.antt =====
-- Every operation of `src/cpi` but `Info` and `CalculateVMCloudProperties` begins with
-- `IsConnected`.
use bosh_lxd_cpi_release.Base.{ℕ, String, ◌≡◌, Option, arith}
use bosh_lxd_cpi_release.Base.Go.{Error, Result, err}
use bosh_lxd_cpi_release.Cpi.State.{Cpi, StemcellProperties}
use bosh_lxd_cpi_release.Cpi.Disk.{
  create_disk, delete_disk, has_disk, resize_disk, get_disks, attach_disk, attach_disk_v2,
  detach_disk, set_disk_metadata,
}
use bosh_lxd_cpi_release.Cpi.Snapshot.{snapshot_disk, delete_snapshot}
use bosh_lxd_cpi_release.Cpi.Vm.{has_vm, delete_vm, reboot_vm, set_vm_metadata}
use bosh_lxd_cpi_release.Cpi.Create.{CreateRequest, create_vm, create_vm_v2}
use bosh_lxd_cpi_release.Cpi.Stemcell.{Archives, create_stemcell, delete_stemcell}

-- The operations that BOSH can call, with their arguments, but `Info` and
-- `CalculateVMCloudProperties`, which ask the adapter for nothing.
pub data Call (W : Type 0) : Type 0 where
  call_create_vm : CreateRequest → Call W
  call_delete_vm call_has_vm call_reboot_vm : String → Call W
  call_set_vm_metadata : String → Result String → Call W
  call_create_disk : ℕ → Option String → Call W
  call_delete_disk call_has_disk call_get_disks : String → Call W
  call_resize_disk : String → ℕ → Call W
  call_attach_disk call_detach_disk : String → String → Call W
  call_set_disk_metadata : String → Result String → Call W
  call_snapshot_disk call_delete_snapshot : String → Call W
  call_create_stemcell : Archives W → String → Result StemcellProperties → Call W
  call_delete_stemcell : String → Call W

module _ {W E : Type 0} (c : Cpi W E) where
  -- That a call on an unconnected server ends at once with the server's error.
  abbrev pub StopsAtOnce : Call W → Error → W → W → Type 0
  StopsAtOnce (call_create_vm r) e w w' =
      (create_vm_v2 c r w ≡ (err e, w')) × (create_vm c r w ≡ (err e, w'))
  StopsAtOnce (call_delete_vm v) e w w' = delete_vm c v w ≡ (err e, w')
  StopsAtOnce (call_has_vm v) e w w' = has_vm c v w ≡ (err e, w')
  StopsAtOnce (call_reboot_vm v) e w w' = reboot_vm c v w ≡ (err e, w')
  StopsAtOnce (call_set_vm_metadata v m) e w w' = set_vm_metadata c v m w ≡ (err e, w')
  StopsAtOnce (call_create_disk n v) e w w' = create_disk c n v w ≡ (err e, w')
  StopsAtOnce (call_delete_disk d) e w w' = delete_disk c d w ≡ (err e, w')
  StopsAtOnce (call_has_disk d) e w w' = has_disk c d w ≡ (err e, w')
  StopsAtOnce (call_get_disks v) e w w' = get_disks c v w ≡ (err e, w')
  StopsAtOnce (call_resize_disk d n) e w w' = resize_disk c d n w ≡ (err e, w')
  StopsAtOnce (call_attach_disk v d) e w w' =
      (attach_disk_v2 c v d w ≡ (err e, w')) × (attach_disk c v d w ≡ (err e, w'))
  StopsAtOnce (call_detach_disk v d) e w w' = detach_disk c v d w ≡ (err e, w')
  StopsAtOnce (call_set_disk_metadata d m) e w w' = set_disk_metadata c d m w ≡ (err e, w')
  StopsAtOnce (call_snapshot_disk d) e w w' = snapshot_disk c d w ≡ (err e, w')
  StopsAtOnce (call_delete_snapshot s) e w w' = delete_snapshot c s w ≡ (err e, w')
  StopsAtOnce (call_create_stemcell a p props) e w w' = create_stemcell c a p props w ≡ (err e, w')
  StopsAtOnce (call_delete_stemcell s) e w w' = delete_stemcell c s w ≡ (err e, w')

  -- Where the server does not accept the connection, every operation of the CPI but Info and
  -- CalculateVMCloudProperties, which do not connect, returns that error and does nothing more.
  pub unconnected :
      (call : Call W) (e : Error) (w w' : W)
      → c.adapter.is_connected w ≡ (err e, w')
      → StopsAtOnce call e w w'
  unfolding create_vm_v2 create_vm delete_vm has_vm reboot_vm set_vm_metadata create_disk
      delete_disk has_disk get_disks resize_disk attach_disk_v2 attach_disk detach_disk
      set_disk_metadata snapshot_disk delete_snapshot create_stemcell delete_stemcell
  unconnected (call_create_vm r) e w w' h = ground arith
  unconnected (call_delete_vm v) e w w' h = ground arith
  unconnected _ e w w' h = ground arith
