-- ===== src/Tests/CpiRuns.antt =====
-- The operations of the CPI over the adapter with fixed answers.
use bosh_lxd_cpi_release.Base.{
  ℕ, String, true, ◌≡◌, ◌≢◌, refl, ◌⊎◌, none, [], ◌∷◌, ◌++◌, ◌<>◌, arith, ◌↔◌, false,
}
use bosh_lxd_cpi_release.Cpi.Disk.Detach.{Detaches, detach_disk-Detaches}
use bosh_lxd_cpi_release.Cpi.Vm.Sizes.{IsWithinGib, calculate_vm_cloud_properties-same}
use bosh_lxd_cpi_release.Base.Text.{contains, contains_lower, replace_first}
use bosh_lxd_cpi_release.Base.Go.{error, wrap_error, ok, err}
use bosh_lxd_cpi_release.Cpi.State.{Cpi, hint_path}
use bosh_lxd_cpi_release.Cpi.Requests.{begin, logged_cpi}
use bosh_lxd_cpi_release.Cpi.Vm.{
  delete_owned_disks, delete_vm, has_vm, VmResources, calculate_vm_cloud_properties,
}
use bosh_lxd_cpi_release.Cpi.Vm.Delete.{DeletesOwned, delete_vm-DeletesOwned}
use bosh_lxd_cpi_release.Cpi.Vm.Delete.Complete.{AsksForAll, delete_vm-AsksForAll}
use bosh_lxd_cpi_release.Cpi.Agent.{write_agent_file_to_vm}
use bosh_lxd_cpi_release.Cpi.Agent.Replace.{ReplacesBy, write_agent_file_to_vm-Replaces}
use bosh_lxd_cpi_release.Cpi.Disk.{attach_disk_v2, detach_disk}
use bosh_lxd_cpi_release.Cpi.Disk.Attach.{IsFree, Attaches, attach_disk_v2-IsFree}
use bosh_lxd_cpi_release.Cpi.Snapshot.{snapshot_disk, delete_snapshot}
use bosh_lxd_cpi_release.Cpi.Snapshot.RoundTrip.{delete_snapshot-snapshot_disk}
use bosh_lxd_cpi_release.Cpi.Stemcell.{TarEntry, find_image, predeploy_vm_name, delete_stemcell}
use bosh_lxd_cpi_release.Cpi.Stemcell.Images.{find_image-first, delete_stemcell_outcomes}
use bosh_lxd_cpi_release.Cpi.Guard.{call_delete_vm, StopsAtOnce, unconnected}
use bosh_lxd_cpi_release.Tests.Fixtures.{Log, all_well}
use bosh_lxd_cpi_release.Tests.Cpis.{cpi_of}

abbrev cpi : Cpi Log String
cpi = cpi_of (true, none) all_well

abbrev lost : Cpi Log String
lost = cpi_of (true, none) (record all_well { location = err (error "timeout") })

delete_vm-DeletesOwned_example :
    DeletesOwned cpi "vm-1" (delete_vm (logged_cpi cpi) "vm-1" (begin [])).1.requests
delete_vm-DeletesOwned_example = delete_vm-DeletesOwned cpi "vm-1" []

delete_vm-AsksForAll_example :
    let rs = (delete_vm (logged_cpi cpi) "vm-1" (begin [])).1.requests in
    let (answer, w) = has_vm cpi "vm-1" (cpi.adapter.is_connected []).1 in
    ((answer ≡ ok false) × (rs ≡ [])) ⊎ ((answer ≡ ok true) × AsksForAll cpi "vm-1" rs)
unfolding delete_vm delete_owned_disks
delete_vm-AsksForAll_example =
    delete_vm-AsksForAll cpi "vm-1" [] (delete_vm (logged_cpi cpi) "vm-1" (begin [])).1 refl

write_agent_file_to_vm-Replaces_example :
    (uuid : String) × ReplacesBy cpi "vm-1"
      ("vol-c-" <> uuid)
      "env"
      []
      (write_agent_file_to_vm (logged_cpi cpi) "vm-1" "env" (begin [])).1.requests
unfolding write_agent_file_to_vm
write_agent_file_to_vm-Replaces_example =
    write_agent_file_to_vm-Replaces cpi "vm-1" "env" (begin [])
      (write_agent_file_to_vm (logged_cpi cpi) "vm-1" "env" (begin [])).1 refl

attach_disk_v2-IsFree_example :
    (path : String) × (name : String) × IsFree "/dev/sda /dev/sdc" path name
    × Attaches cpi "vm-1" "vol-p-7" "/dev/sda /dev/sdc" path name
        (hint_path "/dev/sdd")
        ("read vm-1" ∷ "connected" ∷ [])
        (attach_disk_v2 cpi "vm-1" "vol-p-7" []).1
unfolding attach_disk_v2 contains write_agent_file_to_vm
attach_disk_v2-IsFree_example =
    attach_disk_v2-IsFree cpi "vm-1" "vol-p-7" "/dev/sda /dev/sdc" "/dev/sda /dev/sdc" []
      ("connected" ∷ []) ("read vm-1" ∷ "connected" ∷ []) refl refl refl (hint_path "/dev/sdd")
      (attach_disk_v2 cpi "vm-1" "vol-p-7" []).1 refl

delete_snapshot-snapshot_disk_example :
    delete_snapshot cpi "vol-p-1_snap-u1" [] ≡ (ok tt, "delete snapshot snap-u1" ∷ "connected" ∷ [])
unfolding snapshot_disk
delete_snapshot-snapshot_disk_example =
    delete_snapshot-snapshot_disk cpi "vol-p-1" "u1" "vol-p-1_snap-u1" none [] ("connected" ∷ [])
      ("uuid" ∷ "connected" ∷ []) ("create snapshot snap-u1" ∷ "uuid" ∷ "connected" ∷ []) []
      ("connected" ∷ []) refl refl refl (λ e. cc)
      (refl, (refl, (refl, (refl, (refl, (refl, (refl, tt))))))) (refl, (refl, tt)) refl

abbrev entry_of : ℕ → TarEntry
entry_of size = record { size = size; mod_time = 0; rest = "" }

find_image-first_example :
    (find_image "image"
        (error "EOF")
        ((entry_of 100 ∷ []) ++ (entry_of 200000000 ∷ entry_of 300000000 ∷ []))
      ≡ ok (entry_of 200000000))
    × ((x : TarEntry) → find_image "image" (error "EOF") (entry_of 100 ∷ []) ≢ ok x)
find_image-first_example =
    find_image-first "image" (error "EOF") (entry_of 100 ∷ []) (entry_of 300000000 ∷ [])
      (entry_of 200000000) (omega arith, tt) (omega arith)

delete_stemcell_outcomes_example :
    delete_stemcell lost "img-1" []
    ≡ (ok tt, "locate vm-1-predeploy" ∷ "connected" ∷ "connected" ∷ [])
unfolding has_vm predeploy_vm_name contains_lower replace_first
delete_stemcell_outcomes_example =
    delete_stemcell_outcomes lost "img-1" (err (wrap_error (error "timeout") "HasVM")) (ok tt) []
      ("connected" ∷ []) ("locate vm-1-predeploy" ∷ "connected" ∷ "connected" ∷ [])
      ("delete vm-1-predeploy" ∷ "locate vm-1-predeploy" ∷ "connected" ∷ "connected" ∷ []) refl refl
      refl

unconnected_example :
    StopsAtOnce
      (cpi_of (true, none) (record all_well { connected = err (error "untrusted") }))
      (call_delete_vm "vm-1")
      (error "untrusted")
      []
      ("connected" ∷ [])
unconnected_example =
    unconnected (cpi_of (true, none) (record all_well { connected = err (error "untrusted") }))
      (call_delete_vm "vm-1") (error "untrusted") [] ("connected" ∷ []) refl

abbrev small_vm : VmResources
small_vm = record { ram = 1536; cpu = 2; ephemeral_disk_size = 4096 }

abbrev smaller_vm : VmResources
smaller_vm = record { ram = 1024; cpu = 2; ephemeral_disk_size = 4096 }

calculate_vm_cloud_properties-same_example :
    calculate_vm_cloud_properties small_vm ≡ calculate_vm_cloud_properties smaller_vm ↔ (
      (small_vm.cpu ≡ smaller_vm.cpu)
      × (small_vm.ephemeral_disk_size ≡ smaller_vm.ephemeral_disk_size)
      × ((gib : ℕ) × IsWithinGib gib 1536 × IsWithinGib gib 1024))
calculate_vm_cloud_properties-same_example = calculate_vm_cloud_properties-same small_vm smaller_vm

detach_disk-Detaches_example :
    Detaches cpi "vm-1" "vol-p-1" []
      (detach_disk (logged_cpi cpi) "vm-1" "vol-p-1" (begin [])).1.requests
unfolding detach_disk write_agent_file_to_vm
detach_disk-Detaches_example =
    detach_disk-Detaches cpi "vm-1" "vol-p-1" (begin [])
      (detach_disk (logged_cpi cpi) "vm-1" "vol-p-1" (begin [])).1 refl
