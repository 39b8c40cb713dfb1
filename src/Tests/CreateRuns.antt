-- ===== src/Tests/CreateRuns.antt =====
-- The creation of VMs over the adapter with fixed answers.
use bosh_lxd_cpi_release.Base.{
  String, true, false, ◌≡◌, refl, ◌⊎◌, inl, inr, none, some, [], ◌∷◌, ℕ, length, ◌≢◌,
}
use bosh_lxd_cpi_release.Cpi.Create.Plan.Nics.{network_at, nic_name, plan_networks-nics}
use bosh_lxd_cpi_release.Base.Text.{contains}
use bosh_lxd_cpi_release.Base.Dict.{Dict, lookup}
use bosh_lxd_cpi_release.Base.Go.{error, deadline_exceeded, wrap_error, Result, ok, err, panic}
use bosh_lxd_cpi_release.Adapter.Interface.{InstanceMetadata}
use bosh_lxd_cpi_release.Cpi.State.{Cpi, Network}
use bosh_lxd_cpi_release.Cpi.Requests.{begin, logged_cpi}
use bosh_lxd_cpi_release.Cpi.Vm.{delete_vm}
use bosh_lxd_cpi_release.Cpi.Create.{
  CreateRequest, create_vm_v2, provision, create_vm_with_lock, create_ephemeral_disk,
}
use bosh_lxd_cpi_release.Cpi.Create.Cleanup.{at_location, reported, provision-deletes}
use bosh_lxd_cpi_release.Cpi.Agent.{write_agent_file_to_vm}
use bosh_lxd_cpi_release.Cpi.Create.Complete.Whole.{CreatesVm, create_vm_v2-CreatesVm}
use bosh_lxd_cpi_release.Cpi.Create.Lock.{create_vm_with_lock-locked, create_vm_with_lock-unlocked}
use bosh_lxd_cpi_release.Cpi.Create.Plan.{
  NetworkPlan, start_plan, plan_networks, select_instance_config, with_root_disk, nic_settings,
}
use bosh_lxd_cpi_release.Cpi.Create.Plan.Targets.{AgreeOn, plan_networks-AgreeOn}
use bosh_lxd_cpi_release.Cpi.Create.Plan.Configs.{select_instance_config-match}
use bosh_lxd_cpi_release.Tests.Fixtures.{Log, all_well}
use bosh_lxd_cpi_release.Tests.Cpis.{cpi_of, library}

abbrev cpi : Cpi Log String
cpi = cpi_of (true, none) all_well

abbrev request : CreateRequest
request = record {
  agent_id = "agent";
  stemcell_cid = "img-1";
  cloud_props = λ p. ok (record p { ephemeral_disk = 10 });
  networks = [];
  env = "{}";
}

abbrev lost : Cpi Log String
lost = cpi_of (true, none) (record all_well { location = err (error "timeout") })

provision-deletes_example :
    ((provision lost request "vm-1" [] 0 []).1 ≡ (delete_vm lost "vm-1" ("locate vm-1" ∷ [])).1)
    × ((reported lost request "vm-1" [] 0 (provision lost request "vm-1" [] 0 []).0
          ≡ some (wrap_error (error "timeout") "VM Location"))
        ⊎ ((delete_vm lost "vm-1" ("locate vm-1" ∷ [])).0 ≡ panic))
provision-deletes_example = provision-deletes lost request "vm-1" [] 0 (at_location refl)

abbrev new_vm : InstanceMetadata
new_vm = record {
  name = "vm-2";
  stemcell_alias = "img-1";
  instance_type = "c1-m1";
  project = "default";
  profiles = [];
  target = "";
  devices = [];
  config = [];
}

create_vm_with_lock-locked_example :
    create_vm_with_lock cpi new_vm [] ≡ (ok tt, "unlock" ∷ "create vm-2" ∷ "lock" ∷ [])
create_vm_with_lock-locked_example = create_vm_with_lock-locked cpi new_vm refl refl

create_vm_with_lock-unlocked_example :
    ((deadline_exceeded ≡ deadline_exceeded)
      × (create_vm_with_lock (cpi_of (false, some deadline_exceeded) all_well) new_vm []
          ≡ (ok tt, "create vm-2" ∷ "lock" ∷ [])))
    ⊎ ((deadline_exceeded ≢ deadline_exceeded)
        × (create_vm_with_lock (cpi_of (false, some deadline_exceeded) all_well) new_vm []
            ≡ (err deadline_exceeded, "lock" ∷ [])))
create_vm_with_lock-unlocked_example =
    create_vm_with_lock-unlocked (cpi_of (false, some deadline_exceeded) all_well) new_vm refl refl

abbrev network_on : String → Network
network_on target = record {
  network_type = "manual";
  ip = "10.0.0.5";
  netmask = "255.255.255.0";
  gateway = "10.0.0.1";
  dns = [];
  default_for = [];
  cloud_target = target;
}

abbrev two_networks : Dict Network
two_networks = ("a", network_on "node1") ∷ ("b", network_on "") ∷ []

abbrev planned : Result NetworkPlan
planned = plan_networks library true "lxdbr0" "" (start_plan "") two_networks

abbrev target_of : Result NetworkPlan → NetworkPlan
target_of (ok plan) = plan
target_of (err e) = start_plan ""
target_of panic = start_plan ""

plan_networks-AgreeOn_example : AgreeOn library "lxdbr0" "" "node1" "" two_networks
unfolding plan_networks
plan_networks-AgreeOn_example =
    plan_networks-AgreeOn library "lxdbr0" "" two_networks (start_plan "") (target_of planned) refl

abbrev jammy_config : Dict String
jammy_config = ("raw.qemu", "-bios jammy") ∷ []

select_instance_config-match_example :
    select_instance_config "bosh-ubuntu-jammy"
      (("default", ("x", "y") ∷ []) ∷ ("jammy", jammy_config) ∷ ("bionic", []) ∷ [])
    ≡ ok jammy_config
unfolding contains lookup
select_instance_config-match_example =
    select_instance_config-match "bosh-ubuntu-jammy" jammy_config "jammy"
      (("default", ("x", "y") ∷ []) ∷ ("jammy", jammy_config) ∷ ("bionic", []) ∷ [])
      (inl refl, (inr (inr refl), (inr (inl refl), tt))) (λ e. cc) refl refl (λ e. cc)

create_vm_v2-CreatesVm_example :
    CreatesVm cpi request [] "vm-u1" []
      (create_vm_v2 (logged_cpi cpi) request (begin [])).1.requests
unfolding create_vm_v2 create_ephemeral_disk write_agent_file_to_vm
create_vm_v2-CreatesVm_example =
    create_vm_v2-CreatesVm cpi request "vm-u1" [] []
      (create_vm_v2 (logged_cpi cpi) request (begin [])).1 refl

plan_networks-nics_example :
    let devices = with_root_disk "pool" (target_of planned).devices in
    ((i : ℕ) (net : Network)
      → network_at i two_networks ≡ some net
      → lookup (nic_name i) devices ≡ some (nic_settings library true "lxdbr0" "" (nic_name i) net))
    × (lookup "root" devices ≡ some (("type", "disk") ∷ ("pool", "pool") ∷ ("path", "/") ∷ []))
    × (length devices ≡ 3)
unfolding plan_networks
plan_networks-nics_example =
    plan_networks-nics library true "lxdbr0" "" two_networks "" "pool" (target_of planned) refl
