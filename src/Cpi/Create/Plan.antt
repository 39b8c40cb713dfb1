-- ===== src/Cpi/Create/Plan.antt =====
-- The two loops of `CreateVMV2` in `src/cpi/create_vm.go`: over the networks, and over the
-- configurations by stemcell.
pub mod Targets
pub mod Nics
pub mod Configs
use bosh_lxd_cpi_release.Base.{
  ℕ, ◌+◌, String, Bool, true, false, not, ◌&&◌, [], ◌∷◌, ◌==◌, ◌<>◌, if◌then◌else◌,
}
use bosh_lxd_cpi_release.Base.Text.{contains, decimal}
use bosh_lxd_cpi_release.Base.Dict.{Dict, insert}
use bosh_lxd_cpi_release.Base.Go.{error, Result, ok, err, panic}
use bosh_lxd_cpi_release.Adapter.Interface.{Device, Devices}
use bosh_lxd_cpi_release.Cpi.State.{Library, Network}

-- The variables of the loop over the networks; `target` is `vmProps.Target`.
pub record NetworkPlan : Type 0 where
  pub devices : Devices
  pub eth : ℕ
  pub new_networks : Dict Network
  pub target : String

abbrev pub start_plan : String → NetworkPlan
start_plan target = record { devices = []; eth = 0; new_networks = []; target = target }

-- The target after a network that asks for `net_target`.
unfoldable pub merge_targets : String → String → Result String
merge_targets vm_target net_target =
    if net_target == ""
    then ok vm_target
    else if not (vm_target == "") && not (vm_target == net_target)
    then err (
        error (
          "VM target (" <> vm_target <> ") and nework target (" <> net_target
          <> ") differ and cannot be reconciled"))
    else ok net_target

module _ {E : Type 0} (library : Library E) (managed : Bool) (parent assignment : String) where
  unfoldable pub planned_ip : Network → String
  planned_ip net = if library.is_dynamic net then "" else net.ip

  unfoldable pub nic_settings : String → Network → Device
  unfolding planned_ip insert
  nic_settings name net =
      let plain : Device =
        ("name", name) ∷ ("nictype", "bridged") ∷ ("parent", parent) ∷ ("type", "nic") ∷ [] in
      if managed && not (planned_ip net == "")
      then insert "ipv4.address" (planned_ip net) plain
      else plain

  unfoldable pub reported_network : Network → Network
  unfolding planned_ip
  reported_network net =
      if managed && assignment == "dhcp"
      then library.new_network (record {
        network_type = "dynamic";
        ip = planned_ip net;
        netmask = net.netmask;
        gateway = net.gateway;
        dns = net.dns;
        default_for = net.default_for;
      })
      else net

  -- One round of the loop, with the target after it.
  unfoldable pub after_target : String → Network → NetworkPlan → Result String → Result NetworkPlan
  unfolding nic_settings reported_network insert
  after_target key net plan (ok target) =
      let name = "eth" <> decimal plan.eth in
      ok (record {
        devices = insert name (nic_settings name net) plan.devices;
        eth = plan.eth + 1;
        new_networks = insert key (reported_network net) plan.new_networks;
        target = target;
      })
  after_target key net plan (err e) = err e
  after_target key net plan panic = panic

  unfoldable pub plan_network : String → Network → NetworkPlan → Result NetworkPlan
  unfolding after_target merge_targets
  plan_network key net plan =
      after_target key net plan
        (if managed then merge_targets plan.target net.cloud_target else ok plan.target)

  unfoldable pub plan_networks : NetworkPlan → Dict Network → Result NetworkPlan
  unfolding plan_network
  plan_networks plan [] = ok plan
  plan_networks plan ((key, net) ∷ networks) = elim (plan_network key net plan) [
    | ok plan' ↦ plan_networks plan' networks
    | err e ↦ err e
    | panic ↦ panic
  ]

-- `devices["root"] = …`
unfoldable pub with_root_disk : String → Devices → Devices
unfolding insert
with_root_disk pool devices =
    insert "root" (("type", "disk") ∷ ("pool", pool) ∷ ("path", "/") ∷ []) devices

-- The loop over `InstanceConfig`, with `defaultConfig` and `instanceConfig`. A nil map is empty.
unfoldable pub match_config :
    String → Dict String → Dict String → Dict (Dict String) → Dict String × Dict String
match_config description default_config instance_config [] = (default_config, instance_config)
match_config description default_config instance_config ((k, v) ∷ configs) =
    if "default" == k
    then match_config description v instance_config configs
    else match_config description default_config
        (if contains description k then v else instance_config) configs

-- `len(m) == 0`
abbrev is_empty : Dict String → Bool
is_empty [] = true
is_empty (_ ∷ _) = false

unfoldable pub select_instance_config : String → Dict (Dict String) → Result (Dict String)
unfolding match_config
select_instance_config description configs =
    let (default_config, matched) = match_config description [] [] configs in
    let instance_config = if is_empty matched then default_config else matched in
    if is_empty instance_config
    then err (error "no matching stemcell configuration found")
    else ok instance_config
