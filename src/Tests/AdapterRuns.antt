-- ===== src/Tests/AdapterRuns.antt =====
-- The adapters on the server with one instance.
use bosh_lxd_cpi_release.Base.{
  String, ◌≡◌, ◌≢◌, refl, ◌⊎◌, none, some, [], ◌∷◌, ◌==◌, if◌then◌else◌, arith, true, ◌↔◌,
}
use bosh_lxd_cpi_release.Tests.Cpis.{library}
use bosh_lxd_cpi_release.Cpi.Factory.Made.{IsNamedBy, new_from_factory-IsNamedBy}
use bosh_lxd_cpi_release.Cpi.Factory.{new_factory, new_from_factory}
use bosh_lxd_cpi_release.Cpi.State.{Cpi, AgentManager, FileLock}
use bosh_lxd_cpi_release.Adapter.Lxd.{lxd_adapter}
use bosh_lxd_cpi_release.Adapter.Incus.Client.{IncusClient}
use bosh_lxd_cpi_release.Adapter.Lxd.Client.{LxdClient}
use bosh_lxd_cpi_release.Adapter.Factory.{Connector}
use bosh_lxd_cpi_release.Config.{default_config}
use bosh_lxd_cpi_release.Base.Dict.{get, lookup, insert, erase}
use bosh_lxd_cpi_release.Base.Go.{error, ok, err, Result}
use bosh_lxd_cpi_release.Adapter.Interface.{Device, stop_action}
use bosh_lxd_cpi_release.Adapter.Client.{InstancePut, Instance, running, Volume, Operation}
use bosh_lxd_cpi_release.Adapter.Lxd.Wait.{wait}
use bosh_lxd_cpi_release.Adapter.Lxd.Wait.Outcomes.{wait-CountsAsDone, CountsAsDone}
use bosh_lxd_cpi_release.Adapter.Lxd.Device.{
  name_of_source, detach_device_by_source, attach_device, detach_device_by_name, get_devices,
  with_devices,
}
use bosh_lxd_cpi_release.Adapter.Lxd.Device.Laws.{
  SeesUpdates, lookup-attach_device, detach-attach_device,
}
use bosh_lxd_cpi_release.Adapter.Lxd.Device.Source.{lookup-detach_device_by_source}
use bosh_lxd_cpi_release.Adapter.Lxd.Instance.{get_instance_location, set_instance_action}
use bosh_lxd_cpi_release.Adapter.Lxd.Instance.States.{IsDone, state_change, set_instance_action_lem}
use bosh_lxd_cpi_release.Adapter.Lxd.Volume.{colocate_storage_pool_volume_with_instance}
use bosh_lxd_cpi_release.Adapter.Lxd.Volume.Moves.{copy_to, delete_from, colocate_outcomes}
use bosh_lxd_cpi_release.Adapter.Interface.{InstanceMetadata}
use bosh_lxd_cpi_release.Adapter.Agreement.{IsAlike, devices_alike}
use bosh_lxd_cpi_release.Adapter.Lxd.Device as LxdDevice
use bosh_lxd_cpi_release.Adapter.Incus.Device as IncusDevice
use bosh_lxd_cpi_release.Adapter.Lxd.Instance as LxdInstance
use bosh_lxd_cpi_release.Adapter.Incus.Instance as IncusInstance
use bosh_lxd_cpi_release.Adapter.Lxd.Image as LxdImage
use bosh_lxd_cpi_release.Adapter.Incus.Image as IncusImage
use bosh_lxd_cpi_release.Tests.Fixtures.{vm_client, lxd_client, one_vm, root_disk}

abbrev new_disk : Device
new_disk = ("type", "disk") ∷ ("source", "vol-p-7") ∷ []

vm_client-SeesUpdates : SeesUpdates vm_client
unfolding wait
vm_client-SeesUpdates name etag etag' put inst w w₁ w₂ updated got = ground arith

abbrev two_disks : InstancePut
two_disks = with_devices (("root", root_disk) ∷ ("persistent-1", new_disk) ∷ []) one_vm

abbrev instance_of : InstancePut → Instance
instance_of put = record { location = "node1"; put = put }

lookup-attach_device_example :
    (lookup "persistent-1" one_vm.devices ≡ none)
    × (lookup "persistent-1" two_disks.devices ≡ (
        if "persistent-1" == "persistent-1"
        then some new_disk
        else lookup "persistent-1" one_vm.devices))
unfolding attach_device get_devices wait insert
lookup-attach_device_example =
    lookup-attach_device vm_client vm_client-SeesUpdates "vm-1" "persistent-1" "persistent-1"
      new_disk (instance_of one_vm) "e1" two_disks.devices one_vm one_vm two_disks two_disks refl
      refl refl

detach-attach_device_example : ("root", root_disk) ∷ [] ≡ one_vm.devices
unfolding attach_device detach_device_by_name get_devices wait insert erase
detach-attach_device_example =
    detach-attach_device vm_client vm_client-SeesUpdates "vm-1" "persistent-1" new_disk
      (instance_of one_vm) (instance_of two_disks) "e1" "e1" (("root", root_disk) ∷ []) one_vm
      one_vm two_disks two_disks one_vm one_vm refl refl refl refl refl

set_instance_action_lem_example :
    (IsDone stop_action running
      × (set_instance_action vm_client "vm-1" stop_action one_vm ≡ (ok tt, one_vm)))
    ⊎ (¬ (IsDone stop_action running)
        × (set_instance_action vm_client "vm-1" stop_action one_vm
            ≡ wait vm_client
                (vm_client.update_instance_state "vm-1" (state_change stop_action) "")
                one_vm))
set_instance_action_lem_example = set_instance_action_lem vm_client "vm-1" stop_action refl

abbrev far_volume : Volume
far_volume = record {
  name = "vol-p-7";
  location = "node2";
  used_by = [];
  put = record { config = []; description = "" };
}

abbrev beside : String
beside = "node1"

abbrev elsewhere : String
elsewhere = "node2"

colocate_outcomes_example :
    let out =
      colocate_storage_pool_volume_with_instance lxd_client "vm-1" "pool" "vol-p-7" one_vm in
    (((beside ≡ elsewhere) ⊎ (elsewhere ≡ "")) × (out ≡ (ok tt, one_vm)))
    ⊎ ((beside ≢ elsewhere)
        × (elsewhere ≢ "")
        × (((copy_to lxd_client "pool" "vol-p-7" beside far_volume one_vm).0 ≢ ok tt)
              × (out ≡ copy_to lxd_client "pool" "vol-p-7" beside far_volume one_vm)
            ⊎ ((copy_to lxd_client "pool" "vol-p-7" beside far_volume one_vm).0 ≡ ok tt)
              × (out
                  ≡ delete_from lxd_client "pool" "vol-p-7" far_volume
                      (copy_to lxd_client "pool" "vol-p-7" beside far_volume one_vm).1)))
unfolding get_instance_location
colocate_outcomes_example =
    colocate_outcomes lxd_client "pool" "vol-p-7" "vm-1" beside "e2" far_volume one_vm one_vm one_vm
      refl refl

wait-CountsAsDone_example :
    ((wait vm_client (vm_client.update_instance "vm-1" two_disks "") one_vm).0 ≡ ok tt) ↔ (
      (op : Operation InstancePut) × (w : InstancePut) × (vm_client.update_instance "vm-1" two_disks
          "" one_vm
        ≡ (ok op, w))
      × CountsAsDone vm_client (vm_client.update_instance "vm-1" two_disks "") (op.await w).0)
wait-CountsAsDone_example =
    wait-CountsAsDone vm_client (vm_client.update_instance "vm-1" two_disks "") one_vm

vm_client-updates-IsAlike :
    (i : String) (put : InstancePut) (etag : String)
    → IsAlike vm_client (vm_client.update_instance i put etag)
vm_client-updates-IsAlike i put etag w e failed = cc

devices_alike_example :
    (LxdDevice.attach_device vm_client "vm-1" "d" new_disk one_vm
      ≡ IncusDevice.attach_device vm_client "vm-1" "d" new_disk one_vm)
    × (LxdDevice.detach_device_by_name vm_client "vm-1" "d" one_vm
        ≡ IncusDevice.detach_device_by_name vm_client "vm-1" "d" one_vm)
    × (LxdDevice.detach_device_by_source vm_client "vm-1" "d" one_vm
        ≡ IncusDevice.detach_device_by_source vm_client "vm-1" "d" one_vm)
    × (LxdDevice.get_devices vm_client "vm-1" one_vm
        ≡ IncusDevice.get_devices vm_client "vm-1" one_vm)
devices_alike_example = devices_alike vm_client vm_client-updates-IsAlike "vm-1" "d" new_disk one_vm

abbrev some_instance : InstanceMetadata
some_instance = record {
  name = "vm-2";
  stemcell_alias = "img-1";
  instance_type = "c1-m1";
  project = "default";
  profiles = [];
  target = "";
  devices = [];
  config = [];
}

lookup-detach_device_by_source_example :
    (gone : String) × (device : Device) × (lookup gone two_disks.devices ≡ some device)
    × (get "source" device ≡ "vol-p-7")
    × ((n : String)
        → lookup n one_vm.devices ≡ (if gone == n then none else lookup n two_disks.devices))
unfolding name_of_source detach_device_by_source get_devices wait erase
lookup-detach_device_by_source_example =
    lookup-detach_device_by_source vm_client vm_client-SeesUpdates "vm-1" "vol-p-7" "persistent-1"
      new_disk (instance_of two_disks) "e1" one_vm.devices two_disks two_disks one_vm one_vm
      (refl, (refl, tt)) refl refl refl refl refl refl

abbrev given : {A : Type 0} → A → Result A
given a = ok a

abbrev lxd_only : Connector InstancePut (LxdClient InstancePut)
lxd_only = record {
  connect = λ url args w. (ok lxd_client, w);
  use_project = λ p c. c;
  use_target = λ t c. c;
}

abbrev no_incus : Connector InstancePut (IncusClient InstancePut)
no_incus = record {
  connect = λ url args w. (err (error "refused"), w);
  use_project = λ p c. c;
  use_target = λ t c. c;
}

abbrev keeping : AgentManager InstancePut String
keeping = record {
  read = λ v w. (ok "{}", w);
  write = λ v e w. (ok e, w);
  delete = λ v w. (ok tt, w);
}

abbrev no_lock : FileLock InstancePut
no_lock = record { try_lock = λ t r w. (ok (true, none), w); unlock = λ w. (ok tt, w) }

abbrev made_cpi : Cpi InstancePut String
made_cpi = record {
  adapter = lxd_adapter lxd_client;
  uuid_gen = λ w. (ok "u1", w);
  config = default_config;
  agent_mgr = keeping;
  create_vm_lock = no_lock;
  create_vm_lock_timeout = 5;
  library = library;
}

new_from_factory-IsNamedBy_example :
    IsNamedBy lxd_only no_incus default_config.server one_vm (lxd_adapter lxd_client) one_vm
    × (given keeping ≡ ok keeping)
    × (given made_cpi.create_vm_lock_timeout ≡ ok 5)
unfolding new_from_factory new_factory
new_from_factory-IsNamedBy_example =
    new_from_factory-IsNamedBy lxd_only no_incus (λ c. ok keeping) (λ s. ok 5) (λ p. no_lock)
      (λ w. (ok "u1", w)) library (new_factory default_config) one_vm one_vm made_cpi refl
