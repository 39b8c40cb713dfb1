-- ===== src/Cpi/Create.antt =====
-- `src/cpi/create_vm.go`. What a call after the creation does on an error follows the `defer` of
-- `CreateVMV2`, which reads the function's own `err`; the block of the ephemeral disk declares
-- another `err`, and the `defer` does not see it.
pub mod Plan
pub mod Cleanup
pub mod Lock
pub mod Complete
use bosh_lxd_cpi_release.Cpi.Create.Plan.{
  plan_networks, start_plan, with_root_disk, select_instance_config,
}
use bosh_lxd_cpi_release.Base.{
  ℕ, String, Bool, true, false, not, ◌&&◌, Option, none, some, List, [], ◌∷◌, ltb, inl, inr, ◌<>◌,
  if◌then◌else◌,
}
use bosh_lxd_cpi_release.Base.Dict.{Dict}
use bosh_lxd_cpi_release.Base.Go.{
  Error, error, deadline_exceeded, wrap_error, Result, ok, err, panic, M, Done, pure, fail, lift,
  wrapped, attempt, ◌>>=◌, ◌>>◌,
}
use bosh_lxd_cpi_release.Adapter.Interface.{InstanceMetadata, start_action}
use bosh_lxd_cpi_release.Cpi.State.{Cpi, VmProperties, Network, hint_text}
use bosh_lxd_cpi_release.Cpi.Errors.{fail_if}
use bosh_lxd_cpi_release.Cpi.Devices.{
  disk_ephemeral_prefix, disk_device_ephemeral, attach_disk_device_to_vm,
}
use bosh_lxd_cpi_release.Cpi.Agent.{write_agent_file_to_vm}
use bosh_lxd_cpi_release.Cpi.Vm.{delete_vm}

-- `err != nil && !errors.Is(err, context.DeadlineExceeded)`
unfoldable pub is_fatal : Option Error → Bool
is_fatal none = false
is_fatal (some deadline_exceeded) = false
is_fatal (some e) = true

-- `return err`, where `err` may be nil
abbrev pub return_error : {W : Type 0} → Option Error → M W Done
return_error none = pure tt
return_error (some e) = fail e

-- A VM that is to be created, and what `CreateVMV2` was called with.
pub record CreateRequest : Type 0 where
  pub agent_id : String
  pub stemcell_cid : String
  pub cloud_props : VmProperties → Result VmProperties
  pub networks : Dict Network
  pub env : String

module _ {W E : Type 0} (c : Cpi W E) where
  -- `defer c.createVMLock.Unlock()`, if the lock was taken.
  unfoldable pub unlocking : Bool → M W Done → M W Done
  unlocking false m w = m w
  unlocking true m w = let (r, w') = m w in (r, (c.create_vm_lock.unlock w').1)

  unfoldable pub locked_creation : InstanceMetadata → M W Done
  unfolding unlocking is_fatal
  locked_creation meta = do
    (locked, e) ← c.create_vm_lock.try_lock c.create_vm_lock_timeout 10
    unlocking locked (if is_fatal e then return_error e else c.adapter.create_instance meta)

  unfoldable pub create_vm_with_lock : InstanceMetadata → M W Done
  unfolding locked_creation
  create_vm_with_lock meta =
      if c.config.server.create_vm_lock.enabled
      then locked_creation meta
      else c.adapter.create_instance meta

  -- An error of `m` is left in the `err` that the `defer` reads: the VM is deleted, and the
  -- result of that is dropped.
  unfoldable pub cleanup_on_error : {A : Type 0} → String → M W A → M W A
  cleanup_on_error vm_cid m w =
      let (r, w') = m w in
      elim r [
        | ok a ↦ (ok a, w')
        | err e ↦
            let (s, w'') = delete_vm c vm_cid w' in
            (elim s [ ok _ ↦ err e | err _ ↦ err e | panic ↦ panic ], w'')
        | panic ↦ (panic, w')
      ]

  -- The block `if vmProps.EphemeralDisk > 0`.
  unfoldable pub attach_new_ephemeral_disk : String → String → ℕ → E → M W E
  unfolding attach_disk_device_to_vm
  attach_new_ephemeral_disk vm_cid target size agent_env = do
    disk_id ← wrapped "Creating Disk id" c.uuid_gen
    let disk_cid = disk_ephemeral_prefix <> disk_id
    wrapped "Create ephemeral disk"
        (c.adapter.create_storage_pool_volume target c.config.server.storage_pool disk_cid size)
    wrapped "Attach ephemeral disk"
        (attach_disk_device_to_vm c vm_cid disk_device_ephemeral disk_cid)
    pure (c.library.attach_ephemeral_disk (hint_text "/dev/sdb") agent_env)

  unfoldable pub create_ephemeral_disk : String → String → ℕ → E → M W E
  unfolding attach_new_ephemeral_disk
  create_ephemeral_disk vm_cid target size agent_env =
      if ltb 0 size then attach_new_ephemeral_disk vm_cid target size agent_env else pure agent_env

  -- From the creation of the instance to the end.
  unfoldable pub provision :
      CreateRequest → String → Dict Network → ℕ → M W (String × Dict Network × Option Error)
  unfolding cleanup_on_error
  provision request vm_cid new_networks ephemeral_disk = do
    target ←
        cleanup_on_error vm_cid (wrapped "VM Location" (c.adapter.get_instance_location vm_cid))
    let agent_env =
        c.library.attach_system_disk (hint_text "/dev/sda")
          (c.library.for_vm request.agent_id vm_cid new_networks request.env c.config.agent)
    agent_env' ← create_ephemeral_disk vm_cid target ephemeral_disk agent_env
    cleanup_on_error vm_cid (wrapped "Write AgentEnv" (write_agent_file_to_vm c vm_cid agent_env'))
    started ← attempt (cleanup_on_error vm_cid (c.adapter.set_instance_action vm_cid start_action))
    pure (vm_cid, new_networks, elim started [ inl e ↦ some e | inr _ ↦ none ])

  unfoldable pub create_vm_v2 : CreateRequest → M W (String × Dict Network × Option Error)
  unfolding plan_networks select_instance_config create_vm_with_lock provision
  create_vm_v2 request = do
    c.adapter.is_connected
    id ← wrapped "Creating VM id" c.uuid_gen
    let the_cid = "vm-" <> id
    vm_props ← wrapped "Cloud Props" (
        lift (
          request.cloud_props (record {
            instance_type = "";
            ephemeral_disk = 0;
            target = c.config.server.target;
            network = c.config.server.network;
          })))
    managed ← wrapped "Managed Network" (c.adapter.is_managed_network vm_props.network)
    plan ← lift (
        plan_networks c.library managed vm_props.network c.config.server.managed_network_assignment
          (start_plan vm_props.target) request.networks)
    description ←
        wrapped ("find stemcell description for '" <> request.stemcell_cid <> "'")
          (c.adapter.get_stemcell_description request.stemcell_cid)
    instance_config ← lift (select_instance_config description c.config.server.instance_config)
    wrapped "Creating VM" (
        create_vm_with_lock (record {
          name = the_cid;
          stemcell_alias = request.stemcell_cid;
          instance_type = vm_props.instance_type;
          project = c.config.server.project;
          profiles = c.config.server.profile ∷ [];
          target = plan.target;
          devices = with_root_disk c.config.server.storage_pool plan.devices;
          config = instance_config;
        }))
    provision request the_cid plan.new_networks vm_props.ephemeral_disk

  -- `CreateVM`
  unfoldable pub create_vm : CreateRequest → M W (String × Option Error)
  unfolding create_vm_v2
  create_vm request = do (vm_cid, _, e) ← create_vm_v2 request; pure (vm_cid, e)
