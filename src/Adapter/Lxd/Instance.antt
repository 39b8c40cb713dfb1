-- ===== src/Adapter/Lxd/Instance.antt =====
-- `src/adapter/lxd/instance.go`
pub mod States
use bosh_lxd_cpi_release.Base.{
  ℕ, String, Bool, true, false, List, [], ◌∷◌, ◌==◌, ◌=ℕ◌, if◌then◌else◌,
}
use bosh_lxd_cpi_release.Base.Go.{M, pure, Done, ◌>>=◌}
use bosh_lxd_cpi_release.Adapter.Interface.{InstanceMetadata, Action, action_text}
use bosh_lxd_cpi_release.Adapter.Client.{
  Client, Handle, plain, use_target, InstancePut, InstancesPost, instance_type_vm, started, stopped,
  running, starting, stopping,
}
use bosh_lxd_cpi_release.Adapter.Lxd.Wait.{wait}

-- `if target != "" { c = c.UseTarget(target) }`
abbrev pub handle_for : String → Handle
handle_for target = if target == "" then plain else use_target target

unfoldable pub instances_post : InstanceMetadata → InstancesPost
instances_post meta = record {
  put = record {
    architecture = "";
    config = meta.config;
    devices = meta.devices;
    ephemeral = false;
    profiles = meta.profiles;
    stateful = false;
    description = "";
  };
  name = meta.name;
  instance_type = meta.instance_type;
  source = record { source_type = "image"; alias = meta.stemcell_alias; project = meta.project };
  post_type = instance_type_vm;
}

unfoldable pub has_match : ℕ → List ℕ → Bool
has_match actual [] = false
has_match actual (expected ∷ values) = if actual =ℕ expected then true else has_match actual values

-- The `switch` of `isVMAtRequestedState`.
unfoldable pub at_requested_state : String → ℕ → Bool
unfolding has_match
at_requested_state state status_code =
    if state == "stop"
    then has_match status_code (stopped ∷ stopping ∷ [])
    else if state == "start"
    then has_match status_code (started ∷ starting ∷ running ∷ [])
    else false

abbrev pub with_description : String → InstancePut → InstancePut
with_description text put = record put { description = text }

module _ {W : Type 0} (c : Client W) where
  unfoldable pub create_instance : InstanceMetadata → M W Done
  unfolding instances_post
  create_instance meta = wait c (c.create_instance (handle_for meta.target) (instances_post meta))

  unfoldable pub delete_instance : String → M W Done
  delete_instance name = wait c (c.delete_instance name)

  unfoldable pub get_instance_location : String → M W String
  get_instance_location name = do (instance, _) ← c.get_instance name; pure instance.location

  unfoldable pub update_instance_description : String → String → M W Done
  update_instance_description name new_description = do
    (instance, etag) ← c.get_instance name
    wait c (c.update_instance name (with_description new_description instance.put) etag)

  unfoldable pub is_vm_at_requested_state : String → String → M W Bool
  is_vm_at_requested_state instance_name state = do
    status_code ← c.get_instance_state instance_name
    pure (at_requested_state state status_code)

  unfoldable pub set_instance_action : String → Action → M W Done
  unfolding is_vm_at_requested_state
  set_instance_action instance_name action = do
    at_current_state ← is_vm_at_requested_state instance_name (action_text action)
    if at_current_state
        then pure tt
        else wait c (
            c.update_instance_state instance_name
              (record { action = action_text action; timeout = 30; force = true; stateful = false })
              "")

  unfoldable pub is_instance_stopped : String → M W Bool
  unfolding is_vm_at_requested_state
  is_instance_stopped instance_name = is_vm_at_requested_state instance_name "stop"
