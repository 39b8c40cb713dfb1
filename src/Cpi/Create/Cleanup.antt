-- ===== src/Cpi/Create/Cleanup.antt =====
-- What is left of a VM that `CreateVMV2` (`src/cpi/create_vm.go`) could not finish.
use bosh_lxd_cpi_release.Base.{ℕ, String, ◌≡◌, ◌⊎◌, Option, some, none, arith}
use bosh_lxd_cpi_release.Base.Dict.{Dict}
use bosh_lxd_cpi_release.Base.Go.{Error, wrap_error, Result, ok, err, panic}
use bosh_lxd_cpi_release.Adapter.Interface.{start_action}
use bosh_lxd_cpi_release.Cpi.State.{Cpi, Network, hint_text}
use bosh_lxd_cpi_release.Cpi.Agent.{write_agent_file_to_vm}
use bosh_lxd_cpi_release.Cpi.Vm.{delete_vm}
use bosh_lxd_cpi_release.Cpi.Create.{CreateRequest, create_ephemeral_disk, provision}

module _ {W E : Type 0} (c : Cpi W E) (request : CreateRequest) (vm_cid : String)
    (networks : Dict Network) (size : ℕ) where
  -- The environment that the agent is given before any disk of its own.
  abbrev pub first_env : E
  first_env =
      c.library.attach_system_disk (hint_text "/dev/sda")
        (c.library.for_vm request.agent_id vm_cid networks request.env c.config.agent)

  -- The instance was created, and a later step fails with an error that the `defer` sees: the
  -- look-up of the location, the agent's settings, or the start. The world is the one in which
  -- that step has failed.
  pub data FailsLate (w : W) : Error → W → Type 0 where
    at_location :
        {e : Error} {w' : W}
        → c.adapter.get_instance_location vm_cid w ≡ (err e, w')
        → FailsLate w (wrap_error e "VM Location") w'
    at_settings :
        {e : Error} {target : String} {env : E} {w₁ w₂ w' : W}
        → c.adapter.get_instance_location vm_cid w ≡ (ok target, w₁)
        → create_ephemeral_disk c vm_cid target size first_env w₁ ≡ (ok env, w₂)
        → write_agent_file_to_vm c vm_cid env w₂ ≡ (err e, w')
        → FailsLate w (wrap_error e "Write AgentEnv") w'
    at_start :
        {e : Error} {target : String} {env : E} {w₁ w₂ w₃ w' : W}
        → c.adapter.get_instance_location vm_cid w ≡ (ok target, w₁)
        → create_ephemeral_disk c vm_cid target size first_env w₁ ≡ (ok env, w₂)
        → write_agent_file_to_vm c vm_cid env w₂ ≡ (ok tt, w₃)
        → c.adapter.set_instance_action vm_cid start_action w₃ ≡ (err e, w')
        → FailsLate w e w'

  -- The error that a result reports.
  abbrev pub reported : Result (String × Dict Network × Option Error) → Option Error
  reported (ok (_, _, e)) = e
  reported (err e) = some e
  reported panic = none

  -- After the creation of the instance, a failure of the look-up of its location, of the writing of
  -- the agent's settings or of the start makes CreateVMV2 call DeleteVM, and the failure's own
  -- error is what the caller gets, unless the deletion panics.
  pub provision-deletes :
      {w w' : W} {e : Error}
      → FailsLate w e w'
      → ((provision c request vm_cid networks size w).1 ≡ (delete_vm c vm_cid w').1)
        × ((reported (provision c request vm_cid networks size w).0 ≡ some e)
            ⊎ ((delete_vm c vm_cid w').0 ≡ panic))
  unfolding provision
  provision-deletes (at_location h) = ground arith
  provision-deletes (at_settings h k f) = ground arith
  provision-deletes (at_start h k l f) = ground arith
