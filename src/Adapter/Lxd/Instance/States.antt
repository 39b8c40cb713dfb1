-- ===== src/Adapter/Lxd/Instance/States.antt =====
-- The actions on an instance, in `src/adapter/lxd/instance.go`.
use bosh_lxd_cpi_release.Base.{ℕ, String, true, false, Bool-cases, ◌≡◌, ◌⊎◌, ◌↔◌, inl, inr, arith}
use bosh_lxd_cpi_release.Base.Go.{ok}
use bosh_lxd_cpi_release.Adapter.Interface.{
  Action, start_action, stop_action, restart_action, action_text,
}
use bosh_lxd_cpi_release.Adapter.Client.{
  Client, InstanceStatePut, started, stopped, running, starting, stopping,
}
use bosh_lxd_cpi_release.Adapter.Lxd.Wait.{wait}
use bosh_lxd_cpi_release.Adapter.Lxd.Instance.{at_requested_state, set_instance_action}

-- The states in which an action has nothing left to do.
abbrev pub IsDone : Action → ℕ → Type 0
IsDone start_action code = (code ≡ started) ⊎ (code ≡ starting) ⊎ (code ≡ running)
IsDone stop_action code = (code ≡ stopped) ⊎ (code ≡ stopping)
IsDone restart_action code = ⊥

abbrev pub state_change : Action → InstanceStatePut
state_change action = record {
  action = action_text action;
  timeout = 30;
  force = true;
  stateful = false;
}

at_requested_state_iff :
    (action : Action) (code : ℕ)
    → (at_requested_state (action_text action) code ≡ true) ↔ IsDone action code
unfolding at_requested_state
at_requested_state_iff start_action code = ground arith
at_requested_state_iff stop_action code = ground arith
at_requested_state_iff restart_action code = ground arith

module _ {W : Type 0} (c : Client W) (name : String) where
  -- An action in whose state the instance already is sends nothing; any other sends one forced
  -- change of the state and waits for it; a restart is always sent.
  pub set_instance_action_lem :
      (action : Action) {code : ℕ} {w w₁ : W}
      → c.get_instance_state name w ≡ (ok code, w₁)
      → (IsDone action code × (set_instance_action c name action w ≡ (ok tt, w₁)))
        ⊎ (¬ (IsDone action code)
            × (set_instance_action c name action w
                ≡ wait c (c.update_instance_state name (state_change action) "") w₁))
  unfolding set_instance_action
  set_instance_action_lem action {code} h =
      elim (Bool-cases (at_requested_state (action_text action) code)) [
        | inl there ↦ inl ((at_requested_state_iff action code).0 there, ground arith)
        | inr away ↦ inr ((λ d. cc ((at_requested_state_iff action code).1 d)), ground arith)
      ]
