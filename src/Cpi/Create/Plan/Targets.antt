-- ===== src/Cpi/Create/Plan/Targets.antt =====
-- The loop over the networks in `CreateVMV2` (`src/cpi/create_vm.go`).
use bosh_lxd_cpi_release.Base.{String, true, ◌≡◌, ◌⊎◌, inl, inr, [], ◌∷◌, All, arith, eq_iff}
use bosh_lxd_cpi_release.Base.Dict.{Dict}
use bosh_lxd_cpi_release.Base.Go.{Result, ok, err, panic, Result-cases}
use bosh_lxd_cpi_release.Cpi.State.{Library, Network}
use bosh_lxd_cpi_release.Cpi.Create.Plan.{
  NetworkPlan, after_target, merge_targets, plan_network, plan_networks,
}

merge_targets-ok :
    (a b t : String) → merge_targets a b ≡ ok t → ((b ≡ "") ⊎ (b ≡ t)) × ((a ≡ "") ⊎ (a ≡ t))
unfolding merge_targets
merge_targets-ok a b t h = ground (arith, eq_iff a "", eq_iff b "", eq_iff a b)

module _ {E : Type 0} (library : Library E) (parent assignment : String) where
  plan_network-target :
      (key : String) (net : Network) (plan plan' : NetworkPlan)
      → plan_network library true parent assignment key net plan ≡ ok plan'
      → merge_targets plan.target net.cloud_target ≡ ok plan'.target
  unfolding plan_network
  plan_network-target key net plan plan' h = go (merge_targets plan.target net.cloud_target) h
    where
      go :
          (r : Result String)
          → after_target library true parent assignment key net plan r ≡ ok plan'
          → r ≡ ok plan'.target
      go (ok t) e = ground arith
      go (err x) e = cc
      go panic e = cc

  -- The networks agree on a target: it is what each of them asks for, if it asks at all, and what
  -- the VM itself asked for, if it did.
  abbrev pub AgreeOn : String → String → Dict Network → Type 0
  AgreeOn target vm_target networks =
      ((vm_target ≡ "") ⊎ (vm_target ≡ target))
      × All
          (λ (entry : String × Network).
            (entry.1.cloud_target ≡ "") ⊎ (entry.1.cloud_target ≡ target))
          networks

  -- If the loop over the networks succeeds on a managed network, all networks that name a target,
  -- and the VM itself if it does, name the same one, and it is the target that the VM is created
  -- on.
  pub plan_networks-AgreeOn :
      (networks : Dict Network) (plan plan' : NetworkPlan)
      → plan_networks library true parent assignment plan networks ≡ ok plan'
      → AgreeOn plan'.target plan.target networks
  unfolding plan_networks
  plan_networks-AgreeOn [] plan plan' h = ground arith
  plan_networks-AgreeOn ((key, net) ∷ networks) plan plan' h =
      elim (Result-cases (plan_network library true parent assignment key net plan)) [
        | inl (mid, e) ↦ ground (
          arith,
          merge_targets-ok plan.target net.cloud_target mid.target
              (plan_network-target key net plan mid e),
          plan_networks-AgreeOn networks mid plan',
        )
        | inr (inl (x, e)) ↦ ground arith
        | inr (inr e) ↦ ground arith
      ]
