-- ===== src/Cpi/Create/Plan/Nics.antt =====
-- The devices that the loop over the networks of `CreateVMV2` (`src/cpi/create_vm.go`) plans.
use bosh_lxd_cpi_release.Base.{
  ℕ, zero, suc, ◌+◌, ◌≤◌, String, Bool, Option, none, some, ◌≡◌, ◌≢◌, refl, ap, ◌∙◌, inl, inr, [],
  ◌∷◌, length, ◌<>◌, if◌then◌else◌, arith, eq_iff, ◌=ℕ◌,
}
use bosh_lxd_cpi_release.Base.Text.{decimal}
use bosh_lxd_cpi_release.Base.Text.Decimal.{eth-injective, eth-root}
use bosh_lxd_cpi_release.Base.Dict.{Dict, lookup, insert, lookup-insert, length-insert_fresh}
use bosh_lxd_cpi_release.Base.Go.{Result, ok, err, panic, Result-cases}
use bosh_lxd_cpi_release.Adapter.Interface.{Device, Devices}
use bosh_lxd_cpi_release.Cpi.State.{Library, Network}
use bosh_lxd_cpi_release.Cpi.Create.Plan.{
  NetworkPlan, start_plan, nic_settings, after_target, merge_targets, plan_network, plan_networks,
  with_root_disk,
}

abbrev pub nic_name : ℕ → String
nic_name i = "eth" <> decimal i

-- The network that the loop comes to after `i` others.
abbrev pub network_at : ℕ → Dict Network → Option Network
network_at i [] = none
network_at zero ((key, net) ∷ networks) = some net
network_at (suc i) ((key, net) ∷ networks) = network_at i networks

module _ {E : Type 0} (library : Library E) (managed : Bool) (parent assignment : String) where
  abbrev nic : ℕ → Network → Device
  nic i net = nic_settings library managed parent assignment (nic_name i) net

  plan_network-devices :
      (key : String) (net : Network) (plan plan' : NetworkPlan)
      → plan_network library managed parent assignment key net plan ≡ ok plan'
      → (plan'.devices ≡ insert (nic_name plan.eth) (nic plan.eth net) plan.devices)
        × (plan'.eth ≡ suc plan.eth)
  unfolding plan_network after_target
  plan_network-devices key net plan plan' h =
      go (if managed then merge_targets plan.target net.cloud_target else ok plan.target) h
    where
      go :
          (r : Result String)
          → after_target library managed parent assignment key net plan r ≡ ok plan'
          → (plan'.devices ≡ insert (nic_name plan.eth) (nic plan.eth net) plan.devices)
            × (plan'.eth ≡ suc plan.eth)
      go (ok t) e = ground arith
      go (err x) e = cc
      go panic e = cc

  -- What the loop makes of the devices: it leaves other names, adds a device for each network
  -- under the next name, and no more.
  abbrev Adds : Dict Network → NetworkPlan → NetworkPlan → Type 0
  Adds networks plan plan' =
      ((name : String)
        → ((i : ℕ) → plan.eth ≤ i → nic_name i ≢ name)
        → lookup name plan'.devices ≡ lookup name plan.devices)
      × ((i : ℕ) (net : Network)
          → network_at i networks ≡ some net
          → lookup (nic_name (plan.eth + i)) plan'.devices ≡ some (nic (plan.eth + i) net))
      × (((i : ℕ) → plan.eth ≤ i → lookup (nic_name i) plan.devices ≡ none)
          → length plan'.devices ≡ length plan.devices + length networks)

  lookup-nil : (k : String) → lookup {V = Device} k [] ≡ none
  unfolding lookup
  lookup-nil k = refl

  lookup-nic :
      (j k : ℕ) (d : Device) (devices : Devices)
      → lookup (nic_name k) (insert (nic_name j) d devices)
        ≡ (if j =ℕ k then some d else lookup (nic_name k) devices)
  lookup-nic j k d devices = ground (
    arith,
    eq_iff (nic_name j) (nic_name k),
    eth-injective j k,
    ap nic_name {x = j} {y = k},
    lookup-insert (nic_name j) (nic_name k) d devices,
  )

  module _ (key : String) (net : Network) (networks : Dict Network) (plan mid plan' : NetworkPlan)
      (devices : mid.devices ≡ insert (nic_name plan.eth) (nic plan.eth net) plan.devices)
      (eth : mid.eth ≡ suc plan.eth) (adds : Adds networks mid plan') where
    first-keeps :
        (name : String)
        → ((i : ℕ) → plan.eth ≤ i → nic_name i ≢ name)
        → lookup name plan'.devices ≡ lookup name plan.devices
    first-keeps name other =
        adds.0 name (λ i late. other i (omega (arith, eth)))
        ∙ ap (lookup name) devices
        ∙ ground (
          arith,
          eq_iff (nic_name plan.eth) name,
          other plan.eth (omega arith),
          lookup-insert (nic_name plan.eth) name (nic plan.eth net) plan.devices,
        )

    first-found : (j : ℕ) → j ≡ plan.eth → lookup (nic_name j) plan'.devices ≡ some (nic j net)
    first-found j same =
        adds.0 (nic_name j) (λ i late e. ground (arith, eth-injective i j e))
        ∙ ap (lookup (nic_name j)) devices
        ∙ lookup-nic plan.eth j (nic plan.eth net) plan.devices
        ∙ ground (arith, ap (λ k. nic k net) same)

    first-Finds :
        (i : ℕ) (found : Network)
        → network_at i ((key, net) ∷ networks) ≡ some found
        → lookup (nic_name (plan.eth + i)) plan'.devices ≡ some (nic (plan.eth + i) found)
    first-Finds zero found h = first-found (plan.eth + 0) (omega arith) ∙ cc
    first-Finds (suc i) found h =
        let shift : plan.eth + suc i ≡ mid.eth + i = omega (arith, eth) in
        rw shift (adds.1 i found h)

    first-counts :
        ((i : ℕ) → plan.eth ≤ i → lookup (nic_name i) plan.devices ≡ none)
        → length plan'.devices ≡ length plan.devices + length ((key, net) ∷ networks)
    first-counts fresh =
        let later : (i : ℕ) → mid.eth ≤ i → lookup (nic_name i) mid.devices ≡ none = λ i late.
          ap (lookup (nic_name i)) devices
          ∙ lookup-nic plan.eth i (nic plan.eth net) plan.devices
          ∙ ground (arith, fresh i (omega (arith, eth)), eth) in
        omega (
          arith,
          adds.2 later,
          ap length devices,
          length-insert_fresh (nic_name plan.eth) (nic plan.eth net) plan.devices
              (fresh plan.eth (omega arith)),
        )

    first-Adds : Adds ((key, net) ∷ networks) plan plan'
    first-Adds = (first-keeps, first-Finds, first-counts)

  plan_networks-Adds :
      (networks : Dict Network) (plan plan' : NetworkPlan)
      → plan_networks library managed parent assignment plan networks ≡ ok plan'
      → Adds networks plan plan'
  unfolding plan_networks
  plan_networks-Adds [] plan plan' h =
      (λ name other. ground arith, λ i net e. cc, λ fresh. ground arith)
  plan_networks-Adds ((key, net) ∷ networks) plan plan' h =
      elim (Result-cases (plan_network library managed parent assignment key net plan)) [
        | inl (mid, e) ↦
            let (devices, eth) = plan_network-devices key net plan mid e in
            first-Adds key net networks plan mid plan' devices eth
              (plan_networks-Adds networks mid plan' (ground arith))
        | inr (inl (x, e)) ↦ ground arith
        | inr (inr e) ↦ ground arith
      ]

  -- If the loop over the networks succeeds, the instance gets one device for each network, named
  -- eth0, eth1 and so on in the order in which the loop visits them and with that network's
  -- settings, beside the root disk, and no other; no device takes another's name.
  pub plan_networks-nics :
      (networks : Dict Network) (target pool : String) (plan' : NetworkPlan)
      → plan_networks library managed parent assignment (start_plan target) networks ≡ ok plan'
      → let devices = with_root_disk pool plan'.devices in
        ((i : ℕ) (net : Network)
          → network_at i networks ≡ some net
          → lookup (nic_name i) devices
            ≡ some (nic_settings library managed parent assignment (nic_name i) net))
        × (lookup "root" devices ≡ some (("type", "disk") ∷ ("pool", pool) ∷ ("path", "/") ∷ []))
        × (length devices ≡ suc (length networks))
  unfolding with_root_disk
  plan_networks-nics networks target pool plan' h =
      let (frame, finds, counts) = plan_networks-Adds networks (start_plan target) plan' h in
      let root : Device = ("type", "disk") ∷ ("pool", pool) ∷ ("path", "/") ∷ [] in
      let no_root : lookup "root" plan'.devices ≡ none =
        frame "root" (λ i late. eth-root i) ∙ lookup-nil "root" in
      (
        λ i net at.
            let start : 0 + i ≡ i = omega arith in
            lookup-insert "root" (nic_name i) root plan'.devices
            ∙ ground (arith, eq_iff "root" (nic_name i), eth-root i, rw start at (finds i net at)),
        lookup-insert "root" "root" root plan'.devices,
        omega (
          arith,
          counts (λ i late. lookup-nil (nic_name i)),
          length-insert_fresh "root" root plan'.devices no_root,
        ),
      )
