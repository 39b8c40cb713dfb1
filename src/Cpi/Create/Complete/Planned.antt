-- ===== src/Cpi/Create/Complete/Planned.antt =====
-- What a successful `CreateVMV2` (`src/cpi/create_vm.go`) has asked for from its plan on.
use bosh_lxd_cpi_release.Base.{
  ℕ, String, Bool, ◌≡◌, sym, ap, ◌∙◌, Option, none, List, [], ◌∷◌, ◌<>◌, arith,
}
use bosh_lxd_cpi_release.Base.Dict.{Dict}
use bosh_lxd_cpi_release.Base.Go.{Error, Result, ok, M, lift, wrapped, bind-ok, ◌>>=◌, ◌>>◌}
use bosh_lxd_cpi_release.Adapter.Interface.{InstanceMetadata}
use bosh_lxd_cpi_release.Cpi.State.{Cpi, Network, VmProperties}
use bosh_lxd_cpi_release.Cpi.Requests.{
  Request, create_instance, Logged, logged_cpi, quietly, quiet-ok, quietly-ok,
}
use bosh_lxd_cpi_release.Cpi.Create.Plan.{
  NetworkPlan, plan_networks, start_plan, with_root_disk, select_instance_config,
}
use bosh_lxd_cpi_release.Cpi.Create.{CreateRequest, create_vm_with_lock, provision}
use bosh_lxd_cpi_release.Cpi.Create.Complete.{Provisions, settings_of, provision-Provisions}

abbrev pub Created : Type 0
Created = String × Dict Network × Option Error

module _ {W E : Type 0} (c : Cpi W E) (request : CreateRequest) where
  -- The lock is no request.
  create_vm_with_lock-asks :
      (message : String) (meta : InstanceMetadata) (s s' : Logged W)
      → wrapped message (create_vm_with_lock (logged_cpi c) meta) s ≡ (ok tt, s')
      → s'.requests ≡ create_instance meta ∷ s.requests
  unfolding create_vm_with_lock
  create_vm_with_lock-asks message meta s s' h = ground arith

  provision-cid :
      (vm_cid vm : String) (networks networks' : Dict Network) (size : ℕ) (e : Option Error)
      (s s' : Logged W)
      → provision (logged_cpi c) request vm_cid networks size s ≡ (ok (vm, networks', e), s')
      → (vm ≡ vm_cid) × (networks ≡ networks')
  unfolding provision
  provision-cid vm_cid vm networks networks' size e s s' h = ground arith

  abbrev meta_of : String → VmProperties → NetworkPlan → Dict String → InstanceMetadata
  meta_of the_cid vm_props plan config = record {
    name = the_cid;
    stemcell_alias = request.stemcell_cid;
    instance_type = vm_props.instance_type;
    project = c.config.server.project;
    profiles = c.config.server.profile ∷ [];
    target = plan.target;
    devices = with_root_disk c.config.server.storage_pool plan.devices;
    config = config;
  }

  -- The chain from the creation of the instance on, from the description of the stemcell on, and
  -- so on outwards.
  abbrev creating : String → VmProperties → NetworkPlan → Dict String → M (Logged W) Created
  creating the_cid vm_props plan config =
      wrapped "Creating VM"
        (create_vm_with_lock (logged_cpi c) (meta_of the_cid vm_props plan config))
      >> provision (logged_cpi c) request the_cid plan.new_networks vm_props.ephemeral_disk

  abbrev describing : String → VmProperties → NetworkPlan → M (Logged W) Created
  describing the_cid vm_props plan =
      wrapped ("find stemcell description for '" <> request.stemcell_cid <> "'")
        (quietly (c.adapter.get_stemcell_description request.stemcell_cid))
      >>= λ description.
          lift (select_instance_config description c.config.server.instance_config)
          >>= creating the_cid vm_props plan

  abbrev pub planning : String → VmProperties → M (Logged W) Created
  planning the_cid vm_props =
      wrapped "Managed Network" (quietly (c.adapter.is_managed_network vm_props.network))
      >>= λ managed.
          lift (
            plan_networks c.library managed vm_props.network
              c.config.server.managed_network_assignment (start_plan vm_props.target)
              request.networks)
          >>= describing the_cid vm_props

  -- The requests (newest first) of the creation of `vm` after `earlier`, from the world `u` on: the
  -- description of the stemcell asked for was read, and an instance of that name was asked for, with
  -- the configuration that is chosen by that description and the plan's devices and target; then
  -- what makes it run, with an ephemeral disk of the size that the VM's properties name.
  abbrev pub DescribesVm :
      String
      → VmProperties
      → NetworkPlan
      → String
      → Dict Network
      → W
      → List Request
      → List Request
      → Type 0
  DescribesVm the_cid vm_props plan vm networks u earlier rs =
      (description : String) × (config : Dict String) × (u₁ : W)
      × (c.adapter.get_stemcell_description request.stemcell_cid u ≡ (ok description, u₁))
      × (select_instance_config description c.config.server.instance_config ≡ ok config)
      × (the_cid ≡ vm)
      × (plan.new_networks ≡ networks)
      × Provisions c the_cid vm_props.ephemeral_disk (settings_of c the_cid request networks)
          (create_instance (meta_of the_cid vm_props plan config) ∷ earlier) rs

  -- The same, where the plan is the one for the networks asked for, on a network that was reported
  -- to be managed or not.
  abbrev pub PlansVm :
      String → VmProperties → String → Dict Network → W → List Request → List Request → Type 0
  PlansVm the_cid vm_props vm networks u earlier rs =
      (managed : Bool) × (plan : NetworkPlan) × (u₁ : W) × (c.adapter.is_managed_network
          vm_props.network u
        ≡ (ok managed, u₁))
      × (plan_networks c.library managed vm_props.network c.config.server.managed_network_assignment
            (start_plan vm_props.target) request.networks
          ≡ ok plan)
      × DescribesVm the_cid vm_props plan vm networks u₁ earlier rs

  Provisions-same :
      (vm : String) (size : ℕ) (networks networks' : Dict Network)
      (earlier earlier' rs : List Request)
      → networks ≡ networks'
      → earlier' ≡ earlier
      → Provisions c vm size (settings_of c vm request networks) earlier' rs
      → Provisions c vm size (settings_of c vm request networks') earlier rs
  Provisions-same vm size networks networks' earlier earlier' rs same same' h =
      rw (same, same') at h

  pub lift-ok :
      {A : Type 0} (r : Result A) (s s' : Logged W) {a : A}
      → lift r s ≡ (ok a, s')
      → (r ≡ ok a) × (s'.requests ≡ s.requests) × (s'.world ≡ s.world)
  lift-ok r s s' h = (ap (λ p. p.0) h, sym (ap (λ p. p.1.requests) h), sym (ap (λ p. p.1.world) h))

  DescribesVm-same :
      (the_cid : String) (vm_props : VmProperties) (plan : NetworkPlan) (vm : String)
      (networks : Dict Network) (u u' : W) (earlier earlier' rs : List Request)
      → u' ≡ u
      → earlier' ≡ earlier
      → DescribesVm the_cid vm_props plan vm networks u' earlier' rs
      → DescribesVm the_cid vm_props plan vm networks u earlier rs
  DescribesVm-same the_cid vm_props plan vm networks u u' earlier earlier' rs same same' h =
      rw (same, same') at h

  pub PlansVm-same :
      (the_cid : String) (vm_props : VmProperties) (vm : String) (networks : Dict Network)
      (u u' : W) (earlier earlier' rs : List Request)
      → u' ≡ u
      → earlier' ≡ earlier
      → PlansVm the_cid vm_props vm networks u' earlier' rs
      → PlansVm the_cid vm_props vm networks u earlier rs
  PlansVm-same the_cid vm_props vm networks u u' earlier earlier' rs same same' h =
      rw (same, same') at h

  describing-CreatesVm :
      (the_cid : String) (vm_props : VmProperties) (plan : NetworkPlan) (vm : String)
      (networks : Dict Network) (s s' : Logged W)
      → describing the_cid vm_props plan s ≡ (ok (vm, networks, none), s')
      → DescribesVm the_cid vm_props plan vm networks s.world s.requests s'.requests
  describing-CreatesVm the_cid vm_props plan vm networks s s' h =
      let message : String = "find stemcell description for '" <> request.stemcell_cid <> "'" in
      let choose : String → Result (Dict String) =
        λ description. select_instance_config description c.config.server.instance_config in
      let (description, s₁, e₁, h₁) =
        bind-ok
          (wrapped message (quietly (c.adapter.get_stemcell_description request.stemcell_cid)))
          (λ description. lift (choose description) >>= creating the_cid vm_props plan) s h in
      let (config, s₂, e₂, h₂) =
        bind-ok (lift (choose description)) (creating the_cid vm_props plan) s₁ h₁ in
      let (chosen, same₂, _) = lift-ok (choose description) s₁ s₂ e₂ in
      let meta : InstanceMetadata = meta_of the_cid vm_props plan config in
      let (_, s₃, e₃, h₃) =
        bind-ok (wrapped "Creating VM" (create_vm_with_lock (logged_cpi c) meta))
          (λ _. provision (logged_cpi c) request the_cid plan.new_networks vm_props.ephemeral_disk)
          s₂ h₂ in
      let (named, reported) =
        provision-cid the_cid vm plan.new_networks networks vm_props.ephemeral_disk none s₃ s' h₃ in
      let asked : s₃.requests ≡ create_instance meta ∷ s.requests =
        create_vm_with_lock-asks "Creating VM" meta s₂ s₃ e₃
        ∙ ap (λ l. create_instance meta ∷ l)
            (same₂
              ∙ quiet-ok message (c.adapter.get_stemcell_description request.stemcell_cid) s s₁
                  e₁) in
      let rest =
        provision-Provisions c the_cid request plan.new_networks networks vm_props.ephemeral_disk s₃
          s' (rw named at h₃) in
      let read =
        quietly-ok message (c.adapter.get_stemcell_description request.stemcell_cid) s s₁ e₁ in
      (
        description,
        config,
        s₁.world,
        read,
        chosen,
        sym named,
        reported,
        Provisions-same the_cid vm_props.ephemeral_disk plan.new_networks networks
            (create_instance meta ∷ s.requests) s₃.requests s'.requests reported asked rest,
      )

  pub planning-CreatesVm :
      (the_cid : String) (vm_props : VmProperties) (vm : String) (networks : Dict Network)
      (s s' : Logged W)
      → planning the_cid vm_props s ≡ (ok (vm, networks, none), s')
      → PlansVm the_cid vm_props vm networks s.world s.requests s'.requests
  planning-CreatesVm the_cid vm_props vm networks s s' h =
      let plans : Bool → Result NetworkPlan = λ managed.
        plan_networks c.library managed vm_props.network c.config.server.managed_network_assignment
          (start_plan vm_props.target) request.networks in
      let (managed, s₁, e₁, h₁) =
        bind-ok
          (wrapped "Managed Network" (quietly (c.adapter.is_managed_network vm_props.network)))
          (λ managed. lift (plans managed) >>= describing the_cid vm_props) s h in
      let (plan, s₂, e₂, h₂) = bind-ok (lift (plans managed)) (describing the_cid vm_props) s₁ h₁ in
      let same : s₂.requests ≡ s.requests =
        (lift-ok (plans managed) s₁ s₂ e₂).1
        ∙ quiet-ok "Managed Network" (c.adapter.is_managed_network vm_props.network) s s₁ e₁ in
      let planned = lift-ok (plans managed) s₁ s₂ e₂ in
      (
        managed,
        plan,
        s₁.world,
        quietly-ok "Managed Network" (c.adapter.is_managed_network vm_props.network) s s₁ e₁,
        planned.0,
        DescribesVm-same the_cid vm_props plan vm networks s₁.world s₂.world s.requests s₂.requests
            s'.requests planned.2 same
            (describing-CreatesVm the_cid vm_props plan vm networks s₂ s' h₂),
      )
