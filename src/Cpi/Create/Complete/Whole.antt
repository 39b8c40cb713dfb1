-- ===== src/Cpi/Create/Complete/Whole.antt =====
-- What a successful `CreateVMV2` (`src/cpi/create_vm.go`) has asked for, from its beginning on.
use bosh_lxd_cpi_release.Base.{String, ◌≡◌, sym, ap, ◌∙◌, none, List, [], ◌<>◌}
use bosh_lxd_cpi_release.Base.Dict.{Dict}
use bosh_lxd_cpi_release.Base.Go.{ok, M, lift, wrapped, bind-ok, wrapped-ok, ◌>>=◌}
use bosh_lxd_cpi_release.Cpi.State.{Cpi, Network, VmProperties}
use bosh_lxd_cpi_release.Cpi.Requests.{
  Request, Logged, begin, logged_cpi, quietly, quiet-ok, quietly-ok,
}
use bosh_lxd_cpi_release.Cpi.Create.{CreateRequest, create_vm_v2}
use bosh_lxd_cpi_release.Cpi.Create.Complete.Planned.{
  Created, planning, PlansVm, PlansVm-same, planning-CreatesVm, lift-ok,
}

module _ {W E : Type 0} (c : Cpi W E) (request : CreateRequest) where
  abbrev server_props : VmProperties
  server_props = record {
    instance_type = "";
    ephemeral_disk = 0;
    target = c.config.server.target;
    network = c.config.server.network;
  }

  -- That the CID is made of an id that was generated, that the properties are the ones that the
  -- request's cloud properties are read as over the server's, and that `vm` was created with them.
  abbrev pub CreatesVm : W → String → Dict Network → List Request → Type 0
  CreatesVm w vm networks rs =
      (id : String) × (u u₁ : W) × (vm_props : VmProperties) × (c.uuid_gen u ≡ (ok id, u₁))
      × (u ≡ (c.adapter.is_connected w).1)
      × (request.cloud_props server_props ≡ ok vm_props)
      × PlansVm c request ("vm-" <> id) vm_props vm networks u₁ [] rs

  -- A CreateVMV2 that reports success has asked first for one instance, named as the CID that it
  -- returns, which is made of a generated id; it is of the type that the cloud properties name,
  -- from the stemcell asked for, with the configuration that is chosen by that stemcell's
  -- description and with the devices and the target that the plan for the networks asked for has.
  -- Then, in this order, it has asked for the making, where the instance was reported to be, and
  -- attachment of an ephemeral disk of the size that the cloud properties name, if that is not
  -- zero, and of a configuration disk in the place of an older one, if there is one, with an image
  -- of the settings for this VM, the plan's networks, which it returns, and that ephemeral disk;
  -- then for the start; and for nothing else.
  pub create_vm_v2-CreatesVm :
      (vm : String) (networks : Dict Network) (w : W) (s' : Logged W)
      → create_vm_v2 (logged_cpi c) request (begin w) ≡ (ok (vm, networks, none), s')
      → CreatesVm w vm networks s'.requests
  unfolding create_vm_v2
  create_vm_v2-CreatesVm vm networks w s' h =
      let named : String → M (Logged W) Created = λ id.
        wrapped "Cloud Props" (lift (request.cloud_props server_props))
        >>= planning c request ("vm-" <> id) in
      let (_, s₁, e₁, h₁) =
        bind-ok (quietly c.adapter.is_connected)
          (λ _. wrapped "Creating VM id" (quietly c.uuid_gen) >>= named) (begin w) h in
      let (id, s₂, e₂, h₂) = bind-ok (wrapped "Creating VM id" (quietly c.uuid_gen)) named s₁ h₁ in
      let (vm_props, s₃, e₃, h₃) =
        bind-ok (wrapped "Cloud Props" (lift (request.cloud_props server_props)))
          (planning c request ("vm-" <> id)) s₂ h₂ in
      let props =
        lift-ok c request (request.cloud_props server_props) s₂ s₃
          (wrapped-ok "Cloud Props" (lift (request.cloud_props server_props)) s₂ e₃) in
      let same : s₃.requests ≡ [] =
        props.1 ∙ quiet-ok "Creating VM id" c.uuid_gen s₁ s₂ e₂ ∙ sym (ap (λ p. p.1.requests) e₁) in
      (
        id,
        s₁.world,
        s₂.world,
        vm_props,
        quietly-ok "Creating VM id" c.uuid_gen s₁ s₂ e₂,
        sym (ap (λ p. p.1.world) e₁),
        props.0,
        PlansVm-same c request ("vm-" <> id) vm_props vm networks s₂.world s₃.world [] s₃.requests
            s'.requests props.2 same
            (planning-CreatesVm c request ("vm-" <> id) vm_props vm networks s₃ s' h₃),
      )
