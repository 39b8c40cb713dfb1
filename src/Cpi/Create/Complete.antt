-- ===== src/Cpi/Create/Complete.antt =====
-- What a successful `CreateVMV2` (`src/cpi/create_vm.go`) has asked for once the instance was there.
pub mod Planned
pub mod Whole
use bosh_lxd_cpi_release.Base.{
  ℕ, String, true, false, ltb, ◌≡◌, refl, sym, ap, ◌∙◌, ◌⊎◌, inl, inr, Option, none, some, List, [],
  ◌∷◌, ◌++◌, ◌<>◌, arith, Bool-cases, if◌then◌else◌, ◌<◌,
}
use bosh_lxd_cpi_release.Base.Dict.{Dict}
use bosh_lxd_cpi_release.Base.Go.{
  Error, Result, ok, err, panic, M, Done, pure, attempt, wrapped, bind-ok, wrapped-ok, ◌>>=◌, ◌>>◌,
}
use bosh_lxd_cpi_release.Adapter.Interface.{start_action}
use bosh_lxd_cpi_release.Cpi.State.{Cpi, Network, hint_text}
use bosh_lxd_cpi_release.Cpi.Requests.{
  quiet-ok, Request, act, attach, create_volume, Logged, logged_cpi, asking, quietly, quietly-ok,
}
use bosh_lxd_cpi_release.Cpi.Devices.{
  disk_ephemeral_prefix, disk_configuration_prefix, disk_device_ephemeral, disk_device,
  attach_disk_device_to_vm,
}
use bosh_lxd_cpi_release.Cpi.Agent.{write_agent_file_to_vm}
use bosh_lxd_cpi_release.Cpi.Agent.Replace.{ReplacesBy, write_agent_file_to_vm-Replaces}
use bosh_lxd_cpi_release.Cpi.Create.{
  CreateRequest, cleanup_on_error, attach_new_ephemeral_disk, create_ephemeral_disk, provision,
}

attempt-ok :
    {W A : Type 0} (m : M W A) (w : W) {a : A} {w' : W}
    → attempt m w ≡ (ok (inr a), w')
    → m w ≡ (ok a, w')
attempt-ok {W} {A} m w {a} {w'} = go (m w)
  where
    go : (out : Result A × W) → attempt (λ _. out) w ≡ (ok (inr a), w') → out ≡ (ok a, w')
    go (ok b, v) h = ground arith
    go (err x, v) h = cc
    go (panic, v) h = cc

module _ {W E : Type 0} (c : Cpi W E) (vm_cid : String) where
  cleanup_on_error-ok :
      {A : Type 0} (m : M W A) (w : W) {a : A} {w' : W}
      → cleanup_on_error c vm_cid m w ≡ (ok a, w')
      → m w ≡ (ok a, w')
  unfolding cleanup_on_error
  cleanup_on_error-ok {A} m w {a} {w'} = go (m w)
    where
      go :
          (out : Result A × W)
          → cleanup_on_error c vm_cid (λ _. out) w ≡ (ok a, w')
          → out ≡ (ok a, w')
      go (ok b, v) h = h
      go (err x, v) h = ground arith
      go (panic, v) h = cc

module _ {W E : Type 0} (c : Cpi W E) (vm_cid : String) where
  -- The requests (newest first) for an ephemeral disk of that size at a target: none for size zero,
  -- else a new volume and its attachment.
  abbrev pub MakesEphemeral : String → ℕ → List Request → Type 0
  MakesEphemeral target size rs =
      ((size ≡ 0) × (rs ≡ []))
      ⊎ ((0 < size)
          × (id : String) × (rs
              ≡ attach vm_cid disk_device_ephemeral
                  (disk_device c.config.server.storage_pool (disk_ephemeral_prefix <> id))
                ∷ create_volume target c.config.server.storage_pool (disk_ephemeral_prefix <> id)
                    size
                ∷ []))

  attach_new-MakesEphemeral :
      (target : String) (size : ℕ) (env env' : E) (s s' : Logged W)
      → attach_new_ephemeral_disk (logged_cpi c) vm_cid target size env s ≡ (ok env', s')
      → (id : String) × (s'.requests
          ≡ attach vm_cid disk_device_ephemeral
              (disk_device c.config.server.storage_pool (disk_ephemeral_prefix <> id))
            ∷ create_volume target c.config.server.storage_pool (disk_ephemeral_prefix <> id) size
            ∷ s.requests)
  unfolding attach_new_ephemeral_disk attach_disk_device_to_vm
  attach_new-MakesEphemeral target size env env' s s' h = go (c.uuid_gen s.world) refl
    where
      go :
          (out : Result String × W)
          → c.uuid_gen s.world ≡ out
          → (id : String) × (s'.requests
              ≡ attach vm_cid disk_device_ephemeral
                  (disk_device c.config.server.storage_pool (disk_ephemeral_prefix <> id))
                ∷ create_volume target c.config.server.storage_pool
                    (disk_ephemeral_prefix <> id)
                    size
                ∷ s.requests)
      go (ok id, v) e = (id, ground arith)
      go (err x, v) e = ground arith
      go (panic, v) e = ground arith

  create_ephemeral_disk-MakesEphemeral :
      (target : String) (size : ℕ) (env env' : E) (s s' : Logged W)
      → create_ephemeral_disk (logged_cpi c) vm_cid target size env s ≡ (ok env', s')
      → (rs : List Request) × MakesEphemeral target size rs × (s'.requests ≡ rs ++ s.requests)
  unfolding create_ephemeral_disk
  create_ephemeral_disk-MakesEphemeral target size env env' s s' h =
      elim (Bool-cases (ltb 0 size)) [
        | inl some_size ↦
            let (id, asked) =
              attach_new-MakesEphemeral target size env env' s s' (rw some_size at h) in
            (
              attach vm_cid disk_device_ephemeral
                    (disk_device c.config.server.storage_pool (disk_ephemeral_prefix <> id))
                  ∷ create_volume target c.config.server.storage_pool (disk_ephemeral_prefix <> id)
                      size
                  ∷ [],
              inr (ground arith, id, refl),
              asked,
            )
        | inr no_size ↦ ([], inl (ground arith, refl), ground arith)
      ]

  -- The settings with the ephemeral disk, if the VM has one.
  abbrev pub with_ephemeral : ℕ → E → E
  with_ephemeral size agent_env =
      if ltb 0 size
      then c.library.attach_ephemeral_disk (hint_text "/dev/sdb") agent_env
      else agent_env

  create_ephemeral_disk-env :
      (target : String) (size : ℕ) (env env' : E) (s s' : Logged W)
      → create_ephemeral_disk (logged_cpi c) vm_cid target size env s ≡ (ok env', s')
      → env' ≡ with_ephemeral size env
  unfolding create_ephemeral_disk attach_new_ephemeral_disk
  create_ephemeral_disk-env target size env env' s s' h = ground arith

  -- The settings that the VM starts with.
  abbrev pub settings_of : CreateRequest → Dict Network → E
  settings_of request networks =
      c.library.attach_system_disk (hint_text "/dev/sda")
        (c.library.for_vm request.agent_id vm_cid networks request.env c.config.agent)

  -- The requests (newest first) after `earlier` that end in a running VM: its ephemeral disk, if it
  -- has one, is made and attached; its configuration disk, with the settings, is made, put in the place of an older
  -- one, if there is one, and attached; then the VM is started.
  abbrev pub Provisions : ℕ → E → List Request → List Request → Type 0
  Provisions size agent_env earlier rs =
      (ephemeral : List Request) × (uuid : String) × (before_start : List Request)
      × (target : String) × (u u₁ : W) × (c.adapter.get_instance_location vm_cid u
          ≡ (ok target, u₁))
      × MakesEphemeral target size ephemeral
      × ReplacesBy c vm_cid (disk_configuration_prefix <> uuid) (with_ephemeral size agent_env)
          (ephemeral ++ earlier) before_start
      × (rs ≡ act vm_cid start_action ∷ before_start)

  abbrev starting_vm : M (Logged W) Done
  starting_vm = asking (act vm_cid start_action) (c.adapter.set_instance_action vm_cid start_action)

  abbrev finish : Dict Network → Error ⊎ Done → M (Logged W) (String × Dict Network × Option Error)
  finish networks started = pure (vm_cid, networks, elim started [ inl e ↦ some e | inr _ ↦ none ])

  start-ok :
      (networks networks' : Dict Network) (started : Error ⊎ Done) (s s₁ s' : Logged W)
      → attempt (cleanup_on_error (logged_cpi c) vm_cid starting_vm) s ≡ (ok started, s₁)
      → finish networks started s₁ ≡ (ok (vm_cid, networks', none), s')
      → s'.requests ≡ act vm_cid start_action ∷ s.requests
  start-ok networks networks' (inl e) s s₁ s' h k = ground arith
  start-ok networks networks' (inr _) s s₁ s' h k =
      sym (ap (λ p. p.1.requests) k)
      ∙ sym (
          ap (λ p. p.1.requests)
            (cleanup_on_error-ok (logged_cpi c) vm_cid starting_vm s
              (attempt-ok (cleanup_on_error (logged_cpi c) vm_cid starting_vm) s h)))

  ReplacesBy-same :
      (disk_name : String) (env env' : E) (earlier earlier' rs : List Request)
      → env' ≡ env
      → earlier' ≡ earlier
      → ReplacesBy c vm_cid disk_name env' earlier' rs
      → ReplacesBy c vm_cid disk_name env earlier rs
  ReplacesBy-same disk_name env env' earlier earlier' rs same same' h = rw (same, same') at h

  -- A creation that reports success has asked, after the instance, for all that makes it a running
  -- VM, in this order: its ephemeral disk, if its size is not zero, is made and attached; its
  -- configuration disk, with the settings of this VM, is made, put in the place of an older one, if
  -- there is one, and attached; then the VM is started.
  pub provision-Provisions :
      (request : CreateRequest) (networks networks' : Dict Network) (size : ℕ) (s s' : Logged W)
      → provision (logged_cpi c) request vm_cid networks size s ≡ (ok (vm_cid, networks', none), s')
      → Provisions size (settings_of request networks) s.requests s'.requests
  unfolding provision
  provision-Provisions request networks networks' size s s' h =
      let l = logged_cpi c in
      let locate : M (Logged W) String =
        cleanup_on_error l vm_cid
          (wrapped "VM Location" (quietly (c.adapter.get_instance_location vm_cid))) in
      let env : E = settings_of request networks in
      let write : E → M (Logged W) Done = λ env'.
        cleanup_on_error l vm_cid
          (wrapped "Write AgentEnv" (write_agent_file_to_vm l vm_cid env')) in
      let start : M (Logged W) (Error ⊎ Done) = attempt (cleanup_on_error l vm_cid starting_vm) in
      let last : M (Logged W) (String × Dict Network × Option Error) = start >>= finish networks in
      let (target, s₁, e₁, h₁) =
        bind-ok locate
          (λ target. create_ephemeral_disk l vm_cid target size env >>= λ env'. write env' >> last)
          s h in
      let (env', s₂, e₂, h₂) =
        bind-ok (create_ephemeral_disk l vm_cid target size env) (λ env'. write env' >> last) s₁
          h₁ in
      let (_, s₃, e₃, h₃) = bind-ok (write env') (λ _. last) s₂ h₂ in
      let (started, s₄, e₄, h₄) = bind-ok start (finish networks) s₃ h₃ in
      let (ephemeral, made, asked) =
        create_ephemeral_disk-MakesEphemeral target size env env' s₁ s₂ e₂ in
      let (uuid, replaced) = write_agent_file_to_vm-Replaces c vm_cid env' s₂ s₃ (
        wrapped-ok "Write AgentEnv" (write_agent_file_to_vm l vm_cid env') s₂ (
          cleanup_on_error-ok l vm_cid
            (wrapped "Write AgentEnv" (write_agent_file_to_vm l vm_cid env')) s₂ e₃)) in
      let same : s₁.requests ≡ s.requests =
        quiet-ok "VM Location" (c.adapter.get_instance_location vm_cid) s s₁ (
          cleanup_on_error-ok l vm_cid
            (wrapped "VM Location" (quietly (c.adapter.get_instance_location vm_cid))) s e₁) in
      (
        ephemeral,
        uuid,
        s₃.requests,
        target,
        s.world,
        s₁.world,
        quietly-ok "VM Location" (c.adapter.get_instance_location vm_cid) s s₁ (
            cleanup_on_error-ok l vm_cid
              (wrapped "VM Location" (quietly (c.adapter.get_instance_location vm_cid))) s e₁),
        made,
        ReplacesBy-same (disk_configuration_prefix <> uuid) (with_ephemeral size env) env'
            (ephemeral ++ s.requests) s₂.requests s₃.requests
            (create_ephemeral_disk-env target size env env' s₁ s₂ e₂)
            (asked ∙ ap (λ l. ephemeral ++ l) same) replaced,
        start-ok networks networks' started s₃ s₄ s' e₄ h₄,
      )
