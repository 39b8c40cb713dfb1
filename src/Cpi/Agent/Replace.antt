-- ===== src/Cpi/Agent/Replace.antt =====
-- What a successful `writeAgentFileToVM` (`src/cpi/utils_agent.go`) has asked for.
use bosh_lxd_cpi_release.Base.{
  String, ◌≡◌, ◌≢◌, sym, ap, ◌∙◌, List, ◌∷◌, ◌++◌, ◌==◌, ◌<>◌, arith, eq_iff,
}
use bosh_lxd_cpi_release.Base.Go.{ok, error, M, Done, wrapped, bind-ok, ◌>>=◌, ◌>>◌}
use bosh_lxd_cpi_release.Adapter.Interface.{Devices}
use bosh_lxd_cpi_release.Cpi.State.{Cpi}
use bosh_lxd_cpi_release.Cpi.Errors.{fail_if}
use bosh_lxd_cpi_release.Cpi.Requests.{
  quiet-ok, asked-ok, Request, attach, create_iso_volume, Logged, logged_cpi, asking, quietly,
  quietly-ok, asked-world,
}
use bosh_lxd_cpi_release.Cpi.Devices.{
  disk_configuration_prefix, disk_device_config, disk_device, find_disks_attached_to_vm,
}
use bosh_lxd_cpi_release.Cpi.Agent.{agent_message, remove_config_disk, write_agent_file_to_vm}
use bosh_lxd_cpi_release.Cpi.Agent.Removed.{
  disk_named, Removes, remove_config_disk-Removes, find_disks-listed, lookup-disks_of,
}

module _ {W E : Type 0} (c : Cpi W E) (vm_cid : String) where
  abbrev pool_name : String
  pool_name = c.config.server.storage_pool

  -- The chain of `writeAgentFileToVM` from its fourth call on.
  abbrev swap : String → M (Logged W) Done
  swap disk_name = do
    disks ← wrapped (agent_message vm_cid "Find") (find_disks_attached_to_vm (logged_cpi c) vm_cid)
    remove_config_disk (logged_cpi c) vm_cid disks
    wrapped (agent_message vm_cid "Attach") (
        asking (attach vm_cid disk_device_config (disk_device pool_name disk_name))
          (c.adapter.attach_device vm_cid disk_device_config (disk_device pool_name disk_name)))

  swap-Replaces :
      (disk_name : String) (s s' : Logged W)
      → swap disk_name s ≡ (ok tt, s')
      → (devices : Devices) × (v : W) × (removal : List Request) × (c.adapter.get_devices vm_cid
            s.world
          ≡ (ok devices, v))
        × Removes c vm_cid (disk_named disk_device_config devices) v removal
        × (s'.requests
            ≡ attach vm_cid disk_device_config (disk_device pool_name disk_name)
              ∷ (removal ++ s.requests))
  swap-Replaces disk_name s s' h =
      let attaching : M (Logged W) Done = wrapped (agent_message vm_cid "Attach") (
        asking (attach vm_cid disk_device_config (disk_device pool_name disk_name))
          (c.adapter.attach_device vm_cid disk_device_config (disk_device pool_name disk_name))) in
      let (disks, s₁, e₁, h₁) =
        bind-ok
          (wrapped (agent_message vm_cid "Find") (find_disks_attached_to_vm (logged_cpi c) vm_cid))
          (λ disks. remove_config_disk (logged_cpi c) vm_cid disks >> attaching) s h in
      let (_, s₂, e₂, h₂) =
        bind-ok (remove_config_disk (logged_cpi c) vm_cid disks) (λ _. attaching) s₁ h₁ in
      let (removal, removes, removed) = remove_config_disk-Removes c vm_cid disks s₁ s₂ e₂ in
      let (devices, listed, same, quiet) =
        find_disks-listed c vm_cid (agent_message vm_cid "Find") s s₁ disks e₁ in
      (
        devices,
        s₁.world,
        removal,
        listed,
        rw (same, lookup-disks_of disk_device_config devices) at removes,
        asked-ok (agent_message vm_cid "Attach")
              (attach vm_cid disk_device_config (disk_device pool_name disk_name))
              (c.adapter.attach_device vm_cid disk_device_config (disk_device pool_name disk_name))
              s₂ s' h₂
            ∙ ap (λ l. attach vm_cid disk_device_config (disk_device pool_name disk_name) ∷ l)
                (removed ∙ ap (λ l. removal ++ l) quiet),
      )

  filled-ok :
      (image : String) (s s' : Logged W)
      → fail_if (image == "") (error "ISO image is empty") s ≡ (ok tt, s')
      → (image ≢ "") × (s'.world ≡ s.world) × (s'.requests ≡ s.requests)
  filled-ok image s s' h = ground (arith, eq_iff image "")

  -- The chain from the test of the image on.
  abbrev create_and_swap : String → String → String → M (Logged W) Done
  create_and_swap disk_name image target =
      wrapped (agent_message vm_cid "Create") (
        asking (create_iso_volume target pool_name disk_name image)
          (c.adapter.create_storage_pool_volume_from_iso target pool_name disk_name image))
      >> swap disk_name

  abbrev install : String → String → M (Logged W) Done
  install disk_name image =
      fail_if (image == "") (error "ISO image is empty")
      >> (wrapped (agent_message vm_cid "Location")
            (quietly (c.adapter.get_instance_location vm_cid))
          >>= create_and_swap disk_name image)

  -- That the agent's manager made that image of the settings, and left the world `u`.
  abbrev pub IsImageOf : E → String → W → Type 0
  IsImageOf agent_env image u = (v : W) × (c.agent_mgr.write vm_cid agent_env v ≡ (ok image, u))

  -- What was asked for, newest first, after `earlier`: a volume of that name with an image of the
  -- settings was made at the location that the VM had then; of the devices that the VM was then
  -- reported to have, the disk "config", if there was one, was removed; and the new disk attached
  -- in its place.
  abbrev pub ReplacesBy : String → E → List Request → List Request → Type 0
  ReplacesBy disk_name agent_env earlier rs =
      (image target : String) × (u u₁ v : W) × (devices : Devices) × (removal : List Request)
      × IsImageOf agent_env image u
      × (image ≢ "")
      × (c.adapter.get_instance_location vm_cid u ≡ (ok target, u₁))
      × (c.adapter.get_devices vm_cid
            (c.adapter.create_storage_pool_volume_from_iso target pool_name disk_name image u₁).1
          ≡ (ok devices, v))
      × Removes c vm_cid (disk_named disk_device_config devices) v removal
      × (rs
          ≡ attach vm_cid disk_device_config (disk_device pool_name disk_name)
            ∷ (removal ++ (create_iso_volume target pool_name disk_name image ∷ earlier)))

  install-Replaces :
      (disk_name image : String) (agent_env : E) (s s' : Logged W)
      → IsImageOf agent_env image s.world
      → install disk_name image s ≡ (ok tt, s')
      → ReplacesBy disk_name agent_env s.requests s'.requests
  install-Replaces disk_name image agent_env s s' written h =
      let locate : M (Logged W) String =
        wrapped (agent_message vm_cid "Location")
          (quietly (c.adapter.get_instance_location vm_cid)) in
      let (_, s₁, e₁, h₁) =
        bind-ok (fail_if (image == "") (error "ISO image is empty"))
          (λ _. locate >>= create_and_swap disk_name image) s h in
      let (target, s₂, e₂, h₂) = bind-ok locate (create_and_swap disk_name image) s₁ h₁ in
      let new : Request = create_iso_volume target pool_name disk_name image in
      let create : M W Done =
        c.adapter.create_storage_pool_volume_from_iso target pool_name disk_name image in
      let (_, s₃, e₃, h₃) =
        bind-ok (wrapped (agent_message vm_cid "Create") (asking new create)) (λ _. swap disk_name)
          s₂ h₂ in
      let (devices, v, removal, listed, removes, asked) = swap-Replaces disk_name s₃ s' h₃ in
      let (filled, there, same) = filled-ok image s s₁ e₁ in
      let before : s₃.requests ≡ new ∷ s.requests =
        asked-ok (agent_message vm_cid "Create") new create s₂ s₃ e₃
        ∙ ap (λ l. new ∷ l)
            (quiet-ok (agent_message vm_cid "Location") (c.adapter.get_instance_location vm_cid) s₁
                s₂ e₂
              ∙ same) in
      let after : s₃.world ≡ (create s₂.world).1 =
        asked-world (agent_message vm_cid "Create") new create s₂ s₃ e₃ in
      (
        image,
        target,
        s.world,
        s₂.world,
        v,
        devices,
        removal,
        written,
        filled,
        ap (c.adapter.get_instance_location vm_cid) (sym there)
            ∙ quietly-ok (agent_message vm_cid "Location") (c.adapter.get_instance_location vm_cid)
                s₁ s₂ e₂,
        ap (c.adapter.get_devices vm_cid) (sym after) ∙ listed,
        removes,
        rw (sym before) asked,
      )

  -- Where the agent's settings were written without an error, a new configuration disk with an
  -- image of them that is not empty was made first, at the location that the VM was reported to
  -- have; the disk "config" among the devices that the VM was then reported to have, if there was
  -- one, was detached, and its volume, and no other, was deleted exactly if the VM was then
  -- reported to be stopped; at last the new disk was attached as "config".
  pub write_agent_file_to_vm-Replaces :
      (agent_env : E) (s s' : Logged W)
      → write_agent_file_to_vm (logged_cpi c) vm_cid agent_env s ≡ (ok tt, s')
      → (uuid : String) × ReplacesBy
          (disk_configuration_prefix <> uuid)
          agent_env
          s.requests
          s'.requests
  unfolding write_agent_file_to_vm
  write_agent_file_to_vm-Replaces agent_env s s' h =
      let write : M (Logged W) String =
        wrapped (agent_message vm_cid "Write") (quietly (c.agent_mgr.write vm_cid agent_env)) in
      let (uuid, s₁, e₁, h₁) =
        bind-ok (wrapped (agent_message vm_cid "UUID") (quietly c.uuid_gen))
          (λ uuid. write >>= install (disk_configuration_prefix <> uuid)) s h in
      let disk_name : String = disk_configuration_prefix <> uuid in
      let (image, s₂, e₂, h₂) = bind-ok write (install disk_name) s₁ h₁ in
      let same : s₂.requests ≡ s.requests =
        quiet-ok (agent_message vm_cid "Write") (c.agent_mgr.write vm_cid agent_env) s₁ s₂ e₂
        ∙ quiet-ok (agent_message vm_cid "UUID") c.uuid_gen s s₁ e₁ in
      let written : IsImageOf agent_env image s₂.world = (
        s₁.world,
        quietly-ok (agent_message vm_cid "Write") (c.agent_mgr.write vm_cid agent_env) s₁ s₂ e₂,
      ) in
      (uuid, rw same at (install-Replaces disk_name image agent_env s₂ s' written h₂))
