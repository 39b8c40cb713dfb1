-- ===== src/Cpi/Disk/Detach.antt =====
-- What a successful `DetachDisk` (`src/cpi/detach_disk.go`) has asked for.
use bosh_lxd_cpi_release.Base.{String, ◌≡◌, sym, ap, ◌∙◌, ◌∷◌, ◌<>◌, List}
use bosh_lxd_cpi_release.Base.Go.{ok, M, Done, wrapped, bind-ok, wrapped-ok, ◌>>=◌, ◌>>◌}
use bosh_lxd_cpi_release.Cpi.State.{Cpi}
use bosh_lxd_cpi_release.Cpi.Requests.{
  Request, detach_source, Logged, logged_cpi, quietly, asking, quiet-ok, asked-ok, quietly-ok,
}
use bosh_lxd_cpi_release.Cpi.Devices.{disk_configuration_prefix}
use bosh_lxd_cpi_release.Cpi.Agent.{write_agent_file_to_vm}
use bosh_lxd_cpi_release.Cpi.Agent.Replace.{ReplacesBy, write_agent_file_to_vm-Replaces}
use bosh_lxd_cpi_release.Cpi.Disk.{detach_disk}

module _ {W E : Type 0} (c : Cpi W E) (vm_cid disk_cid : String) where
  -- The requests (newest first) of a detachment after `earlier`: the device whose source is the
  -- disk is detached, then the configuration disk is replaced, with the settings that were read
  -- less the disk.
  abbrev pub Detaches : List Request → List Request → Type 0
  Detaches earlier rs =
      (uuid : String) × (agent_env : E) × (v : W) × (v₁ : W) × (c.agent_mgr.read vm_cid v
        ≡ (ok agent_env, v₁))
      × ReplacesBy c vm_cid (disk_configuration_prefix <> uuid)
          (c.library.detach_persistent_disk disk_cid agent_env)
          (detach_source vm_cid disk_cid ∷ earlier) rs

  -- A DetachDisk that reports success has asked first for the detachment of the device whose source
  -- is the disk, then for a new configuration disk with an image of the settings that were read
  -- less the disk, in the place of the one that the VM was reported to have, if there was one,
  -- whose volume was deleted exactly if the VM was reported to be stopped; and for nothing else.
  pub detach_disk-Detaches :
      (s s' : Logged W)
      → detach_disk (logged_cpi c) vm_cid disk_cid s ≡ (ok tt, s')
      → Detaches s.requests s'.requests
  unfolding detach_disk
  detach_disk-Detaches s s' h =
      let asked : Request = detach_source vm_cid disk_cid in
      let detach : M W Done = c.adapter.detach_device_by_source vm_cid disk_cid in
      let read : M (Logged W) E = wrapped "Retrieve AgentEnv" (quietly (c.agent_mgr.read vm_cid)) in
      let write : E → M (Logged W) Done = λ agent_env. wrapped "Write AgentEnv" (
        write_agent_file_to_vm (logged_cpi c) vm_cid
          (c.library.detach_persistent_disk disk_cid agent_env)) in
      let (_, s₁, e₁, h₁) =
        bind-ok (quietly c.adapter.is_connected)
          (λ _. wrapped "Detach Device" (asking asked detach) >> (read >>= write)) s h in
      let (_, s₂, e₂, h₂) =
        bind-ok (wrapped "Detach Device" (asking asked detach)) (λ _. read >>= write) s₁ h₁ in
      let (agent_env, s₃, e₃, h₃) = bind-ok read write s₂ h₂ in
      let before : s₃.requests ≡ asked ∷ s.requests =
        quiet-ok "Retrieve AgentEnv" (c.agent_mgr.read vm_cid) s₂ s₃ e₃
        ∙ asked-ok "Detach Device" asked detach s₁ s₂ e₂
        ∙ ap (λ l. asked ∷ l) (sym (ap (λ p. p.1.requests) e₁)) in
      let left : E = c.library.detach_persistent_disk disk_cid agent_env in
      let (uuid, replaces) =
        write_agent_file_to_vm-Replaces c vm_cid left s₃ s'
          (wrapped-ok "Write AgentEnv" (write_agent_file_to_vm (logged_cpi c) vm_cid left) s₃ h₃) in
      (
        uuid,
        agent_env,
        s₂.world,
        s₃.world,
        quietly-ok "Retrieve AgentEnv" (c.agent_mgr.read vm_cid) s₂ s₃ e₃,
        rw before at replaces,
      )
