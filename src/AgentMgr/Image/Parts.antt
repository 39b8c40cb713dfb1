-- ===== src/AgentMgr/Image/Parts.antt =====
-- What the parts of `Write` in `src/agentmgr/cdrom_manager.go` and `fat32_manager.go` leave behind.
use bosh_lxd_cpi_release.Base.{String, ◌≡◌, ap, sym, List, ◌∷◌, arith, inl, inr}
use bosh_lxd_cpi_release.Base.Go.{
  Result, ok, err, panic, M, lift, pure, bind-ok, Result-cases, ◌>>=◌,
}
use bosh_lxd_cpi_release.Config.{AgentManagerConfig}
use bosh_lxd_cpi_release.AgentMgr.Files.{Files, write_agent_env, agent_file_name}
use bosh_lxd_cpi_release.AgentMgr.Image.{DiskImages, NewFilesystem, FilesystemSpec, Encoding}
use bosh_lxd_cpi_release.AgentMgr.Image.Steps.{
  Step, keep_file, Traced, untraced, traced_files, traced_images, traced_filesystem, untraced-Takes,
}

module _ {W E I R : Type 0} (files : Files W) (config : AgentManagerConfig)
    (images : DiskImages W I R) (encoding : Encoding E) where
  -- What follows the making of a file system works with one that is traced.
  pub create_filesystem-ok :
      {A : Type 0} (i : I) (spec : FilesystemSpec)
      (k : NewFilesystem (Traced W) (String × R) → M (Traced W) A) (s s' : Traced W) (a : A)
      → ((traced_images images).create_filesystem i spec >>= k) s ≡ (ok a, s')
      → (fs : NewFilesystem W R) × (s₁ : Traced W) × (k (traced_filesystem fs) s₁ ≡ (ok a, s'))
        × (s₁.steps ≡ s.steps)
  create_filesystem-ok {A} i spec k s s' a h =
      let (fs, s₁, e, h') =
        bind-ok (untraced (images.create_filesystem i spec)) (λ fs. k (traced_filesystem fs)) s
          (shape (images.create_filesystem i spec s.world) h) in
      (fs, s₁, h', untraced-Takes (images.create_filesystem i spec) s s₁ fs e)
    where
      shape :
          (out : Result (NewFilesystem W R) × W)
          → (((untraced (λ _. out)) >>= λ fs. pure (traced_filesystem fs)) >>= k) s ≡ (ok a, s')
          → (untraced (λ _. out) >>= λ fs. k (traced_filesystem fs)) s ≡ (ok a, s')
      shape (ok fs, v) e = e
      shape (err x, v) e = cc
      shape (panic, v) e = cc

  pub write_agent_env-ok :
      (vm_cid : String) (env : E) (s s' : Traced W) (buf : String)
      → write_agent_env (traced_files files) config encoding.as_bytes vm_cid env s ≡ (ok buf, s')
      → (encoding.as_bytes env ≡ ok buf)
        × (s'.steps ≡ keep_file (agent_file_name files config vm_cid) buf ∷ s.steps)
  unfolding write_agent_env agent_file_name
  write_agent_env-ok vm_cid env s s' buf h = elim (Result-cases (encoding.as_bytes env)) [
    | inl (bytes, e) ↦ ground arith
    | inr (inl (x, e)) ↦ ground arith
    | inr (inr e) ↦ ground arith
  ]

  pub lift-ok :
      {A : Type 0} (r : Result A) (s s' : Traced W) (a : A)
      → lift r s ≡ (ok a, s')
      → (r ≡ ok a) × (s'.steps ≡ s.steps)
  lift-ok r s s' a h = (ap (λ p. p.0) h, sym (ap (λ p. p.1.steps) h))

  -- That a call which filled an image has taken such steps with what the settings and the
  -- metadata are encoded as.
  abbrev pub Fills : (String → String → List Step → List Step) → E → Traced W → Traced W → Type 0
  Fills fill env s s' =
      (buf metadata : String) × (encoding.as_bytes env ≡ ok buf)
      × (encoding.metadata_json ≡ ok metadata)
      × (s'.steps ≡ fill buf metadata s.steps)
