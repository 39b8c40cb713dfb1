-- ===== src/AgentMgr/Image/Written.antt =====
-- What `Write` of `src/agentmgr/cdrom_manager.go` and `fat32_manager.go` has written when it
-- returns an image.
use bosh_lxd_cpi_release.Base.{ℕ, String, ◌≡◌, ap, sym, ◌∙◌, List, [], ◌∷◌, ◌*◌, arith}
use bosh_lxd_cpi_release.Base.Go.{Result, ok, M, bind-ok, ◌>>=◌}
use bosh_lxd_cpi_release.Config.{AgentManagerConfig}
use bosh_lxd_cpi_release.AgentMgr.Files.{Files, temp_file_name}
use bosh_lxd_cpi_release.AgentMgr.Image.{
  DiskImages, Encoding, removing, mebibyte, fill_cdrom, write_cdrom, fill_fat32, write_fat32,
}
use bosh_lxd_cpi_release.AgentMgr.Image.Steps.{
  Step, take_away, Traced, start, traced_files, traced_images, untraced-Takes,
}
use bosh_lxd_cpi_release.AgentMgr.Image.Parts.{Fills}
use bosh_lxd_cpi_release.AgentMgr.Image.Cdrom.{cdrom_fill, fill_cdrom-Fills}
use bosh_lxd_cpi_release.AgentMgr.Image.Fat32.{fat32_fill, fill_fat32-Fills}

module _ {W E I R : Type 0} (files : Files W) (config : AgentManagerConfig)
    (images : DiskImages W I R) (encoding : Encoding E) where
  -- `removing` takes the file away last, however the filling ends.
  removing-steps :
      (name : String) (m : M (Traced W) String) (s s' : Traced W) (r : Result String)
      → removing (traced_files files) name m s ≡ (r, s')
      → (s₁ : Traced W) × (m s ≡ (r, s₁)) × (s'.steps ≡ take_away name ∷ s₁.steps)
  unfolding removing
  removing-steps name m s s' r h =
      ((m s).1, ap (λ p. (p.0, (m s).1)) h, sym (ap (λ p. p.1.steps) h))

  temp_file_name-steps :
      (ext name : String) (w : W) (s' : Traced W)
      → temp_file_name (traced_files files) config ext (start w) ≡ (ok name, s')
      → s'.steps ≡ take_away name ∷ []
  unfolding temp_file_name
  temp_file_name-steps ext name w s' h = ground arith

  -- That a call which returned an image has filled it by such steps, under a name that was free,
  -- and took the file of that name away afterwards.
  abbrev pub Writes :
      (String → String → String → String → List Step → List Step) → String → E → Traced W → Type 0
  Writes fill vm_cid env s' =
      (name buf metadata : String) × (encoding.as_bytes env ≡ ok buf)
      × (encoding.metadata_json ≡ ok metadata)
      × (s'.steps ≡ take_away name ∷ fill name vm_cid buf metadata (take_away name ∷ []))

  write_with-Writes :
      (fill : String → String → String → String → List Step → List Step)
      (filling : String → String → E → I → M (Traced W) String) (ext : String) (size : ℕ)
      (vm_cid : String) (env : E) (w : W) (s' : Traced W) (bytes : String)
      → ((name : String) (image : I) (s s₁ : Traced W) (b : String)
          → filling name vm_cid env image s ≡ (ok b, s₁)
          → Fills files config images encoding (fill name vm_cid) env s s₁)
      → (temp_file_name (traced_files files) config ext >>= λ name.
            (traced_images images).create name size >>= λ image.
            removing (traced_files files) name (filling name vm_cid env image))
          (start w)
        ≡ (ok bytes, s')
      → Writes fill vm_cid env s'
  write_with-Writes fill filling ext size vm_cid env w s' bytes fills h =
      let made : String → M (Traced W) String = λ name.
        (traced_images images).create name size >>= λ image.
        removing (traced_files files) name (filling name vm_cid env image) in
      let (name, s₁, e₁, h₁) =
        bind-ok (temp_file_name (traced_files files) config ext) made (start w) h in
      let (image, s₂, e₂, h₂) =
        bind-ok ((traced_images images).create name size)
          (λ image. removing (traced_files files) name (filling name vm_cid env image)) s₁ h₁ in
      let (s₃, h₃, q₃) = removing-steps name (filling name vm_cid env image) s₂ s' (ok bytes) h₂ in
      let (buf, metadata, encoded, marshalled, q₂) = fills name image s₂ s₃ bytes h₃ in
      let q₁ =
        untraced-Takes (images.create name size) s₁ s₂ image e₂
        ∙ temp_file_name-steps ext name w s₁ e₁ in
      (name, buf, metadata, encoded, marshalled, q₃ ∙ ap (λ l. take_away name ∷ l) (rw q₁ at q₂))

  pub write_cdrom-Writes :
      (vm_cid : String) (env : E) (w : W) (s' : Traced W) (bytes : String)
      → write_cdrom (traced_files files) config (traced_images images) encoding vm_cid env (start w)
        ≡ (ok bytes, s')
      → Writes (cdrom_fill files config images encoding) vm_cid env s'
  unfolding write_cdrom
  write_cdrom-Writes vm_cid env w s' bytes h =
      write_with-Writes (cdrom_fill files config images encoding)
        (fill_cdrom (traced_files files) config (traced_images images) encoding) "iso"
        (5 * mebibyte) vm_cid env w s' bytes
        (λ name image s s₁ b.
          fill_cdrom-Fills files config images encoding name vm_cid env image s s₁ b)
        h

  pub write_fat32-Writes :
      (vm_cid : String) (env : E) (w : W) (s' : Traced W) (bytes : String)
      → write_fat32 (traced_files files) config (traced_images images) encoding vm_cid env (start w)
        ≡ (ok bytes, s')
      → Writes (fat32_fill files config images encoding) vm_cid env s'
  unfolding write_fat32
  write_fat32-Writes vm_cid env w s' bytes h =
      write_with-Writes (fat32_fill files config images encoding)
        (fill_fat32 (traced_files files) config (traced_images images) encoding) "fat32"
        (35 * mebibyte) vm_cid env w s' bytes
        (λ name image s s₁ b.
          fill_fat32-Fills files config images encoding name vm_cid env image s s₁ b)
        h
