-- ===== src/AgentMgr/Image/Cdrom.antt =====
-- How `src/agentmgr/cdrom_manager.go` fills an image.
use bosh_lxd_cpi_release.Base.{String, ◌≡◌, ap, ◌∙◌, List, [], ◌∷◌, ◌++◌}
use bosh_lxd_cpi_release.Base.Go.{ok, M, lift, bind-ok, ◌>>=◌, ◌>>◌}
use bosh_lxd_cpi_release.Config.{AgentManagerConfig}
use bosh_lxd_cpi_release.AgentMgr.Files.{
  Files, mkdir_all, write_file, write_agent_env, agent_file_name,
}
use bosh_lxd_cpi_release.AgentMgr.Image.{
  DiskImages, NewFilesystem, iso9660, Encoding, finalize_image, fill_cdrom,
}
use bosh_lxd_cpi_release.AgentMgr.Image.Steps.{
  Step, keep_file, finish, read_whole, Traced, traced_files, traced_images, traced_filesystem,
  Takes, tracing-Takes, bind-Takes, mkdir_all-Takes, put_if, write_file-Takes, finalize_image-Takes,
}
use bosh_lxd_cpi_release.AgentMgr.Image.Parts.{
  create_filesystem-ok, write_agent_env-ok, lift-ok, Fills,
}

module _ {W E I R : Type 0} (files : Files W) (config : AgentManagerConfig)
    (images : DiskImages W I R) (encoding : Encoding E) where
  abbrev finishing : NewFilesystem (Traced W) (String × R) → String → String → M (Traced W) String
  finishing fs name metadata =
      mkdir_all fs.image_files (files.dir config.metadata_path)
      >> (write_file fs.image_files config.metadata_path metadata
          >> (finalize_image fs.finalize config.label >> (traced_files files).read_file name))

  finishing-Takes :
      (fs : NewFilesystem W R) (name metadata : String)
      → Takes
          (read_whole name ∷ finish config.label ∷ put_if config.metadata_path metadata)
          (finishing (traced_filesystem fs) name metadata)
  finishing-Takes fs name metadata s s' bytes h =
      let traced = traced_filesystem fs in
      let (_, s₁, e₁, h₁) =
        bind-ok (mkdir_all traced.image_files (files.dir config.metadata_path))
          (λ _.
            write_file traced.image_files config.metadata_path metadata
            >> (finalize_image traced.finalize config.label >> (traced_files files).read_file name))
          s h in
      bind-Takes (write_file traced.image_files config.metadata_path metadata)
        (λ _. finalize_image traced.finalize config.label >> (traced_files files).read_file name)
        (put_if config.metadata_path metadata) (read_whole name ∷ finish config.label ∷ [])
        (write_file-Takes fs.image_files config.metadata_path metadata)
        (λ _.
          bind-Takes (finalize_image traced.finalize config.label)
            (λ _. (traced_files files).read_file name) (finish config.label ∷ [])
            (read_whole name ∷ []) (finalize_image-Takes fs.finalize config.label)
            (λ _. tracing-Takes (read_whole name) (files.read_file name)))
        s₁ s' bytes h₁
      ∙ ap (λ l. read_whole name ∷ finish config.label ∷ put_if config.metadata_path metadata ++ l)
          (mkdir_all-Takes fs.image_files (files.dir config.metadata_path) s s₁ tt e₁)

  abbrev putting : NewFilesystem (Traced W) (String × R) → String → String → M (Traced W) String
  putting fs name buf =
      mkdir_all fs.image_files (files.dir config.userdata_path)
      >> (write_file fs.image_files config.userdata_path buf
          >> (lift encoding.metadata_json >>= finishing fs name))

  putting-steps :
      (fs : NewFilesystem W R) (name buf : String) (s s' : Traced W) (bytes : String)
      → putting (traced_filesystem fs) name buf s ≡ (ok bytes, s')
      → (metadata : String) × (encoding.metadata_json ≡ ok metadata)
        × (s'.steps
            ≡ read_whole name ∷ finish config.label ∷ put_if config.metadata_path metadata
              ++ (put_if config.userdata_path buf ++ s.steps))
  putting-steps fs name buf s s' bytes h =
      let traced = traced_filesystem fs in
      let (_, s₁, e₁, h₁) =
        bind-ok (mkdir_all traced.image_files (files.dir config.userdata_path))
          (λ _.
            write_file traced.image_files config.userdata_path buf
            >> (lift encoding.metadata_json >>= finishing traced name))
          s h in
      let (_, s₂, e₂, h₂) =
        bind-ok (write_file traced.image_files config.userdata_path buf)
          (λ _. lift encoding.metadata_json >>= finishing traced name) s₁ h₁ in
      let (metadata, s₃, e₃, h₃) =
        bind-ok (lift encoding.metadata_json) (finishing traced name) s₂ h₂ in
      let (marshalled, q₃) =
        lift-ok files config images encoding encoding.metadata_json s₂ s₃ metadata e₃ in
      let before : s₃.steps ≡ put_if config.userdata_path buf ++ s.steps =
        q₃
        ∙ write_file-Takes fs.image_files config.userdata_path buf s₁ s₂ tt e₂
        ∙ ap (λ l. put_if config.userdata_path buf ++ l)
            (mkdir_all-Takes fs.image_files (files.dir config.userdata_path) s s₁ tt e₁) in
      (metadata, marshalled, rw before at (finishing-Takes fs name metadata s₃ s' bytes h₃))

  -- The steps that fill an ISO image, newest first.
  abbrev pub cdrom_fill : String → String → String → String → List Step → List Step
  cdrom_fill name vm_cid buf metadata earlier =
      read_whole name ∷ finish config.label ∷ put_if config.metadata_path metadata
      ++ (put_if config.userdata_path buf
          ++ (keep_file (agent_file_name files config vm_cid) buf ∷ earlier))

  pub fill_cdrom-Fills :
      (name vm_cid : String) (env : E) (image : I) (s s' : Traced W) (bytes : String)
      → fill_cdrom
          (traced_files files)
          config
          (traced_images images)
          encoding
          name
          vm_cid
          env
          image
          s
        ≡ (ok bytes, s')
      → Fills files config images encoding (cdrom_fill name vm_cid) env s s'
  unfolding fill_cdrom
  fill_cdrom-Fills name vm_cid env image s s' bytes h =
      let saving = write_agent_env (traced_files files) config encoding.as_bytes vm_cid env in
      let (fs, s₁, h₁, q₁) =
        create_filesystem-ok files config images encoding (images.with_logical_blocksize 2048 image)
          (record { partition = 0; fs_type = iso9660; volume_label = config.label })
          (λ fs. saving >>= putting fs name) s s' bytes h in
      let (buf, s₂, e₂, h₂) = bind-ok saving (putting (traced_filesystem fs) name) s₁ h₁ in
      let (encoded, q₂) = write_agent_env-ok files config images encoding vm_cid env s₁ s₂ buf e₂ in
      let (metadata, marshalled, q) = putting-steps fs name buf s₂ s' bytes h₂ in
      (buf, metadata, encoded, marshalled, rw (q₂, q₁) at q)
