-- ===== src/AgentMgr/Image/Fat32.antt =====
-- How `src/agentmgr/fat32_manager.go` fills an image.
use bosh_lxd_cpi_release.Base.{String, ◌≡◌, ◌∙◌, List, [], ◌∷◌, ◌++◌}
use bosh_lxd_cpi_release.Base.Go.{ok, M, lift, bind-ok, ◌>>=◌, ◌>>◌}
use bosh_lxd_cpi_release.Config.{AgentManagerConfig}
use bosh_lxd_cpi_release.AgentMgr.Files.{Files, write_file, write_agent_env, agent_file_name}
use bosh_lxd_cpi_release.AgentMgr.Image.{
  DiskImages, NewFilesystem, FilesystemSpec, fat32, Encoding, fill_fat32, fat32_table, rooted,
}
use bosh_lxd_cpi_release.AgentMgr.Image.Steps.{
  Step, keep_file, read_whole, Traced, traced_files, traced_images, traced_filesystem,
  untraced-Takes, tracing-Takes, bind-Takes, put_if, write_file-Takes,
}
use bosh_lxd_cpi_release.AgentMgr.Image.Parts.{
  create_filesystem-ok, write_agent_env-ok, lift-ok, Fills,
}

module _ {W E I R : Type 0} (files : Files W) (config : AgentManagerConfig)
    (images : DiskImages W I R) (encoding : Encoding E) where
  -- The steps that fill a FAT image, newest first.
  abbrev pub fat32_fill : String → String → String → String → List Step → List Step
  fat32_fill name vm_cid buf metadata earlier =
      read_whole name ∷ put_if config.userdata_path buf
      ++ (keep_file (agent_file_name files config vm_cid) buf
          ∷ (put_if config.metadata_path metadata ++ earlier))

  -- The second half of the filling of a FAT image.
  abbrev storing : NewFilesystem (Traced W) (String × R) → String → String → M (Traced W) String
  storing fs name buf =
      write_file fs.image_files config.userdata_path buf >> (traced_files files).read_file name

  abbrev described :
      String → NewFilesystem (Traced W) (String × R) → String → E → String → M (Traced W) String
  described vm_cid fs name env metadata =
      write_file fs.image_files config.metadata_path metadata
      >> (write_agent_env (traced_files files) config encoding.as_bytes vm_cid env
          >>= storing fs name)

  described-steps :
      (vm_cid : String) (fs : NewFilesystem W R) (name : String) (env : E) (metadata : String)
      (s s' : Traced W) (bytes : String)
      → described vm_cid (traced_filesystem fs) name env metadata s ≡ (ok bytes, s')
      → (buf : String) × (encoding.as_bytes env ≡ ok buf)
        × (s'.steps ≡ fat32_fill name vm_cid buf metadata s.steps)
  described-steps vm_cid fs name env metadata s s' bytes h =
      let traced = traced_filesystem fs in
      let saving = write_agent_env (traced_files files) config encoding.as_bytes vm_cid env in
      let (_, s₁, e₁, h₁) =
        bind-ok (write_file traced.image_files config.metadata_path metadata)
          (λ _. saving >>= storing traced name) s h in
      let (buf, s₂, e₂, h₂) = bind-ok saving (storing traced name) s₁ h₁ in
      let (encoded, q₂) = write_agent_env-ok files config images encoding vm_cid env s₁ s₂ buf e₂ in
      let q₁ = write_file-Takes fs.image_files config.metadata_path metadata s s₁ tt e₁ in
      let q₃ =
        bind-Takes (write_file traced.image_files config.userdata_path buf)
          (λ _. (traced_files files).read_file name) (put_if config.userdata_path buf)
          (read_whole name ∷ []) (write_file-Takes fs.image_files config.userdata_path buf)
          (λ _. tracing-Takes (read_whole name) (files.read_file name)) s₂ s' bytes h₂ in
      (buf, encoded, rw (q₂, q₁) at q₃)

  pub fill_fat32-Fills :
      (name vm_cid : String) (env : E) (image : I) (s s' : Traced W) (bytes : String)
      → fill_fat32
          (traced_files files)
          config
          (traced_images images)
          encoding
          name
          vm_cid
          env
          image
          s
        ≡ (ok bytes, s')
      → Fills files config images encoding (fat32_fill name vm_cid) env s s'
  unfolding fill_fat32
  fill_fat32-Fills name vm_cid env image s s' bytes h =
      let describing : NewFilesystem (Traced W) (String × R) → M (Traced W) String =
        λ fs. lift encoding.metadata_json >>= described vm_cid fs name env in
      let root : String = rooted (files.dir config.userdata_path) in
      let spec : FilesystemSpec = record {
        partition = 1;
        fs_type = fat32;
        volume_label = config.label;
      } in
      let (_, s₁, e₁, h₁) =
        bind-ok ((traced_images images).partition image fat32_table)
          (λ _. (traced_images images).create_filesystem image spec >>= λ fs.
            fs.image_files.mkdir root >> describing fs)
          s h in
      let (fs, s₂, h₂, q₂) =
        create_filesystem-ok files config images encoding image spec
          (λ fs. fs.image_files.mkdir root >> describing fs) s₁ s' bytes h₁ in
      let traced = traced_filesystem fs in
      let (_, s₃, e₃, h₃) =
        bind-ok (traced.image_files.mkdir root) (λ _. describing traced) s₂ h₂ in
      let (metadata, s₄, e₄, h₄) =
        bind-ok (lift encoding.metadata_json) (described vm_cid traced name env) s₃ h₃ in
      let (marshalled, q₄) =
        lift-ok files config images encoding encoding.metadata_json s₃ s₄ metadata e₄ in
      let before : s₄.steps ≡ s.steps =
        q₄
        ∙ untraced-Takes (fs.image_files.mkdir root) s₂ s₃ tt e₃
        ∙ q₂
        ∙ untraced-Takes (images.partition image fat32_table) s s₁ tt e₁ in
      let (buf, encoded, q) = described-steps vm_cid fs name env metadata s₄ s' bytes h₄ in
      (buf, metadata, encoded, marshalled, rw before at q)
