-- ===== src/AgentMgr/Factory/Settings.antt =====
-- The settings that a manager of `src/agentmgr/agent_manager.go` writes.
use bosh_lxd_cpi_release.Base.{String, ◌≡◌, List, Bool-cases, inl, inr, ◌==◌, if◌then◌else◌, arith}
use bosh_lxd_cpi_release.Base.Go.{Result, ok}
use bosh_lxd_cpi_release.Config.{AgentManagerConfig}
use bosh_lxd_cpi_release.Cpi.State.{AgentManager}
use bosh_lxd_cpi_release.AgentMgr.Files.{Files}
use bosh_lxd_cpi_release.AgentMgr.Image.{DiskImages, Encoding}
use bosh_lxd_cpi_release.AgentMgr.Image.Steps.{Step, Traced, start, traced_files, traced_images}
use bosh_lxd_cpi_release.AgentMgr.Image.Cdrom.{cdrom_fill}
use bosh_lxd_cpi_release.AgentMgr.Image.Fat32.{fat32_fill}
use bosh_lxd_cpi_release.AgentMgr.Image.Written.{Writes, write_cdrom-Writes, write_fat32-Writes}
use bosh_lxd_cpi_release.AgentMgr.Factory.{new_agent_manager}

module _ {W E I R : Type 0} (files : Files W) (config : AgentManagerConfig)
    (images : DiskImages W I R) (encoding : Encoding E) (from_bytes : String → Result E) where
  -- The steps of the manager that the configuration names.
  abbrev pub fill_of : String → String → String → String → List Step → List Step
  fill_of name vm_cid buf metadata earlier =
      if config.source_type == "FAT32"
      then fat32_fill files config images encoding name vm_cid buf metadata earlier
      else cdrom_fill files config images encoding name vm_cid buf metadata earlier

  -- Where a manager that the configuration allows returns an image, the same text that the settings
  -- are encoded as was stored in the VM's local file first and then put on the image under the path
  -- of the user data, if that is not empty, beside the metadata; an ISO image was finished with the
  -- label after both; the image was read once it was complete, and its file was taken away last.
  pub write-Writes :
      (am : AgentManager (Traced W) E) (vm_cid : String) (env : E) (w : W) (s' : Traced W)
      (bytes : String)
      → new_agent_manager (traced_files files) (traced_images images) encoding from_bytes config
        ≡ ok am
      → am.write vm_cid env (start w) ≡ (ok bytes, s')
      → Writes files config images encoding fill_of vm_cid env s'
  unfolding new_agent_manager
  write-Writes am vm_cid env w s' bytes made h = elim (Bool-cases (config.source_type == "FAT32")) [
    | inl fat ↦
        rw fat
          (write_fat32-Writes files config images encoding vm_cid env w s' bytes (ground arith))
    | inr other ↦
        rw other
          (write_cdrom-Writes files config images encoding vm_cid env w s' bytes (ground arith))
  ]
