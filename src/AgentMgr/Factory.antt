-- ===== src/AgentMgr/Factory.antt =====
-- `src/agentmgr/agent_manager.go`: the manager that the configuration asks for.
pub mod Settings
use bosh_lxd_cpi_release.Base.{String, ◌==◌, ◌<>◌, if◌then◌else◌}
use bosh_lxd_cpi_release.Base.Go.{error, Result, ok, err}
use bosh_lxd_cpi_release.Config.{AgentManagerConfig}
use bosh_lxd_cpi_release.Cpi.State.{AgentManager}
use bosh_lxd_cpi_release.AgentMgr.Files.{Files, read_agent_env, delete_agent_env}
use bosh_lxd_cpi_release.AgentMgr.Image.{DiskImages, Encoding, write_cdrom, write_fat32}

module _ {W E I R : Type 0} (files : Files W) (images : DiskImages W I R) (encoding : Encoding E)
    (from_bytes : String → Result E) where
  -- `NewCDROMManager`
  abbrev pub cdrom_manager : AgentManagerConfig → AgentManager W E
  cdrom_manager config = record {
    read = read_agent_env files config from_bytes;
    write = write_cdrom files config images encoding;
    delete = delete_agent_env files config;
  }

  -- `NewFAT32Manager`
  abbrev pub fat32_manager : AgentManagerConfig → AgentManager W E
  fat32_manager config = record {
    read = read_agent_env files config from_bytes;
    write = write_fat32 files config images encoding;
    delete = delete_agent_env files config;
  }

  unfoldable pub new_agent_manager : AgentManagerConfig → Result (AgentManager W E)
  new_agent_manager config =
      if config.source_type == "FAT32"
      then ok (fat32_manager config)
      else if config.source_type == "CDROM"
      then ok (cdrom_manager config)
      else err (error ("unknown stemcell configuration type '" <> config.source_type <> "'"))
