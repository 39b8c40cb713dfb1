-- ===== src/AgentMgr/Image.antt =====
-- `src/agentmgr/cdrom_manager.go` and `fat32_manager.go`: the disk image with the settings. The
-- calls of `go-diskfs` are a record of actions on images `I` and open files `R`.
pub mod Steps
pub mod Parts
pub mod Cdrom
pub mod Fat32
pub mod Written
use bosh_lxd_cpi_release.Base.{
  ℕ, ◌*◌, String, Bool, true, false, Option, none, some, ◌<>◌, if◌then◌else◌,
}
use bosh_lxd_cpi_release.Base.Text.{has_prefix}
use bosh_lxd_cpi_release.Base.Go.{error, Result, M, Done, fail, lift, ◌>>=◌, ◌>>◌}
use bosh_lxd_cpi_release.Config.{AgentManagerConfig}
use bosh_lxd_cpi_release.AgentMgr.Files.{
  Files, ImageFiles, mkdir_all, write_file, temp_file_name, write_agent_env,
}

pub data FsType : Type 0 where
  iso9660 fat32 : FsType

pub record FilesystemSpec : Type 0 where
  pub partition : ℕ
  pub fs_type : FsType
  pub volume_label : String

-- The one partition of an MBR table, in sectors.
pub record PartitionTable : Type 0 where
  pub logical_sector_size : ℕ
  pub physical_sector_size : ℕ
  pub bootable : Bool
  pub start : ℕ
  pub size : ℕ

-- A new file system, with `Finalize` if it is one of ISO 9660: its arguments are `RockRidge` and
-- the identifier of the volume.
pub record NewFilesystem (W R : Type 0) : Type 0 where
  pub image_files : ImageFiles W R
  pub finalize : Option (Bool → String → M W Done)

pub record DiskImages (W I R : Type 0) : Type 0 where
  pub create : String → ℕ → M W I
  pub with_logical_blocksize : ℕ → I → I
  pub partition : I → PartitionTable → M W Done
  pub create_filesystem : I → FilesystemSpec → M W (NewFilesystem W R)

-- What `json.Marshal` makes of the empty `metadataContentsType`, and the methods of the agent
-- environment.
pub record Encoding (E : Type 0) : Type 0 where
  pub metadata_json : Result String
  pub as_bytes : E → Result String

abbrev pub mebibyte : ℕ
mebibyte = 1024 * 1024

-- `defer os.Remove(name)`: the result of the removal is dropped.
unfoldable pub removing : {W A : Type 0} → Files W → String → M W A → M W A
removing files name m w = let (r, w') = m w in (r, (files.remove name w').1)

-- The type assertion and `iso.Finalize`, with Rock Ridge.
unfoldable pub finalize_image : {W : Type 0} → Option (Bool → String → M W Done) → String → M W Done
finalize_image none label = fail (error "not an iso9660 filesystem")
finalize_image (some finalize) label = finalize true label

-- The partition of a FAT image, and a path from its root.
abbrev fat32_table : PartitionTable
fat32_table = record {
  logical_sector_size = 512;
  physical_sector_size = 512;
  bootable = false;
  start = 2048;
  size = 68000;
}

abbrev rooted : String → String
rooted path = if has_prefix path "/" then path else "/" <> path

module _ {W E I R : Type 0} (files : Files W) (config : AgentManagerConfig)
    (images : DiskImages W I R) (encoding : Encoding E) where
  -- `cdromManager.Write`, after the image was created.
  unfoldable pub fill_cdrom : String → String → E → I → M W String
  unfolding write_agent_env mkdir_all write_file finalize_image
  fill_cdrom name vm_cid agent_env image = do
    fs ←
        images.create_filesystem (images.with_logical_blocksize 2048 image)
          (record { partition = 0; fs_type = iso9660; volume_label = config.label })
    buf ← write_agent_env files config encoding.as_bytes vm_cid agent_env
    mkdir_all fs.image_files (files.dir config.userdata_path)
    write_file fs.image_files config.userdata_path buf
    metadata ← lift encoding.metadata_json
    mkdir_all fs.image_files (files.dir config.metadata_path)
    write_file fs.image_files config.metadata_path metadata
    finalize_image fs.finalize config.label
    files.read_file name

  unfoldable pub write_cdrom : String → E → M W String
  unfolding fill_cdrom removing temp_file_name
  write_cdrom vm_cid agent_env = do
    name ← temp_file_name files config "iso"
    image ← images.create name (5 * mebibyte)
    removing files name (fill_cdrom name vm_cid agent_env image)

  -- `fat32Manager.Write`, after the image was created.
  unfoldable pub fill_fat32 : String → String → E → I → M W String
  unfolding write_agent_env write_file has_prefix
  fill_fat32 name vm_cid agent_env image = do
    images.partition image fat32_table
    fs ←
        images.create_filesystem image
          (record { partition = 1; fs_type = fat32; volume_label = config.label })
    fs.image_files.mkdir (rooted (files.dir config.userdata_path))
    metadata ← lift encoding.metadata_json
    write_file fs.image_files config.metadata_path metadata
    userdata ← write_agent_env files config encoding.as_bytes vm_cid agent_env
    write_file fs.image_files config.userdata_path userdata
    files.read_file name

  unfoldable pub write_fat32 : String → E → M W String
  unfolding fill_fat32 removing temp_file_name
  write_fat32 vm_cid agent_env = do
    name ← temp_file_name files config "fat32"
    image ← images.create name (35 * mebibyte)
    removing files name (fill_fat32 name vm_cid agent_env image)
