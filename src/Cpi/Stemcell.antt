-- ===== src/Cpi/Stemcell.antt =====
-- `src/cpi/create_stemcell.go` and `delete_stemcell.go`. The image is a gzipped tar file; closing
-- the files at the end is left out.
pub mod Images
use bosh_lxd_cpi_release.Base.{
  ℕ, String, not, List, [], ◌∷◌, inl, inr, ◌==◌, ltb, ◌<>◌, if◌then◌else◌,
}
use bosh_lxd_cpi_release.Base.Text.{replace_first}
use bosh_lxd_cpi_release.Base.Go.{
  Error, wrap_error, Result, ok, err, M, Done, pure, lift, wrapped, attempt, ◌>>=◌, ◌>>◌,
}
use bosh_lxd_cpi_release.Adapter.Interface.{Devices}
use bosh_lxd_cpi_release.Cpi.State.{Cpi, StemcellProperties}
use bosh_lxd_cpi_release.Cpi.Vm.{has_vm}

-- A header that `tarFile.Next` returns, with what reading on from there yields.
pub record TarEntry : Type 0 where
  pub size : ℕ
  pub mod_time : ℕ
  pub rest : String

-- A tar file: its headers, and the error that `Next` ends with.
pub record TarReader : Type 0 where
  pub entries : List TarEntry
  pub last : Error

-- `os.Open` and `gzip.NewReader`.
pub record Archives (W : Type 0) : Type 0 where
  pub open_file : String → M W Done
  pub gzip_reader : String → M W TarReader

abbrev pub hundred_mebibytes : ℕ
hundred_mebibytes = 104857600

-- The loop `for !found`: the first entry that is big enough. Its exit makes the test after the
-- loop superfluous.
unfoldable pub find_image : String → Error → List TarEntry → Result TarEntry
find_image image_path last [] =
    err (wrap_error last ("tar.next for imagePath '" <> image_path <> "'"))
find_image image_path last (h ∷ entries) =
    if ltb hundred_mebibytes h.size then ok h else find_image image_path last entries

-- `makeStemcellPredeployVMName`
unfoldable pub predeploy_vm_name : String → String
predeploy_vm_name alias = replace_first alias "img-" "vm-" <> "-predeploy"

abbrev root_devices : String → Devices
root_devices pool = ("root", ("type", "disk") ∷ ("pool", pool) ∷ ("path", "/") ∷ []) ∷ []

module _ {W E : Type 0} (c : Cpi W E) where
  -- The block `if c.config.Server.PredeployStemcell`.
  unfoldable pub predeploy : String → String → M W Done
  unfolding predeploy_vm_name
  predeploy alias description = do
    let vmid = predeploy_vm_name alias
    wrapped "Creating predeploy VM" (
        c.adapter.create_instance (record {
          name = vmid;
          stemcell_alias = alias;
          instance_type = "c2-m4";
          project = c.config.server.project;
          profiles = c.config.server.profile ∷ [];
          target = c.config.server.target;
          devices = root_devices c.config.server.storage_pool;
          config = [];
        }))
    wrapped "Updating description on predeploy VM"
        (c.adapter.update_instance_description vmid ("predeploy vm for " <> description))

  -- `upload` is what follows the search for an existing image.
  unfoldable pub upload : Archives W → String → StemcellProperties → String → String → M W String
  unfolding find_image predeploy
  upload archives image_path props description id = do
    let alias = "img-" <> id
    wrapped "tgz open" (archives.open_file image_path)
    tar_file ← wrapped "gzip open" (archives.gzip_reader image_path)
    h ← lift (find_image image_path tar_file.last tar_file.entries)
    wrapped "error while creating and uploading image" (
        c.adapter.create_and_upload_image (record {
          alias = alias;
          description = description;
          os_distro = props.os_distro;
          image_path = image_path;
          architecture = props.architecture;
          create_date = h.mod_time;
          root_device_name = if props.root_device_name == "" then "/" else props.root_device_name;
          disk_in_mb = props.disk;
          tar_file = h.rest;
        }))
    if c.config.server.predeploy_stemcell then predeploy alias description else pure tt
    pure alias

  -- The cloud properties are what `scprops.As(&props)` leaves in `props`.
  unfoldable pub create_stemcell : Archives W → String → Result StemcellProperties → M W String
  unfolding upload
  create_stemcell archives image_path scprops = do
    c.adapter.is_connected
    id ← wrapped "Generating stemcell id" c.uuid_gen
    props ← wrapped "error while reading stemcell cloud properties" (lift scprops)
    let description = props.name <> "-" <> props.version
    existing ← wrapped "error while locating image" (c.adapter.find_existing_image description)
    if not (existing == "") then pure existing else upload archives image_path props description id

  -- An error of `HasVM` ends the deletion with no error.
  unfoldable pub delete_stemcell : String → M W Done
  unfolding predeploy_vm_name has_vm
  delete_stemcell alias = do
    c.adapter.is_connected
    found ← attempt (has_vm c (predeploy_vm_name alias))
    elim found [
      | inl _ ↦ pure tt
      | inr vm_exists ↦ do
        if vm_exists then c.adapter.delete_instance (predeploy_vm_name alias) else pure tt
        c.adapter.delete_image alias
    ]
