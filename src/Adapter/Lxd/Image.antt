-- ===== src/Adapter/Lxd/Image.antt =====
-- `src/adapter/lxd/image.go`
use Prim.Native.String.{len}
use bosh_lxd_cpi_release.Base.{
  ℕ, String, false, none, some, List, [], ◌∷◌, ◌==◌, ◌<>◌, if◌then◌else◌,
}
use bosh_lxd_cpi_release.Base.Text.{decimal}
use bosh_lxd_cpi_release.Base.Dict.{lookup, get}
use bosh_lxd_cpi_release.Base.Go.{error, panic, M, fail, lift, pure, Done, ◌>>=◌, ◌>>◌}
use bosh_lxd_cpi_release.Adapter.Interface.{ImageMetadata}
use bosh_lxd_cpi_release.Adapter.Client.{Client, Encoders, Image, ImageProperties, instance_type_vm}
use bosh_lxd_cpi_release.Adapter.Lxd.Wait.{wait}

-- The loop of `FindExistingImage`: an image of that description that has no alias is passed over.
unfoldable pub existing_alias : String → List Image → String
unfolding get
existing_alias description [] = ""
existing_alias description (image ∷ images) =
    let later = existing_alias description images in
    if description == get "description" image.properties
    then elim image.aliases [ [] ↦ later | name ∷ _ ↦ name ]
    else later

unfoldable pub image_properties : Encoders → ImageMetadata → ImageProperties
image_properties e meta = record {
  architecture = meta.architecture;
  creation_date = meta.create_date;
  properties =
      ("architecture", meta.architecture)
      ∷ ("description", meta.description)
      ∷ ("os", e.title meta.os_distro)
      ∷ ("root_device_name", meta.root_device_name)
      ∷ ("root_disk_size", decimal meta.disk_in_mb <> "MiB")
      ∷ [];
}

-- 0600 in octal.
abbrev file_mode : ℕ
file_mode = 384

module _ {W : Type 0} (c : Client W) where
  unfoldable pub find_existing_image : String → M W String
  unfolding existing_alias
  find_existing_image description = do
    images ← c.get_images
    pure (existing_alias description images)

  unfoldable pub get_stemcell_description : String → M W String
  unfolding lookup
  get_stemcell_description alias = do
    target ← c.get_image_alias alias
    image ← c.get_image target
    elim (lookup "description" image.properties) [
      | none ↦ fail (error ("no description for image '" <> target <> "'"))
      | some description ↦ pure description
    ]

  -- The tar archive that holds `metadata.yaml`.
  unfoldable pub metadata_archive : ImageMetadata → M W String
  unfolding image_properties
  metadata_archive meta = do
    metadata_yaml ← lift (c.encoders.marshal_yaml (image_properties c.encoders meta))
    headed ← lift (
        c.encoders.write_header
          (record { name = "metadata.yaml"; mode = file_mode; size = len metadata_yaml }) "")
    written ← lift (c.encoders.write metadata_yaml headed)
    lift (c.encoders.close written)

  unfoldable pub create_and_upload_image : ImageMetadata → M W Done
  unfolding metadata_archive
  create_and_upload_image meta = do
    archive ← metadata_archive meta
    op ←
        c.create_image
          (record {
            is_public = false;
            auto_update = false;
            filename = c.encoders.base meta.image_path;
          })
          (record {
            meta_file = archive;
            rootfs_file = meta.tar_file;
            image_type = instance_type_vm;
          })
    op.await
    found ← op.fingerprint
    elim found [
      | none ↦ lift panic
      | some fingerprint ↦
          c.create_image_alias
            (record { description = meta.description; target = fingerprint; name = meta.alias })
    ]

  unfoldable pub delete_image : String → M W Done
  delete_image alias = do target ← c.get_image_alias alias; wait c (c.delete_image target)
