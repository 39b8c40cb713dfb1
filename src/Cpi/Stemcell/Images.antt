-- ===== src/Cpi/Stemcell/Images.antt =====
-- The images of `src/cpi/create_stemcell.go` and `delete_stemcell.go`.
use bosh_lxd_cpi_release.Base.{
  ◌<◌, ◌≤◌, String, Bool, not, if◌then◌else◌, true, false, ◌≡◌, ◌≢◌, List, [], ◌∷◌, ◌++◌, All,
  arith, ◌<>◌, eq_iff,
}
use bosh_lxd_cpi_release.Base.Go.{Error, Result, ok, err, panic, Done}
use bosh_lxd_cpi_release.Cpi.State.{Cpi, StemcellProperties}
use bosh_lxd_cpi_release.Cpi.Vm.{has_vm}
use bosh_lxd_cpi_release.Cpi.Stemcell.{
  Archives, TarEntry, hundred_mebibytes, find_image, predeploy_vm_name, create_stemcell,
  delete_stemcell,
}

-- The search of CreateStemcell takes the first entry of more than 100 MiB, however many smaller
-- ones come before it and whatever comes after it; where no entry is that big it finds none.
pub find_image-first :
    (image_path : String) (last : Error) (small rest : List TarEntry) (h : TarEntry)
    → All (λ (e : TarEntry). e.size ≤ hundred_mebibytes) small
    → hundred_mebibytes < h.size
    → (find_image image_path last (small ++ (h ∷ rest)) ≡ ok h)
      × ((x : TarEntry) → find_image image_path last small ≢ ok x)
unfolding find_image
find_image-first image_path last [] rest h hs big = (ground arith, λ x e. cc)
find_image-first image_path last (s ∷ small) rest h (i, hs) big =
    let (found, none_there) = find_image-first image_path last small rest h hs big in
    (ground (arith, found), λ x e. ground (arith, none_there x))

module _ {W E : Type 0} (c : Cpi W E) where
  -- A stemcell whose description an image of the server has already is not uploaded again: the
  -- image's alias is the CID, and nothing is done after the search, neither with the archive nor
  -- with a predeployed VM.
  pub create_stemcell-existing :
      (archives : Archives W) (image_path id existing : String) (props : StemcellProperties)
      {w w₁ w₂ w₃ : W}
      → c.adapter.is_connected w ≡ (ok tt, w₁)
      → c.uuid_gen w₁ ≡ (ok id, w₂)
      → c.adapter.find_existing_image (props.name <> "-" <> props.version) w₂ ≡ (ok existing, w₃)
      → existing ≢ ""
      → create_stemcell c archives image_path (ok props) w ≡ (ok existing, w₃)
  unfolding create_stemcell
  create_stemcell-existing archives image_path id existing props connected made there named =
      ground (arith, eq_iff existing "")

  -- DeleteStemcell deletes the image last: after the predeployed VM, if there is one, and not if
  -- the deletion of that VM fails. Where the look-up of the VM itself fails, the operation reports
  -- success and leaves the image and the VM alone.
  pub delete_stemcell_outcomes :
      (alias : String) (found : Result Bool) (deleted : Result Done) (w w₁ w₂ w₃ : W)
      → c.adapter.is_connected w ≡ (ok tt, w₁)
      → has_vm c (predeploy_vm_name alias) w₁ ≡ (found, w₂)
      → c.adapter.delete_instance (predeploy_vm_name alias) w₂ ≡ (deleted, w₃)
      → delete_stemcell c alias w ≡ (elim found [
        | ok exists ↦ if not exists then c.adapter.delete_image alias w₂ else elim deleted [
          | ok _ ↦ c.adapter.delete_image alias w₃
          | err e ↦ (err e, w₃)
          | panic ↦ (panic, w₃)
        ]
        | err e ↦ (ok tt, w₂)
        | panic ↦ (panic, w₂)
      ])
  unfolding delete_stemcell
  delete_stemcell_outcomes alias (ok false) deleted w w₁ w₂ w₃ connected sought gone = ground arith
  delete_stemcell_outcomes alias (ok true) (ok _) w w₁ w₂ w₃ connected sought gone = ground arith
  delete_stemcell_outcomes alias (ok true) (err _) w w₁ w₂ w₃ connected sought gone = ground arith
  delete_stemcell_outcomes alias (ok true) panic w w₁ w₂ w₃ connected sought gone = ground arith
  delete_stemcell_outcomes alias (err _) deleted w w₁ w₂ w₃ connected sought gone = ground arith
  delete_stemcell_outcomes alias panic deleted w w₁ w₂ w₃ connected sought gone = ground arith
