-- ===== src/Cpi/Snapshot/RoundTrip.antt =====
-- The CID of a snapshot, between `SnapshotDisk` and `DeleteSnapshot`
-- (`src/cpi/snapshot_disk.go`, `delete_snapshot.go`).
use text.Mathlib.TextLemmas.{nil-append, cons-append, cons≢nil}
use bosh_lxd_cpi_release.Base.{
  String, ◌<>◌, ◌≡◌, ◌≢◌, refl, ap, sym, ◌∙◌, false, Option, ◌==◌, arith, eq_iff,
}
use bosh_lxd_cpi_release.Base.Text.{split}
use bosh_lxd_cpi_release.Base.Text.Split.{Lacks, Lacks-append, split-two}
use bosh_lxd_cpi_release.Base.Go.{Error, ok}
use bosh_lxd_cpi_release.Cpi.State.{Cpi}
use bosh_lxd_cpi_release.Cpi.Devices.{snapshot_prefix}
use bosh_lxd_cpi_release.Cpi.Snapshot.{snapshot_parts, snapshot_disk, delete_snapshot}

underscore-append : (t : String) → "_" <> t ≡ String.◌∷◌ "_" t
underscore-append t = cons-append "_" String.[] t ∙ ap (λ u. String.◌∷◌ "_" u) (nil-append t)

snap-append_ne : (id : String) → snapshot_prefix <> id ≢ ""
snap-append_ne id h = cons≢nil (sym (cons-append "s" "nap-" id) ∙ h)

ne-eq_test : (s : String) → s ≢ "" → (s == "") ≡ false
ne-eq_test s h = ground (arith, eq_iff s "")

parts_of_cid :
    (disk_cid id : String)
    → disk_cid ≢ ""
    → Lacks b'_' disk_cid
    → Lacks b'_' id
    → snapshot_parts (split b'_' (disk_cid <> "_" <> (snapshot_prefix <> id)))
      ≡ ok (disk_cid, snapshot_prefix <> id)
unfolding snapshot_parts
parts_of_cid disk_cid id named h k =
    rw
      (
        underscore-append,
        split-two b'_' disk_cid "_" (snapshot_prefix <> id) refl h
            (Lacks-append b'_' snapshot_prefix id (refl, (refl, (refl, (refl, (refl, tt))))) k),
      )
      (rw (ne-eq_test disk_cid named, ne-eq_test (snapshot_prefix <> id) (snap-append_ne id)))

cid_of_snapshot_disk :
    {W E : Type 0} (c : Cpi W E) (disk_cid id cid : String) (e : Option Error) (w w₁ w₂ w' : W)
    → c.adapter.is_connected w ≡ (ok tt, w₁)
    → c.uuid_gen w₁ ≡ (ok id, w₂)
    → snapshot_disk c disk_cid w ≡ (ok (cid, e), w')
    → cid ≡ disk_cid <> "_" <> (snapshot_prefix <> id)
unfolding snapshot_disk
cid_of_snapshot_disk c disk_cid id cid e w w₁ w₂ w' connected made done = ground arith

delete_of_parts :
    {W E : Type 0} (c : Cpi W E) (cid volume_name snapshot_name : String) (v v₁ : W)
    → c.adapter.is_connected v ≡ (ok tt, v₁)
    → snapshot_parts (split b'_' cid) ≡ ok (volume_name, snapshot_name)
    → delete_snapshot c cid v
      ≡ c.adapter.delete_storage_pool_volume_snapshot c.config.server.storage_pool volume_name
          snapshot_name v₁
unfolding delete_snapshot
delete_of_parts c cid volume_name snapshot_name v v₁ again parts = ground arith

-- A CID that SnapshotDisk returned, whether or not its call failed, makes DeleteSnapshot ask for
-- the deletion of that snapshot of that disk, if the disk's name is not empty, neither it nor the
-- generated id has an underscore, and the server is connected both times.
pub delete_snapshot-snapshot_disk :
    {W E : Type 0} (c : Cpi W E) (disk_cid id cid : String) (e : Option Error) (w w₁ w₂ w' v v₁ : W)
    → c.adapter.is_connected w ≡ (ok tt, w₁)
    → c.uuid_gen w₁ ≡ (ok id, w₂)
    → snapshot_disk c disk_cid w ≡ (ok (cid, e), w')
    → disk_cid ≢ ""
    → Lacks b'_' disk_cid
    → Lacks b'_' id
    → c.adapter.is_connected v ≡ (ok tt, v₁)
    → delete_snapshot c cid v
      ≡ c.adapter.delete_storage_pool_volume_snapshot c.config.server.storage_pool disk_cid
          ("snap-" <> id)
          v₁
delete_snapshot-snapshot_disk c disk_cid id cid e w w₁ w₂ w' v v₁ connected made done named h k
      again =
    rw (cid_of_snapshot_disk c disk_cid id cid e w w₁ w₂ w' connected made done) (
      delete_of_parts c (disk_cid <> "_" <> (snapshot_prefix <> id)) disk_cid
        (snapshot_prefix <> id) v v₁ again (parts_of_cid disk_cid id named h k))
