-- ===== src/Adapter/Lxd/Device/Source.antt =====
-- `DetachDeviceBySource` of `src/adapter/lxd/device.go`.
use bosh_lxd_cpi_release.Base.{
  String, ◌≡◌, ◌≢◌, refl, sym, ap, ◌∙◌, none, some, [], ◌∷◌, arith, ◌==◌, eq_iff, Bool-cases, inl,
  inr, if◌then◌else◌,
}
use bosh_lxd_cpi_release.Base.Dict.{lookup, erase, get, lookup-erase}
use bosh_lxd_cpi_release.Base.Go.{ok}
use bosh_lxd_cpi_release.Adapter.Interface.{Device, Devices}
use bosh_lxd_cpi_release.Adapter.Client.{Client, Instance, InstancePut}
use bosh_lxd_cpi_release.Adapter.Lxd.Wait.{wait}
use bosh_lxd_cpi_release.Adapter.Lxd.Device.{
  with_devices, name_of_source, detach_device_by_source, get_devices,
}
use bosh_lxd_cpi_release.Adapter.Lxd.Device.Laws.{SeesUpdates, got_devices}

-- The names of the devices are all different, as the keys of a Go map are.
abbrev pub DistinctNames : Devices → Type 0
DistinctNames [] = Unit
DistinctNames ((name, device) ∷ devices) = (lookup name devices ≡ none) × DistinctNames devices

name_of_source-lookup :
    (source : String) (devices : Devices)
    → DistinctNames devices
    → name_of_source source devices ≢ ""
    → (device : Device) × (lookup (name_of_source source devices) devices ≡ some device)
      × (get "source" device ≡ source)
unfolding name_of_source lookup
name_of_source-lookup source [] distinct found = elim (found refl) [ ]
name_of_source-lookup source ((name, device) ∷ devices) (fresh, distinct) found =
    elim (Bool-cases (get "source" device == source)) [
      | inl here ↦ (
        device,
        ground (arith, eq_iff name name),
        ground (arith, eq_iff (get "source" device) source),
      )
      | inr later ↦
          let (device', there, fits) =
            name_of_source-lookup source devices distinct (λ e. found (ground (arith, e))) in
          (device', ground (arith, eq_iff name (name_of_source source devices)), fits)
    ]

-- The search gives a name that is not empty where a device has the source.
name_of_source-finds :
    (source name : String) (device : Device) (devices : Devices)
    → lookup "" devices ≡ none
    → lookup name devices ≡ some device
    → get "source" device ≡ source
    → name_of_source source devices ≢ ""
unfolding name_of_source lookup
name_of_source-finds source name device [] named has fits = cc
name_of_source-finds source name device ((n, d) ∷ devices) named has fits =
    elim (Bool-cases (n == name)) [
      | inl here ↦ λ e. ground (arith, eq_iff n "", eq_iff (get "source" d) source)
      | inr later ↦ λ e. ground (
        arith,
        eq_iff n "",
        name_of_source-finds source name device devices (ground arith) (ground arith) fits,
      )
    ]

module _ {W : Type 0} (c : Client W) (sees : SeesUpdates c) where
  detached_source :
      (i source : String) (inst : Instance) (etag : String) (w w₀ : W)
      → c.get_instance i w ≡ (ok (inst, etag), w₀)
      → name_of_source source inst.put.devices ≢ ""
      → detach_device_by_source c i source w
        ≡ wait c
            (c.update_instance i
              (with_devices
                (erase (name_of_source source inst.put.devices) inst.put.devices)
                inst.put)
              "")
            w₀
  unfolding detach_device_by_source
  detached_source i source inst etag w w₀ h found =
      ground (arith, eq_iff (name_of_source source inst.put.devices) "")

  -- On a server whose finished updates are seen by later reads, where an instance has a device with
  -- that source and its device names differ and none is empty, DetachDeviceBySource takes one such
  -- device off the instance and leaves the others as they were.
  pub lookup-detach_device_by_source :
      (i source name : String) (device : Device) (inst : Instance) (etag : String) (ds : Devices)
      (w w₀ w₁ w₂ : W)
      → DistinctNames inst.put.devices
      → lookup "" inst.put.devices ≡ none
      → lookup name inst.put.devices ≡ some device
      → get "source" device ≡ source
      → c.get_instance i w ≡ (ok (inst, etag), w₀)
      → detach_device_by_source c i source w ≡ (ok tt, w₁)
      → get_devices c i w₁ ≡ (ok ds, w₂)
      → (gone : String) × (device : Device) × (lookup gone inst.put.devices ≡ some device)
        × (get "source" device ≡ source)
        × ((n : String) → lookup n ds ≡ (if gone == n then none else lookup n inst.put.devices))
  lookup-detach_device_by_source i source name device inst etag ds w w₀ w₁ w₂ distinct named has
        fitting before done after =
      let found = name_of_source-finds source name device inst.put.devices named has fitting in
      let (device, there, fits) = name_of_source-lookup source inst.put.devices distinct found in
      let gone = name_of_source source inst.put.devices in
      let (inst', etag', got, same) = got_devices c i w₁ w₂ ds after in
      let put' = with_devices (erase gone inst.put.devices) inst.put in
      let updated = sym (detached_source i source inst etag w w₀ before found) ∙ done in
      (
        gone,
        device,
        there,
        fits,
        λ n.
            ap (lookup n) (
              same
              ∙ ap (λ (p : InstancePut). p.devices)
                  (sees i "" etag' put' inst' w₀ w₁ w₂ updated got))
            ∙ lookup-erase gone n inst.put.devices,
      )
