-- ===== src/Adapter/Lxd/Device/Laws.antt =====
-- What the operations of `src/adapter/lxd/device.go` leave on a server whose finished updates are
-- seen by later reads.
use bosh_lxd_cpi_release.Base.{
  String, ◌≡◌, refl, sym, ap, ◌∙◌, Option, none, some, arith, ◌==◌, eq_iff, if◌then◌else◌,
}
use bosh_lxd_cpi_release.Base.Dict.{lookup, insert, erase, lookup-insert, erase-insert}
use bosh_lxd_cpi_release.Base.Go.{Result, ok, err, panic, pure, ◌>>=◌}
use bosh_lxd_cpi_release.Adapter.Interface.{Device, Devices}
use bosh_lxd_cpi_release.Adapter.Client.{Client, Instance, InstancePut}
use bosh_lxd_cpi_release.Adapter.Lxd.Wait.{wait}
use bosh_lxd_cpi_release.Adapter.Lxd.Device.{
  with_devices, attach_device, detach_device_by_name, get_devices,
}

-- An update that `wait` reports as done is what a read right after it returns.
abbrev pub SeesUpdates : {W : Type 0} → Client W → Type 0
SeesUpdates {W} c =
    (name etag etag' : String) (put : InstancePut) (inst : Instance) (w w₁ w₂ : W)
    → wait c (c.update_instance name put etag) w ≡ (ok tt, w₁)
    → c.get_instance name w₁ ≡ (ok (inst, etag'), w₂)
    → inst.put ≡ put

own : (d : String) (dev : Device) (o : Option Device) → (if d == d then some dev else o) ≡ some dev
own d dev o = ground (arith, eq_iff d d)

module _ {W : Type 0} (c : Client W) where
  pub got_devices :
      (i : String) (w w' : W) (ds : Devices)
      → get_devices c i w ≡ (ok ds, w')
      → (inst : Instance) × (etag : String) × (c.get_instance i w ≡ (ok (inst, etag), w'))
        × (ds ≡ inst.put.devices)
  unfolding get_devices
  got_devices i w w' ds h = go (c.get_instance i w) refl h
    where
      go :
          (out : Result (Instance × String) × W)
          → c.get_instance i w ≡ out
          → ((λ _. out) >>= λ got. pure got.0.put.devices) w ≡ (ok ds, w')
          → (inst : Instance) × (etag : String) × (c.get_instance i w ≡ (ok (inst, etag), w'))
            × (ds ≡ inst.put.devices)
      go (ok (inst, etag), u) e k = (inst, etag, e ∙ cc, cc)
      go (err x, u) e k = cc
      go (panic, u) e k = cc

  attached :
      (i d : String) (dev : Device) (inst : Instance) (etag : String) (w w₀ w₁ : W)
      → c.get_instance i w ≡ (ok (inst, etag), w₀)
      → attach_device c i d dev w ≡ (ok tt, w₁)
      → (lookup d inst.put.devices ≡ none)
        × (wait c
              (c.update_instance i (with_devices (insert d dev inst.put.devices) inst.put) etag)
              w₀
            ≡ (ok tt, w₁))
  unfolding attach_device
  attached i d dev inst etag w w₀ w₁ h k = ground arith

  detached :
      (i d : String) {dev : Device} (inst : Instance) (etag : String) (w w₀ : W)
      → c.get_instance i w ≡ (ok (inst, etag), w₀)
      → lookup d inst.put.devices ≡ some dev
      → detach_device_by_name c i d w
        ≡ wait c (c.update_instance i (with_devices (erase d inst.put.devices) inst.put) "") w₀
  unfolding detach_device_by_name
  detached i d inst etag w w₀ h k = ground arith

  module _ (sees : SeesUpdates c) where
    -- On a server whose finished updates are seen by later reads, a device that was attached is the
    -- one that the instance has under that name, where it had none before; its other devices are
    -- what they were.
    pub lookup-attach_device :
        (i d n : String) (dev : Device) (inst : Instance) (etag : String) (ds : Devices)
        (w w₀ w₁ w₂ : W)
        → c.get_instance i w ≡ (ok (inst, etag), w₀)
        → attach_device c i d dev w ≡ (ok tt, w₁)
        → get_devices c i w₁ ≡ (ok ds, w₂)
        → (lookup d inst.put.devices ≡ none)
          × (lookup n ds ≡ (if d == n then some dev else lookup n inst.put.devices))
    lookup-attach_device i d n dev inst etag ds w w₀ w₁ w₂ before done after =
        let (fresh, updated) = attached i d dev inst etag w w₀ w₁ before done in
        let (inst', etag', got, same) = got_devices i w₁ w₂ ds after in
        (
          fresh,
          ap (lookup n) (
                same
                ∙ ap (λ (put : InstancePut). put.devices)
                    (sees i etag etag' (with_devices (insert d dev inst.put.devices) inst.put) inst'
                      w₀ w₁ w₂ updated got))
              ∙ lookup-insert d n dev inst.put.devices,
        )

    -- On a server whose finished updates are seen by later reads, attaching a device and detaching
    -- it by its name leaves the devices that there were.
    pub detach-attach_device :
        (i d : String) (dev : Device) (inst inst' : Instance) (etag etag' : String) (ds : Devices)
        (w w₀ w₁ u w₂ w₃ : W)
        → c.get_instance i w ≡ (ok (inst, etag), w₀)
        → attach_device c i d dev w ≡ (ok tt, w₁)
        → c.get_instance i w₁ ≡ (ok (inst', etag'), u)
        → detach_device_by_name c i d w₁ ≡ (ok tt, w₂)
        → get_devices c i w₂ ≡ (ok ds, w₃)
        → ds ≡ inst.put.devices
    detach-attach_device i d dev inst inst' etag etag' ds w w₀ w₁ u w₂ w₃ before done again undone
          after =
        let (fresh, updated) = attached i d dev inst etag w w₀ w₁ before done in
        let (inst'', etag'', got, same) = got_devices i w₂ w₃ ds after in
        let put₁ = with_devices (insert d dev inst.put.devices) inst.put in
        let is_put₁ : inst'.put ≡ put₁ = sees i etag etag' put₁ inst' w₀ w₁ u updated again in
        let there : lookup d inst'.put.devices ≡ some dev =
          ap (λ (p : InstancePut). lookup d p.devices) is_put₁
          ∙ lookup-insert d d dev inst.put.devices
          ∙ own d dev (lookup d inst.put.devices) in
        let put₂ = with_devices (erase d inst'.put.devices) inst'.put in
        let removed = sym (detached i d inst' etag' w₁ u again there) ∙ undone in
        same
        ∙ ap (λ (p : InstancePut). p.devices) (sees i "" etag'' put₂ inst'' u w₂ w₃ removed got)
        ∙ ap (λ (p : InstancePut). erase d p.devices) is_put₁
        ∙ erase-insert d dev inst.put.devices fresh
