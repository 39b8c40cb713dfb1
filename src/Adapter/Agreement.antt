-- ===== src/Adapter/Agreement.antt =====
-- The two adapters, `src/adapter/lxd` and `src/adapter/incus`, over the same calls.
use mathlib.Core.Path.{fun_ext}
use bosh_lxd_cpi_release.Base.{
  String, ◌≡◌, refl, arith, ℕ, List, [], ◌∷◌, ap, ◌<>◌, ◌==◌, if◌then◌else◌, true, false,
}
use bosh_lxd_cpi_release.Base.Text.{contains}
use bosh_lxd_cpi_release.Base.Go.{Error, Result, ok, err, panic, M, Done, error, fail, pure, ◌>>=◌}
use bosh_lxd_cpi_release.Adapter.Interface.{Action, Device, Devices, action_text}
use bosh_lxd_cpi_release.Base.Dict.{has, insert, erase}
use bosh_lxd_cpi_release.Adapter.Client.{Client, Operation, InstancePut, InstanceStatePut}
use bosh_lxd_cpi_release.Adapter.Lxd.Wait as LxdWait
use bosh_lxd_cpi_release.Adapter.Incus.Wait as IncusWait
use bosh_lxd_cpi_release.Adapter.Lxd.Device as LxdDevice
use bosh_lxd_cpi_release.Adapter.Incus.Device as IncusDevice
use bosh_lxd_cpi_release.Adapter.Lxd.Instance as LxdInstance
use bosh_lxd_cpi_release.Adapter.Incus.Instance as IncusInstance
use bosh_lxd_cpi_release.Adapter.Lxd.Image as LxdImage
use bosh_lxd_cpi_release.Adapter.Incus.Image as IncusImage

name_of_source_alike :
    (s : String) (ds : Devices) → LxdDevice.name_of_source s ds ≡ IncusDevice.name_of_source s ds
unfolding LxdDevice.name_of_source IncusDevice.name_of_source
name_of_source_alike s [] = refl
name_of_source_alike s ((name, dev) ∷ ds) = ground (arith, name_of_source_alike s ds)

sources_alike : LxdDevice.name_of_source ≡ IncusDevice.name_of_source
sources_alike = fun_ext (λ s. fun_ext (name_of_source_alike s))

matches_alike :
    (code : ℕ) (codes : List ℕ)
    → LxdInstance.has_match code codes ≡ IncusInstance.has_match code codes
unfolding LxdInstance.has_match IncusInstance.has_match
matches_alike code [] = refl
matches_alike code (x ∷ codes) = ground (arith, matches_alike code codes)

-- That a call reports that error: it fails to start an operation, or the operation fails.
abbrev pub Reports : {W : Type 0} → Result (Operation W) × W → Error → Type 0
Reports (ok op, v) e = (op.await v).0 ≡ err e
Reports (err x, v) e = x ≡ e
Reports (panic, v) e = ⊥

abbrev forced : Action → InstanceStatePut
forced action = record { action = action_text action; timeout = 30; force = true; stateful = false }

module _ {W : Type 0} (c : Client W) where
  -- None of the errors that a call reports is one that only one of the adapters tolerates.
  abbrev pub IsAlike : M W (Operation W) → Type 0
  IsAlike m =
      (w : W) (e : Error)
      → Reports (m w) e
      → contains (c.error_text e) "LXD VM agent" ≡ contains (c.error_text e) "Incus VM agent"

  wait_alike : (m : M W (Operation W)) → IsAlike m → LxdWait.wait c m ≡ IncusWait.wait c m
  unfolding LxdWait.wait IncusWait.wait
  wait_alike m alike = fun_ext (λ w. go w (m w) (alike w))
    where
      ended :
          (op : Operation W) (out : Result Done × W)
          → ((e : Error)
              → out.0 ≡ err e
              → contains (c.error_text e) "LXD VM agent"
                ≡ contains (c.error_text e) "Incus VM agent")
          → ◌≡◌ {A = Result Done × W}
              (LxdWait.waited c out.0, out.1)
              (IncusWait.waited c out.0, out.1)
      ended op (ok _, v) same = refl
      ended op (err e, v) same = ground (arith, same e refl)
      ended op (panic, v) same = refl

      go :
          (w : W) (out : Result (Operation W) × W)
          → ((e : Error)
              → Reports out e
              → contains (c.error_text e) "LXD VM agent"
                ≡ contains (c.error_text e) "Incus VM agent")
          → LxdWait.wait c (λ _. out) w ≡ IncusWait.wait c (λ _. out) w
      go w (ok op, v) same = ended op (op.await v) same
      go w (err e, v) same = ground (arith, same e refl)
      go w (panic, v) same = refl

  abbrev Updating : Type 0
  Updating = String → InstancePut → String → M W Done

  module _
      (update_alike : (i : String) (put : InstancePut) (etag : String)
        → IsAlike (c.update_instance i put etag)) where
    updates_alike :
        ◌≡◌ {A = Updating}
          (λ i put etag. LxdWait.wait c (c.update_instance i put etag))
          (λ i put etag. IncusWait.wait c (c.update_instance i put etag))
    updates_alike = fun_ext (λ i. fun_ext (λ put.
        fun_ext (λ etag. wait_alike (c.update_instance i put etag) (update_alike i put etag))))

    -- Where no error of an update of an instance is tolerated by one adapter only, each operation
    -- on devices returns and leaves the same in the LXD and the Incus adapter.
    pub devices_alike :
        (i d : String) (dev : Device) (w : W)
        → (LxdDevice.attach_device c i d dev w ≡ IncusDevice.attach_device c i d dev w)
          × (LxdDevice.detach_device_by_name c i d w ≡ IncusDevice.detach_device_by_name c i d w)
          × (LxdDevice.detach_device_by_source c i d w
              ≡ IncusDevice.detach_device_by_source c i d w)
          × (LxdDevice.get_devices c i w ≡ IncusDevice.get_devices c i w)
    unfolding LxdDevice.attach_device IncusDevice.attach_device LxdDevice.detach_device_by_name
        IncusDevice.detach_device_by_name LxdDevice.detach_device_by_source
        IncusDevice.detach_device_by_source LxdDevice.get_devices IncusDevice.get_devices
    devices_alike i d dev w = (
      ap
          (λ (update : Updating).
            (c.get_instance i >>= λ got.
            if has d got.0.put.devices
            then fail (error ("device already exists: '" <> d <> "'"))
            else update i (LxdDevice.with_devices (insert d dev got.0.put.devices) got.0.put) got.1)
              w)
          updates_alike,
      ap
          (λ (update : Updating).
            (c.get_instance i >>= λ got.
            if has d got.0.put.devices
            then update i (LxdDevice.with_devices (erase d got.0.put.devices) got.0.put) ""
            else pure tt)
              w)
          updates_alike,
      rw sources_alike (
          ap
            (λ (update : Updating).
              (c.get_instance i >>= λ got.
              let name = IncusDevice.name_of_source d got.0.put.devices in
              if name == ""
              then pure tt
              else update i (LxdDevice.with_devices (erase name got.0.put.devices) got.0.put) "")
                w)
            updates_alike),
      refl,
    )
