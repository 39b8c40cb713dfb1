-- ===== src/Adapter/Incus/Device.antt =====
-- `src/adapter/incus/device.go`
use bosh_lxd_cpi_release.Base.{String, [], ◌∷◌, ◌==◌, ◌<>◌, if◌then◌else◌}
use bosh_lxd_cpi_release.Base.Dict.{has, lookup, insert, erase, get}
use bosh_lxd_cpi_release.Base.Go.{error, M, fail, pure, Done, ◌>>=◌}
use bosh_lxd_cpi_release.Adapter.Interface.{Device, Devices}
use bosh_lxd_cpi_release.Adapter.Client.{Client, InstancePut}
use bosh_lxd_cpi_release.Adapter.Incus.Wait.{wait}

-- `instance.Devices = devices` and `instance.Writable()`
abbrev pub with_devices : Devices → InstancePut → InstancePut
with_devices devices put = record put { devices = devices }

-- The loop over the devices: the first name whose source fits, or "".
unfoldable pub name_of_source : String → Devices → String
unfolding get
name_of_source source_name [] = ""
name_of_source source_name ((name, device) ∷ devices) =
    if get "source" device == source_name then name else name_of_source source_name devices

module _ {W : Type 0} (c : Client W) where
  unfoldable pub attach_device : String → String → Device → M W Done
  unfolding lookup
  attach_device instance_name device_name device = do
    (instance, etag) ← c.get_instance instance_name
    let devices = instance.put.devices
    if has device_name devices
        then fail (error ("device already exists: '" <> device_name <> "'"))
        else wait c (
            c.update_instance instance_name
              (with_devices (insert device_name device devices) instance.put) etag)

  unfoldable pub detach_device_by_name : String → String → M W Done
  unfolding lookup
  detach_device_by_name instance_name device_name = do
    (instance, _) ← c.get_instance instance_name
    let devices = instance.put.devices
    if has device_name devices
        then wait c (
            c.update_instance instance_name (with_devices (erase device_name devices) instance.put)
              "")
        else pure tt

  unfoldable pub detach_device_by_source : String → String → M W Done
  unfolding name_of_source
  detach_device_by_source instance_name source_name = do
    (instance, _) ← c.get_instance instance_name
    let devices = instance.put.devices
    let device_name = name_of_source source_name devices
    if device_name == ""
        then pure tt
        else wait c (
            c.update_instance instance_name (with_devices (erase device_name devices) instance.put)
              "")

  unfoldable pub get_devices : String → M W Devices
  get_devices instance_name = do
    (instance, _) ← c.get_instance instance_name
    pure instance.put.devices
