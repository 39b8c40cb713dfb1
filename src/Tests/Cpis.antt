-- ===== src/Tests/Cpis.antt =====
-- A CPI over the adapter with fixed answers.
use bosh_lxd_cpi_release.Base.{◌∷◌, [], String, Bool, Option, true, ◌==◌, ◌<>◌}
use bosh_lxd_cpi_release.Base.Go.{Error, ok}
use bosh_lxd_cpi_release.Config.{Config, default_config}
use bosh_lxd_cpi_release.Cpi.State.{Cpi, Library}
use bosh_lxd_cpi_release.Tests.Fixtures.{Answers, Log, adapter_of, did, text_of}

abbrev pub library : Library String
library = record {
  error_text = text_of;
  is_dynamic = λ n. n.network_type == "dynamic";
  new_network = λ o. record {
    network_type = o.network_type;
    ip = o.ip;
    netmask = o.netmask;
    gateway = o.gateway;
    dns = o.dns;
    default_for = o.default_for;
    cloud_target = "";
  };
  for_vm = λ agent vm networks env options. agent <> vm;
  attach_system_disk = λ h e. e;
  attach_ephemeral_disk = λ h e. e <> " /dev/sdb";
  attach_persistent_disk = λ d h e. e <> " " <> d;
  detach_persistent_disk = λ d e. e;
  as_bytes = λ e. ok e;
  unmarshal_vm_meta = λ s. ok (record {
    instance_group = s;
    job = s;
    director = s;
    deployment = s;
    index = "0";
    created_at = "";
  });
  unmarshal_disk_meta = λ s. ok (record {
    director = s;
    deployment = s;
    instance_id = s;
    instance_index = "0";
    instance_group = s;
    attached_at = "";
  });
}

abbrev locking_config : Config
locking_config = record default_config {
  server = record default_config.server {
    instance_config = ("default", ("raw.qemu", "-bios default") ∷ []) ∷ [];
    create_vm_lock = record { enabled = true; timeout = "1m"; path = "lock" };
  };
}

-- `taken`: what an attempt at the lock gives.
abbrev pub cpi_of : Bool × Option Error → Answers → Cpi Log String
cpi_of taken a = record {
  adapter = adapter_of a;
  uuid_gen = did "uuid" (ok "u1");
  config = locking_config;
  agent_mgr = record {
    read = λ v. did ("read " <> v) (ok "/dev/sda /dev/sdc");
    write = λ v e. did ("write " <> v) (ok "image");
    delete = λ v. did ("forget " <> v) (ok tt);
  };
  create_vm_lock = record {
    try_lock = λ t r. did "lock" (ok taken);
    unlock = did "unlock" (ok tt);
  };
  create_vm_lock_timeout = 60;
  library = library;
}
