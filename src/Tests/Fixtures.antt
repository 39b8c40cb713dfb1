-- ===== src/Tests/Fixtures.antt =====
-- A server with one instance, behind a client; and an adapter with fixed answers, which keeps a
-- log of the calls.
use bosh_lxd_cpi_release.Base.{String, true, false, none, List, [], ◌∷◌, ◌<>◌}
use bosh_lxd_cpi_release.Base.Go.{Error, error, deadline_exceeded, wrap_error, Result, ok, M, Done}
use bosh_lxd_cpi_release.Adapter.Interface.{Device, Devices, ApiAdapter}
use bosh_lxd_cpi_release.Adapter.Client.{Client, Encoders, InstancePut, Operation, running}
use bosh_lxd_cpi_release.Adapter.Lxd.Client.{LxdClient}

abbrev pub text_of : Error → String
text_of (error text) = text
text_of deadline_exceeded = "context deadline exceeded"
text_of (wrap_error e text) = text

abbrev pub finished_operation : {W : Type 0} → Operation W
finished_operation = record { await = λ w. (ok tt, w); fingerprint = λ w. (ok none, w) }

abbrev encoders : Encoders
encoders = record {
  title = λ s. s;
  marshal_yaml = λ p. ok p.architecture;
  write_header = λ h b. ok (b <> h.name);
  write = λ s b. ok (b <> s);
  close = λ b. ok b;
  base = λ s. s;
}

abbrev pub root_disk : Device
root_disk = ("type", "disk") ∷ ("path", "/") ∷ ("source", "root") ∷ []

abbrev pub one_vm : InstancePut
one_vm = record {
  architecture = "x86_64";
  config = [];
  devices = ("root", root_disk) ∷ [];
  ephemeral = false;
  profiles = [];
  stateful = false;
  description = "";
}

-- The instance is the state; every operation finishes at once.
abbrev pub vm_client : Client InstancePut
vm_client = record {
  error_text = text_of;
  encoders = encoders;
  get_server_auth = λ w. (ok "trusted", w);
  disconnect = λ w. (ok tt, w);
  get_images = λ w. (ok [], w);
  get_image_alias = λ a w. (ok a, w);
  get_image = λ a w. (ok (record { properties = []; aliases = [] }), w);
  create_image = λ p a w. (ok finished_operation, w);
  create_image_alias = λ p w. (ok tt, w);
  delete_image = λ i w. (ok finished_operation, w);
  get_network_managed = λ n w. (ok true, w);
  create_instance = λ h p w. (ok finished_operation, p.put);
  delete_instance = λ n w. (ok finished_operation, w);
  get_instance = λ n w. (ok (record { location = "node1"; put = w }, "e1"), w);
  update_instance = λ n put e w. (ok finished_operation, put);
  get_instance_state = λ n w. (ok running, w);
  update_instance_state = λ n p e w. (ok finished_operation, w);
  get_volume = λ p t n w. (
    ok (
      record {
        name = n;
        location = "node2";
        used_by = [];
        put = record { config = []; description = "" };
      },
      "e2",
    ),
    w,
  );
  get_volumes = λ p w. (ok [], w);
  create_volume_from_iso = λ h p a w. (ok finished_operation, w);
  copy_volume = λ h p k q v a w. (ok finished_operation, w);
  delete_snapshot = λ p t v s w. (ok finished_operation, w);
  create_snapshot = λ p t v s w. (ok finished_operation, w);
}

abbrev pub lxd_client : LxdClient InstancePut
lxd_client = record {
  client = vm_client;
  delete_volume = λ h p t n w. (ok finished_operation, w);
  update_volume = λ p t n v e w. (ok finished_operation, w);
  create_volume = λ h p v w. (ok finished_operation, w);
}

abbrev pub Log : Type 0
Log = List String

abbrev pub did : {A : Type 0} → String → Result A → M Log A
did what r w = (r, what ∷ w)

-- What the adapter answers where it does not always succeed.
pub record Answers : Type 0 where
  pub connected : Result Done
  pub location : Result String
  pub deleted : Result Done
  pub acted : Result Done
  pub volume_created : Result Done

abbrev pub all_well : Answers
all_well = record {
  connected = ok tt;
  location = ok "node1";
  deleted = ok tt;
  acted = ok tt;
  volume_created = ok tt;
}

abbrev pub vm_devices : Devices
vm_devices =
    ("root", root_disk)
    ∷ ("config", ("type", "disk") ∷ ("source", "vol-c-1") ∷ [])
    ∷ ("persistent-1", ("type", "disk") ∷ ("source", "vol-p-1") ∷ [])
    ∷ ("ephemeral", ("type", "disk") ∷ ("source", "vol-e-1") ∷ [])
    ∷ []

abbrev pub adapter_of : Answers → ApiAdapter Log
adapter_of a = record {
  find_existing_image = λ d. did "find image" (ok "img-1");
  create_and_upload_image = λ m. did "upload" (ok tt);
  delete_image = λ i. did ("delete image " <> i) (ok tt);
  get_stemcell_description = λ i. did "describe stemcell" (ok "bosh-openstack-kvm-ubuntu-jammy");
  is_managed_network = λ n. did "network" (ok true);
  create_instance = λ m. did ("create " <> m.name) (ok tt);
  delete_instance = λ n. did ("delete " <> n) a.deleted;
  get_instance_location = λ n. did ("locate " <> n) a.location;
  update_instance_description = λ n d. did ("describe " <> n) (ok tt);
  set_instance_action = λ n x. did ("act on " <> n) a.acted;
  is_instance_stopped = λ n. did ("is stopped " <> n) (ok true);
  delete_storage_pool_volume = λ p n. did ("delete volume " <> n) (ok tt);
  get_storage_pool_volume = λ p n. did ("volume " <> n) (ok "etag");
  get_storage_pool_volume_usage =
      λ p. did "usage" (ok (("vol-c-1", 0) ∷ ("vol-c-2", 1) ∷ ("vol-p-1", 0) ∷ []));
  resize_storage_pool_volume = λ p n k. did ("resize " <> n) (ok tt);
  create_storage_pool_volume_from_iso = λ t p n f. did ("create iso volume " <> n) (ok tt);
  create_storage_pool_volume = λ t p n k. did ("create volume " <> n) a.volume_created;
  update_storage_pool_volume_description = λ p n d. did ("describe volume " <> n) (ok tt);
  colocate_storage_pool_volume_with_instance = λ i p n. did ("move volume " <> n) (ok tt);
  delete_storage_pool_volume_snapshot = λ p v n. did ("delete snapshot " <> n) (ok tt);
  create_storage_pool_volume_snapshot = λ p v n d. did ("create snapshot " <> n) (ok tt);
  attach_device = λ i n d. did ("attach " <> n) (ok tt);
  detach_device_by_name = λ i n. did ("detach " <> n) (ok tt);
  detach_device_by_source = λ i n. did ("detach source " <> n) (ok tt);
  get_devices = λ i. did ("devices " <> i) (ok vm_devices);
  is_connected = did "connected" a.connected;
  disconnect = did "disconnect" (ok tt);
}
