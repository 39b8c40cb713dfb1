-- ===== src/Cpi/Requests.antt =====
-- The changes that an operation asks an adapter for, as a specification sees them: an adapter and
-- a CPI that do what the given ones do, and keep a list of the changes asked for, newest first.
use mathlib.Core.List.{append_assoc}
use bosh_lxd_cpi_release.Base.{ℕ, String, ◌≡◌, refl, ap, sym, ◌∙◌, List, [], ◌∷◌, ◌++◌}
use bosh_lxd_cpi_release.Base.Go.{Result, ok, err, panic, M, wrapped, wrapped-ok, ◌>>=◌}
use bosh_lxd_cpi_release.Adapter.Interface.{
  ApiAdapter, Action, Device, ImageMetadata, InstanceMetadata,
}
use bosh_lxd_cpi_release.Cpi.State.{Cpi}

pub data Request : Type 0 where
  upload_image : ImageMetadata → Request
  delete_image : String → Request
  create_instance : InstanceMetadata → Request
  delete_instance : String → Request
  describe_instance : String → String → Request
  act : String → Action → Request
  delete_volume : String → String → Request
  resize_volume : String → String → ℕ → Request
  create_iso_volume : String → String → String → String → Request
  create_volume : String → String → String → ℕ → Request
  describe_volume : String → String → String → Request
  colocate_volume : String → String → String → Request
  delete_snapshot : String → String → String → Request
  create_snapshot : String → String → String → String → Request
  attach : String → String → Device → Request
  detach_name : String → String → Request
  detach_source : String → String → Request

pub record Logged (W : Type 0) : Type 0 where
  pub world : W
  pub requests : List Request

module _ {W : Type 0} where
  abbrev pub quietly : {A : Type 0} → M W A → M (Logged W) A
  quietly m s = let (r, w) = m s.world in (r, record { world = w; requests = s.requests })

  abbrev pub asking : {A : Type 0} → Request → M W A → M (Logged W) A
  asking q m s = let (r, w) = m s.world in (r, record { world = w; requests = q ∷ s.requests })

  abbrev pub logged : ApiAdapter W → ApiAdapter (Logged W)
  logged a = record {
    find_existing_image = λ d. quietly (a.find_existing_image d);
    create_and_upload_image = λ m. asking (upload_image m) (a.create_and_upload_image m);
    delete_image = λ i. asking (delete_image i) (a.delete_image i);
    get_stemcell_description = λ i. quietly (a.get_stemcell_description i);
    is_managed_network = λ n. quietly (a.is_managed_network n);
    create_instance = λ m. asking (create_instance m) (a.create_instance m);
    delete_instance = λ n. asking (delete_instance n) (a.delete_instance n);
    get_instance_location = λ n. quietly (a.get_instance_location n);
    update_instance_description =
        λ n d. asking (describe_instance n d) (a.update_instance_description n d);
    set_instance_action = λ n x. asking (act n x) (a.set_instance_action n x);
    is_instance_stopped = λ n. quietly (a.is_instance_stopped n);
    delete_storage_pool_volume =
        λ p n. asking (delete_volume p n) (a.delete_storage_pool_volume p n);
    get_storage_pool_volume = λ p n. quietly (a.get_storage_pool_volume p n);
    get_storage_pool_volume_usage = λ p. quietly (a.get_storage_pool_volume_usage p);
    resize_storage_pool_volume =
        λ p n k. asking (resize_volume p n k) (a.resize_storage_pool_volume p n k);
    create_storage_pool_volume_from_iso = λ t p n f.
        asking (create_iso_volume t p n f) (a.create_storage_pool_volume_from_iso t p n f);
    create_storage_pool_volume =
        λ t p n k. asking (create_volume t p n k) (a.create_storage_pool_volume t p n k);
    update_storage_pool_volume_description =
        λ p n d. asking (describe_volume p n d) (a.update_storage_pool_volume_description p n d);
    colocate_storage_pool_volume_with_instance = λ i p n.
        asking (colocate_volume i p n) (a.colocate_storage_pool_volume_with_instance i p n);
    delete_storage_pool_volume_snapshot =
        λ p v n. asking (delete_snapshot p v n) (a.delete_storage_pool_volume_snapshot p v n);
    create_storage_pool_volume_snapshot =
        λ p v n d. asking (create_snapshot p v n d) (a.create_storage_pool_volume_snapshot p v n d);
    attach_device = λ i n d. asking (attach i n d) (a.attach_device i n d);
    detach_device_by_name = λ i n. asking (detach_name i n) (a.detach_device_by_name i n);
    detach_device_by_source = λ i n. asking (detach_source i n) (a.detach_device_by_source i n);
    get_devices = λ i. quietly (a.get_devices i);
    is_connected = quietly a.is_connected;
    disconnect = quietly a.disconnect;
  }

  abbrev pub logged_cpi : {E : Type 0} → Cpi W E → Cpi (Logged W) E
  logged_cpi c = record {
    adapter = logged c.adapter;
    uuid_gen = quietly c.uuid_gen;
    config = c.config;
    agent_mgr = record {
      read = λ v. quietly (c.agent_mgr.read v);
      write = λ v e. quietly (c.agent_mgr.write v e);
      delete = λ v. quietly (c.agent_mgr.delete v);
    };
    create_vm_lock = record {
      try_lock = λ t r. quietly (c.create_vm_lock.try_lock t r);
      unlock = quietly c.create_vm_lock.unlock;
    };
    create_vm_lock_timeout = c.create_vm_lock_timeout;
    library = c.library;
  }

-- The end of a run that began in a given world, with nothing asked for.
abbrev pub begin : {W : Type 0} → W → Logged W
begin w = record { world = w; requests = [] }

-- A call that began in `s` asked for what is planned (newest first) from its beginning on, and for
-- all of it if it returned with no error.
abbrev pub Follows : {W A : Type 0} → List Request → Logged W → Result A × Logged W → Type 0
Follows {A} plan s (r, s') =
    (later : List Request) × (later ++ s'.requests ≡ plan ++ s.requests)
    × ((a : A) → r ≡ ok a → later ≡ [])

module _ {W A : Type 0} where
  pub Follows-wrapped :
      (message : String) (m : M (Logged W) A) (s : Logged W) (plan : List Request)
      → Follows plan s (m s)
      → Follows plan s (wrapped message m s)
  Follows-wrapped message m s plan = go (m s)
    where
      go :
          (out : Result A × Logged W)
          → Follows plan s out
          → Follows plan s (wrapped message (λ _. out) s)
      go (ok a, s') h = h
      go (err e, s') h = (h.0, h.1, λ a e. cc)
      go (panic, s') h = h

  -- The plan of what follows comes in front.
  pub Follows-bind :
      {B : Type 0} (m : M (Logged W) A) (f : A → M (Logged W) B) (s : Logged W)
      (plan next : List Request)
      → Follows plan s (m s)
      → ((a : A) (s' : Logged W) → m s ≡ (ok a, s') → Follows next s' (f a s'))
      → Follows (next ++ plan) s ((m >>= f) s)
  Follows-bind {B} m f s plan next before after = go (m s) refl before
    where
      go :
          (out : Result A × Logged W)
          → m s ≡ out
          → Follows plan s out
          → Follows (next ++ plan) s (((λ _. out) >>= f) s)
      go (ok a, s') e h =
          let (later, eq, all) = after a s' e in
          (
            later,
            eq
                ∙ ap (λ l. next ++ l) (rw (h.2 a refl) at h.1)
                ∙ sym (append_assoc next plan s.requests),
            all,
          )
      go (err x, s') e h = (
        next ++ h.0,
        append_assoc next h.0 s'.requests
            ∙ ap (λ l. next ++ l) h.1
            ∙ sym (append_assoc next plan s.requests),
        λ b d. cc,
      )
      go (panic, s') e h = (
        next ++ h.0,
        append_assoc next h.0 s'.requests
            ∙ ap (λ l. next ++ l) h.1
            ∙ sym (append_assoc next plan s.requests),
        λ b d. cc,
      )

  -- The requests after a bind, by whether the first call returned with no error.
  pub requests_of_bind :
      {B : Type 0} (Q : List Request → Type 0) (m : M (Logged W) A) (f : A → M (Logged W) B)
      (s : Logged W)
      → Q (m s).1.requests
      → ((a : A) (s' : Logged W) → m s ≡ (ok a, s') → Q (f a s').1.requests)
      → Q ((m >>= f) s).1.requests
  requests_of_bind {B} Q m f s before after = go (m s) refl before
    where
      go :
          (out : Result A × Logged W)
          → m s ≡ out
          → Q out.1.requests
          → Q (((λ _. out) >>= f) s).1.requests
      go (ok a, s') e h = after a s' e
      go (err x, s') e h = h
      go (panic, s') e h = h

  pub state-wrapped :
      (message : String) (m : M (Logged W) A) (s : Logged W) → (wrapped message m s).1 ≡ (m s).1
  state-wrapped message m s = go (m s)
    where
      go : (out : Result A × Logged W) → (wrapped message (λ _. out) s).1 ≡ out.1
      go (ok a, s') = refl
      go (err e, s') = refl
      go (panic, s') = refl

  -- The requests after a call that returned with no error.
  pub quietly-ok :
      (message : String) (m : M W A) (s s' : Logged W) {a : A}
      → wrapped message (quietly m) s ≡ (ok a, s')
      → m s.world ≡ (ok a, s'.world)
  quietly-ok message m s s' h = ap (λ p. (p.0, p.1.world)) (wrapped-ok message (quietly m) s h)

  pub quiet-ok :
      (message : String) (m : M W A) (s s' : Logged W) {a : A}
      → wrapped message (quietly m) s ≡ (ok a, s')
      → s'.requests ≡ s.requests
  quiet-ok message m s s' h = sym (ap (λ p. p.1.requests) (wrapped-ok message (quietly m) s h))

  pub asked-world :
      (message : String) (q : Request) (m : M W A) (s s' : Logged W) {a : A}
      → wrapped message (asking q m) s ≡ (ok a, s')
      → s'.world ≡ (m s.world).1
  asked-world message q m s s' h = sym (ap (λ p. p.1.world) (wrapped-ok message (asking q m) s h))

  pub asked-ok :
      (message : String) (q : Request) (m : M W A) (s s' : Logged W) {a : A}
      → wrapped message (asking q m) s ≡ (ok a, s')
      → s'.requests ≡ q ∷ s.requests
  asked-ok message q m s s' h = sym (ap (λ p. p.1.requests) (wrapped-ok message (asking q m) s h))
