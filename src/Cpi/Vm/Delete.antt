-- ===== src/Cpi/Vm/Delete.antt =====
-- What `DeleteVM` in `src/cpi/delete_vm.go` asks for.
pub mod Complete
use bosh_lxd_cpi_release.Base.{
  String, Bool, true, false, not, ◌||◌, ◌≡◌, refl, sym, ap, ◌∙◌, ◌⊎◌, inl, inr, List, [], ◌∷◌, ◌++◌,
  ◌==◌, arith, ◌<>◌, if◌then◌else◌, Bool-cases, ◌&&◌,
}
use bosh_lxd_cpi_release.Base.Dict.{get}
use mathlib.Core.List.{append-nil, append_assoc}
use bosh_lxd_cpi_release.Base.Go.{
  Result, ok, M, Done, err, panic, pure, wrapped, wrapped-ok, ◌>>=◌, ◌>>◌,
}
use bosh_lxd_cpi_release.Adapter.Interface.{Devices, stop_action}
use bosh_lxd_cpi_release.Cpi.State.{Cpi}
use bosh_lxd_cpi_release.Cpi.Requests.{
  Request, act, delete_instance, delete_volume, Logged, begin, logged_cpi, asking, quietly, Follows,
  Follows-bind, Follows-wrapped, requests_of_bind, state-wrapped,
}
use bosh_lxd_cpi_release.Cpi.Devices.{
  disks_of, find_disks_attached_to_vm, disk_device_config, disk_device_ephemeral,
}
use bosh_lxd_cpi_release.Cpi.Vm.{
  delete_owned_disks, delete_with_disks, delete_existing, delete_vm, has_vm,
}

abbrev is_owned : String → Bool
is_owned name = name == disk_device_config || name == disk_device_ephemeral

module _ {W E : Type 0} (c : Cpi W E) where
  -- The requests for the owned disks among these devices, newest first.
  abbrev pub owned_deletions : Devices → List Request
  owned_deletions [] = []
  owned_deletions ((name, disk) ∷ disks) =
      owned_deletions disks
      ++ (if is_owned name
          then delete_volume c.config.server.storage_pool (get "source" disk) ∷ []
          else [])

  -- The requests (newest first) for the deletion of the volumes of the devices that are disks under
  -- the names "config" and "ephemeral".
  abbrev pub own_deletions : Devices → List Request
  own_deletions [] = []
  own_deletions ((name, device) ∷ devices) =
      own_deletions devices
      ++ (if (name == "config" || name == "ephemeral") && get "type" device == "disk"
          then delete_volume c.config.server.storage_pool (get "source" device) ∷ []
          else [])

  pub owned_deletions-disks_of :
      (devices : Devices) → owned_deletions (disks_of devices) ≡ own_deletions devices
  unfolding disks_of
  owned_deletions-disks_of [] = refl
  owned_deletions-disks_of ((name, device) ∷ devices) =
      elim (Bool-cases (get "type" device == "disk")) [
        | inl disk ↦ elim (Bool-cases (name == "config" || name == "ephemeral")) [
          | inl own ↦ rw (disk, own, owned_deletions-disks_of devices) refl
          | inr other ↦ rw (disk, other, owned_deletions-disks_of devices) refl
        ]
        | inr no_disk ↦ elim (Bool-cases (name == "config" || name == "ephemeral")) [
          | inl own ↦ rw (no_disk, own, owned_deletions-disks_of devices, append-nil) refl
          | inr other ↦ rw (no_disk, other, owned_deletions-disks_of devices, append-nil) refl
        ]
      ]

  -- The loop asks for the owned disks in order, and stops early only on an error.
  delete_owned_disks-Follows :
      (disks : Devices) (s : Logged W)
      → Follows (owned_deletions disks) s (delete_owned_disks (logged_cpi c) disks s)
  unfolding delete_owned_disks
  delete_owned_disks-Follows [] s = ([], refl, λ _ _. refl)
  delete_owned_disks-Follows ((name, disk) ∷ disks) s = elim (Bool-cases (is_owned name)) [
    | inr other ↦ rw other (rw append-nil (delete_owned_disks-Follows disks s))
    | inl owned ↦
        let disk_id = get "source" disk in
        let message : String = "Delete VM - attached disk - " <> disk_id in
        let q : Request = delete_volume c.config.server.storage_pool disk_id in
        let m : M (Logged W) Done =
          asking q (c.adapter.delete_storage_pool_volume c.config.server.storage_pool disk_id) in
        rw owned (
          Follows-bind (wrapped message m) (λ _. delete_owned_disks (logged_cpi c) disks) s (q ∷ [])
            (owned_deletions disks) (Follows-wrapped message m s (q ∷ []) ([], refl, λ _ _. refl))
            (λ _ s' _. delete_owned_disks-Follows disks s'))
  ]

  -- A run of `DeleteVM` on `vm_cid`, with no request made before.
  abbrev deletion : String → W → Result Done × Logged W
  deletion vm_cid w = delete_vm (logged_cpi c) vm_cid (begin w)

  -- What one run may have asked for (newest first): nothing; to stop the VM; to delete it then; or,
  -- after that, for the deletion of the volumes of the disks under "config" and "ephemeral" among `devices`, the
  -- devices that the adapter reported, from the first on.
  abbrev pub DeletesOwned : String → List Request → Type 0
  DeletesOwned vm_cid rs =
      (rs ≡ [])
      ⊎ (rs ≡ act vm_cid stop_action ∷ [])
      ⊎ ((devices : Devices) × (w : W) × ((c.adapter.get_devices vm_cid w).0 ≡ ok devices)
          × (later : List Request) × (later ++ rs
              ≡ own_deletions devices ++ (delete_instance vm_cid ∷ act vm_cid stop_action ∷ [])))

  has_vm-quiet :
      (vm_cid : String) (s : Logged W) → (has_vm (logged_cpi c) vm_cid s).1.requests ≡ s.requests
  unfolding has_vm
  has_vm-quiet vm_cid s = ground arith

  find_disks-ok :
      (vm_cid : String) (s s' : Logged W) (disks : Devices)
      → find_disks_attached_to_vm (logged_cpi c) vm_cid s ≡ (ok disks, s')
      → (devices : Devices) × ((c.adapter.get_devices vm_cid s.world).0 ≡ ok devices)
        × (disks ≡ disks_of devices)
        × (s'.requests ≡ s.requests)
  unfolding find_disks_attached_to_vm
  find_disks-ok vm_cid s s' disks e = go (c.adapter.get_devices vm_cid s.world) refl e
    where
      go :
          (out : Result Devices × W)
          → c.adapter.get_devices vm_cid s.world ≡ out
          → (quietly (λ _. out) >>= λ devices. pure (disks_of devices)) s ≡ (ok disks, s')
          → (devices : Devices) × ((c.adapter.get_devices vm_cid s.world).0 ≡ ok devices)
            × (disks ≡ disks_of devices)
            × (s'.requests ≡ s.requests)
      go (ok devices, w) h e' = (devices, ap (λ p. p.0) h, cc, cc)
      go (err x, w) h e' = cc
      go (panic, w) h e' = cc

  delete_with_disks-Follows :
      (vm_cid : String) (disks : Devices) (s : Logged W)
      → Follows
          (owned_deletions disks ++ (delete_instance vm_cid ∷ []))
          s
          (delete_with_disks (logged_cpi c) vm_cid disks s)
  unfolding delete_with_disks
  delete_with_disks-Follows vm_cid disks s =
      let q : Request = delete_instance vm_cid in
      let m : M (Logged W) Done = asking q (c.adapter.delete_instance vm_cid) in
      let k : M (Logged W) Done =
        delete_owned_disks (logged_cpi c) disks >> quietly (c.agent_mgr.delete vm_cid) in
      Follows-bind (wrapped "Delete VM" m) (λ _. k) s (q ∷ []) (owned_deletions disks)
        (Follows-wrapped "Delete VM" m s (q ∷ []) ([], refl, λ _ _. refl))
        (λ _ s' _.
          Follows-bind (delete_owned_disks (logged_cpi c) disks)
            (λ _. quietly (c.agent_mgr.delete vm_cid)) s' (owned_deletions disks) []
            (delete_owned_disks-Follows disks s') (λ _ t _. ([], refl, λ _ _. refl)))

  find_disks-quiet :
      (vm_cid : String) (s : Logged W)
      → (find_disks_attached_to_vm (logged_cpi c) vm_cid s).1.requests ≡ s.requests
  unfolding find_disks_attached_to_vm
  find_disks-quiet vm_cid s = ground arith

  delete_found-DeletesOwned :
      (vm_cid : String) (disks : Devices) (s t : Logged W)
      → s.requests ≡ act vm_cid stop_action ∷ []
      → find_disks_attached_to_vm (logged_cpi c) vm_cid s ≡ (ok disks, t)
      → DeletesOwned vm_cid (delete_with_disks (logged_cpi c) vm_cid disks t).1.requests
  delete_found-DeletesOwned vm_cid disks s t stopped found =
      let (devices, got, same, quiet) = find_disks-ok vm_cid s t disks found in
      let (later, eq, _) = delete_with_disks-Follows vm_cid disks t in
      inr (
        inr (
          devices,
          s.world,
          got,
          later,
          eq
              ∙ append_assoc (owned_deletions disks) (delete_instance vm_cid ∷ []) t.requests
              ∙ ap (λ d. owned_deletions d ++ (delete_instance vm_cid ∷ t.requests)) same
              ∙ ap (λ l. owned_deletions (disks_of devices) ++ (delete_instance vm_cid ∷ l))
                  (quiet ∙ stopped)
              ∙ ap (λ l. l ++ (delete_instance vm_cid ∷ act vm_cid stop_action ∷ []))
                  (owned_deletions-disks_of devices),
        ))

  delete_existing-DeletesOwned :
      (vm_cid : String) (s : Logged W)
      → s.requests ≡ []
      → DeletesOwned vm_cid (delete_existing (logged_cpi c) vm_cid s).1.requests
  unfolding delete_existing
  delete_existing-DeletesOwned vm_cid s none_yet =
      let stop : M (Logged W) Done =
        asking (act vm_cid stop_action) (c.adapter.set_instance_action vm_cid stop_action) in
      let find : M (Logged W) Devices = find_disks_attached_to_vm (logged_cpi c) vm_cid in
      let last : Devices → M (Logged W) Done =
        λ disks. delete_with_disks (logged_cpi c) vm_cid disks in
      let stopped = ap (λ l. act vm_cid stop_action ∷ l) none_yet in
      requests_of_bind (DeletesOwned vm_cid) (wrapped "Delete VM - stop" stop)
        (λ _. wrapped "Delete VM - enumerate disks" find >>= last) s
        (inr (inl (ap (λ t. t.requests) (state-wrapped "Delete VM - stop" stop s) ∙ stopped)))
        λ a s₁ e₁.
          let now =
            sym (ap (λ p. p.1.requests) (wrapped-ok "Delete VM - stop" stop s e₁)) ∙ stopped in
          requests_of_bind (DeletesOwned vm_cid) (wrapped "Delete VM - enumerate disks" find) last
            s₁
            (inr (
              inl (
                ap (λ t. t.requests) (state-wrapped "Delete VM - enumerate disks" find s₁)
                ∙ find_disks-quiet vm_cid s₁
                ∙ now)))
            λ disks s₂ e₂.
              delete_found-DeletesOwned vm_cid disks s₁ s₂ now
                (wrapped-ok "Delete VM - enumerate disks" find s₁ e₂)

  delete_if_found-DeletesOwned :
      (vm_cid : String) (found : Bool) (s : Logged W)
      → s.requests ≡ []
      → DeletesOwned vm_cid
          ((if not found
              then quietly (c.agent_mgr.delete vm_cid)
              else delete_existing (logged_cpi c) vm_cid)
            s).1.requests
  delete_if_found-DeletesOwned vm_cid true s none_yet =
      delete_existing-DeletesOwned vm_cid s none_yet
  delete_if_found-DeletesOwned vm_cid false s none_yet = inl none_yet

  -- However the server answers, DeleteVM asks for nothing but to stop the VM, to delete it, and to
  -- delete the disks under "config" and "ephemeral" that the VM had, in this order; it deletes no
  -- persistent disk, and no disk before the instance.
  pub delete_vm-DeletesOwned :
      (vm_cid : String) (w : W) → DeletesOwned vm_cid (deletion vm_cid w).1.requests
  unfolding delete_vm
  delete_vm-DeletesOwned vm_cid w =
      requests_of_bind (DeletesOwned vm_cid) (quietly c.adapter.is_connected)
        (λ _. has_vm (logged_cpi c) vm_cid >>= λ found.
          if not found
          then quietly (c.agent_mgr.delete vm_cid)
          else delete_existing (logged_cpi c) vm_cid)
        (begin w) (inl refl)
        λ _ s₁ e₁.
          let start = sym (ap (λ p. p.1.requests) e₁) in
          requests_of_bind (DeletesOwned vm_cid) (has_vm (logged_cpi c) vm_cid)
            (λ found.
              if not found
              then quietly (c.agent_mgr.delete vm_cid)
              else delete_existing (logged_cpi c) vm_cid)
            s₁ (inl (has_vm-quiet vm_cid s₁ ∙ start))
            λ found s₂ e₂.
              delete_if_found-DeletesOwned vm_cid found s₂
                (sym (ap (λ p. p.1.requests) e₂) ∙ has_vm-quiet vm_cid s₁ ∙ start)
