-- ===== src/Cpi/Vm/Delete/Complete.antt =====
-- What a successful `DeleteVM` (`src/cpi/delete_vm.go`) has done.
use mathlib.Core.List.{append_assoc}
use bosh_lxd_cpi_release.Base.{
  String, Bool, true, false, not, ◌≡◌, sym, ap, ◌∙◌, ◌⊎◌, inl, inr, List, [], ◌∷◌, ◌++◌,
  if◌then◌else◌, refl, arith,
}
use bosh_lxd_cpi_release.Base.Go.{ok, M, Done, wrapped, bind-ok, wrapped-ok, ◌>>=◌}
use bosh_lxd_cpi_release.Adapter.Interface.{Devices, stop_action}
use bosh_lxd_cpi_release.Cpi.State.{Cpi}
use bosh_lxd_cpi_release.Cpi.Requests.{
  Request, act, delete_instance, Logged, begin, logged_cpi, asking, quietly,
}
use bosh_lxd_cpi_release.Cpi.Devices.{disks_of, find_disks_attached_to_vm}
use bosh_lxd_cpi_release.Cpi.Vm.{delete_with_disks, delete_existing, delete_vm, has_vm}
use bosh_lxd_cpi_release.Cpi.Vm.Delete.{
  owned_deletions, has_vm-quiet, find_disks-ok, delete_with_disks-Follows, own_deletions,
  owned_deletions-disks_of,
}

module _ {W E : Type 0} (c : Cpi W E) (vm_cid : String) where
  -- All that there is to ask for was asked for (newest first), for the devices that the adapter
  -- reported.
  abbrev pub AsksForAll : List Request → Type 0
  AsksForAll rs =
      (devices : Devices) × (w : W) × ((c.adapter.get_devices vm_cid w).0 ≡ ok devices)
      × (rs ≡ own_deletions c devices ++ (delete_instance vm_cid ∷ act vm_cid stop_action ∷ []))

  delete_existing-AsksForAll :
      (s s' : Logged W)
      → s.requests ≡ []
      → delete_existing (logged_cpi c) vm_cid s ≡ (ok tt, s')
      → AsksForAll s'.requests
  unfolding delete_existing
  delete_existing-AsksForAll s s' none_yet h =
      let stop : M (Logged W) Done =
        asking (act vm_cid stop_action) (c.adapter.set_instance_action vm_cid stop_action) in
      let find : M (Logged W) Devices = find_disks_attached_to_vm (logged_cpi c) vm_cid in
      let last : Devices → M (Logged W) Done =
        λ disks. delete_with_disks (logged_cpi c) vm_cid disks in
      let (_, s₁, e₁, h₁) =
        bind-ok (wrapped "Delete VM - stop" stop)
          (λ _. wrapped "Delete VM - enumerate disks" find >>= last) s h in
      let (disks, s₂, e₂, h₂) = bind-ok (wrapped "Delete VM - enumerate disks" find) last s₁ h₁ in
      let stopped : s₁.requests ≡ act vm_cid stop_action ∷ [] =
        sym (ap (λ p. p.1.requests) (wrapped-ok "Delete VM - stop" stop s e₁))
        ∙ ap (λ l. act vm_cid stop_action ∷ l) none_yet in
      let (devices, got, same, quiet) =
        find_disks-ok c vm_cid s₁ s₂ disks (wrapped-ok "Delete VM - enumerate disks" find s₁ e₂) in
      let (later, eq, all) = delete_with_disks-Follows c vm_cid disks s₂ in
      (
        devices,
        s₁.world,
        got,
        sym (ap (λ p. p.1.requests) h₂)
            ∙ rw (all tt (ap (λ p. p.0) h₂)) at eq
            ∙ append_assoc (owned_deletions c disks) (delete_instance vm_cid ∷ []) s₂.requests
            ∙ ap (λ d. owned_deletions c d ++ (delete_instance vm_cid ∷ s₂.requests)) same
            ∙ ap (λ l. owned_deletions c (disks_of devices) ++ (delete_instance vm_cid ∷ l))
                (quiet ∙ stopped)
            ∙ ap (λ l. l ++ (delete_instance vm_cid ∷ act vm_cid stop_action ∷ []))
                (owned_deletions-disks_of c devices),
      )

  has_vm-answer : (s : Logged W) → (has_vm (logged_cpi c) vm_cid s).0 ≡ (has_vm c vm_cid s.world).0
  unfolding has_vm
  has_vm-answer s = ground arith

  delete_if_found-AsksForAll :
      (found : Bool) (s s' : Logged W)
      → s.requests ≡ []
      → (if not found
            then quietly (c.agent_mgr.delete vm_cid)
            else delete_existing (logged_cpi c) vm_cid)
          s
        ≡ (ok tt, s')
      → ((found ≡ false) × (s'.requests ≡ [])) ⊎ ((found ≡ true) × AsksForAll s'.requests)
  delete_if_found-AsksForAll true s s' none_yet h =
      inr (refl, delete_existing-AsksForAll s s' none_yet h)
  delete_if_found-AsksForAll false s s' none_yet h =
      inl (refl, sym (ap (λ p. p.1.requests) h) ∙ none_yet)

  -- A deletion that reports success found, after the connection, that there is no such VM and asked
  -- for nothing, or found that there is one and asked, in this order, to stop the VM, to delete it,
  -- and to delete the volume of each of the disks that it was reported to have under "config" and
  -- "ephemeral".
  pub delete_vm-AsksForAll :
      (w : W) (s' : Logged W)
      → delete_vm (logged_cpi c) vm_cid (begin w) ≡ (ok tt, s')
      → let (answer, w') = has_vm c vm_cid (c.adapter.is_connected w).1 in
        ((answer ≡ ok false) × (s'.requests ≡ [])) ⊎ ((answer ≡ ok true) × AsksForAll s'.requests)
  unfolding delete_vm
  delete_vm-AsksForAll w s' h =
      let rest : Bool → M (Logged W) Done = λ found.
        if not found
        then quietly (c.agent_mgr.delete vm_cid)
        else delete_existing (logged_cpi c) vm_cid in
      let (_, s₁, e₁, h₁) =
        bind-ok (quietly c.adapter.is_connected) (λ _. has_vm (logged_cpi c) vm_cid >>= rest)
          (begin w) h in
      let (found, s₂, e₂, h₂) = bind-ok (has_vm (logged_cpi c) vm_cid) rest s₁ h₁ in
      let answered : (has_vm c vm_cid (c.adapter.is_connected w).1).0 ≡ ok found =
        ap (λ v. (has_vm c vm_cid v).0) (ap (λ p. p.1.world) e₁)
        ∙ sym (has_vm-answer s₁)
        ∙ ap (λ p. p.0) e₂ in
      elim (delete_if_found-AsksForAll found s₂ s'
        (sym (ap (λ p. p.1.requests) e₂)
          ∙ has_vm-quiet c vm_cid s₁
          ∙ sym (ap (λ p. p.1.requests) e₁))
        h₂) [
          | inl (missing, nothing) ↦ inl (answered ∙ ap ok missing, nothing)
          | inr (there, all) ↦ inr (answered ∙ ap ok there, all)
        ]
