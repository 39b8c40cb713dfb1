-- ===== src/Cpi/Create/Lock.antt =====
-- The lock around the creation of an instance, in `createVMWithLock` of `src/cpi/create_vm.go`.
use bosh_lxd_cpi_release.Base.{true, false, ◌≡◌, some, none, arith, ◌⊎◌, inl, inr, refl, ◌≢◌}
use bosh_lxd_cpi_release.Base.Go.{Error, error, deadline_exceeded, wrap_error, ok, err}
use bosh_lxd_cpi_release.Adapter.Interface.{InstanceMetadata}
use bosh_lxd_cpi_release.Cpi.State.{Cpi}
use bosh_lxd_cpi_release.Cpi.Create.{create_vm_with_lock}

module _ {W E : Type 0} (c : Cpi W E) (meta : InstanceMetadata) where
  -- With the lock enabled and taken, the instance is created and the lock is given back afterwards,
  -- however the creation ends, also by a panic; the creation's result is returned.
  pub create_vm_with_lock-locked :
      {w w₁ : W}
      → c.config.server.create_vm_lock.enabled ≡ true
      → c.create_vm_lock.try_lock c.create_vm_lock_timeout 10 w ≡ (ok (true, none), w₁)
      → create_vm_with_lock c meta w ≡ (
        (c.adapter.create_instance meta w₁).0,
        (c.create_vm_lock.unlock (c.adapter.create_instance meta w₁).1).1,
      )
  unfolding create_vm_with_lock
  create_vm_with_lock-locked h k = ground arith

  -- With the lock enabled and not taken, the operation is the creation of the instance and no more
  -- if the wait reached its timeout; after any other error it ends with that error at once, and no
  -- instance is created.
  pub create_vm_with_lock-unlocked :
      {w w₁ : W} {e : Error}
      → c.config.server.create_vm_lock.enabled ≡ true
      → c.create_vm_lock.try_lock c.create_vm_lock_timeout 10 w ≡ (ok (false, some e), w₁)
      → ((e ≡ deadline_exceeded)
          × (create_vm_with_lock c meta w ≡ c.adapter.create_instance meta w₁))
        ⊎ ((e ≢ deadline_exceeded) × (create_vm_with_lock c meta w ≡ (err e, w₁)))
  unfolding create_vm_with_lock
  create_vm_with_lock-unlocked {e = error _} h k = inr (λ same. cc, ground arith)
  create_vm_with_lock-unlocked {e = deadline_exceeded} h k = inl (refl, ground arith)
  create_vm_with_lock-unlocked {e = wrap_error _ _} h k = inr (λ same. cc, ground arith)
