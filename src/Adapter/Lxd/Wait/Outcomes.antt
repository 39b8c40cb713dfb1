-- ===== src/Adapter/Lxd/Wait/Outcomes.antt =====
-- `wait` of `src/adapter/lxd/utils.go`.
use bosh_lxd_cpi_release.Base.{Bool, ◌≡◌, arith, refl, ◌⊎◌, ◌↔◌, inl, inr, Bool-cases, true}
use bosh_lxd_cpi_release.Base.Text.{contains}
use bosh_lxd_cpi_release.Base.Go.{Error, Result, ok, err, panic, M, Done}
use bosh_lxd_cpi_release.Adapter.Client.{Client, Operation}
use bosh_lxd_cpi_release.Adapter.Lxd.Wait.{wait}

module _ {W : Type 0} (c : Client W) (call : M W (Operation W)) where
  -- An error that speaks of the VM agent.
  abbrev pub is_tolerated : Error → Bool
  is_tolerated e = contains (c.error_text e) "LXD VM agent"

  -- An operation that is at its end and counts as done: it succeeded, or it failed with an error
  -- that speaks of the VM agent.
  abbrev pub CountsAsDone : Result Done → Type 0
  CountsAsDone r = (r ≡ ok tt) ⊎ ((e : Error) × (r ≡ err e) × (is_tolerated e ≡ true))

  -- wait reports success exactly if the call started an operation and that operation succeeded or
  -- failed with an error that speaks of the VM agent; no failure to start one passes for success.
  pub wait-CountsAsDone :
      (w : W)
      → ((wait c call w).0 ≡ ok tt)
        ↔ ((op : Operation W) × (w₁ : W) × (call w ≡ (ok op, w₁)) × CountsAsDone (op.await w₁).0)
  unfolding wait
  wait-CountsAsDone w = (only w (call w) refl, λ (op, w₁, started, done). all w op w₁ started done)
    where
      ended :
          (w w₁ : W) (op : Operation W) (out : Result Done × W)
          → call w ≡ (ok op, w₁)
          → op.await w₁ ≡ out
          → (wait c call w).0 ≡ ok tt
          → CountsAsDone out.0
      ended w w₁ op (ok _, v) k e h = inl refl
      ended w w₁ op (err x, v) k e h = elim (Bool-cases (is_tolerated x)) [
        | inl spoken ↦ inr (x, refl, spoken)
        | inr other ↦ ground arith
      ]
      ended w w₁ op (panic, v) k e h = ground arith

      only :
          (w : W) (out : Result (Operation W) × W)
          → call w ≡ out
          → (wait c call w).0 ≡ ok tt
          → (op : Operation W) × (w₁ : W) × (call w ≡ (ok op, w₁)) × CountsAsDone (op.await w₁).0
      only w (ok op, w₁) k h = (op, w₁, k, ended w w₁ op (op.await w₁) k refl h)
      only w (err x, w₁) k h = elim (Bool-cases (is_tolerated x)) [
        | inl spoken ↦ ground arith
        | inr other ↦ ground arith
      ]
      only w (panic, w₁) k h = ground arith

      all :
          (w : W) (op : Operation W) (w₁ : W)
          → call w ≡ (ok op, w₁)
          → CountsAsDone (op.await w₁).0
          → (wait c call w).0 ≡ ok tt
      all w op w₁ k (inl done) = ground arith
      all w op w₁ k (inr (e, failed, spoken)) = ground arith
