-- ===== src/Adapter/Lxd/Wait.antt =====
-- `src/adapter/lxd/utils.go`. An operation that was not started is a nil interface in Go, on which
-- `op.Wait()` panics.
pub mod Outcomes
use bosh_lxd_cpi_release.Base.{String, Option, none, some, if◌then◌else◌}
use bosh_lxd_cpi_release.Base.Text.{contains}
use bosh_lxd_cpi_release.Base.Go.{Error, wrap_error, Result, ok, err, panic, M, Done}
use bosh_lxd_cpi_release.Adapter.Client.{Client, Operation}

module _ (error_text : Error → String) where
  unfoldable pub check_error : Option Error → Option Error
  check_error none = none
  check_error (some e) = if contains (error_text e) "LXD VM agent" then none else some e

module _ {W : Type 0} (c : Client W) where
  -- The second half of `wait`, after `op.Wait()`.
  unfoldable pub waited : Result Done → Result Done
  unfolding check_error
  waited (ok _) = ok tt
  waited (err e) = elim (check_error c.error_text (some e)) [
    | none ↦ ok tt
    | some _ ↦ err (wrap_error e "Wait")
  ]
  waited panic = panic

  unfoldable pub wait : M W (Operation W) → M W Done
  unfolding check_error waited
  wait m w =
      let (r, w') = m w in
      elim r [
        | ok op ↦ let (s, w'') = op.await w' in (waited s, w'')
        | err e ↦ elim (check_error c.error_text (some e)) [
          | none ↦ (panic, w')
          | some _ ↦ (err e, w')
        ]
        | panic ↦ (panic, w')
      ]
