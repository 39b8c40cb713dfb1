-- ===== src/Cpi/Errors.antt =====
-- `src/cpi/utils_error.go`
use bosh_lxd_cpi_release.Base.{String, Bool, Option, none, some, if◌then◌else◌}
use bosh_lxd_cpi_release.Base.Text.{contains_lower}
use bosh_lxd_cpi_release.Base.Go.{Error, M, fail, pure, Done}

-- `CleanInstanceNotFoundError`
unfoldable pub clean_instance_not_found_error : (Error → String) → Option Error → Option Error
clean_instance_not_found_error error_text none = none
clean_instance_not_found_error error_text (some e) =
    if contains_lower (error_text e) "instance not found" then none else some e

-- `if condition { return e }`
abbrev pub fail_if : {W : Type 0} → Bool → Error → M W Done
fail_if condition e = if condition then fail e else pure tt
