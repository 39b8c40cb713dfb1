-- ===== src/Cpi/Create/Plan/Configs.antt =====
-- The choice of a configuration by stemcell in `CreateVMV2` (`src/cpi/create_vm.go`).
use bosh_lxd_cpi_release.Base.{
  String, true, false, ◌≡◌, ◌≢◌, refl, ◌⊎◌, some, [], ◌∷◌, arith, eq_iff,
}
use bosh_lxd_cpi_release.Base.Text.{contains}
use bosh_lxd_cpi_release.Base.Dict.{Dict, lookup}
use bosh_lxd_cpi_release.Base.Go.{ok}
use bosh_lxd_cpi_release.Cpi.Create.Plan.{match_config, select_instance_config}

module _ (description : String) (value : Dict String) where
  -- Among the configurations but the default one, all that the description contains are `value`.
  abbrev pub OnlyMatch : Dict (Dict String) → Type 0
  OnlyMatch [] = Unit
  OnlyMatch ((k, v) ∷ configs) =
      ((k ≡ "default") ⊎ (contains description k ≡ false) ⊎ (v ≡ value)) × OnlyMatch configs

  match_config-stays :
      (d : Dict String) (configs : Dict (Dict String))
      → OnlyMatch configs
      → (match_config description d value configs).1 ≡ value
  unfolding match_config
  match_config-stays d [] only = refl
  match_config-stays d ((k, x) ∷ configs) only = ground (
    arith,
    eq_iff "default" k,
    match_config-stays d configs only.1,
    match_config-stays x configs only.1,
  )

  match_config-found :
      (d v : Dict String) (key : String) (configs : Dict (Dict String))
      → OnlyMatch configs
      → key ≢ "default"
      → contains description key ≡ true
      → lookup key configs ≡ some value
      → (match_config description d v configs).1 ≡ value
  unfolding match_config lookup
  match_config-found d v key [] only other inside found = cc
  match_config-found d v key ((k, x) ∷ configs) only other inside found = ground (
    arith,
    eq_iff "default" k,
    eq_iff k key,
    match_config-found x v key configs only.1 other inside,
    match_config-found d v key configs only.1 other inside,
    match_config-found d x key configs only.1 other inside,
    match_config-stays d configs only.1,
    match_config-stays x configs only.1,
  )

  -- Where the stemcell's description contains the key of one configuration that is not empty and
  -- not the default one, and no other configuration that it fits differs from that one, that
  -- configuration is chosen, in whatever order the map is read.
  pub select_instance_config-match :
      (key : String) (configs : Dict (Dict String))
      → OnlyMatch configs
      → key ≢ "default"
      → contains description key ≡ true
      → lookup key configs ≡ some value
      → value ≢ []
      → select_instance_config description configs ≡ ok value
  unfolding select_instance_config
  select_instance_config-match key configs only other inside found some_value =
      rw (match_config-found [] [] key configs only other inside found) (ground arith)
