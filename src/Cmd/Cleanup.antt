-- ===== src/Cmd/Cleanup.antt =====
-- `src/cmd/cleanup/main.go`: removal of the configuration disks that nothing uses.
pub mod Orphans
pub mod Unused
pub mod Whole
use bosh_lxd_cpi_release.Base.{ℕ, ◌+◌, String, Bool, ◌&&◌, [], ◌∷◌, inl, inr, ◌=ℕ◌, if◌then◌else◌}
use bosh_lxd_cpi_release.Base.Text.{has_prefix}
use bosh_lxd_cpi_release.Base.Dict.{Dict}
use bosh_lxd_cpi_release.Base.Go.{M, pure, attempt, ◌>>=◌, ◌>>◌}
use bosh_lxd_cpi_release.Config.{Config, AdapterConfig}
use bosh_lxd_cpi_release.Adapter.Interface.{ApiAdapter}
use bosh_lxd_cpi_release.Cpi.Devices.{disk_configuration_prefix}

pub record Tally : Type 0 where
  pub processed : ℕ
  pub removed : ℕ
  pub failed : ℕ

abbrev pub no_volumes : Tally
no_volumes = record { processed = 0; removed = 0; failed = 0 }

-- The test of the loop.
unfoldable pub is_orphan : String → ℕ → Bool
unfolding has_prefix
is_orphan name count = has_prefix name disk_configuration_prefix && count =ℕ 0

module _ {W : Type 0} (adapter : ApiAdapter W) (pool : String) (dry_run : Bool) where
  -- The body of the loop, for a volume that passes the test.
  unfoldable pub process : String → Tally → M W Tally
  process name t =
      if dry_run
      then pure (record t { processed = t.processed + 1 })
      else attempt (adapter.delete_storage_pool_volume pool name) >>= λ deleted.
          pure (elim deleted [
            | inl _ ↦ record t { processed = t.processed + 1; failed = t.failed + 1 }
            | inr _ ↦ record t { processed = t.processed + 1; removed = t.removed + 1 }
          ])

  unfoldable pub clean : Tally → Dict ℕ → M W Tally
  unfolding process is_orphan
  clean t [] = pure t
  clean t ((name, count) ∷ volumes) =
      (if is_orphan name count then process name t else pure t) >>= λ t'. clean t' volumes

  -- From the listing of the volumes on: the status of the process, and what the last line counts.
  unfoldable pub cleanup : M W (ℕ × Tally)
  unfolding clean
  cleanup = do
    listed ← attempt (adapter.get_storage_pool_volume_usage pool)
    elim listed [
      | inl _ ↦ pure (3, no_volumes)
      | inr volumes ↦ do
        t ← clean no_volumes volumes
        disconnected ← attempt adapter.disconnect
        pure (0, t)
    ]

-- The whole program after the options are read: `load_config` is `NewConfigFromPath` on the option
-- `configPath`, and `new_adapter` is the factory's.
unfoldable pub run_cleanup :
    {W : Type 0} → (AdapterConfig → M W (ApiAdapter W)) → M W Config → Bool → M W (ℕ × Tally)
unfolding cleanup
run_cleanup new_adapter load_config dry_run = do
  loaded ← attempt load_config
  elim loaded [
    | inl _ ↦ pure (1, no_volumes)
    | inr config ↦ do
      made ← attempt (new_adapter config.server)
      elim made [
        | inl _ ↦ pure (2, no_volumes)
        | inr adapter ↦ cleanup adapter config.server.storage_pool dry_run
      ]
  ]
