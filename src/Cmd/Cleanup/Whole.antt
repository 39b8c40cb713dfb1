-- ===== src/Cmd/Cleanup/Whole.antt =====
-- The whole program of `src/cmd/cleanup/main.go`, from the loading of the configuration on.
use bosh_lxd_cpi_release.Base.{ℕ, String, false, ◌≡◌, ◌≢◌, refl, ap, arith, ◌+◌, List, ◌++◌, true}
use bosh_lxd_cpi_release.Base.Dict.{Dict}
use bosh_lxd_cpi_release.Base.Go.{Result, ok, err, panic, M, Done}
use bosh_lxd_cpi_release.Config.{Config, AdapterConfig}
use bosh_lxd_cpi_release.Adapter.Interface.{ApiAdapter}
use bosh_lxd_cpi_release.Cpi.Requests.{Logged, logged, Request}
use bosh_lxd_cpi_release.Cmd.Cleanup.{Tally, no_volumes, clean, cleanup, run_cleanup}
use bosh_lxd_cpi_release.Cmd.Cleanup.Orphans.{
  Returns, clean-orphans, clean-counts, orphans, orphan_deletions,
}
use bosh_lxd_cpi_release.Cmd.Cleanup.Unused.{DeletesUnused, orphans-DeletesUnused}

module _ {W : Type 0} (adapter : ApiAdapter W) (pool : String) where
  -- A loop over the volumes in a dry run asks the server for nothing, and counts the configuration
  -- volumes that nothing uses: those named "vol-c-" and more that are used 0 times.
  pub clean-dry :
      (t : Tally) (volumes : Dict ℕ) (w : W)
      → (rs : List Request) × (unused : ℕ) × DeletesUnused pool volumes rs unused
        × (clean adapter pool true t volumes w
            ≡ (ok (record t { processed = t.processed + unused }), w))
  clean-dry t volumes w = (
    orphan_deletions adapter pool volumes,
    orphans adapter pool volumes,
    orphans-DeletesUnused pool adapter volumes,
    clean-counts adapter pool t volumes w,
  )

  -- That a run over the volumes from `t` and `s` to `t'` and `s'` asked for the deletion of the
  -- unused configuration volumes, each once, and counted each.
  abbrev pub Cleans : Dict ℕ → Tally → Logged W → Tally → Logged W → Type 0
  Cleans volumes t s t' s' =
      (rs : List Request) × (unused : ℕ) × DeletesUnused pool volumes rs unused
      × (s'.requests ≡ rs ++ s.requests)
      × (t'.processed ≡ t.processed + unused)
      × (t'.removed + t'.failed ≡ t.removed + t.failed + unused)

module _ {W : Type 0} (adapter : ApiAdapter W) (config : Config) (volumes : Dict ℕ) where
  abbrev pool_of : String
  pool_of = config.server.storage_pool

  cleanup-orphans :
      (s : Logged W) (v : W)
      → adapter.get_storage_pool_volume_usage pool_of s.world ≡ (ok volumes, v)
      → Returns adapter pool_of
      → ((w : W) → (adapter.disconnect w).0 ≢ panic)
      → (t : Tally) × (s' : Logged W) × (cleanup (logged adapter) pool_of false s ≡ (ok (0, t), s'))
        × Cleans adapter pool_of volumes no_volumes s t s'
  unfolding cleanup
  cleanup-orphans s v listed returns ends =
      let (t, s₁, cleaned, counted) =
        clean-orphans adapter pool_of volumes no_volumes
          (record { world = v; requests = s.requests }) returns in
      let (asked, seen, ended_so) = counted in
      (
        t,
        record { world = (adapter.disconnect s₁.world).1; requests = s₁.requests },
        ended t s₁ cleaned (adapter.disconnect s₁.world) refl,
        (
          orphan_deletions adapter pool_of volumes,
          orphans adapter pool_of volumes,
          orphans-DeletesUnused pool_of adapter volumes,
          asked,
          seen,
          ended_so,
        ),
      )
    where
      ended :
          (t : Tally) (s₁ : Logged W)
          → clean
              (logged adapter)
              pool_of
              false
              no_volumes
              volumes
              (record { world = v; requests = s.requests })
            ≡ (ok t, s₁)
          → (out : Result Done × W) → adapter.disconnect s₁.world ≡ out
          → cleanup (logged adapter) pool_of false s ≡ (
            ok (0, t),
            record { world = (adapter.disconnect s₁.world).1; requests = s₁.requests },
          )
      ended t s₁ cleaned (ok _, u) e = ground arith
      ended t s₁ cleaned (err x, u) e = ground arith
      ended t s₁ cleaned (panic, u) e = elim (ends s₁.world (ap (λ o. o.0) e)) [ ]

  -- A cleanup that is no dry run, whose configuration and volumes can be read, where the deletions
  -- and the disconnection return, with or without an error, exits with 0 and has asked for the
  -- deletion of each volume that is named "vol-c-" and more and used 0 times, once, in the order of
  -- the listing, and of nothing else; it counts each as processed, and as removed or failed.
  pub run_cleanup-orphans :
      (new_adapter : AdapterConfig → M (Logged W) (ApiAdapter (Logged W)))
      (load_config : M (Logged W) Config) (s s₁ s₂ : Logged W) (v : W)
      → load_config s ≡ (ok config, s₁)
      → new_adapter config.server s₁ ≡ (ok (logged adapter), s₂)
      → adapter.get_storage_pool_volume_usage pool_of s₂.world ≡ (ok volumes, v)
      → Returns adapter pool_of
      → ((w : W) → (adapter.disconnect w).0 ≢ panic)
      → (t : Tally) × (s' : Logged W) × (run_cleanup new_adapter load_config false s
          ≡ (ok (0, t), s'))
        × Cleans adapter pool_of volumes no_volumes s₂ t s'
  unfolding run_cleanup
  run_cleanup-orphans new_adapter load_config s s₁ s₂ v loaded made listed returns ends =
      let (t, s', done, counted) = cleanup-orphans s₂ v listed returns ends in
      (t, s', ground arith, counted)
