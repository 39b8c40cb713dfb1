-- ===== src/Cmd/Cleanup/Orphans.antt =====
-- What the loop of `src/cmd/cleanup/main.go` deletes and counts.
use mathlib.Core.List.{append-nil, append_assoc}
use bosh_lxd_cpi_release.Base.{
  ℕ, ◌+◌, String, true, false, ◌≡◌, ◌≢◌, refl, sym, ap, ◌∙◌, List, [], ◌∷◌, ◌++◌, arith,
  if◌then◌else◌, Bool-cases, inl, inr,
}
use bosh_lxd_cpi_release.Base.Dict.{Dict}
use bosh_lxd_cpi_release.Base.Go.{Result, ok, err, panic, Done}
use bosh_lxd_cpi_release.Adapter.Interface.{ApiAdapter}
use bosh_lxd_cpi_release.Cpi.Requests.{Request, delete_volume, Logged, logged}
use bosh_lxd_cpi_release.Cmd.Cleanup.{Tally, is_orphan, process, clean}

module _ {W : Type 0} (adapter : ApiAdapter W) (pool : String) where
  -- The requests for the orphans among the volumes, newest first.
  abbrev pub orphan_deletions : Dict ℕ → List Request
  orphan_deletions [] = []
  orphan_deletions ((name, count) ∷ volumes) =
      orphan_deletions volumes
      ++ (if is_orphan name count then delete_volume pool name ∷ [] else [])

  abbrev pub orphans : Dict ℕ → ℕ
  orphans [] = 0
  orphans ((name, count) ∷ volumes) = (if is_orphan name count then 1 else 0) + orphans volumes

  pub clean-counts :
      (t : Tally) (volumes : Dict ℕ) (w : W)
      → clean adapter pool true t volumes w
        ≡ (ok (record t { processed = t.processed + orphans volumes }), w)
  unfolding clean process
  clean-counts t [] w = ground arith
  clean-counts t ((name, count) ∷ volumes) w = ground (
    arith,
    clean-counts t volumes w,
    clean-counts (record t { processed = t.processed + 1 }) volumes w,
  )

  -- That a run over the volumes from `t` and `s` to `t'` and `s'` asked for the deletion of the
  -- orphans, each once, and counted each.
  abbrev CleansOrphans : Dict ℕ → Tally → Logged W → Tally → Logged W → Type 0
  CleansOrphans volumes t s t' s' =
      (s'.requests ≡ orphan_deletions volumes ++ s.requests)
      × (t'.processed ≡ t.processed + orphans volumes)
      × (t'.removed + t'.failed ≡ t.removed + t.failed + orphans volumes)

  clean-other :
      (name : String) (count : ℕ) (volumes : Dict ℕ) (t : Tally) (s : Logged W)
      → is_orphan name count ≡ false
      → clean (logged adapter) pool false t ((name, count) ∷ volumes) s
        ≡ clean (logged adapter) pool false t volumes s
  unfolding clean
  clean-other name count volumes t s other = rw other refl

  -- The deletion of a volume returns, with or without an error.
  abbrev pub Returns : Type 0
  Returns = (name : String) (w : W) → (adapter.delete_storage_pool_volume pool name w).0 ≢ panic

  clean-goes_on :
      (name : String) (count : ℕ) (volumes : Dict ℕ) (t : Tally) (s : Logged W)
      → is_orphan name count ≡ true
      → Returns
      → (mid : Tally) × (s₁ : Logged W) × (clean
            (logged adapter)
            pool
            false
            t
            ((name, count) ∷ volumes)
            s
          ≡ clean (logged adapter) pool false mid volumes s₁)
        × (s₁.requests ≡ delete_volume pool name ∷ s.requests)
        × (mid.processed ≡ t.processed + 1)
        × (mid.removed + mid.failed ≡ t.removed + t.failed + 1)
  unfolding clean process
  clean-goes_on name count volumes t s orphan returns =
      go (adapter.delete_storage_pool_volume pool name s.world) refl
    where
      go :
          (out : Result Done × W)
          → adapter.delete_storage_pool_volume pool name s.world ≡ out
          → (mid : Tally) × (s₁ : Logged W) × (clean
                (logged adapter)
                pool
                false
                t
                ((name, count) ∷ volumes)
                s
              ≡ clean (logged adapter) pool false mid volumes s₁)
            × (s₁.requests ≡ delete_volume pool name ∷ s.requests)
            × (mid.processed ≡ t.processed + 1)
            × (mid.removed + mid.failed ≡ t.removed + t.failed + 1)
      go (ok _, v) e = (
        record t { processed = t.processed + 1; removed = t.removed + 1 },
        record { world = v; requests = delete_volume pool name ∷ s.requests },
        ground arith,
        refl,
        refl,
        omega arith,
      )
      go (err x, v) e = (
        record t { processed = t.processed + 1; failed = t.failed + 1 },
        record { world = v; requests = delete_volume pool name ∷ s.requests },
        ground arith,
        refl,
        refl,
        omega arith,
      )
      go (panic, v) e = elim (returns name s.world (ap (λ o. o.0) e)) [ ]

  -- Where deletions return, with or without an error, the cleanup comes to its end and has asked
  -- for the deletion of each unused configuration volume once, in the order of the listing, and of
  -- nothing else; each counts as processed, and as removed or failed.
  pub clean-orphans :
      (volumes : Dict ℕ) (t : Tally) (s : Logged W)
      → Returns
      → (t' : Tally) × (s' : Logged W) × (clean (logged adapter) pool false t volumes s
          ≡ (ok t', s'))
        × CleansOrphans volumes t s t' s'
  unfolding clean
  clean-orphans [] t s returns = (t, s, refl, (refl, omega arith, omega arith))
  clean-orphans ((name, count) ∷ volumes) t s returns = elim (Bool-cases (is_orphan name count)) [
    | inr other ↦
        let (t', s', end, (asked, seen, counted)) = clean-orphans volumes t s returns in
        (
          t',
          s',
          clean-other name count volumes t s other ∙ end,
          rw (other, append-nil) (asked, omega arith, omega arith),
        )
    | inl orphan ↦
        let (mid, s₁, same, asked₁, seen₁, counted₁) =
          clean-goes_on name count volumes t s orphan returns in
        let (t', s', end, (asked, seen, counted)) = clean-orphans volumes mid s₁ returns in
        (
          t',
          s',
          same ∙ end,
          rw orphan (
            asked
                ∙ ap (λ l. orphan_deletions volumes ++ l) asked₁
                ∙ sym (
                    append_assoc (orphan_deletions volumes) (delete_volume pool name ∷ [])
                      s.requests),
            omega arith,
            omega arith,
          ),
        )
  ]
