-- ===== src/Cmd/Cleanup/Unused.antt =====
-- Which volumes the loop of `src/cmd/cleanup/main.go` takes for configuration disks that nothing
-- uses, said without the loop's test.
use mathlib.Core.List.{append-nil}
use bosh_lxd_cpi_release.Base.{
  ℕ, ◌+◌, String, true, ◌≡◌, refl, ap, ◌∙◌, List, [], ◌∷◌, ◌++◌, arith, ◌⊎◌, inl, inr, Bool-cases,
}
use bosh_lxd_cpi_release.Base.Text.{codes, is_prefix_of, has_prefix}
use bosh_lxd_cpi_release.Base.Dict.{Dict}
use bosh_lxd_cpi_release.Adapter.Interface.{ApiAdapter}
use bosh_lxd_cpi_release.Cpi.Requests.{Request, delete_volume}
use bosh_lxd_cpi_release.Cmd.Cleanup.{is_orphan}
use bosh_lxd_cpi_release.Cmd.Cleanup.Orphans.{orphan_deletions, orphans}

-- A volume whose name goes on from "vol-c-" and that nothing uses.
abbrev pub IsUnused : String → ℕ → Type 0
IsUnused name count = ((rest : List ℕ) × (codes name ≡ codes "vol-c-" ++ rest)) × (count ≡ 0)

prefix-rest : (s t : List ℕ) → is_prefix_of s t ≡ true → (rest : List ℕ) × (t ≡ s ++ rest)
unfolding is_prefix_of
prefix-rest [] t h = (t, refl)
prefix-rest (c ∷ s) [] h = cc
prefix-rest (c ∷ s) (d ∷ t) h =
    let (rest, same) = prefix-rest s t (ground arith) in (rest, ground (arith, same))

prefix-append : (s rest : List ℕ) → is_prefix_of s (s ++ rest) ≡ true
unfolding is_prefix_of
prefix-append [] rest = refl
prefix-append (c ∷ s) rest = ground (arith, prefix-append s rest)

is_orphan-IsUnused : (name : String) (count : ℕ) → is_orphan name count ≡ true → IsUnused name count
unfolding is_orphan has_prefix
is_orphan-IsUnused name count h =
    (prefix-rest (codes "vol-c-") (codes name) (ground arith), ground arith)

IsUnused-is_orphan : (name : String) (count : ℕ) → IsUnused name count → is_orphan name count ≡ true
unfolding is_orphan has_prefix
IsUnused-is_orphan name count ((rest, same), unused) =
    let starts : is_prefix_of (codes "vol-c-") (codes name) ≡ true =
      ap (is_prefix_of (codes "vol-c-")) same ∙ prefix-append (codes "vol-c-") rest in
    rw (starts, unused) refl

zero_plus : {n : ℕ} → 0 + n ≡ n
zero_plus {n} = omega arith

module _ (pool : String) where
  -- That these are requests (newest first) for the deletion of the unused configuration volumes
  -- among the volumes, one for each in the order of the listing, and that they are `n`.
  abbrev pub DeletesUnused : Dict ℕ → List Request → ℕ → Type 0
  DeletesUnused [] rs n = (rs ≡ []) × (n ≡ 0)
  DeletesUnused ((name, count) ∷ volumes) rs n =
      (IsUnused name count
        × (later : List Request) × (more : ℕ) × DeletesUnused volumes later more
        × (rs ≡ later ++ (delete_volume pool name ∷ []))
        × (n ≡ 1 + more))
      ⊎ ((¬ (IsUnused name count)) × DeletesUnused volumes rs n)

  pub orphans-DeletesUnused :
      {W : Type 0} (adapter : ApiAdapter W) (volumes : Dict ℕ)
      → DeletesUnused volumes (orphan_deletions adapter pool volumes) (orphans adapter pool volumes)
  orphans-DeletesUnused adapter [] = (refl, refl)
  orphans-DeletesUnused adapter ((name, count) ∷ volumes) =
      elim (Bool-cases (is_orphan name count)) [
        | inl orphan ↦ rw orphan (
            inl (
              is_orphan-IsUnused name count orphan,
              orphan_deletions adapter pool volumes,
              orphans adapter pool volumes,
              orphans-DeletesUnused adapter volumes,
              refl,
              refl,
            ))
        | inr other ↦
            rw (other, append-nil, zero_plus)
              (inr (
                λ unused. ground (arith, IsUnused-is_orphan name count unused),
                orphans-DeletesUnused adapter volumes,
              ))
      ]
