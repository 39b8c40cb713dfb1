-- ===== src/Cpi/Vm/Sizes.antt =====
-- `src/cpi/calculate_vm_cloud_properties.go`: what the sizes of a VM become.

use text.Mathlib.TextLemmas.{cons-append, append_assoc}
use bosh_lxd_cpi_release.Base.{
  ℕ, ◌+◌, ◌*◌, ◌/◌, ◌<◌, ◌≤◌, ◌≡◌, refl, sym, ap, ◌∙◌, String, [], ◌∷◌, List, ◌<>◌, arith, ◌↔◌,
}
use bosh_lxd_cpi_release.Base.Text.{decimal, split}
use bosh_lxd_cpi_release.Base.Text.Split.{Lacks-append, split-two}
use bosh_lxd_cpi_release.Base.Text.Decimal.{decimal-Lacks, lettered-injective}
use bosh_lxd_cpi_release.Cpi.Vm.{VmResources, calculate_vm_cloud_properties}

type_shape :
    (cpu m : ℕ)
    → "c" <> decimal cpu <> "-m" <> decimal m
      ≡ ("c" <> decimal cpu) <> String.◌∷◌ "-" ("m" <> decimal m)
type_shape cpu m =
    sym (append_assoc "c" (decimal cpu) ("-m" <> decimal m))
    ∙ ap (λ t. ("c" <> decimal cpu) <> t) (cons-append "-" "m" (decimal m))

-- The parts of an instance type around its hyphen.
split_type :
    (cpu m : ℕ)
    → split b'-' ("c" <> decimal cpu <> "-m" <> decimal m)
      ≡ ("c" <> decimal cpu) ∷ ("m" <> decimal m) ∷ []
split_type cpu m =
    ap (split b'-') (type_shape cpu m)
    ∙ split-two b'-' ("c" <> decimal cpu) "-" ("m" <> decimal m) refl
        (Lacks-append b'-' "c" (decimal cpu) (refl, tt) (decimal-Lacks cpu))
        (Lacks-append b'-' "m" (decimal m) (refl, tt) (decimal-Lacks m))

-- The first text of a list, and the second.
abbrev first_of : List String → String
first_of [] = ""
first_of (s ∷ _) = s

abbrev second_of : List String → String
second_of [] = ""
second_of (_ ∷ parts) = first_of parts

type-injective :
    (cpu m cpu' m' : ℕ)
    → "c" <> decimal cpu <> "-m" <> decimal m ≡ "c" <> decimal cpu' <> "-m" <> decimal m'
    → (cpu ≡ cpu') × (m ≡ m')
type-injective cpu m cpu' m' h =
    let parts = sym (split_type cpu m) ∙ ap (split b'-') h ∙ split_type cpu' m' in
    (
      lettered-injective "c" cpu cpu' (ap first_of parts),
      lettered-injective "m" m m' (ap second_of parts),
    )

abbrev pub IsWithinGib : ℕ → ℕ → Type 0
IsWithinGib gib ram = (gib * 1024 ≤ ram) × (ram < (gib + 1) * 1024)

-- Two sizes of VMs get the same cloud properties exactly if they have the same number of CPUs and
-- the same size of ephemeral disk, and their RAM lies between the same two whole numbers of GiB,
-- the lower one included.
pub calculate_vm_cloud_properties-same :
    (a b : VmResources)
    → calculate_vm_cloud_properties a ≡ calculate_vm_cloud_properties b ↔ (
        (a.cpu ≡ b.cpu)
        × (a.ephemeral_disk_size ≡ b.ephemeral_disk_size)
        × ((gib : ℕ) × IsWithinGib gib a.ram × IsWithinGib gib b.ram))
unfolding calculate_vm_cloud_properties
calculate_vm_cloud_properties-same a b = (
  λ h.
      let (cpu, gib) =
        type-injective a.cpu (a.ram / 1024) b.cpu (b.ram / 1024) (ap (λ p. p.instance_type) h) in
      (
        cpu,
        ap (λ p. p.ephemeral_disk) h,
        (a.ram / 1024, (omega arith, omega arith), (omega (arith, gib), omega (arith, gib))),
      ),
  λ (cpu, disk, (gib, (low, high), (low', high'))).
      let same : a.ram / 1024 ≡ b.ram / 1024 = omega arith in cc,
)
