-- ===== src/Base/Text/Decimal.antt =====
-- The verb `%d` of `fmt` gives different numbers different texts: its digits can be read back.
use Prim.Native.Nat.{ℕ, zero, suc, ◌+◌, ◌-◌, ◌*◌, ◌/◌, ◌%◌, ◌<◌}
use bosh_lxd_cpi_release.Base.Tests.{Bool-cases, ltb}
use bosh_lxd_cpi_release.Base.Text.Split.{Lacks, Lacks-append}
use Prim.Native.Char.{Char, code}
use Prim.Native.String.{String, ◌++◌ as ◌<>◌}
use mathlib.Core.Path.{◌≡◌, refl, sym, ap, ◌∙◌}
use mathlib.Core.Logic.{◌≢◌, inl, inr}
use native.Mathlib.Omega.{arith}
use text.Mathlib.TextLemmas.{nil-append, cons-append}
use bosh_lxd_cpi_release.Base.Text.{digit, decimal_fuel, decimal, drop_codes}

-- The number that the digits of a text go on to from `n`.
abbrev value : ℕ → String → ℕ
value n String.[] = n
value n (String.◌∷◌ c s) = value (n * 10 + (code c - 48)) s

value-append : (n : ℕ) (s t : String) → value n (s <> t) ≡ value (value n s) t
value-append n String.[] t = rw nil-append refl
value-append n (String.◌∷◌ c s) t = rw cons-append (value-append (n * 10 + (code c - 48)) s t)

value-digit : (n d : ℕ) → d < 10 → value n (digit d) ≡ n * 10 + d
unfolding digit
value-digit n zero h = refl
value-digit n (suc zero) h = refl
value-digit n (suc (suc zero)) h = refl
value-digit n (suc (suc (suc zero))) h = refl
value-digit n (suc (suc (suc (suc zero)))) h = refl
value-digit n (suc (suc (suc (suc (suc zero))))) h = refl
value-digit n (suc (suc (suc (suc (suc (suc zero)))))) h = refl
value-digit n (suc (suc (suc (suc (suc (suc (suc zero))))))) h = refl
value-digit n (suc (suc (suc (suc (suc (suc (suc (suc zero)))))))) h = refl
value-digit n (suc (suc (suc (suc (suc (suc (suc (suc (suc zero))))))))) h = refl
value-digit n (suc (suc (suc (suc (suc (suc (suc (suc (suc (suc d)))))))))) h = omega arith

value-decimal_fuel : (f n : ℕ) → n < f → value 0 (decimal_fuel f n) ≡ n
unfolding decimal_fuel
value-decimal_fuel zero n h = omega arith
value-decimal_fuel (suc f) n h = ground (
  arith,
  value-digit 0 n,
  value-append 0 (decimal_fuel f (n / 10)) (digit (n % 10)),
  value-digit (n / 10) (n % 10),
  value-decimal_fuel f (n / 10),
)

decimal-value : (n : ℕ) → value 0 (decimal n) ≡ n
unfolding decimal
decimal-value n = value-decimal_fuel (suc n) n (omega arith)

-- What follows a text of three code points.
rest_of :
    (b c d : Char) (s : String)
    → String.◌∷◌ b (String.◌∷◌ c (String.◌∷◌ d String.[])) <> s
      ≡ String.◌∷◌ b (String.◌∷◌ c (String.◌∷◌ d s))
rest_of b c d s = rw cons-append (rw cons-append (rw cons-append (rw nil-append refl)))

-- A number that is written behind a name of three code points can be read off.
numbered : String → ℕ
unfolding drop_codes
numbered s = value 0 (drop_codes 3 s)

numbered-decimal :
    (b c d : Char) (n : ℕ)
    → numbered (String.◌∷◌ b (String.◌∷◌ c (String.◌∷◌ d String.[])) <> decimal n) ≡ n
unfolding numbered drop_codes
numbered-decimal b c d n = rw (rest_of b c d (decimal n)) (decimal-value n)

-- The code point that a text begins with.
lead : String → ℕ
lead String.[] = 0
lead (String.◌∷◌ c s) = code c

lead-append :
    (b c d : Char) (s : String)
    → lead (String.◌∷◌ b (String.◌∷◌ c (String.◌∷◌ d String.[])) <> s) ≡ code b
unfolding lead
lead-append b c d s = rw (rest_of b c d s) refl

-- The names of the network devices are all different, and none is that of the root disk.
pub eth-injective : (m n : ℕ) → "eth" <> decimal m ≡ "eth" <> decimal n → m ≡ n
eth-injective m n h = sym (numbered-decimal _ _ _ m) ∙ ap numbered h ∙ numbered-decimal _ _ _ n

pub eth-root : (n : ℕ) → "eth" <> decimal n ≢ "root"
unfolding lead
eth-root n h = omega (arith, sym (lead-append _ _ _ (decimal n)) ∙ ap lead h)

-- No digit is a hyphen.
digit-Lacks : (d : ℕ) → d < 10 → Lacks b'-' (digit d)
unfolding digit
digit-Lacks zero h = (refl, tt)
digit-Lacks (suc zero) h = (refl, tt)
digit-Lacks (suc (suc zero)) h = (refl, tt)
digit-Lacks (suc (suc (suc zero))) h = (refl, tt)
digit-Lacks (suc (suc (suc (suc zero)))) h = (refl, tt)
digit-Lacks (suc (suc (suc (suc (suc zero))))) h = (refl, tt)
digit-Lacks (suc (suc (suc (suc (suc (suc zero)))))) h = (refl, tt)
digit-Lacks (suc (suc (suc (suc (suc (suc (suc zero))))))) h = (refl, tt)
digit-Lacks (suc (suc (suc (suc (suc (suc (suc (suc zero)))))))) h = (refl, tt)
digit-Lacks (suc (suc (suc (suc (suc (suc (suc (suc (suc zero))))))))) h = (refl, tt)
digit-Lacks (suc (suc (suc (suc (suc (suc (suc (suc (suc (suc d)))))))))) h =
    let bad : ⊥ = omega arith in elim bad [ ]

decimal_fuel-Lacks : (f n : ℕ) → Lacks b'-' (decimal_fuel f n)
unfolding decimal_fuel
decimal_fuel-Lacks zero n = tt
decimal_fuel-Lacks (suc f) n = elim (Bool-cases (ltb n 10)) [
  | inl small ↦ rw small (digit-Lacks n (grind arith))
  | inr large ↦ rw large (
      Lacks-append b'-' (decimal_fuel f (n / 10)) (digit (n % 10)) (decimal_fuel-Lacks f (n / 10))
        (digit-Lacks (n % 10) (omega arith)))
]

pub decimal-Lacks : (n : ℕ) → Lacks b'-' (decimal n)
unfolding decimal
decimal-Lacks n = decimal_fuel-Lacks (suc n) n

-- A number behind one code point.
lettered : String → ℕ
unfolding drop_codes
lettered s = value 0 (drop_codes 1 s)

lettered-decimal : (c : Char) (n : ℕ) → lettered (String.◌∷◌ c String.[] <> decimal n) ≡ n
unfolding lettered drop_codes
lettered-decimal c n = rw cons-append (rw nil-append (decimal-value n))

pub lettered-injective :
    (c : Char) (m n : ℕ)
    → String.◌∷◌ c String.[] <> decimal m ≡ String.◌∷◌ c String.[] <> decimal n
    → m ≡ n
lettered-injective c m n h = sym (lettered-decimal c m) ∙ ap lettered h ∙ lettered-decimal c n
