-- ===== src/Base/Text.antt =====
-- Go's `strings` functions and `fmt` verbs that the program calls, over native texts.
-- A text is searched through its code points.
pub mod Split
pub mod Decimal
use Prim.Native.Nat.{ℕ, zero, suc, ◌+◌, ◌/◌, ◌%◌}
use Prim.Native.Char.{code}
use Prim.Native.String.{String, ◌++◌ as ◌<>◌}
use mathlib.Core.Bool.{Bool, true, false, ◌&&◌, ◌||◌}
use mathlib.Core.List.{List, [], ◌∷◌, map}
use bosh_lxd_cpi_release.Base.Tests.{ltb, leb, ◌=ℕ◌, if◌then◌else◌}

abbrev pub codes : String → List ℕ
codes String.[] = []
codes (String.◌∷◌ c s) = code c ∷ codes s

unfoldable pub is_prefix_of : List ℕ → List ℕ → Bool
is_prefix_of [] t = true
is_prefix_of (c ∷ s) [] = false
is_prefix_of (c ∷ s) (d ∷ t) = c =ℕ d && is_prefix_of s t

unfoldable pub occurs_in : List ℕ → List ℕ → Bool
unfolding is_prefix_of
occurs_in s [] = is_prefix_of s []
occurs_in s (d ∷ t) = is_prefix_of s (d ∷ t) || occurs_in s t

-- `strings.Contains(s, sub)`
unfoldable pub contains : String → String → Bool
unfolding occurs_in
contains s sub = occurs_in (codes sub) (codes s)

-- `strings.HasPrefix(s, prefix)`
unfoldable pub has_prefix : String → String → Bool
unfolding is_prefix_of
has_prefix s prefix = is_prefix_of (codes prefix) (codes s)

-- `unicode.ToLower` on the code points whose lower case is an ASCII letter (the last two are the
-- dotted capital I and the kelvin sign); on others a code point stands for its lower case.
unfoldable pub lower : ℕ → ℕ
lower c =
    if leb b'A' c && leb c b'Z'
    then c + 32
    else if c =ℕ 304
    then b'i'
    else if c =ℕ 8490
    then b'k'
    else c

-- `strings.Contains(strings.ToLower(s), sub)` for a lower-case ASCII `sub`
unfoldable pub contains_lower : String → String → Bool
unfolding occurs_in lower
contains_lower s sub = occurs_in (codes sub) (map lower (codes s))

-- `strings.Split(s, sep)` for a separator of one code point: `split_onto` carries the part that
-- is being read.
unfoldable pub split_onto : ℕ → String → String → List String
split_onto sep part String.[] = part ∷ []
split_onto sep part (String.◌∷◌ c s) =
    let fresh = part ∷ split_onto sep String.[] s in
    let more = split_onto sep (part <> String.◌∷◌ c String.[]) s in
    if code c =ℕ sep then fresh else more

unfoldable pub split : ℕ → String → List String
unfolding split_onto
split sep s = split_onto sep String.[] s

-- `strings.Replace(s, old, new, 1)`: the first occurrence. `drop_codes n s` is `s` without its
-- first `n` code points.
drop_codes : ℕ → String → String
drop_codes zero s = s
drop_codes (suc n) String.[] = String.[]
drop_codes (suc n) (String.◌∷◌ c s) = drop_codes n s

count : String → ℕ
count String.[] = 0
count (String.◌∷◌ c s) = suc (count s)

unfoldable pub replace_first : String → String → String → String
unfolding has_prefix drop_codes count
replace_first String.[] old new = if has_prefix String.[] old then new else String.[]
replace_first (String.◌∷◌ c s) old new =
    let later = String.◌∷◌ c (replace_first s old new) in
    if has_prefix (String.◌∷◌ c s) old
    then new <> drop_codes (count old) (String.◌∷◌ c s)
    else later

digit : ℕ → String
digit n =
    if n =ℕ 0
    then "0"
    else if n =ℕ 1
    then "1"
    else if n =ℕ 2
    then "2"
    else if n =ℕ 3
    then "3"
    else if n =ℕ 4
    then "4"
    else if n =ℕ 5
    then "5"
    else if n =ℕ 6
    then "6"
    else if n =ℕ 7
    then "7"
    else if n =ℕ 8
    then "8"
    else "9"

decimal_fuel : ℕ → ℕ → String
decimal_fuel zero n = ""
decimal_fuel (suc f) n =
    let rest = decimal_fuel f (n / 10) <> digit (n % 10) in if ltb n 10 then digit n else rest

-- The verb `%d`. A number has no more digits than its value plus one.
unfoldable pub decimal : ℕ → String
unfolding decimal_fuel digit
decimal n = decimal_fuel (suc n) n
