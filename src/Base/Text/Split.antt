-- ===== src/Base/Text/Split.antt =====
-- `strings.Split` of parts that were joined by its separator.
use Prim.Native.Nat.{ℕ}
use Prim.Native.Char.{Char, code}
use Prim.Native.String.{String, ◌++◌ as ◌<>◌}
use mathlib.Core.Path.{◌≡◌, ap, ◌∙◌}
use mathlib.Core.Bool.{false, true}
use mathlib.Core.List.{[], ◌∷◌}
use text.Mathlib.TextLemmas.{nil-append, append-nil, cons-append, append_assoc}
use bosh_lxd_cpi_release.Base.Tests.{◌=ℕ◌}
use bosh_lxd_cpi_release.Base.Text.{split_onto, split}

-- No code point of the text is `sep`.
abbrev pub Lacks : ℕ → String → Type 0
Lacks sep String.[] = Unit
Lacks sep (String.◌∷◌ c s) = ((code c =ℕ sep) ≡ false) × Lacks sep s

snoc-append :
    (part s : String) (c : Char) → (part <> String.◌∷◌ c String.[]) <> s ≡ part <> String.◌∷◌ c s
snoc-append part s c =
    append_assoc part (String.◌∷◌ c String.[]) s
    ∙ ap (λ t. part <> t) (cons-append c String.[] s ∙ ap (λ t. String.◌∷◌ c t) (nil-append s))

split_onto-Lacks :
    (sep : ℕ) (part s : String) → Lacks sep s → split_onto sep part s ≡ (part <> s) ∷ []
unfolding split_onto
split_onto-Lacks sep part String.[] h = rw append-nil
split_onto-Lacks sep part (String.◌∷◌ c s) (h, hs) = rw h (
    split_onto-Lacks sep (part <> String.◌∷◌ c String.[]) s hs
    ∙ ap (λ t. t ∷ []) (snoc-append part s c))

split_onto-append :
    (sep : ℕ) (part s : String) (c : Char) (t : String)
    → Lacks sep s
    → (code c =ℕ sep) ≡ true
    → split_onto sep part (s <> String.◌∷◌ c t) ≡ (part <> s) ∷ split_onto sep String.[] t
unfolding split_onto
split_onto-append sep part String.[] c t h e = rw nil-append (rw (append-nil part) (rw e))
split_onto-append sep part (String.◌∷◌ d s) c t (h, hs) e = rw cons-append (
    rw h (
      split_onto-append sep (part <> String.◌∷◌ d String.[]) s c t hs e
      ∙ ap (λ u. u ∷ split_onto sep String.[] t) (snoc-append part s d)))

-- A text of two parts around one separator that neither has is split into the parts.
pub split-two :
    (sep : ℕ) (s : String) (c : Char) (t : String)
    → (code c =ℕ sep) ≡ true
    → Lacks sep s
    → Lacks sep t
    → split sep (s <> String.◌∷◌ c t) ≡ s ∷ t ∷ []
unfolding split
split-two sep s c t e hs ht =
    split_onto-append sep String.[] s c t hs e
    ∙ rw (split_onto-Lacks sep String.[] t ht, nil-append s, nil-append t)

pub Lacks-append : (sep : ℕ) (s t : String) → Lacks sep s → Lacks sep t → Lacks sep (s <> t)
Lacks-append sep String.[] t hs ht = rw nil-append ht
Lacks-append sep (String.◌∷◌ c s) t (h, hs) ht = rw cons-append (h, Lacks-append sep s t hs ht)
