-- ===== src/Base/Go.antt =====
-- Go's errors, panics and effects. A call takes the state of everything outside of the process
-- (the server, the file system, the clock, other processes) and returns it with its result.
-- `err e` is a return whose error is `e` and whose other values are zero values.
use Prim.Native.String.{String}
use mathlib.Core.Path.{◌≡◌, refl}
use mathlib.Core.Logic.{◌⊎◌, inl, inr}

-- `error` is `errors.New`, `fmt.Errorf` and `bosherr.Error` with the finished text;
-- `wrap_error` is `bosherr.WrapError`.
pub data Error : Type 0 where
  error : String → Error
  deadline_exceeded : Error
  wrap_error : Error → String → Error

pub data Result {ℓ} (A : Type ℓ) : Type ℓ where
  ok : A → Result A
  err : Error → Result A
  panic : Result A

abbrev pub M : Type 0 → Type 0 → Type 0
M W A = W → Result A × W

module _ {W : Type 0} where
  abbrev pub pure : {A : Type 0} → A → M W A
  pure a w = (ok a, w)

  abbrev pub fail : {A : Type 0} → Error → M W A
  fail e w = (err e, w)

  abbrev pub lift : {A : Type 0} → Result A → M W A
  lift r w = (r, w)

  infixl 5 ◌>>=◌ ◌>>◌
  abbrev pub ◌>>=◌ : {A B : Type 0} → M W A → (A → M W B) → M W B
  ◌>>=◌ m f w =
      let (r, w') = m w in elim r [ ok a ↦ f a w' | err e ↦ (err e, w') | panic ↦ (panic, w') ]

  abbrev pub ◌>>◌ : {A B : Type 0} → M W A → M W B → M W B
  m >> k = m >>= λ _. k

  -- `if err != nil { return bosherr.WrapError(err, message) }` after a call.
  abbrev pub wrapped : {A : Type 0} → String → M W A → M W A
  wrapped message m w =
      let (r, w') = m w in
      elim r [ ok a ↦ (ok a, w') | err e ↦ (err (wrap_error e message), w') | panic ↦ (panic, w') ]

  -- A call whose error is inspected and not simply returned.
  abbrev pub attempt : {A : Type 0} → M W A → M W (Error ⊎ A)
  attempt m w =
      let (r, w') = m w in
      elim r [ ok a ↦ (ok (inr a), w') | err e ↦ (ok (inl e), w') | panic ↦ (panic, w') ]

abbrev pub Done : Type 0
Done = Unit {0}

-- To split on how a call ended, with the equation.
pub Result-cases {ℓ} :
    {A : Type ℓ} (r : Result A) → ((a : A) × (r ≡ ok a)) ⊎ ((e : Error) × (r ≡ err e)) ⊎ (r ≡ panic)
Result-cases (ok a) = inl (a, refl)
Result-cases (err e) = inr (inl (e, refl))
Result-cases panic = inr (inr refl)

pub Returned-cases {ℓ} :
    {A : Type ℓ} (r : Error ⊎ A) → ((a : A) × (r ≡ inr a)) ⊎ ((e : Error) × (r ≡ inl e))
Returned-cases (inr a) = inl (a, refl)
Returned-cases (inl e) = inr (e, refl)

-- What is known of the parts of a chain that returned with no error.
module _ {W A : Type 0} where
  pub bind-ok :
      {B : Type 0} (m : M W A) (f : A → M W B) (w : W) {b : B} {w' : W}
      → (m >>= f) w ≡ (ok b, w')
      → (a : A) × (v : W) × (m w ≡ (ok a, v)) × (f a v ≡ (ok b, w'))
  bind-ok {B} m f w {b} {w'} = go (m w) refl
    where
      go :
          (out : Result A × W)
          → m w ≡ out
          → ((λ _. out) >>= f) w ≡ (ok b, w')
          → (a : A) × (v : W) × (m w ≡ (ok a, v)) × (f a v ≡ (ok b, w'))
      go (ok a, v) e h = (a, v, e, h)
      go (err x, v) e h = cc
      go (panic, v) e h = cc

  pub wrapped-ok :
      (message : String) (m : M W A) (w : W) {a : A} {w' : W}
      → wrapped message m w ≡ (ok a, w')
      → m w ≡ (ok a, w')
  wrapped-ok message m w {a} {w'} = go (m w)
    where
      go : (out : Result A × W) → wrapped message (λ _. out) w ≡ (ok a, w') → out ≡ (ok a, w')
      go (ok b, v) h = h
      go (err x, v) h = cc
      go (panic, v) h = cc
